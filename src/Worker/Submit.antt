-- ===== src/Worker/Submit.antt =====
-- src/main.rs: what `worker_loop` does with a seal that meets the target, and
-- `validate_rpc_submission`.
pub mod Sealing
use xus_miner.Common.{
  ℕ, ◌+◌, ◌-◌, Bool, true, false, ◌&&◌, ◌||◌, not, List, [], ◌∷◌, Option, none, some, ltb, leb,
  ◌==◌, if◌then◌else◌, u64_max, Str, str_eq, codes, Result, ok, err, ok_or, ensure,
}
use xus_miner.Common
use xus_miner.Common.Try.{◌>>=◌, ◌>>◌}
use xus_miner.Pow.{
  PowAlgo, MiningMode, random_x_fast_shared, random_x_light_fallback, random_x_light_recovery,
  telemetry_name,
}
use xus_miner.Job.{Job, Bytes, Codecs, template_id_for_blob}
use xus_miner.Job.Nonce.{splice_nonce, first_nonce, next_nonce}
use xus_miner.Session.{
  State, Event, Connection, emit, fetch_add, record_sealed_block, clear_job_if_current,
  record_round_hashes, reserve_share, finish_share,
}
use xus_miner.Worker.{Worker, submits}

pub data SubmissionError : Type 0 where
  refused no_verdict no_height wrong_height no_hash wrong_hash : SubmissionError
  unreachable : Str → SubmissionError

-- The share that goes to the pool; its nonce is written with `nonce_wire` there.
pub record Share : Type 0 where
  pub request_id : ℕ
  pub job_id : Str
  pub nonce : ℕ
  pub result : Bytes

pub submit_share :
    Job → ℕ → Bytes → Bool → State → Option Connection → State × Option Connection × Option Share
submit_share job nonce digest written s none =
    (record s { next_request = fetch_add s.next_request 1 }, none, none)
submit_share job nonce digest written s (some c) =
    let t = record s { next_request = fetch_add s.next_request 1 } in
    let (reserved, granted) = reserve_share c in
    if granted
    then (if written
        then (
          record t { submitted = fetch_add t.submitted 1 },
          some reserved,
          some (record {
            request_id = s.next_request;
            job_id = job.id;
            nonce = nonce;
            result = digest;
          }),
        )
        else (t, some (finish_share reserved), none))
    else (t, some c, none)

check_accepted : Option Bool → Result SubmissionError (Unit {0})
check_accepted none = err SubmissionError.no_verdict
check_accepted (some true) = ok tt
check_accepted (some false) = err SubmissionError.refused

module _ (C : Codecs) where
  open C use {json}
  open json use {Value, field?, as_u64, as_str, as_bool}

  pub validate_rpc_submission : Value → Job → Bytes → Result SubmissionError (Unit {0})
  unfolding check_accepted
  validate_rpc_submission v job sealed_blob = do
    check_accepted (Common.◌>>=◌ (field? v (codes "accepted")) as_bool)
    height ← ok_or (Common.◌>>=◌ (field? v (codes "height")) as_u64) SubmissionError.no_height
    ensure (height == job.height) SubmissionError.wrong_height
    hash ← ok_or (Common.◌>>=◌ (field? v (codes "hash")) as_str) SubmissionError.no_hash
    ensure (str_eq hash (template_id_for_blob C sealed_blob)) SubmissionError.wrong_hash
    ok tt

  -- The reply of `rpc_call`, checked.
  pub verdict : Result Str Value → Job → Bytes → Result SubmissionError (Unit {0})
  unfolding validate_rpc_submission
  verdict (err error) job sealed_blob = err (SubmissionError.unreachable error)
  verdict (ok v) job sealed_blob = validate_rpc_submission v job sealed_blob

  count_block : ℕ → Job → Bytes → State → Result SubmissionError (Unit {0}) → State
  count_block address job sealed_blob s (err error) = record s { rejected = fetch_add s.rejected 1 }
  count_block address job sealed_blob s (ok done) =
      let t =
        record_sealed_block job.height (template_id_for_blob C sealed_blob)
          (record s { accepted = fetch_add s.accepted 1 }) in
      (clear_job_if_current address job (emit (Event.share t.submitted t.accepted t.rejected) t)).0

  -- The submission of a block to the node.
  pub submit_block : ℕ → Job → Bytes → Result Str Value → State → State
  unfolding count_block verdict
  submit_block address job sealed_blob reply s =
      count_block address job sealed_blob (record s { submitted = fetch_add s.submitted 1 })
        (verdict reply job sealed_blob)

  -- A seal that is to be submitted: to the node, if an endpoint is set, or else to the pool.
  pub submit :
      Worker
      → ℕ
      → Job
      → Bytes
      → Result Str Value
      → Bool
      → State
      → Option Connection
      → State × Option Connection × Option Share
  unfolding submit_block submit_share
  submit w address job digest reply written s c = elim s.rpc_endpoint [
    | some endpoint ↦ (submit_block address job w.blob reply s, c, none)
    | none ↦ submit_share job w.nonce digest written s c
  ]

  -- `copy_from_slice`, before the hash.
  pub prepare : Job → Worker → Worker
  prepare job w = record w { blob = splice_nonce w.blob job.nonce_offset w.nonce }

  -- Behind a hash that succeeded.
  pub finish_hash :
      Worker
      → ℕ
      → Job
      → Bytes
      → Result Str Value
      → Bool
      → State
      → Option Connection
      → Worker × State × Option Connection × Option Share
  unfolding submits submit
  finish_hash w address job digest reply written s c =
      let next = record w { nonce = next_nonce w.nonce } in
      if submits s w job digest
      then (let (t, d, sent) = submit w address job digest reply written s c in (next, t, d, sent))
      else (next, s, c, none)
