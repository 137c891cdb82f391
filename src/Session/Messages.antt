-- ===== src/Session/Messages.antt =====
-- src/main.rs, `handle_message` and `install_job_value`: the messages of a pool.
pub mod Effects
use xus_miner.Common.{
  ℕ, ◌+◌, ◌-◌, ◌^◌, ◌%◌, Bool, true, false, ◌&&◌, List, [], ◌∷◌, ◌++◌, Option, none, some, ltb, leb,
  ◌==◌, if◌then◌else◌, saturating_add, Str, str_eq, codes, Result, ok, err,
}
use xus_miner.Common
use xus_miner.Pow.{PowAlgo}
use xus_miner.Job.{Job, JobError, Codecs}
use xus_miner.Job.Stratum.{from_stratum}
use xus_miner.Memory.{RandomxMemoryGate, MemoryError, ensure_safe}
use xus_miner.Blockflow.Sealed.{SealedBlocks, record_entry}
use xus_miner.Blockflow.Sealed
use xus_miner.Session.{
  State, Event, Connection, emit, fetch_add, install_job, finish_share, login_id, first_submit_id,
}

-- The reply to a share.
pub count_share : Bool → State → State
unfolding emit
count_share good s =
    let t =
      if good
      then record s { accepted = fetch_add s.accepted 1 }
      else record s { rejected = fetch_add s.rejected 1 } in
    emit (Event.share t.submitted t.accepted t.rejected) t

-- The kinds of the `io::Error` that ends a session, with what they carry.
pub data SessionError : Type 0 where
  bad_job : JobError → SessionError
  out_of_memory : MemoryError → SessionError
  no_params login_rejected no_job : SessionError

-- What a message changes.
pub record Pool : Type 0 where
  pub state : State
  pub connection : Connection
  pub gate : RandomxMemoryGate

module _ (C : Codecs) where
  open C use {json}
  open json use {Value, field?, as_u64, as_str, is_null}

  pass_gate :
      ℕ
      → Job
      → Pool
      → RandomxMemoryGate × Result MemoryError (Unit {0})
      → Pool × Result SessionError (Unit {0})
  unfolding install_job
  pass_gate address job p (gate, err e) =
      (record p { gate = gate }, err (SessionError.out_of_memory e))
  pass_gate address job p (gate, ok done) =
      (record p { state = install_job address job p.state; gate = gate }, ok tt)

  install_parsed :
      ℕ → Option (ℕ × ℕ) → Pool → Result JobError Job → Pool × Result SessionError (Unit {0})
  unfolding pass_gate
  install_parsed address scan p (err e) = (p, err (SessionError.bad_job e))
  install_parsed address scan p (ok job) =
      pass_gate address job p (ensure_safe job.algo scan p.gate)

  -- The address is that of the new `Arc`, and the scan what the operating system would answer.
  pub install_job_value : ℕ → Option (ℕ × ℕ) → Value → Pool → Pool × Result SessionError (Unit {0})
  unfolding install_parsed
  install_job_value address scan v p = install_parsed address scan p (from_stratum C v)

  -- `message.get("error").is_none_or(Value::is_null)`.
  no_error : Value → Bool
  no_error message = elim (field? message (codes "error")) [ none ↦ true | some e ↦ is_null e ]

  is_job_push : Value → Bool
  is_job_push message = elim (Common.◌>>=◌ (field? message (codes "method")) as_str) [
    | none ↦ false
    | some method ↦ str_eq method (codes "job")
  ]

  -- The job of a push or of a login reply, or the error for a message without it.
  offered :
      ℕ
      → Option (ℕ × ℕ)
      → SessionError
      → Pool
      → Option Value
      → Pool × Result SessionError (Unit {0})
  unfolding install_job_value
  offered address scan missing p none = (p, err missing)
  offered address scan missing p (some v) = install_job_value address scan v p

  -- By the message's identifier.
  reply : ℕ → Option (ℕ × ℕ) → Value → Pool → Option ℕ → Pool × Result SessionError (Unit {0})
  unfolding no_error offered count_share finish_share
  reply address scan message p none = (p, ok tt)
  reply address scan message p (some id) =
      if id == login_id
      then (if no_error message
          then offered address scan SessionError.no_job p
              (Common.◌>>=◌ (field? message (codes "result")) (λ r. field? r (codes "job")))
          else (p, err SessionError.login_rejected))
      else if leb first_submit_id id
      then (
        record p {
          state = count_share (no_error message) p.state;
          connection = finish_share p.connection;
        },
        ok tt,
      )
      else (p, ok tt)

  pub handle_message : ℕ → Option (ℕ × ℕ) → Value → Pool → Pool × Result SessionError (Unit {0})
  unfolding is_job_push offered reply
  handle_message address scan message p =
      if is_job_push message
      then offered address scan SessionError.no_params p (field? message (codes "params"))
      else reply address scan message p (Common.◌>>=◌ (field? message (codes "id")) as_u64)
