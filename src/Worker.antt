-- ===== src/Worker.antt =====
-- src/main.rs: `worker_loop`, the search for nonces, and `validate_rpc_submission`. What the worker
-- asks of other parts is an argument: the outcome of the hash, whether the engine was built for it,
-- the clock in seconds, the node's reply, and whether the share could be written to the socket.
pub mod Fresh
pub mod Submit
use xus_miner.Common.{
  ℕ, ◌+◌, ◌-◌, Bool, true, false, ◌&&◌, ◌||◌, not, List, [], ◌∷◌, Option, none, some, ltb, leb,
  ◌==◌, if◌then◌else◌, u64_max, Str, str_eq, codes, Result, ok, err, ok_or, ensure,
}
use xus_miner.Common
use xus_miner.Common.Try.{◌>>=◌, ◌>>◌}
use xus_miner.Pow.{
  PowAlgo, MiningMode, random_x_fast_shared, random_x_light_fallback, random_x_light_recovery,
  telemetry_name,
}
use xus_miner.Job.{Job, Bytes, Codecs, template_id_for_blob}
use xus_miner.Job.Nonce.{splice_nonce, first_nonce, next_nonce}
use xus_miner.Session.{
  State, Event, Connection, emit, fetch_add, record_sealed_block, clear_job_if_current,
  record_round_hashes, reserve_share, finish_share,
}

-- The local variables of the loop.
pub record Worker : Type 0 where
  pub id : ℕ
  pub generation : ℕ
  pub job : Option (ℕ × Job)
  pub blob : Bytes
  pub nonce : ℕ
  pub ready_state : Option (PowAlgo × Bytes × MiningMode)
  pub preparation_announced : Bool
  pub last_pow_error : Option (Str × ℕ)

unfoldable pub new_worker : ℕ → Worker
new_worker id = record {
  id = id;
  generation = u64_max;
  job = none;
  blob = [];
  nonce = first_nonce id;
  ready_state = none;
  preparation_announced = false;
  last_pow_error = none;
}

-- The head of the loop: the generation is loaded, and where it is new, the job is read behind it.
unfoldable pub observe : ℕ → Worker → Worker
observe latest w =
    if latest == w.generation
    then w
    else record w { generation = latest; preparation_announced = false }

unfoldable pub reload : Option (ℕ × Job) → Worker → Worker
reload none w = record w { job = none }
reload (some (address, job)) w = record w {
  job = some (address, job);
  blob = job.blob;
  nonce = first_nonce w.id;
}

-- The callback before an engine is built.
pub announce : Worker → State → Worker × State
announce w s = if w.preparation_announced then (w, s) else (
  record w { ready_state = none; preparation_announced = true },
  emit (Event.worker_initializing w.id) s,
)

-- `previous != &error || at.elapsed() >= 30 s`.
should_report : Option (Str × ℕ) → Str → ℕ → Bool
should_report none error now = true
should_report (some (previous, at)) error now = not (str_eq previous error) || leb 30 (now - at)

-- The engine is unavailable: the round of hashes ends.
pub engine_failed : Str → ℕ → Worker → State → Worker × State
unfolding should_report
engine_failed error now w s =
    let v = record w {
      ready_state = none;
      preparation_announced = true;
      nonce = next_nonce w.nonce;
    } in
    if should_report w.last_pow_error error now
    then (record v { last_pow_error = some (error, now) }, emit (Event.worker_error w.id error) s)
    else (v, s)

is_algo : PowAlgo → PowAlgo → Bool
is_algo PowAlgo.sha256d PowAlgo.sha256d = true
is_algo PowAlgo.random_x PowAlgo.random_x = true
is_algo _ _ = false

is_mode : MiningMode → MiningMode → Bool
is_mode MiningMode.sha256d MiningMode.sha256d = true
is_mode random_x_fast_shared random_x_fast_shared = true
is_mode random_x_light_fallback random_x_light_fallback = true
is_mode random_x_light_recovery random_x_light_recovery = true
is_mode _ _ = false

is_ready : Option (PowAlgo × Bytes × MiningMode) → Job → MiningMode → Bool
unfolding is_algo is_mode
is_ready none job mode = false
is_ready (some (algo, key, known)) job mode =
    is_algo algo job.algo && str_eq key job.pow_key && is_mode known mode

recovered : Worker → State → Worker × State
recovered w s = elim w.last_pow_error [
  | none ↦ (w, s)
  | some _ ↦ (record w { last_pow_error = none }, emit (Event.worker_recovered w.id) s)
]

pub engine_ready : Job → MiningMode → Worker → State → Worker × State
unfolding recovered is_ready
engine_ready job mode w s =
    let (v, t) = recovered (record w { preparation_announced = false }) s in
    if is_ready v.ready_state job mode then (v, t) else (
      record v { ready_state = some (job.algo, job.pow_key, mode) },
      emit (Event.worker_ready w.id (telemetry_name mode)) t,
    )

-- `seal.digest <= current.target`, on arrays of bytes.
pub bytes_le : Bytes → Bytes → Bool
bytes_le [] ys = true
bytes_le (x ∷ xs) [] = false
bytes_le (x ∷ xs) (y ∷ ys) = let rest = bytes_le xs ys in ltb x y || (x == y && rest)

-- `seal.digest <= current.target && generation == …`: whether the worker submits.
unfoldable pub submits : State → Worker → Job → Bytes → Bool
unfolding bytes_le
submits s w job digest = bytes_le digest job.target && s.generation == w.generation

-- The end of a round of at most `WORK_BATCH` hashes.
pub finish_batch : Job → ℕ → State → State
finish_batch job completed s = record_round_hashes job completed (record s {
  interval_hashes = fetch_add s.interval_hashes completed;
  total_hashes = fetch_add s.total_hashes completed;
})
