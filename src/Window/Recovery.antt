-- ===== src/Window/Recovery.antt =====
-- src/gui.rs: the automatic restart of an engine that failed, and the readiness of its workers. The
-- log, the crash reports and the process itself are left out; times are in seconds. On Windows a
-- restart uses one worker.
pub mod Restarts
pub mod Honest
pub mod Tracked
use xus_miner.Common.{
  ℕ, suc, ◌+◌, ◌-◌, ◌*◌, ◌^◌, min, Bool, true, false, ◌&&◌, ◌||◌, not, List, [], ◌∷◌, ◌++◌, Option,
  none, some, ltb, leb, ◌==◌, if◌then◌else◌, any, length, Str, codes, is_some, is_empty, u64_max,
}
use xus_miner.Common.BTree.{BTreeMap, contains_key, insert, retain}
use xus_miner.Feed.{decimal}

abbrev pub engine_restart_base_secs : ℕ
engine_restart_base_secs = 2

abbrev pub engine_restart_max_secs : ℕ
engine_restart_max_secs = 60

abbrev pub max_automatic_engine_restarts : ℕ
max_automatic_engine_restarts = 5

pub data Phase : Type 0 where
  idle starting connecting authenticating mining reconnecting stopping error : Phase

is_error : Phase → Bool
is_error Phase.error = true
is_error _ = false

abbrev pub is_mining : Phase → Bool
is_mining Phase.mining = true
is_mining _ = false

-- The part of `MinerApp` that the recovery changes.
pub record App : Type 0 where
  pub workers : ℕ
  pub phase : Phase
  pub last_error : Str
  pub requested_stop : Bool
  pub automatic_recovery_enabled : Bool
  pub automatic_restart_attempts : ℕ
  pub automatic_restart_at : Option ℕ
  pub single_worker_recovery : Bool
  pub light_randomx_recovery : Bool
  pub engine_fatal_seen : Bool
  pub worker_error_can_restore_mining : Bool
  pub worker_errors : BTreeMap Str
  pub ready_worker_ids : BTreeMap (Unit {0})
  pub ready_workers : ℕ
  pub stable_hashing_since : Option ℕ

saturating_mul : ℕ → ℕ → ℕ
saturating_mul a b = if ltb u64_max (a * b) then u64_max else a * b

pub automatic_restart_delay : ℕ → ℕ
unfolding saturating_mul
automatic_restart_delay attempt =
    let shift = min (attempt - 1) 5 in
    min (saturating_mul engine_restart_base_secs (2 ^ shift)) engine_restart_max_secs

exhausted : Str → Str
exhausted reason =
    reason
    ++ codes " Automatic recovery stopped after "
    ++ decimal max_automatic_engine_restarts
    ++ codes " attempts; review the saved crash reports before restarting."

-- The restart is given up, or it is planned.
give_up : Str → App → App
unfolding exhausted
give_up reason a = record a {
  automatic_recovery_enabled = false;
  automatic_restart_at = none;
  phase = Phase.error;
  last_error = exhausted reason;
}

plan_restart : ℕ → Str → App → App
unfolding automatic_restart_delay
plan_restart now reason a = record a {
  automatic_restart_attempts = a.automatic_restart_attempts + 1;
  automatic_restart_at = some (now + automatic_restart_delay (a.automatic_restart_attempts + 1));
  phase = Phase.reconnecting;
  last_error = reason;
}

-- The first argument tells whether the system is Windows.
pub schedule_automatic_restart : Bool → ℕ → Str → App → App
unfolding give_up plan_restart
schedule_automatic_restart windows now reason a =
    let b = if windows then record a { single_worker_recovery = true } else a in
    if a.requested_stop || not a.automatic_recovery_enabled
    then a
    else if leb max_automatic_engine_restarts b.automatic_restart_attempts
    then give_up reason b
    else plan_restart now reason b

pub fail_engine_start : Bool → ℕ → Str → Bool → App → App
unfolding schedule_automatic_restart
fail_engine_start windows now reason automatic a =
    let failed = record a { phase = Phase.error; last_error = reason } in
    if automatic then schedule_automatic_restart windows now reason failed else failed

pub data RecoveryEscalation : Type 0 where
  keep light terminal : RecoveryEscalation

is_code : List ℕ → Option ℕ → Bool
is_code expected none = false
is_code expected (some code) = any (λ c. c == code) expected

-- By the exit code, as a `u32`.
pub exit_status_is_native_execution_failure : Option ℕ → Bool
unfolding is_code
exit_status_is_native_execution_failure code =
    is_code (0xc0000005 ∷ 0xc000001d ∷ 0xc0000374 ∷ 0xc0000409 ∷ []) code

pub exit_status_requires_light_randomx : Option ℕ → Bool
unfolding is_code
exit_status_requires_light_randomx code =
    is_code (0xc0000017 ∷ 0xc000009a ∷ 0xc000012c ∷ 0xc000012d ∷ []) code

pub recovery_escalation : Bool → Option ℕ → Bool → ℕ → RecoveryEscalation
unfolding is_code exit_status_is_native_execution_failure exit_status_requires_light_randomx
recovery_escalation windows code light_mode prior_attempts =
    if not windows
    then RecoveryEscalation.keep
    else if is_code (0xc0000135 ∷ []) code
    then RecoveryEscalation.terminal
    else if light_mode
    then RecoveryEscalation.keep
    else if exit_status_requires_light_randomx code
        || exit_status_is_native_execution_failure code
        || leb 1 prior_attempts
    then RecoveryEscalation.light
    else RecoveryEscalation.keep

unfoldable pub effective_engine_workers : Bool → App → ℕ
effective_engine_workers windows a = if windows && a.single_worker_recovery then 1 else a.workers

without : {V : Type 0} → ℕ → BTreeMap V → BTreeMap V
without worker m = retain (λ w. not (w == worker)) m

pub mark_worker_unready : ℕ → App → App
unfolding without
mark_worker_unready worker a =
    let ready = without worker a.ready_worker_ids in
    record a { ready_worker_ids = ready; ready_workers = length ready; stable_hashing_since = none }

pub worker_error_line : ℕ → Str → Str
worker_error_line worker message =
    codes "Worker " ++ decimal (worker + 1) ++ codes " error: " ++ message

-- The first error that is left, or what follows on the last one.
show_first : BTreeMap Str → App → App → App
unfolding worker_error_line
show_first [] settled failing = settled
show_first ((worker, message) ∷ errors) settled failing = record failing {
  last_error = worker_error_line worker message;
}

with_ready : ℕ → App → App
with_ready worker a =
    let ready = insert worker tt a.ready_worker_ids in
    record a { ready_worker_ids = ready; ready_workers = length ready }

restore : Bool → App → App
unfolding is_error show_first
restore recovered a =
    let shown = show_first a.worker_errors (record a { phase = Phase.mining; last_error = [] }) a in
    if recovered && a.worker_error_can_restore_mining && not a.engine_fatal_seen && is_error a.phase
    then shown
    else a

pub no_errors : BTreeMap Str → Bool
no_errors [] = true
no_errors (e ∷ errors) = false

forget_errors : App → App
unfolding no_errors
forget_errors a =
    if no_errors a.worker_errors then record a { worker_error_can_restore_mining = false } else a

pub mark_worker_ready : Bool → ℕ → App → App × Bool
unfolding effective_engine_workers without with_ready restore forget_errors
mark_worker_ready windows worker a =
    let newly_ready = not (contains_key worker a.ready_worker_ids) in
    let recovered = contains_key worker a.worker_errors in
    let cleared = record (with_ready worker a) { worker_errors = without worker a.worker_errors } in
    if leb (effective_engine_workers windows a) worker || a.engine_fatal_seen
    then (a, false)
    else (forget_errors (restore recovered cleared), newly_ready || recovered)

pub enter_mining_phase : App → App
unfolding show_first
enter_mining_phase a =
    if a.engine_fatal_seen
    then record a { phase = Phase.error; worker_error_can_restore_mining = false }
    else show_first a.worker_errors
        (record a { phase = Phase.mining; worker_error_can_restore_mining = false })
        (record a { phase = Phase.error; worker_error_can_restore_mining = true })

pub enter_connection_phase : Phase → App → App
unfolding show_first
enter_connection_phase phase a =
    let calm = record a { worker_error_can_restore_mining = false } in
    if a.engine_fatal_seen
    then record calm { phase = Phase.error }
    else show_first a.worker_errors (record calm { phase = phase })
        (record calm { phase = Phase.error })
