-- ===== src/Pow/Dataset.antt =====
-- src/pow.rs: `SHARED_FAST_DATASET`, the manager of the one full RandomX dataset. A dataset is known
-- by the address of its allocation; the manager's calls are atomic, since it runs under its lock.
pub mod Answer
pub mod Safety
pub mod Request
pub mod Retry
use xus_miner.Common.{
  ℕ, suc, ◌+◌, Bool, true, false, ◌||◌, ◌&&◌, not, List, [], ◌∷◌, Option, none, some, ltb, ◌==◌,
  if◌then◌else◌, Str, str_eq, codes, Result, ok, err,
}

-- `FAST_RETRY_DELAY`, in seconds.
abbrev pub fast_retry_delay : ℕ
fast_retry_delay = 15

pub data SharedDatasetOutcome : Type 0 where
  ready : ℕ → SharedDatasetOutcome
  -- The key of the previous dataset, that dataset, and the time of the next attempt.
  releasing : Str → ℕ → ℕ → SharedDatasetOutcome
  unavailable : Str → ℕ → SharedDatasetOutcome

pub record SharedDatasetState : Type 0 where
  pub key : Str
  pub outcome : SharedDatasetOutcome

pub data ReleasingAction : Type 0 where
  promote_previous wait_for_release drop_previous_and_build retarget : ReleasingAction

pub releasing_action : Str → Str → Str → Bool → Bool → ReleasingAction
releasing_action managed_key previous_key requested_key retry_pending workers_still_own_previous =
    if str_eq previous_key requested_key
    then promote_previous
    else if not (str_eq managed_key requested_key)
    then retarget
    else if retry_pending || workers_still_own_previous
    then wait_for_release
    else drop_previous_and_build

-- `Arc::strong_count` less the manager's own reference: the references that workers hold.
pub worker_refs : ℕ → List ℕ → ℕ
worker_refs d [] = 0
worker_refs d (h ∷ held) = if h == d then suc (worker_refs d held) else worker_refs d held

abbrev changed_reason : Str
changed_reason =
    codes "RandomX seed changed; releasing the previous shared dataset before rebuilding"

abbrev waiting_reason : Str
waiting_reason =
    codes "RandomX seed changed; waiting for every worker to release the previous shared dataset"

abbrev pub Answer : Type 0
Answer = Option SharedDatasetState × Result Str ℕ

-- The manager's answer while the previous dataset drains; `none` goes on to build.
release_step : Str → Str → ℕ → ℕ → ReleasingAction → Str → ℕ → Option Answer
release_step managed_key previous_key previous retry_at promote_previous key now =
    some (some (record { key = previous_key; outcome = ready previous }), ok previous)
release_step managed_key previous_key previous retry_at wait_for_release key now = some (
  some (record {
    key = managed_key;
    outcome =
        releasing previous_key previous
          (if ltb now retry_at then retry_at else now + fast_retry_delay);
  }),
  err waiting_reason,
)
release_step managed_key previous_key previous retry_at drop_previous_and_build key now = none
release_step managed_key previous_key previous retry_at retarget key now = some (
  some (record { key = key; outcome = releasing previous_key previous (now + fast_retry_delay) }),
  err changed_reason,
)

answer_outcome : List ℕ → ℕ → Str → Str → SharedDatasetOutcome → Option Answer
unfolding releasing_action release_step worker_refs
answer_outcome held now key managed_key (ready d) =
    if str_eq managed_key key
    then some (some (record { key = managed_key; outcome = ready d }), ok d)
    else some (
      some (record { key = key; outcome = releasing managed_key d (now + fast_retry_delay) }),
      err changed_reason,
    )
answer_outcome held now key managed_key (unavailable reason retry_at) =
    if str_eq managed_key key && ltb now retry_at
    then some
        (some (record { key = managed_key; outcome = unavailable reason retry_at }), err reason)
    else none
answer_outcome held now key managed_key (releasing previous_key previous retry_at) =
    release_step managed_key previous_key previous retry_at
      (releasing_action managed_key previous_key key (ltb now retry_at)
        (ltb 0 (worker_refs previous held)))
      key now

-- The early returns of `shared_fast_dataset`; `none` where it goes on to build a dataset. The list
-- has an entry for each reference that a worker holds.
unfoldable pub answer_existing : List ℕ → ℕ → Str → Option SharedDatasetState → Option Answer
unfolding answer_outcome
answer_existing held now key none = none
answer_existing held now key (some existing) =
    answer_outcome held now key existing.key existing.outcome

build_step : (Str → Result Str ℕ) → ℕ → Str → Answer
build_step build now key = elim (build key) [
  | ok d ↦ (some (record { key = key; outcome = ready d }), ok d)
  | err reason ↦ (
    some (record { key = key; outcome = unavailable reason (now + fast_retry_delay) }),
    err reason,
  )
]

unfoldable pub shared_fast_dataset :
    (Str → Result Str ℕ) → List ℕ → ℕ → Str → Option SharedDatasetState → Answer
unfolding answer_existing build_step
shared_fast_dataset build held now key slot = elim (answer_existing held now key slot) [
  | some answer ↦ answer
  | none ↦ build_step build now key
]

is_unused : List ℕ → SharedDatasetOutcome → Bool
unfolding worker_refs
is_unused held (ready d) = worker_refs d held == 0
is_unused held _ = false

unfoldable pub release_fast_dataset_if_unused :
    List ℕ → ℕ → Str → Str → Option SharedDatasetState → Option SharedDatasetState
unfolding is_unused
release_fast_dataset_if_unused held now key reason none = none
release_fast_dataset_if_unused held now key reason (some existing) =
    if str_eq existing.key key && is_unused held existing.outcome
    then some (record { key = key; outcome = unavailable reason (now + fast_retry_delay) })
    else some existing
