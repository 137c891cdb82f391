-- ===== src/Pow/Dataset/Retry.antt =====
-- src/pow.rs, `shared_fast_dataset`: a request that is repeated once the previous dataset is free.
use xus_miner.Common.{
  ℕ, ◌+◌, ◌&&◌, ◌≤◌, ◌≡◌, inl, inr, refl, Bool, true, false, List, [], ◌∷◌, Option, none, some, ltb,
  if◌then◌else◌, Str, str_eq, str_eq_iff, Result, ok, &&_iff, Bool-cases, arith,
}
use xus_miner.Pow.Dataset.Answer.{acquired}
use xus_miner.Pow.Dataset.{
  SharedDatasetOutcome, SharedDatasetState, Answer, ready, releasing, unavailable, ReleasingAction,
  promote_previous, wait_for_release, drop_previous_and_build, retarget, releasing_action,
  worker_refs, fast_retry_delay, release_step, answer_outcome, answer_existing, build_step,
  shared_fast_dataset,
}

abbrev pub DueOutcome : ℕ → SharedDatasetOutcome → Type 0
DueOutcome time (ready d) = Unit {0}
DueOutcome time (releasing previous_key d retry_at) = retry_at ≤ time
DueOutcome time (unavailable reason retry_at) = retry_at ≤ time

-- The next attempt, if one is set, is due at `time`.
abbrev pub DueBy : ℕ → Option SharedDatasetState → Type 0
DueBy time none = Unit {0}
DueBy time (some s) = DueOutcome time s.outcome

promotes-key :
    (m p k : Str) (pending owned : Bool)
    → releasing_action m p k pending owned ≡ promote_previous
    → p ≡ k
unfolding releasing_action
promotes-key m p k pending owned e = ground (arith, str_eq_iff p k)

waits-key :
    (m p k : Str) (pending owned : Bool)
    → releasing_action m p k pending owned ≡ wait_for_release
    → m ≡ k
unfolding releasing_action
waits-key m p k pending owned e = ground (arith, str_eq_iff m k)

str_eq_refl : (k : Str) → str_eq k k ≡ true
str_eq_refl k = (str_eq_iff k k).1 refl

module _ (build : Str → Result Str ℕ) (now later : ℕ) (key : Str) (d : ℕ) (built : build key ≡ ok d)
    (apart : now + fast_retry_delay ≤ later) where
  -- A request at `later` is granted.
  Grants : List ℕ → Option SharedDatasetState → Type 0
  Grants held slot = (d' : ℕ) × ((shared_fast_dataset build held later key slot).1 ≡ ok d')

  -- The request that follows a first answer is granted.
  Follows : Answer → Type 0
  unfolding Grants
  Follows a = Grants (acquired a.1 []) a.0

  Grants-ready :
      (held : List ℕ) (e : ℕ) → Grants held (some (record { key = key; outcome = ready e }))
  unfolding Grants shared_fast_dataset
  Grants-ready held e = (e, ground (arith, str_eq_refl key))

  Grants-releasing :
      (previous_key : Str) (e retry_at : ℕ)
      → retry_at ≤ later
      → Grants [] (some (record { key = key; outcome = releasing previous_key e retry_at }))
  unfolding Grants shared_fast_dataset
  Grants-releasing previous_key e retry_at due = elim (Bool-cases (str_eq previous_key key)) [
    | inl same ↦ (e, ground arith)
    | inr other ↦ (d, ground (arith, str_eq_refl key))
  ]

  Grants-unavailable :
      (reason : Str) (retry_at : ℕ)
      → retry_at ≤ later
      → Grants [] (some (record { key = key; outcome = unavailable reason retry_at }))
  unfolding Grants shared_fast_dataset
  Grants-unavailable reason retry_at due = (d, ground arith)

  Follows-build : Follows (build_step build now key)
  unfolding Follows build_step
  Follows-build = rw (built, build_step) (Grants-ready (d ∷ []) d)

  Follows-release :
      (managed_key previous_key : Str) (e retry_at : ℕ) (action : ReleasingAction)
      → retry_at ≤ later
      → releasing_action managed_key previous_key key (ltb now retry_at) false ≡ action
      → Follows (elim (release_step managed_key previous_key e retry_at action key now) [
        | some answer ↦ answer
        | none ↦ build_step build now key
      ])
  unfolding release_step releasing_action
  Follows-release managed_key previous_key e retry_at promote_previous due chosen =
      let same : previous_key ≡ key =
        promotes-key managed_key previous_key key (ltb now retry_at) false chosen in
      unfold Follows in rw same (Grants-ready (e ∷ []) e)
  Follows-release managed_key previous_key e retry_at wait_for_release due chosen =
      let same : managed_key ≡ key =
        waits-key managed_key previous_key key (ltb now retry_at) false chosen in
      let soon : (if ltb now retry_at then retry_at else now + fast_retry_delay) ≤ later =
        ground arith in
      unfold Follows in rw same (Grants-releasing previous_key e _ soon)
  Follows-release managed_key previous_key e retry_at drop_previous_and_build due chosen =
      Follows-build
  Follows-release managed_key previous_key e retry_at retarget due chosen =
      unfold Follows in Grants-releasing previous_key e (now + fast_retry_delay) apart

  Follows-outcome :
      (managed_key : Str) (o : SharedDatasetOutcome)
      → DueOutcome later o
      → Follows (elim (answer_outcome [] now key managed_key o) [
        | some answer ↦ answer
        | none ↦ build_step build now key
      ])
  unfolding answer_outcome
  Follows-outcome managed_key (ready e) due = elim (Bool-cases (str_eq managed_key key)) [
    | inl same ↦
        rw same
          (unfold Follows in rw ((str_eq_iff managed_key key).0 same) (Grants-ready (e ∷ []) e))
    | inr other ↦
        rw other (unfold Follows in Grants-releasing managed_key e (now + fast_retry_delay) apart)
  ]
  Follows-outcome managed_key (unavailable reason retry_at) due =
      elim (Bool-cases (str_eq managed_key key && ltb now retry_at)) [
        | inl wait ↦
            let same = (str_eq_iff managed_key key).0 ((&&_iff _ _).0 wait).0 in
            rw wait (unfold Follows in rw same (Grants-unavailable reason retry_at due))
        | inr go ↦ rw go Follows-build
      ]
  Follows-outcome managed_key (releasing previous_key e retry_at) due =
      unfold worker_refs in
      Follows-release managed_key previous_key e retry_at
        (releasing_action managed_key previous_key key (ltb now retry_at) false) due refl

  Follows-slot :
      (slot : Option SharedDatasetState)
      → DueBy later slot
      → Follows (shared_fast_dataset build [] now key slot)
  unfolding shared_fast_dataset answer_existing
  Follows-slot none due = Follows-build
  Follows-slot (some s) due = Follows-outcome s.key s.outcome due

-- Of two requests for one key, `FAST_RETRY_DELAY` apart, whose first finds no worker with a
-- dataset, the second gets one, whatever state the manager was in, if a build for the key succeeds
-- and no retry was set for later than the second request.
pub second_request_granted :
    (build : Str → Result Str ℕ) (now later : ℕ) (key : Str) (slot : Option SharedDatasetState)
    (d : ℕ)
    → build key ≡ ok d
    → now + fast_retry_delay ≤ later
    → DueBy later slot
    → let first = shared_fast_dataset build [] now key slot in
      (d' : ℕ) × ((shared_fast_dataset build (acquired first.1 []) later key first.0).1 ≡ ok d')
second_request_granted build now later key slot d built apart due =
    unfold Follows in Follows-slot build now later key d built apart slot due
