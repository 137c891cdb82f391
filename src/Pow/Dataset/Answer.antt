-- ===== src/Pow/Dataset/Answer.antt =====
-- src/pow.rs, `shared_fast_dataset`: what an answer does to the manager's dataset.
use xus_miner.Common.{
  ℕ, ◌+◌, ◌&&◌, ◌≡◌, inl, inr, refl, ◌∙◌, true, List, [], ◌∷◌, Option, none, some, ltb, ==_iff, Str,
  str_eq, Result, ok, err, All, &&_iff, Bool-cases, Option-cases, arith,
}
use mathlib.Core.Path.{subst}
use xus_miner.Pow.Dataset.{
  SharedDatasetOutcome, SharedDatasetState, Answer, ready, releasing, unavailable, ReleasingAction,
  promote_previous, wait_for_release, drop_previous_and_build, retarget, worker_refs,
  fast_retry_delay, release_step, answer_outcome, answer_existing, build_step, shared_fast_dataset,
  is_unused, release_fast_dataset_if_unused,
}

-- The dataset that the manager keeps alive.
abbrev pub outcome_dataset : SharedDatasetOutcome → Option ℕ
outcome_dataset (ready d) = some d
outcome_dataset (releasing key d retry_at) = some d
outcome_dataset (unavailable reason retry_at) = none

abbrev pub managed : Option SharedDatasetState → Option ℕ
managed none = none
managed (some s) = outcome_dataset s.outcome

-- Every reference that a worker holds is one to the manager's dataset.
abbrev pub Alone : Option SharedDatasetState → List ℕ → Type 0
Alone slot held = All (λ d. managed slot ≡ some d) held

abbrev pub acquired : Result Str ℕ → List ℕ → List ℕ
acquired (ok d) held = d ∷ held
acquired (err reason) held = held

pub worker_refs-zero :
    (d : ℕ) (held : List ℕ)
    → All (λ h. ◌≡◌ {A = Option ℕ} (some d) (some h)) held
    → worker_refs d held ≡ 0
    → held ≡ []
unfolding worker_refs
worker_refs-zero d [] a e = refl
worker_refs-zero d (h ∷ held) a e = ground arith

none_held : (o : Option ℕ) (held : List ℕ) → o ≡ none → All (λ h. o ≡ some h) held → held ≡ []
none_held o [] e a = refl
none_held o (h ∷ held) e a = cc (e, a.0)

answer_outcome-none :
    (held : List ℕ) (now : ℕ) (key managed_key : Str) (o : SharedDatasetOutcome)
    → All (λ h. outcome_dataset o ≡ some h) held
    → answer_outcome held now key managed_key o ≡ none
    → held ≡ []
unfolding answer_outcome
answer_outcome-none held now key managed_key (ready d) a e = ground arith
answer_outcome-none held now key managed_key (unavailable reason retry_at) a e =
    none_held none held refl a
answer_outcome-none held now key managed_key (releasing previous_key d retry_at) a e =
    worker_refs-zero d held a (ground arith)

-- `shared_fast_dataset` goes on to build a dataset only while no worker holds one; the manager has
-- then given up its own, so that two full datasets never coexist.
pub answer_existing-none :
    (slot : Option SharedDatasetState) (held : List ℕ) (now : ℕ) (key : Str)
    → Alone slot held
    → answer_existing held now key slot ≡ none
    → held ≡ []
unfolding answer_existing
answer_existing-none none held now key a e = none_held none held refl a
answer_existing-none (some s) held now key a e =
    answer_outcome-none held now key s.key s.outcome a e

-- An early answer keeps the manager's dataset, and hands out no other.
Keeps : Option ℕ → Option Answer → Type 0
Keeps o none = Unit {0}
Keeps o (some (slot, ok d)) = (managed slot ≡ o) × (o ≡ some d)
Keeps o (some (slot, err reason)) = managed slot ≡ o

release_step-Keeps :
    (managed_key previous_key : Str) (d retry_at : ℕ) (r : ReleasingAction) (key : Str) (now : ℕ)
    → Keeps (some d) (release_step managed_key previous_key d retry_at r key now)
unfolding release_step Keeps
release_step-Keeps managed_key previous_key d retry_at promote_previous key now = (refl, refl)
release_step-Keeps managed_key previous_key d retry_at wait_for_release key now = refl
release_step-Keeps managed_key previous_key d retry_at drop_previous_and_build key now = tt
release_step-Keeps managed_key previous_key d retry_at retarget key now = refl

answer_outcome-Keeps :
    (held : List ℕ) (now : ℕ) (key managed_key : Str) (o : SharedDatasetOutcome)
    → Keeps (outcome_dataset o) (answer_outcome held now key managed_key o)
unfolding answer_outcome
answer_outcome-Keeps held now key managed_key (ready d) =
    elim (Bool-cases (str_eq managed_key key)) [
      | inl same ↦ rw same (unfold Keeps in (refl, refl))
      | inr other ↦ rw other (unfold Keeps in refl)
    ]
answer_outcome-Keeps held now key managed_key (unavailable reason retry_at) =
    elim (Bool-cases (str_eq managed_key key && ltb now retry_at)) [
      | inl wait ↦ rw wait (unfold Keeps in refl)
      | inr go ↦ rw go (unfold Keeps in tt)
    ]
answer_outcome-Keeps held now key managed_key (releasing previous_key d retry_at) =
    release_step-Keeps managed_key previous_key d retry_at _ key now

Alone-eq :
    (slot slot' : Option SharedDatasetState) (held : List ℕ)
    → managed slot' ≡ managed slot
    → Alone slot held
    → Alone slot' held
Alone-eq slot slot' [] e a = tt
Alone-eq slot slot' (d ∷ held) e a = (e ∙ a.0, Alone-eq slot slot' held e a.1)

Keeps-Alone :
    (slot : Option SharedDatasetState) (held : List ℕ) (a : Answer)
    → Keeps (managed slot) (some a)
    → Alone slot held
    → Alone a.0 (acquired a.1 held)
unfolding Keeps
Keeps-Alone slot held (slot', ok d) k alone = (k.0 ∙ k.1, Alone-eq slot slot' held k.0 alone)
Keeps-Alone slot held (slot', err reason) k alone = Alone-eq slot slot' held k alone

answer_existing-Keeps :
    (slot : Option SharedDatasetState) (held : List ℕ) (now : ℕ) (key : Str)
    → Keeps (managed slot) (answer_existing held now key slot)
unfolding answer_existing
answer_existing-Keeps none held now key = unfold Keeps in tt
answer_existing-Keeps (some s) held now key = answer_outcome-Keeps held now key s.key s.outcome

build_step-Alone :
    (build : Str → Result Str ℕ) (now : ℕ) (key : Str)
    → let a = build_step build now key in Alone a.0 (acquired a.1 [])
unfolding build_step
build_step-Alone build now key = answer (build key)
  where
    answer :
        (r : Result Str ℕ)
        → let a : Answer = elim r [
          | ok d ↦ (some (record { key = key; outcome = ready d }), ok d)
          | err reason ↦ (
            some (record { key = key; outcome = unavailable reason (now + fast_retry_delay) }),
            err reason,
          )
        ] in
          Alone a.0 (acquired a.1 [])
    answer (ok d) = (refl, tt)
    answer (err reason) = tt

pub shared_fast_dataset-Alone :
    (build : Str → Result Str ℕ) (held : List ℕ) (now : ℕ) (key : Str)
    (slot : Option SharedDatasetState)
    → Alone slot held
    → let a = shared_fast_dataset build held now key slot in Alone a.0 (acquired a.1 held)
unfolding shared_fast_dataset
shared_fast_dataset-Alone build held now key slot alone =
    elim (Option-cases (answer_existing held now key slot)) [
      | inl building ↦
          let free = answer_existing-none slot held now key alone building in
          rw (building, shared_fast_dataset) (rw free (build_step-Alone build now key))
      | inr (a, answered) ↦
          rw (answered, shared_fast_dataset)
            (Keeps-Alone slot held a
              (subst (Keeps (managed slot)) answered (answer_existing-Keeps slot held now key))
              alone)
    ]

is_unused-nil :
    (held : List ℕ) (o : SharedDatasetOutcome)
    → is_unused held o ≡ true
    → All (λ h. outcome_dataset o ≡ some h) held
    → held ≡ []
unfolding is_unused
is_unused-nil held (ready d) e a = worker_refs-zero d held a ((==_iff _ 0).0 e)
is_unused-nil held (releasing k d t) e a = cc
is_unused-nil held (unavailable r t) e a = cc

pub release-Alone :
    (held : List ℕ) (now : ℕ) (key reason : Str) (slot : Option SharedDatasetState)
    → Alone slot held
    → Alone (release_fast_dataset_if_unused held now key reason slot) held
unfolding release_fast_dataset_if_unused
release-Alone held now key reason none a = a
release-Alone held now key reason (some s) a =
    elim (Bool-cases (str_eq s.key key && is_unused held s.outcome)) [
      | inl unused ↦
          let free = is_unused-nil held s.outcome ((&&_iff _ _).0 unused).1 a in
          rw unused (rw free tt)
      | inr used ↦ rw used a
    ]
