-- ===== src/Pow/Dataset/Request.antt =====
-- src/pow.rs, `shared_fast_dataset`: the keys of the datasets that it holds and hands out.
use xus_miner.Common.{
  ℕ, ◌&&◌, ◌≡◌, inl, inr, ◌∙◌, Bool, List, Option, none, some, ltb, Str, str_eq, str_eq_iff, Result,
  ok, err, Bool-cases, Option-cases, Result-cases, ◌||◌,
}
use mathlib.Core.Path.{subst}
use xus_miner.Pow.Dataset.{
  SharedDatasetOutcome, SharedDatasetState, Answer, ready, releasing, unavailable, releasing_action,
  worker_refs, release_step, answer_outcome, answer_existing, build_step, shared_fast_dataset,
  release_fast_dataset_if_unused, is_unused,
}

-- `key_of` tells with which key a dataset was initialised; the build is trusted to use its key.
module _ (key_of : ℕ → Str) where
  abbrev pub KeyedOutcome : Str → SharedDatasetOutcome → Type 0
  KeyedOutcome key (ready d) = key_of d ≡ key
  KeyedOutcome key (releasing previous_key d retry_at) = key_of d ≡ previous_key
  KeyedOutcome key (unavailable reason retry_at) = Unit {0}

  -- The manager names the key of the dataset that it holds.
  abbrev pub Keyed : Option SharedDatasetState → Type 0
  Keyed none = Unit {0}
  Keyed (some s) = KeyedOutcome s.key s.outcome

  abbrev pub Granted : Str → Result Str ℕ → Type 0
  Granted key (ok d) = key_of d ≡ key
  Granted key (err reason) = Unit {0}

  KeyedAnswer : Str → Option Answer → Type 0
  KeyedAnswer key none = Unit {0}
  KeyedAnswer key (some a) = Keyed a.0 × Granted key a.1

  release_step-Keyed :
      (managed_key previous_key : Str) (d retry_at : ℕ) (pending owned : Bool) (key : Str) (now : ℕ)
      → key_of d ≡ previous_key
      → KeyedAnswer key (
          release_step managed_key previous_key d retry_at
            (releasing_action managed_key previous_key key pending owned)
            key
            now)
  unfolding releasing_action KeyedAnswer release_step
  release_step-Keyed managed_key previous_key d retry_at pending owned key now k =
      elim (Bool-cases (str_eq previous_key key)) [
        | inl same ↦ rw same (k, k ∙ (str_eq_iff previous_key key).0 same)
        | inr other ↦ elim (Bool-cases (str_eq managed_key key)) [
          | inr moved ↦ rw (other, moved) (k, tt)
          | inl kept ↦ elim (Bool-cases (pending || owned)) [
            | inl wait ↦ rw (other, kept, wait) (k, tt)
            | inr free ↦ rw (other, kept, free) tt
          ]
        ]
      ]

  answer_outcome-Keyed :
      (held : List ℕ) (now : ℕ) (key managed_key : Str) (o : SharedDatasetOutcome)
      → KeyedOutcome managed_key o
      → KeyedAnswer key (answer_outcome held now key managed_key o)
  unfolding answer_outcome
  answer_outcome-Keyed held now key managed_key (ready d) k =
      elim (Bool-cases (str_eq managed_key key)) [
        | inl same ↦ rw same (unfold KeyedAnswer in (k, k ∙ (str_eq_iff managed_key key).0 same))
        | inr other ↦ rw other (unfold KeyedAnswer in (k, tt))
      ]
  answer_outcome-Keyed held now key managed_key (unavailable reason retry_at) k =
      elim (Bool-cases (str_eq managed_key key && ltb now retry_at)) [
        | inl wait ↦ rw wait (unfold KeyedAnswer in (tt, tt))
        | inr go ↦ rw go (unfold KeyedAnswer in tt)
      ]
  answer_outcome-Keyed held now key managed_key (releasing previous_key d retry_at) k =
      release_step-Keyed managed_key previous_key d retry_at (ltb now retry_at)
        (ltb 0 (worker_refs d held)) key now k

  answer_existing-Keyed :
      (held : List ℕ) (now : ℕ) (key : Str) (slot : Option SharedDatasetState)
      → Keyed slot
      → KeyedAnswer key (answer_existing held now key slot)
  unfolding answer_existing
  answer_existing-Keyed held now key none k = unfold KeyedAnswer in tt
  answer_existing-Keyed held now key (some s) k =
      answer_outcome-Keyed held now key s.key s.outcome k

  pub release-Keyed :
      (held : List ℕ) (now : ℕ) (key reason : Str) (slot : Option SharedDatasetState)
      → Keyed slot
      → Keyed (release_fast_dataset_if_unused held now key reason slot)
  unfolding release_fast_dataset_if_unused
  release-Keyed held now key reason none k = tt
  release-Keyed held now key reason (some s) k =
      elim (Bool-cases (str_eq s.key key && is_unused held s.outcome)) [
        | inl free ↦ rw free tt
        | inr kept ↦ rw kept k
      ]

  build_step-Keyed :
      (build : Str → Result Str ℕ) (now : ℕ) (key : Str)
      → ((d : ℕ) → build key ≡ ok d → key_of d ≡ key)
      → let a = build_step build now key in Keyed a.0 × Granted key a.1
  unfolding build_step
  build_step-Keyed build now key trusted = elim (Result-cases (build key)) [
    | inl (d, built) ↦ rw (built, build_step) (trusted d built, trusted d built)
    | inr (reason, failed) ↦ rw (failed, build_step) (tt, tt)
  ]

  -- If a build initialises its dataset with the key that it is given, a request that succeeds hands
  -- out a dataset of the requested key, also behind any change of keys, and the manager goes on to
  -- name the key of what it holds.
  pub shared_fast_dataset-Keyed :
      (build : Str → Result Str ℕ) (held : List ℕ) (now : ℕ) (key : Str)
      (slot : Option SharedDatasetState)
      → ((d : ℕ) → build key ≡ ok d → key_of d ≡ key)
      → Keyed slot
      → let a = shared_fast_dataset build held now key slot in Keyed a.0 × Granted key a.1
  unfolding shared_fast_dataset
  shared_fast_dataset-Keyed build held now key slot trusted k =
      elim (Option-cases (answer_existing held now key slot)) [
        | inl building ↦ rw (building, shared_fast_dataset) (build_step-Keyed build now key trusted)
        | inr (a, answered) ↦
            rw (answered, shared_fast_dataset)
              (unfold KeyedAnswer in
                subst (KeyedAnswer key) answered (answer_existing-Keyed held now key slot k))
      ]
