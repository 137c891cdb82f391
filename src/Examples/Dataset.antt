-- ===== src/Examples/Dataset.antt =====
-- Tests of src/pow.rs: the manager of the shared dataset.
use xus_miner.Common.{
  ℕ, ◌≡◌, refl, List, [], ◌∷◌, none, some, Str, codes, str_eq, Result, ok, err, arith,
}
use xus_miner.Pow.Dataset.{
  SharedDatasetState, Answer, ready, releasing, answer_existing, shared_fast_dataset,
}
use xus_miner.Pow.Dataset.Answer.{acquired}
use xus_miner.Pow.Dataset.Safety.{World, OneAlive, Step, Reach, Reach-OneAlive}
use xus_miner.Pow.Dataset.Request.{Keyed, Granted, shared_fast_dataset-Keyed}
use xus_miner.Pow.Dataset.Retry.{second_request_granted}

-- The dataset of a key is the key's first code.
abbrev built : Str → Result Str ℕ
built [] = err []
built (c ∷ key) = ok c

abbrev keyed : ℕ → Str
keyed d = d ∷ []

abbrev old_state : SharedDatasetState
old_state = record { key = codes "A"; outcome = ready 65 }

abbrev old_world : World
old_world = record { slot = some old_state; held = [] }

abbrev drained : SharedDatasetState
drained = record { key = codes "B"; outcome = releasing (codes "A") 65 115 }

-- A worker asks for another key, and again when the old dataset was released.
abbrev first : Answer
first = shared_fast_dataset built [] 100 (codes "B") (some old_state)

abbrev second : Answer
second = shared_fast_dataset built (acquired first.1 []) 120 (codes "B") first.0

abbrev new_world : World
new_world = record { slot = second.0; held = acquired second.1 (acquired first.1 []) }

two_requests : Reach old_world new_world
two_requests =
    Reach.next (Reach.next Reach.here (Step.requests built 100 (codes "B") first refl))
      (Step.requests built 120 (codes "B") second refl)

Reach-OneAlive_example : OneAlive new_world
Reach-OneAlive_example = Reach-OneAlive {w = old_world} {v = new_world} tt two_requests

abbrev no_refs : List ℕ
no_refs = []

nothing_left : answer_existing [] 120 (codes "B") (some drained) ≡ none
unfolding answer_existing str_eq
nothing_left = refl

shared_fast_dataset-Keyed_example :
    let a = shared_fast_dataset built [] 120 (codes "B") (some drained) in
    Keyed keyed a.0 × Granted keyed (codes "B") a.1
shared_fast_dataset-Keyed_example =
    shared_fast_dataset-Keyed keyed built [] 120 (codes "B") (some drained) (λ d e. built_keyed d e)
      refl
  where
    built_keyed : (d : ℕ) → built (codes "B") ≡ ok d → keyed d ≡ codes "B"
    built_keyed d e = cc

second_request_granted_example : (d : ℕ) × (second.1 ≡ ok d)
second_request_granted_example =
    second_request_granted built 100 120 (codes "B") (some old_state) 66 refl (omega arith) tt
