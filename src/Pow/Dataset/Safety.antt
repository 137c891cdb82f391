-- ===== src/Pow/Dataset/Safety.antt =====
-- src/pow.rs, `shared_fast_dataset`: the datasets that are alive, over the interleavings of workers.
use xus_miner.Common.{ℕ, ◌≡◌, List, [], ◌∷◌, ◌++◌, Option, Str, Result, All}
use mathlib.Core.Path.{subst}
use xus_miner.Pow.Dataset.Answer.{Alone, acquired, shared_fast_dataset-Alone, release-Alone}
use xus_miner.Pow.Dataset.{
  SharedDatasetState, Answer, shared_fast_dataset, release_fast_dataset_if_unused,
}

-- The manager's slot, and the references that workers hold.
pub record World : Type 0 where
  pub slot : Option SharedDatasetState
  pub held : List ℕ

-- So one dataset is alive at most.
abbrev pub OneAlive : World → Type 0
OneAlive w = Alone w.slot w.held

-- What workers do, in any interleaving. A dropped reference may be any one of those held.
pub data Step (w : World) : World → Type 0 where
  requests :
      (build : Str → Result Str ℕ) (now : ℕ) (key : Str) (a : Answer)
      → shared_fast_dataset build w.held now key w.slot ≡ a
      → Step w (record { slot = a.0; held = acquired a.1 w.held })
  clones :
      (before : List ℕ) (d : ℕ) (after : List ℕ)
      → w.held ≡ before ++ d ∷ after
      → Step w (record { slot = w.slot; held = d ∷ w.held })
  drops :
      (before : List ℕ) (d : ℕ) (after : List ℕ)
      → w.held ≡ before ++ d ∷ after
      → Step w (record { slot = w.slot; held = before ++ after })
  releases :
      (now : ℕ) (key reason : Str)
      → Step w (record {
        slot = release_fast_dataset_if_unused w.held now key reason w.slot;
        held = w.held;
      })

pub data Reach (w : World) : World → Type 0 where
  here : Reach w w
  next : {u v : World} → Reach w u → Step u v → Reach w v

All-drop {ℓ κ} :
    {A : Type ℓ} (P : A → Type κ) (before : List A) (d : A) (after : List A)
    → All P (before ++ d ∷ after)
    → P d × All P (before ++ after)
All-drop P [] d after a = a
All-drop P (b ∷ before) d after a =
    let rest = All-drop P before d after a.1 in (rest.0, (a.0, rest.1))

Step-OneAlive : {w v : World} → Step w v → OneAlive w → OneAlive v
Step-OneAlive {w} (requests build now key a e) alone =
    subst (λ b. Alone b.0 (acquired b.1 w.held)) e
      (shared_fast_dataset-Alone build w.held now key w.slot alone)
Step-OneAlive {w} (clones before d after e) alone =
    ((All-drop _ before d after (subst (All _) e alone)).0, alone)
Step-OneAlive {w} (drops before d after e) alone =
    (All-drop _ before d after (subst (All _) e alone)).1
Step-OneAlive {w} (releases now key reason) alone = release-Alone w.held now key reason w.slot alone

-- However workers interleave their requests, their clones and drops of references and the
-- releases, whatever the builds return, at most one full dataset is alive: every reference that a
-- worker holds is one to the manager's dataset.
pub Reach-OneAlive : {w v : World} → OneAlive w → Reach w v → OneAlive v
Reach-OneAlive a here = a
Reach-OneAlive a (next r s) = Step-OneAlive s (Reach-OneAlive a r)
