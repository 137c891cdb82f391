-- ===== src/Common/BTree.antt =====
-- `BTreeMap<u64, V>`: an association list in the order of its keys.
use Prim.Native.Nat.{ℕ, suc, ◌≤◌, ◌<◌}
use mathlib.Core.Path.{◌≡◌, refl, ap}
use mathlib.Core.Logic.{inl, inr}
use mathlib.Core.List.{List, [], ◌∷◌}
use mathlib.Core.Bool.{Bool, true, false}
use mathlib.Core.Option.{Option, none, some}
use native.Mathlib.Omega.{arith}
use xus_miner.Common.Tests.{Bool-cases, ltb, ◌==◌, if◌then◌else◌}
use xus_miner.Common.Lists.{length}

abbrev pub BTreeMap {ℓ} : Type ℓ → Type ℓ
BTreeMap V = List (ℕ × V)

module _ {ℓ} {V : Type ℓ} where
  pub get : ℕ → BTreeMap V → Option V
  get k [] = none
  get k ((j, v) ∷ m) = if j == k then some v else get k m

  pub insert : ℕ → V → BTreeMap V → BTreeMap V
  insert k v [] = (k, v) ∷ []
  insert k v ((j, w) ∷ m) =
      if ltb k j then (k, v) ∷ (j, w) ∷ m else if k == j then (k, v) ∷ m else (j, w) ∷ insert k v m

  pub contains_key : ℕ → BTreeMap V → Bool
  unfolding get
  contains_key k m = elim (get k m) [ none ↦ false | some v ↦ true ]

  -- `retain` with a test on the key.
  unfoldable pub retain : (ℕ → Bool) → BTreeMap V → BTreeMap V
  retain p [] = []
  retain p ((j, v) ∷ m) = if p j then (j, v) ∷ retain p m else retain p m

  -- `while len > bound { remove the first key }`.
  pub prune_to : ℕ → BTreeMap V → BTreeMap V
  prune_to bound [] = []
  prune_to bound (e ∷ m) = if ltb bound (suc (length m)) then prune_to bound m else e ∷ m

  -- The keys ascend, from `lo` on.
  abbrev pub Ascends : ℕ → BTreeMap V → Type 0
  Ascends lo [] = Unit {0}
  Ascends lo ((j, v) ∷ m) = (lo ≤ j) × Ascends (suc j) m

  pub get-insert :
      (k j : ℕ) (v : V) (m : BTreeMap V)
      → get j (insert k v m) ≡ (if k == j then some v else get j m)
  unfolding get insert
  get-insert k j v [] = refl
  get-insert k j v ((i, w) ∷ m) = ground (arith, get-insert k j v m)

  pub get-retain :
      (p : ℕ → Bool) (j : ℕ) (m : BTreeMap V) → get j (retain p m) ≡ (if p j then get j m else none)
  unfolding get retain
  get-retain p j [] = ground arith
  get-retain p j ((i, w) ∷ m) = ground (arith, get-retain p j m)

  Ascends-mono : (lo lo' : ℕ) (m : BTreeMap V) → lo' ≤ lo → Ascends lo m → Ascends lo' m
  Ascends-mono lo lo' [] h a = tt
  Ascends-mono lo lo' ((j, v) ∷ m) h a = (omega arith, a.1)

  pub contains_key-insert :
      (k j : ℕ) (v : V) (m : BTreeMap V)
      → contains_key j m ≡ true
      → contains_key j (insert k v m) ≡ true
  unfolding contains_key
  contains_key-insert k j v m h = elim (Bool-cases (k == j)) [
    | inl same ↦ rw (get-insert k j v m, same, contains_key) refl
    | inr apart ↦ rw (get-insert k j v m, apart, contains_key) h
  ]

  pub contains_key-inserted :
      (k : ℕ) (v : V) (m : BTreeMap V) → contains_key k (insert k v m) ≡ true
  unfolding contains_key
  contains_key-inserted k v m =
      let same : (k == k) ≡ true = ground arith in rw (get-insert k k v m, same, contains_key) refl

  pub contains_key-nil : (k : ℕ) (m : BTreeMap V) → m ≡ [] → contains_key k m ≡ false
  unfolding contains_key get
  contains_key-nil k [] e = refl
  contains_key-nil k (x ∷ m) e = cc e

  pub contains_key-retain :
      (p : ℕ → Bool) (j : ℕ) (m : BTreeMap V)
      → p j ≡ true
      → contains_key j m ≡ true
      → contains_key j (retain p m) ≡ true
  unfolding contains_key
  contains_key-retain p j m stays h = rw (get-retain p j m, stays, contains_key) h

  pub Ascends-insert :
      (lo k : ℕ) (v : V) (m : BTreeMap V) → lo ≤ k → Ascends lo m → Ascends lo (insert k v m)
  unfolding insert
  Ascends-insert lo k v [] h a = (h, tt)
  Ascends-insert lo k v ((j, w) ∷ m) h a = ground (arith, Ascends-insert (suc j) k v m)

  pub Ascends-retain :
      (p : ℕ → Bool) (lo : ℕ) (m : BTreeMap V) → Ascends lo m → Ascends lo (retain p m)
  unfolding retain
  Ascends-retain p lo [] a = tt
  Ascends-retain p lo ((j, v) ∷ m) a =
      ground
        (arith, Ascends-retain p (suc j) m a.1, Ascends-mono (suc j) lo (retain p m) (omega arith))

  pub Ascends-prune_to :
      (bound lo : ℕ) (m : BTreeMap V) → Ascends lo m → Ascends lo (prune_to bound m)
  unfolding prune_to
  Ascends-prune_to bound lo [] a = tt
  Ascends-prune_to bound lo ((j, v) ∷ m) a =
      ground (arith, Ascends-prune_to bound lo m (Ascends-mono (suc j) lo m (omega arith) a.1))

  pub length-prune_to-le : (bound : ℕ) (m : BTreeMap V) → length (prune_to bound m) ≤ bound
  unfolding prune_to
  length-prune_to-le bound [] = omega arith
  length-prune_to-le bound (e ∷ m) = ground (arith, length-prune_to-le bound m)

  pub length-prune_to-shrinks : (bound : ℕ) (m : BTreeMap V) → length (prune_to bound m) ≤ length m
  unfolding prune_to
  length-prune_to-shrinks bound [] = omega arith
  length-prune_to-shrinks bound (e ∷ m) = ground (arith, length-prune_to-shrinks bound m)

  pub prune_to_short : (bound : ℕ) (m : BTreeMap V) → length m ≤ bound → prune_to bound m ≡ m
  unfolding prune_to
  prune_to_short bound [] h = refl
  prune_to_short bound (e ∷ m) h = ground arith

  pub length-insert-le : (k : ℕ) (v : V) (m : BTreeMap V) → length (insert k v m) ≤ suc (length m)
  unfolding insert
  length-insert-le k v [] = omega arith
  length-insert-le k v ((j, w) ∷ m) = ground (arith, length-insert-le k v m)

  -- Below the first key there is nothing.
  pub get_below : (k lo : ℕ) (m : BTreeMap V) → Ascends lo m → k < lo → get k m ≡ none
  unfolding get
  get_below k lo [] a h = refl
  get_below k lo ((j, v) ∷ m) a h = ground (arith, get_below k (suc j) m a.1)

  -- A write to a key that is there leaves the size.
  pub length-insert_present :
      (k lo : ℕ) (v w : V) (m : BTreeMap V)
      → get k m ≡ some w
      → Ascends lo m
      → length (insert k v m) ≡ length m
  unfolding insert get
  length-insert_present k lo v w [] e a = cc
  length-insert_present k lo v w ((j, u) ∷ m) e a =
      ground (arith, length-insert_present k (suc j) v w m, get_below k (suc j) m a.1)

  -- If at most one entry has to go, a key that is not the least survives.
  pub get-prune_to :
      (bound lo j k : ℕ) (w : V) (m : BTreeMap V)
      → Ascends lo m
      → length m ≤ suc bound
      → get j m ≡ some w
      → j < k
      → get k (prune_to bound m) ≡ get k m
  unfolding prune_to get
  get-prune_to bound lo j k w [] a n e h = refl
  get-prune_to bound lo j k w ((i, u) ∷ m) a n e h =
      elim (Bool-cases (ltb bound (suc (length m)))) [
        | inl over ↦
            let later : (i == k) ≡ false = head_lt-key (get_below j (suc i) m a.1) in
            rw over (rw later (ap (get k) (prune_to_short bound m (omega arith))))
        | inr fits ↦ rw fits
      ]
    where
      head_lt-key : (j < suc i → get j m ≡ none) → (i == k) ≡ false
      head_lt-key below = ground (arith, below)
