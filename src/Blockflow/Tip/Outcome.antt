-- ===== src/Blockflow/Tip/Outcome.antt =====
-- src/blockflow.rs, `TipWatch::record`: what an observed block is taken for, and what is remembered.
use xus_miner.Common.{
  ℕ, suc, ◌≤◌, ◌<◌, ◌≡◌, ◌≢◌, ◌↔◌, ◌⊎◌, inl, inr, refl, sym, ◌∙◌, ap, Bool, true, false, Option,
  none, some, if◌then◌else◌, length, Str, str_eq, str_eq_iff, arith, Option-cases, some_inj,
  Bool-cases,
}
use xus_miner.Common.BTree.{
  BTreeMap, get, prune_to, Ascends, prune_to_short, length-insert-le, length-insert_present,
  get-insert, get-prune_to,
}
use xus_miner.Blockflow.Tip.{
  TipWatch, new, already_reported, reorg, max_reported_tracked, clean_hash, match_known,
  match_reported, register,
}
use xus_miner.Blockflow.Tip.Memory.{IsBounded, match_reported-Ascends}

-- The hash that is known of a height behind an observation: the new one, or else the old one.
abbrev pub latest : Option Str → Option (Option Str) → Option Str
latest (some found) old = some found
latest none none = none
latest none (some old) = old

match_known-get :
    (h : ℕ) (m : BTreeMap (Option Str)) (old hash : Option Str)
    → get h m ≡ some old
    → get h (match_known h m old hash).0 ≡ some (latest hash (some old))
unfolding match_known
match_known-get h m (some p) (some n) e = ground (arith, str_eq_iff p n, get-insert h h (some n) m)
match_known-get h m none (some n) e = ground (arith, get-insert h h (some n) m)
match_known-get h m (some p) none e = e
match_known-get h m none none e = e

pub match_reported-get :
    (h : ℕ) (m : BTreeMap (Option Str)) (hash : Option Str) (announce : Bool)
    → get h (match_reported h m hash announce).0 ≡ some (latest hash (get h m))
unfolding match_reported
match_reported-get h m hash announce = elim (Option-cases (get h m)) [
  | inl e ↦ rw (e, match_reported) (ground (arith, first_hash hash, get-insert h h hash m))
  | inr (old, e) ↦ rw (e, match_reported) (match_known-get h m old hash e)
]
  where
    first_hash : (found : Option Str) → latest found none ≡ found
    first_hash none = refl
    first_hash (some found) = refl

match_known-other :
    (h k : ℕ) (m : BTreeMap (Option Str)) (old hash : Option Str)
    → h ≢ k
    → get k (match_known h m old hash).0 ≡ get k m
unfolding match_known
match_known-other h k m (some p) (some n) d = ground (arith, get-insert h k (some n) m)
match_known-other h k m none (some n) d = ground (arith, get-insert h k (some n) m)
match_known-other h k m (some p) none d = refl
match_known-other h k m none none d = refl

pub match_reported-other :
    (h k : ℕ) (m : BTreeMap (Option Str)) (hash : Option Str) (announce : Bool)
    → h ≢ k
    → get k (match_reported h m hash announce).0 ≡ get k m
unfolding match_reported
match_reported-other h k m hash announce d = elim (Option-cases (get h m)) [
  | inl e ↦ rw (e, match_reported) (ground (arith, get-insert h k hash m))
  | inr (old, e) ↦ rw (e, match_reported) (match_known-other h k m old hash d)
]

length-match_known :
    (h : ℕ) (m : BTreeMap (Option Str)) (old hash : Option Str)
    → get h m ≡ some old
    → Ascends 0 m
    → length (match_known h m old hash).0 ≡ length m
unfolding match_known
length-match_known h m (some p) (some n) e a =
    ground (arith, length-insert_present h 0 (some n) (some p) m e a)
length-match_known h m none (some n) e a = length-insert_present h 0 (some n) none m e a
length-match_known h m (some p) none e a = refl
length-match_known h m none none e a = refl

pub length-match_reported :
    (h : ℕ) (m : BTreeMap (Option Str)) (hash : Option Str) (announce : Bool)
    → Ascends 0 m
    → length (match_reported h m hash announce).0 ≤ suc (length m)
unfolding match_reported
length-match_reported h m hash announce a = elim (Option-cases (get h m)) [
  | inl e ↦ rw (e, match_reported) (length-insert-le h hash m)
  | inr (old, e) ↦ rw (e, match_reported) (omega (arith, length-match_known h m old hash e a))
]

length-match_reported_known :
    (h : ℕ) (m : BTreeMap (Option Str)) (hash old : Option Str) (announce : Bool)
    → get h m ≡ some old
    → Ascends 0 m
    → length (match_reported h m hash announce).0 ≡ length m
unfolding match_reported
length-match_reported_known h m hash old announce e a =
    rw (e, match_reported) (length-match_known h m old hash e a)

-- There is room for a height: the memory is not full, or some lower height is remembered (the
-- lowest is what gives way), or the height is remembered itself.
abbrev pub HasRoom : TipWatch → ℕ → Type 0
HasRoom w h =
    (length w.reported < max_reported_tracked)
    ⊎ (((j : ℕ) × (old : Option Str) × (get j w.reported ≡ some old) × (j < h))
        ⊎ ((old : Option Str) × (get h w.reported ≡ some old)))

survives :
    (w : TipWatch) (h : ℕ) (hash : Option Str) (announce : Bool)
    → IsBounded w
    → HasRoom w h
    → let m = (match_reported h w.reported hash announce).0 in
      get h (prune_to max_reported_tracked m) ≡ get h m
survives w h hash announce v (inl small) =
    ap (get h) (
      prune_to_short _ _
        (omega (arith, length-match_reported h w.reported hash announce v.ordered)))
survives w h hash announce v (inr (inl (j, old, e, lower))) =
    get-prune_to max_reported_tracked 0 j h old _
      (match_reported-Ascends h w.reported hash announce v.ordered)
      (omega (arith, length-match_reported h w.reported hash announce v.ordered, v.small))
      (match_reported-other h j w.reported hash announce (omega arith) ∙ e) lower
survives w h hash announce v (inr (inr (old, e))) = ap (get h) (
    prune_to_short _ _ (
      omega
        (arith, length-match_reported_known h w.reported hash old announce e v.ordered, v.small)))

-- Behind an observation the feed remembers the height with the newest hash that a usable
-- observation gave, provided that the memory had room for the height.
pub register-remembers :
    (w : TipWatch) (h : ℕ) (hash : Option Str) (announce : Bool)
    → IsBounded w
    → HasRoom w h
    → get h (register w h hash announce).0.reported
      ≡ some (latest (clean_hash hash) (get h w.reported))
unfolding register
register-remembers w h hash announce v room =
    survives w h (clean_hash hash) announce v room
    ∙ match_reported-get h w.reported (clean_hash hash) announce

match_known-outcome :
    (h : ℕ) (m : BTreeMap (Option Str)) (old hash : Option Str) → (match_known h m old hash).1 ≢ new
unfolding match_known
match_known-outcome h m (some p) (some n) = ground arith
match_known-outcome h m none (some n) = ground arith
match_known-outcome h m (some p) none = ground arith
match_known-outcome h m none none = ground arith

-- A block is announced as new exactly when it is reported and its height is not remembered.
pub register-new_iff :
    (w : TipWatch) (h : ℕ) (hash : Option Str) (announce : Bool)
    → ((register w h hash announce).1 ≡ new) ↔ ((announce ≡ true) × (get h w.reported ≡ none))
unfolding register match_reported
register-new_iff w h hash announce = elim (Option-cases (get h w.reported)) [
  | inl e ↦ rw (e, match_reported) (ground arith)
  | inr (old, e) ↦
      rw (e, match_reported)
        (
          λ isnew. absurd (match_known-outcome h w.reported old (clean_hash hash) isnew),
          λ both. cc (both.1),
        )
]

match_known-reorg :
    (h : ℕ) (m : BTreeMap (Option Str)) (old hash : Option Str) (p : Str)
    → ((match_known h m old hash).1 ≡ reorg p)
      ↔ ((old ≡ some p) × ((n : Str) × (hash ≡ some n) × (p ≢ n)))
unfolding match_known
match_known-reorg h m (some q) (some n) p = elim (Bool-cases (str_eq q n)) [
  | inl same ↦ rw same (
    λ e. cc,
    λ r.
        let q_n : q ≡ n = (str_eq_iff q n).0 same in
        let q_p : q ≡ p = some_inj (r.0) in
        let n_x : n ≡ r.1.0 = some_inj (r.1.1) in absurd (r.1.2 (sym q_p ∙ q_n ∙ n_x)),
  )
  | inr other ↦ rw other (
    λ e. let q_p : q ≡ p = cc in (ap some q_p, (n, refl, λ p_n. differ other (q_p ∙ p_n))),
    λ r. ap reorg (some_inj (r.0)),
  )
]
  where
    differ : str_eq q n ≡ false → q ≡ n → ⊥
    differ other e = cc (other, (str_eq_iff q n).1 e)
match_known-reorg h m none (some n) p = ground arith
match_known-reorg h m (some q) none p = ground arith
match_known-reorg h m none none p = ground arith

-- A reorg is declared exactly when a usable hash was disclosed of a height that is remembered with
-- another hash, and it names that other hash.
pub register-reorg_iff :
    (w : TipWatch) (h : ℕ) (hash : Option Str) (announce : Bool) (p : Str)
    → ((register w h hash announce).1 ≡ reorg p)
      ↔ ((get h w.reported ≡ some (some p)) × ((n : Str) × (clean_hash hash ≡ some n) × (p ≢ n)))
unfolding register match_reported
register-reorg_iff w h hash announce p = elim (Option-cases (get h w.reported)) [
  | inl e ↦ rw (e, match_reported) (λ r. absurd (not_reorg announce p r), λ r. cc (r.0))
  | inr (old, e) ↦
      let known = match_known-reorg h w.reported old (clean_hash hash) p in
      rw (e, match_reported)
        (λ r. (ap some (known.0 r).0, (known.0 r).1), λ r. known.1 (some_inj (r.0), r.1))
]
  where
    not_reorg : (b : Bool) (q : Str) → (if b then new else already_reported) ≡ reorg q → ⊥
    not_reorg b q r = ground arith
