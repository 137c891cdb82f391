-- ===== src/Blockflow/Tip/Advance.antt =====
-- src/blockflow.rs, `TipWatch::observe_tip`: which heights a tip poll announces.
use xus_miner.Common.{
  Bool-cases, inl, inr, leb, ℕ, zero, suc, ◌+◌, ◌-◌, ◌≤◌, ◌<◌, ◌≡◌, refl, ap, ◌∙◌, false, List, [],
  ◌∷◌, ◌++◌, some, length, up_from, range_inclusive, length-up_from, arith, min, sym,
}
use mathlib.Core.Path.{ap₂, subst}
use xus_miner.Common.{Bool, true}
use native.Mathlib.Decide.{dec_lt}
use xus_miner.Blockflow.Tip.{
  observe_from, announce_baseline, advance, TipWatch, TipAdvance, baseline, blocks, unchanged,
  max_gap_blocks, observe_tip,
}

-- What the feed announces one by one, and what it summarises.
abbrev pub announced : TipAdvance → List ℕ
announced (baseline height) = []
announced (blocks report omitted from to) = report
announced unchanged = []

abbrev pub summarised : TipAdvance → List ℕ
summarised (baseline height) = []
summarised (blocks report omitted from to) = range_inclusive from to
summarised unchanged = []

abbrev pub omitted_count : TipAdvance → ℕ
omitted_count (baseline height) = 0
omitted_count (blocks report omitted from to) = omitted
omitted_count unchanged = 0

up_from-append : (a b n m : ℕ) → a + n ≡ b → up_from a n ++ up_from b m ≡ up_from a (n + m)
up_from-append a b zero m e = let e' : a ≡ b = omega arith in cc (e', ap (up_from b) (zero_add m))
  where
    zero_add : (k : ℕ) → zero + k ≡ k
    zero_add k = omega arith
up_from-append a b (suc n) m e = ap (◌∷◌ a) (up_from-append (suc a) b n m (omega arith)) ∙ shape
  where
    shape : a ∷ up_from (suc a) (n + m) ≡ up_from a (suc n + m)
    shape = ap (up_from a) (add_suc n m)
      where
        add_suc : (i j : ℕ) → suc (i + j) ≡ suc i + j
        add_suc i j = omega arith

-- The heights above `last` split into those left out and the newest `r`.
up_from_split :
    (last r tip : ℕ)
    → last < tip
    → r ≤ tip - last
    → range_inclusive (last + 1) (tip - r + 1 - 1) ++ range_inclusive (tip - r + 1) tip
      ≡ range_inclusive (last + 1) tip
up_from_split last r tip above fits =
    up_from-append (last + 1) (tip - r + 1) _ _ (omega arith)
    ∙ ap (up_from (last + 1)) (omega arith)

abbrev pub Follows : ℕ → TipWatch → Type 0
Follows last w = (w.needs_baseline ≡ false) × (w.last_tip ≡ some last)

-- The heights that one poll accounts for, in order: left out or announced.
abbrev pub accounted : TipAdvance → List ℕ
accounted a = summarised a ++ announced a

-- What a poll above the last tip returns.
abbrev advanced : ℕ → ℕ → TipAdvance
advanced last tip =
    let r = min (tip - last) max_gap_blocks in
    blocks (range_inclusive (tip - r + 1) tip) (tip - last - r) (last + 1) (tip - r + 1 - 1)

observe_tip_above :
    (w : TipWatch) (last tip : ℕ)
    → Follows last w
    → last < tip
    → observe_tip w tip ≡ (record w { last_tip = some tip }, advanced last tip)
unfolding observe_tip
observe_tip_above w last tip f above = ground arith

-- An advance of the tip accounts for each height above the last tip exactly once and in order,
-- announces the newest of them, at most `MAX_GAP_BLOCKS`, reports the true count of the heights
-- left out, and remembers the tip.
pub observe_tip_covers :
    (w : TipWatch) (last tip : ℕ)
    → Follows last w
    → last < tip
    → (accounted (observe_tip w tip).1 ≡ range_inclusive (last + 1) tip)
      × (length (announced (observe_tip w tip).1) ≡ min (tip - last) max_gap_blocks)
      × (omitted_count (observe_tip w tip).1 ≡ length (summarised (observe_tip w tip).1))
      × Follows tip (observe_tip w tip).0
observe_tip_covers w last tip f above = rw (observe_tip_above w last tip f above) (
  up_from_split last (min (tip - last) max_gap_blocks) tip above (omega arith),
  length-up_from _ _ ∙ omega arith,
  sym (length-up_from _ _ ∙ omega arith),
  (f.0, refl),
)

observe_tip_stays :
    (w : TipWatch) (last tip : ℕ)
    → Follows last w
    → last ≡ tip
    → (accounted (observe_tip w tip).1 ≡ []) × Follows tip (observe_tip w tip).0
unfolding observe_tip
observe_tip_stays w last tip f e = ground arith

range-append :
    (last tip end : ℕ)
    → last ≤ tip
    → tip ≤ end
    → range_inclusive (last + 1) tip ++ range_inclusive (tip + 1) end
      ≡ range_inclusive (last + 1) end
range-append last tip end h k =
    up_from-append (last + 1) (tip + 1) _ _ (omega arith) ∙ ap (up_from (last + 1)) (omega arith)

-- The heights that a session accounts for, poll by poll, and the tip behind its last poll.
abbrev pub session : TipWatch → List ℕ → List ℕ
session w [] = []
session w (tip ∷ tips) = accounted (observe_tip w tip).1 ++ session (observe_tip w tip).0 tips

abbrev pub final_tip : ℕ → List ℕ → ℕ
final_tip last [] = last
final_tip last (tip ∷ tips) = final_tip tip tips

abbrev pub Rises : ℕ → List ℕ → Type 0
Rises last [] = Unit {0}
Rises last (tip ∷ tips) = (last ≤ tip) × Rises tip tips

le-final_tip : (last : ℕ) (tips : List ℕ) → Rises last tips → last ≤ final_tip last tips
le-final_tip last [] r = omega arith
le-final_tip last (tip ∷ tips) r = omega (arith, le-final_tip tip tips r.1)

-- The heights that a poll announces one by one stand above the last tip, up to the new one.
pub data AnnouncesAbove (last tip : ℕ) : TipAdvance → Type 0 where
  first_poll : (height : ℕ) → AnnouncesAbove last tip (baseline height)
  no_news : AnnouncesAbove last tip unchanged
  news :
      (first omitted from to : ℕ)
      → last < first
      → first ≤ tip + 1
      → AnnouncesAbove last tip (blocks (range_inclusive first tip) omitted from to)

observe_from-AnnouncesAbove :
    (starts : Bool) (w : TipWatch) (last tip : ℕ)
    → AnnouncesAbove last tip (observe_from starts (some last) w tip).1
unfolding observe_from announce_baseline advance
observe_from-AnnouncesAbove true w last tip = first_poll tip
observe_from-AnnouncesAbove false w last tip = elim (Bool-cases (leb tip last)) [
  | inl below ↦ rw (below, advance) no_news
  | inr above ↦ rw (above, advance) (news _ _ _ _ (ground arith) (ground arith))
]

pub observe_tip-AnnouncesAbove :
    (w : TipWatch) (last tip : ℕ)
    → w.last_tip ≡ some last
    → AnnouncesAbove last tip (observe_tip w tip).1
unfolding observe_tip
observe_tip-AnnouncesAbove w last tip e =
    subst (λ known. AnnouncesAbove last tip (observe_from w.needs_baseline known w tip).1) (sym e)
      (observe_from-AnnouncesAbove w.needs_baseline w last tip)

-- Over a session whose tip never falls, however it jumps, the feed accounts for every height
-- between the first tip and the last exactly once, in ascending order.
pub session-range :
    (w : TipWatch) (last : ℕ) (tips : List ℕ)
    → Follows last w
    → Rises last tips
    → session w tips ≡ range_inclusive (last + 1) (final_tip last tips)
session-range w last [] f r = ap (up_from (last + 1)) {x = 0} (omega arith)
session-range w last (tip ∷ tips) f r = elim (dec_lt last tip) [
  | yes above ↦
      let (covers, _, _, f') = observe_tip_covers w last tip f above in
      ap₂ ◌++◌ covers (session-range (observe_tip w tip).0 tip tips f' r.1)
      ∙ range-append last tip _ r.0 (le-final_tip tip tips r.1)
  | no same ↦
      let e : last ≡ tip = omega arith in
      let (nothing, f') = observe_tip_stays w last tip f e in
      ap₂ ◌++◌ nothing (session-range (observe_tip w tip).0 tip tips f' r.1)
      ∙ ap (λ k. range_inclusive (k + 1) (final_tip tip tips)) (sym e)
]
