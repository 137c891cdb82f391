-- ===== src/Common/Trimmed.antt =====
-- `str::trim` of what has been trimmed.
use mathlib.Core.Path.{◌≡◌, refl}
use mathlib.Core.List.{[], ◌∷◌, ◌++◌, reverse, reverse-cons, reverse-append}
use mathlib.Core.Bool.{Bool, true, false, not}
use mathlib.Core.Logic.{◌⊎◌, inl, inr}
use Prim.Native.Nat.{ℕ}
use native.Mathlib.Omega.{arith}
use xus_miner.Common.Tests.{Bool-cases}
use xus_miner.Common.Text.{Str, trim, trim_start, trim_end, is_whitespace, is_empty}

starts_visible : Str → Bool
starts_visible [] = false
starts_visible (c ∷ s) = not (is_whitespace c)

trim_start_visible :
    (s : Str) → (is_empty (trim_start s) ≡ true) ⊎ (starts_visible (trim_start s) ≡ true)
unfolding trim_start starts_visible is_empty
trim_start_visible [] = inl refl
trim_start_visible (c ∷ s) = elim (Bool-cases (is_whitespace c)) [
  | inl white ↦ rw white (trim_start_visible s)
  | inr black ↦ inr (rw (black, black) refl)
]

trim_start_keeps :
    (s : Str) (c : ℕ)
    → is_whitespace c ≡ false
    → (rest : Str) × (trim_start (s ++ c ∷ []) ≡ rest ++ c ∷ [])
unfolding trim_start
trim_start_keeps [] c h = ([], rw h refl)
trim_start_keeps (d ∷ s) c h = elim (Bool-cases (is_whitespace d)) [
  | inl white ↦ rw white (trim_start_keeps s c h)
  | inr black ↦ (d ∷ s, rw black refl)
]

trim_end_visible : (s : Str) → starts_visible s ≡ true → starts_visible (trim_end s) ≡ true
unfolding trim_end starts_visible
trim_end_visible [] h = cc
trim_end_visible (c ∷ s) h =
    let black : is_whitespace c ≡ false = ground arith in
    let (rest, kept) = trim_start_keeps (reverse s) c black in
    rw (reverse-cons c s, kept, reverse-append rest (c ∷ [])) h

trim_start_again : (s : Str) → starts_visible s ≡ true → trim_start s ≡ s
unfolding trim_start starts_visible
trim_start_again [] h = refl
trim_start_again (c ∷ s) h = elim (Bool-cases (is_whitespace c)) [
  | inl white ↦ ground arith
  | inr black ↦ rw black refl
]

visible_filled : (s : Str) → starts_visible s ≡ true → is_empty s ≡ false
unfolding starts_visible is_empty
visible_filled [] h = cc
visible_filled (c ∷ s) h = refl

blank_start :
    (s : Str)
    → is_empty s ≡ true
    → is_empty (trim_end s) ≡ false
    → starts_visible (trim_end s) ≡ true
unfolding trim_end trim_start is_empty
blank_start [] blank h = cc
blank_start (c ∷ s) blank h = cc

trim_visible : (s : Str) → is_empty (trim s) ≡ false → starts_visible (trim s) ≡ true
unfolding trim
trim_visible s h = elim (trim_start_visible s) [
  | inl blank ↦ blank_start (trim_start s) blank h
  | inr visible ↦ trim_end_visible (trim_start s) visible
]

-- What is not blank is not blank when it has been trimmed.
pub trim-filled : (s : Str) → is_empty (trim s) ≡ false → is_empty (trim (trim s)) ≡ false
unfolding trim
trim-filled s h =
    let visible = trim_visible s h in
    visible_filled (trim_end (trim_start (trim s)))
      (trim_end_visible (trim_start (trim s)) (rw (trim_start_again (trim s) visible) visible))
