-- ===== src/Feed/Decimal.antt =====
-- The decimal digits of a number, and `str::parse::<u64>`.
use xus_miner.Common.{
  ℕ, Bool, true, false, ◌==◌, zero, suc, ◌+◌, ◌*◌, ◌/◌, ◌%◌, ◌≤◌, ◌<◌, ◌≡◌, refl, [], ◌∷◌, some,
  Str, Bool-cases, inl, inr, ltb, arith, parse_u64, u64_max, scan_u64, scan_digits, is_digit,
}
use mathlib.Core.Path.{ap, ◌∙◌}
use xus_miner.Feed.{digits_from, decimal}

-- What the fuel of `digits_from` is enough for.
mod_small : (n : ℕ) → n % 10 < 10
mod_small n = omega arith

abbrev limit : ℕ → ℕ
limit zero = 1
limit (suc fuel) = 10 * limit fuel

scan_digit :
    (d n m : ℕ) (rest : Str)
    → d < 10
    → n * 10 + d ≡ m
    → m ≤ u64_max
    → scan_u64 ((b'0' + d) ∷ rest) n ≡ scan_u64 rest m
unfolding scan_u64 is_digit
scan_digit d n m rest h e fits = ground arith

scan-digits_from :
    (fuel n : ℕ) (rest : Str)
    → n < limit fuel
    → n ≤ u64_max
    → scan_u64 (digits_from fuel n rest) 0 ≡ scan_u64 rest n
unfolding digits_from
scan-digits_from zero n rest h fits = ap (scan_u64 rest) (omega arith)
scan-digits_from (suc fuel) n rest h fits = elim (Bool-cases (ltb n 10)) [
  | inl small ↦ rw small (scan_digit n 0 n rest (ground arith) (omega arith) fits)
  | inr large ↦ rw large (
      scan-digits_from fuel (n / 10) ((b'0' + n % 10) ∷ rest) (omega arith) (omega arith)
      ∙ scan_digit (n % 10) (n / 10) n rest (omega arith) (omega arith) fits)
]

unfoldable pub starts_digit : Str → Bool
unfolding is_digit
starts_digit [] = false
starts_digit (c ∷ s) = is_digit c

starts-digits_from :
    (fuel n : ℕ) (rest : Str)
    → starts_digit rest ≡ true
    → starts_digit (digits_from fuel n rest) ≡ true
unfolding digits_from starts_digit is_digit
starts-digits_from zero n rest h = h
starts-digits_from (suc fuel) n rest h = elim (Bool-cases (ltb n 10)) [
  | inl small ↦ rw small (ground arith)
  | inr large ↦
      rw large
        (starts-digits_from fuel (n / 10) ((b'0' + n % 10) ∷ rest) (ground (arith, mod_small n)))
]

pub starts-decimal : (n : ℕ) → starts_digit (decimal n) ≡ true
unfolding decimal digits_from starts_digit is_digit
starts-decimal n = elim (Bool-cases (ltb n 10)) [
  | inl small ↦ rw small (ground arith)
  | inr large ↦
      rw large (starts-digits_from 19 (n / 10) ((b'0' + n % 10) ∷ []) (ground (arith, mod_small n)))
]

parse_digits : (s : Str) → starts_digit s ≡ true → parse_u64 s ≡ scan_u64 s 0
unfolding parse_u64 starts_digit is_digit scan_digits
parse_digits [] h = cc
parse_digits (c ∷ s) h = elim (Bool-cases (c == b'+')) [
  | inl plus ↦ ground arith
  | inr digit ↦ rw digit refl
]

-- What is printed of a `u64` is read again.
pub parse_u64-decimal : (n : ℕ) → n ≤ u64_max → parse_u64 (decimal n) ≡ some n
unfolding decimal scan_u64
parse_u64-decimal n h =
    parse_digits (decimal n) (starts-decimal n) ∙ scan-digits_from 20 n [] (omega arith) h
