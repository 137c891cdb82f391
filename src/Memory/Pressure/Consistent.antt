-- ===== src/Memory/Pressure/Consistent.antt =====
-- src/main.rs, `parse_macos_memory_pressure`: what is available is a part of what there is.
use native.Mathlib.Nat.{mul-le-mul_left}
use mathlib.Core.Path.{ap, sym, subst, subst₂, ◌∙◌}
use xus_miner.Common.{
  ℕ, Bool, true, ◌*◌, ◌/◌, ◌%◌, ◌≤◌, ◌≡◌, List, [], ◌∷◌, Option, none, some, ltb, leb, Str, codes,
  parse_u64, parse_u64-le, trim, u64_max, u64_mod, ok, filter_by, ◌>>=◌, arith, Option-cases,
  Bool-cases, some_inj, ok_inj, inl, inr, ltb→lt, leb→le, ◌<◌,
}
use xus_miner.Common.Chars.{strip_prefix}
use xus_miner.Common.Try.{after_ok_or}
use xus_miner.Memory.Pressure.{
  Pressure, read_line, read_lines, lines, first_word, parse_macos_memory_pressure,
}

-- The total is a `u64`.
Fits : Pressure → Type 0
Fits p = (total : ℕ) → p.total ≡ some total → total ≤ u64_max

parsed_fits : (o : Option Str) {n : ℕ} → (o >>= parse_u64) ≡ some n → n ≤ u64_max
parsed_fits none e = cc
parsed_fits (some s) {n} e = parse_u64-le s e

read_line-Fits : (line : Str) (p : Pressure) → Fits p → Fits (read_line line p)
unfolding read_line Fits
read_line-Fits line p h = elim (Option-cases (strip_prefix (codes "The system has ") line)) [
  | inr (rest, found) ↦
      rw (found, read_line) (λ total e. parsed_fits (first_word rest) {n = total} e)
  | inl other ↦
      elim (Option-cases (strip_prefix (codes "System-wide memory free percentage:") line)) [
        | inr (rest, found) ↦ rw (other, found, read_line) h
        | inl neither ↦ rw (other, neither, read_line) h
      ]
]

read_lines-Fits : (ls : List Str) (p : Pressure) → Fits p → Fits (read_lines ls p)
unfolding read_lines
read_lines-Fits [] p h = h
read_lines-Fits (line ∷ ls) p h =
    read_lines-Fits ls (read_line (trim line) p) (read_line-Fits (trim line) p h)

filter_by-found :
    (o : Option ℕ) (test : ℕ → Bool) {n : ℕ}
    → filter_by test o ≡ some n
    → (o ≡ some n) × (test n ≡ true)
filter_by-found none test e = cc
filter_by-found (some m) test e = elim (Bool-cases (test m)) [
  | inl passes ↦
      let same = some_inj (rw passes at e) in (ap some same, subst (λ k. test k ≡ true) same passes)
  | inr fails ↦ cc (rw fails at e)
]

nothing : Fits (record { total = none; free_percent = none })
unfolding Fits
nothing total e = cc

part : (total percent : ℕ) → percent ≤ 100 → total * percent / 100 ≤ total
part total percent h = omega (arith, mul-le-mul_left total h)

unwrapped : (n : ℕ) → n ≤ u64_max → n % u64_mod ≡ n
unwrapped n h = omega arith

part_of :
    (t p : ℕ) {available total : ℕ}
    → t ≤ u64_max
    → 0 < t
    → p ≤ 100
    → ◌≡◌ {A = ℕ × ℕ} ((t * p / 100) % u64_mod, t) (available, total)
    → (percent : ℕ) × (percent ≤ 100)
      × (available ≡ total * percent / 100)
      × (available ≤ total)
      × (1 ≤ total)
part_of t p {available} {total} fits positive bounded e =
    let below = part t p bounded in
    let whole = unwrapped (t * p / 100) (omega arith) in
    let given : (t * p / 100) % u64_mod ≡ available = ap (λ q. q.0) e in
    let same : t ≡ total = ap (λ q. q.1) e in
    (
      p,
      bounded,
      sym given ∙ whole ∙ ap (λ n. n * p / 100) same,
      subst₂ ◌≤◌ (sym whole ∙ given) same below,
      subst (λ n. 1 ≤ n) same (omega arith),
    )

-- A report that is taken gives a positive total, and as available the part that the percentage of at
-- most 100 makes of it, which is not above the total and does not wrap around.
pub parse_macos_memory_pressure-part :
    (raw : Str) {available total : ℕ}
    → parse_macos_memory_pressure raw ≡ ok (available, total)
    → (percent : ℕ) × (percent ≤ 100)
      × (available ≡ total * percent / 100)
      × (available ≤ total)
      × (1 ≤ total)
unfolding parse_macos_memory_pressure Fits
parse_macos_memory_pressure-part raw {available} {total} e =
    let start : Pressure = record { total = none; free_percent = none } in
    let found : Pressure = read_lines (lines raw) start in
    let fits : Fits found = read_lines-Fits (lines raw) start nothing in
    let (t, total_found, e₁) = after_ok_or (filter_by (λ value. ltb 0 value) found.total) _ _ e in
    let (p, percent_found, e₂) =
      after_ok_or (filter_by (λ value. leb value 100) found.free_percent) _ _ e₁ in
    let (read, positive) = filter_by-found found.total (λ value. ltb 0 value) total_found in
    let (_, bounded) = filter_by-found found.free_percent (λ value. leb value 100) percent_found in
    part_of t p (fits t read) (ltb→lt 0 t positive) (leb→le p 100 bounded) (ok_inj e₂)
