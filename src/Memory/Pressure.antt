-- ===== src/Memory/Pressure.antt =====
-- src/main.rs, `parse_macos_memory_pressure`: what is read from the report of `memory_pressure`. An
-- error message is a constructor.
pub mod Consistent
use mathlib.Core.List.{reverse}
use xus_miner.Common.{
  ℕ, ◌*◌, ◌/◌, ◌%◌, List, [], ◌∷◌, Option, none, some, ltb, leb, ◌==◌, if◌then◌else◌, Str, codes,
  trim, is_whitespace, parse_u64, u64_mod, Result, ok, ok_or, filter_by, ◌>>=◌,
}
use xus_miner.Common.Chars.{strip_prefix}
use xus_miner.Common.Try

-- A character before a line: a line that it starts, or goes on with.
push_char : ℕ → List Str → List Str
push_char c [] = (c ∷ []) ∷ []
push_char c (line ∷ lines) = (c ∷ line) ∷ lines

-- `str::lines`, where a line that ends in a line feed loses one carriage return before it, which the
-- trimming of the lines takes away in any case.
lines : Str → List Str
unfolding push_char
lines [] = []
lines (c ∷ s) = let rest = lines s in if c == 10 then [] ∷ rest else push_char c rest

-- `split_whitespace().next()`.
take_word : Str → Str
take_word [] = []
take_word (c ∷ s) = let rest = take_word s in if is_whitespace c then [] else c ∷ rest

first_word : Str → Option Str
unfolding take_word trim
first_word s = elim (trim s) [ [] ↦ none | c ∷ rest ↦ some (take_word (c ∷ rest)) ]

-- `strip_suffix` of a character.
strip_last : ℕ → Str → Option Str
strip_last at s = elim (reverse s) [
  | [] ↦ none
  | c ∷ before ↦ if c == at then some (reverse before) else none
]

record Pressure : Type 0 where
  total : Option ℕ
  free_percent : Option ℕ

-- One line of the report.
read_line : Str → Pressure → Pressure
unfolding first_word strip_last
read_line line p = elim (strip_prefix (codes "The system has ") line) [
  | some rest ↦ record p { total = first_word rest >>= parse_u64 }
  | none ↦ elim (strip_prefix (codes "System-wide memory free percentage:") line) [
    | some rest ↦ record p {
      free_percent = strip_last b'%' (trim rest) >>= (λ value. parse_u64 (trim value));
    }
    | none ↦ p
  ]
]

read_lines : List Str → Pressure → Pressure
unfolding read_line
read_lines [] p = p
read_lines (line ∷ lines) p = read_lines lines (read_line (trim line) p)

pub data PressureError : Type 0 where
  no_total no_percentage : PressureError

-- The product is a `u128`.
unfoldable pub parse_macos_memory_pressure : Str → Result PressureError (ℕ × ℕ)
unfolding read_lines lines
parse_macos_memory_pressure raw =
    let found = read_lines (lines raw) (record { total = none; free_percent = none }) in
    Try.◌>>=◌ (ok_or (filter_by (λ value. ltb 0 value) found.total) PressureError.no_total)
      (λ total.
        Try.◌>>=◌
          (ok_or (filter_by (λ value. leb value 100) found.free_percent)
            PressureError.no_percentage)
          (λ percent. ok ((total * percent / 100) % u64_mod, total)))
