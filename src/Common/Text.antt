-- ===== src/Common/Text.antt =====
-- Rust's `str`: a list of Unicode scalar values, its UTF-8 bytes, comparison, trimming, and the
-- decimal parser of `u64`.
use Prim.Native.Nat.{ℕ, ◌+◌, ◌-◌, ◌*◌, ◌/◌, ◌%◌, ◌^◌, ◌≤◌}
use Prim.Native.Char.{code}
use Prim.Native.String.{String}
use mathlib.Core.Path.{◌≡◌}
use mathlib.Core.Logic.{◌↔◌}
use mathlib.Core.List.{List, [], ◌∷◌, ◌++◌, reverse}
use mathlib.Core.Bool.{Bool, true, false, ◌&&◌, ◌||◌}
use mathlib.Core.Option.{Option, none, some}
use native.Mathlib.Omega.{arith}
use xus_miner.Common.Tests.{ltb, leb, ◌==◌, if◌then◌else◌}
use xus_miner.Common.Lists.{length}

abbrev pub Str : Type 0
Str = List ℕ

abbrev pub codes : String → Str
codes String.[] = []
codes (String.◌∷◌ c s) = code c ∷ codes s

-- `==` of two strings, or of two byte slices.
unfoldable pub str_eq : Str → Str → Bool
str_eq [] [] = true
str_eq [] (y ∷ ys) = false
str_eq (x ∷ xs) [] = false
str_eq (x ∷ xs) (y ∷ ys) = x == y && str_eq xs ys

pub str_eq_iff : (s t : Str) → (str_eq s t ≡ true) ↔ (s ≡ t)
unfolding str_eq
str_eq_iff [] [] = ground arith
str_eq_iff [] (y ∷ ys) = ground arith
str_eq_iff (x ∷ xs) [] = ground arith
str_eq_iff (x ∷ xs) (y ∷ ys) = ground (arith, str_eq_iff xs ys)

-- The Unicode property White_Space, which `str::trim` and `split_whitespace` test.
unfoldable pub is_whitespace : ℕ → Bool
is_whitespace c =
    (leb 9 c && leb c 13)
    || (c == 32 || c == 133 || c == 160 || c == 5760)
    || ((leb 8192 c && leb c 8202)
        || c == 8232
        || c == 8233
        || c == 8239
        || c == 8287
        || c == 12288)

unfoldable pub trim_start : Str → Str
trim_start [] = []
trim_start (c ∷ s) = if is_whitespace c then trim_start s else c ∷ s

unfoldable pub trim_end : Str → Str
trim_end s = reverse (trim_start (reverse s))

-- `str::trim`.
unfoldable pub trim : Str → Str
unfolding trim_start trim_end is_whitespace
trim s = trim_end (trim_start s)

-- The UTF-8 bytes of one scalar value.
pub utf8 : ℕ → List ℕ
utf8 c =
    if ltb c 0x80
    then c ∷ []
    else if ltb c 0x800
    then (0xc0 + c / 0x40) ∷ (0x80 + c % 0x40) ∷ []
    else if ltb c 0x10000
    then (0xe0 + c / 0x1000) ∷ (0x80 + c / 0x40 % 0x40) ∷ (0x80 + c % 0x40) ∷ []
    else (0xf0 + c / 0x40000)
      ∷ (0x80 + c / 0x1000 % 0x40)
      ∷ (0x80 + c / 0x40 % 0x40)
      ∷ (0x80 + c % 0x40)
      ∷ []

-- `str::as_bytes`; `str::len` counts these.
unfoldable pub as_bytes : Str → List ℕ
unfolding utf8
as_bytes [] = []
as_bytes (c ∷ s) = utf8 c ++ as_bytes s

unfoldable pub byte_len : Str → ℕ
unfolding as_bytes utf8
byte_len s = length (as_bytes s)

unfoldable pub is_empty : Str → Bool
is_empty [] = true
is_empty (c ∷ s) = false

abbrev pub u64_max : ℕ
u64_max = 2 ^ 64 - 1

abbrev pub u64_mod : ℕ
u64_mod = 2 ^ 64

-- `u64::saturating_add` and `u64::checked_add`.
abbrev pub saturating_add : ℕ → ℕ → ℕ
saturating_add a b = if ltb u64_max (a + b) then u64_max else a + b

abbrev pub checked_add : ℕ → ℕ → Option ℕ
checked_add a b = if ltb u64_max (a + b) then none else some (a + b)

unfoldable pub is_digit : ℕ → Bool
is_digit c = leb b'0' c && leb c b'9'

-- The digits of `str::parse::<u64>`: an overflow is an error.
unfoldable pub scan_u64 : Str → ℕ → Option ℕ
scan_u64 [] n = some n
scan_u64 (c ∷ s) n =
    let m = n * 10 + (c - b'0') in
    if is_digit c then (if ltb u64_max m then none else scan_u64 s m) else none

unfoldable pub scan_digits : Str → Option ℕ
scan_digits [] = none
scan_digits (c ∷ s) = scan_u64 (c ∷ s) 0

-- `str::parse::<u64>().ok()`: one `+` may stand in front, and there is at least one digit.
unfoldable pub parse_u64 : Str → Option ℕ
unfolding scan_u64 scan_digits is_digit
parse_u64 [] = none
parse_u64 (c ∷ s) = if c == b'+' then scan_digits s else scan_digits (c ∷ s)

scan_u64-le : (s : Str) (n : ℕ) {r : ℕ} → n ≤ u64_max → scan_u64 s n ≡ some r → r ≤ u64_max
unfolding scan_u64
scan_u64-le [] n h e = ground arith
scan_u64-le (c ∷ s) n {r} h e = ground (arith, scan_u64-le s (n * 10 + (c - b'0')) {r = r})

scan_digits-le : (s : Str) {r : ℕ} → scan_digits s ≡ some r → r ≤ u64_max
unfolding scan_digits
scan_digits-le [] e = cc
scan_digits-le (c ∷ s) e = scan_u64-le (c ∷ s) 0 (omega arith) e

-- What parses is a `u64`.
pub parse_u64-le : (s : Str) {r : ℕ} → parse_u64 s ≡ some r → r ≤ u64_max
unfolding parse_u64
parse_u64-le [] e = cc
parse_u64-le (c ∷ s) {r} e =
    ground (arith, scan_digits-le s {r = r}, scan_digits-le (c ∷ s) {r = r})
