-- ===== src/Common/Chars.antt =====
-- Rust's `str` continued: searching and splitting, ASCII tests, and the decoding of UTF-8.
use Prim.Native.Nat.{ℕ, ◌+◌, ◌-◌, ◌*◌}
use mathlib.Core.List.{List, [], ◌∷◌, reverse}
use mathlib.Core.Bool.{Bool, true, false, ◌&&◌, ◌||◌, not}
use mathlib.Core.Option.{Option, none, some}
use xus_miner.Common.Tests.{ltb, leb, ◌==◌, if◌then◌else◌}
use xus_miner.Common.Text.{Str, parse_u64}

-- `starts_with`, and `strip_prefix`.
unfoldable pub strip_prefix : Str → Str → Option Str
strip_prefix [] s = some s
strip_prefix (p ∷ ps) [] = none
strip_prefix (p ∷ ps) (c ∷ s) = let rest = strip_prefix ps s in if p == c then rest else none

-- `split_once` at a character: what stands before its first place, and what stands behind it.
unfoldable pub split_once : ℕ → Str → Option (Str × Str)
split_once at [] = none
split_once at (c ∷ s) =
    let rest = split_once at s in
    if c == at
    then some ([], s)
    else elim rest [ none ↦ none | some (before, behind) ↦ some (c ∷ before, behind) ]

unfoldable pub is_ascii_digit : ℕ → Bool
is_ascii_digit c = leb b'0' c && leb c b'9'

unfoldable pub is_ascii_alphanumeric : ℕ → Bool
unfolding is_ascii_digit
is_ascii_alphanumeric c =
    is_ascii_digit c || (leb b'a' c && leb c b'z') || (leb b'A' c && leb c b'Z')

unfoldable pub is_ascii_control : ℕ → Bool
is_ascii_control c = ltb c 32 || c == 127

unfoldable pub ascii_lower : ℕ → ℕ
ascii_lower c = if leb b'A' c && leb c b'Z' then c + 32 else c

unfoldable pub eq_ignore_ascii_case : Str → Str → Bool
unfolding ascii_lower
eq_ignore_ascii_case [] [] = true
eq_ignore_ascii_case (c ∷ s) (d ∷ t) = ascii_lower c == ascii_lower d && eq_ignore_ascii_case s t
eq_ignore_ascii_case _ _ = false

-- The decoder of UTF-8: what a byte starts, or goes on with. The last two numbers are the range of
-- the next byte, which excludes overlong forms, surrogates and what lies beyond the last scalar.
pub data Utf8 : Type 0 where
  refused : Utf8
  scalar : ℕ → Utf8
  wants : (left code lo hi : ℕ) → Utf8

unfoldable pub start_utf8 : ℕ → Utf8
start_utf8 b =
    if ltb b 0x80
    then scalar b
    else if ltb b 0xc2
    then refused
    else if ltb b 0xe0
    then wants 1 (b - 0xc0) 0x80 0xbf
    else if ltb b 0xf0
    then wants 2 (b - 0xe0) (if b == 0xe0 then 0xa0 else 0x80) (if b == 0xed then 0x9f else 0xbf)
    else if ltb b 0xf5
    then wants 3 (b - 0xf0) (if b == 0xf0 then 0x90 else 0x80) (if b == 0xf4 then 0x8f else 0xbf)
    else refused

unfoldable pub next_utf8 : (left code lo hi : ℕ) → ℕ → Utf8
next_utf8 left code lo hi b =
    let code' = code * 64 + (b - 0x80) in
    if not (leb lo b && leb b hi)
    then refused
    else if left == 1
    then scalar code'
    else wants (left - 1) code' 0x80 0xbf

-- `scalar` stands between two characters.
unfoldable pub decode_from : Utf8 → List ℕ → Option Str
unfolding start_utf8 next_utf8
decode_from refused bs = none
decode_from (wants left code lo hi) [] = none
decode_from (scalar c) [] = some []
decode_from (scalar c) (b ∷ bs) = elim (start_utf8 b) [
  | refused ↦ none
  | scalar d ↦ elim (decode_from (scalar d) bs) [ none ↦ none | some s ↦ some (d ∷ s) ]
  | wants left code lo hi ↦ decode_from (wants left code lo hi) bs
]
decode_from (wants left code lo hi) (b ∷ bs) = elim (next_utf8 left code lo hi b) [
  | refused ↦ none
  | scalar d ↦ elim (decode_from (scalar d) bs) [ none ↦ none | some s ↦ some (d ∷ s) ]
  | wants left' code' lo' hi' ↦ decode_from (wants left' code' lo' hi') bs
]

-- `String::from_utf8`.
unfoldable pub from_utf8 : List ℕ → Option Str
unfolding decode_from
from_utf8 bytes = decode_from (scalar 0) bytes

-- `rsplit_once` at a character: the last of its places.
unfoldable pub rsplit_once : ℕ → Str → Option (Str × Str)
rsplit_once at [] = none
rsplit_once at (c ∷ s) = elim (rsplit_once at s) [
  | some (before, behind) ↦ some (c ∷ before, behind)
  | none ↦ if c == at then some ([], s) else none
]

-- `split_once` at a string that is not empty.
unfoldable pub split_once_str : Str → Str → Option (Str × Str)
unfolding strip_prefix
split_once_str pattern [] = none
split_once_str pattern (c ∷ s) =
    let rest = split_once_str pattern s in
    elim (strip_prefix pattern (c ∷ s)) [
      | some behind ↦ some ([], behind)
      | none ↦ elim rest [ none ↦ none | some (before, behind) ↦ some (c ∷ before, behind) ]
    ]

-- `split_at(find(c).unwrap_or(len))`.
unfoldable pub split_before : ℕ → Str → Str × Str
split_before at [] = ([], [])
split_before at (c ∷ s) =
    let (before, behind) = split_before at s in
    if c == at then ([], c ∷ s) else (c ∷ before, behind)

drop_while : (ℕ → Bool) → Str → Str
drop_while p [] = []
drop_while p (c ∷ s) = let rest = drop_while p s in if p c then rest else c ∷ s

-- `trim_end_matches` of a character.
unfoldable pub trim_end_matches : ℕ → Str → Str
unfolding drop_while
trim_end_matches at s = reverse (drop_while (λ c. c == at) (reverse s))

-- `parse::<u16>().ok()`: the value of the digits that a `u64` takes as well, if it fits.
unfoldable pub parse_u16 : Str → Option ℕ
parse_u16 s = elim (parse_u64 s) [ none ↦ none | some n ↦ if leb n 65535 then some n else none ]
