-- ===== src/Window/Text.antt =====
-- src/gui.rs: the bounds and the redactions of the text that the window keeps.
pub mod Bounded
use xus_miner.Common.{
  ℕ, zero, suc, ◌+◌, ◌-◌, min, Bool, true, false, ◌&&◌, ◌||◌, not, List, [], ◌∷◌, ◌++◌, Option,
  none, some, ltb, leb, ◌==◌, if◌then◌else◌, length, any, Str, codes, trim, is_empty, utf8,
  byte_len,
}
use xus_miner.Common.Chars.{strip_prefix, rsplit_once, split_once_str, split_before}

-- `&s[..keep]` behind the search for a character boundary at or below `keep`: the longest prefix of
-- at most this many bytes.
pub floor_prefix : ℕ → Str → Str
floor_prefix keep [] = []
floor_prefix keep (c ∷ s) =
    let rest = floor_prefix (keep - length (utf8 c)) s in
    if leb (length (utf8 c)) keep then c ∷ rest else []

unfoldable pub bounded_text : Str → ℕ → Str → Bool → Str
unfolding floor_prefix
bounded_text raw max_bytes suffix force_suffix =
    if not force_suffix && leb (byte_len raw) max_bytes
    then raw
    else if max_bytes == 0
    then []
    else if leb max_bytes (byte_len suffix)
    then floor_prefix (min max_bytes (byte_len suffix)) suffix
    else floor_prefix (min (max_bytes - byte_len suffix) (byte_len raw)) raw ++ suffix

-- What stands behind the last `@`, or the whole.
unfoldable pub host_of : Str → Str
host_of s = elim (rsplit_once b'@' s) [ none ↦ s | some (userinfo, host) ↦ host ]

pub sanitize_endpoint : Str → Str
unfolding host_of
sanitize_endpoint raw =
    let trimmed = trim raw in
    elim (split_once_str (codes "://") trimmed) [
      | none ↦ host_of trimmed
      | some (scheme, remainder) ↦
          let (authority, tail) = split_before b'/' remainder in
          scheme ++ codes "://" ++ host_of authority ++ tail
    ]

remainder_of : Str → Str
remainder_of s = elim (split_once_str (codes "://") s) [
  | none ↦ s
  | some (scheme, remainder) ↦ remainder
]

userinfo_of : Option (Str × Str) → Option Str
userinfo_of none = none
userinfo_of (some (userinfo, host)) = if is_empty userinfo then none else some userinfo

pub endpoint_userinfo : Str → Option Str
unfolding remainder_of userinfo_of
endpoint_userinfo raw =
    userinfo_of (rsplit_once b'@' (split_before b'/' (remainder_of (trim raw))).0)
