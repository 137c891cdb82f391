-- ===== src/Wire.antt =====
-- src/wire.rs: the rules for account names. (The header's wire format is read by the borsh library.)
pub mod Account
use xus_miner.Common.{
  ℕ, Bool, true, false, ◌&&◌, ◌||◌, not, List, [], ◌∷◌, leb, ◌==◌, if◌then◌else◌, length, Str,
  as_bytes,
}

pub data AccountError : Type 0 where
  bad_length : ℕ → AccountError
  edge_separator bad_character adjacent_separators : AccountError

-- `Result<(), String>`, with a constructor for each message.
pub data Verdict : Type 0 where
  valid : Verdict
  refused : AccountError → Verdict

-- `matches!(byte, b'-' | b'_' | b'.')`.
pub is_separator : ℕ → Bool
is_separator b = b == b'-' || b == b'_' || b == b'.'

pub is_alphanumeric : ℕ → Bool
is_alphanumeric b = (leb b'a' b && leb b b'z') || (leb b'0' b && leb b b'9')

-- `bytes[0]` and `bytes[len - 1]`, which are read only where there are two bytes at least.
pub first_byte : List ℕ → ℕ
first_byte [] = 0
first_byte (b ∷ bs) = b

pub last_byte : List ℕ → ℕ
last_byte [] = 0
last_byte (b ∷ []) = b
last_byte (b ∷ c ∷ bs) = last_byte (c ∷ bs)

-- The loop, with `previous_was_separator`.
pub scan_bytes : Bool → List ℕ → Verdict
unfolding is_separator is_alphanumeric
scan_bytes previous [] = valid
scan_bytes previous (b ∷ bs) =
    let rest = scan_bytes (is_separator b) bs in
    if not (is_alphanumeric b || is_separator b)
    then refused bad_character
    else if is_separator b && previous
    then refused adjacent_separators
    else rest

pub validate_bytes : List ℕ → Verdict
unfolding is_separator first_byte last_byte scan_bytes
validate_bytes bytes =
    if not (leb 2 (length bytes) && leb (length bytes) 64)
    then refused (bad_length (length bytes))
    else if is_separator (first_byte bytes) || is_separator (last_byte bytes)
    then refused edge_separator
    else scan_bytes false bytes

unfoldable pub validate_account_id : Str → Verdict
unfolding validate_bytes
validate_account_id account = validate_bytes (as_bytes account)
