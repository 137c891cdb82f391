-- ===== src/Feed.antt =====
-- src/main.rs: what the operator is told of the chain: the lines of the block feed, and the members
-- of the events `chain_block` and `block_flow`. A line on stderr and in the log is the same text.
pub mod Decimal
pub mod Flow
use xus_miner.Common.{
  ℕ, zero, suc, ◌+◌, ◌-◌, ◌/◌, ◌%◌, Bool, true, false, ◌&&◌, not, List, [], ◌∷◌, ◌++◌, Option, none,
  some, ltb, if◌then◌else◌, length, take, Str, codes, ◌>>=◌,
}
use xus_miner.Common.Json.{Json}
use xus_miner.Blockflow.Sealed.{MineMark, proven}
use xus_miner.Blockflow.Sealed

-- A `u64` in decimal: at most 20 digits.
unfoldable pub digits_from : ℕ → ℕ → Str → Str
digits_from zero n digits = digits
digits_from (suc fuel) n digits =
    let rest = digits_from fuel (n / 10) ((b'0' + n % 10) ∷ digits) in
    if ltb n 10 then (b'0' + n) ∷ digits else rest

unfoldable pub decimal : ℕ → Str
unfolding digits_from
decimal n = digits_from 20 n []

pub peer_count_from_info : (J : Json) → Json.Value J → Option ℕ
peer_count_from_info J info = Json.field? J info (codes "peers") >>= Json.as_u64 J

pub short_hash : Str → Str
short_hash hash = if ltb 16 (length hash) then take 16 hash ++ codes "…" else take 16 hash

is_unverified : MineMark → Bool
is_unverified MineMark.unverified_height = true
is_unverified _ = false

headline : MineMark → Str
unfolding is_unverified
headline mark =
    if proven mark
    then codes "★ BLOCK FOUND (YOURS)"
    else if is_unverified mark
    then codes "BLOCK FOUND (possibly YOURS — unverified)"
    else codes "BLOCK FOUND (network)"

hash_part : Bool → Option Str → MineMark → Str
unfolding short_hash is_unverified
hash_part true (some hash) mark = codes " | hash " ++ short_hash hash
hash_part true none mark = codes " | hash not disclosed by node"
hash_part false hash mark =
    codes " | detail fetch failed this cycle; hash unknown"
    ++ (if is_unverified mark
        then codes " — height matches your accepted submission but could not be hash-checked"
        else [])

count_part : Option ℕ → Str
unfolding decimal
count_part none = []
count_part (some tx_count) = codes " | " ++ decimal tx_count ++ codes " tx"

unfoldable pub chain_block_log_line : ℕ → Bool → Option Str → Option ℕ → MineMark → Str
unfolding headline decimal hash_part count_part
chain_block_log_line height detail_fetched hash tx_count mark =
    headline mark
    ++ codes " height "
    ++ decimal height
    ++ hash_part detail_fetched hash mark
    ++ count_part tx_count

named_hash : Option Str → Str
unfolding short_hash
named_hash none = codes "(hash not disclosed)"
named_hash (some hash) = short_hash hash

-- The line of `emit_chain_reorg`.
pub chain_reorg_log_line : ℕ → Str → Option Str → Str
unfolding decimal named_hash short_hash
chain_reorg_log_line height previous_hash new_hash =
    codes "REORG at height "
    ++ decimal height
    ++ codes ": block "
    ++ named_hash new_hash
    ++ codes " replaced "
    ++ short_hash previous_hash

-- The members of `chain_block`.
pub record ChainBlock : Type 0 where
  pub height : ℕ
  pub hash : Option Str
  pub tx_count : Option ℕ
  pub timestamp_ms : Option ℕ
  pub mine : Bool
  pub detail_fetch_failed : Bool
  pub mine_unverified : Bool
  pub mine_basis : Option Str

unfoldable pub chain_block : ℕ → Bool → Option Str → Option ℕ → Option ℕ → MineMark → ChainBlock
unfolding is_unverified
chain_block height detail_fetched hash tx_count timestamp_ms mark = record {
  height = height;
  hash = hash;
  tx_count = tx_count;
  timestamp_ms = timestamp_ms;
  mine = proven mark;
  detail_fetch_failed = not detail_fetched;
  mine_unverified = is_unverified mark;
  mine_basis = Sealed.basis mark;
}
