-- ===== src/Blockflow/Reply.antt =====
-- src/blockflow.rs: the readers of single values out of the node's JSON replies.
use xus_miner.Common.{
  ℕ, ◌≤◌, ◌≡◌, Bool, ◌&&◌, not, List, [], ◌∷◌, Option, none, some, leb, if◌then◌else◌, length, Str,
  codes, trim, is_empty, byte_len, parse_u64, parse_u64-le, u64_max, ◌>>=◌, or_else, filter_by,
  Option-cases, inl, inr, ◌∙◌,
}
use mathlib.Core.Option
use xus_miner.Common.Json.{Json}
use xus_miner.Blockflow.Tip.{max_hash_chars}

module _ (J : Json) where
  open J use {Value, field?, as_u64, as_str, as_array, is_object, as_u64_le}

  -- The object that carries the block's fields.
  pub block_facet : Value → Value
  block_facet v = elim (field? v (codes "block")) [
    | none ↦ v
    | some inner ↦ if is_object inner then inner else v
  ]

  list_len : Value → Str → Option ℕ
  list_len v key = Option.map length (field? v key >>= as_array)

  pub tx_count : Value → Option ℕ
  unfolding block_facet list_len
  tx_count v =
      let facet = block_facet v in
      or_else (list_len facet (codes "transactions"))
        (or_else (list_len facet (codes "txIds")) (field? facet (codes "txCount") >>= as_u64))

  pub is_usable_hash : Str → Bool
  is_usable_hash hash = not (is_empty hash) && leb (byte_len hash) max_hash_chars

  pub block_hash : Value → Option Str
  unfolding block_facet is_usable_hash
  block_hash v =
      let facet = block_facet v in
      let disclosed =
        or_else (field? facet (codes "hash"))
          (do header ← field? facet (codes "header"); field? header (codes "hash")) in
      filter_by is_usable_hash (Option.map trim (disclosed >>= as_str))

  read_timestamp : Value → Option ℕ
  read_timestamp v =
      or_else (field? v (codes "timestamp_ms")) (field? v (codes "timestampMs")) >>= as_u64

  pub block_timestamp_ms : Value → Option ℕ
  unfolding block_facet read_timestamp
  block_timestamp_ms v =
      let facet = block_facet v in
      or_else (field? facet (codes "header") >>= read_timestamp) (read_timestamp facet)

  -- An amount: an integer, or a decimal string.
  unfoldable pub grains : Value → Option ℕ
  grains v = or_else (as_u64 v) (do raw ← as_str v; parse_u64 (trim raw))

  pub fee_grains : Value → Option ℕ
  unfolding grains
  fee_grains v = or_else (as_u64 v) (field? v (codes "feeGrains") >>= grains)

  pub fee_floor_grains : Value → Option ℕ
  unfolding fee_grains
  fee_floor_grains v = or_else (field? v (codes "floorGrains") >>= grains) (fee_grains v)

  first_u64 : Value → List Str → Option ℕ
  first_u64 v [] = none
  first_u64 v (key ∷ keys) = or_else (field? v key >>= as_u64) (first_u64 v keys)

  pub mempool_size : Value → Option ℕ
  unfolding first_u64
  mempool_size v =
      or_else (as_u64 v)
        (first_u64 v (codes "size" ∷ codes "count" ∷ codes "mempool" ∷ codes "pending" ∷ []))

  pub grains-le : (v : Value) {n : ℕ} → grains v ≡ some n → n ≤ u64_max
  unfolding grains
  grains-le v {n} e = elim (Option-cases (as_u64 v)) [
    | inr (m, number) ↦ as_u64_le v (number ∙ (rw number at e))
    | inl text ↦ elim (Option-cases (as_str v)) [
      | inr (raw, found) ↦ parse_u64-le (trim raw) (rw (text, found) at e)
      | inl missing ↦ absurd (cc (rw (text, missing) at e))
    ]
  ]
