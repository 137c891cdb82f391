-- ===== src/Blockflow/Histogram.antt =====
-- src/blockflow.rs: the mempool histogram, its validation, and the packing into pending blocks.
pub mod Valid
pub mod Packing
use xus_miner.Common.{
  ℕ, zero, suc, ◌+◌, ◌-◌, ◌/◌, ◌%◌, min, max, Bool, true, false, ◌&&◌, ◌||◌, not, List, [], ◌∷◌,
  reverse, Option, none, some, ltb, leb, ◌==◌, if◌then◌else◌, length, saturating_add, checked_add,
  codes, ◌>>=◌, ◌>>◌, guard,
}
use xus_miner.Common.Json.{Json}
use xus_miner.Blockflow.Reply.{grains}

abbrev pub max_projected_blocks : ℕ
max_projected_blocks = 6

abbrev pub max_backlog_blocks : ℕ
max_backlog_blocks = 24

abbrev pub max_histogram_buckets : ℕ
max_histogram_buckets = 512

pub record HistogramBucket : Type 0 where
  pub fee_rate_grains : ℕ
  pub tx_count : ℕ

pub record MempoolHistogram : Type 0 where
  pub tx_count : ℕ
  pub max_block_txs : ℕ
  pub buckets : List HistogramBucket

pub record ProjectedBlock : Type 0 where
  pub tx_count : ℕ
  pub fee_min_grains : ℕ
  pub fee_max_grains : ℕ

-- `buckets.windows(2).all(…)`: no fee rate stands below the next one.
pub ordered : List HistogramBucket → Bool
ordered [] = true
ordered (b ∷ []) = true
ordered (b ∷ c ∷ bs) = leb c.fee_rate_grains b.fee_rate_grains && ordered (c ∷ bs)

-- `try_fold` with `checked_add`.
pub checked_sum : ℕ → List HistogramBucket → Option ℕ
checked_sum acc [] = some acc
checked_sum acc (b ∷ bs) = do acc' ← checked_add acc b.tx_count; checked_sum acc' bs

-- The validation of the buckets against the counts.
pub check_buckets : ℕ → ℕ → List HistogramBucket → Option MempoolHistogram
unfolding ordered checked_sum
check_buckets tx_count max_block_txs buckets = do
  guard (ordered buckets)
  bucket_sum ← checked_sum 0 buckets
  guard (bucket_sum == tx_count)
  some (record { tx_count = tx_count; max_block_txs = max_block_txs; buckets = buckets })

module _ (J : Json) where
  open J use {Value, field?, as_array}

  parse_bucket : Value → Option HistogramBucket
  parse_bucket v = do
    rate ← field? v (codes "feeRateGrains") >>= grains J
    count ← field? v (codes "txCount") >>= grains J
    some (record { fee_rate_grains = rate; tx_count = count })

  parse_buckets : List Value → Option (List HistogramBucket)
  unfolding parse_bucket
  parse_buckets [] = some []
  parse_buckets (v ∷ vs) = do b ← parse_bucket v; bs ← parse_buckets vs; some (b ∷ bs)

  unfoldable pub mempool_histogram : Value → Option MempoolHistogram
  unfolding parse_buckets check_buckets
  mempool_histogram v = do
    tx_count ← field? v (codes "txCount") >>= grains J
    max_block_txs ← field? v (codes "maxBlockTxs") >>= grains J
    guard (not (max_block_txs == 0))
    raw_buckets ← field? v (codes "buckets") >>= as_array
    guard (leb (length raw_buckets) max_histogram_buckets)
    buckets ← parse_buckets raw_buckets
    check_buckets tx_count max_block_txs buckets

-- The loop variables of the packing. The newest block stands first: `last_mut` is the head.
pub record Packed : Type 0 where
  pub blocks : List ProjectedBlock
  pub room : ℕ

-- `last.tx_count += …` and the two fee bounds, on the newest block.
pub widen : (ℕ → ℕ) → ℕ → List ProjectedBlock → List ProjectedBlock
widen count rate [] = []
widen count rate (b ∷ bs) =
    record {
      tx_count = count b.tx_count;
      fee_min_grains = min b.fee_min_grains rate;
      fee_max_grains = max b.fee_max_grains rate;
    }
    ∷ bs

-- A new block, if the newest one is full.
pub open_block : ℕ → ℕ → Packed → Packed
open_block capacity rate p =
    if p.room == 0
    then record {
      blocks = record { tx_count = 0; fee_min_grains = rate; fee_max_grains = rate } ∷ p.blocks;
      room = capacity;
    }
    else p

-- `while remaining > 0 { … }` for one bucket. Each round but the last takes a transaction at least,
-- so `remaining` rounds are enough.
pub pack_bucket : (capacity cap rate fuel : ℕ) → Packed → ℕ → Packed
unfolding widen open_block
pack_bucket capacity cap rate zero p remaining = p
pack_bucket capacity cap rate (suc fuel) p remaining =
    let q = open_block capacity rate p in
    let taken = min remaining q.room in
    let next =
      pack_bucket capacity cap rate fuel
        (record { blocks = widen (λ n. n + taken) rate q.blocks; room = q.room - taken })
        (remaining - taken) in
    if remaining == 0
    then p
    else if p.room == 0 && ltb cap (length p.blocks)
    then record p { blocks = widen (λ n. saturating_add n remaining) rate p.blocks }
    else next

pub pack : (capacity cap : ℕ) → Packed → List HistogramBucket → Packed
unfolding pack_bucket
pack capacity cap p [] = p
pack capacity cap p (b ∷ bs) =
    pack capacity cap (pack_bucket capacity cap b.fee_rate_grains b.tx_count p b.tx_count) bs

-- `split_off(1)`: what lies behind the forming block.
pub split_first : List ProjectedBlock → List ProjectedBlock
split_first [] = []
split_first (b ∷ bs) = bs

pub packed_pending_blocks : MempoolHistogram → ℕ → List ProjectedBlock
unfolding pack split_first
packed_pending_blocks h cap =
    if h.max_block_txs == 0 || h.tx_count == 0
    then []
    else split_first
        (reverse (pack h.max_block_txs cap (record { blocks = []; room = 0 }) h.buckets).blocks)

pub projected_blocks : MempoolHistogram → List ProjectedBlock
projected_blocks h = packed_pending_blocks h max_projected_blocks

pub backlog_blocks : MempoolHistogram → List ProjectedBlock
backlog_blocks h = packed_pending_blocks h max_backlog_blocks

-- `u64::div_ceil`.
pub div_ceil : ℕ → ℕ → ℕ
div_ceil a b = if a % b == 0 then a / b else a / b + 1

pub backlog_depth : MempoolHistogram → ℕ
unfolding div_ceil
backlog_depth h =
    if h.max_block_txs == 0 then 0 else div_ceil (h.tx_count - h.max_block_txs) h.max_block_txs
