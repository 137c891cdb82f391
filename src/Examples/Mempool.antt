-- ===== src/Examples/Mempool.antt =====
-- Tests of src/blockflow.rs: the mempool histogram and its packing.
use xus_miner.Common.{ℕ, ◌≡◌, refl, [], ◌∷◌, some, min, length, codes, str_eq, arith}
use xus_miner.Blockflow.Reply.{grains}
use xus_miner.Blockflow.Histogram.{
  MempoolHistogram, mempool_histogram, packed_pending_blocks, backlog_depth,
}
use xus_miner.Blockflow.Histogram.Valid.{IsValid, mempool_histogram-IsValid}
use xus_miner.Blockflow.Histogram.Packing.Pending.{length-packed_pending_blocks}
use xus_miner.Blockflow.Histogram.Packing.Fees.{FeesFall, packed_pending_blocks-FeesFall}
use xus_miner.Examples.Sample.{Value, number, array, object, nil, cons, end, field, sample_json}

abbrev bucket : ℕ → ℕ → Value
bucket rate txs =
    object (field (codes "feeRateGrains") (number rate) (field (codes "txCount") (number txs) end))

abbrev sample_reply : Value
sample_reply = object (
    field (codes "txCount") (number 9) (
      field (codes "maxBlockTxs") (number 4)
        (field (codes "buckets") (array (cons (bucket 50 6) (cons (bucket 20 3) nil))) end)))

abbrev sample_histogram : MempoolHistogram
sample_histogram = record {
  tx_count = 9;
  max_block_txs = 4;
  buckets =
      record { fee_rate_grains = 50; tx_count = 6 }
      ∷ record { fee_rate_grains = 20; tx_count = 3 }
      ∷ [];
}

sample_parsed : mempool_histogram sample_json sample_reply ≡ some sample_histogram
unfolding mempool_histogram grains str_eq
sample_parsed = refl

mempool_histogram-IsValid_example : IsValid sample_histogram
mempool_histogram-IsValid_example = mempool_histogram-IsValid sample_json sample_reply sample_parsed

sample-IsValid : IsValid sample_histogram
sample-IsValid = mempool_histogram-IsValid sample_json sample_reply sample_parsed

length-packed_pending_blocks_example :
    length (packed_pending_blocks sample_histogram 2) ≡ min 2 (backlog_depth sample_histogram)
length-packed_pending_blocks_example =
    length-packed_pending_blocks sample_histogram 2 sample-IsValid (omega arith)

packed_pending_blocks-FeesFall_example : FeesFall (packed_pending_blocks sample_histogram 2)
packed_pending_blocks-FeesFall_example =
    packed_pending_blocks-FeesFall sample_histogram 2 sample-IsValid
