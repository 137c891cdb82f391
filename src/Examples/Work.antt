-- ===== src/Examples/Work.antt =====
-- Tests of src/main.rs: jobs, targets and nonces; and of the account names of src/wire.rs.
use xus_miner.Common.{
  ℕ, ◌+◌, ◌^◌, ◌≤◌, ◌<◌, ◌≡◌, ◌↔◌, ◌⊎◌, refl, true, false, List, ◌∷◌, none, some, replicate, length,
  take, drop, codes, str_eq, trim, is_empty, byte_len, as_bytes, ok, arith,
}
use xus_miner.Pow.{PowAlgo}
use xus_miner.Wire.{Verdict, validate_account_id}
use xus_miner.Wire.Account.{IsName, validate_account_id_iff}
use xus_miner.Target.{is_negative, target_from_compact}
use xus_miner.Target.Value.{be_value}
use xus_miner.Target.Decode.{compact_value, target_from_compact-cases}
use xus_miner.Job.{Job, BlockHeaderWire, Bytes}
use xus_miner.Job.Rpc.{from_rpc}
use xus_miner.Job.Stratum.{from_stratum}
use xus_miner.Job.Nonce.{splice_nonce}
use xus_miner.Job.Rpc.Authentic.{IsAuthentic, from_rpc-IsAuthentic}
use xus_miner.Job.Stratum.Usable.{IsUsable, from_stratum-IsUsable}
use xus_miner.Job.Nonce.Tries.{le_value, splice_nonce-writes, nonce_after-injective}
use xus_miner.Coinbase.{validate_rpc_coinbase}
use xus_miner.Coinbase.Pays.{validate_rpc_coinbase-pays}
use xus_miner.Examples.Sample.{header_of, Value, text, number, object, end, field, sample_codecs}

abbrev pub sample_target : Bytes
sample_target = 0 ∷ 0 ∷ 0 ∷ 0 ∷ 255 ∷ 255 ∷ replicate 26 0

abbrev pub sample_blob : Bytes
sample_blob = 1 ∷ 2 ∷ 3 ∷ 4 ∷ replicate 8 0

bitcoin_bits : target_from_compact 0x1d00ffff ≡ some sample_target
unfolding target_from_compact
bitcoin_bits = refl

abbrev pub sample_template : Value
sample_template = object (
    field (codes "templateId") (text sample_blob) (
      field (codes "height") (number 7) (
        field (codes "timestampMs") (number 99) (
          field (codes "blob") (text sample_blob) (
            field (codes "nonceOffset") (number 4) (
              field (codes "target") (text sample_target) (
                field (codes "powAlgo") (text (codes "RandomX")) (
                  field (codes "powKey") (text (replicate 32 1))
                    (field (codes "proposer") (text (codes " alice ")) end)))))))))

abbrev pub sample_job : Job
sample_job = record {
  id = sample_blob;
  blob = sample_blob;
  nonce_offset = 4;
  target = sample_target;
  block_target = some sample_target;
  algo = PowAlgo.random_x;
  pow_key = replicate 32 1;
  height = 7;
  timestamp_ms = some 99;
  coinbase = some (codes "alice");
}

sample_accepted : from_rpc sample_codecs sample_template ≡ ok sample_job
unfolding from_rpc str_eq trim is_empty as_bytes validate_account_id target_from_compact
sample_accepted = refl

from_rpc-IsAuthentic_example : (h : BlockHeaderWire) × IsAuthentic sample_codecs sample_job h
from_rpc-IsAuthentic_example =
    from_rpc-IsAuthentic sample_codecs sample_template sample_job sample_accepted

paid : validate_rpc_coinbase (some (codes "alice")) sample_job ≡ ok tt
unfolding validate_rpc_coinbase str_eq
paid = refl

validate_rpc_coinbase-pays_example :
    (h : BlockHeaderWire) × (header_of sample_blob ≡ some h) × (h.proposer ≡ codes "alice")
validate_rpc_coinbase-pays_example =
    validate_rpc_coinbase-pays sample_codecs sample_template sample_job (codes "alice")
      sample_accepted paid

abbrev pub sample_push : Value
sample_push = object (
    field (codes "job_id") (text (codes "a1")) (
      field (codes "blob") (text sample_blob) (
        field (codes "nonce_offset") (number 4) (
          field (codes "nonce_size") (number 8) (
            field (codes "target_full") (text sample_target) (
              field (codes "network_target") (text sample_target) (
                field (codes "algo") (text (codes "rx/0")) (
                  field (codes "seed_hash") (text (replicate 32 1))
                    (field (codes "height") (number 7) end)))))))))

abbrev pushed_job : Job
pushed_job = record sample_job { id = codes "a1"; timestamp_ms = none; coinbase = none }

push_accepted : from_stratum sample_codecs sample_push ≡ ok pushed_job
unfolding from_stratum str_eq is_empty byte_len
push_accepted = refl

from_stratum-IsUsable_example : IsUsable pushed_job
from_stratum-IsUsable_example =
    from_stratum-IsUsable sample_codecs sample_push pushed_job push_accepted

target_from_compact-cases_example :
    (((is_negative 0x1d00ffff ≡ true) ⊎ (2 ^ 256 ≤ compact_value 0x1d00ffff))
      × (target_from_compact 0x1d00ffff ≡ none))
    ⊎ ((t : List ℕ) × (target_from_compact 0x1d00ffff ≡ some t)
        × (is_negative 0x1d00ffff ≡ false)
        × (length t ≡ 32)
        × (be_value t ≡ compact_value 0x1d00ffff)
        × (compact_value 0x1d00ffff < 2 ^ 256))
target_from_compact-cases_example = target_from_compact-cases 0x1d00ffff

abbrev spliced : Bytes
spliced = splice_nonce sample_blob 4 0x0102030405060708

splice_nonce-writes_example :
    (length spliced ≡ length sample_blob)
    × (take 4 spliced ≡ take 4 sample_blob)
    × (drop (4 + 8) spliced ≡ drop (4 + 8) sample_blob)
    × (le_value (take 8 (drop 4 spliced)) ≡ 0x0102030405060708)
splice_nonce-writes_example =
    splice_nonce-writes sample_blob 4 0x0102030405060708 (omega arith) (omega arith)

abbrev three : ℕ
three = 3

abbrev two : ℕ
two = 2

nonce_after-injective_example : (three ≡ three) × (two ≡ two)
nonce_after-injective_example =
    nonce_after-injective three three two two (omega arith) (omega arith) (omega arith)
      (omega arith) refl

validate_account_id_iff_example : (validate_account_id (codes "a-b.c9") ≡ Verdict.valid) ↔ (
    IsName (as_bytes (codes "a-b.c9"))
    × (2 ≤ length (as_bytes (codes "a-b.c9")))
    × (length (as_bytes (codes "a-b.c9")) ≤ 64))
validate_account_id_iff_example = validate_account_id_iff (codes "a-b.c9")
