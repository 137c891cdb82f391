-- ===== src/Job/Stratum.antt =====
-- src/main.rs, `Job::from_stratum`: the work that a pool's push describes.
pub mod Usable
use xus_miner.Common.{
  ℕ, zero, suc, ◌+◌, ◌-◌, ◌*◌, ◌/◌, ◌%◌, ◌^◌, Bool, true, false, ◌&&◌, ◌||◌, not, List, [], ◌∷◌,
  ◌++◌, Option, none, some, ltb, leb, ◌==◌, if◌then◌else◌, length, take, drop, Str, str_eq, codes,
  trim, is_empty, byte_len, filter_by, or_else, Result, ok, err, ok_or, ensure,
}
use xus_miner.Common
use xus_miner.Common.Try.{◌>>=◌, ◌>>◌}
use xus_miner.Common.Json.{Json}
use xus_miner.Pow.{PowAlgo}
use xus_miner.Wire.{Verdict, AccountError, validate_account_id}
use xus_miner.Target.{target_from_compact}
use xus_miner.Job.{
  BlockHeaderWire, Job, Codecs, JobError, Bytes, max_blob_bytes, u32_max, template_id_for_blob,
  string, number, decode, as_target,
}

is_random_x : PowAlgo → Bool
is_random_x PowAlgo.random_x = true
is_random_x PowAlgo.sha256d = false

stratum_algo : Str → Result JobError PowAlgo
stratum_algo name =
    if str_eq name (codes "rx/0")
    then ok PowAlgo.random_x
    else if str_eq name (codes "sha256d")
    then ok PowAlgo.sha256d
    else err JobError.unsupported_algorithm

module _ (C : Codecs) where
  open C use {json, hex_decode, hex_encode, decode_header, blake3}
  open json use {Value, field?, as_u64, as_str}

  -- The string reader of `from_stratum` refuses the empty string too.
  full_string : Value → Str → Result JobError Str
  full_string v name =
      ok_or (filter_by (λ s. not (is_empty s)) (Common.◌>>=◌ (field? v name) as_str))
        (JobError.missing name)

  either_field : Value → Str → Str → Option Str
  either_field v first second = Common.◌>>=◌ (or_else (field? v first) (field? v second)) as_str

  -- The network's block target, where the pool discloses it.
  disclosed_target : Option Str → Result JobError (Option Bytes)
  unfolding decode as_target
  disclosed_target none = ok none
  disclosed_target (some encoded) = do
    bytes ← decode C (codes "network_target") encoded
    target ← as_target C bytes
    ok (some target)

  network_target : Value → Result JobError (Option Bytes)
  unfolding either_field disclosed_target
  network_target v =
      disclosed_target (either_field v (codes "network_target_full") (codes "network_target"))

  stratum_id : Value → Result JobError Str
  unfolding full_string
  stratum_id v = do
    id ← full_string v (codes "job_id")
    ensure (leb (byte_len id) 256) JobError.id_too_long
    ok id

  stratum_blob : Value → Result JobError Bytes
  unfolding full_string decode
  stratum_blob v = do
    text ← full_string v (codes "blob")
    blob ← decode C (codes "blob") text
    ensure (leb 8 (length blob) && leb (length blob) max_blob_bytes) JobError.blob_length
    ok blob

  stratum_offset : Value → ℕ → Result JobError ℕ
  unfolding number
  stratum_offset v blob_len = do
    nonce_offset ← number C v (codes "nonce_offset")
    nonce_size ← number C v (codes "nonce_size")
    ensure (nonce_size == 8) JobError.bad_nonce_size
    ensure (nonce_offset == blob_len - 8) JobError.nonce_offset_mismatch
    ok nonce_offset

  stratum_target : Value → Result JobError Bytes
  unfolding full_string decode as_target
  stratum_target v = do
    text ← full_string v (codes "target_full")
    bytes ← decode C (codes "target_full") text
    as_target C bytes

  stratum_key : Value → PowAlgo → Result JobError Bytes
  unfolding string decode is_random_x
  stratum_key v algo = do
    seed ← string C v (codes "seed_hash")
    pow_key ← decode C (codes "seed_hash") seed
    ensure (not (is_random_x algo && leb (length pow_key) 0)) JobError.empty_seed
    ok pow_key

  unfoldable pub from_stratum : Value → Result JobError Job
  unfolding full_string number network_target stratum_algo stratum_id stratum_blob stratum_offset
      stratum_target stratum_key either_field
  from_stratum v = do
    id ← stratum_id v
    blob ← stratum_blob v
    nonce_offset ← stratum_offset v (length blob)
    target ← stratum_target v
    block_target ← network_target v
    algo_name ← full_string v (codes "algo")
    algo ← stratum_algo algo_name
    pow_key ← stratum_key v algo
    height ← number C v (codes "height")
    ok (record {
      id = id;
      blob = blob;
      nonce_offset = nonce_offset;
      target = target;
      block_target = block_target;
      algo = algo;
      pow_key = pow_key;
      height = height;
      timestamp_ms = none;
      coinbase =
          filter_by (λ s. not (is_empty s))
            (either_field v (codes "coinbase") (codes "coinbase_account"));
    })
