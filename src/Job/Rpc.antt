-- ===== src/Job/Rpc.antt =====
-- src/main.rs, `Job::from_rpc`: the work that a node's template describes.
pub mod Authentic
use xus_miner.Common.{
  ℕ, zero, suc, ◌+◌, ◌-◌, ◌*◌, ◌/◌, ◌%◌, ◌^◌, Bool, true, false, ◌&&◌, ◌||◌, not, List, [], ◌∷◌,
  ◌++◌, Option, none, some, ltb, leb, ◌==◌, if◌then◌else◌, length, take, drop, Str, str_eq, codes,
  trim, is_empty, byte_len, filter_by, or_else, Result, ok, err, ok_or, ensure,
}
use xus_miner.Common
use xus_miner.Common.Try.{◌>>=◌, ◌>>◌}
use xus_miner.Common.Json.{Json}
use xus_miner.Pow.{PowAlgo}
use xus_miner.Wire.{Verdict, AccountError, validate_account_id}
use xus_miner.Target.{target_from_compact}
use xus_miner.Job.{
  BlockHeaderWire, Job, Codecs, JobError, Bytes, max_blob_bytes, u32_max, template_id_for_blob,
  string, number, decode, as_target,
}

check_account : Verdict → Result JobError (Unit {0})
check_account Verdict.valid = ok tt
check_account (Verdict.refused e) = err (JobError.bad_account e)

-- `version_bits > u32::MAX || header.version_bits != version_bits as u32`, where disclosed.
agrees : Option ℕ → ℕ → Bool
agrees none encoded = true
agrees (some disclosed) encoded = not (ltb u32_max disclosed || not (encoded == disclosed % 2 ^ 32))

rpc_algo : Str → Result JobError PowAlgo
rpc_algo name =
    if str_eq name (codes "RandomX")
    then ok PowAlgo.random_x
    else if str_eq name (codes "Sha256d")
    then ok PowAlgo.sha256d
    else err JobError.unsupported_algorithm

module _ (C : Codecs) where
  open C use {json, hex_decode, hex_encode, decode_header, blake3}
  open json use {Value, field?, as_u64, as_str}

  -- `Job::from_rpc`, the checks of the fields against the header that the blob encodes.
  pub authenticate : Value → Str → ℕ → Job → BlockHeaderWire → Result JobError Job
  unfolding template_id_for_blob agrees
  authenticate v coinbase timestamp_ms job header = do
    ensure (str_eq header.proposer coinbase) JobError.proposer_mismatch
    ensure (header.height == job.height) JobError.height_mismatch
    ensure (header.timestamp_ms == timestamp_ms) JobError.timestamp_mismatch
    ensure (agrees (Common.◌>>=◌ (field? v (codes "versionBits")) as_u64) header.version_bits)
        JobError.version_bits_mismatch
    ensure (agrees (Common.◌>>=◌ (field? v (codes "bits")) as_u64) header.bits)
        JobError.bits_mismatch
    committed_target ← ok_or (target_from_compact header.bits) JobError.invalid_bits
    ensure (str_eq job.target committed_target) JobError.target_mismatch
    ensure (str_eq (template_id_for_blob C job.blob) job.id) JobError.template_id_mismatch
    ok job

  rpc_blob : Value → Result JobError Bytes
  rpc_blob v = do
    text ← string C v (codes "blob")
    blob ← decode C (codes "blob") text
    ensure (leb 8 (length blob) && leb (length blob) max_blob_bytes) JobError.blob_length
    ok blob

  rpc_offset : Value → ℕ → Result JobError ℕ
  rpc_offset v blob_len = do
    nonce_offset ← number C v (codes "nonceOffset")
    ensure (nonce_offset == blob_len - 8) JobError.nonce_offset_mismatch
    ok nonce_offset

  rpc_target : Value → Result JobError Bytes
  rpc_target v = do
    text ← string C v (codes "target")
    bytes ← decode C (codes "target") text
    as_target C bytes

  rpc_key : Value → Result JobError Bytes
  rpc_key v = do
    text ← string C v (codes "powKey")
    pow_key ← decode C (codes "powKey") text
    ensure (length pow_key == 32) JobError.key_length
    ok pow_key

  rpc_coinbase : Value → Result JobError Str
  rpc_coinbase v = do
    proposer ← string C v (codes "proposer")
    ensure (not (is_empty (trim proposer))) JobError.empty_proposer
    check_account (validate_account_id (trim proposer))
    ok (trim proposer)

  unfoldable pub from_rpc : Value → Result JobError Job
  unfolding string number decode as_target rpc_algo check_account authenticate rpc_blob rpc_offset
      rpc_target rpc_key rpc_coinbase
  from_rpc v = do
    template_id ← string C v (codes "templateId")
    height ← number C v (codes "height")
    timestamp_ms ← number C v (codes "timestampMs")
    blob ← rpc_blob v
    nonce_offset ← rpc_offset v (length blob)
    target ← rpc_target v
    algo_name ← string C v (codes "powAlgo")
    algo ← rpc_algo algo_name
    pow_key ← rpc_key v
    coinbase ← rpc_coinbase v
    header ← ok_or (decode_header blob) JobError.bad_header
    authenticate v coinbase timestamp_ms
        (record {
          id = template_id;
          blob = blob;
          nonce_offset = nonce_offset;
          target = target;
          block_target = some target;
          algo = algo;
          pow_key = pow_key;
          height = height;
          timestamp_ms = some timestamp_ms;
          coinbase = some coinbase;
        })
        header
