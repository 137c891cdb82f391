-- ===== src/Job.antt =====
-- src/main.rs: `Job`, the work that a node's template or a pool's push describes, with the libraries
-- and readers that its two decoders share.
-- src/wire.rs: `BlockHeaderWire` and `template_id_for_blob`.
pub mod Nonce
pub mod Rpc
pub mod Stratum
use xus_miner.Common.{
  ℕ, zero, suc, ◌+◌, ◌-◌, ◌*◌, ◌/◌, ◌%◌, ◌^◌, Bool, true, false, ◌&&◌, ◌||◌, not, List, [], ◌∷◌,
  ◌++◌, Option, none, some, ltb, leb, ◌==◌, if◌then◌else◌, length, take, drop, Str, str_eq, codes,
  trim, is_empty, byte_len, filter_by, or_else, Result, ok, err, ok_or, ensure,
}
use xus_miner.Common
use xus_miner.Common.Try.{◌>>=◌, ◌>>◌}
use xus_miner.Common.Json.{Json}
use xus_miner.Pow.{PowAlgo}
use xus_miner.Wire.{Verdict, AccountError, validate_account_id}
use xus_miner.Target.{target_from_compact}

abbrev pub max_blob_bytes : ℕ
max_blob_bytes = 1024 * 1024

abbrev pub u32_max : ℕ
u32_max = 2 ^ 32 - 1

abbrev pub Bytes : Type 0
Bytes = List ℕ

-- The fields of the header that the miner reads.
pub record BlockHeaderWire : Type 0 where
  pub height : ℕ
  pub timestamp_ms : ℕ
  pub proposer : Str
  pub version_bits : ℕ
  pub bits : ℕ

pub record Job : Type 0 where
  pub id : Str
  pub blob : Bytes
  pub nonce_offset : ℕ
  pub target : Bytes
  pub block_target : Option Bytes
  pub algo : PowAlgo
  pub pow_key : Bytes
  pub height : ℕ
  pub timestamp_ms : Option ℕ
  pub coinbase : Option Str

-- The libraries that the decoding of work relies on: `serde_json`, `hex`, `borsh` and `blake3`.
pub record Codecs : Type 1 where
  pub json : Json
  pub hex_decode : Str → Option Bytes
  pub hex_encode : Bytes → Str
  pub decode_header : Bytes → Option BlockHeaderWire
  pub blake3 : Bytes → Bytes

-- A constructor for each message.
pub data JobError : Type 0 where
  missing : Str → JobError
  invalid_hex : Str → JobError
  id_too_long blob_length nonce_offset_mismatch bad_nonce_size target_length : JobError
  unsupported_algorithm empty_seed key_length empty_proposer bad_header : JobError
  bad_account : AccountError → JobError
  proposer_mismatch height_mismatch timestamp_mismatch version_bits_mismatch : JobError
  bits_mismatch invalid_bits target_mismatch template_id_mismatch : JobError

module _ (C : Codecs) where
  open C use {json, hex_decode, hex_encode, decode_header, blake3}
  open json use {Value, field?, as_u64, as_str}

  pub template_id_for_blob : Bytes → Str
  template_id_for_blob blob = hex_encode (blake3 blob)

  string : Value → Str → Result JobError Str
  string v name = ok_or (Common.◌>>=◌ (field? v name) as_str) (JobError.missing name)

  number : Value → Str → Result JobError ℕ
  number v name = ok_or (Common.◌>>=◌ (field? v name) as_u64) (JobError.missing name)

  decode : Str → Str → Result JobError Bytes
  decode name text = ok_or (hex_decode text) (JobError.invalid_hex name)

  -- `try_into::<[u8; 32]>`.
  as_target : Bytes → Result JobError Bytes
  as_target bytes = do ensure (length bytes == 32) JobError.target_length; ok bytes
