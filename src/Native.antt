-- ===== src/Native.antt =====
-- src/randomx_native.rs: the ownership wrapper around the C library of RandomX. The library is the
-- record `Randomx`. A number stands for a pointer with what the memory behind it holds: a call that
-- writes the memory gives the number of the memory as written. A machine stands with the memory that
-- it was made for.
use xus_miner.Common.{
  ℕ, zero, suc, ◌+◌, ◌-◌, ◌*◌, ◌/◌, ◌%◌, Bool, false, [], ◌∷◌, ◌++◌, Option, none, some, ltb, ◌==◌,
  if◌then◌else◌, length, Str, codes, is_empty, Result, ok, err, ok_or, ensure, not,
}
use xus_miner.Common.Try.{◌>>=◌, ◌>>◌}
use xus_miner.Job.{Bytes}

abbrev pub flag_default : ℕ
flag_default = 0

abbrev pub flag_full_mem : ℕ
flag_full_mem = 4

-- `RUNTIME_MODE`, a cell that is written once: whether light mining is forced.
unfoldable pub configure_runtime_mode : Bool → Option Bool → Option Bool × Result Str (Unit {0})
configure_runtime_mode force_light none = (some force_light, ok tt)
configure_runtime_mode force_light (some existing) = (
  some existing,
  if (if existing then force_light else not force_light)
      then ok tt
      else err (codes "RandomX execution mode was already configured for this process"),
)

unfoldable pub force_light_mining : Option Bool → Bool
force_light_mining none = false
force_light_mining (some force_light) = force_light

pub record Cache : Type 0 where
  pub pointer : ℕ

-- A dataset is its number.
pub data VmBacking : Type 0 where
  light : Cache → VmBacking
  fast : ℕ → VmBacking

pub record Vm : Type 0 where
  pub pointer : ℕ
  pub flags : ℕ
  pub backing : VmBacking

-- The C library. An allocation may fail, so each takes the number of the attempt in one call of the
-- miner, with the flags: a later attempt may get what an earlier one did not.
pub record Randomx : Type 0 where
  pub recommended : ℕ
  pub alloc_cache : (attempt flags : ℕ) → Option ℕ
  pub init_cache : ℕ → Bytes → ℕ
  pub alloc_dataset : (flags : ℕ) → Option ℕ
  pub dataset_item_count : ℕ
  pub init_dataset : (dataset : ℕ) → Cache → (start count : ℕ) → ℕ
  pub create_vm : (attempt flags : ℕ) → VmBacking → Option ℕ
  pub calculate_hash : Vm → Bytes → Bytes

hex_digit : ℕ → ℕ
hex_digit d = if ltb d 10 then b'0' + d else b'a' + (d - 10)

-- The digits of a number below 16 to the power of the fuel, in front of others.
hex_from : ℕ → ℕ → Str → Str
unfolding hex_digit
hex_from zero n digits = digits
hex_from (suc fuel) n digits =
    let rest = hex_from fuel (n / 16) (hex_digit (n % 16) ∷ digits) in
    if ltb n 16 then hex_digit n ∷ digits else rest

-- `0x{flags:02x}`.
describe_flags : ℕ → Str
unfolding hex_from
describe_flags flags =
    let digits = hex_from 8 flags [] in
    codes "0x" ++ (if ltb (length digits) 2 then b'0' ∷ digits else digits)

-- `flags & !FLAG_FULL_MEM` and `flags | FLAG_FULL_MEM`: the bit of weight 4.
unfoldable pub without_full_mem : ℕ → ℕ
without_full_mem flags = flags - flags / flag_full_mem % 2 * flag_full_mem

unfoldable pub with_full_mem : ℕ → ℕ
unfolding without_full_mem
with_full_mem flags = without_full_mem flags + flag_full_mem

module _ (native : Randomx) where
  unfoldable pub recommended_flags : Option Bool → ℕ
  unfolding force_light_mining
  recommended_flags mode = if force_light_mining mode then flag_default else native.recommended

  unfoldable pub new_cache : (attempt flags : ℕ) → Bytes → Result Str Cache
  new_cache attempt flags key = do
    ensure (not (is_empty key)) (codes "RandomX cache key cannot be empty")
    pointer ← ok_or (native.alloc_cache attempt flags) (codes "RandomX cache allocation failed")
    ok (record { pointer = native.init_cache pointer key })

  unfoldable pub new_dataset : (attempt cache_flags : ℕ) → Bytes → Result Str ℕ
  unfolding new_cache
  new_dataset attempt cache_flags key = do
    cache ← new_cache attempt cache_flags key
    pointer ←
        ok_or (native.alloc_dataset flag_default) (codes "RandomX full dataset allocation failed")
    ensure (not (native.dataset_item_count == 0)) (codes "RandomX reported a zero-sized dataset")
    ok (native.init_dataset pointer cache 0 native.dataset_item_count)

  unfoldable pub light_vm : (attempt flags : ℕ) → Cache → Result Str Vm
  unfolding describe_flags without_full_mem
  light_vm attempt flags cache = do
    let flags' = without_full_mem flags
    pointer ←
        ok_or (native.create_vm attempt flags' (VmBacking.light cache))
          (codes "RandomX light VM creation failed for flags " ++ describe_flags flags')
    ok (record { pointer = pointer; flags = flags'; backing = VmBacking.light cache })

  unfoldable pub fast_vm : (attempt flags : ℕ) → ℕ → Result Str Vm
  unfolding describe_flags with_full_mem
  fast_vm attempt flags dataset = do
    let flags' = with_full_mem flags
    pointer ←
        ok_or (native.create_vm attempt flags' (VmBacking.fast dataset))
          (codes "RandomX fast VM creation failed for flags " ++ describe_flags flags')
    ok (record { pointer = pointer; flags = flags'; backing = VmBacking.fast dataset })

  unfoldable pub vm_hash : Vm → Bytes → Result Str Bytes
  vm_hash vm input = do
    ensure (not (is_empty input)) (codes "RandomX input cannot be empty")
    ok (native.calculate_hash vm input)
