-- ===== src/Memory.antt =====
-- src/main.rs: the memory that RandomX needs, and the gate that a job passes before RandomX starts.
-- The sizes in GiB and MiB are written as the bytes that `gib_to_bytes` and `mib_to_bytes` give.
pub mod Gate
pub mod Pressure
use xus_miner.Common.{
  ℕ, ◌+◌, ◌*◌, ◌/◌, ◌^◌, min, max, Bool, true, false, ◌&&◌, ◌||◌, not, Option, none, some, ltb, leb,
  ◌==◌, if◌then◌else◌, saturating_add, u64_max, Result, ok, err,
}
use xus_miner.Pow.{PowAlgo}

-- 2.3 GiB, 256 MiB and 32 MiB; then 1.5 GiB and 4 GiB.
abbrev pub dataset_bytes : ℕ
dataset_bytes = 2469606196

abbrev pub light_cache_bytes : ℕ
light_cache_bytes = 268435456

abbrev pub worker_bytes : ℕ
worker_bytes = 33554432

abbrev pub min_headroom_bytes : ℕ
min_headroom_bytes = 1610612736

abbrev pub max_headroom_bytes : ℕ
max_headroom_bytes = 4294967296

-- `saturating_mul`.
pub saturating_mul : ℕ → ℕ → ℕ
saturating_mul a b = min (a * b) u64_max

pub randomx_memory_bytes_for : ℕ → Bool → ℕ
unfolding saturating_mul
randomx_memory_bytes_for workers force_light =
    let shared = if force_light then light_cache_bytes else dataset_bytes in
    saturating_add shared (saturating_mul worker_bytes workers)

-- `(total / 10).clamp(…)`.
pub memory_headroom_bytes : ℕ → ℕ
memory_headroom_bytes total = min (max (total / 10) min_headroom_bytes) max_headroom_bytes

pub record HeadlessMemoryPreflight : Type 0 where
  pub available : Option ℕ
  pub total : Option ℕ
  pub engine : ℕ
  pub reserve : ℕ

pub data MemoryError : Type 0 where
  inconsistent insufficient unconfirmed : MemoryError

pub validate_headless_memory : ℕ → Bool → ℕ → ℕ → Result MemoryError HeadlessMemoryPreflight
unfolding randomx_memory_bytes_for memory_headroom_bytes
validate_headless_memory workers force_light available total =
    let engine = randomx_memory_bytes_for workers force_light in
    let reserve = memory_headroom_bytes total in
    let required = saturating_add engine reserve in
    if total == 0 || ltb total available
    then err inconsistent
    else if ltb available required
    then err insufficient
    else ok (record {
      available = some available;
      total = some total;
      engine = engine;
      reserve = reserve;
    })

pub resolve_headless_memory : ℕ → Bool → ℕ → ℕ → Bool → Result MemoryError HeadlessMemoryPreflight
unfolding validate_headless_memory randomx_memory_bytes_for
resolve_headless_memory workers force_light available total confirmed =
    if ltb 0 total && leb available total
    then validate_headless_memory workers force_light available total
    else if not confirmed
    then err unconfirmed
    else ok (record {
      available = none;
      total = none;
      engine = randomx_memory_bytes_for workers force_light;
      reserve = min_headroom_bytes;
    })

pub record RandomxMemoryGate : Type 0 where
  pub workers : ℕ
  pub force_light : Bool
  pub unavailable_scan_confirmed : Bool
  pub approved : Option HeadlessMemoryPreflight

-- `RandomxMemoryGate::new`.
unfoldable pub new_gate : ℕ → Bool → Bool → RandomxMemoryGate
new_gate workers force_light confirmed = record {
  workers = workers;
  force_light = force_light;
  unavailable_scan_confirmed = confirmed;
  approved = none;
}

-- `query_memory_counters` asks the operating system: its answer is an argument.
pub counters_of : Option (ℕ × ℕ) → ℕ × ℕ
counters_of (some counters) = counters
counters_of none = (0, 0)

approve :
    RandomxMemoryGate
    → Result MemoryError HeadlessMemoryPreflight
    → RandomxMemoryGate × Result MemoryError (Unit {0})
approve gate (ok preflight) = (record gate { approved = some preflight }, ok tt)
approve gate (err e) = (gate, err e)

-- The scan is asked for a RandomX job only, and only until one was approved.
scan_gate :
    PowAlgo
    → Option HeadlessMemoryPreflight
    → Option (ℕ × ℕ)
    → RandomxMemoryGate
    → RandomxMemoryGate × Result MemoryError (Unit {0})
unfolding approve counters_of resolve_headless_memory
scan_gate PowAlgo.sha256d approved scan gate = (gate, ok tt)
scan_gate PowAlgo.random_x (some preflight) scan gate = (gate, ok tt)
scan_gate PowAlgo.random_x none scan gate =
    let (available, total) = counters_of scan in
    approve gate (
      resolve_headless_memory gate.workers gate.force_light available total
        gate.unavailable_scan_confirmed)

-- `RandomxMemoryGate::ensure_safe`.
unfoldable pub ensure_safe :
    PowAlgo → Option (ℕ × ℕ) → RandomxMemoryGate → RandomxMemoryGate × Result MemoryError (Unit {0})
unfolding scan_gate
ensure_safe algo scan gate = scan_gate algo gate.approved scan gate
