-- ===== src/Pow/Engine.antt =====
-- src/pow.rs: the machine that a thread hashes with. A thread keeps it with its key, and builds it
-- from the shared dataset, or from the shared light cache. One call runs from start to end here; how
-- the calls of several threads on the dataset manager interleave is in Pow/Dataset/Safety.antt.
pub mod Keyed
pub mod Mining
use xus_miner.Common.{
  ℕ, ◌+◌, Bool, true, false, ◌||◌, ◌&&◌, not, List, [], ◌∷◌, ◌++◌, Option, none, some, leb, ◌==◌,
  if◌then◌else◌, Str, str_eq, codes, Result, ok, err,
}
use xus_miner.Common.Try.{◌>>=◌}
use xus_miner.Job.{Bytes}
use xus_miner.Native.{
  Cache, VmBacking, Vm, Randomx, flag_default, flag_full_mem, with_full_mem, force_light_mining,
  recommended_flags, new_cache, new_dataset, light_vm, fast_vm, vm_hash,
}
use xus_miner.Pow.{
  PowAlgo, MiningMode, RandomXMode, random_x_fast_shared, random_x_light_fallback,
  random_x_light_recovery,
}
use xus_miner.Pow.RandomXMode.{light, fast_shared, light_fallback, light_recovery}
use xus_miner.Pow.Dataset.{
  SharedDatasetState, fast_retry_delay, shared_fast_dataset, release_fast_dataset_if_unused,
}

pub record MiningHash : Type 0 where
  pub digest : Bytes
  pub mode : MiningMode

pub record RandomXEngine : Type 0 where
  pub vm : Vm
  pub mode : RandomXMode
  pub retry_fast_at : Option ℕ

pub record SharedLightCacheState : Type 0 where
  pub key : Bytes
  pub flags : ℕ
  pub cache : Cache

-- What the threads share, with the references to datasets that they hold.
pub record Shared : Type 0 where
  pub datasets : Option SharedDatasetState
  pub light_cache : Option SharedLightCacheState
  pub held : List ℕ

-- The slot of a thread.
abbrev pub Slot : Type 0
Slot = Option (Bytes × RandomXEngine)

-- What a thread keeps: `RANDOMX_VM_MINING` and `RANDOMX_VM_LIGHT`.
pub record Thread : Type 0 where
  pub mining : Slot
  pub light : Slot

unfoldable pub slot_of : Bool → Thread → Slot
slot_of true thread = thread.mining
slot_of false thread = thread.light

unfoldable pub put_slot : Bool → Slot → Thread → Thread
put_slot true slot thread = record thread { mining = slot }
put_slot false slot thread = record thread { light = slot }

is_light_fallback : RandomXMode → Bool
is_light_fallback light_fallback = true
is_light_fallback _ = false

-- `is_some_and(|retry_at| now >= retry_at)`.
is_due : Option ℕ → ℕ → Bool
is_due none now = false
is_due (some retry_at) now = leb retry_at now

unfoldable pub engine_needs_build : Slot → Bytes → Bool → ℕ → Bool
unfolding is_light_fallback is_due
engine_needs_build none key mining now = true
engine_needs_build (some (existing_key, engine)) key mining now =
    not (str_eq existing_key key)
    || (mining && is_light_fallback engine.mode && is_due engine.retry_fast_at now)

-- An `Arc` that goes out of scope.
drop_ref : ℕ → List ℕ → List ℕ
drop_ref d [] = []
drop_ref d (h ∷ held) = let rest = drop_ref d held in if h == d then held else h ∷ rest

drop_backing : VmBacking → List ℕ → List ℕ
unfolding drop_ref
drop_backing (VmBacking.light cache) held = held
drop_backing (VmBacking.fast d) held = drop_ref d held

-- `*slot = None`.
unfoldable pub drop_slot : Slot → Shared → Shared
unfolding drop_backing
drop_slot none shared = shared
drop_slot (some (key, engine)) shared = record shared {
  held = drop_backing engine.vm.backing shared.held;
}

also_failed : Str → Str → Str → Str → Str
also_failed first_message first_error second_message second_error =
    first_message ++ codes " (" ++ first_error ++ second_message ++ second_error ++ codes ")"

-- `or_else`, with a message made of both errors.
pub or_portable : {A : Type 0} → Result Str A → Result Str A → (Str → Str → Str) → Result Str A
or_portable (ok a) portable message = ok a
or_portable (err e) (ok a) message = ok a
or_portable (err e) (err f) message = err (message e f)

-- SHA-256 is code of another crate.
pub sha256d : (Bytes → Bytes) → Bytes → Bytes
sha256d sha256 bytes = sha256 (sha256 bytes)

module _ (native : Randomx) (force : Option Bool) where
  -- The attempts to allocate: the light cache is 0 and 1, its machine 0 and 1, the dataset 2, and the
  -- fast machine 2 and 3.
  pub build_fast_dataset : Bytes → Result Str ℕ
  unfolding new_dataset
  build_fast_dataset key = elim (new_dataset native 2 (recommended_flags native force) key) [
    | ok d ↦ ok d
    | err e ↦ err (codes "optimized dataset initialization failed (" ++ e ++ codes ")")
  ]

  with_flags : ℕ → Result Str Cache → Result Str (ℕ × Cache)
  with_flags flags (ok cache) = ok (flags, cache)
  with_flags flags (err e) = err e

  build_light_cache : Bytes → Result Str (ℕ × Cache)
  unfolding also_failed or_portable with_flags
  build_light_cache key =
      let optimized = recommended_flags native force in
      or_portable (with_flags optimized (new_cache native 0 optimized key))
        (with_flags flag_default (new_cache native 1 flag_default key))
        (λ e f.
          also_failed (codes "optimized light cache allocation failed") e
            (codes "); portable light cache allocation also failed (") f)

  keep_cache : Bytes → Result Str (ℕ × Cache) → Shared → Shared × Result Str (ℕ × Cache)
  keep_cache key (ok (flags, cache)) shared = (
    record shared { light_cache = some (record { key = key; flags = flags; cache = cache }) },
    ok (flags, cache),
  )
  keep_cache key (err e) shared = (record shared { light_cache = none }, err e)

  answer_light_cache :
      Bytes → Option SharedLightCacheState → Shared → Shared × Result Str (ℕ × Cache)
  unfolding build_light_cache keep_cache
  answer_light_cache key none shared = keep_cache key (build_light_cache key) shared
  answer_light_cache key (some existing) shared =
      if str_eq existing.key key
      then (shared, ok (existing.flags, existing.cache))
      else keep_cache key (build_light_cache key) shared

  shared_light_cache : Bytes → Shared → Shared × Result Str (ℕ × Cache)
  unfolding answer_light_cache
  shared_light_cache key shared = answer_light_cache key shared.light_cache shared

  attach_light : ℕ × Cache → Result Str Vm
  unfolding light_vm or_portable also_failed
  attach_light (flags, cache) =
      or_portable (light_vm native 0 flags cache) (light_vm native 1 flag_default cache) (λ e f.
        also_failed (codes "optimized light VM creation failed") e
          (codes "); portable light VM creation also failed (") f)

  light_engine : RandomXMode → ℕ → Vm → RandomXEngine
  unfolding is_light_fallback
  light_engine mode now vm = record {
    vm = vm;
    mode = mode;
    retry_fast_at = if is_light_fallback mode then some (now + fast_retry_delay) else none;
  }

  pub build_light_vm : Bytes → RandomXMode → ℕ → Shared → Shared × Result Str RandomXEngine
  unfolding shared_light_cache attach_light light_engine
  build_light_vm key mode now shared =
      let (shared', cache) = shared_light_cache key shared in
      (shared', cache >>= λ c. attach_light c >>= λ vm. ok (light_engine mode now vm))

  attach_fast : ℕ → Result Str Vm
  unfolding fast_vm or_portable also_failed
  attach_fast dataset =
      or_portable (fast_vm native 2 (with_full_mem (recommended_flags native force)) dataset)
        (fast_vm native 3 flag_full_mem dataset)
        (λ e f.
          also_failed (codes "optimized fast VM creation failed") e
            (codes "); portable fast VM creation also failed (") f)

  -- The error of the fast mode and of the light fallback.
  both_failed : Str → Result Str RandomXEngine → Result Str RandomXEngine
  unfolding also_failed
  both_failed fast_error (ok engine) = ok engine
  both_failed fast_error (err light_error) = err (
      also_failed (codes "fast RandomX unavailable") fast_error
        (codes "); safe light-memory fallback also failed (") light_error)

  -- The `match` on the fast machine: it takes a reference to its dataset, or the fallback is built.
  finish_mining :
      (Bytes × (ℕ → ℕ)) → Result Str (ℕ × Vm) → Shared → Shared × Result Str RandomXEngine
  unfolding release_fast_dataset_if_unused build_light_vm both_failed
  finish_mining (key, clock) (ok (dataset, vm)) shared = (
    record shared { held = dataset ∷ shared.held },
    ok (record { vm = vm; mode = fast_shared; retry_fast_at = none }),
  )
  finish_mining (key, clock) (err fast_error) shared =
      let released = record shared {
        datasets =
            release_fast_dataset_if_unused shared.held (clock 2) key fast_error shared.datasets;
      } in
      let (shared', fallback) = build_light_vm key light_fallback (clock 3) released in
      (shared', both_failed fast_error fallback)

  -- The clock tells the time of a call's readings, in their order.
  build_mining_vm : Bytes → (ℕ → ℕ) → Shared → Shared × Result Str RandomXEngine
  unfolding shared_fast_dataset build_fast_dataset attach_fast finish_mining build_light_vm
  build_mining_vm key clock shared =
      let (datasets, dataset) =
        shared_fast_dataset build_fast_dataset shared.held (clock 1) key shared.datasets in
      let fast = dataset >>= λ d. attach_fast d >>= λ vm. ok (d, vm) in
      if force_light_mining force
      then build_light_vm key light_recovery (clock 3) shared
      else finish_mining (key, clock) fast (record shared { datasets = datasets })

  build_vm : Bool → Bytes → (ℕ → ℕ) → Shared → Shared × Result Str RandomXEngine
  unfolding build_mining_vm build_light_vm
  build_vm true key clock shared = build_mining_vm key clock shared
  build_vm false key clock shared = build_light_vm key light (clock 3) shared

  -- The slot of the thread when it is to hash.
  ready_engine : Bytes → Bool → (ℕ → ℕ) → Slot → Shared → (Slot × Shared) × Result Str (Unit {0})
  unfolding engine_needs_build drop_slot build_vm
  ready_engine key mining clock slot shared =
      let (shared', built) = build_vm mining key clock (drop_slot slot shared) in
      if engine_needs_build slot key mining (clock 0)
      then elim built [
        | ok engine ↦ ((some (key, engine), shared'), ok tt)
        | err e ↦ ((none, shared'), err e)
      ]
      else ((slot, shared), ok tt)

  hash_slot : Slot → Bytes → Result Str (Bytes × RandomXMode)
  unfolding vm_hash
  hash_slot none input = err (codes "RandomX VM missing after successful initialization")
  hash_slot (some (key, engine)) input =
      vm_hash native engine.vm input >>= λ digest. ok (digest, engine.mode)

  unfoldable pub randomx_hash :
      Bytes
      → Bytes
      → Bool
      → (ℕ → ℕ)
      → Thread
      → Shared
      → (Thread × Shared) × Result Str (Bytes × RandomXMode)
  unfolding ready_engine hash_slot slot_of put_slot
  randomx_hash key input mining clock thread shared =
      let ((slot', shared'), built) =
        ready_engine key mining clock (slot_of mining thread) shared in
      ((put_slot mining slot' thread, shared'), built >>= λ _. hash_slot slot' input)

  mining_mode : RandomXMode → Result Str MiningMode
  mining_mode fast_shared = ok random_x_fast_shared
  mining_mode light_fallback = ok random_x_light_fallback
  mining_mode light_recovery = ok random_x_light_recovery
  mining_mode light = err (codes "internal RandomX mode error: verifier VM entered mining path")

  unfoldable pub pow_hash_mining :
      (Bytes → Bytes)
      → PowAlgo
      → Bytes
      → Bytes
      → (ℕ → ℕ)
      → Thread
      → Shared
      → (Thread × Shared) × Result Str MiningHash
  unfolding randomx_hash mining_mode sha256d
  pow_hash_mining sha256 PowAlgo.sha256d key input clock thread shared =
      ((thread, shared), ok (record { digest = sha256d sha256 input; mode = MiningMode.sha256d }))
  pow_hash_mining sha256 PowAlgo.random_x key input clock thread shared =
      let ((thread', shared'), hashed) = randomx_hash key input true clock thread shared in
      (
        (thread', shared'),
        hashed >>= λ (digest, mode).
            mining_mode mode >>= λ m. ok (record { digest = digest; mode = m }),
      )
