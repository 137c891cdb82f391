-- ===== src/Pow/Engine/Keyed.antt =====
-- src/pow.rs, the machines of a thread: with which key each is built.
use xus_miner.Common.{
  ℕ, ◌≤◌, ◌==◌, arith, Bool, not, Option, none, some, ◌≡◌, ◌≢◌, sym, ◌∙◌, ap, inl, inr, Str, str_eq,
  str_eq_iff, Result, ok, err, Bool-cases, Result-cases, ok_inj, is_empty,
}
use xus_miner.Common.Try.{◌>>=◌, >>=-eq-ok, after_ensure, after_ok_or}
use xus_miner.Job.{Bytes}
use xus_miner.Native.{
  Cache, VmBacking, Vm, Randomx, flag_default, with_full_mem, without_full_mem, recommended_flags,
  new_cache, new_dataset, light_vm, fast_vm,
}
use xus_miner.Pow.{RandomXMode}
use xus_miner.Pow.RandomXMode.{light}
use xus_miner.Pow.Dataset.Request.{Keyed}
use xus_miner.Pow.Engine.{
  RandomXEngine, SharedLightCacheState, Shared, Slot, or_portable, build_fast_dataset, with_flags,
  build_light_cache, keep_cache, answer_light_cache, shared_light_cache, attach_light, light_engine,
  build_light_vm,
}

-- What the miner relies on of RandomX: a cache is initialized with a key; all the items of a dataset
-- are initialized from a cache; and a machine of any flags computes the one hash function, under the
-- key of its memory.
module _ (cache_key dataset_key : ℕ → Bytes) (randomx : Bytes → Bytes → Bytes) where
  abbrev pub backing_key : VmBacking → Bytes
  backing_key (VmBacking.light cache) = cache_key cache.pointer
  backing_key (VmBacking.fast d) = dataset_key d

  pub record IsRandomx (native : Randomx) : Type 0 where
    pub seeds : (pointer : ℕ) (key : Bytes) → cache_key (native.init_cache pointer key) ≡ key
    pub fills :
        (d : ℕ) (cache : Cache)
        → 1 ≤ native.dataset_item_count
        → dataset_key (native.init_dataset d cache 0 native.dataset_item_count)
          ≡ cache_key cache.pointer
    pub hashes :
        (vm : Vm) (input : Bytes)
        → native.calculate_hash vm input ≡ randomx (backing_key vm.backing) input

  abbrev pub KeyedCache : Option SharedLightCacheState → Type 0
  KeyedCache none = Unit {0}
  KeyedCache (some s) = cache_key s.cache.pointer ≡ s.key

  pub record KeyedShared (shared : Shared) : Type 0 where
    pub datasets : Keyed dataset_key shared.datasets
    pub light_cache : KeyedCache shared.light_cache

  -- An engine for mining: it hashes under this key, and is not the verifier's.
  abbrev pub IsMiner : Bytes → RandomXEngine → Type 0
  IsMiner key engine = (backing_key engine.vm.backing ≡ key) × (engine.mode ≢ light)

  abbrev pub KeyedSlot : Slot → Type 0
  KeyedSlot none = Unit {0}
  KeyedSlot (some (key, engine)) = IsMiner key engine

  module _ (native : Randomx) (trusted : IsRandomx native) (force : Option Bool) where
    new_cache-key :
        (attempt flags : ℕ) (key : Bytes) {cache : Cache}
        → new_cache native attempt flags key ≡ ok cache
        → cache_key cache.pointer ≡ key
    unfolding new_cache
    new_cache-key attempt flags key e =
        let (_, e₁) = after_ensure (not (is_empty key)) _ _ e in
        let (p, _, e₂) = after_ok_or (native.alloc_cache attempt flags) _ _ e₁ in
        ap (λ c. cache_key c.pointer) (sym (ok_inj e₂)) ∙ trusted.seeds p key

    new_dataset-key :
        (attempt flags : ℕ) (key : Bytes) {d : ℕ}
        → new_dataset native attempt flags key ≡ ok d
        → dataset_key d ≡ key
    unfolding new_dataset
    new_dataset-key attempt flags key e =
        let (cache, made, e₁) = >>=-eq-ok (new_cache native attempt flags key) _ e in
        let (p, _, e₂) = after_ok_or (native.alloc_dataset flag_default) _ _ e₁ in
        let (filled, e₃) = after_ensure (not (native.dataset_item_count == 0)) _ _ e₂ in
        ap dataset_key (sym (ok_inj e₃))
        ∙ trusted.fills p cache (ground arith)
        ∙ new_cache-key attempt flags key made

    light_vm-key :
        (attempt flags : ℕ) (cache : Cache) {vm : Vm}
        → light_vm native attempt flags cache ≡ ok vm
        → backing_key vm.backing ≡ cache_key cache.pointer
    unfolding light_vm
    light_vm-key attempt flags cache e =
        let (p, _, e₁) =
          after_ok_or (native.create_vm attempt (without_full_mem flags) (VmBacking.light cache)) _
            _ e in
        ap (λ vm. backing_key vm.backing) (sym (ok_inj e₁))

    pub fast_vm-key :
        (attempt flags : ℕ) (d : ℕ) {vm : Vm}
        → fast_vm native attempt flags d ≡ ok vm
        → backing_key vm.backing ≡ dataset_key d
    unfolding fast_vm
    fast_vm-key attempt flags d e =
        let (p, _, e₁) =
          after_ok_or (native.create_vm attempt (with_full_mem flags) (VmBacking.fast d)) _ _ e in
        ap (λ vm. backing_key vm.backing) (sym (ok_inj e₁))

    pub build_fast_dataset-key :
        (key : Bytes) {d : ℕ} → build_fast_dataset native force key ≡ ok d → dataset_key d ≡ key
    unfolding build_fast_dataset
    build_fast_dataset-key key e =
        elim (Result-cases (new_dataset native 2 (recommended_flags native force) key)) [
          | inl (d, made) ↦
              ap dataset_key (sym (ok_inj (rw (made, build_fast_dataset) at e)))
              ∙ new_dataset-key 2 _ key made
          | inr (reason, failed) ↦ cc (rw (failed, build_fast_dataset) at e)
        ]

    -- What a fallback keeps of both its attempts.
    pub or_portable-keeps :
        {A : Type 0} (P : A → Type 0) (r s : Result Str A) (message : Str → Str → Str)
        → ((a : A) → r ≡ ok a → P a)
        → ((a : A) → s ≡ ok a → P a)
        → {a : A} → or_portable r s message ≡ ok a
        → P a
    unfolding or_portable
    or_portable-keeps P (ok b) s message p q e = p _ e
    or_portable-keeps P (err x) (ok b) message p q e = q _ e
    or_portable-keeps P (err x) (err y) message p q e = cc

    with_flags-key :
        (attempt flags : ℕ) (key : Bytes) (c : ℕ × Cache)
        → with_flags native force flags (new_cache native attempt flags key) ≡ ok c
        → cache_key c.1.pointer ≡ key
    unfolding with_flags
    with_flags-key attempt flags key c e =
        elim (Result-cases (new_cache native attempt flags key)) [
          | inl (cache, made) ↦
              ap (λ x. cache_key x.1.pointer) (sym (ok_inj (rw (made, with_flags) at e)))
              ∙ new_cache-key attempt flags key made
          | inr (reason, failed) ↦ cc (rw (failed, with_flags) at e)
        ]

    build_light_cache-key :
        (key : Bytes) {c : ℕ × Cache}
        → build_light_cache native force key ≡ ok c
        → cache_key c.1.pointer ≡ key
    unfolding build_light_cache
    build_light_cache-key key e =
        or_portable-keeps (λ c. cache_key c.1.pointer ≡ key) _ _ _ (with_flags-key 0 _ key)
          (with_flags-key 1 flag_default key) e

    abbrev Cached : Bytes → Shared × Result Str (ℕ × Cache) → Type 0
    Cached key (shared, ok (flags, cache)) = KeyedShared shared × (cache_key cache.pointer ≡ key)
    Cached key (shared, err e) = KeyedShared shared

    keep_cache-Cached :
        (key : Bytes) (shared : Shared)
        → KeyedShared shared
        → Cached key (keep_cache native force key (build_light_cache native force key) shared)
    unfolding keep_cache
    keep_cache-Cached key shared k = elim (Result-cases (build_light_cache native force key)) [
      | inl ((flags, cache), made) ↦
          let same = build_light_cache-key key made in
          rw (made, keep_cache) (record { datasets = k.datasets; light_cache = same }, same)
      | inr (reason, failed) ↦
          rw (failed, keep_cache) (record { datasets = k.datasets; light_cache = tt })
    ]

    answer_light_cache-Cached :
        (key : Bytes) (slot : Option SharedLightCacheState) (shared : Shared)
        → KeyedCache slot
        → KeyedShared shared
        → Cached key (answer_light_cache native force key slot shared)
    unfolding answer_light_cache
    answer_light_cache-Cached key none shared s k = keep_cache-Cached key shared k
    answer_light_cache-Cached key (some existing) shared s k =
        elim (Bool-cases (str_eq existing.key key)) [
          | inl same ↦ rw same (k, s ∙ (str_eq_iff existing.key key).0 same)
          | inr other ↦ rw other (keep_cache-Cached key shared k)
        ]

    attach_light-key :
        (flags : ℕ) (cache : Cache) {vm : Vm}
        → attach_light native force (flags, cache) ≡ ok vm
        → backing_key vm.backing ≡ cache_key cache.pointer
    unfolding attach_light
    attach_light-key flags cache e =
        or_portable-keeps (λ vm. backing_key vm.backing ≡ cache_key cache.pointer) _ _ _
          (λ vm. light_vm-key 0 flags cache) (λ vm. light_vm-key 1 flag_default cache) e

    -- What a build of an engine for mining leaves.
    abbrev pub Built : Bytes → Shared × Result Str RandomXEngine → Type 0
    Built key (shared, ok engine) = KeyedShared shared × IsMiner key engine
    Built key (shared, err e) = KeyedShared shared

    finish_light-Built :
        (key : Bytes) (mode : RandomXMode) (now : ℕ) (a : Shared × Result Str (ℕ × Cache))
        → mode ≢ light
        → Cached key a
        → Built key (
          a.0,
          a.1 >>= λ c.
              attach_light native force c >>= λ vm. ok (light_engine native force mode now vm),
        )
    unfolding light_engine
    finish_light-Built key mode now (shared, err e) mining k = k
    finish_light-Built key mode now (shared, ok (flags, cache)) mining (k, same) =
        elim (Result-cases (attach_light native force (flags, cache))) [
          | inl (vm, made) ↦
              rw (made, light_engine) (k, (attach_light-key flags cache made ∙ same, mining))
          | inr (reason, failed) ↦ rw failed k
        ]

    pub build_light_vm-Built :
        (key : Bytes) (mode : RandomXMode) (now : ℕ) (shared : Shared)
        → mode ≢ light
        → KeyedShared shared
        → Built key (build_light_vm native force key mode now shared)
    unfolding build_light_vm shared_light_cache
    build_light_vm-Built key mode now shared mining k =
        finish_light-Built key mode now (shared_light_cache native force key shared) mining
          (answer_light_cache-Cached key shared.light_cache shared k.light_cache k)
