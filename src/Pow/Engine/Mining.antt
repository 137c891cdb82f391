-- ===== src/Pow/Engine/Mining.antt =====
-- src/pow.rs, `pow_hash_mining`: what a thread hashes with, whatever it hashed before.
use xus_miner.Common.{ℕ, Bool, [], Option, none, some, ◌≡◌, ◌⊎◌, Str, Result, ok, err}
use xus_miner.Common.Try.{◌>>=◌}
use xus_miner.Job.{Bytes}
use xus_miner.Native.{Vm, Randomx}
use xus_miner.Pow.{RandomXMode}
use xus_miner.Pow.Engine.{
  MiningHash, RandomXEngine, Shared, Slot, attach_fast, hash_slot, mining_mode,
}
use xus_miner.Pow.Engine.Keyed.{IsRandomx, KeyedShared, IsMiner, KeyedSlot}

module _ (cache_key dataset_key : ℕ → Bytes) (randomx : Bytes → Bytes → Bytes) where
  -- What a call leaves: the thread's engine is for mining, and what is shared names its keys; a digest
  -- is the RandomX hash of the input under the key that was asked for, computed by the engine that the
  -- thread now keeps; without a digest there is no engine, or the input is empty.
  pub record Hashed (key input : Bytes) (slot : Slot) (shared : Shared) (r : Result Str MiningHash)
      : Type 0 where
    pub slot_keyed : KeyedSlot cache_key dataset_key randomx slot
    pub shared_keyed : KeyedShared cache_key dataset_key randomx shared
    pub answered :
        ((h : MiningHash) × (r ≡ ok h)
          × (h.digest ≡ randomx key input)
          × ((engine : RandomXEngine) × (slot ≡ some (key, engine))))
        ⊎ ((e : Str) × (r ≡ err e) × ((slot ≡ none) ⊎ (input ≡ [])))

  module _ (native : Randomx) (trusted : IsRandomx cache_key dataset_key randomx native)
      (force : Option Bool) where
    with_dataset : Result Str ℕ → Result Str (ℕ × Vm)
    with_dataset r = r >>= λ x. attach_fast native force x >>= λ m. ok (x, m)

    -- A slot behind `ready_engine`.
    abbrev Ready : Bytes → (Slot × Shared) × Result Str (Unit {0}) → Type 0
    Ready key ((slot, shared), ok u) =
        KeyedShared cache_key dataset_key randomx shared
        × ((engine : RandomXEngine) × (slot ≡ some (key, engine))
            × IsMiner cache_key dataset_key randomx key engine)
    Ready key ((slot, shared), err e) =
        KeyedShared cache_key dataset_key randomx shared × (slot ≡ none)

    -- The hash of a slot that is ready.
    answer_of : Slot → Bytes → Result Str (Unit {0}) → Result Str MiningHash
    answer_of slot input ready =
        (ready >>= λ _. hash_slot native force slot input) >>= λ (digest, mode).
        mining_mode native force mode >>= λ m. ok (record { digest = digest; mode = m })
