-- ===== src/Examples/Engine.antt =====
-- Tests of src/pow.rs, the machine of a thread, over a small stand-in for the library.
use xus_miner.Common.{
  ℕ, zero, suc, ◌+◌, ◌*◌, ◌/◌, ◌%◌, ◌==◌, [], ◌∷◌, ◌++◌, none, some, leb, if◌then◌else◌,
}
use xus_miner.Job.{Bytes}
use xus_miner.Native.{Randomx}
use xus_miner.Pow.Engine.{Shared, Thread}
use xus_miner.Pow.Engine.Keyed.{backing_key}

-- Keys as numbers, the stand-in for memory: a byte is so many ones and a zero, in binary.
encode_byte : ℕ → ℕ → ℕ
encode_byte zero n = n * 2
encode_byte (suc b) n = encode_byte b n * 2 + 1

encode : Bytes → ℕ
unfolding encode_byte
encode [] = 1
encode (b ∷ bytes) = encode_byte b (encode bytes)

longer : Bytes → Bytes
longer [] = []
longer (b ∷ bytes) = suc b ∷ bytes

decode_from : ℕ → ℕ → Bytes
unfolding longer
decode_from zero n = []
decode_from (suc fuel) n =
    let rest = decode_from fuel (n / 2) in
    if leb n 1 then [] else if n % 2 == 0 then 0 ∷ rest else longer rest

decode : ℕ → Bytes
unfolding decode_from
decode n = decode_from n n

abbrev seed : Bytes
seed = 5 ∷ []

abbrev join : Bytes → Bytes → Bytes
join key input = key ++ input

abbrev sample_native : Randomx
sample_native = record {
  recommended = 0x2a;
  alloc_cache = λ attempt flags. some 0;
  init_cache = λ pointer key. encode key;
  alloc_dataset = λ flags. some 0;
  dataset_item_count = 1;
  init_dataset = λ dataset cache start count. cache.pointer;
  create_vm = λ attempt flags backing. some 20;
  calculate_hash = λ vm input. join (backing_key decode decode join vm.backing) input;
}

abbrev nothing_shared : Shared
nothing_shared = record { datasets = none; light_cache = none; held = [] }

abbrev fresh_thread : Thread
fresh_thread = record { mining = none; light = none }

abbrev steady_clock : ℕ → ℕ
steady_clock reading = 100
