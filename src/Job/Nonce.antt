-- ===== src/Job/Nonce.antt =====
-- src/main.rs, `worker_loop`: the nonces of a worker, and their place in the blob.
pub mod Tries
use xus_miner.Common.{ℕ, zero, suc, ◌+◌, ◌*◌, ◌/◌, ◌%◌, ◌^◌, [], ◌∷◌, ◌++◌, take, drop}
use xus_miner.Job.{Bytes}

-- `nonce.to_le_bytes()`, for `n` bytes.
pub le_bytes : ℕ → ℕ → Bytes
le_bytes zero nonce = []
le_bytes (suc n) nonce = nonce % 2 ^ 8 ∷ le_bytes n (nonce / 2 ^ 8)

-- `blob[offset..offset + 8].copy_from_slice(&nonce.to_le_bytes())`.
pub splice_nonce : Bytes → ℕ → ℕ → Bytes
unfolding le_bytes
splice_nonce blob offset nonce = take offset blob ++ (le_bytes 8 nonce ++ drop (offset + 8) blob)

-- `worker << 56`, and the nonce behind `k` rounds of `wrapping_add(1)`.
pub first_nonce : ℕ → ℕ
first_nonce worker = worker * 2 ^ 56 % 2 ^ 64

pub next_nonce : ℕ → ℕ
next_nonce nonce = (nonce + 1) % 2 ^ 64

pub nonce_after : ℕ → ℕ → ℕ
unfolding first_nonce next_nonce
nonce_after worker zero = first_nonce worker
nonce_after worker (suc k) = next_nonce (nonce_after worker k)
