-- ===== src/Job/Nonce/Tries.antt =====
-- src/main.rs, the worker's nonces: what is written into the blob, and which nonces a worker tries.
use xus_miner.Common.{
  ℕ, zero, suc, ◌+◌, ◌*◌, ◌/◌, ◌^◌, ◌≤◌, ◌<◌, ◌≡◌, refl, ◌∙◌, ap, [], ◌∷◌, ◌++◌, length, take, drop,
  length-append, length-take, length-drop, drop-drop, take-append, sym, arith,
}
use xus_miner.Job.{Bytes}
use xus_miner.Job.Nonce.{le_bytes, splice_nonce, first_nonce, next_nonce, nonce_after}

-- The number that little-endian bytes encode.
pub le_value : Bytes → ℕ
le_value [] = 0
le_value (b ∷ bs) = b + 2 ^ 8 * le_value bs

length-le_bytes : (n nonce : ℕ) → length (le_bytes n nonce) ≡ n
unfolding le_bytes
length-le_bytes zero nonce = refl
length-le_bytes (suc n) nonce = ap suc (length-le_bytes n (nonce / 2 ^ 8))

le_value-le_bytes : (n nonce : ℕ) → nonce < 256 ^ n → le_value (le_bytes n nonce) ≡ nonce
unfolding le_value le_bytes
le_value-le_bytes zero nonce h = omega arith
le_value-le_bytes (suc n) nonce h =
    let rest = le_value-le_bytes n (nonce / 2 ^ 8) (omega (arith, h)) in omega (arith, rest)

drop-append : (n : ℕ) (xs ys : Bytes) → length xs ≡ n → drop n (xs ++ ys) ≡ ys
drop-append zero [] ys h = refl
drop-append zero (x ∷ xs) ys h = ground arith
drop-append (suc n) [] ys h = ground arith
drop-append (suc n) (x ∷ xs) ys h = drop-append n xs ys (omega arith)

-- Writing a 64-bit nonce at an offset that leaves room for it keeps the length of the blob and every
-- byte outside the eight that it replaces, and those eight, read as a little-endian number, are the
-- nonce.
pub splice_nonce-writes :
    (blob : Bytes) (offset nonce : ℕ)
    → offset + 8 ≤ length blob
    → nonce < 2 ^ 64
    → (length (splice_nonce blob offset nonce) ≡ length blob)
      × (take offset (splice_nonce blob offset nonce) ≡ take offset blob)
      × (drop (offset + 8) (splice_nonce blob offset nonce) ≡ drop (offset + 8) blob)
      × (le_value (take 8 (drop offset (splice_nonce blob offset nonce))) ≡ nonce)
unfolding splice_nonce
splice_nonce-writes blob offset nonce room small =
    let pre : Bytes = take offset blob in
    let mid : Bytes = le_bytes 8 nonce in
    let post : Bytes = drop (offset + 8) blob in
    let eight : length mid ≡ 8 = length-le_bytes 8 nonce in
    let cut : length pre ≡ offset = omega (arith, length-take offset blob) in
    let behind : drop offset (pre ++ (mid ++ post)) ≡ mid ++ post =
      drop-append offset pre (mid ++ post) cut in
    (
      omega (
        arith,
        eight,
        length-take offset blob,
        length-drop (offset + 8) blob,
        length-append pre (mid ++ post),
        length-append mid post,
      ),
      take-append offset pre (mid ++ post) cut,
      sym (drop-drop offset 8 (offset + 8) (pre ++ (mid ++ post)) refl)
          ∙ ap (drop 8) behind
          ∙ drop-append 8 mid post eight,
      ap (λ r. le_value (take 8 r)) behind
          ∙ ap le_value (take-append 8 mid post eight)
          ∙ le_value-le_bytes 8 nonce (omega (arith, small)),
    )

-- The nonce after `k` tries, where neither the worker's number nor the tries overflow their field.
nonce_after-value :
    (worker k : ℕ) → worker < 256 → k < 2 ^ 56 → nonce_after worker k ≡ worker * 2 ^ 56 + k
unfolding nonce_after first_nonce next_nonce
nonce_after-value worker zero hw hk = omega arith
nonce_after-value worker (suc k) hw hk = omega (arith, nonce_after-value worker k hw (omega arith))

-- Two of the at most 256 workers, within their first 2^56 tries of a job, try the same nonce only
-- where they are the same worker at the same try.
pub nonce_after-injective :
    (v w j k : ℕ)
    → v < 256
    → w < 256
    → j < 2 ^ 56
    → k < 2 ^ 56
    → nonce_after v j ≡ nonce_after w k
    → (v ≡ w) × (j ≡ k)
nonce_after-injective v w j k hv hw hj hk e =
    let at_v = nonce_after-value v j hv hj in
    let at_w = nonce_after-value w k hw hk in
    (omega (arith, e, at_v, at_w), omega (arith, e, at_v, at_w))
