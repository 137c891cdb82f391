-- ===== src/Job/Stratum/Usable.antt =====
-- src/main.rs, `Job::from_stratum`: the shape of the work that the miner accepts from a pool.
use xus_miner.Common.{
  ℕ, ◌+◌, ◌-◌, ◌≤◌, ◌<◌, ◌≡◌, sym, ◌∙◌, ap, ◌&&◌, not, Option, some, none, leb, ◌==◌, ==_iff,
  length, Str, codes, byte_len, ok, ok_inj, arith,
}
use mathlib.Core.Path.{subst}
use xus_miner.Common.Try.{>>=-eq-ok, after_ensure}
use xus_miner.Pow.{PowAlgo}
use xus_miner.Job.{Job, Codecs, Bytes, max_blob_bytes, string, number, decode, as_target}
use xus_miner.Job.Stratum.{
  is_random_x, full_string, either_field, disclosed_target, network_target, stratum_algo,
  stratum_id, stratum_blob, stratum_offset, stratum_target, stratum_key, from_stratum,
}

-- A target, where there is one, has 32 bytes.
abbrev pub IsFull : Option Bytes → Type 0
IsFull none = Unit {0}
IsFull (some t) = length t ≡ 32

-- A RandomX job has a seed.
abbrev pub HasSeed : PowAlgo → Bytes → Type 0
HasSeed PowAlgo.random_x key = 0 < length key
HasSeed PowAlgo.sha256d key = Unit {0}

pub record IsUsable (j : Job) : Type 0 where
  pub id_fits : byte_len j.id ≤ 256
  pub trailing : j.nonce_offset + 8 ≡ length j.blob
  pub blob_fits : length j.blob ≤ max_blob_bytes
  pub full : length j.target ≡ 32
  pub network_full : IsFull j.block_target
  pub seeded : HasSeed j.algo j.pow_key

module _ (C : Codecs) where
  open C use {json}
  open json use {Value}

  stratum_id-eq-ok : (v : Value) {i : Str} → stratum_id C v ≡ ok i → byte_len i ≤ 256
  unfolding stratum_id
  stratum_id-eq-ok v e =
      let (id, _, e₁) = >>=-eq-ok (full_string C v (codes "job_id")) _ e in
      let (fits, e₂) = after_ensure (leb (byte_len id) 256) _ _ e₁ in
      let same = ap byte_len (ok_inj e₂) in ground arith

  stratum_blob-eq-ok :
      (v : Value) {b : Bytes}
      → stratum_blob C v ≡ ok b
      → (8 ≤ length b) × (length b ≤ max_blob_bytes)
  unfolding stratum_blob
  stratum_blob-eq-ok v e =
      let (text, _, e₁) = >>=-eq-ok (full_string C v (codes "blob")) _ e in
      let (blob, _, e₂) = >>=-eq-ok (decode C (codes "blob") text) _ e₁ in
      let (sized, e₃) =
        after_ensure (leb 8 (length blob) && leb (length blob) max_blob_bytes) _ _ e₂ in
      let same = ap length (ok_inj e₃) in (ground arith, ground arith)

  stratum_offset-eq-ok :
      (v : Value) (n : ℕ) {k : ℕ} → 8 ≤ n → stratum_offset C v n ≡ ok k → k + 8 ≡ n
  unfolding stratum_offset
  stratum_offset-eq-ok v n le e =
      let (offset, _, e₁) = >>=-eq-ok (number C v (codes "nonce_offset")) _ e in
      let (size, _, e₂) = >>=-eq-ok (number C v (codes "nonce_size")) _ e₁ in
      let (_, e₃) = after_ensure (size == 8) _ _ e₂ in
      let (at_end, e₄) = after_ensure (offset == n - 8) _ _ e₃ in
      let same = ok_inj e₄ in ground arith

  as_target-eq-ok : (bytes : Bytes) {t : Bytes} → as_target C bytes ≡ ok t → length t ≡ 32
  unfolding as_target
  as_target-eq-ok bytes e =
      let (sized, e₁) = after_ensure (length bytes == 32) _ _ e in
      ap length (sym (ok_inj e₁)) ∙ (==_iff (length bytes) 32).0 sized

  stratum_target-eq-ok : (v : Value) {t : Bytes} → stratum_target C v ≡ ok t → length t ≡ 32
  unfolding stratum_target
  stratum_target-eq-ok v e =
      let (text, _, e₁) = >>=-eq-ok (full_string C v (codes "target_full")) _ e in
      let (bytes, _, e₂) = >>=-eq-ok (decode C (codes "target_full") text) _ e₁ in
      as_target-eq-ok bytes e₂

  disclosed_target-eq-ok :
      (encoded : Option Str) {t : Option Bytes} → disclosed_target C encoded ≡ ok t → IsFull t
  unfolding disclosed_target
  disclosed_target-eq-ok none e = subst IsFull (ok_inj e) tt
  disclosed_target-eq-ok (some encoded) e =
      let (bytes, _, e₁) = >>=-eq-ok (decode C (codes "network_target") encoded) _ e in
      let (target, sized, e₂) = >>=-eq-ok (as_target C bytes) _ e₁ in
      subst IsFull (ok_inj e₂) (as_target-eq-ok bytes sized)

  network_target-eq-ok : (v : Value) {t : Option Bytes} → network_target C v ≡ ok t → IsFull t
  unfolding network_target
  network_target-eq-ok v =
      disclosed_target-eq-ok
        (either_field C v (codes "network_target_full") (codes "network_target"))

  stratum_key-eq-ok :
      (v : Value) (algo : PowAlgo) {k : Bytes} → stratum_key C v algo ≡ ok k → HasSeed algo k
  unfolding stratum_key is_random_x
  stratum_key-eq-ok v PowAlgo.sha256d e = tt
  stratum_key-eq-ok v PowAlgo.random_x e =
      let (seed, _, e₁) = >>=-eq-ok (string C v (codes "seed_hash")) _ e in
      let (key, _, e₂) = >>=-eq-ok (decode C (codes "seed_hash") seed) _ e₁ in
      let (seeded, e₃) = after_ensure (not (leb (length key) 0)) _ _ e₂ in
      let same = ap length (ok_inj e₃) in ground arith

  -- A job that is accepted from a pool is usable: its identifier has at most 256 bytes, the nonce is
  -- the last eight bytes of a blob of bounded length, the share target has 32 bytes and so has the
  -- network's block target where the pool discloses one, and a RandomX job has a seed.
  pub from_stratum-IsUsable : (v : Value) (j : Job) → from_stratum C v ≡ ok j → IsUsable j
  unfolding from_stratum
  from_stratum-IsUsable v j e =
      let (id, of_id, e₁) = >>=-eq-ok (stratum_id C v) _ e in
      let (blob, of_blob, e₂) = >>=-eq-ok (stratum_blob C v) _ e₁ in
      let (offset, of_offset, e₃) = >>=-eq-ok (stratum_offset C v (length blob)) _ e₂ in
      let (target, of_target, e₄) = >>=-eq-ok (stratum_target C v) _ e₃ in
      let (network, of_network, e₅) = >>=-eq-ok (network_target C v) _ e₄ in
      let (algo_name, _, e₆) = >>=-eq-ok (full_string C v (codes "algo")) _ e₅ in
      let (algo, _, e₇) = >>=-eq-ok (stratum_algo algo_name) _ e₆ in
      let (key, of_key, e₈) = >>=-eq-ok (stratum_key C v algo) _ e₇ in
      let (height, _, e₉) = >>=-eq-ok (number C v (codes "height")) _ e₈ in
      let (at_least, at_most) = stratum_blob-eq-ok v of_blob in
      subst IsUsable (ok_inj e₉) (record {
        id_fits = stratum_id-eq-ok v of_id;
        trailing = stratum_offset-eq-ok v (length blob) at_least of_offset;
        blob_fits = at_most;
        full = stratum_target-eq-ok v of_target;
        network_full = network_target-eq-ok v of_network;
        seeded = stratum_key-eq-ok v algo of_key;
      })
