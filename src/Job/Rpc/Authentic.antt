-- ===== src/Job/Rpc/Authentic.antt =====
-- src/main.rs, `Job::from_rpc`: an accepted template against the header that its blob encodes.
use xus_miner.Common.{
  ℕ, ◌+◌, ◌-◌, ◌≤◌, ◌≡◌, refl, sym, ◌∙◌, ◌&&◌, not, some, leb, ◌==◌, ==_iff, length, Str, str_eq,
  str_eq_iff, codes, trim, is_empty, ok, ok_inj, arith, ap,
}
use mathlib.Core.Path.{subst}
use xus_miner.Common.Try.{>>=-eq-ok, after_ensure, after_ok_or}
use xus_miner.Wire.{Verdict, validate_account_id}
use xus_miner.Target.{target_from_compact}
use xus_miner.Job.{
  Job, JobError, BlockHeaderWire, Codecs, Bytes, max_blob_bytes, template_id_for_blob, string,
  number, decode,
}
use xus_miner.Job.Rpc.{
  authenticate, from_rpc, check_account, rpc_algo, rpc_blob, rpc_offset, rpc_target, rpc_key,
  rpc_coinbase,
}

module _ (C : Codecs) where
  open C use {json, decode_header}
  open json use {Value}

  -- What a job shares with the header that its blob encodes.
  pub record IsAuthentic (j : Job) (header : BlockHeaderWire) : Type 0 where
    pub encoded : decode_header j.blob ≡ some header
    pub pays : j.coinbase ≡ some header.proposer
    pub account : validate_account_id header.proposer ≡ Verdict.valid
    pub at_height : j.height ≡ header.height
    pub at_time : j.timestamp_ms ≡ some header.timestamp_ms
    pub committed : target_from_compact header.bits ≡ some j.target
    pub block_level : j.block_target ≡ some j.target
    pub identified : j.id ≡ template_id_for_blob C j.blob
    pub trailing : j.nonce_offset + 8 ≡ length j.blob
    pub blob_fits : length j.blob ≤ max_blob_bytes
    pub key_fits : length j.pow_key ≡ 32

  authenticate-eq-ok :
      (v : Value) (coinbase : Str) (time : ℕ) (j k : Job) (h : BlockHeaderWire)
      → authenticate C v coinbase time j h ≡ ok k
      → (h.proposer ≡ coinbase)
        × (h.height ≡ j.height)
        × (h.timestamp_ms ≡ time)
        × (target_from_compact h.bits ≡ some j.target)
        × (template_id_for_blob C j.blob ≡ j.id)
        × (j ≡ k)
  unfolding authenticate
  authenticate-eq-ok v coinbase time j k h e =
      let (pays, e₁) = after_ensure (str_eq h.proposer coinbase) _ _ e in
      let (height, e₂) = after_ensure (h.height == j.height) _ _ e₁ in
      let (at_time, e₃) = after_ensure (h.timestamp_ms == time) _ _ e₂ in
      let (_, e₄) = after_ensure _ JobError.version_bits_mismatch _ e₃ in
      let (_, e₅) = after_ensure _ JobError.bits_mismatch _ e₄ in
      let (target, decoded, e₆) = after_ok_or (target_from_compact h.bits) _ _ e₅ in
      let (same, e₇) = after_ensure (str_eq j.target target) _ _ e₆ in
      let (ident, e₈) = after_ensure (str_eq (template_id_for_blob C j.blob) j.id) _ _ e₇ in
      (
        (str_eq_iff h.proposer coinbase).0 pays,
        (==_iff h.height j.height).0 height,
        (==_iff h.timestamp_ms time).0 at_time,
        decoded ∙ ap some (sym ((str_eq_iff j.target target).0 same)),
        (str_eq_iff (template_id_for_blob C j.blob) j.id).0 ident,
        ok_inj e₈,
      )

  check_account-valid : (w : Verdict) {u : Unit {0}} → check_account w ≡ ok u → w ≡ Verdict.valid
  unfolding check_account
  check_account-valid Verdict.valid e = refl
  check_account-valid (Verdict.refused e) h = cc

  rpc_blob-eq-ok :
      (v : Value) {b : Bytes} → rpc_blob C v ≡ ok b → (8 ≤ length b) × (length b ≤ max_blob_bytes)
  unfolding rpc_blob
  rpc_blob-eq-ok v e =
      let (text, _, e₁) = >>=-eq-ok (string C v (codes "blob")) _ e in
      let (blob, _, e₂) = >>=-eq-ok (decode C (codes "blob") text) _ e₁ in
      let (sized, e₃) =
        after_ensure (leb 8 (length blob) && leb (length blob) max_blob_bytes) _ _ e₂ in
      let same = ap length (ok_inj e₃) in (ground arith, ground arith)

  rpc_offset-eq-ok : (v : Value) (n : ℕ) {k : ℕ} → 8 ≤ n → rpc_offset C v n ≡ ok k → k + 8 ≡ n
  unfolding rpc_offset
  rpc_offset-eq-ok v n le e =
      let (offset, _, e₁) = >>=-eq-ok (number C v (codes "nonceOffset")) _ e in
      let (at_end, e₂) = after_ensure (offset == n - 8) _ _ e₁ in
      let same = ok_inj e₂ in ground arith

  rpc_key-eq-ok : (v : Value) {k : Bytes} → rpc_key C v ≡ ok k → length k ≡ 32
  unfolding rpc_key
  rpc_key-eq-ok v e =
      let (text, _, e₁) = >>=-eq-ok (string C v (codes "powKey")) _ e in
      let (key, _, e₂) = >>=-eq-ok (decode C (codes "powKey") text) _ e₁ in
      let (sized, e₃) = after_ensure (length key == 32) _ _ e₂ in
      ap length (sym (ok_inj e₃)) ∙ (==_iff (length key) 32).0 sized

  rpc_coinbase-eq-ok :
      (v : Value) {a : Str} → rpc_coinbase C v ≡ ok a → validate_account_id a ≡ Verdict.valid
  unfolding rpc_coinbase
  rpc_coinbase-eq-ok v e =
      let (text, _, e₁) = >>=-eq-ok (string C v (codes "proposer")) _ e in
      let (_, e₂) = after_ensure (not (is_empty (trim text))) _ _ e₁ in
      let (_, accepted, e₃) = >>=-eq-ok (check_account (validate_account_id (trim text))) _ e₂ in
      ap validate_account_id (sym (ok_inj e₃))
      ∙ check_account-valid (validate_account_id (trim text)) accepted

  -- A template that is accepted is authentic: its blob encodes a block header, and the job's height,
  -- time and reward account are the header's, the account is well formed, the target is the one
  -- that the header's difficulty bits commit to, the identifier is the hash of the blob, and the
  -- nonce is the last eight bytes of a blob of bounded length.
  pub from_rpc-IsAuthentic :
      (v : Value) (j : Job) → from_rpc C v ≡ ok j → (h : BlockHeaderWire) × IsAuthentic j h
  unfolding from_rpc
  from_rpc-IsAuthentic v j e =
      let (id, _, e₁) = >>=-eq-ok (string C v (codes "templateId")) _ e in
      let (height, _, e₂) = >>=-eq-ok (number C v (codes "height")) _ e₁ in
      let (time, _, e₃) = >>=-eq-ok (number C v (codes "timestampMs")) _ e₂ in
      let (blob, of_blob, e₄) = >>=-eq-ok (rpc_blob C v) _ e₃ in
      let (offset, of_offset, e₅) = >>=-eq-ok (rpc_offset C v (length blob)) _ e₄ in
      let (target, _, e₆) = >>=-eq-ok (rpc_target C v) _ e₅ in
      let (algo_name, _, e₇) = >>=-eq-ok (string C v (codes "powAlgo")) _ e₆ in
      let (algo, _, e₈) = >>=-eq-ok (rpc_algo algo_name) _ e₇ in
      let (key, of_key, e₉) = >>=-eq-ok (rpc_key C v) _ e₈ in
      let (coinbase, of_coinbase, f₁) = >>=-eq-ok (rpc_coinbase C v) _ e₉ in
      let (header, decoded, f₂) = after_ok_or (decode_header blob) _ _ f₁ in
      let (pays, at_height, at_time, committed, ident, same) =
        authenticate-eq-ok v coinbase time _ j header f₂ in
      let (at_least, at_most) = rpc_blob-eq-ok v of_blob in
      (
        header,
        subst (λ k. IsAuthentic k header) same
            (record {
              encoded = decoded;
              pays = ap some (sym pays);
              account = ap validate_account_id pays ∙ rpc_coinbase-eq-ok v of_coinbase;
              at_height = sym at_height;
              at_time = ap some (sym at_time);
              committed = committed;
              block_level = refl;
              identified = sym ident;
              trailing = rpc_offset-eq-ok v (length blob) at_least of_offset;
              blob_fits = at_most;
              key_fits = rpc_key-eq-ok v of_key;
            }),
      )
