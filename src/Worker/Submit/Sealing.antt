-- ===== src/Worker/Submit/Sealing.antt =====
-- src/main.rs, `worker_loop` and `validate_rpc_submission`: what the node's reply to a block changes.
use xus_miner.Common.{
  ℕ, ◌≡◌, refl, sym, ◌∙◌, ap, Bool, true, false, Option, none, some, ◌⊎◌, inl, inr, ◌==◌, ==_iff,
  Str, str_eq, str_eq_iff, codes, Result, ok, err, ok_or, Result-cases,
}
use xus_miner.Common
use xus_miner.Common.Try.{>>=-eq-ok, after_ensure, after_ok_or}
use xus_miner.Job.{Job, Bytes, Codecs, template_id_for_blob}
use xus_miner.Blockflow.Sealed.{record_entry}
use xus_miner.Session.{State, Event, emit, fetch_add, record_sealed_block}
use xus_miner.Session.Work.{emit-Counts, clear_job_if_current-Counts, record_sealed_block-Counts}
use xus_miner.Worker.Submit.{
  SubmissionError, check_accepted, validate_rpc_submission, verdict, count_block, submit_block,
}

module _ (C : Codecs) where
  open C use {json}
  open json use {Value, field?, as_u64, as_str, as_bool}

  -- What a reply discloses that confirms a block.
  pub record Confirms (v : Value) (job : Job) (sealed_blob : Bytes) : Type 0 where
    pub verdict_true : Common.◌>>=◌ (field? v (codes "accepted")) as_bool ≡ some true
    pub same_height : Common.◌>>=◌ (field? v (codes "height")) as_u64 ≡ some job.height
    pub same_hash :
        Common.◌>>=◌ (field? v (codes "hash")) as_str ≡ some (template_id_for_blob C sealed_blob)

  check_accepted-true : (b : Option Bool) {u : Unit {0}} → check_accepted b ≡ ok u → b ≡ some true
  unfolding check_accepted
  check_accepted-true none e = cc
  check_accepted-true (some true) e = refl
  check_accepted-true (some false) e = cc

  validate_rpc_submission-Confirms :
      (v : Value) (job : Job) (sealed_blob : Bytes) {u : Unit {0}}
      → validate_rpc_submission C v job sealed_blob ≡ ok u
      → Confirms v job sealed_blob
  unfolding validate_rpc_submission
  validate_rpc_submission-Confirms v job sealed_blob e =
      let (_, taken, e₁) =
        >>=-eq-ok (check_accepted (Common.◌>>=◌ (field? v (codes "accepted")) as_bool)) _ e in
      let (height, found, e₂) =
        after_ok_or (Common.◌>>=◌ (field? v (codes "height")) as_u64) _ _ e₁ in
      let (level, e₃) = after_ensure (height == job.height) _ _ e₂ in
      let (hash, named, e₄) = after_ok_or (Common.◌>>=◌ (field? v (codes "hash")) as_str) _ _ e₃ in
      let (match, e₅) = after_ensure (str_eq hash (template_id_for_blob C sealed_blob)) _ _ e₄ in
      record {
        verdict_true = check_accepted-true _ taken;
        same_height = found ∙ ap some ((==_iff height job.height).0 level);
        same_hash =
            named ∙ ap some ((str_eq_iff hash (template_id_for_blob C sealed_blob)).0 match);
      }

  -- A block that counts: one submitted and accepted more, and its hash is remembered.
  abbrev pub Accepted : State → State → Job → Bytes → Type 0
  Accepted t s job sealed_blob =
      (t.submitted ≡ fetch_add s.submitted 1)
      × (t.accepted ≡ fetch_add s.accepted 1)
      × (t.rejected ≡ s.rejected)
      × (t.sealed_blocks
          ≡ record_entry s.sealed_blocks job.height (template_id_for_blob C sealed_blob))

  abbrev pub Rejected : State → State → Type 0
  Rejected t s =
      (t.submitted ≡ fetch_add s.submitted 1)
      × (t.accepted ≡ s.accepted)
      × (t.rejected ≡ fetch_add s.rejected 1)
      × (t.sealed_blocks ≡ s.sealed_blocks)

  verdict-Confirms :
      (reply : Result Str Value) (job : Job) (sealed_blob : Bytes) {u : Unit {0}}
      → verdict C reply job sealed_blob ≡ ok u
      → (v : Value) × (reply ≡ ok v) × Confirms v job sealed_blob
  unfolding verdict
  verdict-Confirms (err e) job sealed_blob h = cc
  verdict-Confirms (ok v) job sealed_blob h =
      (v, refl, validate_rpc_submission-Confirms v job sealed_blob h)

  count_block-accepted :
      (address : ℕ) (job : Job) (sealed_blob : Bytes) (s : State) (u : Unit {0})
      → let t = count_block C address job sealed_blob s (ok u) in
        (t.submitted ≡ s.submitted)
        × (t.accepted ≡ fetch_add s.accepted 1)
        × (t.rejected ≡ s.rejected)
        × (t.sealed_blocks
            ≡ record_entry s.sealed_blocks job.height (template_id_for_blob C sealed_blob))
  unfolding count_block
  count_block-accepted address job sealed_blob s u =
      let base : State = record s { accepted = fetch_add s.accepted 1 } in
      let t : State = record_sealed_block job.height (template_id_for_blob C sealed_blob) base in
      let told : State = emit (Event.share t.submitted t.accepted t.rejected) t in
      let a = clear_job_if_current-Counts address job told in
      let b = emit-Counts (Event.share t.submitted t.accepted t.rejected) t in
      let c = record_sealed_block-Counts job.height (template_id_for_blob C sealed_blob) base in
      (a.0 ∙ b.0 ∙ c.0, a.1 ∙ b.1 ∙ c.1, a.2 ∙ b.2 ∙ c.2, a.3 ∙ b.3 ∙ c.3)

  submit_verdict :
      (address : ℕ) (job : Job) (sealed_blob : Bytes) (s : State)
      (r : Result SubmissionError (Unit {0}))
      → let t =
          count_block C address job sealed_blob
            (record s { submitted = fetch_add s.submitted 1 })
            r in
        (((u : Unit {0}) × (r ≡ ok u)) × Accepted t s job sealed_blob) ⊎ Rejected t s
  unfolding count_block
  submit_verdict address job sealed_blob s (ok u) = inl (
    (u, refl),
    count_block-accepted address job sealed_blob (record s { submitted = fetch_add s.submitted 1 })
        u,
  )
  submit_verdict address job sealed_blob s (err e) = inr (refl, refl, refl, refl)

  -- A block that is submitted to the node is counted as accepted, and remembered as this miner's own
  -- with the hash of the blob that it sealed, only when the node's reply says so, names the job's
  -- height and echoes that hash; otherwise it is counted as rejected and nothing is remembered.
  pub submit_block-Confirms :
      (address : ℕ) (job : Job) (sealed_blob : Bytes) (reply : Result Str Value) (s : State)
      → let t = submit_block C address job sealed_blob reply s in
        (Accepted t s job sealed_blob × ((v : Value) × (reply ≡ ok v) × Confirms v job sealed_blob))
        ⊎ Rejected t s
  unfolding submit_block
  submit_block-Confirms address job sealed_blob reply s =
      elim (submit_verdict address job sealed_blob s (verdict C reply job sealed_blob)) [
        | inl ((u, e), a) ↦ inl (a, verdict-Confirms reply job sealed_blob e)
        | inr r ↦ inr r
      ]
