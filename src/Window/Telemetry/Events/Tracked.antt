-- ===== src/Window/Telemetry/Events/Tracked.antt =====
-- src/gui.rs, `apply_telemetry`: no event but a worker's own recovery takes its error away.
use xus_miner.Common.{
  ℕ, ◌≡◌, refl, sym, ap, ◌∙◌, inl, inr, Bool, true, false, ◌&&◌, ◌||◌, List, [], ◌∷◌, Option, none,
  some, Str, ltb, leb, if◌then◌else◌, Bool-cases, Option-cases, codes, All,
}
use mathlib.Core.Path.{subst}
use xus_miner.Common.BTree.{
  BTreeMap, contains_key, insert, contains_key-insert, contains_key-inserted,
}
use xus_miner.Common.Json.{Json}
use xus_miner.Window.Recovery.{
  App, Phase, effective_engine_workers, mark_worker_unready, mark_worker_ready,
}
use xus_miner.Window.Recovery.Tracked.{
  Tracks, Tracks-same, apart, enter_connection_phase-errors, enter_mining_phase-errors,
  mark_worker_unready-errors, mark_worker_ready-Tracks,
}
use xus_miner.Window.Telemetry.{
  Screen, Kind, clear_active_work, count_jobless, fail_worker, die, note_stable, lose_session,
  same_height,
}
use xus_miner.Window.Telemetry.Events.{
  message_of, number, text, with_worker, worker_failed, clear_job, is_job, confirm_work, has_job,
  is_stable, is_explicit_null, sampled, apply_metrics, end_session, handle,
}

note_stable-errors :
    (now : ℕ) (stable : Bool) (a : App) → (note_stable now stable a).worker_errors ≡ a.worker_errors
unfolding note_stable
note_stable-errors now true a = refl
note_stable-errors now false a = refl

lose_session-errors :
    (message : Str) (a : App) → (lose_session message a).worker_errors ≡ a.worker_errors
unfolding lose_session
lose_session-errors message a = elim (Bool-cases a.engine_fatal_seen) [
  | inl dead ↦ rw dead refl
  | inr alive ↦ rw alive refl
]

fail_worker-errors :
    (worker : ℕ) (message : Str) (a : App)
    → (fail_worker worker message a).worker_errors ≡ insert worker message a.worker_errors
unfolding fail_worker
fail_worker-errors worker message a =
    ap (insert worker message) (mark_worker_unready-errors worker _)

inserted :
    (worker : ℕ) (message : Str) (failing : List ℕ) (m : BTreeMap Str)
    → All (λ w. contains_key w m ≡ true) failing
    → All (λ w. contains_key w (insert worker message m) ≡ true) failing
inserted worker message [] m t = tt
inserted worker message (w ∷ failing) m t =
    (contains_key-insert worker w message m t.0, inserted worker message failing m t.1)

fail_worker-Tracks :
    (worker : ℕ) (message : Str) (failing : List ℕ) (a : App)
    → Tracks failing a
    → Tracks (worker ∷ failing) (fail_worker worker message a)
fail_worker-Tracks worker message failing a t =
    subst (λ m. All (λ w. contains_key w m ≡ true) (worker ∷ failing))
      (sym (fail_worker-errors worker message a))
      (
        contains_key-inserted worker message a.worker_errors,
        inserted worker message failing a.worker_errors t,
      )

-- The events that change the errors.
unfoldable pub changes_errors : Kind → Bool
changes_errors Kind.worker_error = true
changes_errors Kind.worker_ready = true
changes_errors Kind.worker_recovered = true
changes_errors _ = false

module _ (J : Json) (redact : Str → Str) (is_hashing : Json.Value J → Bool) (windows : Bool) where
  open J use {Value, field?}

  clear_job-errors :
      (v : Value) (now : ℕ) (s : Screen)
      → (clear_job J redact is_hashing windows v now s).app.worker_errors ≡ s.app.worker_errors
  unfolding clear_job clear_active_work
  clear_job-errors v now s =
      elim (Option-cases (number J redact is_hashing windows v (codes "height"))) [
        | inl missing ↦ rw (missing, clear_job) refl
        | inr (height, there) ↦
            elim (Bool-cases (
              is_job J redact is_hashing windows
                (text J redact is_hashing windows v (codes "job_id")) s.work
              && same_height s.work.height (some height))) [
                | inl shown ↦ rw (there, clear_job, shown) refl
                | inr other ↦ rw (there, clear_job, other) refl
              ]
      ]

  confirm_work-errors :
      (v : Value) (s : Screen)
      → (confirm_work J redact is_hashing windows v s).app.worker_errors ≡ s.app.worker_errors
  unfolding confirm_work clear_active_work
  confirm_work-errors v s =
      elim (Option-cases (number J redact is_hashing windows v (codes "height"))) [
        | inr (height, there) ↦
            elim (Bool-cases (
              same_height s.work.height (some height)
              && has_job J redact is_hashing windows s.work)) [
                | inl shown ↦ rw (there, confirm_work, shown) refl
                | inr other ↦ rw (there, confirm_work, other) refl
              ]
        | inl missing ↦
            elim (Bool-cases (
              is_explicit_null J redact is_hashing windows (field? v (codes "height"))
              && has_job J redact is_hashing windows s.work)) [
                | inr other ↦ rw (missing, confirm_work, other) refl
                | inl jobless ↦
                    elim (Bool-cases (
                      s.work.job_observed_in_metrics
                      || leb 2 (count_jobless s.work.jobless_metrics_seen))) [
                        | inl clears ↦ rw (missing, confirm_work, jobless, clears) refl
                        | inr waits ↦ rw (missing, confirm_work, jobless, waits) refl
                      ]
              ]
      ]

  initializing-errors :
      (worker : Option ℕ) (a : App)
      → (with_worker J redact is_hashing windows worker mark_worker_unready a).worker_errors
        ≡ a.worker_errors
  unfolding with_worker
  initializing-errors none a = refl
  initializing-errors (some worker) a = mark_worker_unready-errors worker a

  handle-errors :
      (kind : Kind) (v : Value) (now : ℕ) (s : Screen)
      → changes_errors kind ≡ false
      → (handle J redact is_hashing windows kind v now s).app.worker_errors ≡ s.app.worker_errors
  unfolding handle changes_errors die end_session apply_metrics sampled
  handle-errors Kind.startup v now s h = enter_connection_phase-errors Phase.connecting s.app
  handle-errors Kind.connecting v now s h = enter_connection_phase-errors Phase.connecting s.app
  handle-errors Kind.pool_connected v now s h =
      enter_connection_phase-errors Phase.authenticating s.app
  handle-errors Kind.node_connected v now s h = enter_mining_phase-errors s.app
  handle-errors Kind.worker_initializing v now s h =
      initializing-errors (number J redact is_hashing windows v (codes "worker")) s.app
  handle-errors Kind.worker_ready v now s h = cc h
  handle-errors Kind.worker_recovered v now s h = cc h
  handle-errors Kind.worker_error v now s h = cc h
  handle-errors Kind.engine_fatal v now s h = refl
  handle-errors Kind.job v now s h = enter_mining_phase-errors s.app
  handle-errors Kind.job_cleared v now s h = clear_job-errors v now s
  handle-errors Kind.network v now s h = refl
  handle-errors Kind.peers v now s h = refl
  handle-errors Kind.block_flow v now s h = refl
  handle-errors Kind.metrics v now s h =
      let confirmed : Screen =
        confirm_work J redact is_hashing windows v (sampled J redact is_hashing windows v s) in
      note_stable-errors now (is_stable J redact is_hashing windows v confirmed) confirmed.app
      ∙ confirm_work-errors v (sampled J redact is_hashing windows v s)
  handle-errors Kind.share v now s h = refl
  handle-errors Kind.session_error v now s h =
      lose_session-errors (message_of J redact is_hashing windows (codes "Pool session ended.") v)
        s.app
  handle-errors Kind.logged_only v now s h = refl

  -- Any other event than a recovery keeps the errors.
  pub handle-Tracks :
      (kind : Kind) (v : Value) (now : ℕ) (failing : List ℕ) (s : Screen)
      → changes_errors kind ≡ false
      → Tracks failing s.app
      → Tracks failing (handle J redact is_hashing windows kind v now s).app
  handle-Tracks kind v now failing s h t =
      Tracks-same failing s.app (handle J redact is_hashing windows kind v now s).app
        (handle-errors kind v now s h) t

  pub ready-Tracks :
      (o : Option ℕ) (failing : List ℕ) (a : App)
      → Tracks failing a
      → Tracks
          (elim o [ none ↦ failing | some w ↦ apart w failing ])
          (with_worker J redact is_hashing windows o (λ w b. (mark_worker_ready windows w b).0) a)
  unfolding with_worker
  ready-Tracks none failing a t = t
  ready-Tracks (some w) failing a t = mark_worker_ready-Tracks windows w failing a t

  -- The worker of an error, if it is one of the engine's.
  pub failed-Tracks :
      (v : Value) (o : Option ℕ) (failing : List ℕ) (a : App)
      → Tracks failing a
      → Tracks
          (elim o [
            | none ↦ failing
            | some w ↦ if ltb w (effective_engine_workers windows a) then w ∷ failing else failing
          ])
          (with_worker J redact is_hashing windows o
            (worker_failed J redact is_hashing windows v)
            a)
  unfolding with_worker worker_failed
  failed-Tracks v none failing a t = t
  failed-Tracks v (some w) failing a t =
      elim (Bool-cases (ltb w (effective_engine_workers windows a))) [
        | inl known ↦ rw (known, worker_failed) (fail_worker-Tracks w _ failing a t)
        | inr unknown ↦ rw (unknown, worker_failed) t
      ]
