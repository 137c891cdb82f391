-- ===== src/Window/Telemetry/Events/Settled.antt =====
-- src/gui.rs, `apply_telemetry`: no handler makes the window say that it mines over an error it keeps.
use xus_miner.Common.{
  ℕ, refl, inl, inr, Bool, true, false, ◌&&◌, ◌||◌, Option, none, some, Str, ltb, leb,
  if◌then◌else◌, Bool-cases, Option-cases, codes,
}
use xus_miner.Common.Json.{Json}
use xus_miner.Window.Recovery.{
  App, Phase, effective_engine_workers, mark_worker_unready, mark_worker_ready,
}
use xus_miner.Window.Recovery.Honest.{
  Honest, enter_connection_phase-Honest, enter_mining_phase-Honest, mark_worker_unready-Honest,
  mark_worker_ready-Honest,
}
use xus_miner.Window.Telemetry.{
  Screen, Kind, clear_active_work, count_jobless, fail_worker, die, note_stable, lose_session,
  same_height,
}
use xus_miner.Window.Telemetry.Events.{
  message_of, number, text, with_worker, worker_failed, clear_job, is_job, is_accepted,
  confirm_work, has_job, is_explicit_null, sampled, apply_metrics, end_session, handle,
}

fail_worker-Honest : (worker : ℕ) (message : Str) (a : App) → Honest (fail_worker worker message a)
unfolding fail_worker Honest
fail_worker-Honest worker message a = inl refl

die-Honest : (message : Str) (a : App) → Honest (die message a)
unfolding die Honest
die-Honest message a = inl refl

note_stable-Honest :
    (now : ℕ) (proven_stable : Bool) (a : App) → Honest a → Honest (note_stable now proven_stable a)
unfolding note_stable Honest
note_stable-Honest now true a h = h
note_stable-Honest now false a h = h

lose_session-Honest : (message : Str) (a : App) → Honest a → Honest (lose_session message a)
unfolding lose_session Honest
lose_session-Honest message a h = by_test a.engine_fatal_seen
  where
    calm : App
    calm = record a { worker_error_can_restore_mining = false; stable_hashing_since = none }

    by_test :
        (dead : Bool)
        → Honest (
            if dead then calm else record calm { phase = Phase.reconnecting; last_error = message })
    by_test true = h
    by_test false = inl refl

if-Honest :
    (b : Bool) (s t : Screen) → Honest s.app → Honest t.app → Honest (if b then s else t).app
if-Honest true s t hs ht = hs
if-Honest false s t hs ht = ht

clear_active_work-Honest : (s : Screen) → Honest s.app → Honest (clear_active_work s).app
unfolding clear_active_work Honest
clear_active_work-Honest s h = h

module _ (J : Json) (redact : Str → Str) (is_hashing : Json.Value J → Bool) (windows : Bool) where
  open J use {Value, field?, as_str, as_u64}

  with_worker-Honest :
      (worker : Option ℕ) (change : ℕ → App → App) (a : App)
      → ((w : ℕ) → Honest (change w a))
      → Honest a
      → Honest (with_worker J redact is_hashing windows worker change a)
  unfolding with_worker
  with_worker-Honest none change a keeps h = h
  with_worker-Honest (some worker) change a keeps h = keeps worker

  worker_failed-Honest :
      (v : Value) (worker : ℕ) (a : App)
      → Honest a
      → Honest (worker_failed J redact is_hashing windows v worker a)
  unfolding worker_failed
  worker_failed-Honest v worker a h =
      elim (Bool-cases (ltb worker (effective_engine_workers windows a))) [
        | inl known ↦ rw (known, worker_failed) (fail_worker-Honest worker _ a)
        | inr unknown ↦ rw (unknown, worker_failed) h
      ]

  clear_job-Honest :
      (v : Value) (now : ℕ) (s : Screen)
      → Honest s.app
      → Honest (clear_job J redact is_hashing windows v now s).app
  unfolding clear_job clear_active_work Honest
  clear_job-Honest v now s h = at_height (number J redact is_hashing windows v (codes "height"))
    where
      found : ℕ → Screen
      found height =
          if is_job J redact is_hashing windows
              (text J redact is_hashing windows v (codes "job_id")) s.work
            && same_height s.work.height (some height)
          then clear_active_work (record s {
            last_found_block =
                if is_accepted J redact is_hashing windows
                  (text J redact is_hashing windows v (codes "reason"))
                then some (height, now)
                else s.last_found_block;
          })
          else s

      at_height :
          (o : Option ℕ) → Honest (elim o as (λ _. Screen) [ none ↦ s | some n ↦ found n ]).app
      at_height none = h
      at_height (some height) =
          if-Honest
            (is_job J redact is_hashing windows
                (text J redact is_hashing windows v (codes "job_id")) s.work
              && same_height s.work.height (some height))
            (clear_active_work (record s {
              last_found_block =
                  if is_accepted J redact is_hashing windows
                    (text J redact is_hashing windows v (codes "reason"))
                  then some (height, now)
                  else s.last_found_block;
            }))
            s h h

  confirm_work-Honest :
      (v : Value) (s : Screen)
      → Honest s.app
      → Honest (confirm_work J redact is_hashing windows v s).app
  unfolding confirm_work clear_active_work Honest
  confirm_work-Honest v s h =
      elim (Option-cases (number J redact is_hashing windows v (codes "height"))) [
        | inr (height, there) ↦
            rw (there, confirm_work)
              (if-Honest
                (same_height s.work.height (some height)
                  && has_job J redact is_hashing windows s.work)
                (record s {
                  work = record s.work { job_observed_in_metrics = true; jobless_metrics_seen = 0 };
                })
                s h h)
        | inl missing ↦ rw (missing, confirm_work) (uncounted s h)
      ]
    where
      counted : Screen
      counted = record s {
        work = record s.work { jobless_metrics_seen = count_jobless s.work.jobless_metrics_seen };
      }

      cleared : Screen
      cleared =
          if s.work.job_observed_in_metrics || leb 2 (count_jobless s.work.jobless_metrics_seen)
          then clear_active_work counted
          else counted

      uncounted :
          (t : Screen)
          → Honest t.app
          → Honest
              (if is_explicit_null J redact is_hashing windows (field? v (codes "height"))
                  && has_job J redact is_hashing windows s.work
                then cleared
                else t).app
      uncounted t kept =
          if-Honest
            (is_explicit_null J redact is_hashing windows (field? v (codes "height"))
              && has_job J redact is_hashing windows s.work)
            cleared t
            (if-Honest
              (s.work.job_observed_in_metrics || leb 2 (count_jobless s.work.jobless_metrics_seen))
              (clear_active_work counted) counted h h)
            kept

  apply_metrics-Honest :
      (v : Value) (now : ℕ) (s : Screen)
      → Honest s.app
      → Honest (apply_metrics J redact is_hashing windows v now s).app
  unfolding apply_metrics sampled
  apply_metrics-Honest v now s h =
      let start = sampled J redact is_hashing windows v s in
      note_stable-Honest now _ _ (confirm_work-Honest v start h)

  pub handle-Honest :
      (kind : Kind) (v : Value) (now : ℕ) (s : Screen)
      → Honest s.app
      → Honest (handle J redact is_hashing windows kind v now s).app
  unfolding handle end_session
  handle-Honest Kind.startup v now s h = enter_connection_phase-Honest Phase.connecting s.app refl
  handle-Honest Kind.connecting v now s h =
      enter_connection_phase-Honest Phase.connecting s.app refl
  handle-Honest Kind.pool_connected v now s h =
      enter_connection_phase-Honest Phase.authenticating s.app refl
  handle-Honest Kind.node_connected v now s h = enter_mining_phase-Honest s.app
  handle-Honest Kind.worker_initializing v now s h =
      with_worker-Honest (number J redact is_hashing windows v (codes "worker")) mark_worker_unready
        s.app (λ w. mark_worker_unready-Honest w s.app h) h
  handle-Honest Kind.worker_ready v now s h =
      with_worker-Honest (number J redact is_hashing windows v (codes "worker"))
        (λ w a. (mark_worker_ready windows w a).0) s.app
        (λ w. mark_worker_ready-Honest windows w s.app h) h
  handle-Honest Kind.worker_recovered v now s h =
      with_worker-Honest (number J redact is_hashing windows v (codes "worker"))
        (λ w a. (mark_worker_ready windows w a).0) s.app
        (λ w. mark_worker_ready-Honest windows w s.app h) h
  handle-Honest Kind.worker_error v now s h =
      with_worker-Honest (number J redact is_hashing windows v (codes "worker"))
        (worker_failed J redact is_hashing windows v) s.app (λ w. worker_failed-Honest v w s.app h)
        h
  handle-Honest Kind.engine_fatal v now s h =
      die-Honest
        (message_of J redact is_hashing windows (codes "Mining engine reported a fatal error.") v)
        (record s.app { stable_hashing_since = none })
  handle-Honest Kind.job v now s h = enter_mining_phase-Honest s.app
  handle-Honest Kind.job_cleared v now s h = clear_job-Honest v now s h
  handle-Honest Kind.network v now s h = h
  handle-Honest Kind.peers v now s h = h
  handle-Honest Kind.block_flow v now s h = h
  handle-Honest Kind.metrics v now s h = apply_metrics-Honest v now s h
  handle-Honest Kind.share v now s h = h
  handle-Honest Kind.session_error v now s h =
      lose_session-Honest (message_of J redact is_hashing windows (codes "Pool session ended.") v)
        s.app h
  handle-Honest Kind.logged_only v now s h = h
