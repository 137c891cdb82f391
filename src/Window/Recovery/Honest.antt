-- ===== src/Window/Recovery/Honest.antt =====
-- src/gui.rs: the window says that it mines only while no worker has failed.
use xus_miner.Common.{
  ℕ, ◌≡◌, refl, sym, ◌⊎◌, inl, inr, Bool, true, false, ◌&&◌, ◌||◌, not, [], ◌∷◌, Str, leb,
  if◌then◌else◌, Bool-cases,
}
use mathlib.Core.Path.{subst}
use xus_miner.Common.BTree.{BTreeMap, contains_key, retain}
use xus_miner.Window.Recovery.{
  App, Phase, is_mining, is_error, no_errors, show_first, enter_mining_phase,
  enter_connection_phase, mark_worker_unready, mark_worker_ready, with_ready, without, restore,
  forget_errors, effective_engine_workers,
}

-- The phase is not `Mining`, or no worker has failed and the engine has reported nothing fatal.
unfoldable pub Honest : App → Type 0
Honest a =
    (is_mining a.phase ≡ false)
    ⊎ ((no_errors a.worker_errors ≡ true) × (a.engine_fatal_seen ≡ false))

show_first-Honest :
    (errors : BTreeMap Str) (settled failing : App)
    → (errors ≡ [] → Honest settled)
    → Honest failing
    → Honest (show_first errors settled failing)
unfolding show_first Honest
show_first-Honest [] settled failing s f = s refl
show_first-Honest ((worker, message) ∷ errors) settled failing s f = f

pub enter_connection_phase-Honest :
    (phase : Phase) (a : App) → is_mining phase ≡ false → Honest (enter_connection_phase phase a)
unfolding enter_connection_phase Honest
enter_connection_phase-Honest phase a other = elim (Bool-cases a.engine_fatal_seen) [
  | inl dead ↦ rw dead (inl refl)
  | inr alive ↦ rw alive (show_first-Honest a.worker_errors _ _ (λ e. inl other) (inl refl))
]

no_errors-nil : (errors : BTreeMap Str) → errors ≡ [] → no_errors errors ≡ true
unfolding no_errors
no_errors-nil errors e = rw e refl

pub enter_mining_phase-Honest : (a : App) → Honest (enter_mining_phase a)
unfolding enter_mining_phase Honest
enter_mining_phase-Honest a = elim (Bool-cases a.engine_fatal_seen) [
  | inl dead ↦ rw (dead, enter_mining_phase) (inl refl)
  | inr alive ↦
      subst
        (λ fatal. Honest (
          if fatal
          then record a { phase = Phase.error; worker_error_can_restore_mining = false }
          else show_first a.worker_errors
              (record a { phase = Phase.mining; worker_error_can_restore_mining = false })
              (record a { phase = Phase.error; worker_error_can_restore_mining = true })))
        (sym alive)
        (show_first-Honest a.worker_errors _ _ (λ e. inr (no_errors-nil a.worker_errors e, alive))
          (inl refl))
]

pub mark_worker_unready-Honest :
    (worker : ℕ) (a : App) → Honest a → Honest (mark_worker_unready worker a)
unfolding mark_worker_unready Honest
mark_worker_unready-Honest worker a h = h

forget_errors-Honest : (a : App) → Honest a → Honest (forget_errors a)
unfolding forget_errors Honest
forget_errors-Honest a h = by_test (no_errors a.worker_errors)
  where
    by_test :
        (none_left : Bool)
        → Honest (if none_left then record a { worker_error_can_restore_mining = false } else a)
    by_test true = h
    by_test false = h

restore-Honest : (recovered : Bool) (a : App) → Honest a → Honest (restore recovered a)
unfolding restore Honest
restore-Honest recovered a h =
    elim (Bool-cases (
      recovered
      && a.worker_error_can_restore_mining
      && not a.engine_fatal_seen
      && is_error a.phase)) [
        | inr stays ↦ rw (stays, restore) h
        | inl mends ↦
            subst
              (λ test. Honest (
                if test
                then show_first a.worker_errors (record a { phase = Phase.mining; last_error = [] })
                    a
                else a))
              (sym mends)
              (show_first-Honest a.worker_errors _ _
                (λ e. inr (
                  no_errors-nil a.worker_errors e,
                  alive recovered a.worker_error_can_restore_mining a.engine_fatal_seen
                      (is_error a.phase) mends,
                ))
                h)
      ]
  where
    alive : (b c d e : Bool) → (b && c && not d && e) ≡ true → d ≡ false
    alive true true false e t = refl
    alive true true true e t = cc t
    alive true false d e t = cc t
    alive false c d e t = cc t

without-no_errors :
    (worker : ℕ) (errors : BTreeMap Str)
    → no_errors errors ≡ true
    → no_errors (without worker errors) ≡ true
unfolding no_errors without retain
without-no_errors worker [] e = refl
without-no_errors worker (x ∷ errors) e = cc e

pub mark_worker_ready-Honest :
    (windows : Bool) (worker : ℕ) (a : App)
    → Honest a
    → Honest (mark_worker_ready windows worker a).0
unfolding mark_worker_ready with_ready Honest
mark_worker_ready-Honest windows worker a h =
    by_guard (leb (effective_engine_workers windows a) worker || a.engine_fatal_seen)
  where
    cleared : App
    cleared = record (with_ready worker a) { worker_errors = without worker a.worker_errors }

    cleared-Honest : Honest a → Honest cleared
    cleared-Honest (inl other) = inl other
    cleared-Honest (inr (clean, alive)) =
        inr (without-no_errors worker a.worker_errors clean, alive)

    ready : App × Bool
    ready = (
      forget_errors (restore (contains_key worker a.worker_errors) cleared),
      not (contains_key worker a.ready_worker_ids) || contains_key worker a.worker_errors,
    )

    by_guard : (refused : Bool) → Honest (if◌then◌else◌ {A = App × Bool} refused (a, false) ready).0
    by_guard true = h
    by_guard false =
        forget_errors-Honest _
          (restore-Honest (contains_key worker a.worker_errors) cleared (cleared-Honest h))
