-- ===== src/Window/Recovery/Tracked.antt =====
-- src/gui.rs, the readiness of the workers: only a worker's own recovery takes its error away.
use xus_miner.Common.{
  ℕ, ◌≡◌, refl, sym, ap, ◌∙◌, inl, inr, Bool, true, false, ◌||◌, not, List, [], ◌∷◌, Str, leb, ◌==◌,
  if◌then◌else◌, Bool-cases, All, keep,
}
use mathlib.Core.Path.{subst}
use xus_miner.Common.BTree.{BTreeMap, contains_key, contains_key-retain, contains_key-nil}
use xus_miner.Window.Recovery.{
  App, Phase, effective_engine_workers, mark_worker_unready, mark_worker_ready, show_first,
  enter_mining_phase, enter_connection_phase, with_ready, without, restore, forget_errors,
  no_errors,
}

-- The errors that are kept are those of the application before.
show_first-errors :
    (errors : BTreeMap Str) (settled failing : App) (m : BTreeMap Str)
    → settled.worker_errors ≡ m
    → failing.worker_errors ≡ m
    → (show_first errors settled failing).worker_errors ≡ m
unfolding show_first
show_first-errors [] settled failing m s f = s
show_first-errors ((worker, message) ∷ errors) settled failing m s f = f

pub enter_connection_phase-errors :
    (phase : Phase) (a : App) → (enter_connection_phase phase a).worker_errors ≡ a.worker_errors
unfolding enter_connection_phase
enter_connection_phase-errors phase a = elim (Bool-cases a.engine_fatal_seen) [
  | inl dead ↦ rw dead refl
  | inr alive ↦ rw alive (show_first-errors a.worker_errors _ _ a.worker_errors refl refl)
]

pub enter_mining_phase-errors : (a : App) → (enter_mining_phase a).worker_errors ≡ a.worker_errors
unfolding enter_mining_phase
enter_mining_phase-errors a = elim (Bool-cases a.engine_fatal_seen) [
  | inl dead ↦ rw (dead, enter_mining_phase) refl
  | inr alive ↦
      rw (alive, enter_mining_phase)
        (show_first-errors a.worker_errors _ _ a.worker_errors refl refl)
]

restore-errors :
    (recovered : Bool) (a : App) → (restore recovered a).worker_errors ≡ a.worker_errors
unfolding restore
restore-errors recovered a = by_test _
  where
    by_test :
        (test : Bool)
        → (if test
            then show_first a.worker_errors (record a { phase = Phase.mining; last_error = [] }) a
            else a).worker_errors
          ≡ a.worker_errors
    by_test true = show_first-errors a.worker_errors _ _ a.worker_errors refl refl
    by_test false = refl

forget_errors-errors : (a : App) → (forget_errors a).worker_errors ≡ a.worker_errors
unfolding forget_errors
forget_errors-errors a = by_test (no_errors a.worker_errors)
  where
    by_test :
        (none_left : Bool)
        → (if none_left
            then record a { worker_error_can_restore_mining = false }
            else a).worker_errors
          ≡ a.worker_errors
    by_test true = refl
    by_test false = refl

pub mark_worker_unready-errors :
    (worker : ℕ) (a : App) → (mark_worker_unready worker a).worker_errors ≡ a.worker_errors
unfolding mark_worker_unready
mark_worker_unready-errors worker a = refl

-- These workers have an error that is kept.
abbrev pub Tracks : List ℕ → App → Type 0
Tracks failing a = All (λ w. contains_key w a.worker_errors ≡ true) failing

pub Tracks-same :
    (failing : List ℕ) (a b : App)
    → b.worker_errors ≡ a.worker_errors
    → Tracks failing a
    → Tracks failing b
Tracks-same failing a b same t =
    subst (λ m. All (λ w. contains_key w m ≡ true) failing) (sym same) t

-- Without a worker that recovers.
abbrev pub apart : ℕ → List ℕ → List ℕ
apart worker failing = keep (λ w. not (w == worker)) failing

pub Tracks-apart :
    (worker : ℕ) (failing : List ℕ) (a : App) → Tracks failing a → Tracks (apart worker failing) a
Tracks-apart worker [] a t = tt
Tracks-apart worker (w ∷ failing) a t = elim (Bool-cases (w == worker)) [
  | inl same ↦ rw same (Tracks-apart worker failing a t.1)
  | inr other ↦ rw other (t.0, Tracks-apart worker failing a t.1)
]

without-Tracks :
    (worker : ℕ) (m : BTreeMap Str) (failing : List ℕ)
    → All (λ w. contains_key w m ≡ true) failing
    → All (λ w. contains_key w (without worker m) ≡ true) (apart worker failing)
unfolding without
without-Tracks worker m [] t = tt
without-Tracks worker m (w ∷ failing) t = elim (Bool-cases (w == worker)) [
  | inl same ↦ rw same (without-Tracks worker m failing t.1)
  | inr other ↦ rw other (
    contains_key-retain (λ k. not (k == worker)) w m (ap not other) t.0,
    without-Tracks worker m failing t.1,
  )
]

pub mark_worker_ready-Tracks :
    (windows : Bool) (worker : ℕ) (failing : List ℕ) (a : App)
    → Tracks failing a
    → Tracks (apart worker failing) (mark_worker_ready windows worker a).0
unfolding mark_worker_ready with_ready
mark_worker_ready-Tracks windows worker failing a t =
    by_guard (leb (effective_engine_workers windows a) worker || a.engine_fatal_seen)
  where
    cleared : App
    cleared = record (with_ready worker a) { worker_errors = without worker a.worker_errors }

    ready : App × Bool
    ready = (
      forget_errors (restore (contains_key worker a.worker_errors) cleared),
      not (contains_key worker a.ready_worker_ids) || contains_key worker a.worker_errors,
    )

    by_guard :
        (refused : Bool)
        → Tracks (apart worker failing) (if◌then◌else◌ {A = App × Bool} refused (a, false) ready).0
    by_guard true = Tracks-apart worker failing a t
    by_guard false =
        Tracks-same (apart worker failing) cleared ready.0
          (forget_errors-errors _ ∙ restore-errors (contains_key worker a.worker_errors) cleared)
          (without-Tracks worker a.worker_errors failing t)

-- Without errors no worker has one.
pub none_failing :
    (failing : List ℕ) (a : App)
    → no_errors a.worker_errors ≡ true
    → Tracks failing a
    → failing ≡ []
unfolding no_errors
none_failing [] a clean t = refl
none_failing (w ∷ failing) a clean t = absurd (kept a.worker_errors clean t.0)
  where
    kept : (m : BTreeMap Str) → no_errors m ≡ true → contains_key w m ≡ true → ⊥
    kept [] c k = let both : true ≡ false = sym k ∙ contains_key-nil {V = Str} w [] refl in cc both
    kept (e ∷ m) c k = cc c
