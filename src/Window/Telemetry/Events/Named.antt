-- ===== src/Window/Telemetry/Events/Named.antt =====
-- src/gui.rs, `apply_telemetry`: what an event tells of the workers by its name, and its kind.
use mathlib.Core.Path.{subst}
use xus_miner.Common.{
  ◌≡◌, ap, All, str_eq, str_eq_iff, ℕ, refl, inl, inr, Bool, true, false, ◌||◌, List, [], ◌∷◌,
  Option, none, some, Str, ltb, if◌then◌else◌, Bool-cases, codes,
}
use xus_miner.Window.Recovery.Tracked.{apart}
use xus_miner.Window.Telemetry.Events.Tracked.{changes_errors}
use xus_miner.Window.Telemetry.{kinds, kind_of, find_kind, is_fatal, Kind}

-- The event has this name.
abbrev pub is_named : Option Str → Str → Bool
is_named none name = false
is_named (some event) name = str_eq event name

-- The workers whose error has not been resolved, by an event with a name and a worker alone: an error
-- of a worker that the engine has adds it, and its recovery, or its being ready, takes it away.
abbrev pub failing_after : ℕ → Option Str → Option ℕ → List ℕ → List ℕ
failing_after workers event worker failing = elim worker [
  | none ↦ failing
  | some w ↦
      if is_named event (codes "worker_error")
      then (if ltb w workers then w ∷ failing else failing)
      else if is_named event (codes "worker_ready") || is_named event (codes "worker_recovered")
      then apart w failing
      else failing
]

-- What an event does to the errors.
pub data ErrorChange (o : Option Str) : Type 0 where
  errs : o ≡ some (codes "worker_error") → ErrorChange o
  readies : o ≡ some (codes "worker_ready") → ErrorChange o
  recovers : o ≡ some (codes "worker_recovered") → ErrorChange o
  others :
      ((workers : ℕ) (worker : Option ℕ) (failing : List ℕ)
        → failing_after workers o worker failing ≡ failing)
      → changes_errors (kind_of o) ≡ false
      → ErrorChange o

is_one : Str → Bool
is_one name =
    str_eq name (codes "worker_error")
    || str_eq name (codes "worker_ready")
    || str_eq name (codes "worker_recovered")

find_kind-is_one :
    (known : List (Str × Kind)) (name : Str)
    → All (λ e. changes_errors e.1 ≡ true → is_one e.0 ≡ true) known
    → changes_errors (find_kind known name) ≡ true
    → is_one name ≡ true
unfolding find_kind changes_errors
find_kind-is_one [] name h e = cc e
find_kind-is_one ((first, kind) ∷ known) name h e = elim (Bool-cases (str_eq first name)) [
  | inl same ↦ subst (λ n. is_one n ≡ true) ((str_eq_iff first name).0 same) (h.0 (rw same at e))
  | inr other ↦ find_kind-is_one known name (h.1) (rw other at e)
]

kinds-are_one : All (λ e. changes_errors e.1 ≡ true → is_one e.0 ≡ true) kinds
unfolding kinds changes_errors is_one str_eq
kinds-are_one = (
  λ e. cc e,
  (
    λ e. cc e,
    (
      λ e. cc e,
      (
        λ e. cc e,
        (
          λ e. cc e,
          (
            λ e. refl,
            (
              λ e. refl,
              (
                λ e. refl,
                (
                  λ e. cc e,
                  (
                    λ e. cc e,
                    (
                      λ e. cc e,
                      (
                        λ e. cc e,
                        (λ e. cc e, (λ e. cc e, (λ e. cc e, (λ e. cc e, (λ e. cc e, tt))))),
                      ),
                    ),
                  ),
                ),
              ),
            ),
          ),
        ),
      ),
    ),
  ),
)

pub fatal_is_fatal : is_fatal Kind.engine_fatal ≡ true
unfolding is_fatal
fatal_is_fatal = refl

pub fatal_quiet : (kind : Kind) → is_fatal kind ≡ true → changes_errors kind ≡ false
unfolding is_fatal changes_errors
fatal_quiet Kind.engine_fatal e = refl
fatal_quiet _ e = cc e

quiet_kind : (name : Str) → is_one name ≡ false → changes_errors (kind_of (some name)) ≡ false
unfolding kind_of
quiet_kind name none_of = elim (Bool-cases (changes_errors (find_kind kinds name))) [
  | inr quiet ↦ quiet
  | inl loud ↦ cc (find_kind-is_one kinds name kinds-are_one loud, none_of)
]

unnamed :
    (workers : ℕ) (worker : Option ℕ) (failing : List ℕ)
    → failing_after workers none worker failing ≡ failing
unnamed workers none failing = refl
unnamed workers (some w) failing = refl

unrelated :
    (name : Str) (workers : ℕ) (worker : Option ℕ) (failing : List ℕ)
    → str_eq name (codes "worker_error") ≡ false
    → str_eq name (codes "worker_ready") ≡ false
    → str_eq name (codes "worker_recovered") ≡ false
    → failing_after workers (some name) worker failing ≡ failing
unrelated name workers none failing x y z = refl
unrelated name workers (some w) failing x y z = rw (x, y, z) refl

sort_unnamed : ErrorChange none
unfolding kind_of changes_errors
sort_unnamed = others unnamed refl

pub sort_event : (o : Option Str) → ErrorChange o
unfolding is_one
sort_event none = sort_unnamed
sort_event (some name) = elim (Bool-cases (str_eq name (codes "worker_error"))) [
  | inl e ↦ errs (ap some ((str_eq_iff name _).0 e))
  | inr x ↦ elim (Bool-cases (str_eq name (codes "worker_ready"))) [
    | inl e ↦ readies (ap some ((str_eq_iff name _).0 e))
    | inr y ↦ elim (Bool-cases (str_eq name (codes "worker_recovered"))) [
      | inl e ↦ recovers (ap some ((str_eq_iff name _).0 e))
      | inr z ↦
          others (λ workers worker failing. unrelated name workers worker failing x y z)
            (quiet_kind name (rw (x, y, z) refl))
    ]
  ]
]

pub fatal_told :
    (o : Option Str) → is_named o (codes "engine_fatal") ≡ true → kind_of o ≡ Kind.engine_fatal
unfolding kind_of kinds find_kind str_eq
fatal_told none e = cc e
fatal_told (some event) e =
    ap (λ name. kind_of (some name)) ((str_eq_iff event (codes "engine_fatal")).0 e)
