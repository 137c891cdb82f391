-- ===== src/Window/Recovery/Restarts.antt =====
-- src/gui.rs, `schedule_automatic_restart`: the automatic restarts come to an end.
use xus_miner.Common.{
  ℕ, suc, ◌+◌, ◌≤◌, ◌≡◌, refl, Bool, true, false, ◌||◌, not, List, [], ◌∷◌, none, leb, ◌⊎◌, Str,
  Bool-cases, inl, inr, arith, if◌then◌else◌, is_some,
}
use xus_miner.Window.Recovery.{
  App, schedule_automatic_restart, give_up, plan_restart, max_automatic_engine_restarts,
}

-- Failures one after the other, each with the time and the reason; a planned restart is taken between
-- them. The count is that of the restarts that were planned.
abbrev pub taken : App → App
taken a = record a { automatic_restart_at = none }

pub planned : Bool → App → List (ℕ × Str) → ℕ
planned windows a [] = 0
planned windows a ((now, reason) ∷ failures) =
    let b = schedule_automatic_restart windows now reason (taken a) in
    let rest = planned windows b failures in
    if is_some b.automatic_restart_at then suc rest else rest

-- What a failure does to the count of attempts.
abbrev Counts : App → App → Type 0
Counts a b =
    ((is_some b.automatic_restart_at ≡ true)
      × (b.automatic_restart_attempts ≡ suc a.automatic_restart_attempts)
      × (suc a.automatic_restart_attempts ≤ max_automatic_engine_restarts))
    ⊎ ((is_some b.automatic_restart_at ≡ false)
        × (b.automatic_restart_attempts ≡ a.automatic_restart_attempts))

give_up_or_plan :
    (spent : Bool) (now : ℕ) (reason : Str) (a b : App)
    → leb max_automatic_engine_restarts a.automatic_restart_attempts ≡ spent
    → b.automatic_restart_attempts ≡ a.automatic_restart_attempts
    → Counts a (if spent then give_up reason b else plan_restart now reason b)
unfolding give_up plan_restart
give_up_or_plan true now reason a b spent same = inr (refl, same)
give_up_or_plan false now reason a b left same = inl (
  refl,
  omega (arith, same),
  leb_not max_automatic_engine_restarts a.automatic_restart_attempts left,
)
  where
    leb_not : (m n : ℕ) → leb m n ≡ false → suc n ≤ m
    leb_not m n e = ground arith

schedule-Counts :
    (windows : Bool) (now : ℕ) (reason : Str) (a : App)
    → Counts a (schedule_automatic_restart windows now reason (taken a))
unfolding schedule_automatic_restart
schedule-Counts windows now reason a =
    elim (Bool-cases (a.requested_stop || not a.automatic_recovery_enabled)) [
      | inl off ↦ rw off (inr (refl, refl))
      | inr on ↦ rw on (by_system windows)
    ]
  where
    by_system :
        (w : Bool)
        → Counts a (
            let b = if w then record (taken a) { single_worker_recovery = true } else taken a in
            if leb max_automatic_engine_restarts b.automatic_restart_attempts
            then give_up reason b
            else plan_restart now reason b)
    by_system true =
        give_up_or_plan (leb max_automatic_engine_restarts a.automatic_restart_attempts) now reason
          a (record (taken a) { single_worker_recovery = true }) refl refl
    by_system false =
        give_up_or_plan (leb max_automatic_engine_restarts a.automatic_restart_attempts) now reason
          a (taken a) refl refl

-- However often and for whatever reasons the engine fails, without a start by the operator or a
-- stable run in between, the window plans no more automatic restarts than are left of its
-- `MAX_AUTOMATIC_ENGINE_RESTARTS`, so that it gives up at last.
pub planned_le :
    (windows : Bool) (a : App) (failures : List (ℕ × Str))
    → a.automatic_restart_attempts ≤ max_automatic_engine_restarts
    → planned windows a failures + a.automatic_restart_attempts ≤ max_automatic_engine_restarts
unfolding planned
planned_le windows a [] le = omega arith
planned_le windows a ((now, reason) ∷ failures) le =
    let b = schedule_automatic_restart windows now reason (taken a) in
    elim (schedule-Counts windows now reason a) [
      | inl (planned_one, more, fits) ↦
          let rest = planned_le windows b failures (omega (arith, more, fits)) in
          rw planned_one (omega (arith, rest, more))
      | inr (stopped, same) ↦
          let rest = planned_le windows b failures (omega (arith, same, le)) in
          rw stopped (omega (arith, rest, same))
    ]
