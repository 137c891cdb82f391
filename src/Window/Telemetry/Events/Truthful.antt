-- ===== src/Window/Telemetry/Events/Truthful.antt =====
-- src/gui.rs, `apply_telemetry`: no event makes the window say that it mines while a worker has failed.
use mathlib.Core.Path.{subst}
use xus_miner.Common.{
  ◌≡◌, ◌⊎◌, not, sym, ap, str_eq, ◌>>=◌, ℕ, refl, inl, inr, Bool, true, false, ◌&&◌, ◌||◌, List, [],
  ◌∷◌, Option, Str, if◌then◌else◌, codes,
}
use xus_miner.Common.Json.{Json}
use xus_miner.Window.Recovery.{is_mining, App, effective_engine_workers}
use xus_miner.Window.Recovery.Honest.{Honest}
use xus_miner.Window.Recovery.Tracked.{Tracks, none_failing}
use xus_miner.Window.Telemetry.Events.Tracked.{handle-Tracks, ready-Tracks, failed-Tracks}
use xus_miner.Window.Telemetry.{kinds, kind_of, find_kind, is_fatal, Screen, Kind, die}
use xus_miner.Window.Telemetry.Events.{number, text, handle, apply_telemetry}
use xus_miner.Window.Telemetry.Events.Settled.{handle-Honest}
use xus_miner.Window.Telemetry.Events.Named.{
  is_named, failing_after, ErrorChange, errs, readies, recovers, others, sort_event, fatal_is_fatal,
  fatal_quiet, fatal_told,
}

mined :
    (a : App) (failing : List ℕ) (fatal : Bool)
    → Honest a
    → (a.engine_fatal_seen ≡ true) ⊎ Tracks failing a
    → (fatal ≡ true → a.engine_fatal_seen ≡ true)
    → is_mining a.phase ≡ true
    → (failing ≡ []) × (fatal ≡ false)
unfolding Honest
mined a failing fatal (inl other) tracks seen mining = cc (other, mining)
mined a failing fatal (inr (clean, alive)) (inl dead) seen mining = cc (dead, alive)
mined a failing true (inr (clean, alive)) (inr t) seen mining = cc (seen refl, alive)
mined a failing false (inr (clean, alive)) (inr t) seen mining =
    (none_failing failing a clean t, refl)

module _ (J : Json) (redact : Str → Str) (is_hashing : Json.Value J → Bool) (windows : Bool) where
  open J use {Value, field?, as_str, as_u64}

  abbrev pub event_of : Value → Option Str
  event_of v = field? v (codes "event") >>= as_str

  abbrev pub worker_of : Value → Option ℕ
  worker_of v = field? v (codes "worker") >>= as_u64

  -- After the operator asked for the stop of the engine no more errors are noted.
  abbrev pub heard : Screen → Value → List ℕ → List ℕ
  heard s v failing =
      if s.app.requested_stop
      then failing
      else failing_after (if windows && s.app.single_worker_recovery then 1 else s.app.workers)
          (event_of v) (worker_of v) failing

  -- The events that the window receives, with their times.
  abbrev pub apply_all : List (Value × ℕ) → Screen → Screen
  apply_all [] s = s
  apply_all ((v, now) ∷ events) s =
      apply_all events (apply_telemetry J redact is_hashing windows v now s)

  abbrev pub heard_all : List (Value × ℕ) → Screen → List ℕ → List ℕ
  heard_all [] s failing = failing
  heard_all ((v, now) ∷ events) s failing =
      heard_all events (apply_telemetry J redact is_hashing windows v now s) (heard s v failing)

  abbrev pub any_fatal : List (Value × ℕ) → Bool → Bool
  any_fatal [] fatal = fatal
  any_fatal ((v, now) ∷ events) fatal =
      any_fatal events (fatal || is_named (event_of v) (codes "engine_fatal"))

  -- What the window shows agrees with what it was told.
  Agrees : List ℕ → Bool → App → Type 0
  Agrees failing fatal a =
      Honest a
      × ((a.engine_fatal_seen ≡ true) ⊎ Tracks failing a)
      × (fatal ≡ true → a.engine_fatal_seen ≡ true)

  handled :
      (v : Value) (now : ℕ) (s : Screen) (failing : List ℕ)
      → Tracks failing s.app
      → Tracks
          (failing_after
            (effective_engine_workers windows s.app)
            (event_of v)
            (worker_of v)
            failing)
          (handle J redact is_hashing windows (kind_of (event_of v)) v now s).app
  unfolding handle kind_of kinds find_kind str_eq number
  handled v now s failing t = sorted (sort_event (event_of v))
    where
      After : Option Str → Type 0
      After o =
          Tracks (failing_after (effective_engine_workers windows s.app) o (worker_of v) failing)
            (handle J redact is_hashing windows (kind_of o) v now s).app

      sorted : ErrorChange (event_of v) → After (event_of v)
      sorted (errs e) =
          subst After (sym e)
            (failed-Tracks J redact is_hashing windows v (worker_of v) failing s.app t)
      sorted (readies e) =
          subst After (sym e)
            (ready-Tracks J redact is_hashing windows (worker_of v) failing s.app t)
      sorted (recovers e) =
          subst After (sym e)
            (ready-Tracks J redact is_hashing windows (worker_of v) failing s.app t)
      sorted (others same quiet) =
          subst
            (λ fs.
              Tracks fs (handle J redact is_hashing windows (kind_of (event_of v)) v now s).app)
            (sym (same (effective_engine_workers windows s.app) (worker_of v) failing))
            (handle-Tracks J redact is_hashing windows (kind_of (event_of v)) v now failing s quiet
              t)

  fatal-seen :
      (v : Value) (now : ℕ) (s : Screen)
      → is_named (event_of v) (codes "engine_fatal") ≡ true
      → (handle J redact is_hashing windows (kind_of (event_of v)) v now s).app.engine_fatal_seen
        ≡ true
  unfolding handle die
  fatal-seen v now s e =
      subst (λ k. (handle J redact is_hashing windows k v now s).app.engine_fatal_seen ≡ true)
        (sym (fatal_told (event_of v) e)) refl

  limit_eq :
      (a : App)
      → effective_engine_workers windows a
        ≡ (if windows && a.single_worker_recovery then 1 else a.workers)
  unfolding effective_engine_workers
  limit_eq a = refl

  or_fatal :
      (fatal told : Bool) {A : Type 0}
      → (fatal ≡ true → A)
      → (told ≡ true → A)
      → (fatal || told) ≡ true
      → A
  or_fatal true told f g e = f refl
  or_fatal false told f g e = g e

  step-Agrees :
      (v : Value) (now : ℕ) (s : Screen) (failing : List ℕ) (fatal : Bool)
      → Agrees failing fatal s.app
      → Agrees
          (heard s v failing)
          (fatal || is_named (event_of v) (codes "engine_fatal"))
          (apply_telemetry J redact is_hashing windows v now s).app
  unfolding apply_telemetry text Agrees effective_engine_workers
  step-Agrees v now s failing fatal (h, tracks, seen) =
      settled s.app.engine_fatal_seen s.app.requested_stop (is_fatal kind) refl refl refl
    where
      kind : Kind
      kind = kind_of (event_of v)

      after : Screen
      after = handle J redact is_hashing windows kind v now s

      noted : List ℕ
      noted =
          failing_after (effective_engine_workers windows s.app) (event_of v) (worker_of v) failing

      alive_tracks :
          (s.app.engine_fatal_seen ≡ true) ⊎ Tracks failing s.app
          → s.app.engine_fatal_seen ≡ false
          → Tracks failing s.app
      alive_tracks (inl dead) alive = cc (dead, alive)
      alive_tracks (inr t) alive = t

      told : Bool
      told = is_named (event_of v) (codes "engine_fatal")

      still : s.app.engine_fatal_seen ≡ false → fatal ≡ true → after.app.engine_fatal_seen ≡ true
      still alive e = cc (seen e, alive)

      settled :
          (dead stopped deadly : Bool)
          → s.app.engine_fatal_seen ≡ dead
          → s.app.requested_stop ≡ stopped
          → is_fatal kind ≡ deadly
          → Agrees
              (if stopped then failing else noted)
              (fatal || told)
              (if dead || (stopped && not deadly) then s else after).app
      settled true true deadly d p q = (h, inl d, λ e. d)
      settled true false deadly d p q = (h, inl d, λ e. d)
      settled false true false d p q = (
        h,
        tracks,
        or_fatal fatal told seen
            (λ e. cc (ap is_fatal (fatal_told (event_of v) e), q, fatal_is_fatal)),
      )
      settled false true true d p q = (
        handle-Honest J redact is_hashing windows kind v now s h,
        inr (
            handle-Tracks J redact is_hashing windows kind v now failing s (fatal_quiet kind q)
              (alive_tracks tracks d)),
        or_fatal fatal told (still d) (fatal-seen v now s),
      )
      settled false false deadly d p q = (
        handle-Honest J redact is_hashing windows kind v now s h,
        inr (handled v now s failing (alive_tracks tracks d)),
        or_fatal fatal told (still d) (fatal-seen v now s),
      )

  apply_all-Agrees :
      (events : List (Value × ℕ)) (s : Screen) (failing : List ℕ) (fatal : Bool)
      → Agrees failing fatal s.app
      → Agrees (heard_all events s failing) (any_fatal events fatal) (apply_all events s).app
  apply_all-Agrees [] s failing fatal a = a
  apply_all-Agrees ((v, now) ∷ events) s failing fatal a =
      apply_all-Agrees events (apply_telemetry J redact is_hashing windows v now s)
        (heard s v failing) (fatal || is_named (event_of v) (codes "engine_fatal"))
        (step-Agrees v now s failing fatal a)

  -- Whatever events the engine sends, in whatever order, when the window says that it mines, then
  -- every error of a worker that the engine has, told before the operator asked for a stop, has been
  -- resolved by a later event that the worker recovered or is ready, and no fatal error was told; it
  -- keeps no error of a worker then, and no fatal error. So it is for a window that says before the
  -- first event that it mines only if it keeps no such error.
  pub apply_all-Honest :
      (events : List (Value × ℕ)) (s : Screen)
      → Honest s.app
      → let a = (apply_all events s).app in
        Honest a
        × (is_mining a.phase ≡ true
            → (heard_all events s [] ≡ []) × (any_fatal events false ≡ false))
  unfolding Agrees
  apply_all-Honest events s h =
      let (honest, tracks, seen) = apply_all-Agrees events s [] false (h, inr tt, λ e. cc e) in
      (
        honest,
        λ mining.
            mined _ (heard_all events s []) (any_fatal events false) honest tracks seen mining,
      )
