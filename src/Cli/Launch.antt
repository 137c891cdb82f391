-- ===== src/Cli/Launch.antt =====
-- src/gui.rs, `headless_command`, and src/main.rs, `main`: the engine that the window starts.
use mathlib.Core.Path.{subst}
use xus_miner.Common.{
  if◌then◌else◌, ℕ, inl, inr, Bool-cases, Bool, true, false, ◌&&◌, not, List, some, ◌≡◌, refl, Str,
  trim, ok, take, byte_len, ◌≤◌, arith,
}
use xus_miner.Common.Chars.{from_utf8}
use xus_miner.Common.Trimmed.{trim-filled}
use xus_miner.Cli.{Config, Start, main, set_password, parse_args_from, read_password}
use xus_miner.Cli.Line.{
  is_plain, line, wanted, options, digit-IsPlain, read_password-eq, line_kept, line_gui,
  line_confirmed, line_json, line_watchdog, line_password, parse-options,
}
use xus_miner.Feed.{decimal}
use xus_miner.Feed.Decimal.{starts-decimal}
use xus_miner.Window.{Settings, validate}
use xus_miner.Window.Usable.{InRange, validate-IsUsable, endpoint_filled}
use xus_miner.Window.Recovery.{App, effective_engine_workers}
use xus_miner.Window.Launch.{headless_command, if_set}

-- The configuration that the settings ask for.
unfoldable pub asked : Bool → Settings → App → Str → Config
asked windows s a password = record {
  pool = trim s.pool;
  user = trim s.user;
  password = password;
  workers = if windows && a.single_worker_recovery then 1 else s.workers;
  reconnect_secs = s.reconnect_secs;
  report_secs = s.report_secs;
  randomx_light = a.light_randomx_recovery;
}

decimal-IsPlain : (n : ℕ) → is_plain (decimal n) ≡ true
decimal-IsPlain n = digit-IsPlain (decimal n) (starts-decimal n)

module _ (pool user : Str) (workers reconnect report : ℕ) (light confirmed : Bool)
    (pool_plain : is_plain pool ≡ true) (user_plain : is_plain user ≡ true) where
  main-line :
      (cfg : Config) (stdin : List ℕ) (password : Str)
      → parse_args_from
          (options pool user (decimal workers) (decimal reconnect) (decimal report) light false)
        ≡ ok cfg
      → read_password stdin ≡ ok password
      → main
          (line pool user (decimal workers) (decimal reconnect) (decimal report) light confirmed)
          stdin
        ≡ ok (Start.headless (record cfg { password = password }) true true confirmed)
  unfolding main line set_password
  main-line cfg stdin password parsed given =
      let w = decimal workers in
      let rc = decimal reconnect in
      let rp = decimal report in
      let wp = decimal-IsPlain workers in
      let rcp = decimal-IsPlain reconnect in
      let rpp = decimal-IsPlain report in
      rw
        (
          line_gui pool user w rc rp light confirmed pool_plain user_plain wp rcp rpp,
          line_kept pool user w rc rp light confirmed pool_plain user_plain wp rcp rpp,
          parsed,
          line_password pool user w rc rp light confirmed pool_plain user_plain wp rcp rpp,
          given,
          line_json pool user w rc rp light confirmed pool_plain user_plain wp rcp rpp,
          line_watchdog pool user w rc rp light confirmed pool_plain user_plain wp rcp rpp,
          line_confirmed pool user w rc rp light confirmed pool_plain user_plain wp rcp rpp,
        )
        refl

effective_range :
    (windows : Bool) (s : Settings) (a : App)
    → (1 ≤ s.workers) × (s.workers ≤ 64)
    → a.workers ≡ s.workers
    → (1 ≤ effective_engine_workers windows a) × (effective_engine_workers windows a ≤ 64)
unfolding effective_engine_workers
effective_range windows s a r same = elim (Bool-cases (windows && a.single_worker_recovery)) [
  | inl single ↦ rw single (omega arith, omega arith)
  | inr many ↦ rw (many, same) r
]

effective_workers :
    (windows : Bool) (s : Settings) (a : App)
    → a.workers ≡ s.workers
    → effective_engine_workers windows a
      ≡ (if windows && a.single_worker_recovery then 1 else s.workers)
unfolding effective_engine_workers
effective_workers windows s a same = elim (Bool-cases (windows && a.single_worker_recovery)) [
  | inl single ↦ rw single refl
  | inr many ↦ rw many same
]

-- When the window starts the engine with settings that pass its validation and are in the range of
-- the command line, then the engine takes the arguments, and is configured with exactly the pool, the
-- label and the times of the settings, the workers of the settings, or one worker where the recovery
-- on Windows asks for a single one, the recovery's choice of the light mode, and the password from its
-- input, provided that neither the pool nor the label is spelled like a flag that
-- `main` searches for, and the input is UTF-8 of at most 4096 bytes.
pub main-headless_command :
    (windows : Bool) (s : Settings) (a : App) (scanned acknowledged : Bool) (stdin : List ℕ)
    (password : Str)
    → validate s ≡ ok tt
    → InRange s
    → a.workers ≡ s.workers
    → is_plain (trim s.pool) ≡ true
    → is_plain (trim s.user) ≡ true
    → from_utf8 (take 4097 stdin) ≡ some password
    → byte_len password ≤ 4096
    → main (headless_command windows s a scanned acknowledged) stdin
      ≡ ok (Start.headless (asked windows s a password) true true (not scanned && acknowledged))
unfolding headless_command if_set line options asked wanted
main-headless_command windows s a scanned acknowledged stdin password valid r same pool_plain
      user_plain decoded short =
    let usable = validate-IsUsable s valid in
    let (one, fits) = effective_range windows s a r.workers same in
    let workers = effective_engine_workers windows a in
    let parsed =
      parse-options (trim s.pool) (trim s.user) workers s.reconnect_secs s.report_secs
        a.light_randomx_recovery one fits r.reconnect.0 r.reconnect.1 r.report.0 r.report.1
        (trim-filled s.pool (endpoint_filled s.pool usable.endpoint))
        (trim-filled s.user usable.labelled) in
    subst
      (λ n.
        main (headless_command windows s a scanned acknowledged) stdin
        ≡ ok (
            Start.headless (record (asked windows s a password) { workers = n }) true true
              (not scanned && acknowledged)))
      (effective_workers windows s a same)
      (main-line (trim s.pool) (trim s.user) workers s.reconnect_secs s.report_secs
        a.light_randomx_recovery (not scanned && acknowledged) pool_plain user_plain _ stdin
        password parsed (read_password-eq stdin password decoded short))
