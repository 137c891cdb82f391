-- ===== src/Window.antt =====
-- src/gui.rs: what the window decides, apart from its drawing. `Settings` is what the operator may
-- set, with its validation before the engine is started.
pub mod Usable
pub mod Text
pub mod Child
pub mod Flow
pub mod Recovery
pub mod Launch
pub mod Telemetry
use xus_miner.Common.{
  ℕ, min, max, Bool, true, false, ◌&&◌, ◌||◌, not, List, [], ◌∷◌, Option, none, some, ltb, leb,
  ◌==◌, if◌then◌else◌, any, Str, str_eq, codes, trim, is_empty, is_some, byte_len, is_whitespace,
  or_else, Result, ok, err, ok_or, ensure,
}
use xus_miner.Common
use xus_miner.Common.Try.{◌>>=◌, ◌>>◌}
use xus_miner.Common.Chars.{strip_prefix, rsplit_once, trim_end_matches, parse_u16}
use xus_miner.Common.Json.{Json}

pub data RewardRoute : Type 0 where
  owned_bridge external_pool : RewardRoute

pub record Settings : Type 0 where
  pub reward_route : RewardRoute
  pub pool : Str
  pub user : Str
  pub password : Str
  pub workers : ℕ
  pub reconnect_secs : ℕ
  pub report_secs : ℕ

-- `Settings::default()`.
unfoldable pub default : Settings
default = record {
  reward_route = RewardRoute.owned_bridge;
  pool = codes "127.0.0.1:3333";
  user = codes "xus-miner";
  password = codes "x";
  workers = 1;
  reconnect_secs = 5;
  report_secs = 2;
}

-- `u64::clamp`.
clamp : ℕ → ℕ → ℕ → ℕ
clamp lo hi n = max lo (min n hi)

-- `if let Some(value) = …`: a field that is missing leaves the settings alone.
set_if : {A : Type 0} → Option A → (A → Settings → Settings) → Settings → Settings
set_if none change s = s
set_if (some a) change s = change a s

set_workers : ℕ → Settings → Settings
unfolding clamp
set_workers workers s = record s { workers = clamp 1 64 workers }

set_reconnect : ℕ → Settings → Settings
unfolding clamp
set_reconnect seconds s = record s { reconnect_secs = clamp 1 3600 seconds }

set_report : ℕ → Settings → Settings
unfolding clamp
set_report seconds s = record s { report_secs = clamp 1 3600 seconds }

-- `contains(':')` and the like.
abbrev contains : ℕ → Str → Bool
contains c s = any (λ d. d == c) s

module _ (J : Json) where
  open J use {Value, field?, as_str, as_u64}

  read_route : Value → Settings → Settings
  read_route v s = elim (Common.◌>>=◌ (field? v (codes "reward_route")) as_str) [
    | none ↦ s
    | some route ↦
        if str_eq route (codes "external_pool")
        then record s { reward_route = RewardRoute.external_pool }
        else s
  ]

  read_str : Str → Value → Option Str
  read_str name v = Common.◌>>=◌ (field? v name) as_str

  read_u64 : Str → Value → Option ℕ
  read_u64 name v = Common.◌>>=◌ (field? v name) as_u64

  -- `Settings::from_json`: the fields in their order.
  read_strs : Value → Settings
  unfolding set_if read_route read_str
  read_strs v =
      set_if (read_str (codes "user") v) (λ user s. record s { user = user })
        (set_if (read_str (codes "pool") v) (λ pool s. record s { pool = pool })
          (read_route v default))

  unfoldable pub from_json : Value → Settings
  unfolding set_if read_strs read_u64 set_workers set_reconnect set_report
  from_json v = set_if (read_u64 (codes "report_secs") v) set_report (
      set_if (read_u64 (codes "reconnect_secs") v) set_reconnect
        (set_if (read_u64 (codes "workers") v) set_workers (read_strs v)))

pub data SettingsError : Type 0 where
  not_an_endpoint credentials no_port empty_host bad_port zero_port : SettingsError
  empty_user long_user line_break long_password bad_workers : SettingsError

or_whole : Option Str → Str → Str
or_whole none s = s
or_whole (some rest) s = rest

-- The endpoint without its scheme.
pub endpoint_of : Str → Str
unfolding or_whole
endpoint_of raw =
    let s = trim raw in
    or_whole
      (or_else (strip_prefix (codes "stratum+tcp://") s) (
        or_else (strip_prefix (codes "tcp://") s)
          (or_else (strip_prefix (codes "rpc://") s) (strip_prefix (codes "http://") s))))
      s

unfoldable pub validate_pool : Str → Result SettingsError (Unit {0})
unfolding endpoint_of
validate_pool raw = do
  let address = endpoint_of raw
  ensure (not (is_empty address || any is_whitespace address)) SettingsError.not_an_endpoint
  ensure (not (contains b'@' address)) SettingsError.credentials
  parts ← ok_or (rsplit_once b':' address) SettingsError.no_port
  ensure (not (is_empty parts.0)) SettingsError.empty_host
  port ← ok_or (parse_u16 parts.1) SettingsError.bad_port
  ensure (not (port == 0)) SettingsError.zero_port
  ok tt

-- `Settings::validate`.
unfoldable pub validate : Settings → Result SettingsError (Unit {0})
unfolding validate_pool
validate s = do
  validate_pool s.pool
  ensure (not (is_empty (trim s.user))) SettingsError.empty_user
  ensure (leb (byte_len s.user) 256) SettingsError.long_user
  ensure (not (contains 10 s.password || contains 13 s.password)) SettingsError.line_break
  ensure (leb (byte_len s.password) 4096) SettingsError.long_password
  ensure (leb 1 s.workers && leb s.workers 64) SettingsError.bad_workers
  ok tt

is_node_port : Option (Str × Str) → Bool
is_node_port none = false
is_node_port (some (host, port)) = str_eq port (codes "8645")

pub is_direct_node_endpoint : Str → Bool
unfolding is_node_port
is_direct_node_endpoint raw =
    let s = trim raw in
    is_some (strip_prefix (codes "rpc://") s)
    || is_some (strip_prefix (codes "http://") s)
    || is_some (strip_prefix (codes "https://") s)
    || is_node_port (rsplit_once b':' (trim_end_matches b'/' s))
