-- ===== src/Cli.antt =====
-- src/main.rs, `parse_args_from` and the start of `main`: the command line. Where the program prints
-- and exits, the model stops. The first argument of `main` is what follows the program's name, and
-- the standard input is its bytes, of which an error of the reading is not modelled.

pub mod Line
pub mod Launch
use xus_miner.Common.{
  ℕ, Bool, true, false, ◌&&◌, ◌||◌, not, List, [], ◌∷◌, Option, none, some, ltb, leb, if◌then◌else◌,
  any, keep, take, Str, str_eq, codes, is_empty, trim, byte_len, parse_u64, Result, ok, err, ok_or,
  ensure,
}
use xus_miner.Common.Try.{◌>>=◌, ◌>>◌}
use xus_miner.Common.Chars.{from_utf8}

pub record Config : Type 0 where
  pub pool : Str
  pub user : Str
  pub password : Str
  pub workers : ℕ
  pub reconnect_secs : ℕ
  pub report_secs : ℕ
  pub randomx_light : Bool

-- `Config::default()`.
unfoldable pub default : Config
default = record {
  pool = codes "127.0.0.1:3333";
  user = codes "xus-miner";
  password = codes "x";
  workers = 1;
  reconnect_secs = 5;
  report_secs = 10;
  randomx_light = false;
}

-- Where the program exits.
pub data Exit : Type 0 where
  help version requires_value expects_integer out_of_range unknown_option empty_name : Exit
  bad_stdin long_password : Exit

-- `parse_u64` of the command line.
unfoldable pub parse_bounded : (min max : ℕ) → Str → Result Exit ℕ
parse_bounded min max raw = do
  parsed ← ok_or (parse_u64 raw) Exit.expects_integer
  ensure (leb min parsed && leb parsed max) Exit.out_of_range
  ok parsed

pub data Flag : Type 0 where
  pool user password workers randomx_light reconnect_secs report_secs help version other : Flag

unfoldable pub flags : List (Str × Flag)
flags =
    (codes "--pool", Flag.pool)
    ∷ (codes "--user", Flag.user)
    ∷ (codes "--password", Flag.password)
    ∷ (codes "--workers", Flag.workers)
    ∷ (codes "--randomx-light", Flag.randomx_light)
    ∷ (codes "--reconnect-secs", Flag.reconnect_secs)
    ∷ (codes "--report-secs", Flag.report_secs)
    ∷ (codes "--help", Flag.help)
    ∷ (codes "-h", Flag.help)
    ∷ (codes "--version", Flag.version)
    ∷ (codes "-V", Flag.version)
    ∷ []

unfoldable pub find_flag : List (Str × Flag) → Str → Flag
find_flag [] arg = Flag.other
find_flag ((name, flag) ∷ rest) arg =
    let found = find_flag rest arg in if str_eq name arg then flag else found

unfoldable pub flag_of : Str → Flag
unfolding flags find_flag
flag_of arg = find_flag flags arg

-- A flag at the end of the line.
unfoldable pub read_last : Flag → Config → Result Exit Config
read_last Flag.randomx_light cfg = ok (record cfg { randomx_light = true })
read_last Flag.help cfg = err Exit.help
read_last Flag.version cfg = err Exit.version
read_last Flag.other cfg = err Exit.unknown_option
read_last _ cfg = err Exit.requires_value

-- A flag and its value.
unfoldable pub read_value : Flag → Str → Config → Result Exit Config
unfolding parse_bounded
read_value Flag.pool value cfg = ok (record cfg { pool = value })
read_value Flag.user value cfg = ok (record cfg { user = value })
read_value Flag.password value cfg = ok (record cfg { password = value })
read_value Flag.workers value cfg = do n ← parse_bounded 1 64 value; ok (record cfg { workers = n })
read_value Flag.reconnect_secs value cfg = do
  n ← parse_bounded 1 3600 value
  ok (record cfg { reconnect_secs = n })
read_value Flag.report_secs value cfg = do
  n ← parse_bounded 1 3600 value
  ok (record cfg { report_secs = n })
read_value flag value cfg = read_last flag cfg

unfoldable pub takes_value : Flag → Bool
takes_value Flag.randomx_light = false
takes_value _ = true

-- The loop over the arguments.
unfoldable pub read_args : List Str → Config → Result Exit Config
unfolding flag_of read_last read_value takes_value
read_args [] cfg = ok cfg
read_args (arg ∷ []) cfg = read_last (flag_of arg) cfg
read_args (arg ∷ value ∷ rest) cfg = elim (takes_value (flag_of arg)) [
  | true ↦ read_value (flag_of arg) value cfg >>= read_args rest
  | false ↦ read_last (flag_of arg) cfg >>= read_args (value ∷ rest)
]

unfoldable pub parse_args_from : List Str → Result Exit Config
unfolding default read_args
parse_args_from args = do
  cfg ← read_args args default
  ensure (not (is_empty (trim cfg.pool) || is_empty (trim cfg.user))) Exit.empty_name
  ok cfg

-- What `main` starts.
pub data Start : Type 0 where
  gui : Start
  headless :
      (cfg : Config) (json_events parent_pipe_watchdog unavailable_scan_confirmed : Bool) → Start

unfoldable pub contains : Str → List Str → Bool
contains name args = any (λ arg. str_eq arg name) args

-- The flags that `main` reads itself.
unfoldable pub is_own_flag : Str → Bool
is_own_flag arg =
    str_eq arg (codes "--headless")
    || str_eq arg (codes "--json-events")
    || str_eq arg (codes "--password-stdin")
    || str_eq arg (codes "--parent-pipe-watchdog")
    || str_eq arg (codes "--confirm-randomx-memory")

unfoldable pub read_password : List ℕ → Result Exit Str
read_password stdin = do
  given ← ok_or (from_utf8 (take 4097 stdin)) Exit.bad_stdin
  ensure (leb (byte_len given) 4096) Exit.long_password
  ok given

unfoldable pub set_password : Bool → List ℕ → Config → Result Exit Config
unfolding read_password
set_password false stdin cfg = ok cfg
set_password true stdin cfg = do given ← read_password stdin; ok (record cfg { password = given })

unfoldable pub main : List Str → List ℕ → Result Exit Start
unfolding contains is_own_flag set_password parse_args_from
main [] stdin = ok gui
main (arg ∷ args) stdin =
    let raw = arg ∷ args in
    if contains (codes "--gui") raw then ok gui else (do
      parsed ← parse_args_from (keep (λ arg. not (is_own_flag arg)) raw)
      cfg ← set_password (contains (codes "--password-stdin") raw) stdin parsed
      ok (
          headless cfg (contains (codes "--json-events") raw)
            (contains (codes "--parent-pipe-watchdog") raw)
            (contains (codes "--confirm-randomx-memory") raw)))
