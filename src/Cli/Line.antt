-- ===== src/Cli/Line.antt =====
-- src/main.rs: how the command line that the window writes is read, part by part.
use xus_miner.Common.{
  ℕ, Bool, true, false, ◌||◌, not, List, [], ◌∷◌, ◌++◌, some, ◌≡◌, refl, any, keep, take, Str,
  str_eq, codes, is_empty, trim, byte_len, ok, arith, inl, inr, Bool-cases, ◌≤◌, is_digit, ◌==◌,
  u64_max,
}
use xus_miner.Common.Chars.{from_utf8}
use xus_miner.Cli.{
  Config, parse_args_from, read_args, contains, is_own_flag, read_password, default, flag_of,
  parse_bounded, read_last, read_value, takes_value, flags, find_flag,
}
use xus_miner.Feed.{decimal}
use xus_miner.Feed.Decimal.{parse_u64-decimal, starts_digit}
use xus_miner.Window.Launch.{if_set}

-- An argument that `main` would not take for one of its flags.
unfoldable pub is_plain : Str → Bool
is_plain arg = not (is_own_flag arg || str_eq arg (codes "--gui"))

module _ (pool user workers reconnect report : Str) (light confirmed : Bool) where
  unfoldable pub options : List Str
  options =
      codes "--pool"
      ∷ pool
      ∷ codes "--user"
      ∷ user
      ∷ codes "--workers"
      ∷ workers
      ∷ codes "--reconnect-secs"
      ∷ reconnect
      ∷ codes "--report-secs"
      ∷ report
      ∷ if_set light (codes "--randomx-light")

  unfoldable pub line : List Str
  line =
      codes "--headless"
        ∷ codes "--json-events"
        ∷ codes "--parent-pipe-watchdog"
        ∷ codes "--password-stdin"
        ∷ options
      ++ if_set confirmed (codes "--confirm-randomx-memory")

plain_own : (arg : Str) → is_plain arg ≡ true → is_own_flag arg ≡ false
unfolding is_plain
plain_own arg h = ground arith

plain_gui : (arg : Str) → is_plain arg ≡ true → str_eq arg (codes "--gui") ≡ false
unfolding is_plain
plain_gui arg h = ground arith

plain_confirm :
    (arg : Str) → is_plain arg ≡ true → str_eq arg (codes "--confirm-randomx-memory") ≡ false
unfolding is_plain is_own_flag
plain_confirm arg h = ground arith

pub digit-IsPlain : (s : Str) → starts_digit s ≡ true → is_plain s ≡ true
unfolding is_plain is_own_flag starts_digit is_digit str_eq
digit-IsPlain [] h = cc
digit-IsPlain (c ∷ s) h = elim (Bool-cases (c == b'-')) [
  | inl dash ↦ ground arith
  | inr other ↦ rw other refl
]

flags_behind : Bool → Bool → List Str
flags_behind light confirmed =
    if_set light (codes "--randomx-light") ++ if_set confirmed (codes "--confirm-randomx-memory")

tail_kept :
    (light confirmed : Bool)
    → keep (λ arg. not (is_own_flag arg)) (flags_behind light confirmed)
      ≡ if_set light (codes "--randomx-light")
unfolding is_own_flag str_eq if_set flags_behind
tail_kept false false = refl
tail_kept false true = refl
tail_kept true false = refl
tail_kept true true = refl

tail_gui :
    (light confirmed : Bool)
    → any (λ arg. str_eq arg (codes "--gui")) (flags_behind light confirmed) ≡ false
unfolding str_eq if_set flags_behind
tail_gui false false = refl
tail_gui false true = refl
tail_gui true false = refl
tail_gui true true = refl

tail_confirmed :
    (light confirmed : Bool)
    → any (λ arg. str_eq arg (codes "--confirm-randomx-memory")) (flags_behind light confirmed)
      ≡ confirmed
unfolding str_eq if_set flags_behind
tail_confirmed false false = refl
tail_confirmed false true = refl
tail_confirmed true false = refl
tail_confirmed true true = refl

module _ (pool user workers reconnect report : Str) (light confirmed : Bool)
    (pool_plain : is_plain pool ≡ true) (user_plain : is_plain user ≡ true)
    (workers_plain : is_plain workers ≡ true) (reconnect_plain : is_plain reconnect ≡ true)
    (report_plain : is_plain report ≡ true) where
  pub line_kept :
      keep (λ arg. not (is_own_flag arg)) (line pool user workers reconnect report light confirmed)
      ≡ options pool user workers reconnect report light false
  unfolding line options flags_behind is_own_flag str_eq
  line_kept =
      rw
        (
          plain_own pool pool_plain,
          plain_own user user_plain,
          plain_own workers workers_plain,
          plain_own reconnect reconnect_plain,
          plain_own report report_plain,
          tail_kept light confirmed,
        )
        refl

  pub line_json :
      contains (codes "--json-events") (line pool user workers reconnect report light confirmed)
      ≡ true
  unfolding line options flags_behind contains str_eq
  line_json = refl

  pub line_watchdog :
      contains
        (codes "--parent-pipe-watchdog")
        (line pool user workers reconnect report light confirmed)
      ≡ true
  unfolding line options flags_behind contains str_eq
  line_watchdog = refl

  pub line_password :
      contains (codes "--password-stdin") (line pool user workers reconnect report light confirmed)
      ≡ true
  unfolding line options flags_behind contains str_eq
  line_password = refl

  pub line_gui :
      contains (codes "--gui") (line pool user workers reconnect report light confirmed) ≡ false
  unfolding line options flags_behind contains str_eq
  line_gui =
      rw
        (
          plain_gui pool pool_plain,
          plain_gui user user_plain,
          plain_gui workers workers_plain,
          plain_gui reconnect reconnect_plain,
          plain_gui report report_plain,
        )
        (tail_gui light confirmed)

  pub line_confirmed :
      contains
        (codes "--confirm-randomx-memory")
        (line pool user workers reconnect report light confirmed)
      ≡ confirmed
  unfolding line options flags_behind contains str_eq
  line_confirmed =
      rw
        (
          plain_confirm pool pool_plain,
          plain_confirm user user_plain,
          plain_confirm workers workers_plain,
          plain_confirm reconnect reconnect_plain,
          plain_confirm report report_plain,
        )
        (tail_confirmed light confirmed)

parse-decimal :
    (lo hi n : ℕ) → lo ≤ n → n ≤ hi → hi ≤ u64_max → parse_bounded lo hi (decimal n) ≡ ok n
unfolding parse_bounded
parse-decimal lo hi n above below fits = rw (parse_u64-decimal n (omega arith)) (ground arith)

-- What the engine is to be configured with.
module _ (pool user : Str) (workers reconnect report : ℕ) (light : Bool) where
  unfoldable pub wanted : Config
  wanted = record {
    pool = pool;
    user = user;
    password = codes "x";
    workers = workers;
    reconnect_secs = reconnect;
    report_secs = report;
    randomx_light = light;
  }

  read_light :
      (given : Bool)
      → read_args (if_set given (codes "--randomx-light")) (record wanted { randomx_light = false })
        ≡ ok (record wanted { randomx_light = given })
  unfolding if_set read_args read_last flag_of flags find_flag str_eq
  read_light false = refl
  read_light true = refl

  read-options :
      1 ≤ workers
      → workers ≤ 64
      → 1 ≤ reconnect
      → reconnect ≤ 3600
      → 1 ≤ report
      → report ≤ 3600
      → read_args
          (options pool user (decimal workers) (decimal reconnect) (decimal report) light false)
          default
        ≡ ok wanted
  unfolding options if_set read_args read_value read_last takes_value flag_of flags find_flag str_eq
      wanted default
  read-options a b c d e f =
      rw
        (
          parse-decimal 1 64 workers a b (omega arith),
          parse-decimal 1 3600 reconnect c d (omega arith),
          parse-decimal 1 3600 report e f (omega arith),
        )
        (read_light light)

  pub parse-options :
      1 ≤ workers
      → workers ≤ 64
      → 1 ≤ reconnect
      → reconnect ≤ 3600
      → 1 ≤ report
      → report ≤ 3600
      → is_empty (trim pool) ≡ false
      → is_empty (trim user) ≡ false
      → parse_args_from
          (options pool user (decimal workers) (decimal reconnect) (decimal report) light false)
        ≡ ok wanted
  unfolding parse_args_from wanted
  parse-options a b c d e f named labelled = rw (read-options a b c d e f, named, labelled) refl

-- `Stdin`: what the window writes to the engine's input, which the engine reads as the password.
pub read_password-eq :
    (stdin : List ℕ) (password : Str)
    → from_utf8 (take 4097 stdin) ≡ some password
    → byte_len password ≤ 4096
    → read_password stdin ≡ ok password
unfolding read_password
read_password-eq stdin password decoded short = rw decoded (ground arith)
