-- ===== src/Window/Usable.antt =====
-- src/gui.rs, `Settings`: what passes the validation, and what the settings file can set.
use mathlib.Core.Path.{subst}
use xus_miner.Common.{
  Option-cases, Bool-cases, inl, inr, some_inj, parse_u64, codes, str_eq, if◌then◌else◌,
}
use xus_miner.Common.{
  ℕ, ◌+◌, ◌≤◌, min, max, ◌≡◌, ◌≢◌, refl, sym, Bool, true, false, ◌&&◌, ◌||◌, not, List, [], ◌∷◌,
  ◌++◌, Option, none, some, leb, ◌==◌, any, Str, trim, is_empty, byte_len, is_whitespace, Result,
  ok, ok_or, ensure, arith, leb→le, &&_iff,
}
use xus_miner.Common
use xus_miner.Common.Try.{>>=-eq-ok, after_ensure, after_ok_or}
use xus_miner.Common.Chars.{rsplit_once, parse_u16, strip_prefix}
use xus_miner.Common.Json.{Json}
use xus_miner.Window.{
  read_strs, read_str, read_u64, set_workers, set_reconnect, set_report, RewardRoute, Settings,
  default, clamp, set_if, contains, or_whole, read_route, from_json, endpoint_of, validate_pool,
  validate,
}

-- The endpoint is a host and a port, without credentials.
pub record IsEndpoint (raw : Str) : Type 0 where
  pub host : Str
  pub port_text : Str
  pub port : ℕ
  pub splits : rsplit_once b':' (endpoint_of raw) ≡ some (host, port_text)
  pub named : is_empty host ≡ false
  pub plain : any is_whitespace (endpoint_of raw) ≡ false
  pub anonymous : contains b'@' (endpoint_of raw) ≡ false
  pub parsed : parse_u16 port_text ≡ some port
  pub open_port : 1 ≤ port
  pub in_range : port ≤ 65535

empty_nil : (s : Str) → is_empty s ≡ true → s ≡ []
unfolding is_empty
empty_nil [] h = refl
empty_nil (c ∷ s) h = cc

parse_u16_le : (s : Str) {n : ℕ} → parse_u16 s ≡ some n → n ≤ 65535
unfolding parse_u16
parse_u16_le s e = elim (Option-cases (parse_u64 s)) [
  | inl bad ↦ cc (rw (bad, parse_u16) at e)
  | inr (m, read) ↦ elim (Bool-cases (leb m 65535)) [
    | inl fits ↦
        subst (λ k. k ≤ 65535) (some_inj (rw (read, fits, parse_u16) at e)) (leb→le m 65535 fits)
    | inr long ↦ cc (rw (read, long, parse_u16) at e)
  ]
]

validate_pool-IsEndpoint : (raw : Str) {u : Unit {0}} → validate_pool raw ≡ ok u → IsEndpoint raw
unfolding validate_pool
validate_pool-IsEndpoint raw e =
    let address : Str = endpoint_of raw in
    let (plain, e₁) = after_ensure (not (is_empty address || any is_whitespace address)) _ _ e in
    let (anonymous, e₂) = after_ensure (not (contains b'@' address)) _ _ e₁ in
    let (parts, splits, e₃) = after_ok_or (rsplit_once b':' address) _ _ e₂ in
    let (named, e₄) = after_ensure (not (is_empty parts.0)) _ _ e₃ in
    let (port, parsed, e₅) = after_ok_or (parse_u16 parts.1) _ _ e₄ in
    let (nonzero, _) = after_ensure (not (port == 0)) _ _ e₅ in
    record {
      host = parts.0;
      port_text = parts.1;
      port = port;
      splits = splits;
      named = ground arith;
      plain = ground arith;
      anonymous = ground arith;
      parsed = parsed;
      open_port = ground arith;
      in_range = parse_u16_le parts.1 parsed;
    }

blank_endpoint : (raw : Str) → is_empty (trim raw) ≡ true → endpoint_of raw ≡ []
unfolding endpoint_of or_whole strip_prefix
blank_endpoint raw blank = rw (empty_nil (trim raw) blank, endpoint_of) refl

-- A pool that names an endpoint is not blank.
pub endpoint_filled : (raw : Str) → IsEndpoint raw → is_empty (trim raw) ≡ false
unfolding rsplit_once
endpoint_filled raw e = elim (Bool-cases (is_empty (trim raw))) [
  | inl blank ↦ cc (rw (blank_endpoint raw blank, rsplit_once) at e.splits)
  | inr filled ↦ filled
]

-- What the engine may be started with.
pub record IsUsable (s : Settings) : Type 0 where
  pub endpoint : IsEndpoint s.pool
  pub labelled : is_empty (trim s.user) ≡ false
  pub label_fits : byte_len s.user ≤ 256
  pub one_line : contains 10 s.password || contains 13 s.password ≡ false
  pub password_fits : byte_len s.password ≤ 4096
  pub has_worker : 1 ≤ s.workers
  pub workers_fit : s.workers ≤ 64

-- Settings that pass the validation name an endpoint of a host and a port from 1 to 65535, without
-- white space or credentials, and have a label and a password of bounded length, the password in one
-- line, and 1 to 64 workers.
pub validate-IsUsable : (s : Settings) → validate s ≡ ok tt → IsUsable s
unfolding validate
validate-IsUsable s e =
    let (_, endpoint, e₁) = >>=-eq-ok (validate_pool s.pool) _ e in
    let (labelled, e₂) = after_ensure (not (is_empty (trim s.user))) _ _ e₁ in
    let (label_fits, e₃) = after_ensure (leb (byte_len s.user) 256) _ _ e₂ in
    let (one_line, e₄) =
      after_ensure (not (contains 10 s.password || contains 13 s.password)) _ _ e₃ in
    let (password_fits, e₅) = after_ensure (leb (byte_len s.password) 4096) _ _ e₄ in
    let (staffed, _) = after_ensure (leb 1 s.workers && leb s.workers 64) _ _ e₅ in
    record {
      endpoint = validate_pool-IsEndpoint s.pool endpoint;
      labelled = ground arith;
      label_fits = leb→le (byte_len s.user) 256 label_fits;
      one_line = ground arith;
      password_fits = leb→le (byte_len s.password) 4096 password_fits;
      has_worker = ground arith;
      workers_fit = ground arith;
    }

-- Numbers that the engine's command line takes.
pub record InRange (s : Settings) : Type 0 where
  pub workers : (1 ≤ s.workers) × (s.workers ≤ 64)
  pub reconnect : (1 ≤ s.reconnect_secs) × (s.reconnect_secs ≤ 3600)
  pub report : (1 ≤ s.report_secs) × (s.report_secs ≤ 3600)

defaults : InRange default
unfolding default
defaults = record {
  workers = (omega arith, omega arith);
  reconnect = (omega arith, omega arith);
  report = (omega arith, omega arith);
}

set_if-InRange :
    {A : Type 0} (found : Option A) (change : A → Settings → Settings) (s : Settings)
    → ((a : A) → InRange s → InRange (change a s))
    → InRange s
    → InRange (set_if found change s)
unfolding set_if
set_if-InRange none change s keeps r = r
set_if-InRange (some a) change s keeps r = keeps a r

clamp-range : (hi n : ℕ) → 1 ≤ hi → (1 ≤ clamp 1 hi n) × (clamp 1 hi n ≤ hi)
unfolding clamp
clamp-range hi n le = (omega arith, omega arith)

read_strs-workers : (J : Json) (v : Json.Value J) → InRange (read_strs J v)
unfolding read_strs read_route
read_strs-workers J v =
    set_if-InRange (read_str J (codes "user") v) (λ user s. record s { user = user }) _
      (λ user r. record { workers = r.workers; reconnect = r.reconnect; report = r.report })
      (set_if-InRange (read_str J (codes "pool") v) (λ pool s. record s { pool = pool }) _
        (λ pool r. record { workers = r.workers; reconnect = r.reconnect; report = r.report })
        (routed (Common.◌>>=◌ (Json.field? J v (codes "reward_route")) (Json.as_str J))))
  where
    routed :
        (found : Option Str)
        → InRange (elim found [
          | none ↦ default
          | some route ↦
              if str_eq route (codes "external_pool")
              then record default { reward_route = RewardRoute.external_pool }
              else default
        ])
    routed none = defaults
    routed (some route) = elim (Bool-cases (str_eq route (codes "external_pool"))) [
      | inl external ↦ rw external (record {
        workers = defaults.workers;
        reconnect = defaults.reconnect;
        report = defaults.report;
      })
      | inr owned ↦ rw owned defaults
    ]

set_workers-InRange : (n : ℕ) (s : Settings) → InRange s → InRange (set_workers n s)
unfolding set_workers
set_workers-InRange n s r = record {
  workers = clamp-range 64 n (omega arith);
  reconnect = r.reconnect;
  report = r.report;
}

set_reconnect-InRange : (n : ℕ) (s : Settings) → InRange s → InRange (set_reconnect n s)
unfolding set_reconnect
set_reconnect-InRange n s r = record {
  workers = r.workers;
  reconnect = clamp-range 3600 n (omega arith);
  report = r.report;
}

set_report-InRange : (n : ℕ) (s : Settings) → InRange s → InRange (set_report n s)
unfolding set_report
set_report-InRange n s r = record {
  workers = r.workers;
  reconnect = r.reconnect;
  report = clamp-range 3600 n (omega arith);
}

-- Whatever the settings file holds, the settings that it gives have 1 to 64 workers, and delays of 1
-- to 3600 seconds.
pub from_json-InRange : (J : Json) (v : Json.Value J) → InRange (from_json J v)
unfolding from_json
from_json-InRange J v =
    let paced = set_if (read_u64 J (codes "workers") v) set_workers (read_strs J v) in
    let rested = set_if (read_u64 J (codes "reconnect_secs") v) set_reconnect paced in
    set_if-InRange (read_u64 J (codes "report_secs") v) set_report rested
      (λ n. set_report-InRange n rested)
      (set_if-InRange (read_u64 J (codes "reconnect_secs") v) set_reconnect paced
        (λ n. set_reconnect-InRange n paced)
        (set_if-InRange (read_u64 J (codes "workers") v) set_workers (read_strs J v)
          (λ n. set_workers-InRange n (read_strs J v)) (read_strs-workers J v)))
