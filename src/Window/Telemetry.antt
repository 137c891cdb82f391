-- ===== src/Window/Telemetry.antt =====
-- src/gui.rs, `apply_telemetry`: what the window makes of the engine's events. The log, the meters and
-- the other floating-point members are left out: of `hashrate` the model knows, by an argument, whether
-- it is above zero. The redaction of messages is an argument. Times are in seconds.
pub mod Events
use xus_miner.Common.{
  ℕ, suc, ◌+◌, ◌-◌, Bool, true, false, ◌&&◌, ◌||◌, not, List, [], ◌∷◌, ◌++◌, Option, none, some,
  ltb, leb, ◌==◌, if◌then◌else◌, length, drop, Str, str_eq, codes, is_some, is_empty, ◌>>=◌,
  filter_by,
}
use xus_miner.Common.BTree.{insert}
use xus_miner.Common.Json.{Json}
use xus_miner.Window.Flow.{BlockFlowView, from_telemetry}
use xus_miner.Window.Recovery.{
  App, Phase, effective_engine_workers, mark_worker_unready, mark_worker_ready, enter_mining_phase,
  enter_connection_phase, is_mining, worker_error_line, no_errors,
}

abbrev pub max_backlog_trend_samples : ℕ
max_backlog_trend_samples = 240

abbrev pub engine_stability_reset : ℕ
engine_stability_reset = 300

abbrev waiting_for_work : Str
waiting_for_work = codes "Waiting for work"

-- The work that is shown.
pub record Work : Type 0 where
  pub height : Option ℕ
  pub algorithm : Str
  pub job_id : Str
  pub job_observed_in_metrics : Bool
  pub jobless_metrics_seen : ℕ
  pub coinbase : Option Str
  pub round_hashes : ℕ
  pub height_started_at : Option ℕ

pub record Counts : Type 0 where
  pub total_hashes : ℕ
  pub submitted : ℕ
  pub accepted : ℕ
  pub rejected : ℕ

-- What is shown of the network and of the block flow.
pub record Chain : Type 0 where
  pub target_block_ms : Option ℕ
  pub network_difficulty : Option Str
  pub peer_count : Option ℕ
  pub mempool_size : Option ℕ
  pub block_flow : Option BlockFlowView
  pub observed_tip_height : Option ℕ
  pub tip_observed_at : Option ℕ
  pub backlog_history : List (ℕ × ℕ)

pub record Screen : Type 0 where
  pub app : App
  pub node_link_live : Bool
  pub work : Work
  pub counts : Counts
  pub chain : Chain
  pub last_found_block : Option (ℕ × ℕ)

pub data Kind : Type 0 where
  startup connecting pool_connected node_connected worker_initializing worker_ready : Kind
  worker_error worker_recovered engine_fatal job job_cleared network peers block_flow : Kind
  metrics share session_error logged_only : Kind

kinds : List (Str × Kind)
kinds =
    (codes "startup", Kind.startup)
    ∷ (codes "connecting", Kind.connecting)
    ∷ (codes "pool_connected", Kind.pool_connected)
    ∷ (codes "node_connected", Kind.node_connected)
    ∷ (codes "worker_initializing", Kind.worker_initializing)
    ∷ (codes "worker_ready", Kind.worker_ready)
    ∷ (codes "worker_error", Kind.worker_error)
    ∷ (codes "worker_recovered", Kind.worker_recovered)
    ∷ (codes "engine_fatal", Kind.engine_fatal)
    ∷ (codes "job", Kind.job)
    ∷ (codes "job_cleared", Kind.job_cleared)
    ∷ (codes "network", Kind.network)
    ∷ (codes "peers", Kind.peers)
    ∷ (codes "block_flow", Kind.block_flow)
    ∷ (codes "metrics", Kind.metrics)
    ∷ (codes "share", Kind.share)
    ∷ (codes "session_error", Kind.session_error)
    ∷ []

find_kind : List (Str × Kind) → Str → Kind
find_kind [] name = Kind.logged_only
find_kind ((known, kind) ∷ rest) name =
    let found = find_kind rest name in if str_eq known name then kind else found

-- The events that the window only logs, and those that it does not know, change nothing else.
pub kind_of : Option Str → Kind
unfolding kinds find_kind
kind_of none = Kind.logged_only
kind_of (some name) = find_kind kinds name

pub is_fatal : Kind → Bool
is_fatal Kind.engine_fatal = true
is_fatal _ = false

idle_work : Work
idle_work = record {
  height = none;
  algorithm = codes "—";
  job_id = waiting_for_work;
  job_observed_in_metrics = false;
  jobless_metrics_seen = 0;
  coinbase = none;
  round_hashes = 0;
  height_started_at = none;
}

-- `clear_active_work`.
clear_active_work : Screen → Screen
unfolding idle_work
clear_active_work s = record s {
  work = idle_work;
  app = record s.app { stable_hashing_since = none };
}

-- `u8::saturating_add` of one.
pub count_jobless : ℕ → ℕ
count_jobless seen = if ltb 254 seen then 255 else seen + 1

or_str : Option Str → Str → Str
or_str none default = default
or_str (some found) default = found

or_number : Option ℕ → ℕ → ℕ
or_number none default = default
or_number (some found) default = found

same_height : Option ℕ → Option ℕ → Bool
same_height none none = true
same_height (some a) (some b) = a == b
same_height _ _ = false

fail_worker : ℕ → Str → App → App
fail_worker worker message a =
    let was_mining = is_mining a.phase in
    let can = if no_errors a.worker_errors then was_mining else a.worker_error_can_restore_mining in
    let unready = mark_worker_unready worker (record a { worker_error_can_restore_mining = can }) in
    record unready {
      worker_errors = insert worker message unready.worker_errors;
      phase = Phase.error;
      last_error = worker_error_line worker message;
    }

die : Str → App → App
die message a = record a {
  engine_fatal_seen = true;
  worker_error_can_restore_mining = false;
  phase = Phase.error;
  ready_worker_ids = [];
  ready_workers = 0;
  last_error = message;
}

-- Five minutes of confirmed hashing give the restarts back.
note_stable : ℕ → Bool → App → App
note_stable now proven_stable a =
    let since = or_number a.stable_hashing_since now in
    if proven_stable
    then record a {
      stable_hashing_since = some since;
      automatic_restart_attempts =
          if ltb 0 a.automatic_restart_attempts && leb engine_stability_reset (now - since)
          then 0
          else a.automatic_restart_attempts;
    }
    else record a { stable_hashing_since = none }

lose_session : Str → App → App
lose_session message a =
    let calm = record a { worker_error_can_restore_mining = false; stable_hashing_since = none } in
    if a.engine_fatal_seen
    then calm
    else record calm { phase = Phase.reconnecting; last_error = message }

keep_last : ℕ → List (ℕ × ℕ) → List (ℕ × ℕ)
keep_last bound samples = drop (length samples - bound) samples

note_tip : ℕ → Option ℕ → Chain → Chain
note_tip now none c = c
note_tip now (some tip) c =
    if elim c.observed_tip_height [ none ↦ true | some seen ↦ ltb seen tip ]
    then record c { observed_tip_height = some tip; tip_observed_at = some now }
    else c

note_backlog : ℕ → BlockFlowView → Chain → Chain
unfolding keep_last
note_backlog now flow c = elim flow.backlog [
  | none ↦ c
  | some backlog ↦ record c {
    backlog_history =
        keep_last max_backlog_trend_samples (c.backlog_history ++ (now, backlog.tx_count) ∷ []);
  }
]
