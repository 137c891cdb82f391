-- ===== src/Window/Telemetry/Events.antt =====
-- src/gui.rs, `apply_telemetry`: the handler of each event.
pub mod Tracked
pub mod Settled
pub mod Named
pub mod Truthful
use xus_miner.Common.{
  ℕ, suc, ◌+◌, ◌-◌, Bool, true, false, ◌&&◌, ◌||◌, not, List, [], ◌∷◌, ◌++◌, Option, none, some,
  ltb, leb, ◌==◌, if◌then◌else◌, length, drop, Str, str_eq, codes, is_some, is_empty, ◌>>=◌,
  filter_by,
}
use xus_miner.Common.BTree.{insert}
use xus_miner.Common.Json.{Json}
use xus_miner.Window.Flow.{BlockFlowView, from_telemetry}
use xus_miner.Window.Recovery.{
  App, Phase, effective_engine_workers, mark_worker_unready, mark_worker_ready, enter_mining_phase,
  enter_connection_phase, is_mining, worker_error_line, no_errors,
}
use xus_miner.Window.Telemetry.{
  Work, Counts, Chain, Screen, Kind, kind_of, is_fatal, idle_work, clear_active_work, count_jobless,
  or_str, or_number, same_height, fail_worker, die, note_stable, lose_session, note_tip,
  note_backlog, waiting_for_work,
}

module _ (J : Json) (redact : Str → Str) (is_hashing : Json.Value J → Bool) (windows : Bool) where
  open J use {Value, field?, as_u64, as_str, is_null}

  number : Value → Str → Option ℕ
  number v name = field? v name >>= as_u64

  text : Value → Str → Option Str
  text v name = field? v name >>= as_str

  -- The message of an event, redacted, or the default.
  message_of : Str → Value → Str
  unfolding text
  message_of default v = elim (text v (codes "message")) [
    | none ↦ default
    | some message ↦ redact message
  ]

  -- `if let Some(worker) = …`.
  pub with_worker : Option ℕ → (ℕ → App → App) → App → App
  with_worker none change a = a
  with_worker (some worker) change a = change worker a

  pub worker_failed : Value → ℕ → App → App
  unfolding text fail_worker
  worker_failed v worker a =
      if ltb worker (effective_engine_workers windows a)
      then fail_worker worker
          (redact (or_str (text v (codes "message")) (codes "proof-of-work worker failed"))) a
      else a

  show_job : Value → ℕ → Work → Work
  unfolding number text same_height or_str
  show_job v now w =
      let next = number v (codes "height") in
      let moved = is_some next && not (same_height next w.height) in
      record {
        height = next;
        algorithm = or_str (text v (codes "algorithm")) (codes "unknown");
        job_id = or_str (text v (codes "job_id")) (codes "unknown");
        job_observed_in_metrics = false;
        jobless_metrics_seen = 0;
        coinbase = filter_by (λ account. not (is_empty account)) (text v (codes "coinbase"));
        round_hashes = if moved then 0 else w.round_hashes;
        height_started_at = if moved then some now else w.height_started_at;
      }

  is_accepted : Option Str → Bool
  is_accepted none = false
  is_accepted (some reason) = str_eq reason (codes "accepted_block")

  is_job : Option Str → Work → Bool
  is_job none w = false
  is_job (some job_id) w = str_eq job_id w.job_id

  clear_job : Value → ℕ → Screen → Screen
  unfolding number text is_accepted is_job same_height clear_active_work
  clear_job v now s = elim (number v (codes "height")) [
    | none ↦ s
    | some height ↦
        if is_job (text v (codes "job_id")) s.work && same_height s.work.height (some height)
        then clear_active_work (record s {
          last_found_block =
              if is_accepted (text v (codes "reason"))
              then some (height, now)
              else s.last_found_block;
        })
        else s
  ]

  count_shares : Value → Counts → Counts
  unfolding number or_number
  count_shares v c = record c {
    submitted = or_number (number v (codes "submitted")) c.submitted;
    accepted = or_number (number v (codes "accepted")) c.accepted;
    rejected = or_number (number v (codes "rejected")) c.rejected;
  }

  is_explicit_null : Option Value → Bool
  is_explicit_null none = false
  is_explicit_null (some v) = is_null v

  has_job : Work → Bool
  has_job w = not (str_eq w.job_id waiting_for_work)

  -- The height of a sample confirms the work, or two samples without one clear it.
  confirm_work : Value → Screen → Screen
  unfolding number has_job is_explicit_null same_height count_jobless clear_active_work
  confirm_work v s = elim (number v (codes "height")) [
    | some height ↦
        if same_height s.work.height (some height) && has_job s.work
        then record s {
          work = record s.work { job_observed_in_metrics = true; jobless_metrics_seen = 0 };
        }
        else s
    | none ↦
        let seen = count_jobless s.work.jobless_metrics_seen in
        let counted = record s { work = record s.work { jobless_metrics_seen = seen } } in
        if is_explicit_null (field? v (codes "height")) && has_job s.work
        then (if s.work.job_observed_in_metrics || leb 2 seen
            then clear_active_work counted
            else counted)
        else s
  ]

  show_round : Value → Work → Work
  unfolding number same_height or_number
  show_round v w =
      let height = number v (codes "height") in
      if same_height (number v (codes "round_height")) height && same_height height w.height
      then record w { round_hashes = or_number (number v (codes "round_hashes")) w.round_hashes }
      else w

  first_height : Value → Work → Work
  unfolding number
  first_height v w = elim w.height [
    | none ↦ record w { height = number v (codes "height") }
    | some height ↦ w
  ]

  -- The counts of a sample, its height if there was none, and what it says of the work.
  sampled : Value → Screen → Screen
  unfolding number or_number count_shares first_height
  sampled v s = record s {
    counts = record (count_shares v s.counts) {
      total_hashes = or_number (number v (codes "total_hashes")) s.counts.total_hashes;
    };
    work = first_height v s.work;
  }

  is_stable : Value → Screen → Bool
  is_stable v s =
      is_hashing v
      && s.node_link_live
      && no_errors s.app.worker_errors
      && s.app.ready_workers == effective_engine_workers windows s.app

  apply_metrics : Value → ℕ → Screen → Screen
  unfolding number sampled is_stable confirm_work show_round note_stable
  apply_metrics v now s =
      let confirmed = confirm_work v (sampled v s) in
      record confirmed {
        work = show_round v confirmed.work;
        chain = record s.chain {
          mempool_size = number v (codes "mempool_size");
          peer_count = number v (codes "peer_count");
        };
        app = note_stable now (is_stable v confirmed) confirmed.app;
      }

  end_session : Value → Screen → Screen
  unfolding idle_work lose_session message_of
  end_session v s = record s {
    node_link_live = false;
    work = idle_work;
    app = lose_session (message_of (codes "Pool session ended.") v) s.app;
    chain = record s.chain {
      mempool_size = none;
      peer_count = none;
      block_flow = none;
      observed_tip_height = none;
      tip_observed_at = none;
      backlog_history = [];
    };
  }

  -- The `match` on the event.
  pub handle : Kind → Value → ℕ → Screen → Screen
  unfolding with_worker worker_failed show_job clear_job count_shares apply_metrics end_session die
      message_of idle_work note_tip note_backlog number text
  handle Kind.startup v now s = record s {
    node_link_live = false;
    app = enter_connection_phase Phase.connecting s.app;
  }
  handle Kind.connecting v now s = record s {
    node_link_live = false;
    app = enter_connection_phase Phase.connecting s.app;
  }
  handle Kind.pool_connected v now s = record s {
    app = enter_connection_phase Phase.authenticating s.app;
  }
  handle Kind.node_connected v now s = record s {
    node_link_live = true;
    app = enter_mining_phase s.app;
  }
  handle Kind.worker_initializing v now s = record s {
    app = with_worker (number v (codes "worker")) mark_worker_unready s.app;
  }
  handle Kind.worker_ready v now s = record s {
    app = with_worker (number v (codes "worker")) (λ w a. (mark_worker_ready windows w a).0) s.app;
  }
  handle Kind.worker_recovered v now s = record s {
    app = with_worker (number v (codes "worker")) (λ w a. (mark_worker_ready windows w a).0) s.app;
  }
  handle Kind.worker_error v now s = record s {
    app = with_worker (number v (codes "worker")) (worker_failed v) s.app;
  }
  handle Kind.engine_fatal v now s = record s {
    node_link_live = false;
    work = idle_work;
    app =
        die (message_of (codes "Mining engine reported a fatal error.") v)
          (record s.app { stable_hashing_since = none });
  }
  handle Kind.job v now s = record s {
    node_link_live = true;
    app = enter_mining_phase s.app;
    work = show_job v now s.work;
  }
  handle Kind.job_cleared v now s = clear_job v now s
  handle Kind.network v now s = record s {
    chain = record s.chain {
      target_block_ms = number v (codes "target_block_ms");
      network_difficulty = text v (codes "difficulty");
    };
  }
  handle Kind.peers v now s = record s {
    chain = record s.chain { peer_count = number v (codes "count") };
  }
  handle Kind.block_flow v now s =
      let flow = from_telemetry J v in
      record s {
        chain = record (note_backlog now flow (note_tip now flow.tip_height s.chain)) {
          block_flow = some flow;
        };
      }
  handle Kind.metrics v now s = apply_metrics v now s
  handle Kind.share v now s = record s { counts = count_shares v s.counts }
  handle Kind.session_error v now s = end_session v s
  handle Kind.logged_only v now s = s

  -- A fatal event is the last one that counts; after a requested stop only a fatal one does.
  pub apply_telemetry : Value → ℕ → Screen → Screen
  unfolding kind_of is_fatal handle text
  apply_telemetry v now s =
      let kind = kind_of (text v (codes "event")) in
      if s.app.engine_fatal_seen || (s.app.requested_stop && not (is_fatal kind))
      then s
      else handle kind v now s
