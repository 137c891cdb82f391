-- ===== src/Examples/Window.antt =====
-- Tests of src/gui.rs: the settings, the bounds of text, the engine's output and its restarts.
use xus_miner.Common.{
  ℕ, ◌+◌, ◌≤◌, ◌≡◌, refl, true, false, List, [], ◌∷◌, none, codes, byte_len, ok, arith, trim,
  is_empty, is_whitespace, parse_u64,
}
use xus_miner.Common.Chars.{strip_prefix, rsplit_once, parse_u16}
use xus_miner.Job.{Bytes}
use xus_miner.Window.{default, validate}
use xus_miner.Window.Usable.{IsUsable, validate-IsUsable}
use xus_miner.Window.Text.{bounded_text}
use xus_miner.Window.Text.Bounded.{bounded_text-fits}
use xus_miner.Window.Child.{capture_line}
use xus_miner.Window.Child.Chunks.{CapturedOf, capture_line-joined}
use xus_miner.Window.Recovery.{App, Phase, is_mining}
use xus_miner.Window.Recovery.Restarts.{planned, planned_le}
use xus_miner.Common.{inl}
use xus_miner.Window.Recovery.Honest.{Honest}
use xus_miner.Window.Telemetry.{Screen}
use xus_miner.Window.Telemetry.Events.Truthful.{apply_all, heard_all, any_fatal, apply_all-Honest}
use xus_miner.Examples.Sample.{text, Value, number, object, end, field, sample_json}

pub default_passes : validate default ≡ ok tt
unfolding validate default strip_prefix rsplit_once parse_u16 trim is_empty is_whitespace byte_len
    parse_u64
default_passes = refl

validate-IsUsable_example : IsUsable default
validate-IsUsable_example = validate-IsUsable default default_passes

bounded_text-fits_example : byte_len (bounded_text (codes "abcdef") 4 (codes "…") false) ≤ 4
bounded_text-fits_example = bounded_text-fits (codes "abcdef") 4 (codes "…") false

abbrev chunks : List Bytes
chunks = (1 ∷ 2 ∷ []) ∷ (3 ∷ 10 ∷ 4 ∷ []) ∷ []

capture_line-joined_example : CapturedOf [] (1 ∷ 2 ∷ 3 ∷ 10 ∷ 4 ∷ []) (capture_line [] false chunks)
capture_line-joined_example = capture_line-joined [] chunks tt

abbrev pub failing_app : App
failing_app = record {
  workers = 4;
  phase = Phase.error;
  last_error = [];
  requested_stop = false;
  automatic_recovery_enabled = true;
  automatic_restart_attempts = 0;
  automatic_restart_at = none;
  single_worker_recovery = false;
  light_randomx_recovery = false;
  engine_fatal_seen = false;
  worker_error_can_restore_mining = false;
  worker_errors = [];
  ready_worker_ids = [];
  ready_workers = 0;
  stable_hashing_since = none;
}

planned_le_example :
    planned true failing_app ((7, codes "crash") ∷ (60, codes "crash") ∷ []) + 0 ≤ 5
planned_le_example =
    planned_le true failing_app ((7, codes "crash") ∷ (60, codes "crash") ∷ []) (omega arith)

abbrev blank_screen : Screen
blank_screen = record {
  app = record failing_app { phase = Phase.connecting };
  node_link_live = false;
  work = record {
    height = none;
    algorithm = [];
    job_id = codes "Waiting for work";
    job_observed_in_metrics = false;
    jobless_metrics_seen = 0;
    coinbase = none;
    round_hashes = 0;
    height_started_at = none;
  };
  counts = record { total_hashes = 0; submitted = 0; accepted = 0; rejected = 0 };
  chain = record {
    target_block_ms = none;
    network_difficulty = none;
    peer_count = none;
    mempool_size = none;
    block_flow = none;
    observed_tip_height = none;
    tip_observed_at = none;
    backlog_history = [];
  };
  last_found_block = none;
}

abbrev connected_event : Value
connected_event = object (field (codes "event") (text (codes "node_connected")) end)

abbrev failed_event : Value
failed_event =
    object
      (field (codes "event") (text (codes "worker_error")) (field (codes "worker") (number 1) end))

abbrev two_events : List (Value × ℕ)
two_events = (connected_event, 10) ∷ (failed_event, 12) ∷ []

apply_all-Honest_example :
    let a = (apply_all sample_json (λ s. s) (λ v. true) false two_events blank_screen).app in
    Honest a
    × (is_mining a.phase ≡ true
        → (heard_all sample_json (λ s. s) (λ v. true) false two_events blank_screen [] ≡ [])
          × (any_fatal sample_json (λ s. s) (λ v. true) false two_events false ≡ false))
apply_all-Honest_example =
    apply_all-Honest sample_json (λ s. s) (λ v. true) false two_events blank_screen
      (unfold Honest in inl refl)
