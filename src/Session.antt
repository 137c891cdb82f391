-- ===== src/Session.antt =====
-- src/main.rs: `State`, what the threads of the miner share, and `Connection`.
-- A job stands in the slot with the address of its `Arc`, which `Arc::ptr_eq` compares. The
-- floating-point hazard of a round is left out; so are the lines on stderr. A closed telemetry pipe, which ends the
-- process, does not occur.
pub mod Messages
pub mod Shares
pub mod Work
use xus_miner.Common.{
  ℕ, ◌+◌, ◌-◌, ◌^◌, ◌%◌, Bool, true, false, ◌&&◌, List, [], ◌∷◌, ◌++◌, Option, none, some, ltb, leb,
  ◌==◌, if◌then◌else◌, saturating_add, Str, str_eq, codes, Result, ok, err,
}
use xus_miner.Common
use xus_miner.Pow.{PowAlgo}
use xus_miner.Job.{Job, JobError, Codecs}
use xus_miner.Job.Stratum.{from_stratum}
use xus_miner.Memory.{RandomxMemoryGate, MemoryError, ensure_safe}
use xus_miner.Blockflow.Sealed.{SealedBlocks, record_entry}
use xus_miner.Blockflow.Sealed
use xus_miner.Blockflow.Tip.{TipWatch}
use xus_miner.Blockflow.Tip
use xus_miner.Feed.{ChainBlock}
use xus_miner.Feed.Flow.{BlockFlow}

abbrev pub first_submit_id : ℕ
first_submit_id = 1000

abbrev pub login_id : ℕ
login_id = 1

pub record RoundStats : Type 0 where
  pub height : Option ℕ
  pub hashes : ℕ

-- The events of the telemetry, without the floating-point members.
pub data Event : Type 0 where
  job_ready : Str → ℕ → PowAlgo → Option Str → Option (List ℕ) → Event
  job_cleared : Str → ℕ → Event
  share : ℕ → ℕ → ℕ → Event
  worker_initializing worker_recovered : ℕ → Event
  worker_error worker_ready : ℕ → Str → Event
  node_connected : Event
  -- The members of `network` are the node's own values.
  network : Event
  peers : Option ℕ → Event
  chain_baseline : ℕ → Event
  chain_gap : (omitted from to : ℕ) → Event
  chain_block : ChainBlock → Event
  chain_reorg : ℕ → Str → Option Str → Event
  block_flow : BlockFlow → Event

pub record State : Type 0 where
  pub job : Option (ℕ × Job)
  pub connection : Option ℕ
  pub rpc_endpoint : Option Str
  pub generation : ℕ
  pub next_request : ℕ
  pub interval_hashes : ℕ
  pub total_hashes : ℕ
  pub submitted : ℕ
  pub accepted : ℕ
  pub rejected : ℕ
  pub mempool_size : ℕ
  pub mempool_known : Bool
  pub peer_count : ℕ
  pub peers_known : Bool
  pub round : RoundStats
  pub confirmed_coinbase : Option Str
  pub sealed_blocks : SealedBlocks
  pub tip_watch : TipWatch
  pub json_events : Bool
  pub events : List Event

-- `State::new`.
unfoldable pub new_state : Bool → State
new_state json_events = record {
  job = none;
  connection = none;
  rpc_endpoint = none;
  generation = 0;
  next_request = first_submit_id;
  interval_hashes = 0;
  total_hashes = 0;
  submitted = 0;
  accepted = 0;
  rejected = 0;
  mempool_size = 0;
  mempool_known = false;
  peer_count = 0;
  peers_known = false;
  round = record { height = none; hashes = 0 };
  confirmed_coinbase = none;
  sealed_blocks = Sealed.default;
  tip_watch = Tip.default;
  json_events = json_events;
  events = [];
}

-- `AtomicU64::fetch_add` wraps around.
abbrev pub fetch_add : ℕ → ℕ → ℕ
fetch_add n k = (n + k) % 2 ^ 64

pub record_sealed_block : ℕ → Str → State → State
record_sealed_block height hash s = record s {
  sealed_blocks = record_entry s.sealed_blocks height hash;
}

unfoldable pub emit : Event → State → State
emit event s = if s.json_events then record s { events = s.events ++ event ∷ [] } else s

-- A new height starts a new round.
abbrev round_for : ℕ → RoundStats → RoundStats
round_for height round = elim round.height [
  | none ↦ record { height = some height; hashes = 0 }
  | some current ↦ if current == height then round else record { height = some height; hashes = 0 }
]

abbrev confirm : Option Str → Option Str → Option Str
confirm none confirmed = confirmed
confirm (some account) confirmed = some account

-- `install_job` up to the end of the slot's lock: the job stands in the slot.
unfoldable pub place_job : ℕ → Job → State → State
unfolding emit
place_job address job s =
    emit (Event.job_ready job.id job.height job.algo job.coinbase job.block_target) (record s {
      round = round_for job.height s.round;
      confirmed_coinbase = confirm job.coinbase s.confirmed_coinbase;
      job = some (address, job);
    })

-- `self.generation.fetch_add(1)`, which releases the workers to the change of work.
unfoldable pub advance_generation : State → State
advance_generation s = record s { generation = fetch_add s.generation 1 }

unfoldable pub install_job : ℕ → Job → State → State
unfolding place_job advance_generation
install_job address job s = advance_generation (place_job address job s)

pub record_round_hashes : Job → ℕ → State → State
record_round_hashes job completed s = elim job.block_target [
  | none ↦ s
  | some target ↦ elim s.round.height [
    | none ↦ s
    | some current ↦
        if current == job.height
        then record s {
          round = record {
            height = s.round.height;
            hashes = saturating_add s.round.hashes completed;
          };
        }
        else s
  ]
]

-- `is_some_and(|existing| Arc::ptr_eq(existing, …))`.
abbrev holds : Option ℕ → ℕ → Bool
holds none address = false
holds (some existing) address = existing == address

pub clear_connection : ℕ → State → State
unfolding advance_generation
clear_connection address s =
    if holds s.connection address
    then advance_generation (record s { connection = none; job = none; confirmed_coinbase = none })
    else s

abbrev slot_address : Option (ℕ × Job) → Option ℕ
slot_address none = none
slot_address (some j) = some j.0

pub clear_job_if_current : ℕ → Job → State → State × Bool
unfolding advance_generation emit
clear_job_if_current address completed s =
    if holds (slot_address s.job) address
    then (
      emit (Event.job_cleared completed.id completed.height)
          (advance_generation (record s { job = none })),
      true,
    )
    else (s, false)

-- `Connection`: the shares whose replies are outstanding. Each update is atomic.
pub record Connection : Type 0 where
  pub pending : ℕ
  pub max_pending : ℕ

pub reserve_share : Connection → Connection × Bool
reserve_share c =
    if ltb c.pending c.max_pending then (record c { pending = c.pending + 1 }, true) else (c, false)

pub finish_share : Connection → Connection
finish_share c = record c { pending = c.pending - 1 }
