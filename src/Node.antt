-- ===== src/Node.antt =====
-- src/main.rs, `run_rpc_session`: mining for a node by direct JSON-RPC. A cycle asks for the node's
-- health, refreshes the work when the tip moved or the work is old, and then reports the chain. What
-- the node answers in a cycle, and the time, are the record `Replies`; a call that fails, or that a
-- deadline left out, has no reply. The sleeps between the cycles are left out.
pub mod Report
pub mod Safe
pub mod Endpoint
use xus_miner.Common.{
  ℕ, ◌+◌, ◌-◌, Bool, true, false, ◌||◌, not, List, [], ◌∷◌, Option, none, some, ltb, leb, ◌==◌,
  if◌then◌else◌, Str, codes, is_empty, is_some, Result, ok, err, ok_or,
}
use xus_miner.Common
use xus_miner.Common.Try.{◌>>=◌}
use xus_miner.Job.{Job, JobError, Codecs}
use xus_miner.Job.Rpc.{from_rpc}
use xus_miner.Coinbase.{CoinbaseError, requested_coinbase, validate_rpc_coinbase}
use xus_miner.Memory.{RandomxMemoryGate, MemoryError, ensure_safe}
use xus_miner.Session.{State, Event, emit, install_job, advance_generation}
use xus_miner.Feed.{peer_count_from_info}
use xus_miner.Feed.Flow.{BlockFlow, block_flow, is_last_flow}
use xus_miner.Blockflow.Reply.{tx_count, mempool_size, fee_floor_grains}
use xus_miner.Blockflow.Histogram.{mempool_histogram}
use xus_miner.Blockflow.Recent.{RecentBlocks}
use xus_miner.Blockflow.Recent
use xus_miner.Blockflow.Tip.{begin_session}
use xus_miner.Node.Report.{Replies, Strip, report_chain, backfill}

pub data NodeError : Type 0 where
  unreachable no_height no_mempool_size : NodeError
  bad_job : JobError → NodeError
  bad_coinbase : CoinbaseError → NodeError
  out_of_memory : MemoryError → NodeError

-- The variables of the session's loop.
pub record Locals : Type 0 where
  pub previous_id : Str
  pub chain_height : Option ℕ
  pub announced : Bool
  pub refreshed : ℕ
  pub recent_blocks : RecentBlocks
  pub last_block_flow : Option BlockFlow

pub record Node : Type 0 where
  pub state : State
  pub gate : RandomxMemoryGate
  pub locals : Locals

is_at : Option ℕ → ℕ → Bool
is_at none height = false
is_at (some known) height = known == height

is_stale : Locals → ℕ → ℕ → Bool
unfolding is_at
is_stale locals height now =
    is_empty locals.previous_id
    || not (is_at locals.chain_height height)
    || leb 30 (now - locals.refreshed)

store_mempool_size : ℕ → State → State
store_mempool_size size s = record s { mempool_size = size; mempool_known = true }

announce : Node → Node
unfolding emit
announce n = if n.locals.announced then n else record n {
  state = emit Event.node_connected n.state;
  locals = record n.locals { announced = true };
}

store_peers : Option ℕ → State → State
unfolding emit
store_peers (some count) s =
    emit (Event.peers (some count)) (record s { peer_count = count; peers_known = true })
store_peers none s = emit (Event.peers none) (record s { peers_known = false })

store_mempool_reply : Option ℕ → State → State
unfolding store_mempool_size
store_mempool_reply none s = s
store_mempool_reply (some size) s = store_mempool_size size s

module _ (C : Codecs) where
  open C use {json}
  open json use {Value, field?, as_u64}

  -- The tip's height, and the size of the mempool.
  read_health : Option Value → Result NodeError (ℕ × ℕ)
  read_health reply = do
    health ← ok_or reply NodeError.unreachable
    height ← ok_or (Common.◌>>=◌ (field? health (codes "height")) as_u64) NodeError.no_height
    size ← ok_or (Common.◌>>=◌ (field? health (codes "mempool")) as_u64) NodeError.no_mempool_size
    ok (height, size)

  parse_template : Value → Result NodeError Job
  parse_template v = elim (from_rpc C v) [ ok job ↦ ok job | err e ↦ err (NodeError.bad_job e) ]

  check_coinbase : Str → Job → Result NodeError (Unit {0})
  check_coinbase user job = elim (validate_rpc_coinbase (requested_coinbase user) job) [
    | ok _ ↦ ok tt
    | err e ↦ err (NodeError.bad_coinbase e)
  ]

  -- The job of the template, and the template's count of transactions.
  unfoldable pub read_template : Str → Option Value → Result NodeError (Job × Option ℕ)
  unfolding parse_template check_coinbase
  read_template user reply = do
    v ← ok_or reply NodeError.unreachable
    job ← parse_template v
    _ ← check_coinbase user job
    ok (job, tx_count json v)

  -- The optional replies behind the installation of the work.
  enrich : Replies C → State → State
  unfolding emit store_peers store_mempool_reply
  enrich r s =
      let networked = if is_some r.network then emit Event.network s else s in
      let peered = store_peers (Common.◌>>=◌ r.peers (peer_count_from_info json)) networked in
      store_mempool_reply (Common.◌>>=◌ r.mempool (mempool_size json)) peered

  -- The event is left out if it equals the last one.
  send_flow : BlockFlow → Node → Node
  unfolding emit
  send_flow flow n = if is_last_flow n.locals.last_block_flow flow then n else record n {
    state = emit (Event.block_flow flow) n.state;
    locals = record n.locals { last_block_flow = some flow };
  }

  -- What follows on the installation of a job at this tip.
  dashboard : Replies C → ℕ → Job → Option ℕ → Node → Node
  unfolding enrich send_flow
  dashboard r tip job template_tx_count n =
      let reported =
        report_chain C r tip
          (record { recent = n.locals.recent_blocks; state = enrich r n.state }) in
      let filled = backfill C r tip reported in
      send_flow
        (block_flow tip job.height template_tx_count (Common.◌>>=◌ r.fee (fee_floor_grains json))
          (Common.◌>>=◌ r.histogram (mempool_histogram json)) filled.recent
          filled.state.sealed_blocks)
        (record n {
          state = filled.state;
          locals = record n.locals { recent_blocks = filled.recent };
        })

  -- The gate keeps what it approved, also when the session fails.
  pass_gate :
      Replies C
      → ℕ
      → Job
      → Option ℕ
      → Node
      → RandomxMemoryGate × Result MemoryError (Unit {0})
      → Node × Result NodeError (Unit {0})
  unfolding install_job dashboard
  pass_gate r tip job count n (gate, err e) =
      (record n { gate = gate }, err (NodeError.out_of_memory e))
  pass_gate r tip job count n (gate, ok _) = (
    dashboard r tip job count (record {
      state = install_job r.address job n.state;
      gate = gate;
      locals = record n.locals { previous_id = job.id; chain_height = some tip; refreshed = r.now };
    }),
    ok tt,
  )

  refresh :
      Replies C → ℕ → Node → Result NodeError (Job × Option ℕ) → Node × Result NodeError (Unit {0})
  unfolding pass_gate
  refresh r tip n (err e) = (n, err e)
  refresh r tip n (ok (job, count)) =
      pass_gate r tip job count n (ensure_safe job.algo r.scan n.gate)

  cycle_at : Str → Replies C → Node → Result NodeError (ℕ × ℕ) → Node × Result NodeError (Unit {0})
  unfolding announce store_mempool_size is_stale read_template refresh
  cycle_at user r n (err e) = (n, err e)
  cycle_at user r n (ok (height, size)) =
      let live = announce (record n { state = store_mempool_size size n.state }) in
      if is_stale live.locals height r.now
      then refresh r height live (read_template user r.template)
      else (live, ok tt)

  unfoldable pub cycle : Str → Replies C → Node → Node × Result NodeError (Unit {0})
  unfolding read_health cycle_at
  cycle user r n = cycle_at user r n (read_health r.health)

  -- The cycles up to the first error; `none` while the session goes on.
  run_cycles : Str → List (Replies C) → Node → Node × Option NodeError
  unfolding cycle
  run_cycles user [] n = (n, none)
  run_cycles user (r ∷ rs) n =
      let (n', done) = cycle user r n in
      let rest = run_cycles user rs n' in elim done [ ok _ ↦ rest | err e ↦ (n', some e) ]

-- The locals start 31 seconds in the past.
start_session : Str → ℕ → RandomxMemoryGate → State → Node
start_session pool now gate s = record {
  state = record s { rpc_endpoint = some pool; tip_watch = begin_session s.tip_watch };
  gate = gate;
  locals = record {
    previous_id = [];
    chain_height = none;
    announced = false;
    refreshed = now - 31;
    recent_blocks = Recent.default;
    last_block_flow = none;
  };
}

-- What the end of a session leaves, whatever ended it.
end_session : State → State
unfolding advance_generation
end_session s = advance_generation (record s {
  rpc_endpoint = none;
  confirmed_coinbase = none;
  mempool_known = false;
  peers_known = false;
  job = none;
})

-- A session of these cycles; it ends with the first error of one of them.
pub run_rpc_session :
    (C : Codecs) (pool user : Str)
    → ℕ
    → List (Replies C)
    → RandomxMemoryGate
    → State
    → (State × RandomxMemoryGate) × Option NodeError
unfolding start_session run_cycles end_session
run_rpc_session C pool user now rs gate s =
    let (n, ended) = run_cycles C user rs (start_session pool now gate s) in
    elim ended [
      | none ↦ ((n.state, n.gate), none)
      | some e ↦ ((end_session n.state, n.gate), some e)
    ]
