-- ===== src/Node/Safe.antt =====
-- src/main.rs, `run_rpc_session`: the work that a node can make this miner do.
use xus_miner.Common.{
  Option-cases, ℕ, ◌≡◌, refl, sym, ◌∙◌, ap, inl, inr, Bool, true, false, List, [], ◌∷◌, Option,
  none, some, if◌then◌else◌, Str, Result, ok, err, ok_inj, some_inj, Bool-cases, Result-cases,
  is_some,
}
use mathlib.Core.Path.{subst}
use xus_miner.Session.{install_job, place_job, advance_generation}
use xus_miner.Node.{run_rpc_session, start_session, end_session}
use xus_miner.Common.Try.{>>=-eq-ok, after_ok_or}
use xus_miner.Job.{Job, BlockHeaderWire, Codecs}
use xus_miner.Job.Rpc.{from_rpc}
use xus_miner.Job.Rpc.Authentic.{IsAuthentic, from_rpc-IsAuthentic}
use xus_miner.Coinbase.{requested_coinbase, validate_rpc_coinbase}
use xus_miner.Coinbase.Pays.{validate_rpc_coinbase-pays}
use xus_miner.Memory.{RandomxMemoryGate, MemoryError, ensure_safe}
use xus_miner.Session.{State, Event, emit}
use xus_miner.Feed.Flow.{BlockFlow, is_last_flow}
use xus_miner.Node.{
  Node, NodeError, read_template, parse_template, check_coinbase, announce, store_mempool_size,
  store_mempool_reply, store_peers, enrich, send_flow, dashboard, pass_gate, refresh, cycle_at,
  cycle, run_cycles, is_stale, read_health,
}
use xus_miner.Node.Report.{Replies}
use xus_miner.Node.Report.Slot.{emit-job, report_chain-job, backfill-job}

module _ (C : Codecs) where
  open C use {json, decode_header}
  open json use {Value}

  enrich-job : (r : Replies C) (s : State) → (enrich C r s).job ≡ s.job
  unfolding enrich store_mempool_reply store_mempool_size store_peers
  enrich-job r s = mempool _ _ ∙ peers _ _ ∙ network (is_some r.network)
    where
      network : (told : Bool) → (if told then emit Event.network s else s).job ≡ s.job
      network true = emit-job _ s
      network false = refl

      mempool : (size : Option ℕ) (s' : State) → (store_mempool_reply size s').job ≡ s'.job
      mempool none s' = refl
      mempool (some size) s' = refl

      peers : (count : Option ℕ) (s' : State) → (store_peers count s').job ≡ s'.job
      peers none s' = emit-job _ _
      peers (some count) s' = emit-job _ _

  send_flow-job : (flow : BlockFlow) (n : Node) → (send_flow C flow n).state.job ≡ n.state.job
  unfolding send_flow
  send_flow-job flow n = elim (Bool-cases (is_last_flow n.locals.last_block_flow flow)) [
    | inl same ↦ rw same refl
    | inr moved ↦ rw moved (emit-job _ n.state)
  ]

  dashboard-job :
      (r : Replies C) (tip : ℕ) (job : Job) (count : Option ℕ) (n : Node)
      → (dashboard C r tip job count n).state.job ≡ n.state.job
  unfolding dashboard
  dashboard-job r tip job count n =
      send_flow-job _ _ ∙ backfill-job C r tip _ ∙ report_chain-job C r tip _ ∙ enrich-job r n.state

  -- The block pays the account that was asked for, if one was.
  abbrev pub Paid : Option Str → BlockHeaderWire → Type 0
  Paid none header = Unit {0}
  Paid (some account) header = header.proposer ≡ account

  -- Work that a node may make the workers do: a block whose header is authentic and pays as asked.
  pub record IsSafe (user : Str) (job : Job) : Type 0 where
    pub header : BlockHeaderWire
    pub authentic : IsAuthentic C job header
    pub paid : Paid (requested_coinbase user) header

  abbrev pub SafeSlot : Str → Option (ℕ × Job) → Type 0
  SafeSlot user none = Unit {0}
  SafeSlot user (some (address, job)) = IsSafe user job

  parse_template-eq-ok :
      (v : Value) {job : Job} → parse_template C v ≡ ok job → from_rpc C v ≡ ok job
  unfolding parse_template
  parse_template-eq-ok v e = elim (Result-cases (from_rpc C v)) [
    | inl (job, parsed) ↦ parsed ∙ ap ok (ok_inj (rw (parsed, parse_template) at e))
    | inr (x, failed) ↦ cc (rw (failed, parse_template) at e)
  ]

  check_coinbase-eq-ok :
      (user : Str) (job : Job) {u : Unit {0}}
      → check_coinbase C user job ≡ ok u
      → validate_rpc_coinbase (requested_coinbase user) job ≡ ok tt
  unfolding check_coinbase
  check_coinbase-eq-ok user job e =
      elim (Result-cases (validate_rpc_coinbase (requested_coinbase user) job)) [
        | inl (u, passed) ↦ passed
        | inr (x, failed) ↦ cc (rw (failed, check_coinbase) at e)
      ]

  pays :
      (v : Value) (job : Job) (requested : Option Str)
      → from_rpc C v ≡ ok job
      → validate_rpc_coinbase requested job ≡ ok tt
      → (h : BlockHeaderWire) × IsAuthentic C job h × Paid requested h
  pays v job none parsed passed =
      let (h, authentic) = from_rpc-IsAuthentic C v job parsed in (h, authentic, tt)
  pays v job (some account) parsed passed =
      let (h, authentic) = from_rpc-IsAuthentic C v job parsed in
      let (h', encoded, same) = validate_rpc_coinbase-pays C v job account parsed passed in
      (h, authentic, ap (λ x. x.proposer) (some_inj (sym authentic.encoded ∙ encoded)) ∙ same)

  read_template-IsSafe :
      (user : Str) (reply : Option Value) {found : Job × Option ℕ}
      → read_template C user reply ≡ ok found
      → IsSafe user found.0
  unfolding read_template
  read_template-IsSafe user reply e =
      let (v, _, e₁) = after_ok_or reply _ _ e in
      let (job, parsed, e₂) = >>=-eq-ok (parse_template C v) _ e₁ in
      let (_, passed, e₃) = >>=-eq-ok (check_coinbase C user job) _ e₂ in
      let (h, authentic, paid) =
        pays v job (requested_coinbase user) (parse_template-eq-ok v parsed)
          (check_coinbase-eq-ok user job passed) in
      subst (λ p. IsSafe user p.0) (ok_inj e₃)
        (record { header = h; authentic = authentic; paid = paid })

  install_job-job :
      (address : ℕ) (job : Job) (s : State) → (install_job address job s).job ≡ some (address, job)
  unfolding install_job place_job advance_generation
  install_job-job address job s = emit-job _ _

  refresh-SafeSlot :
      (user : Str) (r : Replies C) (tip : ℕ) (n : Node) (t : Result NodeError (Job × Option ℕ))
      → ((found : Job × Option ℕ) → t ≡ ok found → IsSafe user found.0)
      → SafeSlot user n.state.job
      → SafeSlot user (refresh C r tip n t).0.state.job
  unfolding refresh pass_gate
  refresh-SafeSlot user r tip n (err e) safe kept = kept
  refresh-SafeSlot user r tip n (ok (job, count)) safe kept =
      gate_passed (ensure_safe job.algo r.scan n.gate)
    where
      installed : RandomxMemoryGate → Node
      installed gate = record {
        state = install_job r.address job n.state;
        gate = gate;
        locals = record n.locals {
          previous_id = job.id;
          chain_height = some tip;
          refreshed = r.now;
        };
      }

      gate_passed :
          (g : RandomxMemoryGate × Result MemoryError (Unit {0}))
          → SafeSlot user (pass_gate C r tip job count n g).0.state.job
      gate_passed (gate, err e) = kept
      gate_passed (gate, ok u) =
          subst (SafeSlot user)
            (sym (
              dashboard-job r tip job count (installed gate)
              ∙ install_job-job r.address job n.state))
            (safe (job, count) refl)

  announce-job : (n : Node) → (announce n).state.job ≡ n.state.job
  unfolding announce
  announce-job n = elim (Bool-cases n.locals.announced) [
    | inl told ↦ rw told refl
    | inr silent ↦ rw silent (emit-job _ n.state)
  ]

  cycle_at-SafeSlot :
      (user : Str) (r : Replies C) (n : Node) (h : Result NodeError (ℕ × ℕ))
      → SafeSlot user n.state.job
      → SafeSlot user (cycle_at C user r n h).0.state.job
  unfolding cycle_at store_mempool_size
  cycle_at-SafeSlot user r n (err e) kept = kept
  cycle_at-SafeSlot user r n (ok (height, size)) kept =
      let live = announce (record n { state = store_mempool_size size n.state }) in
      let still = subst (SafeSlot user) (sym (announce-job _)) kept in
      elim (Bool-cases (is_stale live.locals height r.now)) [
        | inl stale ↦ rw stale (
            refresh-SafeSlot user r height live (read_template C user r.template)
              (λ found. read_template-IsSafe user r.template) still)
        | inr fresh ↦ rw fresh still
      ]

  run_cycles-SafeSlot :
      (user : Str) (rs : List (Replies C)) (n : Node)
      → SafeSlot user n.state.job
      → SafeSlot user (run_cycles C user rs n).0.state.job
  unfolding run_cycles cycle
  run_cycles-SafeSlot user [] n kept = kept
  run_cycles-SafeSlot user (r ∷ rs) n kept =
      let next = cycle_at-SafeSlot user r n (read_health C r.health) kept in
      elim (Result-cases (cycle C user r n).1) [
        | inl (u, more) ↦
            rw (more, run_cycles) (run_cycles-SafeSlot user rs (cycle C user r n).0 next)
        | inr (e, ended) ↦ rw (ended, run_cycles) next
      ]

  -- What a session leaves, with the error that ended it.
  abbrev pub Left : Str → State → Option NodeError → Type 0
  Left user s none = SafeSlot user s.job
  Left user s (some e) =
      (s.job ≡ none)
      × (s.rpc_endpoint ≡ none)
      × (s.confirmed_coinbase ≡ none)
      × (s.mempool_known ≡ false)
      × (s.peers_known ≡ false)

  -- A session with a node that starts without work and is still going on after these cycles leaves
  -- the workers either no work, or work on a block whose encoded header is authentic and pays the
  -- account of the user, if the user named one; a session that ended leaves no work, no endpoint and
  -- no confirmed account, and does not count the mempool or the peers as known.
  pub run_rpc_session-Left :
      (pool user : Str) (now : ℕ) (rs : List (Replies C)) (gate : RandomxMemoryGate) (s : State)
      → s.job ≡ none
      → let r = run_rpc_session C pool user now rs gate s in Left user r.0.0 r.1
  unfolding run_rpc_session start_session end_session advance_generation
  run_rpc_session-Left pool user now rs gate s idle =
      let start = start_session pool now gate s in
      let safe = run_cycles-SafeSlot user rs start (rw idle tt) in
      elim (Option-cases (run_cycles C user rs start).1) [
        | inl going ↦ rw (going, run_rpc_session) safe
        | inr (e, ended) ↦ rw (ended, run_rpc_session) (refl, refl, refl, refl, refl)
      ]
