-- ===== src/Lib.antt =====
-- A verification library for xus-miner, the standalone SOV proof-of-work miner.
--
-- The miner fetches work from a node (direct JSON-RPC) or from a pool (Stratum), lets its workers
-- search the nonces of that work, submits what meets the target, and watches the chain for its
-- operator. The model has a module for each part whose behaviour is decided by the miner itself:
--
--   Wire       src/wire.rs: the rules for account names.
--   Target     src/main.rs, `target_from_compact`: the target that compact difficulty bits stand for.
--   Job        src/main.rs, `Job`: work as a node's template or a pool's push describes it, and the
--              writing of nonces into the blob. It calls Wire and Target.
--   Coinbase   src/main.rs: the test of the account that a template pays. It calls Job.
--   Pow        src/pow.rs: the sharing of one RandomX dataset by all workers, over two changes of
--              key, with the manager's answers and the references that workers hold.
--              Engine is the machine of a thread, which it builds from the shared memory.
--   Native     src/randomx_native.rs: the checks of the wrapper around the C library of RandomX.
--   Memory     src/main.rs: the memory that RandomX needs, the gate before its start (Gate), and
--              macOS's report of its memory (Pressure).
--   Session    src/main.rs: what the threads share (`State`), the share limit of a connection, and
--              the messages of a pool. It calls Job and Memory.
--   Worker     src/main.rs, `worker_loop`, and `validate_rpc_submission`. It calls Session and Job.
--   Blockflow  src/blockflow.rs: what the miner reads out of the node's replies (Reply), the mempool
--              histogram and its packing into pending blocks (Histogram), the blocks that the miner
--              sealed itself (Sealed), the cache of recent blocks (Recent) and the tip detector (Tip).
--   Feed       src/main.rs: the lines and the events that tell the operator of the chain.
--   Node       src/main.rs, `run_rpc_session`: the cycles of a session with a node. It calls Job,
--              Coinbase, Memory, Session, Feed and Blockflow. Endpoint reads an address.
--   Rpc        src/rpc.rs: the bounded reader of HTTP replies, and the JSON-RPC envelope.
--   Cli        src/main.rs: the command line of the engine, and the start of `main`. Line and Launch
--              follow the command line that the window writes through it.
--   Window     src/gui.rs, what the window decides: the settings and their validation, the bounds of text
--              (Text), the engine's output (Child), the `block_flow` events (Flow), the restarts and
--              the readiness of the workers (Recovery), what each event of the engine changes
--              (Telemetry), and the engine's arguments (Launch). Telemetry calls Flow and Recovery.
--   Common     what these share: strings as lists of Unicode scalar values with their UTF-8 bytes,
--              ordered maps, results, and the interface of the JSON reader.
--   Examples   tests, and the theorems at concrete inputs.
--
-- Numbers are the native ℕ. A `u64` keeps its saturation, its checks for overflow or its wrap-around
-- in the definition. Bytes are numbers below 256. A Rust function that changes `&mut self` is a
-- function from the state to the state and the result; an error message is a constructor.
-- Loops are structural recursion over a list or a window. Two need fuel. The inner loop of the packing
-- (`pack_bucket`) gets the transactions that remain of its bucket: each of its rounds but the last
-- takes one of them at least, so that none is left when the fuel is used up. The loop over the HTTP
-- headers (`read_headers`) gets one more than the header budget, of which each line takes two bytes
-- at least.
--
-- Third-party code is a parameter: the JSON reader (`serde_json`) is the record `Json`, of which only
-- the range of `as_u64` is assumed, and `hex`, `borsh` and `blake3` stand in the record `Codecs`, of
-- which nothing is assumed. The C library of RandomX is the record `Randomx`; the theorem on digests
-- names what it relies on of it (`IsRandomx`). A socket is the bytes that the peer sends and how they
-- end, and what a node answers in one cycle of its session is the record `Replies`. The clock is an
-- argument of the calls that read it, in seconds. A cache or a dataset is known by a number, which
-- stands for its address and what was written there, and the reference count of an `Arc` is the
-- number of the entries in the list of held references. Threads are interleavings of atomic steps,
-- which all threads see in one order.
--
-- Not modelled: the window's drawing, files, processes, log and floating-point meters (src/gui.rs),
-- the diagnostics (src/diag.rs), the release of native memory, connections and the writing of requests,
-- the threads' start and stop, the scan of the operating system for its memory and the floating-point
-- estimates of a round.
pub mod Blockflow
pub mod Cli
pub mod Coinbase
pub mod Common
pub mod Examples
pub mod Feed
pub mod Job
pub mod Memory
pub mod Native
pub mod Node
pub mod Pow
pub mod Rpc
pub mod Session
pub mod Target
pub mod Window
pub mod Wire
pub mod Worker
