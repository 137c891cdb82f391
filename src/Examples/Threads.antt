-- ===== src/Examples/Threads.antt =====
-- Tests of src/main.rs: the memory gate, the pool's messages, and the worker between the threads.
use xus_miner.Common.{
  ℕ, ◌+◌, ◌-◌, ◌≡◌, ◌⊎◌, refl, true, false, List, [], ◌∷◌, Option, none, some, ◌==◌, if◌then◌else◌,
  Str, codes, Result, ok, replicate, arith,
}
use xus_miner.Pow.{PowAlgo}
use xus_miner.Memory.{RandomxMemoryGate, HeadlessMemoryPreflight, new_gate, ensure_safe}
use xus_miner.Memory.Gate.{Covers, scans_of, run_gate, ensure_safe-Covers}
use xus_miner.Session.{Connection, new_state, place_job, advance_generation}
use xus_miner.Session.Messages.{Pool, handle_message}
use xus_miner.Session.Shares.{Use, use_all, answers, Balanced, use_all-Balanced}
use xus_miner.Session.Messages.Effects.{Outcome, handle_message-Outcome}
use xus_miner.Worker.{new_worker, observe, reload, submits}
use xus_miner.Worker.Submit.{submit_block}
use xus_miner.Worker.Fresh.{World, Step, Reach, start, submits-current}
use xus_miner.Worker.Submit.Sealing.{Accepted, Rejected, Confirms, submit_block-Confirms}
use xus_miner.Examples.Sample.{Value, text, number, object, end, field, flag, sample_codecs}
use xus_miner.Examples.Work.{sample_job, sample_push, sample_blob}

abbrev no_scan : Option (ℕ × ℕ)
no_scan = none

abbrev roomy : Option (ℕ × ℕ)
roomy = some (8000000000, 16000000000)

-- A RandomX job that a failed scan refused stands before the one that passes.
abbrev earlier : List (PowAlgo × Option (ℕ × ℕ))
earlier = (PowAlgo.random_x, no_scan) ∷ (PowAlgo.sha256d, no_scan) ∷ []

abbrev used_gate : RandomxMemoryGate
used_gate = run_gate (new_gate 2 true false) earlier

passes : (ensure_safe PowAlgo.random_x roomy used_gate).1 ≡ ok tt
unfolding ensure_safe new_gate
passes = refl

ensure_safe-Covers_example :
    (p : HeadlessMemoryPreflight) × ((ensure_safe PowAlgo.random_x roomy used_gate).0.approved
      ≡ some p)
    × Covers 2 true false (roomy ∷ scans_of earlier []) p.available p.total
ensure_safe-Covers_example = ensure_safe-Covers 2 true false earlier roomy (omega arith) passes

abbrev fresh_connection : Connection
fresh_connection = record { pending = 0; max_pending = 2 }

abbrev uses : List Use
uses = Use.reserves ∷ Use.reserves ∷ Use.reserves ∷ Use.finishes ∷ []

use_all-Balanced_example :
    Balanced 2 0 uses (answers fresh_connection uses) (use_all fresh_connection uses)
use_all-Balanced_example = use_all-Balanced fresh_connection uses (omega arith)

abbrev sample_pool : Pool
sample_pool = record {
  state = new_state true;
  connection = fresh_connection;
  gate = new_gate 2 true false;
}

abbrev push_message : Value
push_message =
    object (field (codes "method") (text (codes "job")) (field (codes "params") sample_push end))

handle_message-Outcome_example :
    Outcome sample_codecs 5 roomy push_message sample_pool
      (handle_message sample_codecs 5 roomy push_message sample_pool).0
      (handle_message sample_codecs 5 roomy push_message sample_pool).1
handle_message-Outcome_example =
    handle_message-Outcome sample_codecs 5 roomy push_message sample_pool

-- A job is placed and announced; the worker loads the generation, and then the job.
abbrev begun : World
begun = start false 3

abbrev placed : World
placed = record begun { state = place_job 5 sample_job begun.state; changing = begun.changing + 1 }

abbrev advanced : World
advanced = record placed { state = advance_generation placed.state; changing = placed.changing - 1 }

abbrev observed : World
observed = record advanced {
  worker = observe advanced.state.generation advanced.worker;
  reading =
      if advanced.state.generation == advanced.worker.generation then advanced.reading else true;
}

abbrev loaded : World
loaded = record observed { worker = reload observed.state.job observed.worker; reading = false }

reaches : Reach begun loaded
unfolding start place_job new_state
reaches =
    Reach.next
      (Reach.next
        (Reach.next (Reach.next Reach.here (Step.places 5 sample_job))
          (Step.advances (omega arith)))
        Step.observes)
      Step.reads

finds : submits loaded.state loaded.worker sample_job (replicate 32 0) ≡ true
unfolding start new_state place_job advance_generation new_worker observe reload submits
finds = refl

still : loaded.changing ≡ 0
unfolding start
still = refl

submits-current_example : loaded.worker.job ≡ loaded.state.job
submits-current_example =
    submits-current false 3 loaded sample_job (replicate 32 0) reaches refl finds still

abbrev good_reply : Result Str Value
good_reply = ok (
    object (
      field (codes "accepted") (flag true)
        (field (codes "height") (number 7) (field (codes "hash") (text sample_blob) end))))

submit_block-Confirms_example :
    (Accepted sample_codecs
        (submit_block sample_codecs 5 sample_job sample_blob good_reply (new_state true))
        (new_state true)
        sample_job
        sample_blob
      × ((v : Value) × (good_reply ≡ ok v) × Confirms sample_codecs v sample_job sample_blob))
    ⊎ Rejected sample_codecs
        (submit_block sample_codecs 5 sample_job sample_blob good_reply (new_state true))
        (new_state true)
submit_block-Confirms_example =
    submit_block-Confirms sample_codecs 5 sample_job sample_blob good_reply (new_state true)
