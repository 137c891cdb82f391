-- ===== src/Examples/Node.antt =====
-- Tests of src/main.rs, `run_rpc_session`: a node with one template, and a poll of the tip.
use xus_miner.Common.{◌≡◌, refl, true, false, [], ◌∷◌, none, some, codes}
use xus_miner.Session.{State, new_state}
use xus_miner.Memory.{RandomxMemoryGate, new_gate}
use xus_miner.Blockflow.Recent
use xus_miner.Feed.{chain_block_log_line}
use xus_miner.Blockflow.Sealed.{MineMark, proven}
use xus_miner.Node.{run_rpc_session}
use xus_miner.Node.Safe.{Left, run_rpc_session-Left}
use xus_miner.Node.Report.{Replies, Strip, report_chain}
use xus_miner.Node.Report.Announced.{Announces, disclosed, report_chain-Announces}
use xus_miner.Examples.Sample.{Value, text, number, object, end, field, sample_codecs}
use xus_miner.Examples.Work.{sample_template}

abbrev sample_health : Value
sample_health = object (field (codes "height") (number 7) (field (codes "mempool") (number 2) end))

abbrev sample_block : Value
sample_block = object (field (codes "hash") (text (codes "ab")) end)

abbrev sample_replies : Replies sample_codecs
sample_replies = record {
  now = 100;
  address = 1;
  scan = some (8000000000, 16000000000);
  health = some sample_health;
  template = some sample_template;
  network = none;
  peers = none;
  fee = none;
  mempool = none;
  histogram = none;
  reported = λ height. some sample_block;
  backfilled = λ height. none;
}

abbrev lost_replies : Replies sample_codecs
lost_replies = record sample_replies { health = none }

abbrev sample_gate : RandomxMemoryGate
sample_gate = new_gate 2 true false

run_rpc_session-Left_example :
    let r =
      run_rpc_session sample_codecs
        (codes "rpc://node:8645")
        (codes "alice")
        90
        (sample_replies ∷ lost_replies ∷ [])
        sample_gate
        (new_state true) in
    Left sample_codecs (codes "alice") r.0.0 r.1
run_rpc_session-Left_example =
    run_rpc_session-Left sample_codecs (codes "rpc://node:8645") (codes "alice") 90
      (sample_replies ∷ lost_replies ∷ []) sample_gate (new_state true) (unfold new_state in refl)

abbrev watching : State
watching = record (new_state true) {
  tip_watch = record { last_tip = some 5; needs_baseline = false; reported = [] };
}

abbrev sample_strip : Strip
sample_strip = record { recent = Recent.default; state = watching }

report_chain-Announces_example :
    Announces
      (disclosed sample_codecs sample_replies)
      6
      13
      watching
      (report_chain sample_codecs sample_replies 12 sample_strip).state
report_chain-Announces_example =
    report_chain-Announces sample_codecs sample_replies 5 12 sample_strip refl

sample_line :
    chain_block_log_line 42 false none none MineMark.unverified_height
    ≡ codes
        "BLOCK FOUND (possibly YOURS — unverified) height 42 | detail fetch failed this cycle; hash unknown — height matches your accepted submission but could not be hash-checked"
unfolding chain_block_log_line proven
sample_line = refl
