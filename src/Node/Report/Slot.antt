-- ===== src/Node/Report/Slot.antt =====
-- src/main.rs, `run_rpc_session`: the report and the backfill leave the work alone.
use xus_miner.Common.{
  ℕ, ◌≡◌, refl, ◌∙◌, inl, inr, Bool, List, [], ◌∷◌, Option, ltb, Str, Bool-cases, Option-cases,
}
use xus_miner.Job.{Codecs}
use xus_miner.Session.{State, Event, emit}
use xus_miner.Blockflow.Tip.{BlockRecord, TipAdvance}
use xus_miner.Blockflow.Recent.{BlockInfo}
use xus_miner.Blockflow.Recent.{refresh_targets}
use xus_miner.Blockflow.Tip.{observe_tip}
use xus_miner.Node.Report.{
  Replies, Strip, tell_block, tell_change, emit_chain_reorg, report_block, report_blocks, tell_gap,
  tell_advance, report_chain, fill_block, fill_blocks, backfill,
}

pub emit-job : (e : Event) (s : State) → (emit e s).job ≡ s.job
unfolding emit
emit-job e s = elim (Bool-cases s.json_events) [ inl on ↦ simp on | inr off ↦ simp off ]

tell_block-job :
    (C : Codecs) (height : ℕ) (fetched : Bool) (info : BlockInfo) (found : BlockRecord) (s : State)
    → (tell_block C height fetched info found s).job ≡ s.job
unfolding tell_block emit_chain_reorg
tell_block-job C height fetched info BlockRecord.new s = emit-job _ s
tell_block-job C height fetched info (BlockRecord.reorg previous) s = emit-job _ s
tell_block-job C height fetched info BlockRecord.already_reported s = refl

tell_change-job :
    (C : Codecs) (height : ℕ) (hash : Option Str) (found : BlockRecord) (s : State)
    → (tell_change C height hash found s).job ≡ s.job
unfolding tell_change emit_chain_reorg
tell_change-job C height hash BlockRecord.new s = refl
tell_change-job C height hash (BlockRecord.reorg previous) s = emit-job _ s
tell_change-job C height hash BlockRecord.already_reported s = refl

module _ (C : Codecs) where
  open C use {json, decode_header}
  open json use {Value}

  report_blocks-job :
      (r : Replies C) (tip : ℕ) (heights : List ℕ) (strip : Strip)
      → (report_blocks C r tip heights strip).state.job ≡ strip.state.job
  unfolding report_blocks report_block
  report_blocks-job r tip [] strip = refl
  report_blocks-job r tip (height ∷ heights) strip =
      report_blocks-job r tip heights (report_block C tip height (r.reported height) strip)
      ∙ tell_block-job C height _ _ _ _

  tell_advance-job :
      (r : Replies C) (tip : ℕ) (advance : TipAdvance) (strip : Strip)
      → (tell_advance C r tip advance strip).state.job ≡ strip.state.job
  unfolding tell_advance tell_gap
  tell_advance-job r tip (TipAdvance.baseline height) strip = emit-job _ strip.state
  tell_advance-job r tip (TipAdvance.blocks report omitted from to) strip =
      report_blocks-job r tip report _ ∙ elim (Bool-cases (ltb 0 omitted)) [
        | inl some_left ↦ rw some_left (emit-job _ strip.state)
        | inr all_told ↦ rw all_told refl
      ]
  tell_advance-job r tip TipAdvance.unchanged strip = refl

  fill_blocks-job :
      (r : Replies C) (tip : ℕ) (heights : List ℕ) (strip : Strip)
      → (fill_blocks C r tip heights strip).state.job ≡ strip.state.job
  unfolding fill_blocks fill_block
  fill_blocks-job r tip [] strip = refl
  fill_blocks-job r tip (height ∷ heights) strip = elim (Option-cases (r.backfilled height)) [
    | inl missing ↦ rw (missing, fill_blocks) refl
    | inr (block, there) ↦
        rw (there, fill_blocks)
          (fill_blocks-job r tip heights (fill_block C tip height block strip)
            ∙ tell_change-job C height _ _ _)
  ]

  pub report_chain-job :
      (r : Replies C) (tip : ℕ) (strip : Strip)
      → (report_chain C r tip strip).state.job ≡ strip.state.job
  unfolding report_chain
  report_chain-job r tip strip =
      let (watch, advance) = observe_tip strip.state.tip_watch tip in
      tell_advance-job r tip advance
        (record strip { state = record strip.state { tip_watch = watch } })

  pub backfill-job :
      (r : Replies C) (tip : ℕ) (strip : Strip)
      → (backfill C r tip strip).state.job ≡ strip.state.job
  unfolding backfill
  backfill-job r tip strip = fill_blocks-job r tip (refresh_targets strip.recent tip) strip
