-- ===== src/Node/Report.antt =====
-- src/main.rs, `run_rpc_session`: the report of the blocks that the tip moved over, and the backfill
-- of the confirmed strip.
pub mod Slot
pub mod Announced
use xus_miner.Common.{ℕ, Bool, List, [], ◌∷◌, Option, none, some, ltb, if◌then◌else◌, Str, is_some}
use xus_miner.Job.{Codecs}
use xus_miner.Session.{State, Event, emit}
use xus_miner.Feed.{chain_block}
use xus_miner.Blockflow.Reply.{tx_count, block_hash, block_timestamp_ms}
use xus_miner.Blockflow.Sealed.{mine_mark}
use xus_miner.Blockflow.Tip.{TipAdvance, BlockRecord, observe_tip, record_reported, observe_fetched}
use xus_miner.Blockflow.Recent.{RecentBlocks, BlockInfo, insert_block, refresh_targets}

-- The part of the session that the report changes.
pub record Strip : Type 0 where
  pub recent : RecentBlocks
  pub state : State

-- `emit_chain_reorg`.
emit_chain_reorg : ℕ → Str → Option Str → State → State
unfolding emit
emit_chain_reorg height previous_hash new_hash s =
    emit (Event.chain_reorg height previous_hash new_hash) s

module _ (C : Codecs) where
  open C use {json}
  open json use {Value}

  -- What a cycle meets: the time, the address of the new job, the answer of the operating system, and
  -- the replies of the node, those on a block by its height.
  pub record Replies : Type 0 where
    pub now : ℕ
    pub address : ℕ
    pub scan : Option (ℕ × ℕ)
    pub health : Option Value
    pub template : Option Value
    pub network : Option Value
    pub peers : Option Value
    pub fee : Option Value
    pub mempool : Option Value
    pub histogram : Option Value
    pub reported : ℕ → Option Value
    pub backfilled : ℕ → Option Value

  -- What the node disclosed of a block.
  pub block_info : Value → BlockInfo
  block_info block = record {
    hash = block_hash json block;
    tx_count = tx_count json block;
    timestamp_ms = block_timestamp_ms json block;
  }

  pub unknown_info : BlockInfo
  unknown_info = record { hash = none; tx_count = none; timestamp_ms = none }

  detail_of : Option Value → BlockInfo
  unfolding block_info unknown_info
  detail_of none = unknown_info
  detail_of (some block) = block_info block

  keep_detail : ℕ → ℕ → Option Value → RecentBlocks → RecentBlocks
  unfolding block_info
  keep_detail tip height none recent = recent
  keep_detail tip height (some block) recent = insert_block recent tip height (block_info block)

  -- The `match` on the detector's record.
  tell_block : ℕ → Bool → BlockInfo → BlockRecord → State → State
  unfolding emit emit_chain_reorg
  tell_block height fetched info BlockRecord.new s =
      emit
        (Event.chain_block (
          chain_block height fetched info.hash info.tx_count info.timestamp_ms
            (mine_mark s.sealed_blocks height fetched info.hash)))
        s
  tell_block height fetched info (BlockRecord.reorg previous) s =
      emit_chain_reorg height previous info.hash s
  tell_block height fetched info BlockRecord.already_reported s = s

  unfoldable pub report_block : ℕ → ℕ → Option Value → Strip → Strip
  unfolding detail_of keep_detail tell_block
  report_block tip height block strip =
      let info = detail_of block in
      let (watch, found) = record_reported strip.state.tip_watch height info.hash in
      record {
        recent = keep_detail tip height block strip.recent;
        state =
            tell_block height (is_some block) info found (record strip.state { tip_watch = watch });
      }

  unfoldable pub report_blocks : Replies → ℕ → List ℕ → Strip → Strip
  unfolding report_block
  report_blocks r tip [] strip = strip
  report_blocks r tip (height ∷ heights) strip =
      report_blocks r tip heights (report_block tip height (r.reported height) strip)

  tell_gap : ℕ → ℕ → ℕ → State → State
  unfolding emit
  tell_gap omitted from to s = if ltb 0 omitted then emit (Event.chain_gap omitted from to) s else s

  unfoldable pub tell_advance : Replies → ℕ → TipAdvance → Strip → Strip
  unfolding emit tell_gap report_blocks
  tell_advance r tip (TipAdvance.baseline height) strip = record strip {
    state = emit (Event.chain_baseline height) strip.state;
  }
  tell_advance r tip (TipAdvance.blocks report omitted from to) strip =
      report_blocks r tip report (record strip { state = tell_gap omitted from to strip.state })
  tell_advance r tip TipAdvance.unchanged strip = strip

  unfoldable pub report_chain : Replies → ℕ → Strip → Strip
  unfolding tell_advance
  report_chain r tip strip =
      let (watch, advance) = observe_tip strip.state.tip_watch tip in
      tell_advance r tip advance (record strip { state = record strip.state { tip_watch = watch } })

  -- A hash that changed at a known height is a reorg; anything else is not announced.
  tell_change : ℕ → Option Str → BlockRecord → State → State
  unfolding emit_chain_reorg
  tell_change height hash (BlockRecord.reorg previous) s = emit_chain_reorg height previous hash s
  tell_change height hash _ s = s

  fill_block : ℕ → ℕ → Value → Strip → Strip
  unfolding block_info tell_change
  fill_block tip height block strip =
      let info = block_info block in
      let (watch, found) = observe_fetched strip.state.tip_watch height info.hash in
      record {
        recent = insert_block strip.recent tip height info;
        state = tell_change height info.hash found (record strip.state { tip_watch = watch });
      }

  -- The first height without a reply ends the backfill.
  fill_blocks : Replies → ℕ → List ℕ → Strip → Strip
  unfolding fill_block
  fill_blocks r tip [] strip = strip
  fill_blocks r tip (height ∷ heights) strip = elim (r.backfilled height) [
    | none ↦ strip
    | some block ↦ fill_blocks r tip heights (fill_block tip height block strip)
  ]

  unfoldable pub backfill : Replies → ℕ → Strip → Strip
  unfolding fill_blocks
  backfill r tip strip = fill_blocks r tip (refresh_targets strip.recent tip) strip
