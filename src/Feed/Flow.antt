-- ===== src/Feed/Flow.antt =====
-- src/main.rs: the `block_flow` event, its backlog, and the comparison with the last one sent.
use xus_miner.Common.{
  ℕ, Bool, true, false, ◌&&◌, List, [], ◌∷◌, map, Option, none, some, ◌==◌, Str, str_eq,
}
use xus_miner.Blockflow.Histogram.{
  MempoolHistogram, ProjectedBlock, projected_blocks, backlog_blocks, backlog_depth,
}
use xus_miner.Blockflow.Sealed.{SealedBlocks, proven, basis}
use xus_miner.Blockflow.Recent.{RecentBlocks, Tile, tiles}

pub record Backlog : Type 0 where
  pub tx_count : ℕ
  pub max_block_txs : ℕ
  pub depth_blocks : ℕ
  pub blocks : List ProjectedBlock

-- `none` is JSON's `null`.
pub mempool_backlog_json : Option MempoolHistogram → Option Backlog
mempool_backlog_json none = none
mempool_backlog_json (some histogram) = some (record {
  tx_count = histogram.tx_count;
  max_block_txs = histogram.max_block_txs;
  depth_blocks = backlog_depth histogram;
  blocks = backlog_blocks histogram;
})

pub record FlowTile : Type 0 where
  pub height : ℕ
  pub tx_count : Option ℕ
  pub timestamp_ms : Option ℕ
  pub mine : Bool
  pub mine_basis : Option Str

pub record BlockFlow : Type 0 where
  pub tip_height : ℕ
  pub template_height : ℕ
  pub template_tx_count : Option ℕ
  pub fee_grains : Option ℕ
  pub backlog : Option Backlog
  pub projected : List ProjectedBlock
  pub recent : List FlowTile

flow_tile : Tile → FlowTile
flow_tile tile = record {
  height = tile.height;
  tx_count = tile.tx_count;
  timestamp_ms = tile.timestamp_ms;
  mine = proven tile.mine;
  mine_basis = basis tile.mine;
}

-- `unwrap_or_default`.
projected_of : Option MempoolHistogram → List ProjectedBlock
projected_of none = []
projected_of (some histogram) = projected_blocks histogram

pub block_flow :
    (tip template_height : ℕ)
    → Option ℕ
    → Option ℕ
    → Option MempoolHistogram
    → RecentBlocks
    → SealedBlocks
    → BlockFlow
unfolding mempool_backlog_json projected_of flow_tile
block_flow tip template_height template_tx_count fee_grains histogram recent sealed = record {
  tip_height = tip;
  template_height = template_height;
  template_tx_count = template_tx_count;
  fee_grains = fee_grains;
  backlog = mempool_backlog_json histogram;
  projected = projected_of histogram;
  recent = map flow_tile (tiles recent tip sealed);
}

-- `==` of the JSON values, member by member.
same_option : {A : Type 0} → (A → A → Bool) → Option A → Option A → Bool
same_option same none none = true
same_option same (some a) (some b) = same a b
same_option same _ _ = false

same_list : {A : Type 0} → (A → A → Bool) → List A → List A → Bool
same_list same [] [] = true
same_list same (a ∷ rest) (b ∷ others) = same a b && same_list same rest others
same_list same _ _ = false

same_bool : Bool → Bool → Bool
same_bool true b = b
same_bool false true = false
same_bool false false = true

same_block : ProjectedBlock → ProjectedBlock → Bool
same_block a b =
    a.tx_count == b.tx_count
    && a.fee_min_grains == b.fee_min_grains
    && a.fee_max_grains == b.fee_max_grains

same_tile : FlowTile → FlowTile → Bool
unfolding same_option same_bool
same_tile a b =
    a.height == b.height
    && same_option (λ x y. x == y) a.tx_count b.tx_count
    && same_option (λ x y. x == y) a.timestamp_ms b.timestamp_ms
    && same_bool a.mine b.mine
    && same_option str_eq a.mine_basis b.mine_basis

same_backlog : Backlog → Backlog → Bool
unfolding same_list same_block
same_backlog a b =
    a.tx_count == b.tx_count
    && a.max_block_txs == b.max_block_txs
    && a.depth_blocks == b.depth_blocks
    && same_list same_block a.blocks b.blocks

same_flow : BlockFlow → BlockFlow → Bool
unfolding same_option same_list same_block same_tile same_backlog
same_flow a b =
    a.tip_height == b.tip_height
    && a.template_height == b.template_height
    && same_option (λ x y. x == y) a.template_tx_count b.template_tx_count
    && same_option (λ x y. x == y) a.fee_grains b.fee_grains
    && same_option same_backlog a.backlog b.backlog
    && same_list same_block a.projected b.projected
    && same_list same_tile a.recent b.recent

-- `last_block_flow.as_ref() == Some(&block_flow)`.
pub is_last_flow : Option BlockFlow → BlockFlow → Bool
unfolding same_flow
is_last_flow none flow = false
is_last_flow (some last) flow = same_flow last flow
