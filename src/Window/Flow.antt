-- ===== src/Window/Flow.antt =====
-- src/gui.rs: what the window reads out of a `block_flow` event, and what it says of it.
use xus_miner.Common.{
  ℕ, Bool, true, false, List, [], ◌∷◌, Option, none, some, leb, ◌==◌, if◌then◌else◌, length, take,
  Str, str_eq, codes, ◌>>=◌, ◌>>◌, guard,
}
use xus_miner.Common.Json.{Json}

pub data MineBasis : Type 0 where
  hash height unverified : MineBasis

pub record BlockFlowTile : Type 0 where
  pub height : ℕ
  pub tx_count : Option ℕ
  pub timestamp_ms : Option ℕ
  pub mine : Bool
  pub mine_basis : Option MineBasis

pub record ProjectedFlowTile : Type 0 where
  pub tx_count : ℕ
  pub fee_min_grains : ℕ
  pub fee_max_grains : ℕ

pub record BacklogView : Type 0 where
  pub tx_count : ℕ
  pub max_block_txs : ℕ
  pub depth_blocks : ℕ
  pub blocks : List ProjectedFlowTile

pub record BlockFlowView : Type 0 where
  pub tip_height : Option ℕ
  pub template_height : Option ℕ
  pub template_tx_count : Option ℕ
  pub fee_grains : Option ℕ
  pub backlog : Option BacklogView
  pub projected : List ProjectedFlowTile
  pub recent : List BlockFlowTile

abbrev pub max_projected_flow_tiles : ℕ
max_projected_flow_tiles = 6

abbrev pub max_backlog_view_blocks : ℕ
max_backlog_view_blocks = 24

abbrev pub max_recent_tiles : ℕ
max_recent_tiles = 40

basis_named : Str → Option MineBasis
basis_named name =
    if str_eq name (codes "hash")
    then some MineBasis.hash
    else if str_eq name (codes "height")
    then some MineBasis.height
    else if str_eq name (codes "unverified")
    then some MineBasis.unverified
    else none

pub mine_attribution_line : Bool → Option MineBasis → Str
mine_attribution_line true (some MineBasis.hash) =
    codes "★ YOURS — accepted submission; the node-disclosed block hash matches your sealed hash"
mine_attribution_line true (some MineBasis.height) =
    codes
      "★ YOURS — accepted submission at this height; the node disclosed no block hash to compare"
mine_attribution_line true _ =
    codes
      "★ YOURS — accepted submission (node-disclosed hash match, or accepted height where the node discloses no hash)"
mine_attribution_line false (some MineBasis.unverified) =
    codes
      "★? possibly yours — height matches your accepted submission, but no block detail was available to hash-check it"
mine_attribution_line false _ = codes "Network block"

-- `collect::<Option<Vec<_>>>()`, and `filter_map`.
all_some : {A B : Type 0} → (A → Option B) → List A → Option (List B)
all_some f [] = some []
all_some f (a ∷ rest) = do b ← f a; bs ← all_some f rest; some (b ∷ bs)

or_none : {A : Type 0} → Option A → List A → List A
or_none none found = found
or_none (some a) found = a ∷ found

filter_map : {A B : Type 0} → (A → Option B) → List A → List B
unfolding or_none
filter_map f [] = []
filter_map f (a ∷ rest) = or_none (f a) (filter_map f rest)

or_empty : {A : Type 0} → Option (List A) → List A
or_empty none = []
or_empty (some found) = found

or_false : Option Bool → Bool
or_false none = false
or_false (some b) = b

module _ (J : Json) where
  open J use {Value, field?, as_u64, as_str, as_bool, as_array}

  number : Value → Str → Option ℕ
  number v name = field? v name >>= as_u64

  pub parse_basis : Option Value → Option MineBasis
  unfolding basis_named
  parse_basis v = v >>= as_str >>= basis_named

  parse_projected : Value → Option ProjectedFlowTile
  unfolding number
  parse_projected tile = do
    tx_count ← number tile (codes "tx_count")
    fee_min_grains ← number tile (codes "fee_min_grains")
    fee_max_grains ← number tile (codes "fee_max_grains")
    some (record {
      tx_count = tx_count;
      fee_min_grains = fee_min_grains;
      fee_max_grains = fee_max_grains;
    })

  parse_some_backlog : Value → Option BacklogView
  unfolding number all_some parse_projected
  parse_some_backlog v = do
    raw ← field? v (codes "blocks") >>= as_array
    guard (leb (length raw) max_backlog_view_blocks)
    blocks ← all_some parse_projected raw
    tx_count ← number v (codes "tx_count")
    max_block_txs ← number v (codes "max_block_txs")
    depth_blocks ← number v (codes "depth_blocks")
    some (record {
      tx_count = tx_count;
      max_block_txs = max_block_txs;
      depth_blocks = depth_blocks;
      blocks = blocks;
    })

  -- `BacklogView::parse`.
  pub parse_backlog : Option Value → Option BacklogView
  unfolding parse_some_backlog
  parse_backlog v = v >>= parse_some_backlog

  parse_tile : Value → Option BlockFlowTile
  unfolding number parse_basis or_false
  parse_tile tile = do
    at ← number tile (codes "height")
    some (record {
      height = at;
      tx_count = number tile (codes "tx_count");
      timestamp_ms = number tile (codes "timestamp_ms");
      mine = or_false (field? tile (codes "mine") >>= as_bool);
      mine_basis = parse_basis (field? tile (codes "mine_basis"));
    })

  tiles_of : {A : Type 0} → ℕ → (Value → Option A) → Option Value → List A
  unfolding filter_map or_empty
  tiles_of bound parse v =
      or_empty (v >>= as_array >>= λ raw. some (take bound (filter_map parse raw)))

  -- `BlockFlowView::from_telemetry`.
  pub from_telemetry : Value → BlockFlowView
  unfolding number parse_backlog tiles_of parse_projected parse_tile
  from_telemetry v = record {
    tip_height = number v (codes "tip_height");
    template_height = field? v (codes "template") >>= λ t. number t (codes "height");
    template_tx_count = field? v (codes "template") >>= λ t. number t (codes "tx_count");
    fee_grains = number v (codes "fee_grains");
    backlog = parse_backlog (field? v (codes "backlog"));
    projected = tiles_of max_projected_flow_tiles parse_projected (field? v (codes "projected"));
    recent = tiles_of max_recent_tiles parse_tile (field? v (codes "recent"));
  }

pub data BacklogState : Type 0 where
  awaiting_data unavailable empty deep : BacklogState
  clear : ℕ → BacklogState

served_state : Option BacklogView → BacklogState
served_state none = BacklogState.unavailable
served_state (some backlog) =
    if backlog.tx_count == 0
    then BacklogState.empty
    else if backlog.depth_blocks == 0
    then BacklogState.clear backlog.tx_count
    else BacklogState.deep

pub backlog_state : Option BlockFlowView → BacklogState
unfolding served_state
backlog_state none = BacklogState.awaiting_data
backlog_state (some flow) = served_state flow.backlog
