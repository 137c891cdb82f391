-- ===== src/Blockflow/Recent.antt =====
-- src/blockflow.rs: `BlockInfo`, `Tile` and `RecentBlocks`, the cache behind the confirmed strip.
pub mod Window
pub mod Cache
use xus_miner.Common.{
  ℕ, zero, suc, ◌-◌, Bool, true, false, ◌&&◌, not, List, [], ◌∷◌, ◌++◌, Option, none, some, leb,
  if◌then◌else◌, length, Str, str_eq,
}
use xus_miner.Common.BTree.{BTreeMap, get, contains_key, retain}
use xus_miner.Common.BTree
use xus_miner.Blockflow.Sealed.{SealedBlocks, MineMark, mine_mark}

abbrev pub recent_depth : ℕ
recent_depth = 33

abbrev pub max_fetch_per_refresh : ℕ
max_fetch_per_refresh = 4

pub record BlockInfo : Type 0 where
  pub hash : Option Str
  pub tx_count : Option ℕ
  pub timestamp_ms : Option ℕ

pub record Tile : Type 0 where
  pub height : ℕ
  pub tx_count : Option ℕ
  pub timestamp_ms : Option ℕ
  pub mine : MineMark

pub record RecentBlocks : Type 0 where
  pub blocks : BTreeMap BlockInfo

-- `RecentBlocks::default()`.
pub default : RecentBlocks
default = record { blocks = [] }

pub window_start : ℕ → ℕ
window_start tip = tip - (recent_depth - 1)

pub is_missing : RecentBlocks → ℕ → Bool
is_missing b height = not (contains_key height b.blocks)

visit : RecentBlocks → ℕ → List ℕ → List ℕ
visit b height targets = if is_missing b height then targets ++ height ∷ [] else targets

-- The loop of `refresh_targets`: the first number counts the heights of the window below `height`.
gather : RecentBlocks → ℕ → ℕ → List ℕ → List ℕ
unfolding visit
gather b zero height targets = visit b height targets
gather b (suc left) height targets =
    let found = visit b height targets in
    let rest = gather b left (height - 1) found in
    if is_missing b height && leb max_fetch_per_refresh (length found) then found else rest

pub refresh_targets : RecentBlocks → ℕ → List ℕ
unfolding window_start gather
refresh_targets b tip = gather b (tip - window_start tip) tip []

-- Both hashes are known, and they differ.
conflicts : Option Str → Option Str → Bool
conflicts (some old) (some found) = not (str_eq old found)
conflicts _ _ = false

-- The hash at this height changed.
pub reorged : RecentBlocks → ℕ → BlockInfo → Bool
unfolding conflicts
reorged b height info = elim (get height b.blocks) [
  | none ↦ false
  | some existing ↦ conflicts existing.hash info.hash
]

-- `RecentBlocks::insert`.
pub insert_block : RecentBlocks → ℕ → ℕ → BlockInfo → RecentBlocks
unfolding reorged window_start
insert_block b tip height info =
    let kept =
      if reorged b height info then retain (λ cached. leb cached height) b.blocks else b.blocks in
    record {
      blocks =
          retain (λ cached. leb (window_start tip) cached && leb cached tip)
            (BTree.insert height info kept);
    }

pub tile_of : RecentBlocks → SealedBlocks → ℕ → Tile
tile_of b sealed height = elim (get height b.blocks) [
  | none ↦ record {
    height = height;
    tx_count = none;
    timestamp_ms = none;
    mine = mine_mark sealed height false none;
  }
  | some info ↦ record {
    height = height;
    tx_count = info.tx_count;
    timestamp_ms = info.timestamp_ms;
    mine = mine_mark sealed height true info.hash;
  }
]

-- The loop of `tiles`.
lay : RecentBlocks → SealedBlocks → ℕ → ℕ → List Tile → List Tile
unfolding tile_of
lay b sealed zero height strip = strip ++ tile_of b sealed height ∷ []
lay b sealed (suc left) height strip =
    lay b sealed left (height - 1) (strip ++ tile_of b sealed height ∷ [])

pub tiles : RecentBlocks → ℕ → SealedBlocks → List Tile
unfolding window_start lay
tiles b tip sealed = lay b sealed (tip - window_start tip) tip []
