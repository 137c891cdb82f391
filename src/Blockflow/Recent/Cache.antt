-- ===== src/Blockflow/Recent/Cache.antt =====
-- src/blockflow.rs, `RecentBlocks::insert`: what the cache holds behind a fetched block.
use xus_miner.Common.{
  ℕ, ◌≡◌, ◌&&◌, none, some, leb, ltb, ◌==◌, if◌then◌else◌, arith, Bool-cases, inl, inr,
}
use xus_miner.Common.BTree.{get, get-insert, get-retain}
use xus_miner.Blockflow.Recent.{RecentBlocks, BlockInfo, insert_block, reorged, window_start}

-- Behind an insertion a height of the window has the block that was fetched for it; any other keeps
-- what was cached, unless the fetched block replaced another and stands below it; outside the
-- window nothing is cached.
pub get-insert_block :
    (b : RecentBlocks) (tip height at : ℕ) (info : BlockInfo)
    → get at (insert_block b tip height info).blocks ≡ (
        if leb (window_start tip) at && leb at tip
        then (if height == at
            then some info
            else if reorged b height info && ltb height at
            then none
            else get at b.blocks)
        else none)
unfolding insert_block
get-insert_block b tip height at info = elim (Bool-cases (reorged b height info)) [
  | inl changed ↦ rw changed (rw (get-retain, get-insert, get-retain) (ground arith))
  | inr same ↦ rw same (rw (get-retain, get-insert) (ground arith))
]
