-- ===== src/Examples/Feed.antt =====
-- Tests of src/blockflow.rs: the tip detector, the sealed blocks and the recent blocks.
use xus_miner.Common.{
  ℕ, ◌+◌, ◌-◌, ◌≡◌, ◌≢◌, ◌↔◌, inl, refl, true, false, ◌&&◌, List, [], ◌∷◌, Option, none, some, min,
  leb, ltb, ◌==◌, if◌then◌else◌, length, take, keep, range_inclusive, Str, codes, arith,
}
use xus_miner.Common.BTree.{get}
use xus_miner.Blockflow.Tip.{
  TipWatch, BlockRecord, observe_tip, clean_hash, register, record_reported, max_gap_blocks,
}
use xus_miner.Blockflow.Tip
use xus_miner.Blockflow.Tip.Advance.{
  session, final_tip, accounted, announced, summarised, omitted_count, Follows, session-range,
  observe_tip_covers,
}
use xus_miner.Blockflow.Tip.Memory.{Event, IsBounded, run, run-default-IsBounded}
use xus_miner.Blockflow.Tip.Repeated.{record_reported_again, length-record_reported}
use xus_miner.Blockflow.Tip.Outcome.{latest, register-reorg_iff, register-remembers}
use xus_miner.Blockflow.Sealed.{
  SealedBlocks, MineMark, mine_mark, proven, record_entry, max_sealed_tracked,
}
use xus_miner.Blockflow.Sealed
use xus_miner.Blockflow.Sealed.History.{record_all, newest, record_all-default}
use xus_miner.Blockflow.Sealed.Attribution.{Attributed, mine_mark-proven_iff}
use xus_miner.Blockflow.Recent.{
  RecentBlocks, BlockInfo, refresh_targets, is_missing, max_fetch_per_refresh, insert_block,
  reorged, window_start,
}
use xus_miner.Blockflow.Recent.Window.{window, refresh_targets-take}
use xus_miner.Blockflow.Recent.Cache.{get-insert_block}

-- A detector that saw height 10 with the hash "aa".
abbrev at_ten : TipWatch
at_ten = record {
  last_tip = some 10;
  needs_baseline = false;
  reported = (10, some (codes "aa")) ∷ [];
}

at_ten-IsBounded : IsBounded at_ten
at_ten-IsBounded = record { ordered = (omega arith, tt); small = omega arith }

-- The tip jumps by nine, stays, and moves on.
abbrev tips : List ℕ
tips = 19 ∷ 19 ∷ 21 ∷ []

session-range_example : session at_ten tips ≡ range_inclusive (10 + 1) (final_tip 10 tips)
session-range_example =
    session-range at_ten 10 tips (refl, refl) (omega arith, (omega arith, (omega arith, tt)))

observe_tip_covers_example :
    (accounted (observe_tip at_ten 19).1 ≡ range_inclusive (10 + 1) 19)
    × (length (announced (observe_tip at_ten 19).1) ≡ min (19 - 10) max_gap_blocks)
    × (omitted_count (observe_tip at_ten 19).1 ≡ length (summarised (observe_tip at_ten 19).1))
    × Follows 19 (observe_tip at_ten 19).0
observe_tip_covers_example = observe_tip_covers at_ten 10 19 (refl, refl) (omega arith)

abbrev events : List Event
events =
    Event.connects
    ∷ Event.polls 10
    ∷ Event.polls 12
    ∷ Event.reports 11 none
    ∷ Event.fetches 11 (some (codes "bb"))
    ∷ []

run-default-IsBounded_example : IsBounded (run Tip.default events)
run-default-IsBounded_example = run-default-IsBounded events

abbrev new_hash : Option Str
new_hash = some (codes "bb")

register-reorg_iff_example :
    ((register at_ten 10 new_hash false).1 ≡ BlockRecord.reorg (codes "aa")) ↔ (
      (get 10 at_ten.reported ≡ some (some (codes "aa")))
      × ((n : Str) × (clean_hash new_hash ≡ some n) × (codes "aa" ≢ n)))
register-reorg_iff_example = register-reorg_iff at_ten 10 new_hash false (codes "aa")

register-remembers_example :
    get 11 (register at_ten 11 new_hash true).0.reported
    ≡ some (latest (clean_hash new_hash) (get 11 at_ten.reported))
register-remembers_example =
    register-remembers at_ten 11 new_hash true at_ten-IsBounded (inl (omega arith))

abbrev meantime : List Event
meantime = Event.connects ∷ Event.polls 12 ∷ Event.fetches 11 new_hash ∷ []

record_reported_again_example :
    (record_reported (run (record_reported at_ten 11 none).0 meantime) 11 none).1 ≢ BlockRecord.new
record_reported_again_example =
    record_reported_again at_ten 11 none none meantime at_ten-IsBounded (inl (omega arith))
      (omega (arith, length-record_reported at_ten 11 none at_ten-IsBounded))

abbrev submissions : List (ℕ × Str)
submissions = (7, codes "aa") ∷ (8, codes "bb") ∷ []

abbrev sealed_two : SealedBlocks
sealed_two = record { entries = submissions }

record_all-default_example :
    (record_all Sealed.default submissions).entries ≡ newest max_sealed_tracked submissions
record_all-default_example = record_all-default submissions

mine_mark-proven_iff_example :
    (proven (mine_mark sealed_two 8 true new_hash) ≡ true)
    ↔ ((true ≡ true) × Attributed sealed_two 8 new_hash)
mine_mark-proven_iff_example = mine_mark-proven_iff sealed_two 8 true new_hash

abbrev block_info : BlockInfo
block_info = record { hash = new_hash; tx_count = some 3; timestamp_ms = none }

abbrev cached : RecentBlocks
cached = record { blocks = (40, block_info) ∷ [] }

refresh_targets-take_example :
    refresh_targets cached 41 ≡ take max_fetch_per_refresh (keep (is_missing cached) (window 41))
refresh_targets-take_example = refresh_targets-take cached 41

get-insert_block_example : get 40 (insert_block cached 41 41 block_info).blocks ≡ (
    if leb (window_start 41) 40 && leb 40 41
    then (if 41 == 40
        then some block_info
        else if reorged cached 41 block_info && ltb 41 40
        then none
        else get 40 cached.blocks)
    else none)
get-insert_block_example = get-insert_block cached 41 41 40 block_info
