-- ===== src/Blockflow/Tip.antt =====
-- src/blockflow.rs: `TipAdvance`, `BlockRecord` and `TipWatch`, the tip detector of the block feed.
pub mod Advance
pub mod Memory
pub mod Outcome
pub mod Repeated
use xus_miner.Common.{
  ℕ, ◌+◌, ◌-◌, min, Bool, true, false, ◌&&◌, not, List, [], Option, none, some, leb, if◌then◌else◌,
  range_inclusive, Str, str_eq, trim, is_empty, byte_len,
}
use xus_miner.Common.BTree.{BTreeMap, get, insert, prune_to}

abbrev pub max_hash_chars : ℕ
max_hash_chars = 128

abbrev pub max_gap_blocks : ℕ
max_gap_blocks = 4

abbrev pub max_reported_tracked : ℕ
max_reported_tracked = 64

pub data TipAdvance : Type 0 where
  baseline : ℕ → TipAdvance
  -- The heights to report, the count of those left out, and the first and last of these.
  blocks : List ℕ → ℕ → ℕ → ℕ → TipAdvance
  unchanged : TipAdvance

pub data BlockRecord : Type 0 where
  new : BlockRecord
  already_reported : BlockRecord
  reorg : Str → BlockRecord

pub record TipWatch : Type 0 where
  pub last_tip : Option ℕ
  pub needs_baseline : Bool
  pub reported : BTreeMap (Option Str)

-- `TipWatch::default()`.
pub default : TipWatch
default = record { last_tip = none; needs_baseline = false; reported = [] }

pub begin_session : TipWatch → TipWatch
begin_session w = record w { needs_baseline = true }

pub prune : TipWatch → TipWatch
prune w = record w { reported = prune_to max_reported_tracked w.reported }

-- `entry(height).or_insert(None)`.
pub or_insert_none : ℕ → BTreeMap (Option Str) → BTreeMap (Option Str)
or_insert_none height m = elim (get height m) [ none ↦ insert height none m | some _ ↦ m ]

announce_baseline : TipWatch → ℕ → TipWatch × TipAdvance
unfolding prune
announce_baseline w tip = (
  prune (record {
    last_tip = some tip;
    needs_baseline = false;
    reported = or_insert_none tip w.reported;
  }),
  baseline tip,
)

-- The part of `observe_tip` behind the baseline.
pub advance : TipWatch → ℕ → ℕ → TipWatch × TipAdvance
advance w last tip =
    if leb tip last
    then (record w { last_tip = some (min tip last) }, unchanged)
    else (let gap = tip - last in
        let reported = min gap max_gap_blocks in
        let first_reported = tip - reported + 1 in
        (
          record w { last_tip = some tip },
          blocks (range_inclusive first_reported tip) (gap - reported) (last + 1)
              (first_reported - 1),
        ))

observe_from : Bool → Option ℕ → TipWatch → ℕ → TipWatch × TipAdvance
observe_from true last w tip = announce_baseline w tip
observe_from false none w tip = announce_baseline w tip
observe_from false (some last) w tip = advance w last tip

pub observe_tip : TipWatch → ℕ → TipWatch × TipAdvance
unfolding observe_from announce_baseline advance
observe_tip w tip = observe_from w.needs_baseline w.last_tip w tip

-- A usable hash: trimmed, not empty, and of at most `MAX_HASH_CHARS` bytes.
pub clean_hash : Option Str → Option Str
clean_hash none = none
clean_hash (some raw) =
    let hash = trim raw in
    if not (is_empty hash) && leb (byte_len hash) max_hash_chars then some hash else none

-- A height that is known, with the hash that is remembered and the one that was observed.
pub match_known :
    ℕ → BTreeMap (Option Str) → Option Str → Option Str → BTreeMap (Option Str) × BlockRecord
match_known height m (some previous) (some found) =
    if str_eq previous found
    then (m, already_reported)
    else (insert height (some found) m, reorg previous)
match_known height m none (some found) = (insert height (some found) m, already_reported)
match_known height m existing none = (m, already_reported)

pub match_reported :
    ℕ → BTreeMap (Option Str) → Option Str → Bool → BTreeMap (Option Str) × BlockRecord
unfolding match_known
match_reported height m hash announce_new = elim (get height m) [
  | some existing ↦ match_known height m existing hash
  | none ↦ (insert height hash m, if announce_new then new else already_reported)
]

-- `TipWatch::record`.
pub register : TipWatch → ℕ → Option Str → Bool → TipWatch × BlockRecord
unfolding match_reported clean_hash prune
register w height hash announce_new =
    let (m, outcome) = match_reported height w.reported (clean_hash hash) announce_new in
    (prune (record w { reported = m }), outcome)

pub record_reported : TipWatch → ℕ → Option Str → TipWatch × BlockRecord
record_reported w height hash = register w height hash true

pub observe_fetched : TipWatch → ℕ → Option Str → TipWatch × BlockRecord
observe_fetched w height hash = register w height hash false
