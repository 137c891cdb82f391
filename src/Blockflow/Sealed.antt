-- ===== src/Blockflow/Sealed.antt =====
-- src/blockflow.rs: `SealedBlocks` and `MineMark`, the blocks that this miner sealed itself.
pub mod History
pub mod Attribution
use xus_miner.Common.{
  ℕ, suc, Bool, true, false, List, [], ◌∷◌, ◌++◌, Option, none, some, ltb, ◌==◌, if◌then◌else◌,
  length, any, Str, str_eq, codes,
}

abbrev pub max_sealed_tracked : ℕ
max_sealed_tracked = 32

-- Heights and hashes, oldest first.
pub record SealedBlocks : Type 0 where
  pub entries : List (ℕ × Str)

-- `SealedBlocks::default()`.
pub default : SealedBlocks
default = record { entries = [] }

-- `while len > MAX_SEALED_TRACKED { pop_front }`.
pop_to : ℕ → List (ℕ × Str) → List (ℕ × Str)
pop_to bound [] = []
pop_to bound (e ∷ es) = if ltb bound (suc (length es)) then pop_to bound es else e ∷ es

-- `SealedBlocks::record`.
pub record_entry : SealedBlocks → ℕ → Str → SealedBlocks
unfolding pop_to
record_entry s height hash = record {
  entries = pop_to max_sealed_tracked (s.entries ++ (height, hash) ∷ []);
}

pub sealed : SealedBlocks → ℕ → Option Str → Bool
sealed s height (some hash) = any (λ e. str_eq e.1 hash) s.entries
sealed s height none = any (λ e. e.0 == height) s.entries

pub data MineMark : Type 0 where
  hash height unverified_height not_mine : MineMark

disclosed_mark : Option Str → MineMark
disclosed_mark (some _) = hash
disclosed_mark none = height

pub mine_mark : SealedBlocks → ℕ → Bool → Option Str → MineMark
unfolding disclosed_mark
mine_mark s at detail_fetched disclosed =
    if detail_fetched
    then (if sealed s at disclosed then disclosed_mark disclosed else not_mine)
    else if sealed s at none
    then unverified_height
    else not_mine

unfoldable pub proven : MineMark → Bool
proven hash = true
proven height = true
proven _ = false

pub basis : MineMark → Option Str
basis hash = some (codes "hash")
basis height = some (codes "height")
basis unverified_height = some (codes "unverified")
basis not_mine = none
