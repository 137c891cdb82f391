-- ===== src/Blockflow/Sealed/Attribution.antt =====
-- src/blockflow.rs, `SealedBlocks::sealed` and `mine_mark`: what a block is attributed to.
use xus_miner.Common.{
  ℕ, ◌≡◌, ◌↔◌, ◌⊎◌, inl, inr, refl, Bool, true, false, Option, none, some, Exists, any_iff, Str,
  str_eq_iff, ==_iff, arith, Bool-cases,
}
use xus_miner.Blockflow.Sealed.{
  SealedBlocks, sealed, mine_mark, proven, not_mine, unverified_height,
}

-- The proof standard: the disclosed hash is one that this miner sealed; where the node disclosed
-- no hash, the height is one at which it sealed.
abbrev pub Attributed : SealedBlocks → ℕ → Option Str → Type 0
Attributed s at (some disclosed) = Exists (λ e. e.1 ≡ disclosed) s.entries
Attributed s at none = Exists (λ e. e.0 ≡ at) s.entries

pub sealed_iff :
    (s : SealedBlocks) (at : ℕ) (disclosed : Option Str)
    → (sealed s at disclosed ≡ true) ↔ Attributed s at disclosed
unfolding sealed
sealed_iff s at (some disclosed) = any_iff _ _ s.entries (λ e. str_eq_iff e.1 disclosed)
sealed_iff s at none = any_iff _ _ s.entries (λ e. ==_iff e.0 at)

-- A mark claims a block for this miner exactly when the block's detail was fetched and the proof
-- standard holds of what it disclosed.
pub mine_mark-proven_iff :
    (s : SealedBlocks) (at : ℕ) (fetched : Bool) (disclosed : Option Str)
    → (proven (mine_mark s at fetched disclosed) ≡ true)
      ↔ ((fetched ≡ true) × Attributed s at disclosed)
unfolding mine_mark proven
mine_mark-proven_iff s at false disclosed = ground arith
mine_mark-proven_iff s at true none = ground (arith, sealed_iff s at none)
mine_mark-proven_iff s at true (some h) = ground (arith, sealed_iff s at (some h))

-- Without the block's detail no hash is looked at, and a height at which this miner sealed gives
-- the unverified mark and nothing stronger.
mine_mark_unfetched :
    (s : SealedBlocks) (at : ℕ) (disclosed : Option Str)
    → ((mine_mark s at false disclosed ≡ unverified_height) × Exists (λ e. e.0 ≡ at) s.entries)
      ⊎ ((mine_mark s at false disclosed ≡ not_mine) × (Exists (λ e. e.0 ≡ at) s.entries → ⊥))
unfolding mine_mark
mine_mark_unfetched s at disclosed = elim (Bool-cases (sealed s at none)) [
  | inl found ↦ inl (rw found refl, (sealed_iff s at none).0 found)
  | inr missing ↦ inr (rw missing refl, λ m. absurd (ground (arith, (sealed_iff s at none).1 m)))
]
