-- ===== src/Blockflow/Histogram/Packing/Fees.antt =====
-- src/blockflow.rs, `packed_pending_blocks`: the fee ranges of the packed blocks.
use xus_miner.Common.{
  ℕ, zero, suc, ◌+◌, ◌-◌, ◌≤◌, ◌≡◌, inl, inr, refl, List, [], ◌∷◌, ◌++◌, reverse, All, All-append,
  min, max, ◌==◌, ◌||◌, ◌&&◌, ltb, length, saturating_add, Bool-cases, arith,
}
use mathlib.Core.List.{reverse-cons}
use xus_miner.Blockflow.Histogram.{
  HistogramBucket, MempoolHistogram, ProjectedBlock, Packed, widen, open_block, pack_bucket, pack,
  split_first, packed_pending_blocks,
}
use xus_miner.Blockflow.Histogram.Valid.{IsValid, Falls}

-- Newest first, from `lo` on the fee ranges rise and do not overlap.
abbrev Ascends : ℕ → List ProjectedBlock → Type 0
Ascends lo [] = Unit {0}
Ascends lo (b ∷ bs) =
    (lo ≤ b.fee_min_grains) × (b.fee_min_grains ≤ b.fee_max_grains) × Ascends b.fee_max_grains bs

Ascends-mono : (lo lo' : ℕ) (bs : List ProjectedBlock) → lo' ≤ lo → Ascends lo bs → Ascends lo' bs
Ascends-mono lo lo' [] h a = tt
Ascends-mono lo lo' (b ∷ bs) h a = (omega arith, a.1, a.2)

widen-Ascends :
    (count : ℕ → ℕ) (rate lo : ℕ) (bs : List ProjectedBlock)
    → rate ≤ lo
    → Ascends lo bs
    → Ascends rate (widen count rate bs)
unfolding widen
widen-Ascends count rate lo [] h a = tt
widen-Ascends count rate lo (b ∷ bs) h a = (
  omega arith,
  omega arith,
  Ascends-mono b.fee_max_grains (max b.fee_max_grains rate) bs (omega arith) a.2,
)

open_block-Ascends :
    (capacity rate lo : ℕ) (p : Packed)
    → rate ≤ lo
    → Ascends lo p.blocks
    → Ascends rate (open_block capacity rate p).blocks
unfolding open_block
open_block-Ascends capacity rate lo p h a = ground (arith, Ascends-mono lo rate p.blocks h a)

pack_bucket-Ascends :
    (capacity cap rate lo fuel : ℕ) (p : Packed) (remaining : ℕ)
    → rate ≤ lo
    → Ascends lo p.blocks
    → Ascends rate (pack_bucket capacity cap rate fuel p remaining).blocks
unfolding pack_bucket
pack_bucket-Ascends capacity cap rate lo zero p remaining h a = Ascends-mono lo rate p.blocks h a
pack_bucket-Ascends capacity cap rate lo (suc fuel) p remaining h a =
    elim (Bool-cases (remaining == 0)) [
      | inl none_left ↦ rw none_left (Ascends-mono lo rate p.blocks h a)
      | inr some_left ↦ elim (Bool-cases (p.room == 0 && ltb cap (length p.blocks))) [
        | inl full ↦
            rw (some_left, full)
              (widen-Ascends (λ n. saturating_add n remaining) rate lo p.blocks h a)
        | inr free ↦
            let q = open_block capacity rate p in
            let t = min remaining q.room in
            rw (some_left, free)
              (pack_bucket-Ascends capacity cap rate rate fuel
                (record { blocks = widen (λ n. n + t) rate q.blocks; room = q.room - t })
                (remaining - t) (omega arith)
                (widen-Ascends (λ n. n + t) rate rate q.blocks (omega arith)
                  (open_block-Ascends capacity rate lo p h a)))
      ]
    ]

pack-Ascends :
    (capacity cap lo : ℕ) (p : Packed) (bs : List HistogramBucket)
    → All (λ b. b.fee_rate_grains ≤ lo) bs
    → Falls bs
    → Ascends lo p.blocks
    → Ascends 0 (pack capacity cap p bs).blocks
unfolding pack
pack-Ascends capacity cap lo p [] below falls a = Ascends-mono lo 0 p.blocks (omega arith) a
pack-Ascends capacity cap lo p (b ∷ bs) below falls a =
    pack-Ascends capacity cap b.fee_rate_grains _ bs falls.0 falls.1
      (pack_bucket-Ascends capacity cap b.fee_rate_grains lo b.tx_count p b.tx_count below.0 a)

-- Each block spans a range of fees, and no later block pays more than an earlier one asks.
abbrev pub FeesFall : List ProjectedBlock → Type 0
FeesFall [] = Unit {0}
FeesFall (b ∷ bs) =
    (b.fee_min_grains ≤ b.fee_max_grains)
    × All (λ c. c.fee_max_grains ≤ b.fee_min_grains) bs
    × FeesFall bs

All-reverse {ℓ κ} : {A : Type ℓ} (P : A → Type κ) (xs : List A) → All P xs → All P (reverse xs)
All-reverse P [] h = h
All-reverse P (x ∷ xs) h =
    rw (reverse-cons x xs) (All-append P (reverse xs) (x ∷ []) (All-reverse P xs h.1) (h.0, tt))

FeesFall-snoc :
    (bs : List ProjectedBlock) (b : ProjectedBlock)
    → FeesFall bs
    → b.fee_min_grains ≤ b.fee_max_grains
    → All (λ c. b.fee_max_grains ≤ c.fee_min_grains) bs
    → FeesFall (bs ++ b ∷ [])
FeesFall-snoc [] b f h above = (h, tt, tt)
FeesFall-snoc (c ∷ bs) b f h above =
    (f.0, All-append _ bs (b ∷ []) f.1 (above.0, tt), FeesFall-snoc bs b f.2 h above.1)

Ascends-above :
    (lo : ℕ) (bs : List ProjectedBlock) → Ascends lo bs → All (λ c. lo ≤ c.fee_min_grains) bs
Ascends-above lo [] a = tt
Ascends-above lo (b ∷ bs) a =
    (a.0, Ascends-above lo bs (Ascends-mono b.fee_max_grains lo bs (omega arith) a.2))

FeesFall-reverse : (lo : ℕ) (bs : List ProjectedBlock) → Ascends lo bs → FeesFall (reverse bs)
FeesFall-reverse lo [] a = tt
FeesFall-reverse lo (b ∷ bs) a = rw (reverse-cons b bs) (
    FeesFall-snoc (reverse bs) b (FeesFall-reverse b.fee_max_grains bs a.2) a.1
      (All-reverse _ bs (Ascends-above b.fee_max_grains bs a.2)))

FeesFall-split_first : (bs : List ProjectedBlock) → FeesFall bs → FeesFall (split_first bs)
unfolding split_first
FeesFall-split_first [] f = tt
FeesFall-split_first (b ∷ bs) f = f.2

all_packed-Ascends :
    (capacity cap : ℕ) (p : Packed) (bs : List HistogramBucket)
    → Falls bs
    → p.blocks ≡ []
    → Ascends 0 (pack capacity cap p bs).blocks
all_packed-Ascends capacity cap p [] f e = unfold pack in rw e tt
all_packed-Ascends capacity cap p (b ∷ bs) f e =
    pack-Ascends capacity cap b.fee_rate_grains p (b ∷ bs) (omega arith, f.0) f (rw e tt)

-- The pending blocks of a valid histogram stand in the order of the auction: each spans a range of
-- fees, and none pays more than an earlier one asks.
pub packed_pending_blocks-FeesFall :
    (h : MempoolHistogram) (cap : ℕ) → IsValid h → FeesFall (packed_pending_blocks h cap)
unfolding packed_pending_blocks
packed_pending_blocks-FeesFall h cap v =
    let start : Packed = record { blocks = []; room = 0 } in
    let fees = FeesFall-split_first _ (
      FeesFall-reverse 0 (pack h.max_block_txs cap start h.buckets).blocks
        (all_packed-Ascends h.max_block_txs cap start h.buckets v.falls refl)) in
    elim (Bool-cases (h.max_block_txs == 0 || h.tx_count == 0)) [
      | inl idle ↦ rw idle tt
      | inr busy ↦ rw busy fees
    ]
