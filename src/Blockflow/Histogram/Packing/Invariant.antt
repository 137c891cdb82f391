-- ===== src/Blockflow/Histogram/Packing/Invariant.antt =====
-- src/blockflow.rs, the loop of `packed_pending_blocks`: its invariant.
use xus_miner.Common.{
  ℕ, zero, suc, ◌+◌, ◌-◌, ◌≤◌, ◌<◌, ◌≡◌, ◌⊎◌, inl, inr, List, [], ◌∷◌, true, false, ◌&&◌, length,
  All, sum_of, ltb, ◌==◌, min, u64_max, saturating_add, Bool-cases, arith,
}
use mathlib.Core.Path.{subst}
use xus_miner.Blockflow.Histogram.{
  HistogramBucket, ProjectedBlock, Packed, widen, open_block, pack_bucket, pack,
}
use xus_miner.Blockflow.Histogram.Valid.{total}

abbrev pub count : List ProjectedBlock → ℕ
count = sum_of (λ b. b.tx_count)

abbrev pub Full : ℕ → List ProjectedBlock → Type 0
Full capacity = All (λ b. b.tx_count ≡ capacity)

-- Behind the newest block all are full. The newest has room for the rest of the capacity, or the
-- cap is reached and it takes the tail.
abbrev pub Shape : ℕ → ℕ → ℕ → List ProjectedBlock → ℕ → Type 0
Shape capacity cap done [] room = (room ≡ 0) × (done ≡ 0)
Shape capacity cap done (b ∷ bs) room =
    Full capacity bs
    × (b.tx_count + count bs ≡ done)
    × (0 < b.tx_count)
    × (length bs ≤ cap)
    × ((b.tx_count + room ≡ capacity) ⊎ ((room ≡ 0) × (length bs ≡ cap) × (capacity ≤ b.tx_count)))

module _ (capacity cap rate : ℕ) (positive : 0 < capacity) where
  -- One round that does not meet the cap.
  round : Packed → ℕ → Packed
  unfolding widen open_block
  round p remaining =
      let q = open_block capacity rate p in
      let taken = min remaining q.room in
      record { blocks = widen (λ n. n + taken) rate q.blocks; room = q.room - taken }

  taken_now : Packed → ℕ → ℕ
  unfolding open_block
  taken_now p remaining = min remaining (open_block capacity rate p).room

  round-Shape :
      (blocks : List ProjectedBlock) (room remaining done : ℕ)
      → Shape capacity cap done blocks room
      → 0 < remaining
      → (room == 0 && ltb cap (length blocks)) ≡ false
      → let p : Packed = record { blocks = blocks; room = room } in
        let q = round p remaining in
        Shape capacity cap (done + taken_now p remaining) q.blocks q.room
        × (0 < taken_now p remaining)
        × (taken_now p remaining ≤ remaining)
  unfolding round taken_now
  round-Shape [] room remaining done s h below = ground arith
  round-Shape (b ∷ bs) room remaining done s h below = ground arith

  merge-Shape :
      (blocks : List ProjectedBlock) (room remaining done : ℕ)
      → Shape capacity cap done blocks room
      → done + remaining ≤ u64_max
      → (room == 0 && ltb cap (length blocks)) ≡ true
      → Shape capacity cap
          (done + remaining)
          (widen (λ n. saturating_add n remaining) rate blocks)
          room
  unfolding widen
  merge-Shape [] room remaining done s fits full = ground arith
  merge-Shape (b ∷ bs) room remaining done s fits full = ground arith

  -- With fuel for every transaction of the bucket the loop ends with all of them packed.
  pub pack_bucket-Shape :
      (fuel : ℕ) (p : Packed) (remaining done : ℕ)
      → remaining ≤ fuel
      → done + remaining ≤ u64_max
      → Shape capacity cap done p.blocks p.room
      → let q = pack_bucket capacity cap rate fuel p remaining in
        Shape capacity cap (done + remaining) q.blocks q.room
  unfolding pack_bucket round taken_now
  pack_bucket-Shape zero p remaining done enough fits s =
      subst (λ d. Shape capacity cap d p.blocks p.room) {x = done} (omega arith) s
  pack_bucket-Shape (suc fuel) p remaining done enough fits s = elim (Bool-cases (remaining == 0)) [
    | inl none_left ↦
        rw none_left (subst (λ d. Shape capacity cap d p.blocks p.room) {x = done} (ground arith) s)
    | inr some_left ↦ elim (Bool-cases (p.room == 0 && ltb cap (length p.blocks))) [
      | inl full ↦ rw (some_left, full) (merge-Shape p.blocks p.room remaining done s fits full)
      | inr free ↦
          let t = taken_now p remaining in
          let (shape, taken, within) =
            round-Shape p.blocks p.room remaining done s (ground arith) free in
          let q = round p remaining in
          rw (some_left, free)
            (subst
              (λ d.
                let r = pack_bucket capacity cap rate fuel q (remaining - t) in
                Shape capacity cap d r.blocks r.room)
              {x = done + t + (remaining - t)} (omega arith)
              (pack_bucket-Shape fuel q (remaining - t) (done + t) (omega arith) (omega arith)
                shape))
    ]
  ]

-- The packing of all buckets counts each of their transactions once.
pub pack-Shape :
    (capacity cap : ℕ) (p : Packed) (bs : List HistogramBucket) (done : ℕ)
    → 0 < capacity
    → done + total bs ≤ u64_max
    → Shape capacity cap done p.blocks p.room
    → let q = pack capacity cap p bs in Shape capacity cap (done + total bs) q.blocks q.room
unfolding pack
pack-Shape capacity cap p [] done positive fits s =
    subst (λ d. Shape capacity cap d p.blocks p.room) {x = done} (omega arith) s
pack-Shape capacity cap p (b ∷ bs) done positive fits s =
    let q = pack_bucket capacity cap b.fee_rate_grains b.tx_count p b.tx_count in
    subst (λ d. let r = pack capacity cap q bs in Shape capacity cap d r.blocks r.room)
      {x = done + b.tx_count + total bs} (omega arith)
      (pack-Shape capacity cap q bs (done + b.tx_count) positive (omega arith) (
        pack_bucket-Shape capacity cap b.fee_rate_grains positive b.tx_count p b.tx_count done
          (omega arith) (omega arith) s))
