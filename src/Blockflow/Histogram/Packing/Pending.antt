-- ===== src/Blockflow/Histogram/Packing/Pending.antt =====
-- src/blockflow.rs, `packed_pending_blocks` and `backlog_depth`: what lies behind the forming block.
use xus_miner.Common.{
  ℕ, suc, ◌+◌, ◌-◌, ◌*◌, ◌/◌, ◌%◌, ◌≤◌, ◌<◌, ◌≡◌, ◌≢◌, ◌⊎◌, inl, inr, refl, sym, ap, ◌∙◌, List, [],
  ◌∷◌, ◌++◌, reverse, length, length-append, min, ◌==◌, Bool-cases, ==_iff, arith,
}
use mathlib.Core.Path.{subst}
use native.Mathlib.Decide.{dec_lt}
use native.Mathlib.Nat.{div-add-mod, mod-lt}
use mathlib.Core.List.{reverse-cons}
use xus_miner.Blockflow.Histogram.{
  MempoolHistogram, ProjectedBlock, Packed, pack, split_first, packed_pending_blocks, backlog_depth,
  div_ceil,
}
use xus_miner.Blockflow.Histogram.Valid.{IsValid, total}
use xus_miner.Blockflow.Histogram.Packing.Invariant.{count, Full, Shape, pack-Shape}

-- The blocks but the oldest, newest first.
abbrev init : List ProjectedBlock → List ProjectedBlock
init [] = []
init (b ∷ []) = []
init (b ∷ c ∷ bs) = b ∷ init (c ∷ bs)

split_first-append :
    (b : ProjectedBlock) (xs ys : List ProjectedBlock)
    → split_first ((xs ++ b ∷ []) ++ ys) ≡ split_first (xs ++ b ∷ []) ++ ys
unfolding split_first
split_first-append b [] ys = refl
split_first-append b (x ∷ xs) ys = refl

split_first-reverse : (bs : List ProjectedBlock) → split_first (reverse bs) ≡ reverse (init bs)
unfolding split_first
split_first-reverse [] = refl
split_first-reverse (b ∷ []) = refl
split_first-reverse (b ∷ c ∷ bs) =
    ap split_first (reverse-cons b (c ∷ bs) ∙ ap (λ r. r ++ b ∷ []) (reverse-cons c bs))
    ∙ split_first-append c (reverse bs) (b ∷ [])
    ∙ ap (λ r. split_first r ++ b ∷ []) (sym (reverse-cons c bs))
    ∙ ap (λ r. r ++ b ∷ []) (split_first-reverse (c ∷ bs))
    ∙ sym (reverse-cons b (init (c ∷ bs)))

module _ {ℓ} {A : Type ℓ} where
  length-reverse : (xs : List A) → length (reverse xs) ≡ length xs
  length-reverse [] = refl
  length-reverse (x ∷ xs) =
      omega (
        arith,
        ap length (reverse-cons x xs),
        length-append (reverse xs) (x ∷ []),
        length-reverse xs,
      )

length-init : (b : ProjectedBlock) (bs : List ProjectedBlock) → length (init (b ∷ bs)) ≡ length bs
length-init b [] = refl
length-init b (c ∷ bs) = ap suc (length-init c bs)

count-Full :
    (capacity : ℕ) (bs : List ProjectedBlock) → Full capacity bs → count bs ≡ length bs * capacity
count-Full capacity [] f = omega arith
count-Full capacity (b ∷ bs) f = omega (arith, count-Full capacity bs f.1)

-- The blocks behind the forming one, as a function of all blocks packed.
pending : List ProjectedBlock → List ProjectedBlock
pending bs = split_first (reverse bs)

-- All blocks that are packed, newest first.
packed : MempoolHistogram → ℕ → Packed
packed h cap = pack h.max_block_txs cap (record { blocks = []; room = 0 }) h.buckets

packed-Shape :
    (h : MempoolHistogram) (cap : ℕ)
    → IsValid h
    → Shape h.max_block_txs cap h.tx_count (packed h cap).blocks (packed h cap).room
unfolding packed
packed-Shape h cap v =
    subst
      (λ d.
        let q = pack h.max_block_txs cap (record { blocks = []; room = 0 }) h.buckets in
        Shape h.max_block_txs cap d q.blocks q.room)
      {x = 0 + total h.buckets} (omega arith)
      (pack-Shape h.max_block_txs cap (record { blocks = []; room = 0 }) h.buckets 0 v.capacity
        (omega arith) (omega arith))

Shape-nil :
    (capacity cap room : ℕ) (bs : List ProjectedBlock) → Shape capacity cap 0 bs room → bs ≡ []
Shape-nil capacity cap room [] s = refl
Shape-nil capacity cap room (b ∷ bs) s = absurd (omega arith)

packed_pending_blocks-pending :
    (h : MempoolHistogram) (cap : ℕ)
    → IsValid h
    → packed_pending_blocks h cap ≡ pending (packed h cap).blocks
unfolding packed_pending_blocks pending packed
packed_pending_blocks-pending h cap v = elim (Bool-cases (h.tx_count == 0)) [
  | inl idle ↦
      let none_packed : (packed h cap).blocks ≡ [] =
        Shape-nil h.max_block_txs cap (packed h cap).room (packed h cap).blocks (
          subst (λ d. Shape h.max_block_txs cap d (packed h cap).blocks (packed h cap).room)
            ((==_iff h.tx_count 0).0 idle) (packed-Shape h cap v)) in
      rw none_packed (unfold split_first in ground arith)
  | inr busy ↦ ground arith
]

mul-lt_cancel : (x y b : ℕ) → x * b < y * b → x < y
mul-lt_cancel x y b h = elim (dec_lt x y) [ yes lt ↦ lt | no ge ↦ absurd (grind arith) ]

le-div_ceil : (a b k : ℕ) → 0 < b → k * b < a + b → k ≤ div_ceil a b
unfolding div_ceil
le-div_ceil a b k h e = elim (Bool-cases (a % b == 0)) [
  | inl exact ↦
      let none_left = (==_iff (a % b) 0).0 exact in
      rw exact (
        let lt : k < a / b + 1 = mul-lt_cancel k (a / b + 1) b (omega (arith, div-add-mod a b)) in
        omega arith)
  | inr rest ↦ rw rest (
      let lt : k < a / b + 2 =
        mul-lt_cancel k (a / b + 2) b (omega (arith, div-add-mod a b, mod-lt a h)) in
      omega arith)
]

div_ceil-le : (a b k : ℕ) → 0 < b → a ≤ k * b → div_ceil a b ≤ k
unfolding div_ceil
div_ceil-le a b k h e = elim (Bool-cases (a % b == 0)) [
  | inl exact ↦
      let none_left = (==_iff (a % b) 0).0 exact in
      rw exact (
        let lt : a / b < k + 1 = mul-lt_cancel (a / b) (k + 1) b (omega (arith, div-add-mod a b)) in
        omega arith)
  | inr rest ↦
      let some_left : a % b ≢ 0 = ground arith in
      rw rest (
        let lt : a / b < k = mul-lt_cancel (a / b) k b (omega (arith, div-add-mod a b)) in
        omega arith)
]

length-pending :
    (capacity cap done room : ℕ) (bs : List ProjectedBlock)
    → 0 < capacity
    → 0 < cap
    → Shape capacity cap done bs room
    → length (pending bs) ≡ min cap (div_ceil (done - capacity) capacity)
unfolding pending
length-pending capacity cap done room [] h k s =
    unfold split_first in omega (arith, div_ceil-le (done - capacity) capacity 0 h (omega arith))
length-pending capacity cap done room (b ∷ bs) h k s =
    rw (split_first-reverse (b ∷ bs), length-reverse, length-init) (newest s.4)
  where
    n : ℕ
    n = length bs

    newest :
        (b.tx_count + room ≡ capacity) ⊎ ((room ≡ 0) × (length bs ≡ cap) × (capacity ≤ b.tx_count))
        → n ≡ min cap (div_ceil (done - capacity) capacity)
    newest (inl fits) =
        let sized = count-Full capacity bs s.0 in
        let upper = div_ceil-le (done - capacity) capacity n h (omega arith) in
        let lower = le-div_ceil (done - capacity) capacity n h (omega arith) in omega arith
    newest (inr merged) =
        let sized = count-Full capacity bs s.0 in
        let lower = le-div_ceil (done - capacity) capacity n h (omega arith) in omega arith

-- There are as many pending blocks as the exact backlog depth says, up to the cap.
pub length-packed_pending_blocks :
    (h : MempoolHistogram) (cap : ℕ)
    → IsValid h
    → 0 < cap
    → length (packed_pending_blocks h cap) ≡ min cap (backlog_depth h)
unfolding backlog_depth
length-packed_pending_blocks h cap v some_cap =
    let positive = v.capacity in
    let sized =
      length-pending h.max_block_txs cap h.tx_count (packed h cap).room (packed h cap).blocks
        positive some_cap (packed-Shape h cap v) in
    rw (packed_pending_blocks-pending h cap v) (sized ∙ ground arith)
