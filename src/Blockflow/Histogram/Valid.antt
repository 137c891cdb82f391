-- ===== src/Blockflow/Histogram/Valid.antt =====
-- src/blockflow.rs, `mempool_histogram`: what a served histogram satisfies.
use xus_miner.Common.{
  &&_iff, inl, inr, Option-cases, codes, ◌>>=◌, ℕ, ◌+◌, ◌≤◌, ◌<◌, ◌≡◌, List, [], ◌∷◌, some, true,
  length, All, sum_of, leb, ◌==◌, not, u64_max, ==_iff, leb→le, >>=-eq-some, guard-eq-some, arith,
  some_inj,
}
use mathlib.Core.Path.{subst}
use xus_miner.Blockflow.Reply.{grains}
use xus_miner.Common.Json.{Json}
use xus_miner.Blockflow.Histogram.{
  HistogramBucket, MempoolHistogram, max_histogram_buckets, ordered, checked_sum, parse_buckets,
  check_buckets, mempool_histogram,
}

-- Every bucket pays at least what each later one pays.
abbrev pub Falls : List HistogramBucket → Type 0
Falls [] = Unit {0}
Falls (b ∷ bs) = All (λ c. c.fee_rate_grains ≤ b.fee_rate_grains) bs × Falls bs

abbrev pub total : List HistogramBucket → ℕ
total = sum_of (λ b. b.tx_count)

pub record IsValid (h : MempoolHistogram) : Type 0 where
  pub capacity : 0 < h.max_block_txs
  pub few : length h.buckets ≤ max_histogram_buckets
  pub falls : Falls h.buckets
  pub exact : total h.buckets ≡ h.tx_count
  pub fits : h.tx_count ≤ u64_max

All-le :
    (r s : ℕ) (bs : List HistogramBucket)
    → r ≤ s
    → All (λ c. c.fee_rate_grains ≤ r) bs
    → All (λ c. c.fee_rate_grains ≤ s) bs
All-le r s [] h a = tt
All-le r s (b ∷ bs) h a = (omega arith, All-le r s bs h a.1)

ordered-Falls : (bs : List HistogramBucket) → ordered bs ≡ true → Falls bs
unfolding ordered
ordered-Falls [] e = tt
ordered-Falls (b ∷ []) e = (tt, tt)
ordered-Falls (b ∷ c ∷ bs) e =
    let (first, rest) = (&&_iff (leb c.fee_rate_grains b.fee_rate_grains) _).0 e in
    let falls = ordered-Falls (c ∷ bs) rest in
    let below = leb→le c.fee_rate_grains b.fee_rate_grains first in
    ((below, All-le c.fee_rate_grains b.fee_rate_grains bs below falls.0), falls)

checked_sum-total :
    (acc : ℕ) (bs : List HistogramBucket) {r : ℕ}
    → acc ≤ u64_max
    → checked_sum acc bs ≡ some r
    → (r ≡ acc + total bs) × (r ≤ u64_max)
unfolding checked_sum
checked_sum-total acc [] h e = ground arith
checked_sum-total acc (b ∷ bs) {r} h e =
    ground (arith, checked_sum-total (acc + b.tx_count) bs {r = r})

check_buckets-IsValid :
    (count capacity : ℕ) (bs : List HistogramBucket) {h : MempoolHistogram}
    → 0 < capacity
    → length bs ≤ max_histogram_buckets
    → check_buckets count capacity bs ≡ some h
    → IsValid h
unfolding check_buckets
check_buckets-IsValid count capacity bs {h} positive few e =
    let (falls, e₁) = guard-eq-some (ordered bs) _ e in
    let (sum, summed, e₂) = >>=-eq-some (checked_sum 0 bs) _ e₁ in
    let (same, e₃) = guard-eq-some (sum == count) _ e₂ in
    let (exact, fits) = checked_sum-total 0 bs (omega arith) summed in
    let equal = (==_iff sum count).0 same in
    subst IsValid (some_inj e₃) (record {
      capacity = positive;
      few = few;
      falls = ordered-Falls bs falls;
      exact = omega arith;
      fits = omega arith;
    })

module _ (J : Json) where
  open J use {Value, field?, as_array}

  length-parse_buckets :
      (vs : List Value) {bs : List HistogramBucket}
      → parse_buckets J vs ≡ some bs
      → length bs ≡ length vs
  unfolding parse_buckets
  length-parse_buckets [] {bs} e = ground arith
  length-parse_buckets (v ∷ vs) {bs} e = elim (Option-cases (parse_buckets J vs)) [
    | inl failed ↦ ground arith
    | inr (cs, parsed) ↦ ground (arith, length-parse_buckets vs parsed)
  ]

  -- Whatever JSON value the node serves, a histogram that is accepted has a positive block
  -- capacity and at most `MAX_HISTOGRAM_BUCKETS` buckets, pays its buckets in falling order, and
  -- counts exactly the transactions of its buckets, within `u64`.
  pub mempool_histogram-IsValid :
      (v : Value) {h : MempoolHistogram} → mempool_histogram J v ≡ some h → IsValid h
  unfolding mempool_histogram
  mempool_histogram-IsValid v {h} e =
      let (count, _, e₁) = >>=-eq-some (field? v (codes "txCount") >>= grains J) _ e in
      let (capacity, _, e₂) = >>=-eq-some (field? v (codes "maxBlockTxs") >>= grains J) _ e₁ in
      let (positive, e₃) = guard-eq-some (not (capacity == 0)) _ e₂ in
      let (raw, _, e₄) = >>=-eq-some (field? v (codes "buckets") >>= as_array) _ e₃ in
      let (few, e₅) = guard-eq-some (leb (length raw) max_histogram_buckets) _ e₄ in
      let (buckets, parsed, e₆) = >>=-eq-some (parse_buckets J raw) _ e₅ in
      check_buckets-IsValid count capacity buckets (ground arith)
        (omega (arith, leb→le (length raw) _ few, length-parse_buckets raw parsed)) e₆
