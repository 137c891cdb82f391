-- ===== src/Target/Decode.antt =====
-- src/main.rs, `target_from_compact`: what is decoded, and what is refused.
use native.Mathlib.Nat.{pow-suc}
use native.Mathlib.Nat.{div-add-mod}
use native.Mathlib.Decide.{dec_le, dec_lt}
use xus_miner.Common.{
  ℕ, zero, suc, ◌+◌, ◌-◌, ◌*◌, ◌/◌, ◌%◌, ◌^◌, ◌≤◌, ◌<◌, ◌≡◌, ◌↔◌, ◌⊎◌, inl, inr, refl, sym, ◌∙◌,
  true, false, List, none, some, leb, ◌==◌, ==_iff, if◌then◌else◌, length, replicate, Bool-cases,
  arith,
}
use xus_miner.Target.{
  size_of, mantissa_of, is_negative, write_mantissa, small_target, is_oversized,
  target_from_compact,
}
use xus_miner.Target.Value.{
  be_value, write_mantissa-value, length-write_mantissa, be_value-replicate,
}

-- The number that compact bits stand for: the mantissa, shifted by whole bytes.
abbrev pub compact_value : ℕ → ℕ
compact_value bits =
    if leb (size_of bits) 3
    then mantissa_of bits / 2 ^ (8 * (3 - size_of bits))
    else mantissa_of bits * 256 ^ (size_of bits - 3)

three_bytes : (v : ℕ) → v < 2 ^ 24 → v / 65536 % 256 * 65536 + (v / 256 % 256 * 256 + v % 256) ≡ v
three_bytes v h = omega arith

div-le : (m k : ℕ) → m / k ≤ m
div-le m k = elim (dec_lt 0 k) [
  | yes positive ↦ grind (arith, div-add-mod m k)
  | no zero_divisor ↦ let e : k ≡ 0 = omega arith in rw e (omega arith)
]

small_target-value :
    (size m : ℕ)
    → m < 2 ^ 23
    → (length (small_target size m) ≡ 32)
      × (be_value (small_target size m) ≡ m / 2 ^ (8 * (3 - size)))
unfolding small_target
small_target-value size m h =
    let v = m / 2 ^ (8 * (3 - size)) in
    let small = div-le m (2 ^ (8 * (3 - size))) in
    (refl, omega (arith, three_bytes v (omega arith)))

pow-le : (a d b : ℕ) → a + d ≡ b → 256 ^ a ≤ 256 ^ b
pow-le a zero b e = let same : a ≡ b = omega arith in rw same (omega arith)
pow-le a (suc d) zero e = absurd (omega arith)
pow-le a (suc d) (suc b) e = omega (arith, pow-suc 256 b, pow-le a d b (omega arith))

times-le : (m p q : ℕ) → p ≤ q → m * p ≤ m * q
times-le m p q h = grind arith

-- With a mantissa the size limits say exactly that the target has more than 256 bits.
oversized_iff :
    (size m : ℕ)
    → 4 ≤ size
    → 0 < m
    → m < 2 ^ 24
    → (is_oversized size m ≡ true) ↔ (2 ^ 256 ≤ m * 256 ^ (size - 3))
unfolding is_oversized
oversized_iff size m h k l = elim (dec_le size 32) [
  | yes small ↦
      let least = pow-le (size - 3) (32 - size) 29 (omega arith) in
      let fits = times-le m (256 ^ (size - 3)) (256 ^ 29) least in
      (λ over. absurd (ground arith), λ big. absurd (omega arith))
  | no wide ↦ elim (dec_le 35 size) [
    | yes huge ↦
        let greatest = pow-le 32 (size - 35) (size - 3) (omega arith) in
        let over = times-le m (256 ^ 32) (256 ^ (size - 3)) greatest in
        (λ _. omega arith, λ _. ground arith)
    | no edge ↦ elim (dec_le size 33) [
      | yes at_33 ↦
          let e : size ≡ 33 = omega arith in rw e (λ over. ground arith, λ big. ground arith)
      | no at_34 ↦
          let e : size ≡ 34 = omega arith in rw e (λ over. ground arith, λ big. ground arith)
    ]
  ]
]

zero_value :
    (size m : ℕ)
    → m ≡ 0
    → (if leb size 3 then m / 2 ^ (8 * (3 - size)) else m * 256 ^ (size - 3)) ≡ 0
zero_value size m e =
    let quotient = div-le m (2 ^ (8 * (3 - size))) in
    rw e (ground (arith, div-le 0 (2 ^ (8 * (3 - size)))))

-- An oversized target has more than three bytes.
oversized-wide : (size m : ℕ) → is_oversized size m ≡ true → 4 ≤ size
unfolding is_oversized
oversized-wide size m h = ground arith

abbrev Decodes : ℕ → List ℕ → Type 0
Decodes value t = (length t ≡ 32) × (be_value t ≡ value) × (value < 2 ^ 256)

abbrev shifted : ℕ → ℕ → ℕ
shifted size m = if leb size 3 then m / 2 ^ (8 * (3 - size)) else m * 256 ^ (size - 3)

Decodes-small :
    (size m : ℕ) → m < 2 ^ 23 → leb size 3 ≡ true → Decodes (shifted size m) (small_target size m)
Decodes-small size m h small =
    let (len, value) = small_target-value size m h in
    let below = div-le m (2 ^ (8 * (3 - size))) in rw small (len, value, omega arith)

Decodes-wide :
    (size m : ℕ)
    → 0 < m
    → m < 2 ^ 23
    → is_oversized size m ≡ false
    → leb size 3 ≡ false
    → Decodes (shifted size m) (write_mantissa size m (replicate 32 0))
Decodes-wide size m k h fits wide =
    let four : 4 ≤ size = ground arith in
    let limit = oversized_iff size m four k (omega arith) in
    rw wide (
      length-write_mantissa size m (replicate 32 0),
      write_mantissa-value size m four (omega arith) fits,
      below_limit fits limit.1,
    )
  where
    below_limit :
        is_oversized size m ≡ false
        → (2 ^ 256 ≤ m * 256 ^ (size - 3) → is_oversized size m ≡ true)
        → m * 256 ^ (size - 3) < 2 ^ 256
    below_limit no_limit limit = elim (dec_lt (m * 256 ^ (size - 3)) (2 ^ 256)) [
      | yes below ↦ below
      | no above ↦ absurd (cc (limit (omega arith)))
    ]

-- Compact bits are refused exactly when their sign bit is set or they stand for a number of more
-- than 256 bits; otherwise the target is the 32 bytes of that number, the most significant first.
pub target_from_compact-cases :
    (bits : ℕ)
    → (((is_negative bits ≡ true) ⊎ (2 ^ 256 ≤ compact_value bits))
        × (target_from_compact bits ≡ none))
      ⊎ ((t : List ℕ) × (target_from_compact bits ≡ some t)
          × (is_negative bits ≡ false)
          × (length t ≡ 32)
          × (be_value t ≡ compact_value bits)
          × (compact_value bits < 2 ^ 256))
unfolding target_from_compact
target_from_compact-cases bits =
    let size : ℕ = size_of bits in
    let m : ℕ = mantissa_of bits in
    let narrow : m < 2 ^ 23 = omega arith in
    elim (Bool-cases (is_negative bits)) [
      | inl negative ↦ inl (inl negative, rw negative refl)
      | inr positive ↦ elim (Bool-cases (m == 0)) [
        | inl nothing ↦
            let z = zero_value size m ((==_iff m 0).0 nothing) in
            inr (
              replicate 32 0,
              rw (positive, nothing) refl,
              positive,
              refl,
              be_value-replicate 32 ∙ sym z,
              omega (arith, z),
            )
        | inr something ↦
            let nonzero : 0 < m = ground arith in
            elim (Bool-cases (is_oversized size m)) [
              | inl over ↦
                  let four = oversized-wide size m over in
                  let wide : leb size 3 ≡ false = ground arith in
                  inl (
                    inr (rw wide ((oversized_iff size m four nonzero (omega arith)).0 over)),
                    rw (positive, something, over) refl,
                  )
              | inr fits ↦ elim (Bool-cases (leb size 3)) [
                | inl small ↦
                    let d = Decodes-small size m narrow small in
                    inr (
                      small_target size m,
                      rw (positive, something, fits, small) refl,
                      positive,
                      d.0,
                      d.1,
                      d.2,
                    )
                | inr wide ↦
                    let d = Decodes-wide size m nonzero narrow fits wide in
                    inr (
                      write_mantissa size m (replicate 32 0),
                      rw (positive, something, fits, wide) refl,
                      positive,
                      d.0,
                      d.1,
                      d.2,
                    )
              ]
            ]
      ]
    ]
