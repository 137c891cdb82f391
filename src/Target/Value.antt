-- ===== src/Target/Value.antt =====
-- src/main.rs, `target_from_compact`: the number that the target stands for.
use native.Mathlib.Nat.{pow-suc}
use native.Mathlib.Decide.{dec_le}
use xus_miner.Common.{
  ℕ, zero, suc, ◌+◌, ◌-◌, ◌*◌, ◌^◌, ◌≤◌, ◌<◌, ◌≡◌, ◌≢◌, ◌⊎◌, inl, inr, refl, ap, ◌∙◌, false, ◌&&◌,
  List, [], ◌∷◌, ltb, leb, ◌==◌, if◌then◌else◌, length, replicate, Bool-cases, arith,
}
use xus_miner.Target.{
  set, high_byte, middle_byte, low_byte, write_byte, write_mantissa, is_oversized,
}

-- The number that bytes stand for, the most significant first.
abbrev pub be_value : List ℕ → ℕ
be_value [] = 0
be_value (b ∷ bs) = b * 256 ^ length bs + be_value bs

-- What stands at an index, 0 behind the end.
byte_at : List ℕ → ℕ → ℕ
byte_at [] i = 0
byte_at (b ∷ bs) zero = b
byte_at (b ∷ bs) (suc i) = byte_at bs i

pub length-set : (bs : List ℕ) (i v : ℕ) → length (set bs i v) ≡ length bs
length-set [] i v = refl
length-set (b ∷ bs) zero v = refl
length-set (b ∷ bs) (suc i) v = ap suc (length-set bs i v)

byte_at-set :
    (bs : List ℕ) (i j v : ℕ)
    → i < length bs
    → byte_at (set bs i v) j ≡ (if i == j then v else byte_at bs j)
unfolding byte_at
byte_at-set [] i j v h = absurd (omega arith)
byte_at-set (b ∷ bs) zero zero v h = refl
byte_at-set (b ∷ bs) zero (suc j) v h = ground arith
byte_at-set (b ∷ bs) (suc i) zero v h = ground arith
byte_at-set (b ∷ bs) (suc i) (suc j) v h = ground (arith, byte_at-set bs i j v)

-- A write over a zero byte adds the byte at its place.
be_value-set :
    (bs : List ℕ) (i v : ℕ)
    → i < length bs
    → byte_at bs i ≡ 0
    → be_value (set bs i v) ≡ be_value bs + v * 256 ^ (length bs - suc i)
unfolding byte_at
be_value-set [] i v h z = absurd (omega arith)
be_value-set (b ∷ bs) zero v h z =
    let e : suc (length bs) - 1 ≡ length bs = omega arith in rw (z, e) (omega arith)
be_value-set (b ∷ bs) (suc i) v h z =
    let e : suc (length bs) - suc (suc i) ≡ length bs - suc i = omega arith in
    rw (length-set bs i v, e) (omega (arith, be_value-set bs i v (omega arith) z))

byte_at-replicate : (n j : ℕ) → byte_at (replicate n 0) j ≡ 0
unfolding byte_at
byte_at-replicate zero j = refl
byte_at-replicate (suc n) zero = refl
byte_at-replicate (suc n) (suc j) = byte_at-replicate n j

pub be_value-replicate : (n : ℕ) → be_value (replicate n 0) ≡ 0
be_value-replicate zero = refl
be_value-replicate (suc n) = omega (arith, be_value-replicate n)

-- One round of the loop adds the byte at its place, also where it would stand in front of the first
-- byte, since it is then zero.
write_byte-value :
    (size offset byte : ℕ) (bs : List ℕ)
    → 4 ≤ size
    → offset ≤ 2
    → length bs ≡ 32
    → byte_at bs (32 + offset - size) ≡ 0
    → (size ≤ 32 + offset) ⊎ (byte ≡ 0)
    → be_value (write_byte size offset byte bs) ≡ be_value bs + byte * 256 ^ (size - 1 - offset)
unfolding write_byte
write_byte-value size offset byte bs h k len free fits =
    elim (Bool-cases (leb size (32 + offset) && ltb (32 + offset - size) 32)) [
      | inl inside ↦
          let index = 32 + offset - size in
          let e : length bs - suc index ≡ size - 1 - offset = ground arith in
          rw inside (be_value-set bs index byte (ground arith) free ∙ rw e refl)
      | inr outside ↦
          let none_left : byte ≡ 0 = ground arith in rw (outside, none_left) (omega arith)
    ]

length-write_byte :
    (size offset byte : ℕ) (bs : List ℕ) → length (write_byte size offset byte bs) ≡ length bs
unfolding write_byte
length-write_byte size offset byte bs = ground (arith, length-set bs (32 + offset - size) byte)

byte_at-write_byte :
    (size offset byte j : ℕ) (bs : List ℕ)
    → length bs ≡ 32
    → 32 + offset ≢ j + size
    → byte_at bs j ≡ 0
    → byte_at (write_byte size offset byte bs) j ≡ 0
unfolding write_byte
byte_at-write_byte size offset byte j bs len other free =
    ground (arith, byte_at-set bs (32 + offset - size) j byte)

-- The three bytes at their places are the mantissa at its place.
bytes_value :
    (m k : ℕ)
    → m < 2 ^ 24
    → high_byte m * 256 ^ (k + 2) + middle_byte m * 256 ^ (k + 1) + low_byte m * 256 ^ k
      ≡ m * 256 ^ k
bytes_value m k h =
    let p = 256 ^ k in
    let one : 256 ^ (k + 1) ≡ p * 256 =
      ap (λ j. 256 ^ j) {y = suc k} (omega arith) ∙ pow-suc 256 k in
    let two : 256 ^ (k + 2) ≡ p * 256 * 256 =
      ap (λ j. 256 ^ j) {y = suc (suc k)} (omega arith)
      ∙ pow-suc 256 (suc k)
      ∙ ap (λ j. j * 256) (pow-suc 256 k) in
    let whole : high_byte m * 65536 + middle_byte m * 256 + low_byte m ≡ m = omega arith in
    rw (one, two) (omega (arith, ap (λ (j : ℕ). j * p) whole))

-- Not oversized, in terms of the bytes.
fits_high : (size m : ℕ) → is_oversized size m ≡ false → (size ≤ 32) ⊎ (high_byte m ≡ 0)
unfolding is_oversized
fits_high size m h = elim (dec_le size 32) [
  | yes in_range ↦ inl in_range
  | no beyond ↦ inr (ground arith)
]

fits_middle : (size m : ℕ) → is_oversized size m ≡ false → (size ≤ 33) ⊎ (middle_byte m ≡ 0)
unfolding is_oversized
fits_middle size m h = elim (dec_le size 33) [
  | yes in_range ↦ inl in_range
  | no beyond ↦ inr (ground arith)
]

fits_low : (size m : ℕ) → is_oversized size m ≡ false → size ≤ 34
unfolding is_oversized
fits_low size m h = ground arith

pub length-write_mantissa :
    (size m : ℕ) (bs : List ℕ) → length (write_mantissa size m bs) ≡ length bs
unfolding write_mantissa
length-write_mantissa size m bs =
    length-write_byte size 2 _ _ ∙ length-write_byte size 1 _ _ ∙ length-write_byte size 0 _ bs

collect :
    (x₀ x₁ x₂ x₃ m size : ℕ)
    → 4 ≤ size
    → m < 2 ^ 24
    → x₀ ≡ 0
    → x₁ ≡ x₀ + high_byte m * 256 ^ (size - 1 - 0)
    → x₂ ≡ x₁ + middle_byte m * 256 ^ (size - 1 - 1)
    → x₃ ≡ x₂ + low_byte m * 256 ^ (size - 1 - 2)
    → x₃ ≡ m * 256 ^ (size - 3)
collect x₀ x₁ x₂ x₃ m size h k e₀ e₁ e₂ e₃ =
    let a : size - 1 - 0 ≡ size - 3 + 2 = omega arith in
    let b : size - 1 - 1 ≡ size - 3 + 1 = omega arith in
    let c : size - 1 - 2 ≡ size - 3 = omega arith in
    let f₁ = ap (λ j. high_byte m * 256 ^ j) a in
    let f₂ = ap (λ j. middle_byte m * 256 ^ j) b in
    let f₃ = ap (λ j. low_byte m * 256 ^ j) c in
    omega (arith, bytes_value m (size - 3) k, f₁, f₂, f₃, e₁, e₂, e₃)

pub write_mantissa-value :
    (size m : ℕ)
    → 4 ≤ size
    → m < 2 ^ 24
    → is_oversized size m ≡ false
    → be_value (write_mantissa size m (replicate 32 0)) ≡ m * 256 ^ (size - 3)
unfolding write_mantissa
write_mantissa-value size m h k fits =
    let zeros : List ℕ = replicate 32 0 in
    let first : List ℕ = write_byte size 0 (high_byte m) zeros in
    let second : List ℕ = write_byte size 1 (middle_byte m) first in
    let in_range = fits_low size m fits in
    let len₁ : length first ≡ 32 = length-write_byte size 0 (high_byte m) zeros in
    let len₂ : length second ≡ 32 = length-write_byte size 1 (middle_byte m) first ∙ len₁ in
    let free₁ : byte_at first (33 - size) ≡ 0 =
      byte_at-write_byte size 0 (high_byte m) (33 - size) zeros refl (omega arith)
        (byte_at-replicate 32 (33 - size)) in
    let free₂ : byte_at second (34 - size) ≡ 0 =
      byte_at-write_byte size 1 (middle_byte m) (34 - size) first len₁ (omega arith) (
        byte_at-write_byte size 0 (high_byte m) (34 - size) zeros refl (omega arith)
          (byte_at-replicate 32 (34 - size))) in
    let v₀ =
      write_byte-value size 0 (high_byte m) zeros h (omega arith) refl
        (byte_at-replicate 32 (32 - size)) (fits_high size m fits) in
    let v₁ =
      write_byte-value size 1 (middle_byte m) first h (omega arith) len₁ free₁
        (fits_middle size m fits) in
    let v₂ =
      write_byte-value size 2 (low_byte m) second h (omega arith) len₂ free₂ (inl in_range) in
    collect _ _ _ _ m size h k (be_value-replicate 32) v₀ v₁ v₂
