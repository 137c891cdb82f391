-- ===== src/Target.antt =====
-- src/main.rs, `target_from_compact`: the 256-bit target that compact difficulty bits stand for, as
-- 32 bytes, the most significant first.
pub mod Value
pub mod Decode
use xus_miner.Common.{
  ℕ, zero, suc, ◌+◌, ◌-◌, ◌*◌, ◌/◌, ◌%◌, ◌^◌, Bool, ◌&&◌, ◌||◌, not, List, [], ◌∷◌, Option, none,
  some, ltb, leb, ◌==◌, if◌then◌else◌, replicate,
}

-- `target[index] = byte`; a write behind the end does not occur.
abbrev pub set : List ℕ → ℕ → ℕ → List ℕ
set [] i v = []
set (x ∷ xs) zero v = v ∷ xs
set (x ∷ xs) (suc i) v = x ∷ set xs i v

-- `bits >> 24`, `bits & 0x007f_ffff` and `bits & 0x0080_0000 != 0`.
abbrev pub size_of : ℕ → ℕ
size_of bits = bits / 2 ^ 24

abbrev pub mantissa_of : ℕ → ℕ
mantissa_of bits = bits % 2 ^ 23

abbrev pub is_negative : ℕ → Bool
is_negative bits = not (bits / 2 ^ 23 % 2 == 0)

-- The bytes of the mantissa, as the loop writes them.
abbrev pub high_byte : ℕ → ℕ
high_byte mantissa = mantissa / 2 ^ 16 % 2 ^ 8

abbrev pub middle_byte : ℕ → ℕ
middle_byte mantissa = mantissa / 2 ^ 8 % 2 ^ 8

abbrev pub low_byte : ℕ → ℕ
low_byte mantissa = mantissa % 2 ^ 8

-- One round of the loop: `(32 + offset).checked_sub(size)`, if that is below 32.
pub write_byte : ℕ → ℕ → ℕ → List ℕ → List ℕ
write_byte size offset byte target =
    if leb size (32 + offset) && ltb (32 + offset - size) 32
    then set target (32 + offset - size) byte
    else target

pub write_mantissa : ℕ → ℕ → List ℕ → List ℕ
unfolding write_byte
write_mantissa size mantissa target =
    write_byte size 2 (low_byte mantissa)
      (write_byte size 1 (middle_byte mantissa) (write_byte size 0 (high_byte mantissa) target))

-- `mantissa >> (8 * (3 - size))`, in the last three bytes.
pub small_target : ℕ → ℕ → List ℕ
small_target size mantissa =
    let value = mantissa / 2 ^ (8 * (3 - size)) in
    set (set (set (replicate 32 0) 29 (value / 2 ^ 16 % 2 ^ 8)) 30 (value / 2 ^ 8 % 2 ^ 8)) 31
      (value % 2 ^ 8)

pub is_oversized : ℕ → ℕ → Bool
is_oversized size mantissa =
    ltb 34 size || (ltb 0xff mantissa && ltb 33 size) || (ltb 0xffff mantissa && ltb 32 size)

unfoldable pub target_from_compact : ℕ → Option (List ℕ)
unfolding write_mantissa small_target is_oversized
target_from_compact bits =
    let size = size_of bits in
    let mantissa = mantissa_of bits in
    if is_negative bits
    then none
    else if mantissa == 0
    then some (replicate 32 0)
    else if is_oversized size mantissa
    then none
    else if leb size 3
    then some (small_target size mantissa)
    else some (write_mantissa size mantissa (replicate 32 0))
