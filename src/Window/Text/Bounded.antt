-- ===== src/Window/Text/Bounded.antt =====
-- src/gui.rs, `bounded_text`: the bound that it keeps.
use xus_miner.Common.{
  ℕ, ◌+◌, ◌-◌, ◌≤◌, min, ◌≡◌, refl, ◌∙◌, Bool, false, ◌&&◌, not, [], ◌∷◌, ◌++◌, leb, ◌==◌, length,
  length-append, Str, utf8, byte_len, as_bytes, Bool-cases, inl, inr, arith, leb→le,
}
use xus_miner.Window.Text.{floor_prefix, bounded_text}

byte_len-cons : (c : ℕ) (s : Str) → byte_len (c ∷ s) ≡ length (utf8 c) + byte_len s
unfolding byte_len as_bytes
byte_len-cons c s = length-append (utf8 c) (as_bytes s)

byte_len-nil : byte_len [] ≡ 0
unfolding byte_len as_bytes
byte_len-nil = refl

byte_len-append : (s t : Str) → byte_len (s ++ t) ≡ byte_len s + byte_len t
byte_len-append [] t = omega (arith, byte_len-nil)
byte_len-append (c ∷ s) t =
    byte_len-cons c (s ++ t) ∙ omega (arith, byte_len-append s t, byte_len-cons c s)

floor_prefix-fits : (keep : ℕ) (s : Str) → byte_len (floor_prefix keep s) ≤ keep
unfolding floor_prefix
floor_prefix-fits keep [] = omega (arith, byte_len-nil)
floor_prefix-fits keep (c ∷ s) =
    let rest = floor_prefix (keep - length (utf8 c)) s in
    elim (Bool-cases (leb (length (utf8 c)) keep)) [
      | inl fits ↦ rw fits (
          omega (
            arith,
            leb→le (length (utf8 c)) keep fits,
            byte_len-cons c rest,
            floor_prefix-fits (keep - length (utf8 c)) s,
          ))
      | inr long ↦ rw long (omega (arith, byte_len-nil))
    ]

-- What is kept of a text that is too long, or marked as cut, has at most the given number of bytes;
-- so has a text that is returned unchanged.
pub bounded_text-fits :
    (raw : Str) (max_bytes : ℕ) (suffix : Str) (force_suffix : Bool)
    → byte_len (bounded_text raw max_bytes suffix force_suffix) ≤ max_bytes
unfolding bounded_text
bounded_text-fits raw max_bytes suffix force_suffix =
    elim (Bool-cases (not force_suffix && leb (byte_len raw) max_bytes)) [
      | inl whole ↦ rw whole (ground arith)
      | inr long ↦ elim (Bool-cases (max_bytes == 0)) [
        | inl nothing ↦ rw (long, nothing) (omega (arith, byte_len-nil))
        | inr something ↦ elim (Bool-cases (leb max_bytes (byte_len suffix))) [
          | inl tight ↦
              let kept = floor_prefix-fits (min max_bytes (byte_len suffix)) suffix in
              rw (long, something, tight) (omega (arith, kept))
          | inr wide ↦
              let keep = min (max_bytes - byte_len suffix) (byte_len raw) in
              let kept = floor_prefix-fits keep raw in
              rw (long, something, wide)
                (omega (
                  arith,
                  kept,
                  byte_len-append (floor_prefix keep raw) suffix,
                  ltb_of (byte_len suffix) max_bytes wide,
                ))
        ]
      ]
    ]
  where
    ltb_of : (a b : ℕ) → leb b a ≡ false → a ≤ b
    ltb_of a b e = ground arith
