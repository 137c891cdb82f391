-- ===== src/Rpc/Bounds.antt =====
-- src/rpc.rs, `header_line` and `read_response`: what an accepted reply takes from the stream.
use xus_miner.Common.{
  ℕ, zero, suc, ◌+◌, ◌-◌, ◌≤◌, ◌≡◌, refl, sym, ap, ◌||◌, [], ◌∷◌, ◌++◌, Option, none, some, leb,
  ◌==◌, if◌then◌else◌, length, ok, ok_inj, Bool-cases, inl, inr, leb→le, arith,
}
use mathlib.Core.Path.{subst}
use xus_miner.Common.Try.{>>=-eq-ok, after_ensure, after_ok_or}
use xus_miner.Common.Chars.{from_utf8}
use xus_miner.Job.{Bytes}
use xus_miner.Rpc.{
  max_header_bytes, max_body_bytes, Stream, split_line, at_end, strip_crlf, ends_newline,
  HeaderLine, header_line, Headers,
}

split_line-append :
    (limit : ℕ) (bs : Bytes) → (split_line limit bs).0 ++ (split_line limit bs).1 ≡ bs
unfolding split_line
split_line-append zero bs = refl
split_line-append (suc limit) [] = refl
split_line-append (suc limit) (b ∷ bs) = elim (Bool-cases (b == b'\n')) [
  | inl ends ↦ rw ends
  | inr more ↦ rw more (ap (λ r. b ∷ r) (split_line-append limit bs))
]

strip_crlf-le : (bs : Bytes) {line : Bytes} → strip_crlf bs ≡ some line → 2 ≤ length bs
unfolding strip_crlf
strip_crlf-le [] e = cc
strip_crlf-le (b ∷ []) e = cc
strip_crlf-le (b ∷ c ∷ bs) e = omega arith

-- What a header line takes from the stream, and from the budget.
pub record TakesLine (s : Stream) (used : ℕ) (l : HeaderLine) : Type 0 where
  pub line : Bytes
  pub splits : s.bytes ≡ line ++ l.rest.bytes
  pub counted : l.used ≡ used + length line
  pub within : l.used ≤ max_header_bytes
  pub grows : 2 ≤ length line

pub header_line-TakesLine :
    (s : Stream) (used : ℕ) {l : HeaderLine} → header_line s used ≡ ok l → TakesLine s used l
unfolding header_line
header_line-TakesLine s used e =
    let limit : ℕ = max_header_bytes - used + 1 in
    let line : Bytes = (split_line limit s.bytes).0 in
    let (_, _, e₁) =
      >>=-eq-ok (if ends_newline line || length line == limit then ok tt else at_end s) _ e in
    let (fits, e₂) = after_ensure (leb (used + length line) max_header_bytes) _ _ e₁ in
    let (stripped, two, e₃) = after_ok_or (strip_crlf line) _ _ e₂ in
    let (text, _, e₄) = after_ok_or (from_utf8 stripped) _ _ e₃ in
    subst (TakesLine s used) (ok_inj e₄) (record {
      line = line;
      splits = sym (split_line-append limit s.bytes);
      counted = refl;
      within = leb→le (used + length line) max_header_bytes fits;
      grows = strip_crlf-le line two;
    })

-- A length that the headers name is within the limit.
abbrev pub IsAllowed : Option ℕ → Type 0
IsAllowed none = Unit {0}
IsAllowed (some n) = n ≤ max_body_bytes

-- The headers behind `used` bytes, up to the rest of the stream.
pub record TakesHeaders (s : Stream) (used : ℕ) (h : Headers) : Type 0 where
  pub header : Bytes
  pub splits : s.bytes ≡ header ++ h.rest.bytes
  pub within : used + length header ≤ max_header_bytes
  pub allowed : IsAllowed h.content_length

-- A body in the stream.
record TakesBody (s : Stream) (body : Bytes) : Type 0 where
  behind : Bytes
  splits : s.bytes ≡ body ++ behind
  within : length body ≤ max_body_bytes

-- What is read of an accepted reply: the header, and the body right behind it.
pub record IsFramed (s : Stream) (body : Bytes) : Type 0 where
  pub header : Bytes
  pub behind : Bytes
  pub splits : s.bytes ≡ header ++ (body ++ behind)
  pub header_fits : length header ≤ max_header_bytes
  pub body_fits : length body ≤ max_body_bytes
