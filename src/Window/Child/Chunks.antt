-- ===== src/Window/Child/Chunks.antt =====
-- src/gui.rs, `read_bounded_child_line`: the way in which the engine's output arrives in chunks does
-- not matter to what is captured.
use xus_miner.Common.{
  ℕ, zero, suc, ◌+◌, ◌-◌, min, ◌≡◌, refl, sym, ◌∙◌, ap, Bool, true, false, ◌||◌, List, [], ◌∷◌,
  ◌++◌, Option, none, some, ltb, ◌==◌, length, length-append, length-take, take, some_inj,
  Bool-cases, inl, inr, arith,
}
use mathlib.Core.List.{append_assoc}
use xus_miner.Job.{Bytes}
use xus_miner.Window.Child.{
  max_child_line_bytes, find_newline, Capture, put_back, stop_at, keep, is_cut, capture_line,
}

-- The output as one piece.
abbrev pub joined : List Bytes → Bytes
joined [] = []
joined (chunk ∷ chunks) = chunk ++ joined chunks

-- No chunk is empty before the end.
abbrev pub Full : List Bytes → Type 0
Full [] = Unit {0}
Full ([] ∷ chunks) = ⊥
Full ((b ∷ bs) ∷ chunks) = Full chunks

-- What stands behind the line.
abbrev pub behind_line : Option Bytes → Bytes
behind_line none = []
behind_line (some bs) = bs

abbrev pub is_found : Option Bytes → Bool
is_found none = false
is_found (some bs) = true

-- The capture of a line whose first bytes were read before.
abbrev pub CapturedOf : Bytes → Bytes → Capture → Type 0
CapturedOf before bs c =
    let line = before ++ (find_newline bs).0 in
    (c.captured ≡ take max_child_line_bytes line)
    × (c.truncated ≡ ltb max_child_line_bytes (length line))
    × (c.reached_line_end ≡ is_found (find_newline bs).1)
    × (joined c.rest ≡ behind_line (find_newline bs).1)

take_nil : (k : ℕ) → take {A = ℕ} k [] ≡ []
take_nil zero = refl
take_nil (suc k) = refl

take-min : (k : ℕ) (bs : Bytes) → take (min (length bs) k) bs ≡ take k bs
take-min k [] = ap (λ n. take n []) {x = min 0 k} {y = 0} (omega arith) ∙ sym (take_nil k)
take-min zero (x ∷ bs) = ap (λ n. take n (x ∷ bs)) {y = 0} (omega arith)
take-min (suc k) (x ∷ bs) =
    ap (λ n. take n (x ∷ bs)) {y = suc (min (length bs) k)} (omega arith)
    ∙ ap (λ r. x ∷ r) (take-min k bs)

keep-take :
    (m : ℕ) (before content : Bytes)
    → take m before ++ take (min (length content) (m - length (take m before))) content
      ≡ take m (before ++ content)
keep-take zero before content = ap (λ n. take n content) {y = 0} (omega arith)
keep-take (suc m) [] content =
    ap (λ k. take (min (length content) k) content) {y = suc m} (omega arith)
    ∙ take-min (suc m) content
keep-take (suc m) (x ∷ before) content =
    ap (λ r. x ∷ r)
      (ap (λ k. take m before ++ take (min (length content) k) content)
          {y = m - length (take m before)} (omega arith)
        ∙ keep-take m before content)

find_newline-none :
    (xs ys : Bytes)
    → (find_newline xs).1 ≡ none
    → find_newline (xs ++ ys) ≡ ((find_newline xs).0 ++ (find_newline ys).0, (find_newline ys).1)
unfolding find_newline
find_newline-none [] ys e = refl
find_newline-none (x ∷ xs) ys e = elim (Bool-cases (x == b'\n')) [
  | inl ends ↦ cc (rw ends at e)
  | inr more ↦ rw more (ap (λ p. (x ∷ p.0, p.1)) (find_newline-none xs ys (rw more at e)))
]

find_newline-some :
    (xs ys : Bytes) {left : Bytes}
    → (find_newline xs).1 ≡ some left
    → find_newline (xs ++ ys) ≡ ((find_newline xs).0, some (left ++ ys))
unfolding find_newline
find_newline-some [] ys e = cc e
find_newline-some (x ∷ xs) ys e = elim (Bool-cases (x == b'\n')) [
  | inl ends ↦ rw ends (ap (λ b. ([], some (b ++ ys))) (some_inj (rw ends at e)))
  | inr more ↦ rw more (ap (λ p. (x ∷ p.0, p.1)) (find_newline-some xs ys (rw more at e)))
]

keep-line :
    (before content : Bytes)
    → keep (take max_child_line_bytes before) content
      ≡ take max_child_line_bytes (before ++ content)
unfolding keep
keep-line before content = keep-take max_child_line_bytes before content

cut_number : (m n l : ℕ) → (ltb m n || ltb (min l (m - min m n)) l) ≡ ltb m (n + l)
cut_number m n l = elim (Bool-cases (ltb m n)) [
  | inl over ↦ rw over (ground arith)
  | inr under ↦ rw under (ground arith)
]

is_cut-line :
    (before content : Bytes)
    → (ltb max_child_line_bytes (length before)
        || is_cut (take max_child_line_bytes before) content)
      ≡ ltb max_child_line_bytes (length (before ++ content))
unfolding is_cut
is_cut-line before content =
    rw (length-take max_child_line_bytes before, length-append before content)
      (cut_number max_child_line_bytes (length before) (length content))

joined-put_back :
    (left : Bytes) (chunks : List Bytes) → joined (put_back left chunks) ≡ left ++ joined chunks
unfolding put_back
joined-put_back [] chunks = refl
joined-put_back (b ∷ bs) chunks = refl

append_nil : (bs : Bytes) → bs ++ [] ≡ bs
append_nil [] = refl
append_nil (b ∷ bs) = ap (λ r. b ∷ r) (append_nil bs)

capture_line-end :
    (before : Bytes)
    → CapturedOf before [] (
        capture_line
          (take max_child_line_bytes before)
          (ltb max_child_line_bytes (length before))
          [])
unfolding capture_line find_newline
capture_line-end before = (
  ap (take max_child_line_bytes) (sym (append_nil before)),
  ap (λ b. ltb max_child_line_bytes (length b)) (sym (append_nil before)),
  refl,
  refl,
)

-- A chunk that was found to end the line, or to go on with it.
stop_at-CapturedOf :
    (before chunk : Bytes) (chunks : List Bytes) (next : Capture) (behind : Option Bytes)
    → (find_newline chunk).1 ≡ behind
    → CapturedOf (before ++ (find_newline chunk).0) (joined chunks) next
    → CapturedOf before (chunk ++ joined chunks) (
        stop_at
          (take max_child_line_bytes (before ++ (find_newline chunk).0))
          (ltb max_child_line_bytes (length (before ++ (find_newline chunk).0)))
          chunks
          next
          behind)
unfolding stop_at
stop_at-CapturedOf before chunk chunks next none nowhere c =
    rw
      (
        find_newline-none chunk (joined chunks) nowhere,
        sym (append_assoc before (find_newline chunk).0 (find_newline (joined chunks)).0),
      )
      c
stop_at-CapturedOf before chunk chunks next (some left) there c =
    rw (find_newline-some chunk (joined chunks) there)
      (refl, refl, refl, joined-put_back left chunks)

-- However the output is cut into chunks, none of them empty, and whatever was read of the line before,
-- the capture of the line has its first `MAX_CHILD_LINE_BYTES`, tells truly whether bytes of the line were left out and whether its end was
-- reached, and leaves exactly what stands behind the line's end.
pub capture_line-joined :
    (before : Bytes) (chunks : List Bytes)
    → Full chunks
    → CapturedOf before (joined chunks) (
        capture_line
          (take max_child_line_bytes before)
          (ltb max_child_line_bytes (length before))
          chunks)
unfolding capture_line
capture_line-joined before [] full = capture_line-end before
capture_line-joined before ([] ∷ chunks) full = absurd full
capture_line-joined before ((b ∷ bs) ∷ chunks) full =
    let content = (find_newline (b ∷ bs)).0 in
    rw (keep-line before content, is_cut-line before content)
      (stop_at-CapturedOf before (b ∷ bs) chunks _ (find_newline (b ∷ bs)).1 refl
        (capture_line-joined (before ++ content) chunks full))
