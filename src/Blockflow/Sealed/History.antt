-- ===== src/Blockflow/Sealed/History.antt =====
-- src/blockflow.rs, `SealedBlocks::record`: the memory against the whole history of submissions.
use xus_miner.Common.{
  ℕ, zero, suc, ◌-◌, ◌≤◌, ◌≡◌, refl, ap, ◌∙◌, List, [], ◌∷◌, ◌++◌, length, drop, drop-drop,
  length-append, length-drop, inl, inr, Bool-cases, ltb, Str, arith,
}
use mathlib.Core.List.{append_assoc, append-nil}
use xus_miner.Blockflow.Sealed.{SealedBlocks, default, record_entry, pop_to, max_sealed_tracked}

pop_to-drop : (bound : ℕ) (es : List (ℕ × Str)) → pop_to bound es ≡ drop (length es - bound) es
unfolding pop_to
pop_to-drop bound [] = ap (λ n. drop n []) {x = 0} {y = 0 - bound} (omega arith)
pop_to-drop bound (e ∷ es) = elim (Bool-cases (ltb bound (suc (length es)))) [
  | inl over ↦ rw over (
      pop_to-drop bound es ∙ ap (λ n. drop n (e ∷ es)) {x = suc (length es - bound)} (ground arith))
  | inr fits ↦ rw fits (ap (λ n. drop n (e ∷ es)) {x = 0} (ground arith))
]

drop-append {ℓ} :
    {A : Type ℓ} (k : ℕ) (xs ys : List A) → k ≤ length xs → drop k xs ++ ys ≡ drop k (xs ++ ys)
drop-append zero xs ys h = refl
drop-append (suc k) [] ys h = absurd (omega arith)
drop-append (suc k) (x ∷ xs) ys h = drop-append k xs ys (omega arith)

-- The newest `n` of a list whose newest elements stand last.
abbrev pub newest {ℓ} : {A : Type ℓ} → ℕ → List A → List A
newest n xs = drop (length xs - n) xs

-- The submissions, in the order in which the node accepted them.
abbrev pub record_all : SealedBlocks → List (ℕ × Str) → SealedBlocks
record_all s [] = s
record_all s ((height, hash) ∷ es) = record_all (record_entry s height hash) es

entries-record_entry :
    (s : SealedBlocks) (height : ℕ) (hash : Str)
    → (record_entry s height hash).entries
      ≡ newest max_sealed_tracked (s.entries ++ (height, hash) ∷ [])
unfolding record_entry
entries-record_entry s height hash =
    pop_to-drop max_sealed_tracked (s.entries ++ (height, hash) ∷ [])

length-record_entry-le :
    (s : SealedBlocks) (height : ℕ) (hash : Str)
    → length (record_entry s height hash).entries ≤ max_sealed_tracked
length-record_entry-le s height hash =
    let all = s.entries ++ (height, hash) ∷ [] in
    rw (entries-record_entry s height hash)
      (omega (arith, length-drop (length all - max_sealed_tracked) all))

-- Dropping to the newest, adding more and dropping again is dropping once.
newest-append {ℓ} :
    {A : Type ℓ} (n : ℕ) (xs ys : List A) → newest n (newest n xs ++ ys) ≡ newest n (xs ++ ys)
newest-append n xs ys =
    let k = length xs - n in
    let moved = drop-append k xs ys (omega arith) in
    rw moved
      (drop-drop k _ _ (xs ++ ys) (omega (arith, length-drop k (xs ++ ys), length-append xs ys)))

record_all-newest :
    (s : SealedBlocks) (es : List (ℕ × Str))
    → length s.entries ≤ max_sealed_tracked
    → (record_all s es).entries ≡ newest max_sealed_tracked (s.entries ++ es)
record_all-newest s [] h =
    rw append-nil
      (ap (λ n. drop n s.entries) {x = 0} {y = length s.entries - max_sealed_tracked} (omega arith))
record_all-newest s ((height, hash) ∷ es) h =
    record_all-newest (record_entry s height hash) es (length-record_entry-le s height hash)
    ∙ rw (entries-record_entry s height hash) (
        newest-append max_sealed_tracked (s.entries ++ (height, hash) ∷ []) es
        ∙ ap (newest max_sealed_tracked) (append_assoc s.entries ((height, hash) ∷ []) es))

-- After any history of accepted submissions exactly the newest `MAX_SEALED_TRACKED` of them are
-- remembered, in their order.
pub record_all-default :
    (es : List (ℕ × Str)) → (record_all default es).entries ≡ newest max_sealed_tracked es
unfolding default
record_all-default es = record_all-newest default es (omega arith)
