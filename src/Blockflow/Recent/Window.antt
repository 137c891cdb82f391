-- ===== src/Blockflow/Recent/Window.antt =====
-- src/blockflow.rs, `refresh_targets` and `tiles`: the walks over the visible window.
use xus_miner.Common.{
  ℕ, zero, suc, ◌+◌, ◌-◌, ◌≤◌, ◌<◌, ◌≡◌, refl, sym, ap, ◌∙◌, true, inl, inr, List, [], ◌∷◌, ◌++◌,
  map, reverse, length, length-append, take, keep, up_from, range_inclusive, leb, arith, Bool-cases,
}
use mathlib.Core.Path.{ap₂}
use mathlib.Core.List.{append_assoc, append-nil, reverse-append}
use xus_miner.Blockflow.Sealed.{SealedBlocks}
use xus_miner.Blockflow.Recent.{
  RecentBlocks, Tile, max_fetch_per_refresh, window_start, is_missing, gather, refresh_targets,
  tile_of, lay, tiles,
}

-- The visible heights, newest first.
abbrev pub window : ℕ → List ℕ
window tip = reverse (range_inclusive (window_start tip) tip)

-- `n + 1` heights downwards.
down : ℕ → ℕ → List ℕ
down zero height = height ∷ []
down (suc n) height = height ∷ down n (height - 1)

up_from-snoc : (a n : ℕ) → up_from a (suc n) ≡ up_from a n ++ (a + n) ∷ []
up_from-snoc a zero = ap (λ k. k ∷ []) {x = a} (omega arith)
up_from-snoc a (suc n) =
    ap (◌∷◌ a) (up_from-snoc (suc a) n ∙ ap (λ k. up_from (suc a) n ++ k ∷ []) (omega arith))

down-reverse : (n a height : ℕ) → a + n ≡ height → down n height ≡ reverse (up_from a (suc n))
unfolding down
down-reverse zero a height e = ap (λ k. k ∷ []) {y = a} (omega arith)
down-reverse (suc n) a height e =
    rw (up_from-snoc a (suc n), reverse-append (up_from a (suc n)) ((a + suc n) ∷ []))
      (ap₂ ◌∷◌ (sym e) (down-reverse n a (height - 1) (omega arith)))

down-window : (tip : ℕ) → down (tip - window_start tip) tip ≡ window tip
unfolding window_start
down-window tip =
    down-reverse (tip - window_start tip) (window_start tip) tip (omega arith)
    ∙ ap (λ k. reverse (up_from (window_start tip) k)) {x = suc (tip - window_start tip)}
        {y = suc tip - window_start tip} (omega arith)

take_all {ℓ} : {A : Type ℓ} (n : ℕ) (xs : List A) → length xs ≤ n → take n xs ≡ xs
take_all zero [] h = refl
take_all zero (x ∷ xs) h = absurd (omega arith)
take_all (suc n) [] h = refl
take_all (suc n) (x ∷ xs) h = ap (◌∷◌ x) (take_all n xs (omega arith))

take_prefix {ℓ} : {A : Type ℓ} (n : ℕ) (xs ys : List A) → length xs ≡ n → take n (xs ++ ys) ≡ xs
take_prefix zero [] ys h = refl
take_prefix zero (x ∷ xs) ys h = absurd (omega arith)
take_prefix (suc n) [] ys h = absurd (omega arith)
take_prefix (suc n) (x ∷ xs) ys h = ap (◌∷◌ x) (take_prefix n xs ys (omega arith))

exact :
    (targets : List ℕ) (height : ℕ)
    → length targets < max_fetch_per_refresh
    → leb max_fetch_per_refresh (length (targets ++ height ∷ [])) ≡ true
    → length (targets ++ height ∷ []) ≡ max_fetch_per_refresh
exact targets height h full = ground (arith, length-append targets (height ∷ []))

gather-take :
    (b : RecentBlocks) (left height : ℕ) (targets : List ℕ)
    → length targets < max_fetch_per_refresh
    → gather b left height targets
      ≡ take max_fetch_per_refresh (targets ++ keep (is_missing b) (down left height))
unfolding gather down
gather-take b zero height targets h = elim (Bool-cases (is_missing b height)) [
  | inl missing ↦ rw missing (
      sym (
        take_all max_fetch_per_refresh (targets ++ height ∷ [])
          (omega (arith, length-append targets (height ∷ [])))))
  | inr cached ↦
      rw (cached, append-nil) (sym (take_all max_fetch_per_refresh targets (omega arith)))
]
gather-take b (suc left) height targets h = elim (Bool-cases (is_missing b height)) [
  | inl missing ↦ elim (Bool-cases (leb max_fetch_per_refresh (length (targets ++ height ∷ [])))) [
    | inl full ↦
        rw (missing, full)
          (sym (
            ap (take max_fetch_per_refresh) (sym (append_assoc targets _ _))
            ∙ take_prefix max_fetch_per_refresh (targets ++ height ∷ []) _
                (exact targets height h full)))
    | inr few ↦
        rw (missing, few)
          (gather-take b left (height - 1) (targets ++ height ∷ []) (ground arith)
            ∙ ap (take max_fetch_per_refresh) (append_assoc targets _ _))
  ]
  | inr cached ↦ rw cached (gather-take b left (height - 1) targets h)
]

-- A refresh asks for the newest heights of the window that are not cached, newest first, and for
-- all of them up to `MAX_FETCH_PER_REFRESH`.
pub refresh_targets-take :
    (b : RecentBlocks) (tip : ℕ)
    → refresh_targets b tip ≡ take max_fetch_per_refresh (keep (is_missing b) (window tip))
unfolding refresh_targets
refresh_targets-take b tip =
    gather-take b (tip - window_start tip) tip [] (omega arith)
    ∙ ap (λ hs. take max_fetch_per_refresh (keep (is_missing b) hs)) (down-window tip)

lay-map :
    (b : RecentBlocks) (s : SealedBlocks) (left height : ℕ) (strip : List Tile)
    → lay b s left height strip ≡ strip ++ map (tile_of b s) (down left height)
unfolding lay down
lay-map b s zero height strip = refl
lay-map b s (suc left) height strip =
    lay-map b s left (height - 1) (strip ++ tile_of b s height ∷ []) ∙ append_assoc strip _ _

-- The strip has one tile for each height of the window, newest first, cached or not.
pub tiles-map :
    (b : RecentBlocks) (tip : ℕ) (s : SealedBlocks) → tiles b tip s ≡ map (tile_of b s) (window tip)
unfolding tiles
tiles-map b tip s =
    lay-map b s (tip - window_start tip) tip [] ∙ ap (map (tile_of b s)) (down-window tip)
