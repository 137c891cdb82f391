-- ===== src/Blockflow/Tip/Repeated.antt =====
-- src/blockflow.rs, `TipWatch::record`: a height that is remembered is not announced again.
use xus_miner.Common.{
  ℕ, suc, ◌+◌, ◌≤◌, ◌≡◌, ◌≢◌, refl, ◌∙◌, sym, ap, Bool, true, false, List, [], ◌∷◌, Option, none,
  some, Str, length, ◌==◌, leb, ==_iff, Bool-cases, Option-cases, inl, inr, arith,
}
use mathlib.Core.Path.{subst}
use xus_miner.Common.BTree.{
  BTreeMap, get, insert, prune_to, prune_to_short, get-insert, length-insert-le,
  length-prune_to-shrinks,
}
use xus_miner.Blockflow.Tip.{
  TipWatch, new, max_reported_tracked, begin_session, observe_tip, match_reported, register,
  record_reported, observe_fetched, or_insert_none, observe_from, announce_baseline, advance,
  clean_hash, prune,
}
use xus_miner.Blockflow.Tip.Memory.{IsBounded, Event, step, run, step-IsBounded}
use xus_miner.Blockflow.Tip.Outcome.{
  HasRoom, match_reported-get, match_reported-other, length-match_reported, register-new_iff,
  register-remembers,
}

-- The height is remembered, and at most so many heights are.
Remembers : ℕ → ℕ → TipWatch → Type 0
Remembers h bound w =
    ((old : Option Str) × (get h w.reported ≡ some old)) × (length w.reported ≤ bound)

match_reported-keeps :
    (h k : ℕ) (m : BTreeMap (Option Str)) (hash : Option Str) (announce : Bool) {old : Option Str}
    → get h m ≡ some old
    → (kept : Option Str) × (get h (match_reported k m hash announce).0 ≡ some kept)
match_reported-keeps h k m hash announce {old} e = elim (Bool-cases (k == h)) [
  | inl same ↦
      subst (λ j. (kept : Option Str) × (get j (match_reported k m hash announce).0 ≡ some kept))
        ((==_iff k h).0 same) (_, match_reported-get k m hash announce)
  | inr apart ↦ (old, match_reported-other k h m hash announce (ground (arith, ==_iff k h)) ∙ e)
]

or_insert_none-keeps :
    (h k : ℕ) (m : BTreeMap (Option Str)) {old : Option Str}
    → get h m ≡ some old
    → ((kept : Option Str) × (get h (or_insert_none k m) ≡ some kept))
      × (length (or_insert_none k m) ≤ suc (length m))
unfolding or_insert_none
or_insert_none-keeps h k m {old} e = elim (Option-cases (get k m)) [
  | inr (found, there) ↦ rw (there, or_insert_none) ((old, e), omega arith)
  | inl missing ↦ rw (missing, or_insert_none) (written, length-insert-le k none m)
]
  where
    written : (kept : Option Str) × (get h (insert k none m) ≡ some kept)
    written = elim (Bool-cases (k == h)) [
      | inl same ↦ (none, get-insert k h none m ∙ rw same refl)
      | inr apart ↦ (old, get-insert k h none m ∙ rw apart e)
    ]

pruned :
    (h : ℕ) (m : BTreeMap (Option Str)) {bound : ℕ}
    → (kept : Option Str) × (get h m ≡ some kept)
    → length m ≤ bound
    → bound ≤ max_reported_tracked
    → ((kept : Option Str) × (get h (prune_to max_reported_tracked m) ≡ some kept))
      × (length (prune_to max_reported_tracked m) ≤ bound)
pruned h m {bound} (kept, e) short fits =
    let same = prune_to_short max_reported_tracked m (omega arith) in
    ((kept, ap (get h) same ∙ e), subst (λ x. length x ≤ bound) (sym same) short)

register-Remembers :
    (h k bound : ℕ) (w : TipWatch) (hash : Option Str) (announce : Bool)
    → IsBounded w
    → suc bound ≤ max_reported_tracked
    → Remembers h bound w
    → Remembers h (suc bound) (register w k hash announce).0
unfolding Remembers register prune
register-Remembers h k bound w hash announce v fits ((old, e), short) =
    pruned h _ (match_reported-keeps h k w.reported (clean_hash hash) announce e)
      (omega (arith, length-match_reported k w.reported (clean_hash hash) announce v.ordered)) fits

polled-Remembers :
    (h tip bound : ℕ) (w : TipWatch) (baseline : Bool) (last : Option ℕ)
    → suc bound ≤ max_reported_tracked
    → Remembers h bound w
    → Remembers h (suc bound) (observe_from baseline last w tip).0
unfolding Remembers observe_from announce_baseline prune advance
polled-Remembers h tip bound w true last fits ((old, e), short) =
    let (kept, longer) = or_insert_none-keeps h tip w.reported e in
    pruned h _ kept (omega arith) fits
polled-Remembers h tip bound w false none fits ((old, e), short) =
    let (kept, longer) = or_insert_none-keeps h tip w.reported e in
    pruned h _ kept (omega arith) fits
polled-Remembers h tip bound w false (some last) fits (there, short) =
    elim (Bool-cases (leb tip last)) [
      | inl old ↦ rw old (there, omega arith)
      | inr newer ↦ rw newer (there, omega arith)
    ]

step-Remembers :
    (h bound : ℕ) (w : TipWatch) (e : Event)
    → IsBounded w
    → suc bound ≤ max_reported_tracked
    → Remembers h bound w
    → Remembers h (suc bound) (step w e)
unfolding step begin_session record_reported observe_fetched observe_tip Remembers
step-Remembers h bound w Event.connects v fits r = (r.0, omega (arith, r.1))
step-Remembers h bound w (Event.polls tip) v fits r =
    polled-Remembers h tip bound w w.needs_baseline w.last_tip fits r
step-Remembers h bound w (Event.reports k hash) v fits r =
    register-Remembers h k bound w hash true v fits r
step-Remembers h bound w (Event.fetches k hash) v fits r =
    register-Remembers h k bound w hash false v fits r

run-Remembers :
    (h bound : ℕ) (w : TipWatch) (es : List Event)
    → IsBounded w
    → bound + length es ≤ max_reported_tracked
    → Remembers h bound w
    → Remembers h (bound + length es) (run w es)
unfolding run
run-Remembers h bound w [] v fits r = subst (λ n. Remembers h n w) (omega arith) r
run-Remembers h bound w (e ∷ es) v fits r =
    subst (λ n. Remembers h n (run (step w e) es)) (omega arith)
      (run-Remembers h (suc bound) (step w e) es (step-IsBounded w e v) (omega arith)
        (step-Remembers h bound w e v (omega arith) r))

-- A report adds at most one height.
pub length-record_reported :
    (w : TipWatch) (h : ℕ) (hash : Option Str)
    → IsBounded w
    → length (record_reported w h hash).0.reported ≤ suc (length w.reported)
unfolding record_reported register prune
length-record_reported w h hash v = omega (
  arith,
  length-prune_to-shrinks max_reported_tracked
      (match_reported h w.reported (clean_hash hash) true).0,
  length-match_reported h w.reported (clean_hash hash) true v.ordered,
)

-- A block that the memory has room for is not announced as new again, also when it comes back with
-- another hash or with none, while no more sessions, polls and blocks lie between than the memory has
-- places left, so that nothing of it is pruned.
pub record_reported_again :
    (w : TipWatch) (h : ℕ) (hash later : Option Str) (between : List Event)
    → IsBounded w
    → HasRoom w h
    → let once = (record_reported w h hash).0 in
      length once.reported + length between ≤ max_reported_tracked
      → (record_reported (run once between) h later).1 ≢ new
unfolding record_reported register step Remembers prune
record_reported_again w h hash later between v room fits isnew =
    let once : TipWatch = (register w h hash true).0 in
    let bounded : IsBounded once = step-IsBounded w (Event.reports h hash) v in
    let remembered : Remembers h (length once.reported + length between) (run once between) =
      run-Remembers h (length once.reported) once between bounded fits
        ((_, register-remembers w h hash true v room), omega arith) in
    let again = (register-new_iff (run once between) h later true).0 isnew in
    cc (again.1, remembered.0.1)
