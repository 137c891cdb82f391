-- ===== src/Blockflow/Tip/Memory.antt =====
-- src/blockflow.rs, `TipWatch::record` and `prune`: what the feed remembers of the reported heights.
use xus_miner.Common.{
  ℕ, ◌≤◌, inl, inr, Bool, true, false, List, [], ◌∷◌, Option, none, some, length, Str, arith,
  Option-cases,
}
use xus_miner.Common.BTree.{
  BTreeMap, get, Ascends, Ascends-insert, Ascends-prune_to, length-prune_to-le,
}
use xus_miner.Blockflow.Tip.{
  TipWatch, max_reported_tracked, default, begin_session, observe_tip, match_known, match_reported,
  register, record_reported, observe_fetched, or_insert_none, prune,
}

pub record IsBounded (w : TipWatch) : Type 0 where
  pub ordered : Ascends 0 w.reported
  pub small : length w.reported ≤ max_reported_tracked

-- What drives the detector, in any order.
pub data Event : Type 0 where
  connects : Event
  polls : ℕ → Event
  reports fetches : ℕ → Option Str → Event

unfoldable pub step : TipWatch → Event → TipWatch
step w connects = begin_session w
step w (polls tip) = (observe_tip w tip).0
step w (reports height hash) = (record_reported w height hash).0
step w (fetches height hash) = (observe_fetched w height hash).0

unfoldable pub run : TipWatch → List Event → TipWatch
run w [] = w
run w (e ∷ es) = run (step w e) es

match_known-Ascends :
    (h : ℕ) (m : BTreeMap (Option Str)) (old hash : Option Str)
    → Ascends 0 m
    → Ascends 0 (match_known h m old hash).0
unfolding match_known
match_known-Ascends h m (some p) (some n) a =
    ground (arith, Ascends-insert 0 h (some n) m (omega arith) a)
match_known-Ascends h m none (some n) a = Ascends-insert 0 h (some n) m (omega arith) a
match_known-Ascends h m (some p) none a = a
match_known-Ascends h m none none a = a

pub match_reported-Ascends :
    (h : ℕ) (m : BTreeMap (Option Str)) (hash : Option Str) (announce : Bool)
    → Ascends 0 m
    → Ascends 0 (match_reported h m hash announce).0
unfolding match_reported
match_reported-Ascends h m hash announce a = elim (Option-cases (get h m)) [
  | inl e ↦ rw (e, match_reported) (Ascends-insert 0 h hash m (omega arith) a)
  | inr (old, e) ↦ rw (e, match_reported) (match_known-Ascends h m old hash a)
]

pub or_insert_none-Ascends :
    (h : ℕ) (m : BTreeMap (Option Str)) → Ascends 0 m → Ascends 0 (or_insert_none h m)
unfolding or_insert_none
or_insert_none-Ascends h m a = elim (Option-cases (get h m)) [
  | inl e ↦ rw (e, or_insert_none) (Ascends-insert 0 h none m (omega arith) a)
  | inr (old, e) ↦ rw (e, or_insert_none) a
]

register-IsBounded :
    (w : TipWatch) (h : ℕ) (hash : Option Str) (announce : Bool)
    → IsBounded w
    → IsBounded (register w h hash announce).0
unfolding register
register-IsBounded w h hash announce v = record {
  ordered = Ascends-prune_to _ 0 _ (match_reported-Ascends h w.reported _ announce v.ordered);
  small = length-prune_to-le _ _;
}

observe_tip-IsBounded : (w : TipWatch) (tip : ℕ) → IsBounded w → IsBounded (observe_tip w tip).0
unfolding observe_tip
observe_tip-IsBounded w tip v = ground (arith, observed)
  where
    observed : IsBounded (prune (record w { reported = or_insert_none tip w.reported }))
    observed = record {
      ordered = Ascends-prune_to _ 0 _ (or_insert_none-Ascends tip w.reported v.ordered);
      small = length-prune_to-le _ _;
    }

pub step-IsBounded : (w : TipWatch) (e : Event) → IsBounded w → IsBounded (step w e)
unfolding step begin_session record_reported observe_fetched
step-IsBounded w connects v = record { ordered = v.ordered; small = v.small }
step-IsBounded w (polls tip) v = observe_tip-IsBounded w tip v
step-IsBounded w (reports h hash) v = register-IsBounded w h hash true v
step-IsBounded w (fetches h hash) v = register-IsBounded w h hash false v

run-IsBounded : (w : TipWatch) (es : List Event) → IsBounded w → IsBounded (run w es)
unfolding run
run-IsBounded w [] v = v
run-IsBounded w (e ∷ es) v = run-IsBounded (step w e) es (step-IsBounded w e v)

-- Whatever sessions, polls and blocks a new detector meets, in any order, it remembers at most
-- `MAX_REPORTED_TRACKED` heights, each once and in ascending order.
pub run-default-IsBounded : (es : List Event) → IsBounded (run default es)
unfolding default
run-default-IsBounded es = run-IsBounded default es (record { ordered = tt; small = omega arith })
