-- ===== src/Node/Report/Announced.antt =====
-- src/main.rs, `run_rpc_session`: which blocks a poll of the tip announces, and as whose.
use xus_miner.Common.{
  ℕ, Option, none, Str, Option-cases, zero, suc, ◌+◌, ◌-◌, ◌≤◌, ◌<◌, ◌≡◌, refl, sym, ◌∙◌, ap, ◌⊎◌,
  inl, inr, Bool, true, false, not, List, [], ◌∷◌, ◌++◌, some, ltb, if◌then◌else◌, is_some,
  Bool-cases, All, All-append, up_from, range_inclusive, arith,
}
use mathlib.Core.List.{append_assoc}
use mathlib.Core.Path.{subst}
use xus_miner.Job.{Codecs}
use xus_miner.Blockflow.Reply.{block_hash}
use xus_miner.Session.{State, Event, emit}
use xus_miner.Feed.{ChainBlock, chain_block}
use xus_miner.Blockflow.Sealed.{SealedBlocks, mine_mark, proven}
use xus_miner.Blockflow.Sealed.Attribution.{Attributed, mine_mark-proven_iff}
use xus_miner.Blockflow.Tip.{TipWatch, TipAdvance, BlockRecord, observe_tip, record_reported}
use xus_miner.Blockflow.Recent.{BlockInfo}
use xus_miner.Blockflow.Tip.Advance.{
  AnnouncesAbove, first_poll, no_news, news, observe_tip-AnnouncesAbove,
}
use xus_miner.Node.Report.{
  Replies, Strip, tell_block, emit_chain_reorg, report_block, report_blocks, tell_gap, tell_advance,
  report_chain, detail_of, block_info,
}

-- The blocks among the events.
abbrev pub block_of : Event → List ChainBlock
block_of (Event.chain_block b) = b ∷ []
block_of _ = []

abbrev pub blocks_of : List Event → List ChainBlock
blocks_of [] = []
blocks_of (e ∷ es) = block_of e ++ blocks_of es

-- The heights rise, from the first number on and below the second.
abbrev pub Ascends : ℕ → ℕ → List ChainBlock → Type 0
Ascends from to [] = Unit {0}
Ascends from to (b ∷ bs) = (from ≤ b.height) × (b.height < to) × Ascends (suc b.height) to bs

-- The hashes that the node disclosed, of the heights whose detail it sent.
abbrev pub disclosed : (C : Codecs) → Replies C → ℕ → Option (Option Str)
disclosed C r height = elim (r.reported height) [
  | none ↦ none
  | some block ↦ some (block_hash (Codecs.json C) block)
]

-- A block is claimed for this miner only if the node sent its detail, and what the detail disclosed,
-- which the event repeats, is of a block that was sealed.
abbrev pub Earned : (ℕ → Option (Option Str)) → SealedBlocks → ChainBlock → Type 0
Earned d sealed b =
    (b.mine ≡ false)
    ⊎ ((hash : Option Str) × (d b.height ≡ some hash)
        × (b.hash ≡ hash)
        × (b.detail_fetch_failed ≡ false)
        × Attributed sealed b.height hash)

-- What a step of the report adds to the events.
pub record Announces (d : ℕ → Option (Option Str)) (from to : ℕ) (before after : State)
    : Type 0 where
  pub told : List Event
  pub events : after.events ≡ before.events ++ told
  pub once : Ascends from to (blocks_of told)
  pub earned : All (Earned d before.sealed_blocks) (blocks_of told)
  pub kept : after.sealed_blocks ≡ before.sealed_blocks

blocks_of-append : (xs ys : List Event) → blocks_of (xs ++ ys) ≡ blocks_of xs ++ blocks_of ys
blocks_of-append [] ys = refl
blocks_of-append (x ∷ xs) ys =
    ap (λ r. block_of x ++ r) (blocks_of-append xs ys)
    ∙ sym (append_assoc (block_of x) (blocks_of xs) (blocks_of ys))

Ascends-from : (a b c : ℕ) (bs : List ChainBlock) → a ≤ b → Ascends b c bs → Ascends a c bs
Ascends-from a b c [] le h = tt
Ascends-from a b c (x ∷ bs) le h = (omega (arith, h.0), h.1, h.2)

Ascends-append :
    (a b c : ℕ) (xs ys : List ChainBlock)
    → a ≤ b
    → b ≤ c
    → Ascends a b xs
    → Ascends b c ys
    → Ascends a c (xs ++ ys)
Ascends-append a b c [] ys ab bc hx hy = Ascends-from a b c ys ab hy
Ascends-append a b c (x ∷ xs) ys ab bc hx hy = (
  hx.0,
  omega (arith, hx.1),
  Ascends-append (suc x.height) b c xs ys (omega (arith, hx.1)) bc hx.2 hy,
)

append_nil : {A : Type 0} (xs : List A) → xs ≡ xs ++ []
append_nil [] = refl
append_nil (x ∷ xs) = ap (λ r. x ∷ r) (append_nil xs)

Announces-nothing :
    (d : ℕ → Option (Option Str)) (from to : ℕ) (s : State) → Announces d from to s s
Announces-nothing d from to s = record {
  told = [];
  events = append_nil s.events;
  once = tt;
  earned = tt;
  kept = refl;
}

Announces-append :
    (d : ℕ → Option (Option Str)) (a b c : ℕ) (s t u : State)
    → a ≤ b
    → b ≤ c
    → Announces d a b s t
    → Announces d b c t u
    → Announces d a c s u
Announces-append d a b c s t u ab bc x y =
    let both = blocks_of-append x.told y.told in
    record {
      told = x.told ++ y.told;
      events = y.events ∙ ap (λ es. es ++ y.told) x.events ∙ append_assoc s.events x.told y.told;
      once =
          subst (Ascends a c) (sym both)
            (Ascends-append a b c (blocks_of x.told) (blocks_of y.told) ab bc x.once y.once);
      earned = subst (All (Earned d s.sealed_blocks)) (sym both) (
          All-append (Earned d s.sealed_blocks) (blocks_of x.told) (blocks_of y.told) x.earned
            (subst (λ k. All (Earned d k) (blocks_of y.told)) x.kept y.earned));
      kept = y.kept ∙ x.kept;
    }

Ascends-to : (a b c : ℕ) (bs : List ChainBlock) → b ≤ c → Ascends a b bs → Ascends a c bs
Ascends-to a b c [] le h = tt
Ascends-to a b c (x ∷ bs) le h = (h.0, omega (arith, h.1), Ascends-to (suc x.height) b c bs le h.2)

Announces-wider :
    (d : ℕ → Option (Option Str)) (a c : ℕ) (s t : State)
    → a ≤ c
    → Announces d a a s t
    → Announces d a c s t
Announces-wider d a c s t le x = record {
  told = x.told;
  events = x.events;
  once = Ascends-to a a c (blocks_of x.told) le x.once;
  earned = x.earned;
  kept = x.kept;
}

-- One event.
emit-Announces :
    (d : ℕ → Option (Option Str)) (from to : ℕ) (e : Event) (s : State)
    → Ascends from to (block_of e ++ [])
    → All (Earned d s.sealed_blocks) (block_of e ++ [])
    → Announces d from to s (emit e s)
unfolding emit
emit-Announces d from to e s once earned = elim (Bool-cases s.json_events) [
  | inl on ↦
      subst (λ b. Announces d from to s (if b then record s { events = s.events ++ e ∷ [] } else s))
        (sym on)
        (record { told = e ∷ []; events = refl; once = once; earned = earned; kept = refl })
  | inr off ↦
      subst (λ b. Announces d from to s (if b then record s { events = s.events ++ e ∷ [] } else s))
        (sym off) (Announces-nothing d from to s)
]

chain_block-Earned :
    (d : ℕ → Option (Option Str)) (sealed : SealedBlocks) (height : ℕ) (fetched : Bool)
    (info : BlockInfo)
    → (fetched ≡ true → d height ≡ some info.hash)
    → Earned d sealed (
        chain_block height fetched info.hash info.tx_count info.timestamp_ms
          (mine_mark sealed height fetched info.hash))
unfolding chain_block
chain_block-Earned d sealed height fetched info known =
    let mark = mine_mark sealed height fetched info.hash in
    elim (Bool-cases (proven mark)) [
      | inr other ↦ inl other
      | inl mine ↦
          let (there, attributed) = (mine_mark-proven_iff sealed height fetched info.hash).0 mine in
          inr (info.hash, known there, refl, ap not there, attributed)
    ]

-- The detector's state is no event.
watched :
    (d : ℕ → Option (Option Str)) {from to : ℕ} (after : State) (watch : TipWatch) (s : State)
    → Announces d from to (record s { tip_watch = watch }) after
    → Announces d from to s after
watched d after watch s a = record {
  told = a.told;
  events = a.events;
  once = a.once;
  earned = a.earned;
  kept = a.kept;
}

tell_block-Announces :
    (d : ℕ → Option (Option Str)) (C : Codecs) (height : ℕ) (fetched : Bool) (info : BlockInfo)
    (found : BlockRecord) (watch : TipWatch) (s : State)
    → (fetched ≡ true → d height ≡ some info.hash)
    → Announces d height
        (suc height)
        s
        (tell_block C height fetched info found (record s { tip_watch = watch }))
unfolding tell_block emit_chain_reorg chain_block
tell_block-Announces d C height fetched info BlockRecord.new watch s known = watched d _ watch s (
    emit-Announces d height (suc height) _ (record s { tip_watch = watch })
      (omega arith, omega arith, tt)
      (chain_block-Earned d s.sealed_blocks height fetched info known, tt))
tell_block-Announces d C height fetched info (BlockRecord.reorg previous) watch s known =
    watched d _ watch s
      (emit-Announces d height (suc height) _ (record s { tip_watch = watch }) tt tt)
tell_block-Announces d C height fetched info BlockRecord.already_reported watch s known =
    watched d _ watch s (Announces-nothing d height (suc height) (record s { tip_watch = watch }))

detail_disclosed :
    (C : Codecs) (r : Replies C) (height : ℕ)
    → is_some (r.reported height) ≡ true
    → disclosed C r height ≡ some (detail_of C (r.reported height)).hash
unfolding detail_of block_info
detail_disclosed C r height sent = elim (Option-cases (r.reported height)) [
  | inl missing ↦ cc (rw missing at sent)
  | inr (block, there) ↦ rw (there, disclosed, detail_of) refl
]

report_block-Announces :
    (C : Codecs) (tip height : ℕ) (r : Replies C) (strip : Strip)
    → Announces
        (disclosed C r)
        height
        (suc height)
        strip.state
        (report_block C tip height (r.reported height) strip).state
unfolding report_block
report_block-Announces C tip height r strip =
    found_told (record_reported strip.state.tip_watch height (detail_of C (r.reported height)).hash)
  where
    found_told :
        (p : TipWatch × BlockRecord)
        → Announces (disclosed C r) height (suc height) strip.state (
            tell_block C height
              (is_some (r.reported height))
              (detail_of C (r.reported height))
              p.1
              (record strip.state { tip_watch = p.0 }))
    found_told (watch, found) =
        tell_block-Announces (disclosed C r) C height (is_some (r.reported height))
          (detail_of C (r.reported height)) found watch strip.state (detail_disclosed C r height)

report_blocks-Announces :
    (C : Codecs) (r : Replies C) (tip from n : ℕ) (strip : Strip)
    → Announces
        (disclosed C r)
        from
        (from + n)
        strip.state
        (report_blocks C r tip (up_from from n) strip).state
unfolding report_blocks
report_blocks-Announces C r tip from zero strip =
    Announces-nothing (disclosed C r) from (from + 0) strip.state
report_blocks-Announces C r tip from (suc n) strip =
    let next = report_block C tip from (r.reported from) strip in
    Announces-append (disclosed C r) from (suc from) (from + suc n) strip.state next.state _
      (omega arith) (omega arith) (report_block-Announces C tip from r strip)
      (subst
        (λ to.
          Announces (disclosed C r) (suc from) to next.state
            (report_blocks C r tip (up_from (suc from) n) next).state)
        (omega arith) (report_blocks-Announces C r tip (suc from) n next))

tell_gap-Announces :
    (C : Codecs) (r : Replies C) (at omitted from to : ℕ) (s : State)
    → Announces (disclosed C r) at at s (tell_gap C omitted from to s)
unfolding tell_gap
tell_gap-Announces C r at omitted from to s = told (ltb 0 omitted)
  where
    told :
        (some_left : Bool)
        → Announces
            (disclosed C r)
            at
            at
            s
            (if some_left then emit (Event.chain_gap omitted from to) s else s)
    told true = emit-Announces (disclosed C r) at at _ s tt tt
    told false = Announces-nothing (disclosed C r) at at s

tell_advance-Announces :
    (C : Codecs) (r : Replies C) (last tip : ℕ) (advance : TipAdvance) (strip : Strip)
    → AnnouncesAbove last tip advance
    → Announces
        (disclosed C r)
        (suc last)
        (suc tip)
        strip.state
        (tell_advance C r tip advance strip).state
unfolding tell_advance
tell_advance-Announces C r last tip _ strip (first_poll height) =
    emit-Announces (disclosed C r) (suc last) (suc tip) _ strip.state tt tt
tell_advance-Announces C r last tip _ strip no_news =
    Announces-nothing (disclosed C r) (suc last) (suc tip) strip.state
tell_advance-Announces C r last tip _ strip (news first omitted from to above within) =
    let s = tell_gap C omitted from to strip.state in
    Announces-append (disclosed C r) (suc last) first (suc tip) strip.state s _ above (omega arith)
      (Announces-wider (disclosed C r) (suc last) first strip.state s above
        (tell_gap-Announces C r (suc last) omitted from to strip.state))
      (subst
        (λ end.
          Announces (disclosed C r) first end s
            (report_blocks C r tip (range_inclusive first tip) (record strip { state = s })).state)
        (omega arith)
        (report_blocks-Announces C r tip first (suc tip - first) (record strip { state = s })))

-- A poll of the tip announces each block at most once, in ascending order, and none but those above
-- the last tip, up to the new one; it claims a block for this miner only if the node replied with
-- the block's detail, and the hash that this reply disclosed, or the height where it disclosed none,
-- is that of a block that this miner sealed.
pub report_chain-Announces :
    (C : Codecs) (r : Replies C) (last tip : ℕ) (strip : Strip)
    → strip.state.tip_watch.last_tip ≡ some last
    → Announces (disclosed C r) (suc last) (suc tip) strip.state (report_chain C r tip strip).state
unfolding report_chain
report_chain-Announces C r last tip strip known =
    let (watch, advance) = observe_tip strip.state.tip_watch tip in
    watched (disclosed C r) _ watch strip.state (
      tell_advance-Announces C r last tip advance
        (record strip { state = record strip.state { tip_watch = watch } })
        (observe_tip-AnnouncesAbove strip.state.tip_watch last tip known))
