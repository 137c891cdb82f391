-- ===== src/Memory/Gate.antt =====
-- src/main.rs, `RandomxMemoryGate::ensure_safe`, over all the jobs of a session.
use xus_miner.Common.{
  ℕ, Exists, ◌⊎◌, ◌<◌, ◌+◌, ◌*◌, ◌≤◌, ◌≡◌, refl, Bool, true, false, List, [], ◌∷◌, Option, none,
  some, inl, inr, Result, ok, err, ok_inj, Bool-cases, ltb, leb, ◌==◌, ◌&&◌, ◌||◌, not, ◌^◌, arith,
}
use mathlib.Core.Path.{subst, sym}
use xus_miner.Common.Try.{after_refusal}
use xus_miner.Pow.{PowAlgo}
use xus_miner.Memory.{
  HeadlessMemoryPreflight, RandomxMemoryGate, MemoryError, new_gate, ensure_safe, scan_gate,
  approve, counters_of, resolve_headless_memory, validate_headless_memory, randomx_memory_bytes_for,
  memory_headroom_bytes, saturating_mul, dataset_bytes, light_cache_bytes, worker_bytes,
  min_headroom_bytes,
}

-- What RandomX is reckoned to need: the shared memory, and that of each worker.
abbrev pub need : ℕ → Bool → ℕ
need workers true = light_cache_bytes + worker_bytes * workers
need workers false = dataset_bytes + worker_bytes * workers

-- The operating system gave no reading, or one that contradicts itself.
abbrev pub Unusable : Option (ℕ × ℕ) → Type 0
Unusable none = Unit {0}
Unusable (some (available, total)) = (total ≡ 0) ⊎ (total < available)

-- What an approval rests on: a reading among these, by which what is available covers the need with
-- the headroom and the reading agrees with itself; or an unusable reading among these and the
-- operator's word.
abbrev pub Covers : ℕ → Bool → Bool → List (Option (ℕ × ℕ)) → Option ℕ → Option ℕ → Type 0
Covers workers light confirmed scans (some available) (some total) =
    (need workers light + min_headroom_bytes ≤ available)
    × (available ≤ total)
    × Exists (λ scan. scan ≡ some (available, total)) scans
Covers workers light confirmed scans none none = (confirmed ≡ true) × Exists Unusable scans
Covers workers light confirmed scans _ _ = ⊥

abbrev pub Approved :
    ℕ → Bool → Bool → List (Option (ℕ × ℕ)) → Option HeadlessMemoryPreflight → Type 0
Approved workers light confirmed scans none = Unit {0}
Approved workers light confirmed scans (some p) =
    Covers workers light confirmed scans p.available p.total

-- The readings for the RandomX jobs, the last one first.
abbrev pub scans_of :
    List (PowAlgo × Option (ℕ × ℕ)) → List (Option (ℕ × ℕ)) → List (Option (ℕ × ℕ))
scans_of [] before = before
scans_of ((PowAlgo.random_x, scan) ∷ jobs) before = scans_of jobs (scan ∷ before)
scans_of ((PowAlgo.sha256d, scan) ∷ jobs) before = scans_of jobs before

Covers-more :
    (workers : ℕ) (light confirmed : Bool) (scan : Option (ℕ × ℕ)) (scans : List (Option (ℕ × ℕ)))
    (p : HeadlessMemoryPreflight)
    → Covers workers light confirmed scans p.available p.total
    → Covers workers light confirmed (scan ∷ scans) p.available p.total
Covers-more workers light confirmed scan scans p covers = more p.available p.total covers
  where
    more :
        (available total : Option ℕ)
        → Covers workers light confirmed scans available total
        → Covers workers light confirmed (scan ∷ scans) available total
    more (some available) (some total) c = (c.0, c.1, inr (c.2))
    more none none c = (c.0, inr (c.1))
    more (some available) none c = c
    more none (some total) c = c

-- `randomx_memory_bytes_for` does not saturate for the workers that the command line allows.
memory_bytes-need :
    (workers : ℕ) (light : Bool)
    → workers ≤ 64
    → randomx_memory_bytes_for workers light ≡ need workers light
unfolding randomx_memory_bytes_for saturating_mul
memory_bytes-need workers true few = ground arith
memory_bytes-need workers false few = ground arith

need-le : (workers : ℕ) (light : Bool) → workers ≤ 64 → need workers light ≤ 2 ^ 33
need-le workers true few = omega arith
need-le workers false few = omega arith

headroom-le : (total : ℕ) → min_headroom_bytes ≤ memory_headroom_bytes total
unfolding memory_headroom_bytes
headroom-le total = omega arith

headroom_le_max : (total : ℕ) → memory_headroom_bytes total ≤ 2 ^ 32
unfolding memory_headroom_bytes
headroom_le_max total = omega arith

validate_headless_memory-Covers :
    (workers : ℕ) (light confirmed : Bool) (available total : ℕ) (before : List (Option (ℕ × ℕ)))
    {p : HeadlessMemoryPreflight}
    → workers ≤ 64
    → validate_headless_memory workers light available total ≡ ok p
    → Covers workers light confirmed (some (available, total) ∷ before) p.available p.total
unfolding validate_headless_memory
validate_headless_memory-Covers workers light confirmed available total before few e =
    let (consistent, e₁) = after_refusal (total == 0 || ltb total available) _ _ e in
    let (enough, e₂) = after_refusal (ltb available _) _ _ e₁ in
    let exact = memory_bytes-need workers light few in
    let small = need-le workers light few in
    let room = headroom-le total in
    let most = headroom_le_max total in
    subst
      (λ q. Covers workers light confirmed (some (available, total) ∷ before) q.available q.total)
      (ok_inj e₂) (ground arith, ground arith, inl refl)

-- The counters are those of the reading, and zero without one.
usable-Unusable :
    (scan : Option (ℕ × ℕ))
    → (ltb 0 (counters_of scan).1 && leb (counters_of scan).0 (counters_of scan).1) ≡ false
    → Unusable scan
unfolding counters_of
usable-Unusable none e = tt
usable-Unusable (some (available, total)) e = ground arith

usable-some :
    (scan : Option (ℕ × ℕ))
    → (ltb 0 (counters_of scan).1 && leb (counters_of scan).0 (counters_of scan).1) ≡ true
    → scan ≡ some (counters_of scan)
unfolding counters_of
usable-some none e = ground arith
usable-some (some counters) e = refl

resolve_headless_memory-Covers :
    (workers : ℕ) (light confirmed : Bool) (scan : Option (ℕ × ℕ)) (before : List (Option (ℕ × ℕ)))
    {p : HeadlessMemoryPreflight}
    → workers ≤ 64
    → resolve_headless_memory workers light (counters_of scan).0 (counters_of scan).1 confirmed
      ≡ ok p
    → Covers workers light confirmed (scan ∷ before) p.available p.total
unfolding resolve_headless_memory
resolve_headless_memory-Covers workers light confirmed scan before {p} few e =
    let available : ℕ = (counters_of scan).0 in
    let total : ℕ = (counters_of scan).1 in
    elim (Bool-cases (ltb 0 total && leb available total)) [
      | inl scanned ↦
          subst (λ x. Covers workers light confirmed (x ∷ before) p.available p.total)
            (sym (usable-some scan scanned))
            (validate_headless_memory-Covers workers light confirmed available total before few
              (rw scanned at e))
      | inr failed ↦
          let (asked, e₁) =
            after_refusal (not confirmed) MemoryError.unconfirmed _ (rw failed at e) in
          subst (λ q. Covers workers light confirmed (scan ∷ before) q.available q.total)
            (ok_inj e₁) (ground arith, inl (usable-Unusable scan failed))
    ]

-- The gate of these settings, with a sound approval if it has one.
abbrev pub Sound : ℕ → Bool → Bool → List (Option (ℕ × ℕ)) → RandomxMemoryGate → Type 0
Sound workers light confirmed scans g =
    (g.workers ≡ workers)
    × (g.force_light ≡ light)
    × (g.unavailable_scan_confirmed ≡ confirmed)
    × Approved workers light confirmed scans g.approved

approve-Sound :
    (workers : ℕ) (light confirmed : Bool) (g : RandomxMemoryGate)
    (r : Result MemoryError HeadlessMemoryPreflight) (scans : List (Option (ℕ × ℕ)))
    → Sound workers light confirmed scans g
    → ((p : HeadlessMemoryPreflight)
        → r ≡ ok p
        → Covers workers light confirmed scans p.available p.total)
    → Sound workers light confirmed scans (approve g r).0
unfolding approve
approve-Sound workers light confirmed g (ok p) scans s covers = (s.0, s.1, s.2, covers p refl)
approve-Sound workers light confirmed g (err e) scans s covers = s

Sound-more :
    (workers : ℕ) (light confirmed : Bool) (scan : Option (ℕ × ℕ)) (scans : List (Option (ℕ × ℕ)))
    (g : RandomxMemoryGate)
    → Sound workers light confirmed scans g
    → Sound workers light confirmed (scan ∷ scans) g
Sound-more workers light confirmed scan scans g s = (s.0, s.1, s.2, more g.approved (s.3))
  where
    more :
        (a : Option HeadlessMemoryPreflight)
        → Approved workers light confirmed scans a
        → Approved workers light confirmed (scan ∷ scans) a
    more none c = tt
    more (some p) c = Covers-more workers light confirmed scan scans p c

scan_gate-Sound :
    (workers : ℕ) (light confirmed : Bool) (algo : PowAlgo) (a : Option HeadlessMemoryPreflight)
    (scan : Option (ℕ × ℕ)) (g : RandomxMemoryGate) (scans : List (Option (ℕ × ℕ)))
    → workers ≤ 64
    → Sound workers light confirmed scans g
    → Sound workers light confirmed (scans_of ((algo, scan) ∷ []) scans) (scan_gate algo a scan g).0
unfolding scan_gate
scan_gate-Sound workers light confirmed PowAlgo.sha256d a scan g scans few s = s
scan_gate-Sound workers light confirmed PowAlgo.random_x (some p) scan g scans few s =
    Sound-more workers light confirmed scan scans g s
scan_gate-Sound workers light confirmed PowAlgo.random_x none scan g scans few s =
    approve-Sound workers light confirmed g _ (scan ∷ scans)
      (Sound-more workers light confirmed scan scans g s)
      (λ p e.
        resolve_headless_memory-Covers workers light confirmed scan scans few
          (rw (s.0, s.1, s.2) at e))

approve-ok :
    (g : RandomxMemoryGate) (r : Result MemoryError HeadlessMemoryPreflight)
    → (approve g r).1 ≡ ok tt
    → (p : HeadlessMemoryPreflight) × ((approve g r).0.approved ≡ some p)
unfolding approve
approve-ok g (ok p) f = (p, refl)
approve-ok g (err x) f = cc

scan_gate-ok :
    (a : Option HeadlessMemoryPreflight) (scan : Option (ℕ × ℕ)) (g : RandomxMemoryGate)
    → g.approved ≡ a
    → (scan_gate PowAlgo.random_x a scan g).1 ≡ ok tt
    → (p : HeadlessMemoryPreflight) × ((scan_gate PowAlgo.random_x a scan g).0.approved ≡ some p)
unfolding scan_gate
scan_gate-ok (some p) scan g same e = (p, same)
scan_gate-ok none scan g same e = approve-ok g _ e

-- The jobs of a session, each with what the operating system answers if it is asked.
abbrev pub run_gate : RandomxMemoryGate → List (PowAlgo × Option (ℕ × ℕ)) → RandomxMemoryGate
run_gate g [] = g
run_gate g (j ∷ jobs) = run_gate (ensure_safe j.0 j.1 g).0 jobs

run_gate-Sound :
    (workers : ℕ) (light confirmed : Bool) (g : RandomxMemoryGate)
    (jobs : List (PowAlgo × Option (ℕ × ℕ))) (scans : List (Option (ℕ × ℕ)))
    → workers ≤ 64
    → Sound workers light confirmed scans g
    → Sound workers light confirmed (scans_of jobs scans) (run_gate g jobs)
unfolding ensure_safe
run_gate-Sound workers light confirmed g [] scans few s = s
run_gate-Sound workers light confirmed g ((PowAlgo.sha256d, scan) ∷ jobs) scans few s =
    run_gate-Sound workers light confirmed (ensure_safe PowAlgo.sha256d scan g).0 jobs scans few
      (scan_gate-Sound workers light confirmed PowAlgo.sha256d g.approved scan g scans few s)
run_gate-Sound workers light confirmed g ((PowAlgo.random_x, scan) ∷ jobs) scans few s =
    run_gate-Sound workers light confirmed (ensure_safe PowAlgo.random_x scan g).0 jobs
      (scan ∷ scans) few
      (scan_gate-Sound workers light confirmed PowAlgo.random_x g.approved scan g scans few s)

-- Whatever jobs a session of at most 64 workers had before, a RandomX job passes the gate only when
-- for this or an earlier RandomX job the operating system gave a consistent reading by which the need
-- of all workers with at least the smallest headroom was available, or when for one of these jobs it
-- gave no usable reading and the operator confirmed the start without one.
pub ensure_safe-Covers :
    (workers : ℕ) (light confirmed : Bool) (jobs : List (PowAlgo × Option (ℕ × ℕ)))
    (scan : Option (ℕ × ℕ))
    → workers ≤ 64
    → let g = run_gate (new_gate workers light confirmed) jobs in
      (ensure_safe PowAlgo.random_x scan g).1 ≡ ok tt
      → (p : HeadlessMemoryPreflight) × ((ensure_safe PowAlgo.random_x scan g).0.approved ≡ some p)
        × Covers workers light confirmed (scan ∷ scans_of jobs []) p.available p.total
unfolding ensure_safe new_gate
ensure_safe-Covers workers light confirmed jobs scan few e =
    let first : RandomxMemoryGate = new_gate workers light confirmed in
    let g : RandomxMemoryGate = run_gate first jobs in
    let sound : Sound workers light confirmed (scans_of jobs []) g =
      run_gate-Sound workers light confirmed first jobs [] few (refl, refl, refl, tt) in
    let (p, approved) = scan_gate-ok g.approved scan g refl e in
    let after =
      scan_gate-Sound workers light confirmed PowAlgo.random_x g.approved scan g (scans_of jobs [])
        few sound in
    (
      p,
      approved,
      subst (Approved workers light confirmed (scan ∷ scans_of jobs [])) approved after.3,
    )
