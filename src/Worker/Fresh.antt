-- ===== src/Worker/Fresh.antt =====
-- src/main.rs: the changes of work against the worker's two loads, `generation` and `job`, with every
-- access to what the threads share as a step of its own, in one order that all threads see.
use xus_miner.Common.{
  ℕ, ◌+◌, ◌-◌, ◌≤◌, ◌<◌, ◌≡◌, refl, sym, ◌∙◌, Bool, true, false, Option, none, some, ◌==◌,
  if◌then◌else◌, inl, inr, ◌⊎◌, u64_max, ◌^◌, ◌%◌, arith,
}
use mathlib.Core.Path.{subst}
use xus_miner.Job.{Job, Bytes}
use xus_miner.Session.{State, new_state, place_job, advance_generation, clear_job_if_current}
use xus_miner.Session.Work.{
  place_job-generation, advance_generation-generation, clear_job_if_current-cases,
  new_state-generation,
}
use xus_miner.Worker.{Worker, new_worker, observe, reload, submits}

-- The shared state, one worker, whether it is between its two loads, and how many threads have
-- changed the slot but not yet the generation.
pub record World : Type 0 where
  pub state : State
  pub worker : Worker
  pub reading : Bool
  pub changing : ℕ

-- `clear_connection`, up to the generation.
abbrev pub empty_slot : State → State
empty_slot s = record s { connection = none; job = none; confirmed_coinbase = none }

-- The changes of work are fewer than 2^64 - 1.
pub data Step (w : World) : World → Type 0 where
  observes : Step w (record w {
    worker = observe w.state.generation w.worker;
    reading = if w.state.generation == w.worker.generation then w.reading else true;
  })
  reads : Step w (record w { worker = reload w.state.job w.worker; reading = false })
  hashes :
      (v : Worker)
      → v.generation ≡ w.worker.generation
      → v.job ≡ w.worker.job
      → Step w (record w { worker = v })
  counts :
      (s : State)
      → s.generation ≡ w.state.generation
      → s.job ≡ w.state.job
      → Step w (record w { state = s })
  places :
      (address : ℕ) (job : Job)
      → Step w (record w { state = place_job address job w.state; changing = w.changing + 1 })
  disconnects : Step w (record w { state = empty_slot w.state; changing = w.changing + 1 })
  advances :
      w.state.generation + 1 < u64_max
      → Step w (record w { state = advance_generation w.state; changing = w.changing - 1 })
  clears :
      (address : ℕ) (job : Job)
      → w.state.generation + 1 < u64_max
      → Step w (record w { state = (clear_job_if_current address job w.state).0 })

pub data Reach (w : World) : World → Type 0 where
  here : Reach w w
  next : {u v : World} → Reach w u → Step u v → Reach w v

unfoldable pub start : Bool → ℕ → World
start json_events id = record {
  state = new_state json_events;
  worker = new_worker id;
  reading = false;
  changing = 0;
}

-- A worker is behind the generation or at it, or has seen none yet; and at it, it has the slot's job,
-- unless a change of work is under way.
pub record Fresh (w : World) : Type 0 where
  pub bounded : w.state.generation < u64_max
  pub behind : (w.worker.generation ≤ w.state.generation) ⊎ (w.worker.generation ≡ u64_max)
  pub current :
      w.reading ≡ false
      → w.worker.generation ≡ w.state.generation
      → w.changing ≡ 0
      → w.worker.job ≡ w.state.job

-- Where the generation moves on, no worker is at it yet.
moved :
    (n g : ℕ)
    → g + 1 < u64_max
    → (n ≤ g) ⊎ (n ≡ u64_max)
    → ((g + 1) % 2 ^ 64 < u64_max)
      × ((n ≤ (g + 1) % 2 ^ 64) ⊎ (n ≡ u64_max))
      × ((n ≡ (g + 1) % 2 ^ 64) → ⊥)
moved n g few (inl h) = (omega arith, inl (omega arith), λ e. omega (arith, e))
moved n g few (inr h) = (omega arith, inr h, λ e. omega (arith, e, h))

observes-Fresh :
    (w : World) (t : Bool)
    → (w.state.generation == w.worker.generation) ≡ t
    → Fresh w
    → Fresh (record w {
      worker = observe w.state.generation w.worker;
      reading = if t then w.reading else true;
    })
unfolding observe
observes-Fresh w true same f = rw same f
observes-Fresh w false other f =
    rw other (record { bounded = f.bounded; behind = inl (omega arith); current = λ r e c. cc })

reload-keeps :
    (slot : Option (ℕ × Job)) (v : Worker)
    → ((reload slot v).generation ≡ v.generation) × ((reload slot v).job ≡ slot)
unfolding reload
reload-keeps none v = (refl, refl)
reload-keeps (some (address, job)) v = (refl, refl)

Step-Fresh : {w v : World} → Step w v → Fresh w → Fresh v
Step-Fresh {w} observes f = observes-Fresh w _ refl f
Step-Fresh {w} reads f =
    let (g, j) = reload-keeps w.state.job w.worker in
    record {
      bounded = f.bounded;
      behind = subst (λ n. (n ≤ w.state.generation) ⊎ (n ≡ u64_max)) (sym g) f.behind;
      current = λ r e c. j;
    }
Step-Fresh {w} (hashes v g j) f = record {
  bounded = f.bounded;
  behind = subst (λ n. (n ≤ w.state.generation) ⊎ (n ≡ u64_max)) (sym g) f.behind;
  current = λ r e c. j ∙ f.current r (sym g ∙ e) c;
}
Step-Fresh {w} (counts s g j) f = record {
  bounded = subst (λ n. n < u64_max) (sym g) f.bounded;
  behind =
      subst (λ n. (w.worker.generation ≤ n) ⊎ (w.worker.generation ≡ u64_max)) (sym g) f.behind;
  current = λ r e c. f.current r (e ∙ g) c ∙ sym j;
}
Step-Fresh {w} (places address job) f =
    let g = place_job-generation address job w.state in
    record {
      bounded = subst (λ n. n < u64_max) (sym g) f.bounded;
      behind =
          subst (λ n. (w.worker.generation ≤ n) ⊎ (w.worker.generation ≡ u64_max)) (sym g) f.behind;
      current = λ r e c. absurd (omega (arith, c));
    }
Step-Fresh {w} disconnects f = record {
  bounded = f.bounded;
  behind = f.behind;
  current = λ r e c. absurd (omega (arith, c));
}
Step-Fresh {w} (advances few) f =
    let g = advance_generation-generation w.state in
    let (small, after, apart) = moved w.worker.generation w.state.generation few f.behind in
    record {
      bounded = subst (λ n. n < u64_max) (sym g) small;
      behind =
          subst (λ n. (w.worker.generation ≤ n) ⊎ (w.worker.generation ≡ u64_max)) (sym g) after;
      current = λ r e c. absurd (apart (e ∙ g));
    }
Step-Fresh {w} (clears address job few) f = elim (clear_job_if_current-cases address job w.state) [
  | inl same ↦ subst (λ s. Fresh (record w { state = s })) (sym same) f
  | inr (g, j) ↦
      let (small, after, apart) = moved w.worker.generation w.state.generation few f.behind in
      record {
        bounded = subst (λ n. n < u64_max) (sym g) small;
        behind =
            subst (λ n. (w.worker.generation ≤ n) ⊎ (w.worker.generation ≡ u64_max)) (sym g) after;
        current = λ r e c. absurd (apart (e ∙ g));
      }
]

start-Fresh : (json_events : Bool) (id : ℕ) → Fresh (start json_events id)
unfolding start new_worker
start-Fresh json_events id =
    let g = new_state-generation json_events in
    record {
      bounded = omega (arith, g);
      behind = inr refl;
      current = λ r e c. absurd (omega (arith, g, e));
    }

Reach-Fresh : {w v : World} → Fresh w → Reach w v → Fresh v
Reach-Fresh f here = f
Reach-Fresh f (next r s) = Step-Fresh s (Reach-Fresh f r)

-- However the threads interleave, over fewer than 2^64 - 1 changes of work: a worker whose test for a
-- submission passes holds the very job that stands in the slot, unless another thread is between its
-- change of the slot and its change of the generation.
pub submits-current :
    (json_events : Bool) (id : ℕ) (w : World) (j : Job) (digest : Bytes)
    → Reach (start json_events id) w
    → w.reading ≡ false
    → submits w.state w.worker j digest ≡ true
    → w.changing ≡ 0
    → w.worker.job ≡ w.state.job
unfolding submits
submits-current json_events id w j digest reach hashing passed still =
    let f = Reach-Fresh (start-Fresh json_events id) reach in f.current hashing (ground arith) still
