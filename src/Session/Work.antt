-- ===== src/Session/Work.antt =====
-- src/main.rs, `State`: what the changes of work do to the slot and to the generation.
use xus_miner.Common.{ℕ, ◌≡◌, refl, Bool, none, Bool-cases, inl, inr, ◌⊎◌, Str}
use xus_miner.Job.{Job}
use xus_miner.Blockflow.Sealed.{record_entry}
use xus_miner.Session.{
  State, Event, emit, fetch_add, new_state, place_job, advance_generation, clear_job_if_current,
  holds, slot_address, record_sealed_block,
}

emit-keeps :
    (e : Event) (s : State) → ((emit e s).generation ≡ s.generation) × ((emit e s).job ≡ s.job)
unfolding emit
emit-keeps e s = elim (Bool-cases s.json_events) [
  | inl on ↦ rw on (refl, refl)
  | inr off ↦ rw off (refl, refl)
]

pub place_job-generation :
    (address : ℕ) (job : Job) (s : State) → (place_job address job s).generation ≡ s.generation
unfolding place_job
place_job-generation address job s = (emit-keeps _ _).0

-- Clearing takes both the job and the generation, or neither.
pub clear_job_if_current-cases :
    (address : ℕ) (job : Job) (s : State)
    → ((clear_job_if_current address job s).0 ≡ s)
      ⊎ (((clear_job_if_current address job s).0.generation ≡ fetch_add s.generation 1)
          × ((clear_job_if_current address job s).0.job ≡ none))
unfolding clear_job_if_current advance_generation
clear_job_if_current-cases address job s = elim (Bool-cases (holds (slot_address s.job) address)) [
  | inl found ↦ rw found (inr (emit-keeps _ _))
  | inr other ↦ rw other (inl refl)
]

pub advance_generation-generation :
    (s : State) → (advance_generation s).generation ≡ fetch_add s.generation 1
unfolding advance_generation
advance_generation-generation s = refl

pub new_state-generation : (json_events : Bool) → (new_state json_events).generation ≡ 0
unfolding new_state
new_state-generation json_events = refl

-- Neither telemetry nor clearing the slot touches the counters of the shares or the sealed blocks.
abbrev pub Counts : State → State → Type 0
Counts s t =
    (s.submitted ≡ t.submitted)
    × (s.accepted ≡ t.accepted)
    × (s.rejected ≡ t.rejected)
    × (s.sealed_blocks ≡ t.sealed_blocks)

pub emit-Counts : (e : Event) (s : State) → Counts (emit e s) s
unfolding emit
emit-Counts e s = elim (Bool-cases s.json_events) [
  | inl on ↦ rw on (refl, refl, refl, refl)
  | inr off ↦ rw off (refl, refl, refl, refl)
]

pub clear_job_if_current-Counts :
    (address : ℕ) (job : Job) (s : State) → Counts (clear_job_if_current address job s).0 s
unfolding clear_job_if_current advance_generation
clear_job_if_current-Counts address job s = elim (Bool-cases (holds (slot_address s.job) address)) [
  | inl found ↦ rw found (emit-Counts _ _)
  | inr other ↦ rw other (refl, refl, refl, refl)
]

pub record_sealed_block-Counts :
    (height : ℕ) (hash : Str) (s : State)
    → ((record_sealed_block height hash s).submitted ≡ s.submitted)
      × ((record_sealed_block height hash s).accepted ≡ s.accepted)
      × ((record_sealed_block height hash s).rejected ≡ s.rejected)
      × ((record_sealed_block height hash s).sealed_blocks
          ≡ record_entry s.sealed_blocks height hash)
unfolding record_sealed_block
record_sealed_block-Counts height hash s = (refl, refl, refl, refl)
