-- ===== src/Session/Messages/Effects.antt =====
-- src/main.rs, `handle_message`: what a message of the pool changes.
use mathlib.Core.Path.{subst, ap, sym, ◌∙◌}
use xus_miner.Common.{
  Str, str_eq, some_inj, >>=-eq-some, ==_iff, leb→le, ℕ, ◌⊎◌, ◌≢◌, ◌<◌, ◌≤◌, ◌-◌, ◌++◌, ◌↔◌, List,
  [], ◌∷◌, true, false, if◌then◌else◌, str_eq_iff, arith, ◌≡◌, refl, Bool, Option, none, some, leb,
  ◌==◌, Bool-cases, inl, inr, codes, Result, ok, err, ◌>>=◌,
}
use xus_miner.Job.{Job, JobError, Codecs}
use xus_miner.Job.Stratum.{from_stratum}
use xus_miner.Job.Stratum.Usable.{IsUsable, from_stratum-IsUsable}
use xus_miner.Memory.{RandomxMemoryGate, MemoryError, ensure_safe}
use xus_miner.Session.{
  emit, State, Event, fetch_add, install_job, login_id, first_submit_id, finish_share,
}
use xus_miner.Session.Messages.{
  Pool, SessionError, handle_message, install_job_value, install_parsed, pass_gate, offered, reply,
  count_share, no_error, is_job_push,
}

-- A text that is looked up and compared, and a field that is missing or passes a test.
equals_iff :
    {A : Type 0} (o : Option A) (f : A → Option Str) (wanted : Str)
    → ((elim (o >>= f) [ none ↦ false | some found ↦ str_eq found wanted ]) ≡ true)
      ↔ ((a : A) × (o ≡ some a) × (f a ≡ some wanted))
equals_iff none f wanted = (λ e. cc e, λ q. cc (q.1))
equals_iff {A} (some a) f wanted = (there (f a) refl, back)
  where
    there :
        (r : Option Str)
        → f a ≡ r
        → (elim r as (λ _. Bool) [ none ↦ false | some found ↦ str_eq found wanted ]) ≡ true
        → (b : A) × (some a ≡ some b) × (f b ≡ some wanted)
    there none e t = cc t
    there (some found) e t = (a, refl, e ∙ ap some ((str_eq_iff found wanted).0 t))

    back :
        ((b : A) × (some a ≡ some b) × (f b ≡ some wanted))
        → (elim (f a) as (λ _. Bool) [ none ↦ false | some found ↦ str_eq found wanted ]) ≡ true
    back (b, same, e) =
        let named : f a ≡ some wanted = ap f (some_inj same) ∙ e in
        rw named ((str_eq_iff wanted wanted).1 refl)

passes_iff :
    {A : Type 0} (o : Option A) (f : A → Bool)
    → ((elim o as (λ _. Bool) [ none ↦ true | some a ↦ f a ]) ≡ true)
      ↔ ((o ≡ none) ⊎ ((a : A) × (o ≡ some a) × (f a ≡ true)))
passes_iff none f = (λ e. inl refl, λ q. refl)
passes_iff (some a) f = (λ e. inr (a, refl, e), back)
  where
    back : (some a ≡ none) ⊎ ((b : _) × (some a ≡ some b) × (f b ≡ true)) → f a ≡ true
    back (inl e) = cc e
    back (inr (b, same, e)) = ap f (some_inj same) ∙ e

module _ (C : Codecs) where
  open C use {json}
  open json use {Value, field?, as_u64, as_str, is_null}

  -- The message pushes work.
  abbrev pub Pushes : Value → Type 0
  Pushes message =
      (v : Value) × (field? message (codes "method") ≡ some v) × (as_str v ≡ some (codes "job"))

  -- The message is a reply with this identifier, and not a push.
  abbrev pub RepliesTo : Value → ℕ → Type 0
  RepliesTo message id =
      (Pushes message → ⊥)
      × ((v : Value) × (field? message (codes "id") ≡ some v) × (as_u64 v ≡ some id))

  -- The message reports no error: there is no such field, or it is null.
  abbrev pub Good : Value → Type 0
  Good message =
      (field? message (codes "error") ≡ none)
      ⊎ ((v : Value) × (field? message (codes "error") ≡ some v) × (is_null v ≡ true))

  -- Where the message carries work: a push in its parameters, and a good reply to the login in its
  -- result.
  abbrev pub Carries : Value → Value → Type 0
  Carries message work =
      (Pushes message × (field? message (codes "params") ≡ some work))
      ⊎ (RepliesTo message login_id
          × Good message
          × ((result : Value) × (field? message (codes "result") ≡ some result)
              × (field? result (codes "job") ≡ some work)))

  -- The event of a reply to a share, if events are written.
  abbrev pub told : State → (accepted rejected : ℕ) → List Event
  told s accepted rejected =
      if s.json_events then s.events ++ Event.share s.submitted accepted rejected ∷ [] else s.events

  -- The shared state behind a reply to a share: one of the two counters goes up.
  abbrev pub Counted : State → Value → State → Type 0
  Counted s message t =
      (Good message
        × (t ≡ record s {
          accepted = fetch_add s.accepted 1;
          events = told s (fetch_add s.accepted 1) s.rejected;
        }))
      ⊎ ((Good message → ⊥)
          × (t ≡ record s {
            rejected = fetch_add s.rejected 1;
            events = told s s.accepted (fetch_add s.rejected 1);
          }))

  -- Why a message ends the session, and the gate behind it.
  pub data Fault (scan : Option (ℕ × ℕ)) (message : Value) (p : Pool)
      : RandomxMemoryGate → SessionError → Type 0 where
    no_parameters :
        Pushes message
        → field? message (codes "params") ≡ none
        → Fault scan message p p.gate SessionError.no_params
    rejected_login :
        RepliesTo message login_id
        → (Good message → ⊥)
        → Fault scan message p p.gate SessionError.login_rejected
    without_job :
        RepliesTo message login_id
        → Good message
        → (field? message (codes "result") >>= (λ r. field? r (codes "job"))) ≡ none
        → Fault scan message p p.gate SessionError.no_job
    unusable :
        (work : Value) (e : JobError)
        → Carries message work
        → from_stratum C work ≡ err e
        → Fault scan message p p.gate (SessionError.bad_job e)
    unsafe :
        (work : Value) (job : Job) (gate : RandomxMemoryGate) (e : MemoryError)
        → Carries message work
        → from_stratum C work ≡ ok job
        → ensure_safe job.algo scan p.gate ≡ (gate, err e)
        → Fault scan message p gate (SessionError.out_of_memory e)

  -- What a message changes, and when.
  pub data Outcome (address : ℕ) (scan : Option (ℕ × ℕ)) (message : Value) (p : Pool)
      : Pool → Result SessionError (Unit {0}) → Type 0 where
    ignored :
        (Pushes message → ⊥)
        → ((id : ℕ) → RepliesTo message id → (id ≢ login_id) × (id < first_submit_id))
        → Outcome address scan message p p (ok tt)
    counted :
        (id : ℕ) (s : State)
        → RepliesTo message id
        → id ≢ login_id
        → first_submit_id ≤ id
        → Counted p.state message s
        → Outcome address scan message p
            (record p {
              state = s;
              connection = record p.connection { pending = p.connection.pending - 1 };
            })
            (ok tt)
    installed :
        (work : Value) (job : Job) (gate : RandomxMemoryGate)
        → Carries message work
        → from_stratum C work ≡ ok job
        → IsUsable job
        → ensure_safe job.algo scan p.gate ≡ (gate, ok tt)
        → Outcome address scan message p
            (record p { state = install_job address job p.state; gate = gate })
            (ok tt)
    failed :
        (gate : RandomxMemoryGate) (e : SessionError)
        → Fault scan message p gate e
        → Outcome address scan message p (record p { gate = gate }) (err e)

  push_iff : (message : Value) → (is_job_push C message ≡ true) ↔ Pushes message
  unfolding is_job_push
  push_iff message = equals_iff (field? message (codes "method")) as_str (codes "job")

  no_error_iff : (message : Value) → (no_error C message ≡ true) ↔ Good message
  unfolding no_error
  no_error_iff message = passes_iff (field? message (codes "error")) is_null

  pass_gate-Outcome :
      (address : ℕ) (scan : Option (ℕ × ℕ)) (message work : Value) (job : Job) (p : Pool)
      (r : RandomxMemoryGate × Result MemoryError (Unit {0}))
      → Carries message work
      → from_stratum C work ≡ ok job
      → ensure_safe job.algo scan p.gate ≡ r
      → Outcome address scan message p
          (pass_gate C address job p r).0
          (pass_gate C address job p r).1
  unfolding pass_gate
  pass_gate-Outcome address scan message work job p (gate, err e) carries parsed gated =
      failed gate (SessionError.out_of_memory e) (unsafe work job gate e carries parsed gated)
  pass_gate-Outcome address scan message work job p (gate, ok done) carries parsed gated =
      installed work job gate carries parsed (from_stratum-IsUsable C work job parsed) gated

  install_parsed-Outcome :
      (address : ℕ) (scan : Option (ℕ × ℕ)) (message work : Value) (p : Pool)
      (r : Result JobError Job)
      → Carries message work
      → from_stratum C work ≡ r
      → Outcome address scan message p
          (install_parsed C address scan p r).0
          (install_parsed C address scan p r).1
  unfolding install_parsed
  install_parsed-Outcome address scan message work p (err e) carries parsed =
      failed p.gate (SessionError.bad_job e) (unusable work e carries parsed)
  install_parsed-Outcome address scan message work p (ok job) carries parsed =
      pass_gate-Outcome address scan message work job p (ensure_safe job.algo scan p.gate) carries
        parsed refl

  offered-Outcome :
      (address : ℕ) (scan : Option (ℕ × ℕ)) (message : Value) (missing : SessionError) (p : Pool)
      (v : Option Value)
      → ((work : Value) → v ≡ some work → Carries message work)
      → (v ≡ none → Fault scan message p p.gate missing)
      → Outcome address scan message p
          (offered C address scan missing p v).0
          (offered C address scan missing p v).1
  unfolding offered install_job_value
  offered-Outcome address scan message missing p none carries fault =
      failed p.gate missing (fault refl)
  offered-Outcome address scan message missing p (some v) carries fault =
      install_parsed-Outcome address scan message v p (from_stratum C v) (carries v refl) refl

  login-Outcome :
      (address : ℕ) (scan : Option (ℕ × ℕ)) (message : Value) (p : Pool)
      → RepliesTo message login_id
      → Good message
      → let found = field? message (codes "result") >>= (λ r. field? r (codes "job")) in
        Outcome address scan message p
          (offered C address scan SessionError.no_job p found).0
          (offered C address scan SessionError.no_job p found).1
  login-Outcome address scan message p login good =
      offered-Outcome address scan message SessionError.no_job p _
        (λ work e. inr (
          login,
          good,
          >>=-eq-some (field? message (codes "result")) (λ r. field? r (codes "job")) e,
        ))
        (without_job login good)

  count_share-good :
      (s : State)
      → count_share true s ≡ record s {
        accepted = fetch_add s.accepted 1;
        events = told s (fetch_add s.accepted 1) s.rejected;
      }
  unfolding count_share emit
  count_share-good s = elim (Bool-cases s.json_events) [
    | inl on ↦ rw on refl
    | inr off ↦ rw off refl
  ]

  count_share-bad :
      (s : State)
      → count_share false s ≡ record s {
        rejected = fetch_add s.rejected 1;
        events = told s s.accepted (fetch_add s.rejected 1);
      }
  unfolding count_share emit
  count_share-bad s = elim (Bool-cases s.json_events) [
    | inl on ↦ rw on refl
    | inr off ↦ rw off refl
  ]

  count_share-Counted :
      (s : State) (message : Value) → Counted s message (count_share (no_error C message) s)
  count_share-Counted s message = elim (Bool-cases (no_error C message)) [
    | inl good ↦ inl ((no_error_iff message).0 good, rw good (count_share-good s))
    | inr bad ↦ inr (λ good. cc ((no_error_iff message).1 good, bad), rw bad (count_share-bad s))
  ]

  named_id :
      (message : Value) (id : ℕ)
      → RepliesTo message id
      → (field? message (codes "id") >>= as_u64) ≡ some id
  named_id message id (quiet, (v, there, e)) = ap (λ o. o >>= as_u64) there ∙ e

  reply-Outcome :
      (address : ℕ) (scan : Option (ℕ × ℕ)) (message : Value) (p : Pool) (id : Option ℕ)
      → (Pushes message → ⊥)
      → (field? message (codes "id") >>= as_u64) ≡ id
      → Outcome address scan message p
          (reply C address scan message p id).0
          (reply C address scan message p id).1
  unfolding reply finish_share
  reply-Outcome address scan message p none quiet named =
      ignored quiet (λ id r. cc (named_id message id r, named))
  reply-Outcome address scan message p (some id) quiet named =
      let answers : RepliesTo message id =
        (quiet, >>=-eq-some (field? message (codes "id")) as_u64 named) in
      elim (Bool-cases (id == login_id)) [
        | inl login ↦
            let logs_in : RepliesTo message login_id =
              subst (RepliesTo message) ((==_iff id login_id).0 login) answers in
            elim (Bool-cases (no_error C message)) [
              | inl good ↦
                  rw (login, good)
                    (login-Outcome address scan message p logs_in ((no_error_iff message).0 good))
              | inr bad ↦
                  rw (login, bad)
                    (failed p.gate SessionError.login_rejected
                      (rejected_login logs_in (λ good. cc ((no_error_iff message).1 good, bad))))
            ]
        | inr other ↦ elim (Bool-cases (leb first_submit_id id)) [
          | inl share ↦
              rw (other, share)
                (counted id _ answers (ground (arith, ==_iff id login_id))
                  (leb→le first_submit_id id share) (count_share-Counted p.state message))
          | inr unknown ↦
              rw (other, unknown)
                (ignored quiet (λ k r.
                  subst (λ n. (n ≢ login_id) × (n < first_submit_id))
                    (some_inj (sym named ∙ named_id message k r))
                    (ground (arith, ==_iff id login_id), ground arith)))
        ]
      ]

  -- Whatever message a pool sends, what it does follows from the message: a push, and a reply to the
  -- login without an error, offers work, which is installed exactly when it parses as a job, which is
  -- then usable, and the memory gate lets that job pass; a reply to a share raises the accepted shares
  -- if it reports no error, and else the rejected shares, by one, and releases one outstanding share;
  -- a message that is neither is ignored. Otherwise it ends the session, for a missing part, a
  -- rejected login, work that does not parse or a gate that refuses it, and then it changes neither
  -- the shared state nor the outstanding shares.
  pub handle_message-Outcome :
      (address : ℕ) (scan : Option (ℕ × ℕ)) (message : Value) (p : Pool)
      → Outcome address scan message p
          (handle_message C address scan message p).0
          (handle_message C address scan message p).1
  unfolding handle_message
  handle_message-Outcome address scan message p = elim (Bool-cases (is_job_push C message)) [
    | inl push ↦
        let pushes = (push_iff message).0 push in
        rw push (
          offered-Outcome address scan message SessionError.no_params p
            (field? message (codes "params")) (λ work e. inl (pushes, e)) (no_parameters pushes))
    | inr other ↦
        rw other
          (reply-Outcome address scan message p _ (λ q. cc ((push_iff message).1 q, other)) refl)
  ]
