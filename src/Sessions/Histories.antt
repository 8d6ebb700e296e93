-- ===== src/Sessions/Histories.antt =====
-- src/suiteharness/sessions/memory.py: histories of the calls that write a session: `create`,
-- `append`, `save_checkpoint` and `set_status`, in any order and for any sessions.
use suite_harness.Base.{
  ℕ, ◌+◌, ◌≤◌, ◌≡◌, ◌≢◌, refl, inl, inr, none, some, List, [], ◌∷◌, arith, string_eq, nat_eq,
  pair_eq, Option-cases, same_cases, same_self, same_ne, subst, Result, Result-cases, ok, err,
}
use suite_harness.Base.Dict
use suite_harness.Base.Dict.{get-put_self, get-put_ne, get-put}
use suite_harness.Sessions.Model.{
  SessionIdentity, session_eq, SessionError, SessionStoreLimits, SessionRecord, SessionStatus,
  SessionCheckpoint, Store, empty_store, stop_iteration,
}
use suite_harness.Sessions.Claims.{create, new_record, require_session}
use suite_harness.Sessions.Transcript.{Encoding, AppendArgs, append, events_of}
use suite_harness.Sessions.Transcript.Append.{require_session-found}
use suite_harness.Sessions.Transcript.Invariant.{
  Rising-mono, IsTranscript, IsConsistent, events_of-put, append-IsConsistent,
}
use suite_harness.Sessions.Transcript.Errors.{append-ne-stop_iteration}
use suite_harness.Sessions.Checkpoints.{
  CheckpointArgs, save_checkpoint, write_checkpoint, set_status,
}
use suite_harness.Sessions.Checkpoints.Save.{save_cases, save_repeats}

-- One session's record was rewritten, with no lower revision and the same watermarks.
record Rewritten (i : SessionIdentity) (s s' : Store) : Type 0 where
  old : SessionRecord
  new : SessionRecord
  found : Dict.get i s.sessions ≡ some old
  sessions : s'.sessions ≡ Dict.put i new s.sessions
  events : s'.events ≡ s.events
  revision : old.revision ≤ new.revision
  versions : new.memory_source_versions ≡ old.memory_source_versions
  invalidated : new.memory_invalidated_revision ≡ old.memory_invalidated_revision

same_events :
    (j : SessionIdentity) (s s' : Store) → s'.events ≡ s.events → events_of j s' ≡ events_of j s
unfolding events_of
same_events j s s' h = rw h

Rewritten-IsTranscript :
    (i : SessionIdentity) (s s' : Store)
    → (w : Rewritten i s s') → IsConsistent s
    → IsTranscript (events_of i s') w.new
Rewritten-IsTranscript i s s' w c =
    let t = c.at i w.old w.found in
    rw (same_events i s s' w.events) (record {
      numbered = t.numbered;
      rising = Rising-mono 0 (events_of i s) w.old.revision w.new.revision t.rising w.revision;
      stamped = rw (w.versions, w.invalidated) t.stamped;
    })

Rewritten-IsConsistent :
    (i : SessionIdentity) (s s' : Store) → Rewritten i s s' → IsConsistent s → IsConsistent s'
Rewritten-IsConsistent i s s' w c = record {
  at = λ j q p. elim (same_cases i j) [
    | inl here ↦
        let is_new : q ≡ w.new =
          ground (arith, p, w.sessions, here, get-put_self i w.new s.sessions) in
        subst (λ k. IsTranscript (events_of k s') q) here
          (rw is_new (Rewritten-IsTranscript i s s' w c))
    | inr other ↦
        rw (same_events j s s' w.events)
          (c.at j q (ground (arith, p, w.sessions, get-put_ne i j w.new s.sessions other)))
  ];
}

set_status-IsConsistent :
    (now : ℕ) (i : SessionIdentity) (status : SessionStatus) (n : ℕ) (s s' : Store)
    (q : SessionRecord)
    → set_status now i status n s ≡ ok (s', q)
    → IsConsistent s
    → IsConsistent s'
set_status-IsConsistent now i status n s s' q h c = elim (Result-cases (require_session i s)) [
  | inr (x, bad) ↦ absurd (unfold set_status in ground (arith, bad))
  | inl (r, found) ↦
      let new : SessionRecord = record r {
        status = status;
        revision = r.revision + 1;
        updated_at = now;
      } in
      let is_put : s' ≡ record s { sessions = Dict.put i new s.sessions } =
        unfold set_status in ground (arith, found) in
      Rewritten-IsConsistent i s s'
        (record {
          old = r;
          new = new;
          found = require_session-found i s r found;
          sessions = rw is_put;
          events = rw is_put;
          revision = omega arith;
          versions = refl;
          invalidated = refl;
        })
        c
]

created-IsConsistent :
    (now : ℕ) (i : SessionIdentity) (s s' : Store)
    → s'.sessions ≡ Dict.put i (new_record now i) s.sessions
    → s'.events ≡ Dict.put i [] s.events
    → IsConsistent s
    → IsConsistent s'
created-IsConsistent now i s s' p e c = record {
  at = λ j q h. elim (same_cases i j) [
    | inl here ↦
        let is_new : q ≡ new_record now i =
          ground (arith, h, p, here, get-put_self i (new_record now i) s.sessions) in
        let is_nil : events_of i s' ≡ [] = rw (events_of-put i i [] s s' e, same_self i) in
        subst (λ k. IsTranscript (events_of k s') q) here
          (rw (is_new, is_nil) (record { numbered = tt; rising = omega arith; stamped = inl refl }))
    | inr other ↦
        rw (events_of-put i j [] s s' e, same_ne i j other)
          (c.at j q (ground (arith, h, p, get-put_ne i j (new_record now i) s.sessions other)))
  ];
}

create-IsConsistent :
    (now : ℕ) (i : SessionIdentity) (s s' : Store) (q : SessionRecord)
    → create now i s ≡ ok (s', q)
    → IsConsistent s
    → IsConsistent s'
create-IsConsistent now i s s' q h c = elim (Option-cases (Dict.get i s.sessions)) [
  | inr (r, found) ↦ let same : s' ≡ s = unfold create in ground (arith, found) in rw same c
  | inl absent ↦
      created-IsConsistent now i s s' (unfold create in ground (arith, absent))
        (unfold create in ground (arith, absent)) c
]

pub data Call : Type 0 where
  creates : ℕ → SessionIdentity → Call
  appends : ℕ → SessionIdentity → AppendArgs → Call
  saves : ℕ → SessionIdentity → CheckpointArgs → Call
  sets : ℕ → SessionIdentity → SessionStatus → ℕ → Call

-- The store after a call: a call that raises leaves it as it was.
abbrev after : {A : Type 0} → Store → Result SessionError (Store × A) → Store
after s (ok (s', x)) = s'
after s (err e) = s

after-IsConsistent :
    {A : Type 0} (s : Store) (r : Result SessionError (Store × A))
    → ((s' : Store) (x : A) → r ≡ ok (s', x) → IsConsistent s')
    → IsConsistent s
    → IsConsistent (after s r)
after-IsConsistent s (ok (s', x)) h c = h s' x refl
after-IsConsistent s (err e) h c = c

module _ (enc : Encoding) where
  save_checkpoint-IsConsistent :
      (now : ℕ) (i : SessionIdentity) (args : CheckpointArgs) (s s' : Store) (c : SessionCheckpoint)
      → save_checkpoint enc now i args s ≡ ok (s', c)
      → IsConsistent s
      → IsConsistent s'
  save_checkpoint-IsConsistent now i args s s' c h k =
      elim (Option-cases (Dict.get (i, args.idempotency_key) s.checkpoint_idempotency)) [
        | inr (x, held) ↦ rw (save_repeats enc now i args s s' c x held h) k
        | inl free ↦
            let w = save_cases enc now i args s s' c none free h refl in
            Rewritten-IsConsistent i s s'
              (record {
                old = w.old;
                new = record w.old { revision = c.revision; updated_at = now };
                found = w.found;
                sessions = unfold write_checkpoint in ground (arith, w.store);
                events = unfold write_checkpoint in rw w.store;
                revision = ground (arith, w.checkpoint);
                versions = refl;
                invalidated = refl;
              })
              k
      ]

  unfoldable pub step : Call → Store → Store
  step (creates now i) s = after s (create now i s)
  step (appends now i args) s = after s (append enc now i args s)
  step (saves now i args) s = after s (save_checkpoint enc now i args s)
  step (sets now i status n) s = after s (set_status now i status n s)

  unfoldable pub run : List Call → Store → Store
  run [] s = s
  run (call ∷ calls) s = run calls (step call s)

  step-IsConsistent : (call : Call) (s : Store) → IsConsistent s → IsConsistent (step call s)
  unfolding step
  step-IsConsistent (creates now i) s c =
      after-IsConsistent s (create now i s) (λ s' q h. create-IsConsistent now i s s' q h c) c
  step-IsConsistent (appends now i args) s c =
      after-IsConsistent s (append enc now i args s)
        (λ s' e h. append-IsConsistent enc now i args s s' e h c) c
  step-IsConsistent (saves now i args) s c =
      after-IsConsistent s (save_checkpoint enc now i args s)
        (λ s' x h. save_checkpoint-IsConsistent now i args s s' x h c) c
  step-IsConsistent (sets now i status n) s c =
      after-IsConsistent s (set_status now i status n s)
        (λ s' q h. set_status-IsConsistent now i status n s s' q h c) c

  run-IsConsistent : (calls : List Call) (s : Store) → IsConsistent s → IsConsistent (run calls s)
  unfolding run
  run-IsConsistent [] s c = c
  run-IsConsistent (call ∷ calls) s c =
      run-IsConsistent calls (step call s) (step-IsConsistent call s c)

  -- Whatever sessions are created, appended to, checkpointed and given a status on a new store, in
  -- any order: every transcript is numbered from 1 without gaps, its revisions rise up to the
  -- record's, a record with watermarks points at one of its events, and no further `append` fails
  -- to find the event of the last invalidation.
  pub histories-IsConsistent :
      (l : SessionStoreLimits) (calls : List Call) (now : ℕ) (i : SessionIdentity)
      (args : AppendArgs)
      → let s = run calls (empty_store l) in
        IsConsistent s × (append enc now i args s ≢ err stop_iteration)
  unfolding Dict.get
  histories-IsConsistent l calls now i args =
      let c =
        run-IsConsistent calls (empty_store l) (record { at = λ j q h. absurd (ground arith) }) in
      (c, append-ne-stop_iteration enc now i args (run calls (empty_store l)) c)
