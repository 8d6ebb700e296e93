-- ===== src/Sessions/Transcript/Effect.antt =====
-- What an `append` changes, of its own session and of the others.
use suite_harness.Base.{
  ℕ, ◌+◌, ◌≤◌, ◌≡◌, ◌≢◌, ap, ◌⊎◌, inl, inr, some, List, [], ◌∷◌, ◌++◌, arith, string_eq, nat_eq,
  pair_eq, length, length-append, same_self, same_ne, ok,
}
use suite_harness.Base.Dict
use suite_harness.Base.Dict.{get-put_self, get-put_ne}
use suite_harness.Sessions.Model.{
  SessionIdentity, session_eq, SessionRecord, TranscriptEvent, Store,
}
use suite_harness.Sessions.Transcript.{
  Encoding, AppendArgs, events_of, new_event, updated_record, append,
}
use suite_harness.Sessions.Transcript.Append.{RevisionFits, Wrote, Wrote-Extended}
use suite_harness.Sessions.Transcript.Repeats.{Repeats, append-Repeats}
use suite_harness.Sessions.Transcript.Invariant.{events_of-put}

module _ (enc : Encoding) where
  -- One event more for one session, and nothing else that a session or a run can see.
  pub record OneMore (i : SessionIdentity) (args : AppendArgs) (s s' : Store) (e : TranscriptEvent)
      : Type 0 where
    pub old : SessionRecord
    pub new : SessionRecord
    pub had : Dict.get i s.sessions ≡ some old
    pub has : Dict.get i s'.sessions ≡ some new
    pub fits : RevisionFits args.expected_revision old
    pub next : new.revision ≡ old.revision + 1
    pub event_revision : e.revision ≡ old.revision + 1
    pub sequence : e.sequence ≡ length (events_of i s) + 1
    pub events : events_of i s' ≡ events_of i s ++ e ∷ []
    pub within : length (events_of i s') ≤ s.limits.max_transcript_events_per_session
    pub others :
        (j : SessionIdentity)
        → i ≢ j
        → (Dict.get j s'.sessions ≡ Dict.get j s.sessions) × (events_of j s' ≡ events_of j s)
    pub run_claims : s'.run_claims ≡ s.run_claims
    pub checkpoints : s'.checkpoints ≡ s.checkpoints

  Wrote-OneMore :
      (now : ℕ) (i : SessionIdentity) (args : AppendArgs) (s s' : Store) (e : TranscriptEvent)
      → Wrote enc now i args s s' e
      → OneMore i args s s' e
  Wrote-OneMore now i args s s' e w =
      let x = Wrote-Extended enc now i args s s' e w in
      let es : List TranscriptEvent = events_of i s ++ e ∷ [] in
      let r : SessionRecord = updated_record args x.source e x.old in
      let is_es : events_of i s' ≡ es = rw (events_of-put i i es s s' x.events, same_self i) in
      record {
        old = x.old;
        new = r;
        had = x.found;
        has = rw x.sessions (get-put_self i r s.sessions);
        fits = x.fits;
        next = unfold updated_record new_event in ground (arith, x.event);
        event_revision = unfold new_event in ground (arith, x.event);
        sequence = unfold new_event in ground (arith, x.event);
        events = is_es;
        within = omega (arith, ap length is_es, length-append (events_of i s) (e ∷ []), w.room);
        others = λ j ne. (
          rw x.sessions (get-put_ne i j r s.sessions ne),
          rw (events_of-put i j es s s' x.events, same_ne i j ne),
        );
        run_claims = x.run_claims;
        checkpoints = x.checkpoints;
      }

  -- A successful `append` leaves the store as it was and returns an event that is stored: the one that
  -- the idempotency key got with the same content, or that of the last invalidation where the source's
  -- version is not above its watermark. Or it adds one event at the end of the session's transcript, with the next sequence number and the next
  -- revision, only at the expected revision and within the session's event limit, and leaves the
  -- records and transcripts of all other sessions, the claims and the checkpoints as they were.
  pub append_effect :
      (now : ℕ) (i : SessionIdentity) (args : AppendArgs) (s s' : Store) (e : TranscriptEvent)
      → append enc now i args s ≡ ok (s', e)
      → ((s' ≡ s) × Repeats enc i args s e) ⊎ OneMore i args s s' e
  append_effect now i args s s' e h = elim (append-Repeats enc now i args s s' e h) [
    | inl same ↦ inl same
    | inr w ↦ inr (Wrote-OneMore now i args s s' e w)
  ]
