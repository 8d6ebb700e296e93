-- ===== src/Sessions/Transcript/Append.antt =====
-- The cases of a successful `append`, and what it wrote.
use suite_harness.Base.{
  ℕ, ◌<◌, String, ◌≡◌, refl, ◌⊎◌, inl, inr, false, Option, none, some, [], ◌∷◌, ◌++◌, arith,
  string_eq, nat_eq, pair_eq, length, Option-cases, Bool-cases, Result-cases, ok,
}
use suite_harness.Base.Dict
use suite_harness.Sessions.Model.{
  SessionIdentity, session_eq, SessionRecord, TranscriptEvent, Store,
}
use suite_harness.Sessions.Claims.{require_session}
use suite_harness.Sessions.Payloads.{finished_resume_run_id}
use suite_harness.Sessions.Transcript.{
  Encoding, AppendArgs, events_of, total_events, source_of, is_outdated, check_revision, new_event,
  updated_record, write_event, drop_resume_points, append_new, append_source, prior_event,
  append_found, append,
}

-- The expected revision is the record's, or none was given.
abbrev pub RevisionFits : Option ℕ → SessionRecord → Type 0
RevisionFits none r = Unit
RevisionFits (some n) r = n ≡ r.revision

check_revision-fits :
    (r : SessionRecord) (expected : Option ℕ)
    → check_revision r expected ≡ ok tt
    → RevisionFits expected r
unfolding check_revision
check_revision-fits r none h = tt
check_revision-fits r (some n) h = ground arith

pub require_session-found :
    (i : SessionIdentity) (s : Store) (r : SessionRecord)
    → require_session i s ≡ ok r
    → Dict.get i s.sessions ≡ some r
unfolding require_session
require_session-found i s r h = ground arith

pub found-require_session :
    (i : SessionIdentity) (s : Store) (r : SessionRecord)
    → Dict.get i s.sessions ≡ some r
    → require_session i s ≡ ok r
unfolding require_session
found-require_session i s r h = ground (arith, h)

module _ (enc : Encoding) where
  -- `append` wrote one event: what it checked, and the store and the event that it returned.
  pub record Wrote (now : ℕ) (i : SessionIdentity) (args : AppendArgs) (s s' : Store)
      (e : TranscriptEvent) : Type 0 where
    pub source : Option (String × ℕ)
    pub stored : SessionRecord
    pub source_read : source_of args.event_type args.payload ≡ ok source
    pub found : Dict.get i s.sessions ≡ some stored
    pub current : is_outdated source stored ≡ false
    pub new_key : prior_event enc i args s ≡ none
    pub new_id : Dict.get (i, args.event_id) s.event_ids ≡ none
    pub fits : RevisionFits args.expected_revision stored
    pub room : length (events_of i s) < s.limits.max_transcript_events_per_session
    pub total_room : total_events s < s.limits.max_transcript_events_total
    pub event : e ≡ new_event i args stored (length (events_of i s))
    pub store : s' ≡ drop_resume_points enc now i args (write_event enc i args source stored e s)

  -- The later checks of `append_new`, taken apart.
  pub record Fresh (now : ℕ) (i : SessionIdentity) (args : AppendArgs)
      (source : Option (String × ℕ)) (r : SessionRecord) (s s' : Store) (e : TranscriptEvent)
      : Type 0 where
    pub new_id : Dict.get (i, args.event_id) s.event_ids ≡ none
    pub fits : RevisionFits args.expected_revision r
    pub room : length (events_of i s) < s.limits.max_transcript_events_per_session
    pub total_room : total_events s < s.limits.max_transcript_events_total
    pub event : e ≡ new_event i args r (length (events_of i s))
    pub store : s' ≡ drop_resume_points enc now i args (write_event enc i args source r e s)

  pub append_new-Fresh :
      (now : ℕ) (i : SessionIdentity) (args : AppendArgs) (source : Option (String × ℕ))
      (r : SessionRecord) (s s' : Store) (e : TranscriptEvent)
      → append_new enc now i args source r s ≡ ok (s', e)
      → Fresh now i args source r s s' e
  unfolding append_new
  append_new-Fresh now i args source r s s' e h = record {
    new_id = ground arith;
    fits = check_revision-fits r args.expected_revision (ground arith);
    room = ground arith;
    total_room = ground arith;
    event = ground arith;
    store = ground arith;
  }

  append_source_cases :
      (now : ℕ) (i : SessionIdentity) (args : AppendArgs) (source : Option (String × ℕ))
      (r : SessionRecord) (s s' : Store) (e : TranscriptEvent)
      → append_source enc now i args source r s ≡ ok (s', e)
      → (s' ≡ s) ⊎ ((is_outdated source r ≡ false) × Fresh now i args source r s s' e)
  unfolding append_source
  append_source_cases now i args source r s s' e h = elim (Bool-cases (is_outdated source r)) [
    | inl old ↦ inl (ground (arith, old))
    | inr new ↦ inr (new, append_new-Fresh now i args source r s s' e (ground (arith, new)))
  ]

  append_found_cases :
      (now : ℕ) (i : SessionIdentity) (args : AppendArgs) (source : Option (String × ℕ))
      (r : SessionRecord) (s s' : Store) (e : TranscriptEvent)
      (prior : Option (String × TranscriptEvent))
      → append_found enc now i args source r s prior ≡ ok (s', e)
      → (s' ≡ s)
        ⊎ ((prior ≡ none) × (is_outdated source r ≡ false) × Fresh now i args source r s s' e)
  unfolding append_found
  append_found_cases now i args source r s s' e (some (digest, event)) h = inl (ground arith)
  append_found_cases now i args source r s s' e none h =
      elim (append_source_cases now i args source r s s' e h) [
        | inl same ↦ inl same
        | inr (new, f) ↦ inr (refl, new, f)
      ]

  -- A successful `append` changed nothing, or it wrote one event.
  pub append_cases :
      (now : ℕ) (i : SessionIdentity) (args : AppendArgs) (s s' : Store) (e : TranscriptEvent)
      → append enc now i args s ≡ ok (s', e)
      → (s' ≡ s) ⊎ Wrote now i args s s' e
  append_cases now i args s s' e h = elim (Result-cases (source_of args.event_type args.payload)) [
    | inr (x, bad) ↦ absurd (unfold append in ground (arith, bad))
    | inl (source, read) ↦ elim (Result-cases (require_session i s)) [
      | inr (x, bad) ↦ absurd (unfold append in ground (arith, read, bad))
      | inl (r, found) ↦
          elim (append_found_cases now i args source r s s' e (prior_event enc i args s)
            (unfold append in ground (arith, read, found))) [
              | inl same ↦ inl same
              | inr (key, new, f) ↦ inr (record {
                source = source;
                stored = r;
                source_read = read;
                found = require_session-found i s r found;
                current = new;
                new_key = key;
                new_id = f.new_id;
                fits = f.fits;
                room = f.room;
                total_room = f.total_room;
                event = f.event;
                store = f.store;
              })
            ]
    ]
  ]

  -- The resume points apart, dropping them leaves the store as it was.
  pub record SameButResumePoints (s s' : Store) : Type 0 where
    pub sessions : s'.sessions ≡ s.sessions
    pub events : s'.events ≡ s.events
    pub checkpoints : s'.checkpoints ≡ s.checkpoints
    pub event_ids : s'.event_ids ≡ s.event_ids
    pub event_idempotency : s'.event_idempotency ≡ s.event_idempotency
    pub run_claims : s'.run_claims ≡ s.run_claims
    pub run_stops : s'.run_stops ≡ s.run_stops
    pub limits : s'.limits ≡ s.limits

  pub drop_resume_points_frame :
      (now : ℕ) (i : SessionIdentity) (args : AppendArgs) (s : Store)
      → SameButResumePoints s (drop_resume_points enc now i args s)
  unfolding drop_resume_points
  drop_resume_points_frame now i args s =
      elim (Option-cases (finished_resume_run_id args.event_type args.payload)) [
        | inl e ↦ ground (arith, e)
        | inr (r, e) ↦ ground (arith, e)
      ]

  -- The sessions and the events after an `append` that wrote `e`.
  pub record Extended (i : SessionIdentity) (args : AppendArgs) (s s' : Store) (e : TranscriptEvent)
      : Type 0 where
    pub old : SessionRecord
    pub source : Option (String × ℕ)
    pub source_read : source_of args.event_type args.payload ≡ ok source
    pub found : Dict.get i s.sessions ≡ some old
    pub fits : RevisionFits args.expected_revision old
    pub event : e ≡ new_event i args old (length (events_of i s))
    pub events : s'.events ≡ Dict.put i (events_of i s ++ e ∷ []) s.events
    pub sessions : s'.sessions ≡ Dict.put i (updated_record args source e old) s.sessions
    pub run_claims : s'.run_claims ≡ s.run_claims
    pub checkpoints : s'.checkpoints ≡ s.checkpoints

  pub Wrote-Extended :
      (now : ℕ) (i : SessionIdentity) (args : AppendArgs) (s s' : Store) (e : TranscriptEvent)
      → Wrote now i args s s' e
      → Extended i args s s' e
  unfolding write_event
  Wrote-Extended now i args s s' e w =
      let f = drop_resume_points_frame now i args (write_event enc i args w.source w.stored e s) in
      record {
        old = w.stored;
        source = w.source;
        source_read = w.source_read;
        found = w.found;
        fits = w.fits;
        event = w.event;
        events = rw w.store f.events;
        sessions = rw w.store f.sessions;
        run_claims = rw w.store f.run_claims;
        checkpoints = rw w.store f.checkpoints;
      }
