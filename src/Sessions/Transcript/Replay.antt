-- ===== src/Sessions/Transcript/Replay.antt =====
-- An `append` that is repeated under its idempotency key.
use suite_harness.Base.{
  ℕ, String, ◌≡◌, refl, sym, ◌∙◌, inl, inr, true, Option, none, some, arith, leb, string_eq, nat_eq,
  pair_eq, Option-cases, Bool-cases, Result-cases, ok,
}
use suite_harness.Base.Dict
use suite_harness.Base.Dict.{get-put_self}
use suite_harness.Sessions.Model.{
  SessionIdentity, session_eq, SessionRecord, TranscriptEvent, Store,
}
use suite_harness.Sessions.Claims.{require_session}
use suite_harness.Sessions.Payloads.{is_canonical}
use suite_harness.Sessions.Transcript.{
  Encoding, AppendArgs, events_of, source_of, is_outdated, event_at_revision, updated_record,
  write_event, append_source, prior_event, append_found, append,
}
use suite_harness.Sessions.Transcript.Append.{
  Fresh, append_new-Fresh, require_session-found, found-require_session, drop_resume_points_frame,
}

module _ (enc : Encoding) where
  -- The checks that `append` makes before it looks for an earlier answer.
  pub record Accepted (i : SessionIdentity) (args : AppendArgs) (s : Store) : Type 0 where
    pub source : Option (String × ℕ)
    pub stored : SessionRecord
    pub source_read : source_of args.event_type args.payload ≡ ok source
    pub canonical : is_canonical args.payload ≡ true
    pub small : leb (enc.payload_bytes args.payload) s.limits.max_transcript_payload_bytes ≡ true
    pub found : Dict.get i s.sessions ≡ some stored

  pub append-Accepted :
      (now : ℕ) (i : SessionIdentity) (args : AppendArgs) (s s' : Store) (e : TranscriptEvent)
      → append enc now i args s ≡ ok (s', e)
      → Accepted i args s
  append-Accepted now i args s s' e h =
      elim (Result-cases (source_of args.event_type args.payload)) [
        | inr (x, bad) ↦ absurd (unfold append in ground (arith, bad))
        | inl (source, read) ↦ elim (Result-cases (require_session i s)) [
          | inr (x, bad) ↦ absurd (unfold append in ground (arith, read, bad))
          | inl (r, found) ↦ record {
            source = source;
            stored = r;
            source_read = read;
            canonical = unfold append in ground (arith, read, found);
            small = unfold append in ground (arith, read, found);
            found = require_session-found i s r found;
          }
        ]
      ]

  pub Accepted-append :
      (now : ℕ) (i : SessionIdentity) (args : AppendArgs) (s : Store) (a : Accepted i args s)
      → append enc now i args s
        ≡ append_found enc now i args a.source a.stored s (prior_event enc i args s)
  unfolding append
  Accepted-append now i args s a =
      rw (a.source_read, a.canonical, a.small, found-require_session i s a.stored a.found)

  -- The content of `args`, under the same key.
  pub record SameRequest (args args' : AppendArgs) : Type 0 where
    pub event_type : args'.event_type ≡ args.event_type
    pub payload : args'.payload ≡ args.payload
    pub key : args'.idempotency_key ≡ args.idempotency_key

  SameRequest-Accepted :
      (i : SessionIdentity) (args args' : AppendArgs) (s : Store)
      → SameRequest args args'
      → Accepted i args s
      → Accepted i args' s
  SameRequest-Accepted i args args' s q a = record {
    source = a.source;
    stored = a.stored;
    source_read = rw (q.event_type, q.payload) a.source_read;
    canonical = rw q.payload a.canonical;
    small = rw q.payload a.small;
    found = a.found;
  }

  -- Where the answer was found, the same request finds it again.
  repeat_prior :
      (later : ℕ) (i : SessionIdentity) (args args' : AppendArgs) (s : Store) (e : TranscriptEvent)
      → SameRequest args args'
      → Accepted i args' s
      → prior_event enc i args' s ≡ some (enc.event_digest args.event_type args.payload, e)
      → append enc later i args' s ≡ ok (s, e)
  unfolding append_found
  repeat_prior later i args args' s e q a p =
      rw (Accepted-append later i args' s a, p)
        (ground (
          arith,
          q.event_type,
          q.payload,
          string_eq.same_iff (enc.event_digest args.event_type args.payload)
              (enc.event_digest args'.event_type args'.payload),
        ))

  SameRequest-prior :
      (i : SessionIdentity) (args args' : AppendArgs) (s : Store)
      → SameRequest args args'
      → prior_event enc i args' s ≡ prior_event enc i args s
  unfolding prior_event
  SameRequest-prior i args args' s q = ground (arith, q.key)

  -- An answer that the source's watermark gave is given again.
  repeat_outdated :
      (now later : ℕ) (i : SessionIdentity) (args args' : AppendArgs) (s s' : Store)
      (e : TranscriptEvent) (a : Accepted i args s)
      → SameRequest args args'
      → prior_event enc i args s ≡ none
      → is_outdated a.source a.stored ≡ true
      → append_source enc now i args a.source a.stored s ≡ ok (s', e)
      → append enc later i args' s' ≡ ok (s', e)
  unfolding append_source append_found
  repeat_outdated now later i args args' s s' e a q p old h =
      elim (Option-cases (event_at_revision a.stored.memory_invalidated_revision (events_of i s))) [
        | inl absent ↦ absurd (ground (arith, old, absent))
        | inr (x, there) ↦
            let same : s' ≡ s = ground (arith, old, there) in
            let is_x : e ≡ x = ground (arith, old, there) in
            rw
              (
                same,
                is_x,
                Accepted-append later i args' s (SameRequest-Accepted i args args' s q a),
                SameRequest-prior i args args' s q,
                p,
              )
              (ground (arith, old, there))
      ]

  -- The written event is remembered under its key.
  written_prior :
      (now : ℕ) (i : SessionIdentity) (args : AppendArgs) (source : Option (String × ℕ))
      (r : SessionRecord) (s s' : Store) (e : TranscriptEvent) (k : String)
      → Fresh enc now i args source r s s' e
      → args.idempotency_key ≡ some k
      → prior_event enc i args s' ≡ some (enc.event_digest args.event_type args.payload, e)
  unfolding prior_event write_event
  written_prior now i args source r s s' e k f key =
      let w = drop_resume_points_frame enc now i args (write_event enc i args source r e s) in
      ground (
        arith,
        key,
        f.store,
        w.event_idempotency,
        get-put_self (i, k) (enc.event_digest args.event_type args.payload, e) s.event_idempotency,
      )

  written_Accepted :
      (now : ℕ) (i : SessionIdentity) (args : AppendArgs) (s s' : Store) (e : TranscriptEvent)
      (a : Accepted i args s)
      → Fresh enc now i args a.source a.stored s s' e
      → Accepted i args s'
  unfolding write_event
  written_Accepted now i args s s' e a f =
      let w =
        drop_resume_points_frame enc now i args (write_event enc i args a.source a.stored e s) in
      record {
        source = a.source;
        stored = updated_record args a.source e a.stored;
        source_read = a.source_read;
        canonical = a.canonical;
        small = ground (arith, f.store, w.limits, a.small);
        found = ground (
          arith,
          f.store,
          w.sessions,
          get-put_self i (updated_record args a.source e a.stored) s.sessions,
        );
      }

  replay_found :
      (now later : ℕ) (i : SessionIdentity) (args args' : AppendArgs) (s s' : Store)
      (e : TranscriptEvent) (k : String) (a : Accepted i args s)
      (o : Option (String × TranscriptEvent))
      → prior_event enc i args s ≡ o
      → append_found enc now i args a.source a.stored s o ≡ ok (s', e)
      → SameRequest args args'
      → args.idempotency_key ≡ some k
      → append enc later i args' s' ≡ ok (s', e)
  unfolding append_found
  replay_found now later i args args' s s' e k a (some (d, x)) p h q key =
      let same : s' ≡ s = ground arith in
      let is_x : some (d, x) ≡ some (enc.event_digest args.event_type args.payload, e) =
        ground (arith, string_eq.same_iff d (enc.event_digest args.event_type args.payload)) in
      rw same (
        repeat_prior later i args args' s e q (SameRequest-Accepted i args args' s q a)
          (SameRequest-prior i args args' s q ∙ p ∙ is_x))
  replay_found now later i args args' s s' e k a none p h q key =
      elim (Bool-cases (is_outdated a.source a.stored)) [
        | inl old ↦ repeat_outdated now later i args args' s s' e a q p old h
        | inr new ↦
            let f =
              append_new-Fresh enc now i args a.source a.stored s s' e
                (unfold append_source in ground (arith, new)) in
            repeat_prior later i args args' s' e q
              (SameRequest-Accepted i args args' s' q (written_Accepted now i args s s' e a f))
              (SameRequest-prior i args args' s' q
                ∙ written_prior now i args a.source a.stored s s' e k f key)
      ]

  -- After a successful `append` with an idempotency key, the same content under the same key gives
  -- the same event and changes nothing, at any later time and whatever the event id, the expected
  -- revision and the time of occurrence of the repeated call.
  pub append_replay :
      (now later : ℕ) (i : SessionIdentity) (args args' : AppendArgs) (s s' : Store)
      (e : TranscriptEvent) (k : String)
      → append enc now i args s ≡ ok (s', e)
      → args.idempotency_key ≡ some k
      → SameRequest args args'
      → append enc later i args' s' ≡ ok (s', e)
  append_replay now later i args args' s s' e k h key q =
      let a = append-Accepted now i args s s' e h in
      replay_found now later i args args' s s' e k a (prior_event enc i args s) refl
        (sym (Accepted-append now i args s a) ∙ h) q key
