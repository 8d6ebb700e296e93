-- ===== src/Sessions/Transcript/Invariant.antt =====
-- The consistency of transcripts with their sessions' records: sequence numbers, revisions and the
-- event of the last invalidation.
use suite_harness.Base.{
  ℕ, suc, ◌+◌, ◌<◌, ◌≤◌, String, ◌≡◌, refl, subst, ◌⊎◌, inl, inr, true, Option, some, List, [], ◌∷◌,
  ◌++◌, arith, if◌then◌else◌, ◌==◌, string_eq, nat_eq, pair_eq, length, is_some, same_cases,
  same_self, same_ne, ok,
}
use suite_harness.Base.Dict
use suite_harness.Base.Dict.{get-put_self, get-put_ne, get-put}
use suite_harness.Sessions.Model.{
  SessionIdentity, session_eq, SessionRecord, TranscriptEvent, TranscriptEventType,
  memory_invalidated, Store,
}
use suite_harness.Sessions.Transcript.{
  Encoding, AppendArgs, events_of, event_at_revision, source_of, new_event, updated_record, append,
}
use suite_harness.Sessions.Transcript.Append.{Extended, Wrote-Extended, append_cases}

abbrev pub Numbered : ℕ → List TranscriptEvent → Type 0
Numbered n [] = Unit
Numbered n (e ∷ es) = (e.sequence ≡ n) × Numbered (suc n) es

-- The revisions rise from above `lo` and do not pass `hi`.
abbrev pub Rising : ℕ → List TranscriptEvent → ℕ → Type 0
Rising lo [] hi = lo ≤ hi
Rising lo (e ∷ es) hi = (lo < e.revision) × Rising e.revision es hi

Numbered-snoc :
    (n : ℕ) (es : List TranscriptEvent) (e : TranscriptEvent)
    → Numbered n es
    → e.sequence ≡ n + length es
    → Numbered n (es ++ e ∷ [])
Numbered-snoc n [] e h k = (omega arith, tt)
Numbered-snoc n (x ∷ es) e h k = (h.0, Numbered-snoc (suc n) es e h.1 (omega arith))

Rising-snoc :
    (lo : ℕ) (es : List TranscriptEvent) (hi : ℕ) (e : TranscriptEvent)
    → Rising lo es hi
    → e.revision ≡ hi + 1
    → Rising lo (es ++ e ∷ []) (hi + 1)
Rising-snoc lo [] hi e h k = (omega arith, omega arith)
Rising-snoc lo (x ∷ es) hi e h k = (h.0, Rising-snoc x.revision es hi e h.1 k)

pub Rising-mono :
    (lo : ℕ) (es : List TranscriptEvent) (hi k : ℕ) → Rising lo es hi → hi ≤ k → Rising lo es k
Rising-mono lo [] hi k h le = omega arith
Rising-mono lo (x ∷ es) hi k h le = (h.0, Rising-mono x.revision es hi k h.1 le)

event_at_revision-snoc :
    (n : ℕ) (es : List TranscriptEvent) (e : TranscriptEvent)
    → is_some (event_at_revision n es) ≡ true
    → is_some (event_at_revision n (es ++ e ∷ [])) ≡ true
unfolding event_at_revision
event_at_revision-snoc n [] e h = cc
event_at_revision-snoc n (x ∷ es) e h = ground (arith, event_at_revision-snoc n es e)

event_at_revision-last :
    (n : ℕ) (es : List TranscriptEvent) (e : TranscriptEvent)
    → e.revision ≡ n
    → is_some (event_at_revision n (es ++ e ∷ [])) ≡ true
unfolding event_at_revision
event_at_revision-last n [] e h = ground arith
event_at_revision-last n (x ∷ es) e h = ground (arith, event_at_revision-last n es e)

-- A record with watermarks points at an event of its transcript.
abbrev pub Stamped : List TranscriptEvent → SessionRecord → Type 0
Stamped es r =
    (r.memory_source_versions ≡ [])
    ⊎ (is_some (event_at_revision r.memory_invalidated_revision es) ≡ true)

pub record IsTranscript (es : List TranscriptEvent) (r : SessionRecord) : Type 0 where
  pub numbered : Numbered 1 es
  pub rising : Rising 0 es r.revision
  pub stamped : Stamped es r

kept-Stamped :
    (es : List TranscriptEvent) (e : TranscriptEvent) (r q : SessionRecord)
    → q.memory_source_versions ≡ r.memory_source_versions
    → q.memory_invalidated_revision ≡ r.memory_invalidated_revision
    → Stamped es r
    → Stamped (es ++ e ∷ []) q
kept-Stamped es e r q v m (inl none_) = inl (ground (arith, v, none_))
kept-Stamped es e r q v m (inr there) =
    inr (rw m (event_at_revision-snoc r.memory_invalidated_revision es e there))

updated-Stamped :
    (args : AppendArgs) (source : Option (String × ℕ)) (e : TranscriptEvent)
    (es : List TranscriptEvent) (r : SessionRecord) (t : TranscriptEventType)
    → args.event_type ≡ t
    → source_of t args.payload ≡ ok source
    → Stamped es r
    → Stamped (es ++ e ∷ []) (updated_record args source e r)
unfolding updated_record source_of
updated-Stamped args source e es r memory_invalidated p k h =
    inr (rw p (event_at_revision-last e.revision es e refl))
updated-Stamped args source e es r _ p k h =
    kept-Stamped es e r (updated_record args source e r) (ground (arith, k)) (ground (arith, p)) h

-- An event after a transcript, as `append` writes it.
append-IsTranscript :
    (i : SessionIdentity) (args : AppendArgs) (source : Option (String × ℕ))
    (es : List TranscriptEvent) (r : SessionRecord)
    → source_of args.event_type args.payload ≡ ok source
    → IsTranscript es r
    → let e = new_event i args r (length es) in
      IsTranscript (es ++ e ∷ []) (updated_record args source e r)
append-IsTranscript i args source es r k h =
    let e : TranscriptEvent = new_event i args r (length es) in
    record {
      numbered = Numbered-snoc 1 es e h.numbered (unfold new_event in omega arith);
      rising = unfold updated_record new_event in Rising-snoc 0 es r.revision e h.rising refl;
      stamped = updated-Stamped args source e es r args.event_type refl k h.stamped;
    }

pub record IsConsistent (s : Store) : Type 0 where
  pub at :
      (j : SessionIdentity) (q : SessionRecord)
      → Dict.get j s.sessions ≡ some q
      → IsTranscript (events_of j s) q

pub events_of-put :
    (i j : SessionIdentity) (es : List TranscriptEvent) (s s' : Store)
    → s'.events ≡ Dict.put i es s.events
    → events_of j s' ≡ (if i == j then es else events_of j s)
unfolding events_of
events_of-put i j es s s' h = ground (arith, h, get-put i j es s.events)

module _ (enc : Encoding) where
  Extended-IsTranscript :
      (i : SessionIdentity) (args : AppendArgs) (s s' : Store) (e : TranscriptEvent)
      → Extended enc i args s s' e
      → IsConsistent s
      → (q : SessionRecord) → Dict.get i s'.sessions ≡ some q
      → IsTranscript (events_of i s') q
  Extended-IsTranscript i args s s' e x h q p =
      let es : List TranscriptEvent = events_of i s in
      let r : SessionRecord = updated_record args x.source e x.old in
      let is_r : q ≡ r = ground (arith, p, x.sessions, get-put_self i r s.sessions) in
      let is_es : events_of i s' ≡ es ++ e ∷ [] =
        rw (events_of-put i i (es ++ e ∷ []) s s' x.events, same_self i) in
      rw (is_es, is_r, x.event)
        (append-IsTranscript i args x.source es x.old x.source_read (h.at i x.old x.found))

  Extended-IsConsistent :
      (i : SessionIdentity) (args : AppendArgs) (s s' : Store) (e : TranscriptEvent)
      → Extended enc i args s s' e
      → IsConsistent s
      → IsConsistent s'
  Extended-IsConsistent i args s s' e x h = record {
    at = λ j q p. elim (same_cases i j) [
      | inl here ↦
          subst
            (λ k.
              (q : SessionRecord)
              → Dict.get k s'.sessions ≡ some q
              → IsTranscript (events_of k s') q)
            here (Extended-IsTranscript i args s s' e x h) q p
      | inr other ↦
          rw (events_of-put i j (events_of i s ++ e ∷ []) s s' x.events, same_ne i j other)
            (h.at j q (
              ground (
                arith,
                p,
                x.sessions,
                get-put_ne i j (updated_record args x.source e x.old) s.sessions other,
              )))
    ];
  }

  -- A successful `append` keeps every transcript consistent: numbered from 1 without gaps, with
  -- rising revisions up to the record's, and with the event of the last invalidation.
  pub append-IsConsistent :
      (now : ℕ) (i : SessionIdentity) (args : AppendArgs) (s s' : Store) (e : TranscriptEvent)
      → append enc now i args s ≡ ok (s', e)
      → IsConsistent s
      → IsConsistent s'
  append-IsConsistent now i args s s' e p h = elim (append_cases enc now i args s s' e p) [
    | inl unchanged ↦ rw unchanged h
    | inr w ↦ Extended-IsConsistent i args s s' e (Wrote-Extended enc now i args s s' e w) h
  ]
