-- ===== src/Sessions/Transcript/Repeats.antt =====
-- What an `append` returns that writes nothing.
use suite_harness.Base.{
  ℕ, ◌≤◌, String, ◌≡◌, refl, ap, sym, ◌∙◌, ◌⊎◌, inl, inr, true, Option, none, some, List, [], ◌∷◌,
  ◌++◌, arith, ◌==◌, string_eq, nat_eq, pair_eq, Option-cases, Bool-cases, ok, same_cases, same_ne,
  same_self,
}
use suite_harness.Base.Dict
use mathlib.Core.Option.{some-injective}
use suite_harness.Sessions.Model.{
  SessionIdentity, session_eq, SessionRecord, TranscriptEvent, Store,
}
use suite_harness.Sessions.Transcript.{
  Encoding, AppendArgs, events_of, source_of, is_outdated, event_at_revision, append_source,
  watermark, prior_event, append_found, append,
}
use suite_harness.Sessions.Transcript.Append.{Wrote, append_new-Fresh}
use suite_harness.Sessions.Transcript.Replay.{Accepted, append-Accepted, Accepted-append}

-- The event stands in the transcript, with the given revision.
pub record StandsAt (revision : ℕ) (events : List TranscriptEvent) (e : TranscriptEvent)
    : Type 0 where
  pub before : List TranscriptEvent
  pub after : List TranscriptEvent
  pub there : events ≡ before ++ e ∷ after
  pub at_revision : e.revision ≡ revision

event_at_revision-StandsAt :
    (revision : ℕ) (events : List TranscriptEvent) (e : TranscriptEvent)
    → event_at_revision revision events ≡ some e
    → StandsAt revision events e
unfolding event_at_revision
event_at_revision-StandsAt revision [] e h = absurd (ground (arith, h))
event_at_revision-StandsAt revision (x ∷ xs) e h = elim (same_cases x.revision revision) [
  | inl same ↦
      let equal : (x.revision == revision) ≡ true = rw same (same_self revision) in
      let found : some x ≡ some e = ground (arith, h, equal) in
      let is_x : x ≡ e = some-injective x e found in
      record {
        before = [];
        after = xs;
        there = ap (λ y. y ∷ xs) is_x;
        at_revision = sym (ap (λ (y : TranscriptEvent). y.revision) is_x) ∙ same;
      }
  | inr ne ↦
      let r =
        event_at_revision-StandsAt revision xs e
          (ground (arith, h, same_ne x.revision revision ne)) in
      record {
        before = x ∷ r.before;
        after = r.after;
        there = ap (λ ys. x ∷ ys) r.there;
        at_revision = r.at_revision;
      }
]

module _ (enc : Encoding) where
  -- The answer that was given before: the event that the key got for the same type and payload, or,
  -- for a version of a source that is not above the session's watermark, the event of the last
  -- invalidation.
  pub data Repeats (i : SessionIdentity) (args : AppendArgs) (s : Store) (e : TranscriptEvent)
      : Type 0 where
    by_key :
        (k : String)
        → args.idempotency_key ≡ some k
        → Dict.get (i, k) s.event_idempotency
          ≡ some (enc.event_digest args.event_type args.payload, e)
        → Repeats i args s e
    by_watermark :
        (namespace : String) (version : ℕ) (r : SessionRecord)
        → source_of args.event_type args.payload ≡ ok (some (namespace, version))
        → Dict.get i s.sessions ≡ some r
        → version ≤ watermark r namespace
        → StandsAt r.memory_invalidated_revision (events_of i s) e
        → Repeats i args s e

  key-Repeats :
      (i : SessionIdentity) (args : AppendArgs) (s : Store) (e : TranscriptEvent)
      → prior_event enc i args s ≡ some (enc.event_digest args.event_type args.payload, e)
      → Repeats i args s e
  unfolding prior_event
  key-Repeats i args s e p = elim (Option-cases args.idempotency_key) [
    | inl no_key ↦ absurd (ground (arith, p, no_key))
    | inr (k, key) ↦ by_key k key (ground (arith, p, key))
  ]

  watermark-Repeats :
      (i : SessionIdentity) (args : AppendArgs) (s : Store) (e : TranscriptEvent)
      (source : Option (String × ℕ)) (r : SessionRecord)
      → source_of args.event_type args.payload ≡ ok source
      → Dict.get i s.sessions ≡ some r
      → is_outdated source r ≡ true
      → StandsAt r.memory_invalidated_revision (events_of i s) e
      → Repeats i args s e
  unfolding is_outdated
  watermark-Repeats i args s e none r read found old at = absurd (ground (arith, old))
  watermark-Repeats i args s e (some (namespace, version)) r read found old at =
      by_watermark namespace version r read found (ground (arith, old)) at

  found-Repeats :
      (now : ℕ) (i : SessionIdentity) (args : AppendArgs) (s s' : Store) (e : TranscriptEvent)
      (a : Accepted enc i args s) (o : Option (String × TranscriptEvent))
      → prior_event enc i args s ≡ o
      → append_found enc now i args a.source a.stored s o ≡ ok (s', e)
      → ((s' ≡ s) × Repeats i args s e) ⊎ Wrote enc now i args s s' e
  unfolding append_found append_source
  found-Repeats now i args s s' e a (some (d, x)) p h =
      let is_x : some (d, x) ≡ some (enc.event_digest args.event_type args.payload, e) =
        ground (arith, h, string_eq.same_iff d (enc.event_digest args.event_type args.payload)) in
      inl (ground (arith, h), key-Repeats i args s e (p ∙ is_x))
  found-Repeats now i args s s' e a none p h = elim (Bool-cases (is_outdated a.source a.stored)) [
    | inl old ↦
        elim (Option-cases
          (event_at_revision a.stored.memory_invalidated_revision (events_of i s))) [
            | inl absent ↦ absurd (ground (arith, h, old, absent))
            | inr (x, there) ↦
                let is_x : some x ≡ some e = ground (arith, h, old, there) in
                inl (
                  ground (arith, h, old, there),
                  watermark-Repeats i args s e a.source a.stored a.source_read a.found old (
                      event_at_revision-StandsAt a.stored.memory_invalidated_revision
                        (events_of i s) e (there ∙ is_x)),
                )
          ]
    | inr new ↦
        let f = append_new-Fresh enc now i args a.source a.stored s s' e (ground (arith, h, new)) in
        inr (record {
          source = a.source;
          stored = a.stored;
          source_read = a.source_read;
          found = a.found;
          current = new;
          new_key = p;
          new_id = f.new_id;
          fits = f.fits;
          room = f.room;
          total_room = f.total_room;
          event = f.event;
          store = f.store;
        })
  ]

  -- A successful `append` that writes nothing repeats an earlier answer.
  pub append-Repeats :
      (now : ℕ) (i : SessionIdentity) (args : AppendArgs) (s s' : Store) (e : TranscriptEvent)
      → append enc now i args s ≡ ok (s', e)
      → ((s' ≡ s) × Repeats i args s e) ⊎ Wrote enc now i args s s' e
  append-Repeats now i args s s' e h =
      let a = append-Accepted enc now i args s s' e h in
      found-Repeats now i args s s' e a (prior_event enc i args s) refl
        (sym (Accepted-append enc now i args s a) ∙ h)
