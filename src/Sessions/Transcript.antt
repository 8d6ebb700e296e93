-- ===== src/Sessions/Transcript.antt =====
-- src/suiteharness/sessions/memory.py: the transcript of a session, appended under optimistic
-- concurrency and idempotency keys, and its pages. What `json.dumps` and SHA-256 give is a parameter.
pub mod Reading
pub mod Append
pub mod Invariant
pub mod Replay
pub mod Pages
pub mod Repeats
pub mod Effect
pub mod Errors
use suite_harness.Base.{
  ℕ, suc, ◌+◌, ◌-◌, min, max, String, Bool, true, false, ◌&&◌, ◌||◌, not, Option, none, some, List,
  [], ◌∷◌, ◌++◌, map, ltb, leb, if◌then◌else◌, ◌==◌, string_eq, nat_eq, pair_eq, length, take, drop,
  keep, is_some, sum, Result, ok, err, ◌>>=◌, ◌>>◌, require, IntArg, nat,
}
use suite_harness.Base.Dict
use suite_harness.Base.Json.{Json}
use suite_harness.Base.Names.{is_identifier}
use suite_harness.Sessions.Model.{
  SessionIdentity, session_eq, SessionError, value_error, capacity, payload_too_large,
  idempotency_conflict, revision_conflict, stop_iteration, SessionRecord, TranscriptEventType,
  memory_invalidated, TranscriptEvent, RunKey, Store,
}
use suite_harness.Sessions.Claims.{require_session}
use suite_harness.Sessions.Payloads.{
  is_canonical, memory_invalidation_source, finished_resume_run_id,
}
use suite_harness.Sessions.ResumePoints.{discard_resume_points, expire_resume_points}

-- The UTF-8 length of the canonical JSON of a value, and the digests of an event's content and of a
-- checkpoint's state.
pub record Encoding : Type 0 where
  pub payload_bytes : Json → ℕ
  pub event_digest : TranscriptEventType → Json → String
  pub state_digest : Json → String

-- The arguments of `append`. `occurred_at or utc_now()` is decided by the caller of the model.
pub record AppendArgs : Type 0 where
  pub event_id : String
  pub event_type : TranscriptEventType
  pub payload : Json
  pub idempotency_key : Option String
  pub expected_revision : Option ℕ
  pub occurred_at : ℕ

-- `self._events[identity]`, which is there for every session that is.
unfoldable pub events_of : SessionIdentity → Store → List TranscriptEvent
events_of identity s = elim (Dict.get identity s.events) [ none ↦ [] | some events ↦ events ]

unfoldable pub total_events : Store → ℕ
total_events s = sum (map (λ (e : SessionIdentity × List TranscriptEvent). length e.1) s.events)

-- `source`, read only for an invalidation.
unfoldable pub source_of : TranscriptEventType → Json → Result SessionError (Option (String × ℕ))
source_of memory_invalidated payload = memory_invalidation_source payload
source_of _ payload = ok none

-- `record.memory_source_versions.get(namespace, 0)`
unfoldable pub watermark : SessionRecord → String → ℕ
watermark r namespace = elim (Dict.get namespace r.memory_source_versions) [ none ↦ 0 | some v ↦ v ]

-- `source is not None and source[1] <= watermark`
unfoldable pub is_outdated : Option (String × ℕ) → SessionRecord → Bool
unfolding watermark
is_outdated none r = false
is_outdated (some (namespace, version)) r = leb version (watermark r namespace)

-- `next(event for event in … if event.revision == revision)`
unfoldable pub event_at_revision : ℕ → List TranscriptEvent → Option TranscriptEvent
event_at_revision revision [] = none
event_at_revision revision (e ∷ es) =
    if e.revision == revision then some e else event_at_revision revision es

-- `_check_revision`
unfoldable pub check_revision : SessionRecord → Option ℕ → Result SessionError (Unit {0})
check_revision r none = ok tt
check_revision r (some expected) = require (expected == r.revision) revision_conflict

-- The field checks of `TranscriptEvent`.
unfoldable pub validate_event : AppendArgs → Result SessionError (Unit {0})
validate_event args =
    require (is_identifier args.event_id) value_error
    >> require (elim args.idempotency_key [ none ↦ true | some k ↦ is_identifier k ]) value_error

abbrev pub new_versions : Option (String × ℕ) → SessionRecord → List (String × ℕ)
new_versions none r = r.memory_source_versions
new_versions (some (namespace, version)) r = Dict.put namespace version r.memory_source_versions

abbrev pub invalidated_revision : TranscriptEventType → ℕ → SessionRecord → ℕ
invalidated_revision memory_invalidated revision r = revision
invalidated_revision _ revision r = r.memory_invalidated_revision

unfoldable pub new_event : SessionIdentity → AppendArgs → SessionRecord → ℕ → TranscriptEvent
new_event identity args r count = record {
  identity = identity;
  event_id = args.event_id;
  sequence = count + 1;
  revision = r.revision + 1;
  event_type = args.event_type;
  payload = args.payload;
  occurred_at = args.occurred_at;
  idempotency_key = args.idempotency_key;
}

unfoldable pub updated_record :
    AppendArgs → Option (String × ℕ) → TranscriptEvent → SessionRecord → SessionRecord
updated_record args source event r = record r {
  revision = event.revision;
  memory_invalidated_revision = invalidated_revision args.event_type event.revision r;
  memory_source_versions = new_versions source r;
  updated_at = max r.updated_at event.occurred_at;
}

module _ (enc : Encoding) where
  abbrev pub remember :
      SessionIdentity
      → AppendArgs
      → TranscriptEvent
      → List (RunKey × (String × TranscriptEvent))
      → List (RunKey × (String × TranscriptEvent))
  remember identity args event d = elim args.idempotency_key [
    | none ↦ d
    | some k ↦ Dict.put (identity, k) (enc.event_digest args.event_type args.payload, event) d
  ]

  -- The writes of `append`, up to the resume points.
  unfoldable pub write_event :
      SessionIdentity
      → AppendArgs
      → Option (String × ℕ)
      → SessionRecord
      → TranscriptEvent
      → Store
      → Store
  unfolding updated_record
  write_event identity args source r event s = record s {
    events = Dict.put identity (events_of identity s ++ event ∷ []) s.events;
    event_ids = Dict.put (identity, args.event_id) event s.event_ids;
    event_idempotency = remember identity args event s.event_idempotency;
    sessions = Dict.put identity (updated_record args source event r) s.sessions;
  }

  -- The resume points that have expired go, and that of a run which the event finishes.
  unfoldable pub drop_resume_points : ℕ → SessionIdentity → AppendArgs → Store → Store
  unfolding expire_resume_points discard_resume_points
  drop_resume_points now identity args s =
      let s' = expire_resume_points now s in
      elim (finished_resume_run_id args.event_type args.payload) [
        | none ↦ s'
        | some run_id ↦ discard_resume_points ((identity, run_id) ∷ []) s'
      ]

  -- From the check of the event id on.
  unfoldable pub append_new :
      ℕ
      → SessionIdentity
      → AppendArgs
      → Option (String × ℕ)
      → SessionRecord
      → Store
      → Result SessionError (Store × TranscriptEvent)
  unfolding check_revision validate_event new_event
  append_new now identity args source r s = do
    require (not (is_some (Dict.get (identity, args.event_id) s.event_ids))) idempotency_conflict
    check_revision r args.expected_revision
    let count = length (events_of identity s)
    require (ltb count s.limits.max_transcript_events_per_session) capacity
    require (ltb (total_events s) s.limits.max_transcript_events_total) capacity
    validate_event args
    let event = new_event identity args r count
    ok (drop_resume_points now identity args (write_event identity args source r event s), event)

  -- From the comparison with the source's watermark on.
  unfoldable pub append_source :
      ℕ
      → SessionIdentity
      → AppendArgs
      → Option (String × ℕ)
      → SessionRecord
      → Store
      → Result SessionError (Store × TranscriptEvent)
  append_source now identity args source r s =
      if is_outdated source r
      then elim (event_at_revision r.memory_invalidated_revision (events_of identity s)) [
        | none ↦ err stop_iteration
        | some event ↦ ok (s, event)
      ]
      else append_new now identity args source r s

  -- `self._event_idempotency.get((identity, idempotency_key))`, with no key `None`
  unfoldable pub prior_event :
      SessionIdentity → AppendArgs → Store → Option (String × TranscriptEvent)
  prior_event identity args s = elim args.idempotency_key [
    | none ↦ none
    | some k ↦ Dict.get (identity, k) s.event_idempotency
  ]

  unfoldable pub append_found :
      ℕ
      → SessionIdentity
      → AppendArgs
      → Option (String × ℕ)
      → SessionRecord
      → Store
      → Option (String × TranscriptEvent)
      → Result SessionError (Store × TranscriptEvent)
  append_found now identity args source r s none = append_source now identity args source r s
  append_found now identity args source r s (some (digest, event)) =
      if digest == enc.event_digest args.event_type args.payload
      then ok (s, event)
      else err idempotency_conflict

  -- `now` is what the store's clock shows.
  unfoldable pub append :
      ℕ → SessionIdentity → AppendArgs → Store → Result SessionError (Store × TranscriptEvent)
  unfolding source_of
  append now identity args s = do
    source ← source_of args.event_type args.payload
    require (is_canonical args.payload) value_error
    require (leb (enc.payload_bytes args.payload) s.limits.max_transcript_payload_bytes)
        payload_too_large
    r ← require_session identity s
    append_found now identity args source r s (prior_event identity args s)
