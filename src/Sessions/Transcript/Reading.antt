-- ===== src/Sessions/Transcript/Reading.antt =====
-- src/suiteharness/sessions/memory.py: the recent events and the pages of a transcript.
use suite_harness.Base.{
  ℕ, ◌-◌, min, ◌&&◌, Option, none, some, List, leb, string_eq, nat_eq, pair_eq, length, take, drop,
  Result, ok, err, ◌>>=◌, ◌>>◌, require, IntArg, nat,
}
use suite_harness.Sessions.Model.{
  SessionIdentity, session_eq, SessionError, value_error, TranscriptEvent, Store,
}
use suite_harness.Sessions.Claims.{require_session}
use suite_harness.Sessions.Transcript.{events_of}

-- A limit below zero fails as 0 does.
unfoldable pub recent_transcript :
    SessionIdentity → ℕ → Store → Result SessionError (List TranscriptEvent)
recent_transcript identity limit s = do
  require (leb 1 limit && leb limit 1000) value_error
  r ← require_session identity s
  let events = events_of identity s
  ok (drop (length events - limit) events)

-- `validate_transcript_page`
unfoldable pub validate_transcript_page :
    IntArg → Option IntArg → Result SessionError (ℕ × Option ℕ)
validate_transcript_page (nat limit) none = do
  require (leb 1 limit && leb limit 1000) value_error
  ok (limit, none)
validate_transcript_page (nat limit) (some (nat before)) = do
  require (leb 1 limit && leb limit 1000 && leb 1 before) value_error
  ok (limit, some before)
validate_transcript_page _ _ = err value_error

-- `events[max(0, end - limit):end]`
unfoldable pub page_of : ℕ → Option ℕ → List TranscriptEvent → List TranscriptEvent
page_of limit before events =
    let stop : ℕ = elim before [ none ↦ length events | some b ↦ min (length events) (b - 1) ] in
    drop (stop - limit) (take stop events)

unfoldable pub transcript_page :
    SessionIdentity → IntArg → Option IntArg → Store → Result SessionError (List TranscriptEvent)
unfolding validate_transcript_page page_of
transcript_page identity limit before s = do
  (n, b) ← validate_transcript_page limit before
  r ← require_session identity s
  ok (page_of n b (events_of identity s))
