-- ===== src/Sessions/Tests/Data.antt =====
-- A session with one event, under small limits.
use suite_harness.Base.{String, some, [], ◌∷◌}
use suite_harness.Base.Json.{Json, text}
use suite_harness.Sessions.Model.{
  SessionIdentity, SessionStoreLimits, user_message, TranscriptEvent, Store, empty_store,
}
use suite_harness.Sessions.Claims.{new_record}
use suite_harness.Sessions.Transcript.{Encoding, AppendArgs}

abbrev pub alice : SessionIdentity
alice = record {
  tenant_id = "acme";
  product_id = "desk";
  agent_id = "helper";
  session_id = "s1";
  principal_id = "alice";
}

abbrev pub bob : SessionIdentity
bob = record alice { principal_id = "bob" }

abbrev pub limits : SessionStoreLimits
limits = record {
  max_sessions = 2;
  max_transcript_payload_bytes = 1024;
  max_transcript_events_per_session = 3;
  max_transcript_events_total = 4;
  max_run_claims_per_session = 1;
  ticks_per_second = 1;
  max_run_claims_total = 2;
  max_checkpoint_state_bytes = 1024;
  max_checkpoints_per_session = 1;
  max_checkpoint_bytes_per_session = 1024;
  max_resume_point_bytes = 1024;
  max_resume_points_per_session = 1;
  max_resume_bytes_per_session = 1024;
  max_resume_points_total = 2;
  max_resume_bytes_total = 2048;
}

-- A text stands for itself, and every payload takes ten bytes.
abbrev pub digest_of : Json → String
digest_of (text s) = s
digest_of _ = "other"

abbrev pub enc : Encoding
enc = record {
  payload_bytes = λ j. 10;
  event_digest = λ t j. digest_of j;
  state_digest = digest_of;
}

abbrev pub opened : Store
opened = record (empty_store limits) {
  sessions = (alice, new_record 5 alice) ∷ [];
  events = (alice, []) ∷ [];
  checkpoints = (alice, []) ∷ [];
}

abbrev pub hello : AppendArgs
hello = record {
  event_id = "e1";
  event_type = user_message;
  payload = text "hello";
  idempotency_key = some "k1";
  expected_revision = some 0;
  occurred_at = 7;
}

abbrev pub hello_event : TranscriptEvent
hello_event = record {
  identity = alice;
  event_id = "e1";
  sequence = 1;
  revision = 1;
  event_type = user_message;
  payload = text "hello";
  occurred_at = 7;
  idempotency_key = some "k1";
}

abbrev pub greeted : Store
greeted = record opened {
  sessions = (alice, record (new_record 5 alice) { revision = 1; updated_at = 7 }) ∷ [];
  events = (alice, hello_event ∷ []) ∷ [];
  event_ids = ((alice, "e1"), hello_event) ∷ [];
  event_idempotency = ((alice, "k1"), ("hello", hello_event)) ∷ [];
}
