-- ===== src/Sessions/Model.antt =====
-- src/suiteharness/sessions/models.py, errors.py and the fields of `InMemorySessionStore`. Times are
-- ticks of UTC; records that the code copies deeply are values here.
use suite_harness.Base.{
  ℕ, String, ◌≡◌, ◌↔◌, Bool, true, ◌&&◌, Option, List, [], arith, leb, HasEq, ◌==◌, string_eq,
  pair_eq, pair_beq_iff, Result, ◌>>◌, require,
}
use suite_harness.Base.Dict.{Dict}
use suite_harness.Base.Json.{Json}

pub record SessionIdentity : Type 0 where
  pub tenant_id : String
  pub product_id : String
  pub agent_id : String
  pub session_id : String
  pub principal_id : String

unfoldable pub session_beq : SessionIdentity → SessionIdentity → Bool
session_beq a b =
    a.tenant_id == b.tenant_id
    && a.product_id == b.product_id
    && a.agent_id == b.agent_id
    && a.session_id == b.session_id
    && a.principal_id == b.principal_id

pub session_beq_iff : (a b : SessionIdentity) → (session_beq a b ≡ true) ↔ (a ≡ b)
unfolding session_beq
session_beq_iff a b = ground (
  arith,
  string_eq.same_iff a.tenant_id b.tenant_id,
  string_eq.same_iff a.product_id b.product_id,
  string_eq.same_iff a.agent_id b.agent_id,
  string_eq.same_iff a.session_id b.session_id,
  string_eq.same_iff a.principal_id b.principal_id,
)

instance abbrev pub session_eq : HasEq SessionIdentity
session_eq = record { same = session_beq; same_iff = session_beq_iff }

pub data SessionError : Type 0 where
  value_error : SessionError
  not_found : SessionError
  capacity : SessionError
  payload_too_large : SessionError
  idempotency_conflict : SessionError
  revision_conflict : SessionError
  stop_iteration : SessionError

-- `SessionStoreLimits`, and the ticks of a second that the times of the store are counted in.
pub record SessionStoreLimits : Type 0 where
  pub ticks_per_second : ℕ
  pub max_sessions : ℕ
  pub max_transcript_payload_bytes : ℕ
  pub max_transcript_events_per_session : ℕ
  pub max_transcript_events_total : ℕ
  pub max_run_claims_per_session : ℕ
  pub max_run_claims_total : ℕ
  pub max_checkpoint_state_bytes : ℕ
  pub max_checkpoints_per_session : ℕ
  pub max_checkpoint_bytes_per_session : ℕ
  pub max_resume_point_bytes : ℕ
  pub max_resume_points_per_session : ℕ
  pub max_resume_bytes_per_session : ℕ
  pub max_resume_points_total : ℕ
  pub max_resume_bytes_total : ℕ

-- `Field(ge=…, le=…)`
abbrev between : ℕ → ℕ → ℕ → Bool
between lo hi n = leb lo n && leb n hi

-- The field bounds and `internally_consistent`.
unfoldable pub internally_consistent : SessionStoreLimits → Result SessionError (Unit {0})
internally_consistent l =
    require
      (between 1 1000000 l.max_sessions
        && between 1024 33554432 l.max_transcript_payload_bytes
        && between 1 1000000 l.max_transcript_events_per_session
        && between 1 10000000 l.max_transcript_events_total
        && between 1 1000000 l.max_run_claims_per_session
        && between 1 10000000 l.max_run_claims_total
        && between 1024 33554432 l.max_checkpoint_state_bytes
        && between 1 256 l.max_checkpoints_per_session
        && between 1024 134217728 l.max_checkpoint_bytes_per_session
        && between 1024 524288 l.max_resume_point_bytes
        && between 1 256 l.max_resume_points_per_session
        && between 1024 134217728 l.max_resume_bytes_per_session
        && between 1 1000000 l.max_resume_points_total
        && between 1024 1073741824 l.max_resume_bytes_total)
      value_error
    >> require (leb l.max_transcript_events_per_session l.max_transcript_events_total) value_error
    >> require (leb l.max_run_claims_per_session l.max_run_claims_total) value_error
    >> require (leb l.max_checkpoint_state_bytes l.max_checkpoint_bytes_per_session) value_error
    >> require (leb l.max_resume_point_bytes l.max_resume_bytes_per_session) value_error
    >> require (leb l.max_resume_points_per_session l.max_resume_points_total) value_error
    >> require (leb l.max_resume_bytes_per_session l.max_resume_bytes_total) value_error

pub data SessionStatus : Type 0 where
  active waiting_approval completed failed cancelled : SessionStatus

pub data SessionRunClaimState : Type 0 where
  acquired active stale : SessionRunClaimState

pub data RunStopOutcome : Type 0 where
  requested already_requested already_finished not_found : RunStopOutcome

pub data TranscriptEventType : Type 0 where
  user_message assistant_message tool_intent tool_result approval_requested approval_resolved status
        error cancel memory_invalidated :
      TranscriptEventType

pub record SessionRecord : Type 0 where
  pub identity : SessionIdentity
  pub status : SessionStatus
  pub revision : ℕ
  pub memory_invalidated_revision : ℕ
  pub memory_source_versions : Dict String ℕ
  pub created_at : ℕ
  pub updated_at : ℕ

pub record RunResumePoint : Type 0 where
  pub identity : SessionIdentity
  pub run_id : String
  pub payload : Json
  pub memory_invalidated_revision : ℕ
  pub memory_source_versions : Dict String ℕ
  pub created_at : ℕ

pub record TranscriptEvent : Type 0 where
  pub identity : SessionIdentity
  pub event_id : String
  pub sequence : ℕ
  pub revision : ℕ
  pub event_type : TranscriptEventType
  pub payload : Json
  pub occurred_at : ℕ
  pub idempotency_key : Option String

pub record SessionCheckpoint : Type 0 where
  pub identity : SessionIdentity
  pub checkpoint_id : String
  pub revision : ℕ
  pub workflow_state : Json
  pub last_event_sequence : ℕ
  pub created_at : ℕ
  pub idempotency_key : String

pub record SessionSnapshot : Type 0 where
  pub session : SessionRecord
  pub checkpoint : Option SessionCheckpoint
  pub transcript : List TranscriptEvent

-- The second part of a claim, "active", "finalizing" or "abandoned".
pub data ClaimPhase : Type 0 where
  active finalizing abandoned : ClaimPhase

-- The triple that `_run_claims` holds.
pub record RunClaim : Type 0 where
  pub owner_token : String
  pub phase : ClaimPhase
  pub expires_at : ℕ

abbrev pub RunKey : Type 0
RunKey = SessionIdentity × String

pub record Store : Type 0 where
  pub sessions : Dict SessionIdentity SessionRecord
  pub events : Dict SessionIdentity (List TranscriptEvent)
  pub checkpoints : Dict SessionIdentity (List SessionCheckpoint)
  pub event_idempotency : Dict RunKey (String × TranscriptEvent)
  pub event_ids : Dict RunKey TranscriptEvent
  pub checkpoint_idempotency : Dict RunKey (String × SessionCheckpoint)
  pub run_claims : Dict RunKey RunClaim
  pub run_stops : List RunKey
  pub resume_points : Dict RunKey RunResumePoint
  pub resume_point_bytes : Dict RunKey ℕ
  pub limits : SessionStoreLimits

abbrev pub empty_store : SessionStoreLimits → Store
empty_store l = record {
  sessions = [];
  events = [];
  checkpoints = [];
  event_idempotency = [];
  event_ids = [];
  checkpoint_idempotency = [];
  run_claims = [];
  run_stops = [];
  resume_points = [];
  resume_point_bytes = [];
  limits = l;
}

pub key_iff : (k j : RunKey) → ((k == j) ≡ true) ↔ (k ≡ j)
key_iff k j = pair_beq_iff k j
