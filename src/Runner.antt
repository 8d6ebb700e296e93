-- ===== src/Runner.antt =====
-- src/suiteharness/execution/runner.py, `ExecutionRunner`, with the models of execution/models.py
-- that it works on. What the runner is given from outside (handlers, the authorization policy, the
-- interactive broker, the result store, JSON text and its digests, the schema validators) is the
-- record `Outside`; other tasks of the loop act while such code is awaited, so each of these calls
-- may change the whole `World`. The message texts of failures, and the ids, the time and the
-- request fields that every audit event copies, are left out.
pub mod Policy
pub mod Authorize
pub mod Observations
pub mod Outcomes
pub mod Intents
pub mod Resumption
pub mod Visible
pub mod Results
pub mod Strategies
pub mod Turns
pub mod Calls
pub mod Loop
pub mod Audit
pub mod ApprovedCalls
pub mod Clearance
pub mod Trusted
pub mod Started
pub mod Calm
pub mod Protocol
pub mod Invariant
pub mod Sound
pub mod Finished
pub mod Ceilings
pub mod Offered
mod Tests
use suite_harness.Base.{ℕ, String, Bool, Option, List, ◌∷◌}
use suite_harness.Base.Json.{Json, Fields}
use suite_harness.Scopes.{RequestScope}
use suite_harness.Tools.{ToolEffect, ToolIdentity, ToolSpec}
use suite_harness.Registry.{Registry}
use suite_harness.Grants.{Authority}
use suite_harness.Approvals.{Store, ApprovalTarget, ApprovalBinding}
use suite_harness.Budget.{Budget}
use suite_harness.ChannelPolicy.{ToolAuthorization}

pub data ToolCallStatus : Type 0 where
  succeeded denied failed budget_exceeded : ToolCallStatus

pub data FailureCode : Type 0 where
  invalid_scope run_conflict grant_not_found grant_scope_mismatch grant_expired : FailureCode
  tool_not_found tool_not_granted capability_denied policy_denied read_only_denied : FailureCode
  approval_required approval_invalid tool_input_invalid run_input_too_large : FailureCode
  tool_arguments_too_large tool_result_too_large final_output_too_large : FailureCode
  workflow_state_too_large duplicate_call_id invalid_tool_result tool_error : FailureCode
  workflow_error prompt_error reflection_error budget_policy_exceeded : FailureCode
  iteration_budget_exceeded tool_budget_exceeded timed_out cancelled internal_error : FailureCode

pub data AuditEventType : Type 0 where
  run_started agent_delegated strategy_decision tool_intent : AuditEventType
  tool_denied tool_started tool_finished run_finished : AuditEventType

-- `ExecutionBudget`; the seconds are ticks.
pub record ExecutionBudget : Type 0 where
  pub max_iterations : ℕ
  pub max_tool_calls : ℕ
  pub max_parallel_calls : ℕ
  pub timeout_seconds : ℕ

pub record ToolIntent : Type 0 where
  pub call_id : String
  pub tool_name : String
  pub arguments : Fields
  pub approval_token : Option String

pub record RunFailure : Type 0 where
  pub code : FailureCode
  pub iteration : Option ℕ
  pub call_id : Option String
  pub tool_name : Option String

pub record ToolObservation : Type 0 where
  pub call_id : String
  pub tool_name : String
  pub tool_identity : Option ToolIdentity
  pub arguments : Option Fields
  pub status : ToolCallStatus
  pub result : Option Json
  pub failure : Option RunFailure
  pub started_at : ℕ
  pub finished_at : ℕ

pub record RunResumeState : Type 0 where
  pub source_run_id : String
  pub workflow_state : Json
  pub observations : List ToolObservation
  pub iterations_used : ℕ
  pub tool_calls_used : ℕ
  pub call_ids : List String
  pub prompt_digest : String
  pub route_key : String

-- `RunRequest`; the conversation, which only strategies read, is left out.
pub record RunRequest : Type 0 where
  pub run_id : String
  pub scope : RequestScope
  pub grant_id : String
  pub input : Json
  pub read_only : Bool
  pub budget : ExecutionBudget
  pub resume : Option RunResumeState

-- The `data` of an audit event. `status` of a finished call or run is its text.
pub data EventData : Type 0 where
  no_data : EventData
  digest_of : String → EventData
  code_of : FailureCode → EventData
  started_with : List ToolEffect → Option String → EventData
  status_of : String → Option FailureCode → EventData
  decided : String → ℕ → EventData

pub record AuditEvent : Type 0 where
  pub event_type : AuditEventType
  pub call_id : Option String
  pub tool_name : Option String
  pub tool_identity : Option ToolIdentity
  pub data_of : EventData

-- `ToolCallContext`, as far as the runner fills it with values.
pub record ToolCallContext : Type 0 where
  pub scope : RequestScope
  pub run_id : String
  pub call_id : String
  pub tool_identity : ToolIdentity
  pub tool : ToolSpec
  pub remaining_seconds : ℕ
  pub grant_id : String
  pub read_only : Bool

-- What the stores hold at a moment, with the clock, the aggregate budget of the run and the state
-- `X` of everything else. The handlers are of the type `H`.
pub record World (H X : Type 0) : Type 0 where
  pub now : ℕ
  pub registry : Registry H
  pub authority : Authority
  pub approvals : Store
  pub pool : Budget
  pub rest : X

-- The world with the audit events that the run has appended, the newest first.
pub record Machine (H X : Type 0) : Type 0 where
  pub world : World H X
  pub journal : List AuditEvent

-- What the authorization policy does: it returns one of its four answers, something else, or
-- raises.
pub data PolicyReply : Type 0 where
  answered : ToolAuthorization → PolicyReply
  answered_other : PolicyReply
  raised : PolicyReply

-- What a handler does: it returns a value, which need not be JSON, raises `ToolHandlerDenied`,
-- raises `TypeError` or `ValueError`, or fails otherwise.
pub data HandlerOutcome : Type 0 where
  returned : Json → HandlerOutcome
  returned_other : HandlerOutcome
  refused : HandlerOutcome
  raised_value : HandlerOutcome
  raised_other : HandlerOutcome

-- What the validator compiled from a schema does: it accepts, raises `JsonSchemaValidationError`, or
-- raises another exception.
pub data Validation : Type 0 where
  accepted : Validation
  rejected : Validation
  broken : Validation

-- What stops a call before its approval: a failure, or an exception that nothing catches.
pub data Stop : Type 0 where
  failing : FailureCode → Stop
  escaping : Stop

-- What is published on the stream of the run.
pub data Published : Type 0 where
  of_start : (call_id tool_name : String) → Published
  of_completion : (call_id tool_name : String) → ToolCallStatus → Published
  of_checkpoint : RunResumeState → Published

pub record Outside (H X : Type 0) : Type 1 where
  -- `len(canonical_json(value))` and the first 1024 bytes of it, as text
  pub payload_size : Json → ℕ
  pub preview : Json → String
  -- `arguments_digest`, and the digest of approval tokens
  pub arguments_digest : Fields → String
  pub token_digest : String → String
  -- the validator that was compiled from a schema
  pub validate : Json → Fields → Validation
  -- `state.publish`: whether it returns; otherwise it raises.
  pub publish : Published → World H X → World H X × Bool
  pub authorization_policy : Option (RunRequest → ToolIdentity → ToolSpec → Fields → PolicyReply)
  -- `none` stands for `None` and for an exception.
  pub interactive_approvals : Option (
      RunRequest
      → ApprovalTarget
      → ToolSpec
      → Fields
      → World H X
      → World H X × Option ApprovalBinding)
  pub handle : H → ToolCallContext → Fields → World H X → World H X × HandlerOutcome
  -- The reference, or `none` for an exception.
  pub tool_results : Option (RequestScope → String → Json → World H X → World H X × Option String)

module _ {H X : Type 0} where
  -- `_emit`
  unfoldable pub emit : AuditEvent → Machine H X → Machine H X
  emit event m = record m { journal = event ∷ m.journal }
