-- ===== src/Runner/Observations.antt =====
-- src/suiteharness/execution/runner.py: `_contains_run_credentials`, the events of one call, and the
-- observations of the calls that bring no result.
use suite_harness.Base.{
  ℕ, String, Bool, false, ◌||◌, if◌then◌else◌, leb, Option, none, some, ◌==◌, string_eq,
}
use suite_harness.Base.Json.{Json, boolean, text, object, Fields, end, field, lookup}
use suite_harness.Base.Json
use suite_harness.Tools.{ToolIdentity, identity_eq}
use suite_harness.Registry.{RegisteredTool}
use suite_harness.Runner.{
  ToolCallStatus, denied, failed, budget_exceeded, FailureCode, tool_budget_exceeded,
  AuditEventType, tool_denied, tool_finished, ToolIntent, RunFailure, ToolObservation, RunRequest,
  EventData, code_of, status_of, AuditEvent, Machine, emit,
}
use suite_harness.Runner.Authorize.{registered}

-- The keys that `_contains_run_credentials` looks for.
abbrev pub is_credential_key : String → Bool
is_credential_key k =
    k == "result_id"
    || k == "result_reference"
    || k == "approval_token"
    || k == "approval_binding"
    || k == "approval_credential"

-- `_contains_run_credentials`
unfoldable mutual
  pub contains_run_credentials : Json → Bool
  contains_run_credentials (object fs) = fields_contain fs
  contains_run_credentials (Json.array xs) = items_contain xs
  contains_run_credentials Json.null = false
  contains_run_credentials (boolean b) = false
  contains_run_credentials (Json.number n) = false
  contains_run_credentials (Json.float x) = false
  contains_run_credentials (text s) = false

  pub items_contain : Json.Items → Bool
  items_contain Json.nil = false
  items_contain (Json.cons x xs) = contains_run_credentials x || items_contain xs

  pub fields_contain : Fields → Bool
  fields_contain end = false
  fields_contain (field k v fs) =
      is_credential_key k || contains_run_credentials v || fields_contain fs

abbrev pub tool_event : AuditEventType → ToolIntent → Option ToolIdentity → EventData → AuditEvent
tool_event kind intent identity data_of = record {
  event_type = kind;
  call_id = some intent.call_id;
  tool_name = some intent.tool_name;
  tool_identity = identity;
  data_of = data_of;
}

abbrev pub failure_of : FailureCode → ToolIntent → ℕ → RunFailure
failure_of code intent iteration = record {
  code = code;
  iteration = some iteration;
  call_id = some intent.call_id;
  tool_name = some intent.tool_name;
}

-- The observation of a call without a result.
abbrev pub without_result : ToolCallStatus → ToolIntent → FailureCode → ℕ → ℕ → ℕ → ToolObservation
without_result status intent code iteration started_at finished_at = record {
  call_id = intent.call_id;
  tool_name = intent.tool_name;
  tool_identity = none;
  arguments = none;
  status = status;
  result = none;
  failure = some (failure_of code intent iteration);
  started_at = started_at;
  finished_at = finished_at;
}

-- `ToolObservation.validate_outcome`: an observation that would end before it starts is refused, and
-- nothing catches that. The failure always fits the status.
unfoldable pub observed : ToolObservation → Option ToolObservation
observed x = if leb x.started_at x.finished_at then some x else none

abbrev pub identity_of : {H : Type 0} → Option (RegisteredTool H) → Option ToolIdentity
identity_of none = none
identity_of (some tool) = some tool.identity

module _ {H X : Type 0} where
  -- `_deny`; no observation where an exception leaves the call, here and below.
  unfoldable pub deny :
      ToolIntent
      → ℕ
      → ℕ
      → FailureCode
      → Option ToolIdentity
      → Machine H X
      → Machine H X × Option ToolObservation
  unfolding emit
  deny intent iteration started_at code identity m = (
    emit (tool_event tool_denied intent identity (code_of code)) m,
    observed (without_result denied intent code iteration started_at m.world.now),
  )

  -- `_tool_failure`
  unfoldable pub tool_failure :
      ToolIntent
      → ℕ
      → ℕ
      → FailureCode
      → ToolIdentity
      → Machine H X
      → Machine H X × Option ToolObservation
  unfolding emit
  tool_failure intent iteration started_at code identity m = (
    emit (tool_event tool_finished intent (some identity) (status_of "failed" (some code))) m,
    observed (without_result failed intent code iteration started_at m.world.now),
  )

  -- `_budget_observation`
  unfoldable pub budget_observation :
      RunRequest → ToolIntent → ℕ → Machine H X → Machine H X × ToolObservation
  unfolding emit
  budget_observation request intent iteration m = (
    emit
        (tool_event tool_denied intent (identity_of (registered request intent.tool_name m.world))
          (code_of tool_budget_exceeded))
        m,
    without_result budget_exceeded intent tool_budget_exceeded iteration m.world.now m.world.now,
  )
