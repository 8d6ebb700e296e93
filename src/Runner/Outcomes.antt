-- ===== src/Runner/Outcomes.antt =====
-- src/suiteharness/execution/runner.py: the end of `_execute_intent`, by what the handler of the tool
-- returned or raised.
use suite_harness.Base.{
  ℕ, ◌*◌, Bool, true, false, ◌&&◌, not, Option, none, some, ltb, if◌then◌else◌, ◌==◌, string_eq,
  contains,
}
use suite_harness.Base.Json.{Json, boolean, text, object, Fields, end, field}
use suite_harness.Tools.{identity_eq}
use suite_harness.Sessions.Payloads.{is_canonical}
use suite_harness.Runner.{
  succeeded, policy_denied, tool_result_too_large, invalid_tool_result, tool_error, tool_finished,
  ToolIntent, ToolObservation, RunRequest, status_of, World, Machine, returned, returned_other,
  refused, raised_value, raised_other, HandlerOutcome, Outside, emit,
}
use suite_harness.Runner.Policy.{ExecutionPolicy}
use suite_harness.Runner.Authorize.{Admitted, registered, safe_registration}
use suite_harness.Runner.Observations.{fields_contain, tool_event, observed, deny, tool_failure}

module _ {H X : Type 0} (o : Outside H X) (policy : ExecutionPolicy) where
  -- `self.__tool_results is not None and can_read_result and …`
  unfoldable pub stores_result : RunRequest → ToolIntent → Admitted H → Json → World H X → Bool
  stores_result request intent a value w =
      (elim (registered request "suiteharness.result.read" w) [
        | none ↦ false
        | some reader ↦
            contains reader.identity a.grant.tool_identities
            && reader.identity.namespace == "suiteharness"
            && reader.identity.origin == "suiteharness.builtin.result"
      ])
      && not (intent.tool_name == "suiteharness.result.read")
      && ltb (16 * 1024) (o.payload_size value)

  -- The value that the observation carries, or `none` when the result store raises.
  unfoldable pub kept_result :
      RunRequest → ToolIntent → Admitted H → Json → World H X → World H X × Option Json
  kept_result request intent a value w = elim o.tool_results [
    | none ↦ (w, some value)
    | some put ↦
        let r = put request.scope request.run_id value w in
        if not (stores_result request intent a value w) then (w, some value) else elim r.1 [
          | none ↦ (r.0, none)
          | some reference ↦ (
            r.0,
            some (
                object (
                  field "result_reference" (text reference) (
                    field "preview" (text (o.preview value))
                      (field "truncated" (boolean true) end)))),
          )
        ]
  ]

  -- `resume_arguments`
  unfoldable pub resume_arguments : RunRequest → ToolIntent → World H X → Option Fields
  resume_arguments request intent w =
      if safe_registration request intent.tool_name w && not (fields_contain intent.arguments)
      then some intent.arguments
      else none

  -- The end of a call, by what is kept of the value.
  unfoldable pub finish_kept :
      RunRequest
      → ToolIntent
      → ℕ
      → ℕ
      → Admitted H
      → Option Json
      → Machine H X
      → Machine H X × Option ToolObservation
  unfolding emit
  finish_kept request intent iteration started_at a none m =
      tool_failure intent iteration started_at tool_error a.tool.identity m
  finish_kept request intent iteration started_at a (some result) m = (
    emit (tool_event tool_finished intent (some a.tool.identity) (status_of "succeeded" none)) m,
    observed (record {
      call_id = intent.call_id;
      tool_name = intent.tool_name;
      tool_identity = some a.tool.identity;
      arguments = resume_arguments request intent m.world;
      status = succeeded;
      result = some result;
      failure = none;
      started_at = started_at;
      finished_at = m.world.now;
    }),
  )

  -- A call whose handler returned a JSON value.
  unfoldable pub finish_call :
      RunRequest
      → ToolIntent
      → ℕ
      → ℕ
      → Admitted H
      → Json
      → Machine H X
      → Machine H X × Option ToolObservation
  finish_call request intent iteration started_at a value m =
      let r = kept_result request intent a value m.world in
      if ltb policy.max_tool_result_bytes (o.payload_size value)
      then tool_failure intent iteration started_at tool_result_too_large a.tool.identity m
      else finish_kept request intent iteration started_at a r.1 (record m { world = r.0 })

  -- What follows on each outcome of the handler.
  unfoldable pub conclude_call :
      RunRequest
      → ToolIntent
      → ℕ
      → ℕ
      → Admitted H
      → HandlerOutcome
      → Machine H X
      → Machine H X × Option ToolObservation
  conclude_call request intent iteration started_at a (returned value) m =
      if is_canonical value
      then finish_call request intent iteration started_at a value m
      else tool_failure intent iteration started_at invalid_tool_result a.tool.identity m
  conclude_call request intent iteration started_at a returned_other m =
      tool_failure intent iteration started_at invalid_tool_result a.tool.identity m
  conclude_call request intent iteration started_at a refused m =
      deny intent iteration started_at policy_denied (some a.tool.identity) m
  conclude_call request intent iteration started_at a raised_value m =
      tool_failure intent iteration started_at invalid_tool_result a.tool.identity m
  conclude_call request intent iteration started_at a raised_other m =
      tool_failure intent iteration started_at tool_error a.tool.identity m
