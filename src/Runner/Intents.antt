-- ===== src/Runner/Intents.antt =====
-- src/suiteharness/execution/runner.py: `_execute_intent` as a whole, with the audit events that it
-- appends, and the batches of calls that one decision asks for, for runs with one call at a time.
use suite_harness.Base.{
  ℕ, ◌-◌, String, Bool, true, false, if◌then◌else◌, Option, none, some, List, [], ◌∷◌, string_eq,
  Result, ok, err,
}
use suite_harness.Tools.{ToolIdentity, identity_eq}
use suite_harness.Runner.{
  FailureCode, tool_intent, tool_started, ToolIntent, ToolObservation, RunRequest, digest_of,
  started_with, Stop, failing, escaping, of_start, of_completion, ToolCallContext, World, Machine,
  Outside, emit,
}
use suite_harness.Runner.Policy.{ExecutionPolicy}
use suite_harness.Runner.Authorize.{Admitted, registered, admit, approve}
use suite_harness.Runner.Observations.{tool_event, identity_of, deny}
use suite_harness.Runner.Outcomes.{conclude_call}

module _ {H X : Type 0} (o : Outside H X) (policy : ExecutionPolicy) where
  abbrev pub context_of : RunRequest → ToolIntent → ℕ → Admitted H → World H X → ToolCallContext
  context_of request intent run_started_at a w = record {
    scope = request.scope;
    run_id = request.run_id;
    call_id = intent.call_id;
    tool_identity = a.tool.identity;
    tool = a.tool.spec;
    remaining_seconds = request.budget.timeout_seconds - (w.now - run_started_at);
    grant_id = request.grant_id;
    read_only = request.read_only;
  }

  -- What follows on the publication of the start, which nothing catches: the call of the handler.
  unfoldable pub handle_call :
      RunRequest
      → ToolIntent
      → ℕ
      → ℕ
      → ℕ
      → Admitted H
      → Bool
      → Machine H X
      → Machine H X × Option ToolObservation
  handle_call request intent iteration run_started_at started_at a false m = (m, none)
  handle_call request intent iteration run_started_at started_at a true m =
      let r =
        o.handle a.tool.handler (context_of request intent run_started_at a m.world)
          intent.arguments m.world in
      conclude_call o policy request intent iteration started_at a r.1 (record m { world = r.0 })

  -- The call of the handler, between the events of its start and of its end. `run_started_at` is
  -- `state.started_monotonic`.
  unfoldable pub start_call :
      RunRequest
      → ToolIntent
      → ℕ
      → ℕ
      → ℕ
      → Admitted H
      → Option String
      → Machine H X
      → Machine H X × Option ToolObservation
  start_call request intent iteration run_started_at started_at a approved_by m =
      let m' =
        emit
          (tool_event tool_started intent (some a.tool.identity)
            (started_with a.tool.spec.effects approved_by))
          m in
      let r = o.publish (of_start intent.call_id intent.tool_name) m'.world in
      handle_call request intent iteration run_started_at started_at a r.1
        (record m' { world = r.0 })

  -- What follows on the approval.
  unfoldable pub execute_approved :
      RunRequest
      → ToolIntent
      → ℕ
      → ℕ
      → ℕ
      → Admitted H
      → Result FailureCode (Option String)
      → Machine H X
      → Machine H X × Option ToolObservation
  execute_approved request intent iteration run_started_at started_at a (err code) m =
      deny intent iteration started_at code (some a.tool.identity) m
  execute_approved request intent iteration run_started_at started_at a (ok approved_by) m =
      start_call request intent iteration run_started_at started_at a approved_by m

  -- What follows on the checks before the approval.
  unfoldable pub execute_admitted :
      RunRequest
      → ToolIntent
      → ℕ
      → ℕ
      → ℕ
      → Option ToolIdentity
      → Result Stop (Admitted H)
      → Machine H X
      → Machine H X × Option ToolObservation
  execute_admitted request intent iteration run_started_at started_at identity (err escaping) m =
      (m, none)
  execute_admitted request intent iteration run_started_at started_at identity (err (failing code))
        m =
      deny intent iteration started_at code identity m
  execute_admitted request intent iteration run_started_at started_at identity (ok a) m =
      let r = approve o policy request intent a m.world in
      execute_approved request intent iteration run_started_at started_at a r.1
        (record m { world = r.0 })

  -- `_execute_intent`
  unfoldable pub execute_intent :
      RunRequest → ToolIntent → ℕ → ℕ → Bool → Machine H X → Machine H X × Option ToolObservation
  unfolding emit
  execute_intent request intent iteration run_started_at duplicate m =
      let identity = identity_of (registered request intent.tool_name m.world) in
      let m' =
        emit
          (tool_event tool_intent intent identity (digest_of (o.arguments_digest intent.arguments)))
          m in
      execute_admitted request intent iteration run_started_at m.world.now identity
        (admit o policy request intent duplicate m.world) m'

  -- The end of a call in a batch, whose completion is published.
  unfoldable pub complete_call :
      ToolIntent → Machine H X × Option ToolObservation → Option (Machine H X × ToolObservation)
  complete_call intent (m, none) = none
  complete_call intent (m, some x) =
      let r = o.publish (of_completion intent.call_id intent.tool_name x.status) m.world in
      if r.1 then some (record m { world = r.0 }, x) else none

  -- `_execute_batch` where `max_parallel_calls` is 1: its semaphore lets the calls run one after
  -- another, in their order. `none` where an exception leaves the batch. The flags are as many as the
  -- intents.
  unfoldable pub execute_batch :
      RunRequest
      → List (ToolIntent × Bool)
      → ℕ
      → ℕ
      → Machine H X
      → Option (Machine H X × List ToolObservation)
  execute_batch request [] iteration run_started_at m = some (m, [])
  execute_batch request ((intent, duplicate) ∷ intents) iteration run_started_at m =
      elim (complete_call intent
        (execute_intent request intent iteration run_started_at duplicate m)) [
          | none ↦ none
          | some (m', x) ↦ elim (execute_batch request intents iteration run_started_at m') [
            | none ↦ none
            | some (m'', xs) ↦ some (m'', x ∷ xs)
          ]
        ]
