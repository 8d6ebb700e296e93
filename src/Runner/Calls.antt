-- ===== src/Runner/Calls.antt =====
-- src/suiteharness/execution/runner.py: a turn of the loop of `_run_loop`, from the decision of the
-- workflow on: the final output, or the tool calls with their budget and their duplicates.
use suite_harness.Base.{
  Option, ℕ, ◌+◌, ◌-◌, min, String, Bool, ◌&&◌, ◌||◌, not, none, some, List, [], ◌∷◌, ◌++◌, all,
  any, take, drop, length, leb, ltb, if◌then◌else◌, string_eq, option_eq, contains, is_some, Result,
  ok, err, ◌>>=◌, ◌>>◌, require, nat,
}
use suite_harness.Base.Json.{Json}
use suite_harness.Base.KeySet.{add}
use suite_harness.Budget.{Budget, take_tool_slots}
use suite_harness.Runner.{
  workflow_state_too_large, final_output_too_large, tool_budget_exceeded, strategy_decision,
  ToolIntent, ToolObservation, RunRequest, decided, World, Machine, Outside, emit,
}
use suite_harness.Runner.Policy.{ExecutionPolicy}
use suite_harness.Runner.Intents.{execute_batch}
use suite_harness.Runner.Observations.{fields_contain, budget_observation}
use suite_harness.Runner.Resumption.{safe_observation}
use suite_harness.Runner.Results.{failed, budget_exceeded, succeeded, RunState, run_event}
use suite_harness.Runner.Strategies.{
  WorkflowDecision, final, tools, intents_of, state_in, kind_text, Strategies, LoopState, Exit,
  exit_with, on_pool,
}
use suite_harness.Runner.Turns.{prepare}

-- The permitted intents with their duplicate flags, and the call ids afterwards.
unfoldable pub flag_duplicates :
    List ToolIntent → List String → List (ToolIntent × Bool) × List String
flag_duplicates [] ids = ([], ids)
flag_duplicates (i ∷ is) ids =
    let rest = flag_duplicates is (add i.call_id ids) in
    ((i, contains i.call_id ids) ∷ rest.0, rest.1)

-- `take_tool_slots` of the aggregate budget: a count is never refused as an argument.
unfoldable pub take_slots : ℕ → ℕ → Budget → Budget × ℕ
take_slots now requested pool = elim (take_tool_slots now (nat requested) pool) [
  | err e ↦ (pool, 0)
  | ok r ↦ r
]

module _ {H X : Type 0} where
  -- The observations of the intents over the budget.
  unfoldable pub refuse_overflow :
      RunRequest → List ToolIntent → ℕ → Machine H X → Machine H X × List ToolObservation
  refuse_overflow request [] iteration m = (m, [])
  refuse_overflow request (i ∷ is) iteration m =
      let r = budget_observation request i iteration m in
      let rest = refuse_overflow request is iteration r.0 in (rest.0, r.1 ∷ rest.1)

  -- `checkpoint_safe`, after a batch without overflow.
  unfoldable pub batch_is_safe :
      RunRequest → List ToolIntent → List ToolObservation → World H X → Bool
  batch_is_safe request permitted observations w =
      all (λ x. safe_observation request x w) observations
      && not (
          any (λ (i : ToolIntent). is_some i.approval_token || fields_contain i.arguments)
            permitted)

  -- What follows on a batch: the run goes on, or it ends because of the intents over the budget.
  unfoldable pub settle_batch :
      RunRequest
      → ℕ
      → List ToolIntent
      → List ToolIntent
      → List ToolObservation
      → LoopState H X
      → Result (Option (Exit H X)) (LoopState H X)
  settle_batch request iteration permitted [] observations l =
      let safe =
        l.checkpoint_safe && batch_is_safe request permitted observations l.machine.world in
      ok (record l {
        checkpoint_safe = safe;
        checkpoint_pending = if safe then some iteration else none;
      })
  settle_batch request iteration permitted (i ∷ is) observations l =
      let s : RunState = l.state in
      let refused = refuse_overflow request (i ∷ is) iteration l.machine in
      err (
        exit_with budget_exceeded tool_budget_exceeded (some iteration) refused.0
          (record s { observations = s.observations ++ refused.1 }))

  -- What follows on a batch that ended, or that an exception left.
  unfoldable pub finish_batch :
      RunRequest
      → ℕ
      → List ToolIntent
      → List ToolIntent
      → LoopState H X
      → Option (Machine H X × List ToolObservation)
      → Result (Option (Exit H X)) (LoopState H X)
  finish_batch request iteration permitted overflow l none = err none
  finish_batch request iteration permitted overflow l (some (m, observations)) =
      let s : RunState = l.state in
      let s' : RunState = record s { observations = s.observations ++ observations } in
      settle_batch request iteration permitted overflow observations
        (record l { machine = m; state = s' })

module _ {H X : Type 0} (o : Outside H X) (policy : ExecutionPolicy) where
  -- The size of the workflow state and the event of the decision.
  unfoldable pub accept_decision :
      ℕ → WorkflowDecision → LoopState H X → Result (Option (Exit H X)) (LoopState H X)
  accept_decision iteration d l = do
    let m =
        emit (run_event strategy_decision (decided (kind_text d) (length (intents_of d)))) l.machine
    require (leb (o.payload_size (state_in d)) policy.max_workflow_state_bytes)
        (exit_with failed workflow_state_too_large (some iteration) m l.state)
    ok (record l { machine = m; workflow_state = state_in d })

  -- The end of a run whose workflow gave its output.
  unfoldable pub final_exit : ℕ → Json → LoopState H X → Option (Exit H X)
  final_exit iteration output l =
      if ltb policy.max_final_output_bytes (o.payload_size output)
      then exit_with failed final_output_too_large (some iteration) l.machine l.state
      else some (record {
        machine = l.machine;
        state = l.state;
        status = succeeded;
        output = some output;
        failure = none;
      })

  -- The tool calls of a decision.
  unfoldable pub call_tools :
      RunRequest → ℕ → List ToolIntent → LoopState H X → Result (Option (Exit H X)) (LoopState H X)
  call_tools request iteration intents l =
      let s : RunState = l.state in
      let w : World H X = l.machine.world in
      let slots =
        take_slots w.now (min (request.budget.max_tool_calls - s.tool_calls_used) (length intents))
          w.pool in
      let permitted = take slots.1 intents in
      let flags = flag_duplicates permitted s.call_ids in
      let s' : RunState = record s {
        tool_calls_used = s.tool_calls_used + length permitted;
        call_ids = flags.1;
      } in
      finish_batch request iteration permitted (drop slots.1 intents) (record l { state = s' })
        (execute_batch o policy request flags.0 iteration s.started_at (on_pool slots.0 l.machine))

  -- What a decision asks for.
  unfoldable pub follow :
      RunRequest → ℕ → WorkflowDecision → LoopState H X → Result (Option (Exit H X)) (LoopState H X)
  follow request iteration (final output state) l = err (final_exit iteration output l)
  follow request iteration (tools i is state) l = call_tools request iteration (i ∷ is) l

  unfoldable pub act :
      RunRequest → ℕ → WorkflowDecision → LoopState H X → Result (Option (Exit H X)) (LoopState H X)
  act request iteration d l = do l' ← accept_decision iteration d l; follow request iteration d l'

module _ {H X P : Type 0} (o : Outside H X) (policy : ExecutionPolicy)
    (strategies : Strategies H X P) where
  -- One turn of the loop.
  unfoldable pub turn :
      RunRequest → Bool → ℕ → LoopState H X → Result (Option (Exit H X)) (LoopState H X)
  turn request first iteration l = do
    (l', d) ← prepare o policy strategies request first iteration l
    act o policy request iteration d l'
