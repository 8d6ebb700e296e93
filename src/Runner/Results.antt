-- ===== src/Runner/Results.antt =====
-- src/suiteharness/execution/models.py and runner.py: the state and the result of a run, with
-- `_result`, `_finish` and the checkpoints.
use suite_harness.Base.{
  ℕ, String, ◌||◌, ◌&&◌, not, Option, none, some, List, ◌∷◌, length, leb, ltb, if◌then◌else◌,
}
use suite_harness.Base.Json.{Json}
use suite_harness.Base.Names.{codes}
use suite_harness.Tools.{ToolSpec}
use suite_harness.Runner.{
  FailureCode, run_finished, RunFailure, ToolObservation, RunResumeState, RunRequest, status_of,
  AuditEvent, AuditEventType, of_checkpoint, World, Outside, Machine, emit, EventData,
}
use suite_harness.Runner.Policy.{ExecutionPolicy}
use suite_harness.Runner.Observations.{contains_run_credentials}
use suite_harness.Runner.Resumption.{checkpoint_limit}

pub data RunStatus : Type 0 where
  succeeded failed budget_exceeded timed_out cancelled : RunStatus

-- `status.value`
abbrev pub status_text : RunStatus → String
status_text succeeded = "succeeded"
status_text failed = "failed"
status_text budget_exceeded = "budget_exceeded"
status_text timed_out = "timed_out"
status_text cancelled = "cancelled"

-- `_RunState`; `published` holds the checkpoints, the newest first.
pub record RunState : Type 0 where
  pub started_at : ℕ
  pub iterations_used : ℕ
  pub tool_calls_used : ℕ
  pub observations : List ToolObservation
  pub call_ids : List String
  pub published : List RunResumeState

pub record RunResult : Type 0 where
  pub run_id : String
  pub status : RunStatus
  pub output : Option Json
  pub failure : Option RunFailure
  pub observations : List ToolObservation
  pub iterations_used : ℕ
  pub tool_calls_used : ℕ
  pub started_at : ℕ
  pub finished_at : ℕ

pub record WorkflowFrame : Type 0 where
  pub iteration : ℕ
  pub observations : List ToolObservation
  pub available_tools : List ToolSpec
  pub workflow_state : Json
  pub tool_calls_used : ℕ
  pub elapsed_seconds : ℕ

-- `_result`; none where `RunResult.validate_outcome` refuses a run that would end before it starts,
-- which nothing catches. The failure always fits the status.
unfoldable pub result_of :
    RunRequest → RunState → RunStatus → Option Json → Option RunFailure → ℕ → Option RunResult
result_of request state status output failure now =
    if ltb now state.started_at
    then none
    else some (record {
      run_id = request.run_id;
      status = status;
      output = output;
      failure = failure;
      observations = state.observations;
      iterations_used = state.iterations_used;
      tool_calls_used = state.tool_calls_used;
      started_at = state.started_at;
      finished_at = now;
    })

abbrev pub run_event : AuditEventType → EventData → AuditEvent
run_event kind data_of = record {
  event_type = kind;
  call_id = none;
  tool_name = none;
  tool_identity = none;
  data_of = data_of;
}

-- `None if failure is None else failure.code`
abbrev pub code_in : Option RunFailure → Option FailureCode
code_in none = none
code_in (some f) = some f.code

module _ {H X : Type 0} where
  -- `_finish`
  unfoldable pub finish : RunResult → Machine H X → Machine H X × RunResult
  unfolding emit
  finish result m = (
    emit (run_event run_finished (status_of (status_text result.status) (code_in result.failure)))
        m,
    result,
  )

-- The `RunResumeState` of a checkpoint; the call ids stand in the order of the set.
abbrev pub resume_state : RunRequest → RunState → Json → String → String → ℕ → RunResumeState
resume_state request state workflow_state prompt_digest route_key iterations_used = record {
  source_run_id = request.run_id;
  workflow_state = workflow_state;
  observations = state.observations;
  iterations_used = iterations_used;
  tool_calls_used = state.tool_calls_used;
  call_ids = state.call_ids;
  prompt_digest = prompt_digest;
  route_key = route_key;
}

module _ {H X : Type 0} (o : Outside H X) (policy : ExecutionPolicy)
    (size : RunRequest → RunResumeState → ℕ) where
  -- The publication of a checkpoint, which may raise.
  unfoldable pub publish_checkpoint :
      RunResumeState → World H X → RunState → Option (World H X × RunState)
  publish_checkpoint resume w state =
      let r = o.publish (of_checkpoint resume) w in
      if r.1 then some (r.0, record state { published = resume ∷ state.published }) else none

  -- `_checkpoint`; none where an exception leaves it: `RunResumeState` takes a route key of 1 to 4096
  -- characters. The size is that of the published data, with the input and the conversation.
  unfoldable pub checkpoint :
      RunRequest → Json → String → String → ℕ → World H X → RunState → Option (World H X × RunState)
  unfolding contains_run_credentials checkpoint_limit
  checkpoint request workflow_state prompt_digest route_key iterations_used w state =
      let resume =
        resume_state request state workflow_state prompt_digest route_key iterations_used in
      if ltb 1024 (length state.observations)
        || ltb 1024 (length state.call_ids)
        || contains_run_credentials workflow_state
      then some (w, state)
      else if not (leb 1 (length (codes route_key)) && leb (length (codes route_key)) 4096)
      then none
      else if leb (size request resume) (checkpoint_limit policy)
      then publish_checkpoint resume w state
      else some (w, state)
