-- ===== src/Runner/Strategies.antt =====
-- src/suiteharness/execution/models.py and protocols.py: the decisions and the strategies of a
-- product, and the variables of the loop of `_run_loop` (runner.py), with the ways it is left. Where an
-- exception escapes `_run_loop`, `none` stands for the `Exit`.
use suite_harness.Base.{
  ℕ, String, Bool, ◌||◌, Option, none, some, List, [], ◌∷◌, if◌then◌else◌, ◌==◌, string_eq,
  option_eq,
}
use suite_harness.Base.Json.{Json}
use suite_harness.Budget.{Budget}
use suite_harness.Runner.{
  FailureCode, ToolIntent, RunFailure, RunResumeState, RunRequest, World, Machine,
}
use suite_harness.Runner.Results.{RunStatus, RunState, WorkflowFrame}

pub data WorkflowDecision : Type 0 where
  final : Json → Json → WorkflowDecision
  tools : ToolIntent → List ToolIntent → Json → WorkflowDecision

abbrev pub intents_of : WorkflowDecision → List ToolIntent
intents_of (final output state) = []
intents_of (tools i is state) = i ∷ is

abbrev pub state_in : WorkflowDecision → Json
state_in (final output state) = state
state_in (tools i is state) = state

abbrev pub kind_text : WorkflowDecision → String
kind_text (final output state) = "final"
kind_text (tools i is state) = "tools"

-- What a workflow's stream emits: a decision, an event of a kind that is published, or anything else,
-- an event whose publication raises included.
pub data StreamItem : Type 0 where
  decision : WorkflowDecision → StreamItem
  event : String → StreamItem
  other : StreamItem

-- The strategies of a product, with prompts of the type `P`. `none` stands for an exception or for
-- a result of another type; a stream ends by itself (`true`) or by an exception.
pub record Strategies (H X P : Type 0) : Type 1 where
  pub prompt : Option (RunRequest → WorkflowFrame → World H X → World H X × Option P)
  pub resume_key : RunRequest → WorkflowFrame → Option P → Option (Option String)
  pub stream :
      RunRequest → WorkflowFrame → Option P → World H X → World H X × (List StreamItem × Bool)
  pub reflection : Option (
      RunRequest
      → WorkflowFrame
      → WorkflowDecision
      → World H X
      → World H X × Option WorkflowDecision)
  -- `_prompt_digest`, and `with_runtime_environment`
  pub prompt_digest : RunRequest → Option P → String
  pub with_environment : P → ℕ → P
  pub checkpoint_size : RunRequest → RunResumeState → ℕ

abbrev pub is_progress : String → Bool
is_progress kind =
    kind == "delta"
    || kind == "status"
    || kind == "usage"
    || kind == "compact_started"
    || kind == "compact_completed"

-- The `async for` over the stream: the decision, or `none` for an exception or no decision.
unfoldable pub read_stream :
    Option WorkflowDecision → List StreamItem → Bool → Option WorkflowDecision
read_stream seen [] ended = if ended then seen else none
read_stream none (decision d ∷ items) ended = read_stream (some d) items ended
read_stream none (event kind ∷ items) ended =
    let rest = read_stream none items ended in if is_progress kind then rest else none
read_stream none (other ∷ items) ended = none
read_stream (some d) (i ∷ items) ended = none

-- The variables of the loop.
pub record LoopState (H X : Type 0) : Type 0 where
  pub machine : Machine H X
  pub state : RunState
  pub workflow_state : Json
  pub checkpoint_safe : Bool
  pub checkpoint_pending : Option ℕ

-- The arguments of `_result` where the loop is left.
pub record Exit (H X : Type 0) : Type 0 where
  pub machine : Machine H X
  pub state : RunState
  pub status : RunStatus
  pub output : Option Json
  pub failure : Option RunFailure

abbrev pub failure_at : FailureCode → Option ℕ → RunFailure
failure_at code iteration = record {
  code = code;
  iteration = iteration;
  call_id = none;
  tool_name = none;
}

module _ {H X : Type 0} where
  abbrev pub exit_with :
      RunStatus → FailureCode → Option ℕ → Machine H X → RunState → Option (Exit H X)
  exit_with status code iteration m state = some (record {
    machine = m;
    state = state;
    status = status;
    output = none;
    failure = some (failure_at code iteration);
  })

  abbrev pub on_world : World H X → Machine H X → Machine H X
  on_world w m = record m { world = w }

  abbrev pub on_pool : Budget → Machine H X → Machine H X
  on_pool pool m = let w : World H X = record m.world { pool = pool } in record m { world = w }
