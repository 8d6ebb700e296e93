-- ===== src/Runner/Policy.antt =====
-- src/suiteharness/execution/runner.py: `ExecutionPolicy`, and the run budgets that it admits.
use suite_harness.Base.{
  ℕ, ◌*◌, Bool, ◌||◌, Option, none, some, List, ◌∷◌, any, ltb, if◌then◌else◌, Result, ok, err,
  ◌>>=◌, IntArg, nat, negative, not_int,
}
use suite_harness.Tools.{ToolEffect, destructive, has_effect, ToolSpec}
use suite_harness.Runner.{ExecutionBudget, RunFailure, budget_policy_exceeded}

pub record ExecutionPolicy : Type 0 where
  pub approval_effects : List ToolEffect
  pub max_run_input_bytes : ℕ
  pub max_tool_argument_bytes : ℕ
  pub max_tool_result_bytes : ℕ
  pub max_final_output_bytes : ℕ
  pub max_workflow_state_bytes : ℕ
  pub max_iterations : ℕ
  pub max_tool_calls : ℕ
  pub max_parallel_calls : ℕ
  pub max_timeout_seconds : ℕ

-- The arguments of the constructor; the timeout is a finite number of ticks, if it is one.
pub record PolicyArgs : Type 0 where
  pub approval_effects : List ToolEffect
  pub max_run_input_bytes : IntArg
  pub max_tool_argument_bytes : IntArg
  pub max_tool_result_bytes : IntArg
  pub max_final_output_bytes : IntArg
  pub max_workflow_state_bytes : IntArg
  pub max_iterations : IntArg
  pub max_tool_calls : IntArg
  pub max_parallel_calls : IntArg
  pub max_timeout_seconds : IntArg

pub data PolicyError : Type 0 where
  type_error value_error : PolicyError

abbrev pub mebibytes : ℕ → ℕ
mebibytes n = n * 1048576

-- One turn of the loops over the limits.
unfoldable pub within : ℕ → IntArg → Result PolicyError ℕ
within maximum not_int = err type_error
within maximum (negative n) = err value_error
within maximum (nat n) = if ltb n 1 || ltb maximum n then err value_error else ok n

-- `__post_init__`; `day` is 86400 seconds in ticks.
unfoldable pub execution_policy : ℕ → PolicyArgs → Result PolicyError ExecutionPolicy
execution_policy day args = do
  input ← within (mebibytes 8) args.max_run_input_bytes
  argument ← within (mebibytes 8) args.max_tool_argument_bytes
  result ← within (mebibytes 32) args.max_tool_result_bytes
  output ← within (mebibytes 32) args.max_final_output_bytes
  state ← within (mebibytes 8) args.max_workflow_state_bytes
  iterations ← within 10000 args.max_iterations
  calls ← within 100000 args.max_tool_calls
  parallel ← within 1024 args.max_parallel_calls
  timeout ← within day args.max_timeout_seconds
  ok (record {
    approval_effects = destructive ∷ args.approval_effects;
    max_run_input_bytes = input;
    max_tool_argument_bytes = argument;
    max_tool_result_bytes = result;
    max_final_output_bytes = output;
    max_workflow_state_bytes = state;
    max_iterations = iterations;
    max_tool_calls = calls;
    max_parallel_calls = parallel;
    max_timeout_seconds = timeout;
  })

-- `bool(spec.effects & self.approval_effects)`
unfoldable pub requires_approval : ExecutionPolicy → ToolSpec → Bool
requires_approval policy spec = any (λ e. has_effect e policy.approval_effects) spec.effects

-- `_budget_policy_failure`
unfoldable pub budget_policy_failure : ExecutionPolicy → ExecutionBudget → Option RunFailure
budget_policy_failure ceilings requested =
    if ltb ceilings.max_iterations requested.max_iterations
      || ltb ceilings.max_tool_calls requested.max_tool_calls
      || ltb ceilings.max_parallel_calls requested.max_parallel_calls
      || ltb ceilings.max_timeout_seconds requested.timeout_seconds
    then some (record {
      code = budget_policy_exceeded;
      iteration = none;
      call_id = none;
      tool_name = none;
    })
    else none
