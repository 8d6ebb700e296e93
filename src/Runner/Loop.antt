-- ===== src/Runner/Loop.antt =====
-- src/suiteharness/execution/runner.py: `_run_loop`. Its loop over the iterations is a recursion on
-- how many are left.
use suite_harness.Base.{
  Option, ℕ, zero, suc, ◌+◌, ◌-◌, Bool, true, false, none, some, [], leb, nat_beq, if◌then◌else◌,
  Result, ok, err, ◌>>=◌, ◌>>◌, require,
}
use suite_harness.Base.Json.{null}
use suite_harness.Grants.Model.{CapabilityGrant}
use suite_harness.Budget.{Budget, take_iteration}
use suite_harness.Runner.{
  RunFailure, workflow_error, run_input_too_large, iteration_budget_exceeded, tool_budget_exceeded,
  run_started, RunResumeState, RunRequest, no_data, Machine, Outside, emit,
}
use suite_harness.Runner.Policy.{ExecutionPolicy, budget_policy_failure}
use suite_harness.Runner.Resumption.{valid_resume}
use suite_harness.Runner.Results.{
  failed, budget_exceeded, RunState, RunResult, result_of, run_event, finish,
}
use suite_harness.Runner.Strategies.{Strategies, LoopState, Exit, exit_with, on_pool}
use suite_harness.Runner.Turns.{turn_grant}
use suite_harness.Runner.Calls.{take_slots, turn}

-- What the state of a run starts from.
abbrev pub initial_state : ℕ → RunState
initial_state now = record {
  started_at = now;
  iterations_used = 0;
  tool_calls_used = 0;
  observations = [];
  call_ids = [];
  published = [];
}

abbrev pub inherited_state : RunResumeState → RunState → RunState
inherited_state resume s = record s {
  iterations_used = resume.iterations_used;
  tool_calls_used = resume.tool_calls_used;
  observations = resume.observations;
  call_ids = resume.call_ids;
}

module _ {H X : Type 0} where
  -- What the run comes to, by its result.
  unfoldable pub finish_result : Machine H X → Option RunResult → Option (Machine H X × RunResult)
  finish_result m none = none
  finish_result m (some r) = some (finish r m)

  -- `_finish(self._result(…))`
  unfoldable pub close : RunRequest → Option (Exit H X) → Option (Machine H X × RunResult)
  close request none = none
  close request (some e) =
      finish_result e.machine
        (result_of request e.state e.status e.output e.failure e.machine.world.now)

-- The loop that charges the inherited iterations: the budget, and whether all were taken.
unfoldable pub charge_inherited : ℕ → ℕ → Budget → Budget × Bool
charge_inherited zero now pool = (pool, true)
charge_inherited (suc n) now pool =
    let r = take_iteration now pool in
    let rest = charge_inherited n now r.0 in if r.1 then rest else (r.0, false)

module _ {H X P : Type 0} (o : Outside H X) (policy : ExecutionPolicy)
    (strategies : Strategies H X P) (ttl : ℕ) (resume_size : RunResumeState → ℕ) where
  -- The loop from an iteration on, with `left` iterations to go. The first one of the run is
  -- `first`.
  unfoldable pub iterate : RunRequest → ℕ → ℕ → ℕ → LoopState H X → Option (Exit H X)
  iterate request first zero iteration l =
      exit_with budget_exceeded iteration_budget_exceeded (some request.budget.max_iterations)
        l.machine l.state
  iterate request first (suc left) iteration l =
      elim (turn o policy strategies request (nat_beq iteration first) iteration l) [
        | err e ↦ e
        | ok l' ↦ iterate request first left (iteration + 1) l'
      ]

  -- What a resumed run takes over, charged to the aggregate budget.
  unfoldable pub inherit :
      RunRequest
      → RunResumeState
      → CapabilityGrant
      → Machine H X
      → RunState
      → Result (Option (Exit H X)) (LoopState H X)
  inherit request resume grant m s = do
    require (valid_resume o policy ttl request resume (resume_size resume) grant m.world)
        (exit_with failed workflow_error (some 1) m s)
    let s' = inherited_state resume s
    let charged = charge_inherited resume.iterations_used m.world.now m.world.pool
    let m' = on_pool charged.0 m
    require charged.1 (exit_with failed iteration_budget_exceeded (some 1) m' s')
    let slots = take_slots m.world.now resume.tool_calls_used charged.0
    let m'' = on_pool slots.0 m
    require (nat_beq slots.1 resume.tool_calls_used)
        (exit_with failed tool_budget_exceeded (some 1) m'' s')
    ok (record {
      machine = m'';
      state = s';
      workflow_state = resume.workflow_state;
      checkpoint_safe = true;
      checkpoint_pending = none;
    })

  -- What the loop starts from, under a live grant.
  unfoldable pub take_over :
      RunRequest
      → CapabilityGrant
      → Machine H X
      → RunState
      → Option RunResumeState
      → Result (Option (Exit H X)) (LoopState H X)
  take_over request grant m s none = ok (record {
    machine = m;
    state = s;
    workflow_state = null;
    checkpoint_safe = true;
    checkpoint_pending = none;
  })
  take_over request grant m s (some resume) = inherit request resume grant m s

  -- The checks before the loop, after that of the budget.
  unfoldable pub begin_within :
      RunRequest
      → Machine H X
      → RunState
      → Option RunFailure
      → Result (Option (Exit H X)) (LoopState H X)
  begin_within request m s (some failure) = err (
      some (record {
        machine = m;
        state = s;
        status = budget_exceeded;
        output = none;
        failure = some failure;
      }))
  begin_within request m s none = do
    require (leb (o.payload_size request.input) policy.max_run_input_bytes)
        (exit_with failed run_input_too_large none m s)
    grant ← turn_grant request m s
    take_over request grant m s request.resume

  unfoldable pub begin :
      RunRequest → Machine H X → RunState → Result (Option (Exit H X)) (LoopState H X)
  begin request m s = begin_within request m s (budget_policy_failure policy request.budget)

  -- `range(first_iteration, request.budget.max_iterations + 1)`
  unfoldable pub run_iterations : RunRequest → LoopState H X → Option (Exit H X)
  run_iterations request l =
      let first = l.state.iterations_used + 1 in
      iterate request first (request.budget.max_iterations + 1 - first) first l

  -- What the run comes to, from the checks before the loop on.
  unfoldable pub run_from :
      RunRequest → Result (Option (Exit H X)) (LoopState H X) → Option (Exit H X)
  run_from request (err e) = e
  run_from request (ok l) = run_iterations request l

  -- `_run_loop`; none where an exception escapes it, which `_run` turns into an internal error
  -- without an event.
  unfoldable pub run_loop : RunRequest → Machine H X → Option (Machine H X × RunResult)
  unfolding emit
  run_loop request m =
      let m' = emit (run_event run_started no_data) m in
      close request (run_from request (begin request m' (initial_state m.world.now)))
