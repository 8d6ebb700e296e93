-- ===== src/Runner/Turns.antt =====
-- src/suiteharness/execution/runner.py: a turn of the loop of `_run_loop`, from the charge of its
-- iteration to the decision of the workflow. A turn goes on with a new state, or leaves the loop
-- with the arguments of `_result`. The progress events that a workflow streams are read, but not
-- kept.
use suite_harness.Base.{
  ℕ, ◌-◌, String, Bool, true, ◌&&◌, ◌||◌, not, Option, none, some, nat_beq, if◌then◌else◌, ◌==◌,
  string_eq, option_eq, is_some, Result, ok, err, ◌>>=◌,
}
use suite_harness.Grants.Model.{CapabilityGrant}
use suite_harness.Budget.{take_iteration}
use suite_harness.Runner.{
  FailureCode, World, workflow_error, prompt_error, reflection_error, iteration_budget_exceeded,
  RunRequest, Machine, Outside,
}
use suite_harness.Runner.Policy.{ExecutionPolicy}
use suite_harness.Runner.Authorize.{grant_for}
use suite_harness.Runner.Visible.{visible_tools}
use suite_harness.Runner.Results.{failed, budget_exceeded, RunState, WorkflowFrame, checkpoint}
use suite_harness.Runner.Strategies.{
  WorkflowDecision, Strategies, read_stream, LoopState, Exit, exit_with, on_world, on_pool,
}

module _ {H X : Type 0} where
  -- `take_iteration` of the aggregate budget, and the run's own count.
  unfoldable pub charge_iteration : ℕ → LoopState H X → Result (Option (Exit H X)) (LoopState H X)
  charge_iteration iteration l =
      let r = take_iteration l.machine.world.now l.machine.world.pool in
      let s : RunState = l.state in
      if r.1
      then ok (record l {
        machine = on_pool r.0 l.machine;
        state = record s { iterations_used = iteration };
      })
      else err (
          exit_with budget_exceeded iteration_budget_exceeded (some iteration)
            (on_pool r.0 l.machine) l.state)

  -- The grant of the turn, or the failure without an iteration that `_grant` returns.
  unfoldable pub granted :
      Machine H X
      → RunState
      → Result FailureCode CapabilityGrant
      → Result (Option (Exit H X)) CapabilityGrant
  granted m s (err code) = err (exit_with failed code none m s)
  granted m s (ok grant) = ok grant

  unfoldable pub turn_grant :
      RunRequest → Machine H X → RunState → Result (Option (Exit H X)) CapabilityGrant
  unfolding granted
  turn_grant request m s = granted m s (grant_for request m.world)

  abbrev pub frame_of : RunRequest → CapabilityGrant → ℕ → LoopState H X → WorkflowFrame
  frame_of request grant iteration l = record {
    iteration = iteration;
    observations = l.state.observations;
    available_tools = visible_tools request grant l.machine.world;
    workflow_state = l.workflow_state;
    tool_calls_used = l.state.tool_calls_used;
    elapsed_seconds = l.machine.world.now - l.state.started_at;
  }

module _ {H X P : Type 0} (o : Outside H X) (policy : ExecutionPolicy)
    (strategies : Strategies H X P) where
  -- The rendered prompt, if there is a prompt strategy.
  unfoldable pub render_result :
      ℕ
      → LoopState H X
      → World H X × Option P
      → Result (Option (Exit H X)) (LoopState H X × Option P)
  render_result iteration l (w, none) =
      err (exit_with failed prompt_error (some iteration) (on_world w l.machine) l.state)
  render_result iteration l (w, some p) = ok (record l { machine = on_world w l.machine }, some p)

  unfoldable pub render :
      RunRequest
      → ℕ
      → WorkflowFrame
      → LoopState H X
      → Option (RunRequest → WorkflowFrame → World H X → World H X × Option P)
      → Result (Option (Exit H X)) (LoopState H X × Option P)
  unfolding render_result
  render request iteration frame l none = ok (l, none)
  render request iteration frame l (some f) =
      render_result iteration l (f request frame l.machine.world)

  -- `resume is not None and iteration == first_iteration and …`
  unfoldable pub resume_matches : RunRequest → Bool → Option String → String → Bool
  resume_matches request first route_key digest = elim request.resume [
    | none ↦ true
    | some resume ↦
        not first || route_key == some resume.route_key && digest == resume.prompt_digest
  ]

  -- For how many iterations a checkpoint is due.
  abbrev due : RunRequest → ℕ → LoopState H X → Option ℕ
  due request iteration l =
      if nat_beq iteration 1 && not (is_some request.resume) then some 0 else l.checkpoint_pending

  -- What follows on a checkpoint, if one was due.
  unfoldable pub saved_loop :
      LoopState H X → Option (World H X × RunState) → Result (Option (Exit H X)) (LoopState H X)
  saved_loop l none = err none
  saved_loop l (some (w, s)) =
      ok (record l { machine = on_world w l.machine; state = s; checkpoint_pending = none })

  unfoldable pub save_due :
      RunRequest → Option String → String → Option ℕ → LoopState H X → Option (World H X × RunState)
  save_due request (some key) digest (some used) l =
      checkpoint o policy strategies.checkpoint_size request l.workflow_state digest key used
        l.machine.world l.state
  save_due request _ digest _ l = some (l.machine.world, l.state)

  -- The checkpoint of the turn, if one is due.
  unfoldable pub turn_checkpoint :
      RunRequest
      → ℕ
      → Option String
      → String
      → LoopState H X
      → Result (Option (Exit H X)) (LoopState H X)
  turn_checkpoint request iteration route_key digest l =
      saved_loop l (save_due request route_key digest (due request iteration l) l)

  -- The decision that a reflection strategy returns.
  unfoldable pub review_result :
      ℕ
      → LoopState H X
      → World H X × Option WorkflowDecision
      → Result (Option (Exit H X)) (LoopState H X × WorkflowDecision)
  review_result iteration l (w, none) =
      err (exit_with failed reflection_error (some iteration) (on_world w l.machine) l.state)
  review_result iteration l (w, some d) = ok (record l { machine = on_world w l.machine }, d)

  unfoldable pub review :
      RunRequest
      → ℕ
      → WorkflowFrame
      → WorkflowDecision
      → LoopState H X
      → Option (
          RunRequest
          → WorkflowFrame
          → WorkflowDecision
          → World H X
          → World H X × Option WorkflowDecision)
      → Result (Option (Exit H X)) (LoopState H X × WorkflowDecision)
  unfolding review_result
  review request iteration frame d l none = ok (l, d)
  review request iteration frame d l (some f) =
      review_result iteration l (f request frame d l.machine.world)

  -- What follows on the stream's decision.
  unfoldable pub reviewed :
      RunRequest
      → ℕ
      → WorkflowFrame
      → LoopState H X
      → Option WorkflowDecision
      → Result (Option (Exit H X)) (LoopState H X × WorkflowDecision)
  unfolding review
  reviewed request iteration frame l none =
      err (exit_with failed workflow_error (some iteration) l.machine l.state)
  reviewed request iteration frame l (some d) =
      review request iteration frame d l strategies.reflection

  -- The decision of the workflow, reviewed by the reflection strategy.
  unfoldable pub decide :
      RunRequest
      → ℕ
      → WorkflowFrame
      → Option P
      → LoopState H X
      → Result (Option (Exit H X)) (LoopState H X × WorkflowDecision)
  unfolding read_stream
  decide request iteration frame prompt l =
      let r = strategies.stream request frame prompt l.machine.world in
      reviewed request iteration frame (record l { machine = on_world r.0 l.machine })
        (read_stream none r.1.0 r.1.1)

  -- The prompt as the workflow gets it.
  unfoldable pub shown : Option P → ℕ → Option P
  shown none instant = none
  shown (some p) instant = some (strategies.with_environment p instant)

  -- What follows on the prompt, by the key of `resume_key`.
  unfoldable pub continue_turn :
      RunRequest
      → Bool
      → ℕ
      → WorkflowFrame
      → Option P
      → LoopState H X
      → Option (Option String)
      → Result (Option (Exit H X)) (LoopState H X × WorkflowDecision)
  continue_turn request first iteration frame prompt l none =
      err (exit_with failed workflow_error (some iteration) l.machine l.state)
  continue_turn request first iteration frame prompt l (some route_key) =
      let digest = strategies.prompt_digest request prompt in
      if resume_matches request first route_key digest
      then turn_checkpoint request iteration route_key digest l
        >>= decide request iteration frame (shown prompt l.state.started_at)
      else err (exit_with failed workflow_error (some iteration) l.machine l.state)

  -- The part of a turn up to its decision.
  unfoldable pub prepare :
      RunRequest
      → Bool
      → ℕ
      → LoopState H X
      → Result (Option (Exit H X)) (LoopState H X × WorkflowDecision)
  prepare request first iteration l = do
    l₁ ← charge_iteration iteration l
    grant ← turn_grant request l₁.machine l₁.state
    let frame = frame_of request grant iteration l₁
    (l₂, prompt) ← render request iteration frame l₁ strategies.prompt
    continue_turn request first iteration frame prompt l₂
        (strategies.resume_key request frame prompt)
