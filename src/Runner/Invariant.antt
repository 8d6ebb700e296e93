-- ===== src/Runner/Invariant.antt =====
-- What holds of a run at every turn and at its end: the protocol of its audit events, and the bounds
-- of its counters.
use suite_harness.Base.{
  ℕ, suc, ◌+◌, ◌-◌, ◌≤◌, min, String, ◌≡◌, refl, ap, inl, inr, Option, none, some, List, [], ◌∷◌,
  arith, leb, ltb, length, take, drop, length-take, Bool-cases, string_eq, Ends, Ends-bind,
}
use suite_harness.Base.Json.{Json}
use suite_harness.Base.KeySet.{add}
use suite_harness.Budget.{take_tool_slots, remaining_seconds, nonnegative, Budget}
use suite_harness.Runner.{
  Machine, ToolIntent, ToolObservation, strategy_decision, decided, RunRequest, ExecutionBudget,
  AuditEvent, Outside, emit,
}
use suite_harness.Runner.Policy.{ExecutionPolicy}
use suite_harness.Runner.Strategies.{
  WorkflowDecision, final, tools, intents_of, kind_text, state_in, LoopState, Exit, on_pool,
}
use suite_harness.Runner.Results.{run_event}
use suite_harness.Runner.Calls.{
  flag_duplicates, take_slots, accept_decision, final_exit, settle_batch, finish_batch, call_tools,
  follow, act,
}
use suite_harness.Runner.Clearance.{starts}
use suite_harness.Runner.Calm.{IsCalmOutside}
use suite_harness.Runner.Protocol.{
  idle, phase, EndsBetween, execute_batch-EndsBetween, refuse_overflow_lem,
}

-- Between two calls of a run: its events keep the protocol, no more calls were started than it
-- counts, its counters are within its budget, and under `C` the clock has not gone back.
pub record IsSound (C : Type 0) (budget : ExecutionBudget) (journal : List AuditEvent)
    (iterations calls start now : ℕ) : Type 0 where
  pub between : phase journal ≡ some idle
  pub started : starts journal ≤ calls
  pub calls_bound : calls ≤ budget.max_tool_calls
  pub iterations_bound : iterations ≤ budget.max_iterations
  pub on_time : C → start ≤ now

module _ {H X : Type 0} (C : Type 0) (budget : ExecutionBudget) where
  -- Under `C` no exception escapes.
  abbrev pub SoundExit : Option (Exit H X) → Type 0
  SoundExit none = ¬ C
  SoundExit (some e) =
      IsSound C budget e.machine.journal e.state.iterations_used e.state.tool_calls_used
        e.state.started_at e.machine.world.now

  abbrev pub SoundLoop : LoopState H X → Type 0
  SoundLoop l =
      IsSound C budget l.machine.journal l.state.iterations_used l.state.tool_calls_used
        l.state.started_at l.machine.world.now

flag_duplicates-length :
    (intents : List ToolIntent) (ids : List String)
    → length (flag_duplicates intents ids).0 ≡ length intents
unfolding flag_duplicates
flag_duplicates-length [] ids = refl
flag_duplicates-length (i ∷ is) ids = ap suc (flag_duplicates-length is (add i.call_id ids))

pub take_slots_le :
    (now requested : ℕ) (pool : Budget) → (take_slots now requested pool).1 ≤ requested
unfolding take_slots take_tool_slots remaining_seconds nonnegative
take_slots_le now requested pool = ground arith

module _ {H X : Type 0} (o : Outside H X) (policy : ExecutionPolicy) (request : RunRequest)
    (C : Type 0) (calm : C → IsCalmOutside o) where
  settle_batch-Sound :
      (iteration : ℕ) (permitted overflow : List ToolIntent) (observations : List ToolObservation)
      (l : LoopState H X)
      → SoundLoop C request.budget l
      → Ends
          (SoundExit C request.budget)
          (SoundLoop C request.budget)
          (settle_batch request iteration permitted overflow observations l)
  unfolding settle_batch
  settle_batch-Sound iteration permitted [] observations l h = record {
    between = h.between;
    started = h.started;
    calls_bound = h.calls_bound;
    iterations_bound = h.iterations_bound;
    on_time = h.on_time;
  }
  settle_batch-Sound iteration permitted (i ∷ is) observations l h =
      let r = refuse_overflow_lem request (i ∷ is) iteration l.machine h.between in
      record {
        between = r.0;
        started = omega (arith, r.1, h.started);
        calls_bound = h.calls_bound;
        iterations_bound = h.iterations_bound;
        on_time = λ c. omega (arith, h.on_time c, r.2);
      }

  finish_batch-Sound :
      (iteration : ℕ) (permitted overflow : List ToolIntent) (l : LoopState H X) (m : Machine H X)
      (r : Option (Machine H X × List ToolObservation)) (n : ℕ)
      → EndsBetween C n m r
      → starts m.journal + n ≤ l.state.tool_calls_used
      → l.state.tool_calls_used ≤ request.budget.max_tool_calls
      → l.state.iterations_used ≤ request.budget.max_iterations
      → (C → l.state.started_at ≤ m.world.now)
      → Ends
          (SoundExit C request.budget)
          (SoundLoop C request.budget)
          (finish_batch request iteration permitted overflow l r)
  unfolding finish_batch
  finish_batch-Sound iteration permitted overflow l m none n b s c i t = b
  finish_batch-Sound iteration permitted overflow l m (some (m', xs)) n b s c i t =
      settle_batch-Sound iteration permitted overflow xs _ (record {
        between = b.idle_after;
        started = omega (arith, b.few_starts, s);
        calls_bound = c;
        iterations_bound = i;
        on_time = λ x. omega (arith, t x, b.later x);
      })

  call_tools-Sound :
      (iteration : ℕ) (intents : List ToolIntent) (l : LoopState H X)
      → SoundLoop C request.budget l
      → Ends
          (SoundExit C request.budget)
          (SoundLoop C request.budget)
          (call_tools o policy request iteration intents l)
  unfolding call_tools
  call_tools-Sound iteration intents l h =
      let used = l.state.tool_calls_used in
      let wanted = min (request.budget.max_tool_calls - used) (length intents) in
      let slots = take_slots l.machine.world.now wanted l.machine.world.pool in
      let fits = take_slots_le l.machine.world.now wanted l.machine.world.pool in
      let permitted = take slots.1 intents in
      let flags = flag_duplicates permitted l.state.call_ids in
      let many = flag_duplicates-length permitted l.state.call_ids in
      let taken = length-take slots.1 intents in
      let b =
        execute_batch-EndsBetween o policy request C calm flags.0 iteration l.state.started_at
          (on_pool slots.0 l.machine) h.between in
      finish_batch-Sound iteration permitted (drop slots.1 intents) _ (on_pool slots.0 l.machine) _
        (length flags.0) b (omega (arith, many, h.started))
        (omega (arith, taken, fits, h.calls_bound)) h.iterations_bound h.on_time

  final_exit-Sound :
      (iteration : ℕ) (output : Json) (l : LoopState H X)
      → SoundLoop C request.budget l
      → SoundExit C request.budget (final_exit o policy iteration output l)
  unfolding final_exit
  final_exit-Sound iteration output l h =
      elim (Bool-cases (ltb policy.max_final_output_bytes (o.payload_size output))) [
        | inl e ↦ rw e h
        | inr e ↦ rw e h
      ]

  accept_decision-Sound :
      (iteration : ℕ) (d : WorkflowDecision) (l : LoopState H X)
      → SoundLoop C request.budget l
      → Ends
          (SoundExit C request.budget)
          (SoundLoop C request.budget)
          (accept_decision o policy iteration d l)
  unfolding accept_decision emit
  accept_decision-Sound iteration d l h =
      let h' : IsSound C request.budget
          (run_event strategy_decision (decided (kind_text d) (length (intents_of d)))
            ∷ l.machine.journal)
          l.state.iterations_used l.state.tool_calls_used l.state.started_at l.machine.world.now =
        record {
          between = ground (arith, h.between);
          started = omega (arith, h.started);
          calls_bound = h.calls_bound;
          iterations_bound = h.iterations_bound;
          on_time = h.on_time;
        } in
      elim (Bool-cases (leb (o.payload_size (state_in d)) policy.max_workflow_state_bytes)) [
        | inl e ↦ rw (e, Ends) h'
        | inr e ↦ rw (e, Ends) h'
      ]

  follow-Sound :
      (iteration : ℕ) (d : WorkflowDecision) (l : LoopState H X)
      → SoundLoop C request.budget l
      → Ends
          (SoundExit C request.budget)
          (SoundLoop C request.budget)
          (follow o policy request iteration d l)
  unfolding follow
  follow-Sound iteration (final output state) l h = final_exit-Sound iteration output l h
  follow-Sound iteration (tools i is state) l h = call_tools-Sound iteration (i ∷ is) l h

  pub act-Sound :
      (iteration : ℕ) (d : WorkflowDecision) (l : LoopState H X)
      → SoundLoop C request.budget l
      → Ends
          (SoundExit C request.budget)
          (SoundLoop C request.budget)
          (act o policy request iteration d l)
  unfolding act
  act-Sound iteration d l h =
      Ends-bind (SoundExit C request.budget) (SoundLoop C request.budget)
        (SoundLoop C request.budget) _ _ (accept_decision-Sound iteration d l h)
        (λ l' h'. follow-Sound iteration d l' h')
