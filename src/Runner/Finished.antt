-- ===== src/Runner/Finished.antt =====
-- How a run ends, from an empty journal on.
use suite_harness.Base.{
  ℕ, zero, suc, ◌+◌, ◌≤◌, ◌≡◌, refl, ap, inl, inr, true, Option, none, some, [], ◌∷◌, arith, leb,
  nat_beq, Bool-cases, and-true, string_eq, Result, ok, err, Ends, Ends-bind,
}
use suite_harness.Runner.{RunRequest, Machine, Outside, World, emit}
use suite_harness.Runner.Policy.{ExecutionPolicy}
use suite_harness.Runner.Authorize.{grant_for}
use suite_harness.Runner.Strategies.{Strategies, LoopState, Exit}
use suite_harness.Runner.Results.{RunState, run_event}
use suite_harness.Runner.Turns.{turn_grant}
use suite_harness.Runner.Calls.{take_slots, turn}
use suite_harness.Runner.Clearance.{starts}
use suite_harness.Runner.Protocol.{idle, phase}
use suite_harness.Base.{Result-cases}
use suite_harness.Grants.Model.{CapabilityGrant}
use suite_harness.Base.Json.{null}
use suite_harness.Runner.{RunResumeState, RunFailure, run_started, no_data}
use suite_harness.Runner.Resumption.{valid_resume, resume_fits}
use suite_harness.Runner.Results.{RunResult, result_of, finish}
use suite_harness.Base.{ltb}
use suite_harness.Runner.Loop.{
  initial_state, finish_result, close, charge_inherited, iterate, inherit, take_over, begin_within,
  run_from, begin, run_iterations, run_loop,
}
use suite_harness.Runner.Policy.{budget_policy_failure}
use suite_harness.Runner.Protocol.{over}
use suite_harness.Runner.Invariant.{IsSound, SoundExit, SoundLoop}
use suite_harness.Runner.Calm.{IsCalm}
use suite_harness.Runner.Sound.{granted-Sound, turn-Sound}

module _ {H X P : Type 0} (o : Outside H X) (policy : ExecutionPolicy)
    (strategies : Strategies H X P) (ttl : ℕ) (resume_size : RunResumeState → ℕ)
    (request : RunRequest) (C : Type 0) (calm : C → IsCalm o strategies) where
  iterate-Sound :
      (first left iteration : ℕ) (l : LoopState H X)
      → iteration + left ≤ suc request.budget.max_iterations
      → SoundLoop C request.budget l
      → SoundExit C request.budget
          (iterate o policy strategies ttl resume_size request first left iteration l)
  unfolding iterate
  iterate-Sound first zero iteration l le h = h
  iterate-Sound first (suc left) iteration l le h =
      elim (Result-cases (turn o policy strategies request (nat_beq iteration first) iteration l)) [
        | inl (l', e) ↦
            let t =
              turn-Sound o policy strategies request C calm (nat_beq iteration first) iteration l
                (omega arith) h in
            rw (e, iterate)
              (iterate-Sound first left (iteration + 1) l' (omega arith) (rw (e, Ends) at t))
        | inr (x, e) ↦
            let t =
              turn-Sound o policy strategies request C calm (nat_beq iteration first) iteration l
                (omega arith) h in
            rw (e, iterate) (rw (e, Ends) at t)
      ]

  resume_fits-bounds :
      (resume : RunResumeState)
      → resume_fits request resume ≡ true
      → (resume.iterations_used ≤ request.budget.max_iterations)
        × (resume.tool_calls_used ≤ request.budget.max_tool_calls)
  unfolding resume_fits
  resume_fits-bounds resume h = (ground (arith, h), ground (arith, h))

  valid_resume-bounds :
      (resume : RunResumeState) (size : ℕ) (grant : CapabilityGrant) (w : World H X)
      → valid_resume o policy ttl request resume size grant w ≡ true
      → (resume.iterations_used ≤ request.budget.max_iterations)
        × (resume.tool_calls_used ≤ request.budget.max_tool_calls)
  unfolding valid_resume
  valid_resume-bounds resume size grant w h =
      let fits : resume_fits request resume ≡ true = (and-true _ _ (and-true _ _ h).0).0 in
      resume_fits-bounds resume fits

  inherit-Sound :
      (resume : RunResumeState) (grant : CapabilityGrant) (m : Machine H X) (s : RunState)
      → phase m.journal ≡ some idle
      → starts m.journal ≡ 0
      → s.iterations_used ≡ 0
      → s.tool_calls_used ≡ 0
      → (C → s.started_at ≤ m.world.now)
      → Ends
          (SoundExit C request.budget)
          (SoundLoop C request.budget)
          (inherit o policy strategies ttl resume_size request resume grant m s)
  unfolding inherit
  inherit-Sound resume grant m s p z i c t =
      let w = m.world in
      let early : (m' : Machine H X)
          → m'.journal ≡ m.journal
          → IsSound C request.budget m'.journal s.iterations_used s.tool_calls_used s.started_at
              m.world.now =
        λ m' e. record {
          between = rw e p;
          started = omega (arith, ap starts e, z);
          calls_bound = omega (arith, c);
          iterations_bound = omega (arith, i);
          on_time = t;
        } in
      elim (Bool-cases (valid_resume o policy ttl request resume (resume_size resume) grant w)) [
        | inr e ↦ rw (e, Ends) (early m refl)
        | inl e ↦
            let b = valid_resume-bounds resume (resume_size resume) grant w e in
            let charged = charge_inherited resume.iterations_used w.now w.pool in
            let slots = take_slots w.now resume.tool_calls_used charged.0 in
            let taken : IsSound C request.budget m.journal resume.iterations_used
                resume.tool_calls_used s.started_at w.now =
              record {
                between = p;
                started = omega (arith, z);
                calls_bound = b.1;
                iterations_bound = b.0;
                on_time = t;
              } in
            elim (Bool-cases charged.1) [
              | inr f ↦ rw (e, f, Ends) taken
              | inl f ↦ elim (Bool-cases (nat_beq slots.1 resume.tool_calls_used)) [
                | inr g ↦ rw (e, f, g, Ends) taken
                | inl g ↦ rw (e, f, g, Ends) taken
              ]
            ]
      ]

  begin-Sound :
      (m : Machine H X) (s : RunState)
      → phase m.journal ≡ some idle
      → starts m.journal ≡ 0
      → s.iterations_used ≡ 0
      → s.tool_calls_used ≡ 0
      → (C → s.started_at ≤ m.world.now)
      → Ends
          (SoundExit C request.budget)
          (SoundLoop C request.budget)
          (begin o policy strategies ttl resume_size request m s)
  unfolding begin begin_within take_over turn_grant
  begin-Sound m s p z i c t = by_budget (budget_policy_failure policy request.budget)
    where
      sound :
          IsSound C request.budget m.journal s.iterations_used s.tool_calls_used s.started_at
            m.world.now
      sound = record {
        between = p;
        started = omega (arith, z);
        calls_bound = omega (arith, c);
        iterations_bound = omega (arith, i);
        on_time = t;
      }

      initial : LoopState H X
      initial = record {
        machine = m;
        state = s;
        workflow_state = null;
        checkpoint_safe = true;
        checkpoint_pending = none;
      }

      over_from :
          (grant : CapabilityGrant) (r : Option RunResumeState)
          → Ends
              (SoundExit C request.budget)
              (SoundLoop C request.budget)
              (take_over o policy strategies ttl resume_size request grant m s r)
      over_from grant none = sound
      over_from grant (some resume) = inherit-Sound resume grant m s p z i c t

      by_budget :
          (f : Option RunFailure)
          → Ends
              (SoundExit C request.budget)
              (SoundLoop C request.budget)
              (begin_within o policy strategies ttl resume_size request m s f)
      by_budget (some failure) = sound
      by_budget none =
          elim (Bool-cases (leb (o.payload_size request.input) policy.max_run_input_bytes)) [
            | inr e ↦ rw (e, Ends) sound
            | inl e ↦
                rw (e, Ends)
                  (Ends-bind (SoundExit C request.budget)
                    (λ (g : CapabilityGrant). SoundLoop C request.budget initial)
                    (SoundLoop C request.budget) _ _
                    (granted-Sound o policy strategies request C calm initial
                      (grant_for request m.world) sound)
                    (λ grant h. over_from grant request.resume))
          ]

  run_from-Sound :
      (r : Result (Option (Exit H X)) (LoopState H X))
      → Ends (SoundExit C request.budget) (SoundLoop C request.budget) r
      → SoundExit C request.budget (run_from o policy strategies ttl resume_size request r)
  unfolding run_from run_iterations
  run_from-Sound (err e) h = h
  run_from-Sound (ok l) h =
      iterate-Sound (l.state.iterations_used + 1) _ _ l (omega (arith, h.iterations_bound)) h

-- How a run that gives a result has ended.
pub record IsFinished {H X : Type 0} (request : RunRequest) (m' : Machine H X) (r : RunResult)
    : Type 0 where
  pub finished : phase m'.journal ≡ some over
  pub no_more_started : starts m'.journal ≤ r.tool_calls_used
  pub calls_within : r.tool_calls_used ≤ request.budget.max_tool_calls
  pub iterations_within : r.iterations_used ≤ request.budget.max_iterations

-- What a run comes to: it ends, or an exception escapes it, which happens only if something from
-- outside is not calm.
pub data Outcome {H X P : Type 0} (o : Outside H X) (strategies : Strategies H X P)
    (request : RunRequest) : Option (Machine H X × RunResult) → Type 0 where
  ends :
      (m' : Machine H X) (r : RunResult)
      → IsFinished request m' r
      → Outcome o strategies request (some (m', r))
  escapes : ¬ IsCalm o strategies → Outcome o strategies request none

module _ {H X P : Type 0} (o : Outside H X) (policy : ExecutionPolicy)
    (strategies : Strategies H X P) (ttl : ℕ) (resume_size : RunResumeState → ℕ)
    (request : RunRequest) where
  close-Outcome :
      (e : Option (Exit H X))
      → SoundExit (IsCalm o strategies) request.budget e
      → Outcome o strategies request (close request e)
  unfolding close finish_result result_of finish emit
  close-Outcome none h = escapes h
  close-Outcome (some e) h = elim (Bool-cases (ltb e.machine.world.now e.state.started_at)) [
    | inl f ↦ rw f (escapes (λ c. absurd (ground (arith, f, h.on_time c))))
    | inr f ↦ rw f (
        ends _ _ (record {
          finished = ground (arith, h.between);
          no_more_started = omega (arith, h.started);
          calls_within = h.calls_bound;
          iterations_within = h.iterations_bound;
        }))
  ]

  -- A run with one call at a time that begins with an empty journal ends with `RUN_FINISHED`, unless
  -- an exception escapes it, which takes a publication that is refused, a validator that breaks, a
  -- route key out of bounds or a clock that goes back. Where it ends, its events keep the protocol,
  -- it started no more calls than it counts, and neither its calls nor its iterations exceed its
  -- budget, with what a resumed run inherits.
  pub run_loop-Outcome :
      (m : Machine H X)
      → request.budget.max_parallel_calls ≡ 1
      → m.journal ≡ []
      → Outcome o strategies request (run_loop o policy strategies ttl resume_size request m)
  unfolding run_loop emit
  run_loop-Outcome m serial e =
      let m₁ : Machine H X = record m { journal = run_event run_started no_data ∷ m.journal } in
      let s = initial_state m.world.now in
      close-Outcome _ (
        run_from-Sound o policy strategies ttl resume_size request (IsCalm o strategies) (λ c. c)
          (begin o policy strategies ttl resume_size request m₁ s)
          (begin-Sound o policy strategies ttl resume_size request (IsCalm o strategies) (λ c. c) m₁
            s (rw e refl) (rw e refl) refl refl (λ c. omega arith)))
