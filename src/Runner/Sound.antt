-- ===== src/Runner/Sound.antt =====
-- A turn of the run loop keeps the invariant.
use suite_harness.Base.{
  ℕ, ◌≤◌, String, ◌≡◌, inl, inr, Bool, Option, none, some, arith, Bool-cases, string_eq, Result, ok,
  err, Ends, Ends-bind,
}
use suite_harness.Base.Json.{Json}
use suite_harness.Budget.{take_iteration}
use suite_harness.Runner.{RunRequest, Outside, World}
use suite_harness.Runner.Policy.{ExecutionPolicy}
use suite_harness.Runner.Authorize.{grant_for}
use suite_harness.Runner.Strategies.{WorkflowDecision, Strategies, LoopState}
use suite_harness.Runner.Results.{RunState, WorkflowFrame}
use suite_harness.Runner.Turns.{
  shown, charge_iteration, granted, turn_grant, frame_of, render_result, render, resume_matches,
  saved_loop, save_due, turn_checkpoint, review_result, review, reviewed, decide, continue_turn,
  prepare,
}
use suite_harness.Runner.Calls.{turn}
use suite_harness.Grants.Model.{CapabilityGrant}
use suite_harness.Runner.{RunResumeState, FailureCode, of_checkpoint}
use suite_harness.Runner.Results.{resume_state, publish_checkpoint, checkpoint}
use suite_harness.Base.{refl, true, leb, ltb, length, not, ◌&&◌, ◌||◌}
use suite_harness.Base.Names.{codes}
use suite_harness.Runner.Observations.{contains_run_credentials}
use suite_harness.Runner.Resumption.{checkpoint_limit}
use suite_harness.Runner.Calm.{IsCalmOutside, KeyFits, IsCalm}
use suite_harness.Runner.Strategies.{on_world}
use suite_harness.Runner.Invariant.{SoundExit, SoundLoop, act-Sound}

-- A checkpoint leaves the counters alone, and under `C` it neither raises nor sets the clock back.
abbrev KeepsCounters :
    {H X : Type 0} → Type 0 → World H X → RunState → Option (World H X × RunState) → Type 0
KeepsCounters C w s none = ¬ C
KeepsCounters C w s (some (w', s')) =
    (s'.iterations_used ≡ s.iterations_used)
    × (s'.tool_calls_used ≡ s.tool_calls_used)
    × (s'.started_at ≡ s.started_at)
    × (C → w.now ≤ w'.now)

module _ {H X : Type 0} (o : Outside H X) (policy : ExecutionPolicy)
    (size : RunRequest → RunResumeState → ℕ) (C : Type 0) (calm : C → IsCalmOutside o) where
  publish_checkpoint-KeepsCounters :
      (resume : RunResumeState) (w : World H X) (s : RunState)
      → KeepsCounters C w s (publish_checkpoint o policy size resume w s)
  unfolding publish_checkpoint
  publish_checkpoint-KeepsCounters resume w s =
      elim (Bool-cases (o.publish (of_checkpoint resume) w).1) [
        | inl e ↦
            rw (e, KeepsCounters)
              (refl, refl, refl, λ c. (calm c).publish_clock (of_checkpoint resume) w)
        | inr e ↦
            rw (e, KeepsCounters)
              (λ c. ground (arith, e, (calm c).publishes (of_checkpoint resume) w))
      ]

  checkpoint-KeepsCounters :
      (request : RunRequest) (workflow_state : Json) (digest key : String) (used : ℕ)
      (w : World H X) (s : RunState)
      → (C → (leb 1 (length (codes key)) ≡ true) × (leb (length (codes key)) 4096 ≡ true))
      → KeepsCounters C w s (checkpoint o policy size request workflow_state digest key used w s)
  unfolding checkpoint
  checkpoint-KeepsCounters request workflow_state digest key used w s fits =
      let resume = resume_state request s workflow_state digest key used in
      elim (Bool-cases (
        ltb 1024 (length s.observations)
        || ltb 1024 (length s.call_ids)
        || contains_run_credentials workflow_state)) [
          | inl e ↦ rw (e, KeepsCounters) (refl, refl, refl, λ c. omega arith)
          | inr e ↦
              elim (Bool-cases
                (not (leb 1 (length (codes key)) && leb (length (codes key)) 4096))) [
                  | inl f ↦
                      rw (e, f, KeepsCounters) (λ c. ground (arith, f, (fits c).0, (fits c).1))
                  | inr f ↦
                      elim (Bool-cases (leb (size request resume) (checkpoint_limit policy))) [
                        | inl g ↦
                            rw (e, f, g, KeepsCounters)
                              (publish_checkpoint-KeepsCounters resume w s)
                        | inr g ↦ rw (e, f, g, KeepsCounters) (refl, refl, refl, λ c. omega arith)
                      ]
                ]
        ]

module _ {H X P : Type 0} (o : Outside H X) (policy : ExecutionPolicy)
    (strategies : Strategies H X P) (request : RunRequest) (C : Type 0)
    (calm : C → IsCalm o strategies) where
  abbrev SoundPair : {A : Type 0} → LoopState H X × A → Type 0
  SoundPair x = SoundLoop C request.budget x.0

  charge_iteration-Sound :
      (iteration : ℕ) (l : LoopState H X)
      → iteration ≤ request.budget.max_iterations
      → SoundLoop C request.budget l
      → Ends
          (SoundExit C request.budget)
          (SoundLoop C request.budget)
          (charge_iteration iteration l)
  unfolding charge_iteration
  charge_iteration-Sound iteration l le h =
      elim (Bool-cases (take_iteration l.machine.world.now l.machine.world.pool).1) [
        | inl e ↦ rw e (record {
          between = h.between;
          started = h.started;
          calls_bound = h.calls_bound;
          iterations_bound = le;
          on_time = h.on_time;
        })
        | inr e ↦ rw e h
      ]

  pub granted-Sound :
      (l : LoopState H X) (r : Result FailureCode CapabilityGrant)
      → SoundLoop C request.budget l
      → Ends
          (SoundExit C request.budget)
          (λ (g : CapabilityGrant). SoundLoop C request.budget l)
          (granted l.machine l.state r)
  unfolding granted
  granted-Sound l (err code) h = h
  granted-Sound l (ok grant) h = h

  moved :
      (l : LoopState H X) (w : World H X)
      → SoundLoop C request.budget l
      → (C → l.machine.world.now ≤ w.now)
      → SoundLoop C request.budget (record l { machine = on_world w l.machine })
  moved l w h later = record {
    between = h.between;
    started = h.started;
    calls_bound = h.calls_bound;
    iterations_bound = h.iterations_bound;
    on_time = λ c. omega (arith, h.on_time c, later c);
  }

  render-Sound :
      (iteration : ℕ) (frame : WorkflowFrame) (l : LoopState H X)
      (p : Option (RunRequest → WorkflowFrame → World H X → World H X × Option P))
      → strategies.prompt ≡ p
      → SoundLoop C request.budget l
      → Ends
          (SoundExit C request.budget)
          SoundPair
          (render o policy strategies request iteration frame l p)
  unfolding render render_result
  render-Sound iteration frame l none is h = h
  render-Sound iteration frame l (some f) is h = rendered (f request frame l.machine.world) (
      moved l (f request frame l.machine.world).0 h
        (λ c. (calm c).prompt_clock f is request frame l.machine.world))
    where
      rendered :
          (r : World H X × Option P)
          → SoundLoop C request.budget (record l { machine = on_world r.0 l.machine })
          → Ends
              (SoundExit C request.budget)
              SoundPair
              (render_result o policy strategies iteration l r)
      rendered (w, none) h' = h'
      rendered (w, some p) h' = h'

  save_due-KeepsCounters :
      (key : Option String) (digest : String) (due : Option ℕ) (l : LoopState H X)
      → (C → KeyFits key)
      → KeepsCounters C l.machine.world l.state
          (save_due o policy strategies request key digest due l)
  unfolding save_due
  save_due-KeepsCounters (some key) digest (some used) l fits =
      checkpoint-KeepsCounters o policy strategies.checkpoint_size C (λ c. (calm c).outside) request
        l.workflow_state digest key used l.machine.world l.state fits
  save_due-KeepsCounters none digest (some used) l fits = (refl, refl, refl, λ c. omega arith)
  save_due-KeepsCounters none digest none l fits = (refl, refl, refl, λ c. omega arith)
  save_due-KeepsCounters (some key) digest none l fits = (refl, refl, refl, λ c. omega arith)

  saved_loop-Sound :
      (l : LoopState H X) (r : Option (World H X × RunState))
      → SoundLoop C request.budget l
      → KeepsCounters C l.machine.world l.state r
      → Ends
          (SoundExit C request.budget)
          (SoundLoop C request.budget)
          (saved_loop o policy strategies l r)
  unfolding saved_loop
  saved_loop-Sound l none h c = c
  saved_loop-Sound l (some (w, s)) h c = record {
    between = h.between;
    started = omega (arith, h.started, c.1);
    calls_bound = omega (arith, h.calls_bound, c.1);
    iterations_bound = omega (arith, h.iterations_bound, c.0);
    on_time = λ x. omega (arith, h.on_time x, c.2, c.3 x);
  }

  reviewed-Sound :
      (iteration : ℕ) (frame : WorkflowFrame) (l : LoopState H X) (d : Option WorkflowDecision)
      → SoundLoop C request.budget l
      → Ends
          (SoundExit C request.budget)
          SoundPair
          (reviewed o policy strategies request iteration frame l d)
  unfolding reviewed review review_result
  reviewed-Sound iteration frame l none h = h
  reviewed-Sound iteration frame l (some d) h = by_strategy strategies.reflection refl
    where
      returned :
          (r : World H X × Option WorkflowDecision)
          → SoundLoop C request.budget (record l { machine = on_world r.0 l.machine })
          → Ends
              (SoundExit C request.budget)
              SoundPair
              (review_result o policy strategies iteration l r)
      returned (w, none) h' = h'
      returned (w, some d) h' = h'

      by_strategy :
          (s : Option (
            RunRequest
            → WorkflowFrame
            → WorkflowDecision
            → World H X
            → World H X × Option WorkflowDecision))
          → strategies.reflection ≡ s
          → Ends
              (SoundExit C request.budget)
              SoundPair
              (review o policy strategies request iteration frame d l s)
      by_strategy none is = h
      by_strategy (some f) is = returned (f request frame d l.machine.world) (
          moved l (f request frame d l.machine.world).0 h
            (λ c. (calm c).reflection_clock f is request frame d l.machine.world))

  continue_turn-Sound :
      (first : Bool) (iteration : ℕ) (frame : WorkflowFrame) (prompt : Option P) (l : LoopState H X)
      (key : Option (Option String))
      → (C → (k : Option String) → key ≡ some k → KeyFits k)
      → SoundLoop C request.budget l
      → Ends
          (SoundExit C request.budget)
          SoundPair
          (continue_turn o policy strategies request first iteration frame prompt l key)
  unfolding continue_turn decide turn_checkpoint
  continue_turn-Sound first iteration frame prompt l none fits h = h
  continue_turn-Sound first iteration frame prompt l (some key) fits h =
      elim (Bool-cases (
        resume_matches o policy strategies request first key
          (strategies.prompt_digest request prompt))) [
            | inr e ↦ rw (e, Ends) h
            | inl e ↦
                rw (e, Ends)
                  (Ends-bind (SoundExit C request.budget) (SoundLoop C request.budget) SoundPair _ _
                    (saved_loop-Sound l _ h (
                      save_due-KeepsCounters key (strategies.prompt_digest request prompt) _ l
                        (λ c. fits c key refl)))
                    (λ l' h'. reviewed-Sound iteration frame _ _ (
                      moved l'
                        (strategies.stream request frame
                          (shown o policy strategies prompt l.state.started_at) l'.machine.world).0
                        h'
                        (λ c.
                          (calm c).stream_clock request frame
                            (shown o policy strategies prompt l.state.started_at)
                            l'.machine.world))))
          ]

  prepare-Sound :
      (first : Bool) (iteration : ℕ) (l : LoopState H X)
      → iteration ≤ request.budget.max_iterations
      → SoundLoop C request.budget l
      → Ends
          (SoundExit C request.budget)
          SoundPair
          (prepare o policy strategies request first iteration l)
  unfolding prepare turn_grant
  prepare-Sound first iteration l le h =
      Ends-bind (SoundExit C request.budget) (SoundLoop C request.budget) SoundPair _ _
        (charge_iteration-Sound iteration l le h)
        (λ l₁ h₁.
          Ends-bind (SoundExit C request.budget)
            (λ (g : CapabilityGrant). SoundLoop C request.budget l₁) SoundPair _ _
            (granted-Sound l₁ (grant_for request l₁.machine.world) h₁)
            (λ grant h₁'.
              Ends-bind (SoundExit C request.budget) SoundPair SoundPair _ _
                (render-Sound iteration (frame_of request grant iteration l₁) l₁ strategies.prompt
                  refl h₁')
                (λ x h₂.
                  continue_turn-Sound first iteration (frame_of request grant iteration l₁) x.1 x.0
                    _ (λ c. (calm c).keys request _ x.1) h₂)))

  pub turn-Sound :
      (first : Bool) (iteration : ℕ) (l : LoopState H X)
      → iteration ≤ request.budget.max_iterations
      → SoundLoop C request.budget l
      → Ends
          (SoundExit C request.budget)
          (SoundLoop C request.budget)
          (turn o policy strategies request first iteration l)
  unfolding turn
  turn-Sound first iteration l le h =
      Ends-bind (SoundExit C request.budget) SoundPair (SoundLoop C request.budget) _ _
        (prepare-Sound first iteration l le h)
        (λ x h'. act-Sound o policy request C (λ c. (calm c).outside) iteration x.1 x.0 h')
