-- ===== src/Runner/Calm.antt =====
-- What keeps exceptions from escaping a call: nothing that is given from outside raises where it is
-- not caught, and no clock goes back. Then every call has an observation.
use suite_harness.Base.{
  ℕ, ◌≤◌, String, ◌≡◌, refl, inl, inr, Bool, true, Option, none, some, arith, is_some, leb, ltb,
  length, Bool-cases, Option-cases, Result-cases, Result, ok, err,
}
use suite_harness.Base.Json.{Json, Fields}
use suite_harness.Tools.{ToolIdentity, ToolSpec}
use suite_harness.Approvals.{ApprovalTarget, ApprovalBinding}
use suite_harness.Scopes.{RequestScope}
use suite_harness.Sessions.Payloads.{is_canonical}
use suite_harness.Runner.{
  FailureCode, broken, Stop, failing, escaping, Published, ToolIntent, ToolObservation, RunRequest,
  ToolCallContext, World, Machine, Outside, HandlerOutcome, returned, returned_other, refused,
  raised_value, raised_other, of_start, emit, policy_denied, tool_result_too_large,
  invalid_tool_result, tool_error,
}
use suite_harness.Runner.Policy.{ExecutionPolicy}
use suite_harness.Runner.Authorize.{
  Admitted, registered, grant_for, or_stop, check_arguments, admit_tool, admit, needs_approval,
  target_of, approve,
}
use suite_harness.Runner.Observations.{observed, deny, tool_failure}
use suite_harness.Runner.Outcomes.{
  stores_result, kept_result, finish_kept, finish_call, conclude_call,
}
use suite_harness.Base.Names.{codes}
use suite_harness.Runner.Results.{WorkflowFrame}
use suite_harness.Runner.Strategies.{WorkflowDecision, Strategies}
use suite_harness.Runner.Intents.{
  handle_call, start_call, execute_approved, execute_admitted, execute_intent,
}

pub record IsCalmOutside {H X : Type 0} (o : Outside H X) : Type 0 where
  pub publishes : (p : Published) (w : World H X) → (o.publish p w).1 ≡ true
  pub publish_clock : (p : Published) (w : World H X) → w.now ≤ (o.publish p w).0.now
  pub validates : (schema : Json) (fs : Fields) → ¬ (o.validate schema fs ≡ broken)
  pub ask_clock :
      (ask : RunRequest
        → ApprovalTarget
        → ToolSpec
        → Fields
        → World H X
        → World H X × Option ApprovalBinding)
      → o.interactive_approvals ≡ some ask
      → (r : RunRequest) (t : ApprovalTarget) (spec : ToolSpec) (fs : Fields) (w : World H X)
      → w.now ≤ (ask r t spec fs w).0.now
  pub handle_clock :
      (h : H) (c : ToolCallContext) (fs : Fields) (w : World H X)
      → w.now ≤ (o.handle h c fs w).0.now
  pub put_clock :
      (put : RequestScope → String → Json → World H X → World H X × Option String)
      → o.tool_results ≡ some put
      → (s : RequestScope) (run_id : String) (v : Json) (w : World H X)
      → w.now ≤ (put s run_id v w).0.now

-- A route key that a checkpoint takes; without one nothing is saved.
abbrev pub KeyFits : Option String → Type 0
KeyFits none = Unit {0}
KeyFits (some key) = (leb 1 (length (codes key)) ≡ true) × (leb (length (codes key)) 4096 ≡ true)

pub record IsCalm {H X P : Type 0} (o : Outside H X) (strategies : Strategies H X P) : Type 0 where
  pub outside : IsCalmOutside o
  pub prompt_clock :
      (f : RunRequest → WorkflowFrame → World H X → World H X × Option P)
      → strategies.prompt ≡ some f
      → (r : RunRequest) (frame : WorkflowFrame) (w : World H X) → w.now ≤ (f r frame w).0.now
  pub stream_clock :
      (r : RunRequest) (frame : WorkflowFrame) (p : Option P) (w : World H X)
      → w.now ≤ (strategies.stream r frame p w).0.now
  pub reflection_clock :
      (f : RunRequest
        → WorkflowFrame
        → WorkflowDecision
        → World H X
        → World H X × Option WorkflowDecision)
      → strategies.reflection ≡ some f
      → (r : RunRequest) (frame : WorkflowFrame) (d : WorkflowDecision) (w : World H X)
      → w.now ≤ (f r frame d w).0.now
  pub keys :
      (r : RunRequest) (frame : WorkflowFrame) (p : Option P) (key : Option String)
      → strategies.resume_key r frame p ≡ some key
      → KeyFits key

-- A call that began at `n` has an observation, and the clock has not gone back.
pub record IsDone {H X : Type 0} (n : ℕ) (r : Machine H X × Option ToolObservation) : Type 0 where
  pub later : n ≤ r.0.world.now
  pub answered : is_some r.1 ≡ true

module _ {H X : Type 0} (intent : ToolIntent) (iteration n : ℕ) where
  deny-IsDone :
      (code : FailureCode) (identity : Option ToolIdentity) (m : Machine H X)
      → n ≤ m.world.now
      → IsDone n (deny intent iteration n code identity m)
  unfolding deny observed emit
  deny-IsDone code identity m h = record { later = h; answered = ground (arith, h) }

  tool_failure-IsDone :
      (code : FailureCode) (identity : ToolIdentity) (m : Machine H X)
      → n ≤ m.world.now
      → IsDone n (tool_failure intent iteration n code identity m)
  unfolding tool_failure observed emit
  tool_failure-IsDone code identity m h = record { later = h; answered = ground (arith, h) }

module _ {H X : Type 0} (o : Outside H X) (calm : IsCalmOutside o) (policy : ExecutionPolicy)
    (request : RunRequest) (intent : ToolIntent) (a : Admitted H) where
  kept_result_le :
      (value : Json) (w : World H X) → w.now ≤ (kept_result o policy request intent a value w).0.now
  unfolding kept_result
  kept_result_le value w = elim (Option-cases o.tool_results) [
    | inl e ↦ ground (arith, e)
    | inr (put, e) ↦
        let c = calm.put_clock put e request.scope request.run_id value w in
        elim (Bool-cases (stores_result o policy request intent a value w)) [
          | inr f ↦ ground (arith, e, f)
          | inl f ↦ elim (Option-cases (put request.scope request.run_id value w).1) [
            | inl g ↦ ground (arith, e, f, g, c)
            | inr (x, g) ↦ ground (arith, e, f, g, c)
          ]
        ]
  ]

  approve_le : (w : World H X) → w.now ≤ (approve o policy request intent a w).0.now
  unfolding approve
  approve_le w = elim (Bool-cases (needs_approval policy a)) [
    | inr e ↦ ground (arith, e)
    | inl e ↦ elim (Option-cases intent.approval_token) [
      | inr (t, f) ↦ ground (arith, e, f)
      | inl f ↦ elim (Option-cases o.interactive_approvals) [
        | inl g ↦ ground (arith, e, f, g)
        | inr (ask, g) ↦
            let c =
              calm.ask_clock ask g request (target_of o request intent a) a.tool.spec
                intent.arguments w in
            ground (arith, e, f, g, c)
      ]
    ]
  ]

  module _ (iteration n : ℕ) where
    finish_kept-IsDone :
        (kept : Option Json) (m : Machine H X)
        → n ≤ m.world.now
        → IsDone n (finish_kept o policy request intent iteration n a kept m)
    unfolding finish_kept observed emit
    finish_kept-IsDone none m h =
        tool_failure-IsDone intent iteration n tool_error a.tool.identity m h
    finish_kept-IsDone (some v) m h = record { later = h; answered = ground (arith, h) }

    finish_call-IsDone :
        (value : Json) (m : Machine H X)
        → n ≤ m.world.now
        → IsDone n (finish_call o policy request intent iteration n a value m)
    unfolding finish_call
    finish_call-IsDone value m h =
        let r = kept_result o policy request intent a value m.world in
        elim (Bool-cases (ltb policy.max_tool_result_bytes (o.payload_size value))) [
          | inl e ↦
              rw e
                (tool_failure-IsDone intent iteration n tool_result_too_large a.tool.identity m h)
          | inr e ↦ rw e (
              finish_kept-IsDone r.1 (record m { world = r.0 })
                (omega (arith, h, kept_result_le value m.world)))
        ]

    conclude_call-IsDone :
        (r : HandlerOutcome) (m : Machine H X)
        → n ≤ m.world.now
        → IsDone n (conclude_call o policy request intent iteration n a r m)
    unfolding conclude_call
    conclude_call-IsDone (returned v) m h = elim (Bool-cases (is_canonical v)) [
      | inl e ↦ rw e (finish_call-IsDone v m h)
      | inr e ↦
          rw e (tool_failure-IsDone intent iteration n invalid_tool_result a.tool.identity m h)
    ]
    conclude_call-IsDone refused m h =
        deny-IsDone intent iteration n policy_denied (some a.tool.identity) m h
    conclude_call-IsDone returned_other m h =
        tool_failure-IsDone intent iteration n invalid_tool_result a.tool.identity m h
    conclude_call-IsDone raised_value m h =
        tool_failure-IsDone intent iteration n invalid_tool_result a.tool.identity m h
    conclude_call-IsDone raised_other m h =
        tool_failure-IsDone intent iteration n tool_error a.tool.identity m h

    start_call-IsDone :
        (run_started_at : ℕ) (by : Option String) (m : Machine H X)
        → n ≤ m.world.now
        → IsDone n (start_call o policy request intent iteration run_started_at n a by m)
    unfolding start_call handle_call emit
    start_call-IsDone run_started_at by m h =
        let p = of_start intent.call_id intent.tool_name in
        let w' = (o.publish p m.world).0 in
        let later = calm.publish_clock p m.world in
        rw (calm.publishes p m.world, handle_call)
          (conclude_call-IsDone _ _ (omega (arith, h, later, calm.handle_clock _ _ _ w')))

    execute_approved-IsDone :
        (run_started_at : ℕ) (r : Result FailureCode (Option String)) (m : Machine H X)
        → n ≤ m.world.now
        → IsDone n (execute_approved o policy request intent iteration run_started_at n a r m)
    unfolding execute_approved
    execute_approved-IsDone run_started_at (err code) m h =
        deny-IsDone intent iteration n code (some a.tool.identity) m h
    execute_approved-IsDone run_started_at (ok by) m h = start_call-IsDone run_started_at by m h

module _ {H X : Type 0} (o : Outside H X) (calm : IsCalmOutside o) (policy : ExecutionPolicy)
    (request : RunRequest) (intent : ToolIntent) where
  admit_not_escaping :
      (duplicate : Bool) (w : World H X)
      → ¬ (admit o policy request intent duplicate w ≡ err escaping)
  unfolding admit admit_tool or_stop check_arguments
  admit_not_escaping duplicate w h = elim (Result-cases (grant_for request w)) [
    | inr (code, e) ↦ absurd (ground (arith, h, e))
    | inl (g, e) ↦ elim (Option-cases (registered request intent.tool_name w)) [
      | inl f ↦ absurd (ground (arith, h, e, f))
      | inr (t, f) ↦
          let v = calm.validates t.spec.input_schema intent.arguments in
          absurd (ground (arith, h, e, f, v))
    ]
  ]

  execute_admitted-IsDone :
      (duplicate : Bool) (iteration run_started_at : ℕ) (identity : Option ToolIdentity)
      (m : Machine H X) (w : World H X) (r : Result Stop (Admitted H))
      → admit o policy request intent duplicate w ≡ r
      → IsDone m.world.now (
          execute_admitted o policy request intent iteration run_started_at m.world.now identity r
            m)
  unfolding execute_admitted
  execute_admitted-IsDone duplicate iteration run_started_at identity m w (err escaping) h =
      absurd (admit_not_escaping duplicate w h)
  execute_admitted-IsDone duplicate iteration run_started_at identity m w (err (failing code)) h =
      deny-IsDone intent iteration m.world.now code identity m (omega arith)
  execute_admitted-IsDone duplicate iteration run_started_at identity m w (ok a) h =
      execute_approved-IsDone o calm policy request intent a iteration m.world.now run_started_at _
        _ (approve_le o calm policy request intent a m.world)

  pub execute_intent-IsDone :
      (iteration run_started_at : ℕ) (duplicate : Bool) (m : Machine H X)
      → IsDone m.world.now
          (execute_intent o policy request intent iteration run_started_at duplicate m)
  unfolding execute_intent emit
  execute_intent-IsDone iteration run_started_at duplicate m =
      execute_admitted-IsDone duplicate iteration run_started_at _ (record m { journal = _ })
        m.world _ refl
