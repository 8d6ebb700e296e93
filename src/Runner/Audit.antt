-- ===== src/Runner/Audit.antt =====
-- The audit events that one call of a tool appends, and what lies behind a call that is started.
use suite_harness.Base.{
  ℕ, String, ◌≡◌, refl, inl, inr, Bool, true, false, is_some, Option, none, some, List, ◌∷◌, ltb,
  Bool-cases, Result, ok, err,
}
use suite_harness.Base.Json.{Json}
use suite_harness.Tools.{ToolIdentity}
use suite_harness.Sessions.Payloads.{is_canonical}
use suite_harness.Runner.{
  FailureCode, policy_denied, tool_result_too_large, invalid_tool_result, tool_error,
  AuditEventType, tool_intent, tool_denied, tool_started, tool_finished, ToolIntent, RunRequest,
  AuditEvent, Stop, failing, escaping, ToolObservation, started_with, HandlerOutcome, returned,
  returned_other, refused, raised_value, raised_other, World, Machine, Outside, emit,
}
use suite_harness.Runner.Policy.{ExecutionPolicy}
use suite_harness.Runner.Authorize.{Admitted, admit, approve}
use suite_harness.Runner.Intents.{
  handle_call, start_call, execute_approved, execute_admitted, execute_intent,
}
use suite_harness.Runner.Outcomes.{kept_result, finish_kept, finish_call, conclude_call}
use suite_harness.Runner.Observations.{tool_event, deny, tool_failure}

pub record IsEvent (kind : AuditEventType) (intent : ToolIntent) (e : AuditEvent) : Type 0 where
  pub of_kind : e.event_type ≡ kind
  pub of_call : e.call_id ≡ some intent.call_id

-- One event that ends a call was appended.
pub data Ending (intent : ToolIntent) (before : List AuditEvent) : List AuditEvent → Type 0 where
  finishing : (e : AuditEvent) → IsEvent tool_finished intent e → Ending intent before (e ∷ before)
  denying : (e : AuditEvent) → IsEvent tool_denied intent e → Ending intent before (e ∷ before)

module _ {H X : Type 0} (intent : ToolIntent) (iteration started_at : ℕ) where
  tool_failure-Ending :
      (code : FailureCode) (identity : ToolIdentity) (m : Machine H X)
      → Ending intent m.journal (tool_failure intent iteration started_at code identity m).0.journal
  unfolding tool_failure
  tool_failure-Ending code identity m = finishing _ (record { of_kind = refl; of_call = refl })

  deny-Ending :
      (code : FailureCode) (identity : Option ToolIdentity) (m : Machine H X)
      → Ending intent m.journal (deny intent iteration started_at code identity m).0.journal
  unfolding deny
  deny-Ending code identity m = denying _ (record { of_kind = refl; of_call = refl })

module _ {H X : Type 0} (o : Outside H X) (policy : ExecutionPolicy) (request : RunRequest)
    (intent : ToolIntent) (iteration started_at : ℕ) (a : Admitted H) where
  finish_kept-Ending :
      (kept : Option Json) (m : Machine H X)
      → Ending intent m.journal
          (finish_kept o policy request intent iteration started_at a kept m).0.journal
  unfolding finish_kept
  finish_kept-Ending none m =
      tool_failure-Ending intent iteration started_at tool_error a.tool.identity m
  finish_kept-Ending (some v) m = finishing _ (record { of_kind = refl; of_call = refl })

  finish_call-Ending :
      (value : Json) (m : Machine H X)
      → Ending intent m.journal
          (finish_call o policy request intent iteration started_at a value m).0.journal
  unfolding finish_call
  finish_call-Ending value m =
      elim (Bool-cases (ltb policy.max_tool_result_bytes (o.payload_size value))) [
        | inl e ↦ rw e (
            tool_failure-Ending intent iteration started_at tool_result_too_large a.tool.identity m)
        | inr e ↦
            let r = kept_result o policy request intent a value m.world in
            rw e (finish_kept-Ending r.1 (record m { world = r.0 }))
      ]

  conclude_call-Ending :
      (r : HandlerOutcome) (m : Machine H X)
      → Ending intent m.journal
          (conclude_call o policy request intent iteration started_at a r m).0.journal
  unfolding conclude_call
  conclude_call-Ending (returned v) m = elim (Bool-cases (is_canonical v)) [
    | inl e ↦ rw e (finish_call-Ending v m)
    | inr e ↦
        rw e (tool_failure-Ending intent iteration started_at invalid_tool_result a.tool.identity m)
  ]
  conclude_call-Ending refused m =
      deny-Ending intent iteration started_at policy_denied (some a.tool.identity) m
  conclude_call-Ending returned_other m =
      tool_failure-Ending intent iteration started_at invalid_tool_result a.tool.identity m
  conclude_call-Ending raised_value m =
      tool_failure-Ending intent iteration started_at invalid_tool_result a.tool.identity m
  conclude_call-Ending raised_other m =
      tool_failure-Ending intent iteration started_at tool_error a.tool.identity m

  abbrev start_event : Option String → AuditEvent
  start_event by =
      tool_event tool_started intent (some a.tool.identity) (started_with a.tool.spec.effects by)

-- What one call appends: it is asked for and denied, or it is admitted, approved where it needs to
-- be, started and ended. A call without an observation (`done` is false) may stop before that.
pub data Trail {H X : Type 0} (o : Outside H X) (policy : ExecutionPolicy) (request : RunRequest)
    (intent : ToolIntent) (duplicate : Bool) (w : World H X) (before : List AuditEvent)
    (done : Bool) : List AuditEvent → Type 0 where
  cut_off :
      (asking : AuditEvent)
      → IsEvent tool_intent intent asking
      → done ≡ false
      → Trail o policy request intent duplicate w before done (asking ∷ before)
  stopped :
      (asking denial : AuditEvent)
      → IsEvent tool_intent intent asking
      → IsEvent tool_denied intent denial
      → Trail o policy request intent duplicate w before done (denial ∷ asking ∷ before)
  broke_off :
      (asking start : AuditEvent) (a : Admitted H) (by : Option String)
      → IsEvent tool_intent intent asking
      → IsEvent tool_started intent start
      → admit o policy request intent duplicate w ≡ ok a
      → (approve o policy request intent a w).1 ≡ ok by
      → done ≡ false
      → Trail o policy request intent duplicate w before done (start ∷ asking ∷ before)
  went_through :
      (asking start : AuditEvent) (after : List AuditEvent) (a : Admitted H) (by : Option String)
      → IsEvent tool_intent intent asking
      → IsEvent tool_started intent start
      → admit o policy request intent duplicate w ≡ ok a
      → (approve o policy request intent a w).1 ≡ ok by
      → Ending intent (start ∷ asking ∷ before) after
      → Trail o policy request intent duplicate w before done after

-- The journal and whether there is an observation, after a call.
abbrev pub TrailOf :
    {H X : Type 0}
    → Outside H X
    → ExecutionPolicy
    → RunRequest
    → ToolIntent
    → Bool
    → World H X
    → List AuditEvent
    → Machine H X × Option ToolObservation
    → Type 0
TrailOf o policy request intent duplicate w before r =
    Trail o policy request intent duplicate w before (is_some r.1) r.0.journal

module _ {H X : Type 0} (o : Outside H X) (policy : ExecutionPolicy) (request : RunRequest)
    (intent : ToolIntent) (iteration run_started_at : ℕ) (duplicate : Bool) (w : World H X)
    (before : List AuditEvent) (asking : AuditEvent)
    (asks : IsEvent tool_intent intent asking) where
  handle_call-Trail :
      (started_at : ℕ) (a : Admitted H) (by : Option String) (start : AuditEvent) (returns : Bool)
      (w' : World H X)
      → IsEvent tool_started intent start
      → admit o policy request intent duplicate w ≡ ok a
      → (approve o policy request intent a w).1 ≡ ok by
      → TrailOf o policy request intent duplicate w before (
          handle_call o policy request intent iteration run_started_at started_at a returns
            (record { world = w'; journal = start ∷ asking ∷ before }))
  unfolding handle_call
  handle_call-Trail started_at a by start false w' starting admitted approved =
      broke_off asking start a by asks starting admitted approved refl
  handle_call-Trail started_at a by start true w' starting admitted approved =
      went_through asking start _ a by asks starting admitted approved
        (conclude_call-Ending o policy request intent iteration started_at a _ _)

  execute_approved-Trail :
      (started_at : ℕ) (a : Admitted H) (r : Result FailureCode (Option String)) (w' : World H X)
      → admit o policy request intent duplicate w ≡ ok a
      → (approve o policy request intent a w).1 ≡ r
      → TrailOf o policy request intent duplicate w before (
          execute_approved o policy request intent iteration run_started_at started_at a r
            (record { world = w'; journal = asking ∷ before }))
  unfolding execute_approved deny start_call emit
  execute_approved-Trail started_at a (err code) w' admitted approved =
      stopped asking _ asks (record { of_kind = refl; of_call = refl })
  execute_approved-Trail started_at a (ok by) w' admitted approved =
      handle_call-Trail started_at a by
        (start_event o policy request intent iteration started_at a by) _ _
        (record { of_kind = refl; of_call = refl }) admitted approved

  execute_admitted-Trail :
      (started_at : ℕ) (identity : Option ToolIdentity) (r : Result Stop (Admitted H))
      → admit o policy request intent duplicate w ≡ r
      → TrailOf o policy request intent duplicate w before (
          execute_admitted o policy request intent iteration run_started_at started_at identity r
            (record { world = w; journal = asking ∷ before }))
  unfolding execute_admitted deny
  execute_admitted-Trail started_at identity (err escaping) admitted = cut_off asking asks refl
  execute_admitted-Trail started_at identity (err (failing code)) admitted =
      stopped asking _ asks (record { of_kind = refl; of_call = refl })
  execute_admitted-Trail started_at identity (ok a) admitted =
      execute_approved-Trail started_at a _ _ admitted refl

module _ {H X : Type 0} (o : Outside H X) (policy : ExecutionPolicy) (request : RunRequest)
    (intent : ToolIntent) (iteration run_started_at : ℕ) (duplicate : Bool) (m : Machine H X) where
  pub execute_intent-Trail :
      TrailOf o policy request intent duplicate m.world m.journal
        (execute_intent o policy request intent iteration run_started_at duplicate m)
  unfolding execute_intent
  execute_intent-Trail =
      execute_admitted-Trail o policy request intent iteration run_started_at duplicate m.world
        m.journal _ (record { of_kind = refl; of_call = refl }) m.world.now _ _ refl
