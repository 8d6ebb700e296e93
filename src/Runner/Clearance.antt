-- ===== src/Runner/Clearance.antt =====
-- What a call that is started went through: the checks of `_execute_intent` and the approval.
use suite_harness.Base.{
  ℕ, suc, ◌+◌, ◌<◌, ◌≤◌, String, ◌≡◌, inl, inr, Bool, true, false, ◌&&◌, not, Option, some, List,
  [], ◌∷◌, arith, leb, contains, is_some, Option-cases, Result-cases, ok, string_eq,
}
use suite_harness.Base.Json.{object}
use suite_harness.Base.KeySet.{subset}
use suite_harness.Tools.{identity_eq, is_read}
use suite_harness.Approvals.{target_eq}
use suite_harness.Runner.{
  AuditEventType, tool_started, ToolIntent, RunRequest, AuditEvent, accepted, World, Outside,
}
use suite_harness.Runner.Policy.{ExecutionPolicy}
use suite_harness.Runner.Authorize.{
  Admitted, registered, grant_for, safe_registration, authorization, is_deny, or_stop,
  check_arguments, admit_tool, admit, approve,
}
use suite_harness.Runner.Audit.{
  Ending, finishing, denying, Trail, cut_off, stopped, broke_off, went_through,
}

module _ {H X : Type 0} (o : Outside H X) (policy : ExecutionPolicy) (request : RunRequest)
    (intent : ToolIntent) (w : World H X) (a : Admitted H) where
  -- Every check of `_execute_intent` before the approval was passed in `w`, by the tool that the
  -- name resolves to.
  pub record IsCleared (duplicate : Bool) : Type 0 where
    pub small : leb (o.payload_size (object intent.arguments)) policy.max_tool_argument_bytes ≡ true
    pub new_call : duplicate ≡ false
    pub grant : grant_for request w ≡ ok a.grant
    pub resolved : registered request intent.tool_name w ≡ some a.tool
    pub granted : contains a.tool.identity a.grant.tool_identities ≡ true
    pub capable : subset a.tool.spec.required_capabilities a.grant.capabilities ≡ true
    pub reading : (request.read_only && not (is_read a.tool.spec)) ≡ false
    pub trusted :
        (is_some request.resume && not (safe_registration request intent.tool_name w)) ≡ false
    pub valid : o.validate a.tool.spec.input_schema intent.arguments ≡ accepted
    pub decided :
        a.authorization ≡ authorization o request a.tool.identity a.tool.spec intent.arguments
    pub allowed : is_deny a.authorization ≡ false

  pub admit-IsCleared :
      (duplicate : Bool) → admit o policy request intent duplicate w ≡ ok a → IsCleared duplicate
  unfolding admit admit_tool or_stop check_arguments
  admit-IsCleared duplicate h = elim (Result-cases (grant_for request w)) [
    | inr (code, e) ↦ absurd (ground (arith, h, e))
    | inl (g, e) ↦ elim (Option-cases (registered request intent.tool_name w)) [
      | inl f ↦ absurd (ground (arith, h, e, f))
      | inr (t, f) ↦ record {
        small = ground (arith, h, e, f);
        new_call = ground (arith, h, e, f);
        grant = ground (arith, h, e, f);
        resolved = ground (arith, h, e, f);
        granted = ground (arith, h, e, f);
        capable = ground (arith, h, e, f);
        reading = ground (arith, h, e, f);
        trusted = ground (arith, h, e, f);
        valid = ground (arith, h, e, f);
        decided = ground (arith, h, e, f);
        allowed = ground (arith, h, e, f);
      }
    ]
  ]

abbrev is_start : AuditEventType → ℕ
is_start tool_started = 1
is_start _ = 0

-- How many calls were started.
abbrev pub starts : List AuditEvent → ℕ
starts [] = 0
starts (e ∷ es) = is_start e.event_type + starts es

pub Ending-starts :
    (intent : ToolIntent) (before after : List AuditEvent)
    → Ending intent before after
    → starts after ≡ starts before
Ending-starts intent before after (finishing e i) = ground (arith, i.of_kind)
Ending-starts intent before after (denying e i) = ground (arith, i.of_kind)

module _ {H X : Type 0} (o : Outside H X) (policy : ExecutionPolicy) (request : RunRequest)
    (intent : ToolIntent) (duplicate : Bool) (w : World H X) (before : List AuditEvent)
    (done : Bool) where
  pub Trail-starts-le :
      (after : List AuditEvent)
      → Trail o policy request intent duplicate w before done after
      → starts after ≤ suc (starts before)
  Trail-starts-le after (cut_off asking i d) = ground (arith, i.of_kind)
  Trail-starts-le after (broke_off asking start a by i j h g d) =
      ground (arith, i.of_kind, j.of_kind)
  Trail-starts-le after (stopped asking denial i j) = ground (arith, i.of_kind, j.of_kind)
  Trail-starts-le after (went_through asking start _ a by i j h g end) =
      ground (arith, Ending-starts intent _ after end, j.of_kind, i.of_kind)

  -- What a call that was started was admitted as and approved by.
  pub Trail-started :
      (after : List AuditEvent)
      → Trail o policy request intent duplicate w before done after
      → starts before < starts after
      → (a : Admitted H) × ((by : Option String) × ((admit o policy request intent duplicate w
              ≡ ok a)
            × ((approve o policy request intent a w).1 ≡ ok by)))
  Trail-started after (cut_off asking i d) less = absurd (ground (arith, i.of_kind, less))
  Trail-started after (broke_off asking start a by i j h g d) less = (a, (by, (h, g)))
  Trail-started after (stopped asking denial i j) less =
      absurd (ground (arith, i.of_kind, j.of_kind, less))
  Trail-started after (went_through asking start _ a by i j h g end) less = (a, (by, (h, g)))
