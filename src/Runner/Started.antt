-- ===== src/Runner/Started.antt =====
-- Which calls of `_execute_intent` are started, by the event of their start.
use suite_harness.Base.{
  ℕ, ◌<◌, String, ◌≡◌, ◌⊎◌, refl, sym, ◌∙◌, ap, inl, inr, Bool, true, false, ◌||◌, Option, none,
  some, List, arith, is_some, Bool-cases, Option-cases, ok, ◌==◌, string_eq,
}
use suite_harness.Base.Dict.{remove}
use suite_harness.Base.Json.{Fields}
use suite_harness.Scopes.{RequestScope}
use suite_harness.Tools.{ToolIdentity, write, destructive, has_effect, ToolSpec, is_read}
use suite_harness.Registry.{RegisteredTool}
use suite_harness.Approvals.{ApprovalBinding}
use suite_harness.Approvals.Consume.{Authorizes}
use suite_harness.ChannelPolicy.{WorkspaceWriteRule, allow, evaluate, evaluate_feishu}
use suite_harness.ChannelPolicy.Decisions.{IsConfinedWrite, feishu_write-IsConfinedWrite}
use suite_harness.Runner.{ToolIntent, RunRequest, World, Machine, Outside, answered, PolicyReply}
use suite_harness.Runner.Policy.{ExecutionPolicy}
use suite_harness.Runner.Authorize.{
  Admitted, registered, safe_registration, authorization, authorization_of, is_deny, admit,
  needs_approval, target_of, approve,
}
use suite_harness.Runner.Intents.{execute_intent}
use suite_harness.Runner.Audit.{execute_intent-Trail}
use suite_harness.Runner.ApprovedCalls.{IsAnswered, approve_token, approve_broker}
use suite_harness.Runner.Trusted.{safe_registration_effects}
use suite_harness.Runner.Clearance.{IsCleared, admit-IsCleared, starts, Trail-started}

module _ {H X : Type 0} (o : Outside H X) (policy : ExecutionPolicy) (request : RunRequest)
    (intent : ToolIntent) (w : World H X) where
  -- How a call that needs an approval got it: by a live token that was issued for exactly this call
  -- and is removed, or from the configured broker, which was asked for exactly this call and answered
  -- with a current binding for it.
  pub data IsApproved (a : Admitted H) : Type 0 where
    by_token :
        (token : String) (b : ApprovalBinding)
        → intent.approval_token ≡ some token
        → Authorizes w.now (o.token_digest token) (target_of o request intent a) w.approvals b
        → (approve o policy request intent a w).0.approvals
          ≡ remove (o.token_digest token) w.approvals
        → IsApproved a
    by_broker :
        (b : ApprovalBinding) (by : Option String)
        → intent.approval_token ≡ none
        → IsAnswered o policy request intent a w by b
        → IsApproved a

  approve-IsApproved :
      (a : Admitted H) (by : Option String)
      → needs_approval policy a ≡ true
      → (approve o policy request intent a w).1 ≡ ok by
      → IsApproved a
  approve-IsApproved a by n h = elim (Option-cases intent.approval_token) [
    | inl e ↦ let x = approve_broker o policy request intent a w by n e h in by_broker x.0 by e x.1
    | inr (token, e) ↦
        let x = approve_token o policy request intent a w token by n e h in
        by_token token x.0 e x.1.0 x.1.1.1
  ]

policy_authorization :
    {H X : Type 0} (o : Outside H X)
    (p : RunRequest → ToolIdentity → ToolSpec → Fields → PolicyReply) (request : RunRequest)
    (identity : ToolIdentity) (spec : ToolSpec) (arguments : Fields)
    → o.authorization_policy ≡ some p
    → authorization o request identity spec arguments
      ≡ authorization_of (p request identity spec arguments)
unfolding authorization
policy_authorization o p request identity spec arguments h = rw h refl

feishu_decides :
    (roots : List WorkspaceWriteRule) (scope : RequestScope) (identity : ToolIdentity)
    (spec : ToolSpec) (arguments : Fields)
    → scope.channel_id ≡ "feishu"
    → is_deny (evaluate roots scope identity spec arguments) ≡ false
    → evaluate roots scope identity spec arguments ≡ allow
unfolding evaluate evaluate_feishu
feishu_decides roots scope identity spec arguments c d =
    let web : (scope.channel_id == "web") ≡ false = rw c refl in
    let feishu : (scope.channel_id == "feishu") ≡ true = rw c refl in ground (arith, web, feishu, d)

module _ {H X : Type 0} (o : Outside H X) (policy : ExecutionPolicy) (request : RunRequest)
    (intent : ToolIntent) (iteration run_started_at : ℕ) (duplicate : Bool) (m : Machine H X)
    (started : starts m.journal
      < starts
          (execute_intent o policy request intent iteration run_started_at duplicate
            m).0.journal) where
  went :
      (a : Admitted H) × ((by : Option String) × ((admit o policy request intent duplicate m.world
            ≡ ok a)
          × ((approve o policy request intent a m.world).1 ≡ ok by)))
  went =
      Trail-started o policy request intent duplicate m.world m.journal _ _
        (execute_intent-Trail o policy request intent iteration run_started_at duplicate m) started

  -- A call is started only if it passed every check: its arguments are small enough and match the
  -- schema of the tool, its call id is new, the grant of the run is live and fits the request, it
  -- names the tool that the registry resolves and covers its capabilities, a read-only run only
  -- reads, a resumed run only uses trusted tools, and the policy did not deny it.
  pub started-IsCleared : (a : Admitted H) × IsCleared o policy request intent m.world a duplicate
  started-IsCleared =
      let x = went in (x.0, admit-IsCleared o policy request intent m.world x.0 duplicate x.1.1.0)

  -- A destructive tool is started only with an approval of exactly this call, whatever the policies
  -- say: by a live token, which is then spent, or by the configured broker, which was asked for
  -- exactly this call and answered with a current binding for it.
  pub destructive-IsApproved :
      (tool : RegisteredTool H)
      → registered request intent.tool_name m.world ≡ some tool
      → has_effect destructive tool.spec.effects ≡ true
      → (a : Admitted H) × ((a.tool ≡ tool) × IsApproved o policy request intent m.world a)
  destructive-IsApproved tool r d =
      let x = went in
      let c = admit-IsCleared o policy request intent m.world x.0 duplicate x.1.1.0 in
      let same : x.0.tool ≡ tool = ground (arith, c.resolved, r) in
      let n : needs_approval policy x.0 ≡ true =
        unfold needs_approval in
        ground
          (arith, ap (λ (t : RegisteredTool H). has_effect destructive t.spec.effects) same, d) in
      (x.0, (same, approve-IsApproved o policy request intent m.world x.0 x.1.0 n x.1.1.1))

  -- In a resumed run only calls of tools that neither write nor destroy are started, and only of
  -- the built-in tools that are registered under their own names at the root.
  pub resumed-reads :
      is_some request.resume ≡ true
      → (tool : RegisteredTool H) × ((registered request intent.tool_name m.world ≡ some tool)
          × (safe_registration request intent.tool_name m.world ≡ true)
          × (has_effect write tool.spec.effects || has_effect destructive tool.spec.effects
              ≡ false))
  resumed-reads resumed =
      let x = started-IsCleared in
      let safe : safe_registration request intent.tool_name m.world ≡ true =
        ground (arith, x.1.trusted, resumed) in
      (
        x.0.tool,
        (
          x.1.resolved,
          safe,
          safe_registration_effects request intent.tool_name m.world x.0.tool x.1.resolved safe,
        ),
      )

  -- Under the channel policy, a call that a Feishu request starts reads, or it is a built-in file
  -- write below a configured root.
  pub feishu_started-IsConfinedWrite :
      (roots : List WorkspaceWriteRule)
      → o.authorization_policy
        ≡ some (λ (r : RunRequest) (i : ToolIdentity) (spec : ToolSpec) (arguments : Fields).
          answered (evaluate roots r.scope i spec arguments))
      → request.scope.channel_id ≡ "feishu"
      → (a : Admitted H) × (IsCleared o policy request intent m.world a duplicate
          × ((is_read a.tool.spec ≡ true)
              ⊎ IsConfinedWrite roots a.tool.identity a.tool.spec intent.arguments))
  feishu_started-IsConfinedWrite roots p c =
      let x = started-IsCleared in
      let t = x.0.tool in
      let decided : x.0.authorization
          ≡ evaluate roots request.scope t.identity t.spec intent.arguments =
        x.1.decided
        ∙ unfold authorization_of in
          policy_authorization o _ request t.identity t.spec intent.arguments p in
      let allowed =
        feishu_decides roots request.scope t.identity t.spec intent.arguments c
          (ap is_deny (sym decided) ∙ x.1.allowed) in
      (
        x.0,
        (
          x.1,
          elim (Bool-cases (is_read t.spec)) [
            | inl e ↦ inl e
            | inr e ↦ inr (
                feishu_write-IsConfinedWrite roots request.scope t.identity t.spec intent.arguments
                  c e allowed)
          ],
        ),
      )
