-- ===== src/Runner/ApprovedCalls.antt =====
-- What the approval of a call rests on: a live token for exactly this call, which is then spent, or
-- the answer of the interactive broker.
use suite_harness.Base.{
  ℕ, ◌<◌, ◌≤◌, String, ◌≡◌, refl, sym, ◌∙◌, ap, inl, inr, true, Option, none, some, arith,
  Option-cases, Result, ok, string_eq,
}
use suite_harness.Base.Dict.{remove}
use suite_harness.Base.Json.{Fields}
use suite_harness.Tools.{ToolSpec, identity_eq}
use suite_harness.Approvals.{ApprovalTarget, target_eq, ApprovalBinding, consume_if_matches}
use suite_harness.Approvals.Consume.{Authorizes, consume_iff_authorized, consume_spends}
use suite_harness.Runner.{ToolIntent, RunRequest, FailureCode, World, Outside}
use suite_harness.Runner.Policy.{ExecutionPolicy}
use suite_harness.Runner.Authorize.{Admitted, needs_approval, target_of, check_binding, approve}

-- A binding that the runner accepts at `now` for the target, and who approved it.
pub record Backs (now : ℕ) (expected : ApprovalTarget) (by : Option String) (b : ApprovalBinding)
    : Type 0 where
  pub exact : b.target ≡ expected
  pub issued : b.issued_at ≤ now
  pub live : now < b.expires_at
  pub approver : by ≡ some b.approved_by

check_binding-Backs :
    (now : ℕ) (expected : ApprovalTarget) (b : Option ApprovalBinding) (by : Option String)
    → check_binding now expected b ≡ ok by
    → (c : ApprovalBinding) × ((b ≡ some c) × Backs now expected by c)
unfolding check_binding
check_binding-Backs now expected none by h = absurd (ground (arith, h))
check_binding-Backs now expected (some c) by h = (
  c,
  (
    refl,
    record {
      exact = ground (arith, h, target_eq.same_iff c.target expected);
      issued = ground (arith, h);
      live = ground (arith, h);
      approver = ground (arith, h);
    },
  ),
)

module _ {H X : Type 0} (o : Outside H X) (policy : ExecutionPolicy) (request : RunRequest)
    (intent : ToolIntent) (a : Admitted H) (w : World H X) where
  approve_by_token :
      (token : String)
      → needs_approval policy a ≡ true
      → intent.approval_token ≡ some token
      → let expected = target_of o request intent a in
        let r = consume_if_matches o.token_digest w.now token expected w.approvals in
        let w' : World H X = record w { approvals = r.0 } in
        approve o policy request intent a w ≡ (w', check_binding w.now expected r.1)
  unfolding approve
  approve_by_token token n t = rw (n, t) refl

  approve_by_broker :
      (ask : RunRequest
        → ApprovalTarget
        → ToolSpec
        → Fields
        → World H X
        → World H X × Option ApprovalBinding)
      → needs_approval policy a ≡ true
      → intent.approval_token ≡ none
      → o.interactive_approvals ≡ some ask
      → let expected = target_of o request intent a in
        let r = ask request expected a.tool.spec intent.arguments w in
        approve o policy request intent a w ≡ (r.0, check_binding r.0.now expected r.1)
  unfolding approve
  approve_by_broker ask n t e = rw (n, t, e) refl

  -- The token of an approved call was live for exactly this call, and is spent.
  pub approve_token :
      (token : String) (by : Option String)
      → needs_approval policy a ≡ true
      → intent.approval_token ≡ some token
      → (approve o policy request intent a w).1 ≡ ok by
      → (b : ApprovalBinding) × (Authorizes w.now
            (o.token_digest token)
            (target_of o request intent a)
            w.approvals
            b
          × ((by ≡ some b.approved_by)
              × ((approve o policy request intent a w).0.approvals
                  ≡ remove (o.token_digest token) w.approvals)))
  approve_token token by n t h =
      let expected = target_of o request intent a in
      let r = consume_if_matches o.token_digest w.now token expected w.approvals in
      let eq = approve_by_token token n t in
      let x =
        check_binding-Backs w.now expected r.1 by
          (sym (ap (λ (q : World H X × Result FailureCode (Option String)). q.1) eq) ∙ h) in
      let taken = x.1.0 in
      let spent =
        consume_spends o.token_digest w.now w.now token expected expected w.approvals x.0 taken in
      (
        x.0,
        (
          (consume_iff_authorized o.token_digest w.now token expected w.approvals x.0).0 taken,
          (
            x.1.1.approver,
            ap (λ (q : World H X × Result FailureCode (Option String)). q.0.approvals) eq ∙ spent.0,
          ),
        ),
      )

  -- The broker was asked for exactly this call, and its answer is an approval that the runner accepts.
  pub record IsAnswered (by : Option String) (b : ApprovalBinding) : Type 0 where
    pub ask :
        RunRequest
        → ApprovalTarget
        → ToolSpec
        → Fields
        → World H X
        → World H X × Option ApprovalBinding
    pub configured : o.interactive_approvals ≡ some ask
    pub answer :
        (ask request (target_of o request intent a) a.tool.spec intent.arguments w).1 ≡ some b
    pub backs :
        Backs
          (ask request (target_of o request intent a) a.tool.spec intent.arguments w).0.now
          (target_of o request intent a)
          by
          b

  -- Without a token, the broker has answered with an approval of exactly this call.
  pub approve_broker :
      (by : Option String)
      → needs_approval policy a ≡ true
      → intent.approval_token ≡ none
      → (approve o policy request intent a w).1 ≡ ok by
      → (b : ApprovalBinding) × IsAnswered by b
  approve_broker by n t h = elim (Option-cases o.interactive_approvals) [
    | inl e ↦ absurd (unfold approve in ground (arith, n, t, h, e))
    | inr (ask, e) ↦
        let expected = target_of o request intent a in
        let r = ask request expected a.tool.spec intent.arguments w in
        let eq = approve_by_broker ask n t e in
        let x =
          check_binding-Backs r.0.now expected r.1 by
            (sym (ap (λ (q : World H X × Result FailureCode (Option String)). q.1) eq) ∙ h) in
        (x.0, record { ask = ask; configured = e; answer = x.1.0; backs = x.1.1 })
  ]
