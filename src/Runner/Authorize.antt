-- ===== src/Runner/Authorize.antt =====
-- src/suiteharness/execution/runner.py: the checks of `_execute_intent` up to the start of the
-- call, in their order, and the grant, the registrations and the approval that they rest on.
use suite_harness.Base.{
  ℕ, String, Bool, true, false, ◌&&◌, ◌||◌, not, Option, none, some, List, [], ◌∷◌, all, leb, ltb,
  if◌then◌else◌, ◌==◌, string_eq, option_eq, contains, is_some, Result, ok, err, ◌>>=◌, ◌>>◌,
  require,
}
use suite_harness.Base.Json.{Fields, object}
use suite_harness.Base.KeySet.{subset}
use suite_harness.Scopes.{root_path, path_eq, tenant_id, product_id}
use suite_harness.Tools.{
  ToolEffect, read, external, destructive, has_effect, ToolIdentity, identity_eq, ToolSpec, is_read,
}
use suite_harness.Registry
use suite_harness.Registry.{RegisteredTool, Registry}
use suite_harness.Grants
use suite_harness.Grants.Model.{CapabilityGrant}
use suite_harness.Approvals.{ApprovalTarget, target_eq, ApprovalBinding, consume_if_matches}
use suite_harness.ChannelPolicy.{ToolAuthorization, default, require_approval, deny}
use suite_harness.Runner.{
  FailureCode, grant_not_found, grant_scope_mismatch, grant_expired, tool_not_granted,
  capability_denied, policy_denied, read_only_denied, approval_required, approval_invalid,
  tool_input_invalid, tool_arguments_too_large, duplicate_call_id, ToolIntent, RunRequest, World,
  answered, answered_other, raised, PolicyReply, Validation, accepted, rejected, broken, Stop,
  failing, escaping, Outside,
}
use suite_harness.Runner.Policy.{ExecutionPolicy, requires_approval}

-- `_RESUMABLE_TOOLS.get(name)`
unfoldable pub resumable_tool : String → Option (String × List ToolEffect)
resumable_tool name =
    if name == "suiteharness.fs.list"
      || name == "suiteharness.fs.read"
      || name == "suiteharness.fs.glob"
      || name == "suiteharness.fs.grep"
    then some ("fs", read ∷ [])
    else if name == "suiteharness.web.search" || name == "suiteharness.web.fetch"
    then some ("web", read ∷ external ∷ [])
    else none

-- `effects == expected`, of sets
abbrev pub same_effects : List ToolEffect → List ToolEffect → Bool
same_effects a b = all (λ e. has_effect e b) a && all (λ e. has_effect e a) b

-- The conditions that `_safe_registration` returns.
unfoldable pub is_builtin :
    {H : Type 0} → String → String × List ToolEffect → RegisteredTool H → Bool
is_builtin name (family, effects) tool =
    tool.registration_scope == root_path
    && tool.identity.namespace == "suiteharness"
    && tool.identity.name == name
    && tool.identity.origin
      == (if family == "fs" then "suiteharness.builtin.fs" else "suiteharness.builtin.web")
    && tool.identity.version == "1"
    && same_effects tool.spec.effects effects

abbrev pub is_deny : ToolAuthorization → Bool
is_deny deny = true
is_deny _ = false

abbrev pub is_default : ToolAuthorization → Bool
is_default default = true
is_default _ = false

abbrev pub is_require_approval : ToolAuthorization → Bool
is_require_approval require_approval = true
is_require_approval _ = false

-- The authorization that a reply of the policy stands for.
unfoldable pub authorization_of : PolicyReply → ToolAuthorization
authorization_of (answered a) = a
authorization_of answered_other = deny
authorization_of raised = deny

module _ {H X : Type 0} where
  -- `self.__tools.resolve(request.scope, name)`
  abbrev pub registered : RunRequest → String → World H X → Option (RegisteredTool H)
  registered request name w = Registry.resolve request.scope name w.registry

  -- `_grant`
  unfoldable pub grant_for : RunRequest → World H X → Result FailureCode CapabilityGrant
  grant_for request w = elim (Grants.resolve w.now request.grant_id w.authority) [
    | none ↦ err grant_not_found
    | some grant ↦ do
      let path = request.scope.path
      require
          (some grant.tenant_id == tenant_id path
            && some grant.product_id == product_id path
            && (elim grant.principal_id [
              | none ↦ true
              | some principal ↦ principal == request.scope.principal_id
            ]))
          grant_scope_mismatch
      require (not (leb grant.expires_at w.now)) grant_expired
      ok grant
  ]

  unfoldable pub safe_registration : RunRequest → String → World H X → Bool
  safe_registration request name w = elim (resumable_tool name) [
    | none ↦ false
    | some expected ↦ elim (registered request name w) [
      | none ↦ false
      | some tool ↦ is_builtin name expected tool
    ]
  ]

  unfoldable pub authorization :
      Outside H X → RunRequest → ToolIdentity → ToolSpec → Fields → ToolAuthorization
  authorization o request identity spec arguments = elim o.authorization_policy [
    | none ↦ default
    | some policy ↦ authorization_of (policy request identity spec arguments)
  ]

-- What the validator's outcome comes to: only `JsonSchemaValidationError` is caught.
unfoldable pub check_arguments : Validation → Result Stop (Unit {0})
check_arguments accepted = ok tt
check_arguments rejected = err (failing tool_input_invalid)
check_arguments broken = err escaping

-- A failure, as what stops a call.
unfoldable pub or_stop : {A : Type 0} → Result FailureCode A → Result Stop A
or_stop (err code) = err (failing code)
or_stop (ok x) = ok x

-- What the checks before the approval have found.
pub record Admitted (H : Type 0) : Type 0 where
  pub tool : RegisteredTool H
  pub grant : CapabilityGrant
  pub authorization : ToolAuthorization

-- `destructive or …`
unfoldable pub needs_approval : {H : Type 0} → ExecutionPolicy → Admitted H → Bool
needs_approval policy a =
    has_effect destructive a.tool.spec.effects
    || is_require_approval a.authorization
    || is_default a.authorization && requires_approval policy a.tool.spec

-- The `ApprovalTarget` of a call.
module _ {H X : Type 0} (o : Outside H X) where
  abbrev pub target_of : RunRequest → ToolIntent → Admitted H → ApprovalTarget
  target_of request intent a = record {
    scope = request.scope.path;
    principal_id = request.scope.principal_id;
    run_id = request.run_id;
    call_id = intent.call_id;
    tool_identity = a.tool.identity;
    arguments_digest = o.arguments_digest intent.arguments;
  }

-- `_approval_matches`; `single_use` is always true.
unfoldable pub approval_matches : ℕ → ApprovalTarget → ApprovalBinding → Bool
approval_matches now expected b =
    b.target == expected && leb b.issued_at now && ltb now b.expires_at

-- `binding is None or not self._approval_matches(…)`
unfoldable pub check_binding :
    ℕ → ApprovalTarget → Option ApprovalBinding → Result FailureCode (Option String)
unfolding approval_matches
check_binding now expected none = err approval_invalid
check_binding now expected (some b) =
    if approval_matches now expected b then ok (some b.approved_by) else err approval_invalid

module _ {H X : Type 0} (o : Outside H X) (policy : ExecutionPolicy) where
  -- The checks of a tool that was resolved, under the grant.
  unfoldable pub admit_tool :
      RunRequest
      → ToolIntent
      → CapabilityGrant
      → RegisteredTool H
      → World H X
      → Result Stop (Admitted H)
  admit_tool request intent grant tool w = do
    require (contains tool.identity grant.tool_identities) (failing tool_not_granted)
    require (subset tool.spec.required_capabilities grant.capabilities) (failing capability_denied)
    require (not (request.read_only && not (is_read tool.spec))) (failing read_only_denied)
    require (not (is_some request.resume && not (safe_registration request intent.tool_name w)))
        (failing policy_denied)
    check_arguments (o.validate tool.spec.input_schema intent.arguments)
    let a = authorization o request tool.identity tool.spec intent.arguments
    require (not (is_deny a)) (failing policy_denied)
    ok (record { tool = tool; grant = grant; authorization = a })

  unfoldable pub admit : RunRequest → ToolIntent → Bool → World H X → Result Stop (Admitted H)
  admit request intent duplicate w = do
    require (leb (o.payload_size (object intent.arguments)) policy.max_tool_argument_bytes)
        (failing tool_arguments_too_large)
    require (not duplicate) (failing duplicate_call_id)
    grant ← or_stop (grant_for request w)
    elim (registered request intent.tool_name w) [
      | none ↦ err (failing tool_not_granted)
      | some tool ↦ admit_tool request intent grant tool w
    ]

  -- The approval of a call: `approved_by`, which is `None` when none is required.
  unfoldable pub approve :
      RunRequest
      → ToolIntent
      → Admitted H
      → World H X
      → World H X × Result FailureCode (Option String)
  approve request intent a w =
      let expected = target_of o request intent a in
      if not (needs_approval policy a) then (w, ok none) else elim intent.approval_token [
        | some token ↦
            let r = consume_if_matches o.token_digest w.now token expected w.approvals in
            (record w { approvals = r.0 }, check_binding w.now expected r.1)
        | none ↦ elim o.interactive_approvals [
          | none ↦ (w, err approval_required)
          | some ask ↦
              let r = ask request expected a.tool.spec intent.arguments w in
              (r.0, check_binding r.0.now expected r.1)
        ]
      ]
