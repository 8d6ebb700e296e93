-- ===== src/Runner/Offered.antt =====
-- The tools that a frame offers, compared with the calls that are admitted.
use suite_harness.Base.{
  String, ◌≡◌, ◌↔◌, refl, sym, ◌∙◌, ap, inl, inr, Bool, true, false, ◌&&◌, none, some, List, [],
  ◌∷◌, arith, any, leb, ◌==◌, string_eq, contains, Option-cases, same_cases, same_self, same_ne, ok,
}
use suite_harness.Base.Json.{object}
use suite_harness.Base.KeySet.{contains-add}
use suite_harness.Base.Names.{sorted, contains-sorted}
use suite_harness.Tools.{ToolIdentity, identity_eq, ToolSpec}
use suite_harness.Registry.{RegisteredTool}
use suite_harness.Registry.Keys.{IsKeyed, resolve_named}
use suite_harness.Grants.Model.{CapabilityGrant}
use suite_harness.Runner.{accepted, ToolIntent, RunRequest, World, Outside}
use suite_harness.Runner.Policy.{ExecutionPolicy}
use suite_harness.Runner.Authorize.{
  or_stop, check_arguments, Admitted, registered, grant_for, authorization, is_deny, admit_tool,
  admit,
}
use suite_harness.Runner.Visible.{names_of, is_visible, visible_among, visible_tools}

contains-names_of :
    (i : ToolIdentity) (identities : List ToolIdentity)
    → contains i identities ≡ true
    → contains i.name (names_of identities) ≡ true
unfolding names_of
contains-names_of i [] h = ground arith
contains-names_of i (j ∷ identities) h = elim (same_cases j i) [
  | inl e ↦
      contains-add j.name i.name (names_of identities) ∙ rw e (ground (arith, same_self i.name))
  | inr ne ↦
      contains-add j.name i.name (names_of identities)
      ∙ ground (arith, contains-names_of i identities (ground (arith, h, same_ne j i ne)))
]

module _ {H X : Type 0} (request : RunRequest) (grant : CapabilityGrant) (w : World H X)
    (keyed : IsKeyed w.registry) where
  abbrev shows : String → Bool
  shows n = elim (registered request n w) [
    | none ↦ false
    | some item ↦ is_visible request grant w n item
  ]

  visible_among-any :
      (n : String) (names : List String)
      → any (λ (s : ToolSpec). s.name == n) (visible_among request grant w names)
        ≡ (contains n names && shows n)
  unfolding visible_among
  visible_among-any n [] = refl
  visible_among-any n (m ∷ names) = elim (Option-cases (registered request m w)) [
    | inl e ↦ ground (arith, e, visible_among-any n names, string_eq.same_iff m n)
    | inr (t, e) ↦ ground (
      arith,
      e,
      (resolve_named request.scope m w.registry t keyed e).0,
      visible_among-any n names,
      string_eq.same_iff m n,
    )
  ]

module _ {H X : Type 0} (o : Outside H X) (policy : ExecutionPolicy) (request : RunRequest)
    (intent : ToolIntent) (w : World H X) (grant : CapabilityGrant) (tool : RegisteredTool H)
    (keyed : IsKeyed w.registry) (g : grant_for request w ≡ ok grant)
    (r : registered request intent.tool_name w ≡ some tool) where
  is_visible_granted :
      is_visible request grant w intent.tool_name tool ≡ true
      → contains tool.identity grant.tool_identities ≡ true
  unfolding is_visible
  is_visible_granted h = ground (arith, h)

  visible_tools-any :
      any (λ (s : ToolSpec). s.name == intent.tool_name) (visible_tools request grant w)
      ≡ is_visible request grant w intent.tool_name tool
  unfolding visible_tools
  visible_tools-any =
      let n = intent.tool_name in
      let names = names_of grant.tool_identities in
      let listed : contains tool.identity grant.tool_identities ≡ true → contains n names ≡ true =
        λ h.
          ap (λ x. contains x names) (sym (resolve_named request.scope n w.registry tool keyed r).1)
          ∙ contains-names_of tool.identity _ h in
      ground (
        arith,
        visible_among-any request grant w keyed n (sorted names),
        contains-sorted n names,
        r,
        listed,
        is_visible_granted,
      )

  -- Where the registry keeps every tool under its own name, a frame offers a tool exactly when a call
  -- of it is admitted whose call id is new and whose arguments are small enough, match the schema and
  -- are not denied by the policy.
  pub offered_iff_admitted :
      leb (o.payload_size (object intent.arguments)) policy.max_tool_argument_bytes ≡ true
      → o.validate tool.spec.input_schema intent.arguments ≡ accepted
      → is_deny (authorization o request tool.identity tool.spec intent.arguments) ≡ false
      → (any (λ (s : ToolSpec). s.name == intent.tool_name) (visible_tools request grant w) ≡ true)
        ↔ ((a : Admitted H) × (admit o policy request intent false w ≡ ok a))
  unfolding admit admit_tool or_stop check_arguments is_visible
  offered_iff_admitted small valid allowed = (
    λ h.
        let v : is_visible request grant w intent.tool_name tool ≡ true =
          sym visible_tools-any ∙ h in
        (
          record {
            tool = tool;
            grant = grant;
            authorization = authorization o request tool.identity tool.spec intent.arguments;
          },
          ground (arith, small, valid, allowed, g, r, v),
        ),
    λ h.
        let v : is_visible request grant w intent.tool_name tool ≡ true =
          ground (arith, small, valid, allowed, g, r, h.1) in
        visible_tools-any ∙ v,
  )
