-- ===== src/Runner/Visible.antt =====
-- src/suiteharness/execution/runner.py: `_visible_tools`, the tools that a frame offers.
use suite_harness.Base.{
  String, Bool, ◌&&◌, not, none, some, List, [], ◌∷◌, if◌then◌else◌, contains, string_eq, is_some,
}
use suite_harness.Base.KeySet.{add, subset}
use suite_harness.Base.Names.{sorted}
use suite_harness.Tools.{ToolIdentity, identity_eq, ToolSpec, is_read}
use suite_harness.Registry.{RegisteredTool}
use suite_harness.Grants.Model.{CapabilityGrant}
use suite_harness.Runner.{RunRequest, World}
use suite_harness.Runner.Authorize.{registered, safe_registration}

-- `{identity.name for identity in identities}`
unfoldable pub names_of : List ToolIdentity → List String
unfolding add
names_of [] = []
names_of (i ∷ identities) = add i.name (names_of identities)

module _ {H X : Type 0} where
  -- The tests of one turn of the loop, on the registration that was found.
  unfoldable pub is_visible :
      RunRequest → CapabilityGrant → World H X → String → RegisteredTool H → Bool
  is_visible request grant w name item =
      contains item.identity grant.tool_identities
      && subset item.spec.required_capabilities grant.capabilities
      && not (request.read_only && not (is_read item.spec))
      && not (is_some request.resume && not (safe_registration request name w))

  unfoldable pub visible_among :
      RunRequest → CapabilityGrant → World H X → List String → List ToolSpec
  visible_among request grant w [] = []
  visible_among request grant w (name ∷ names) =
      let rest = visible_among request grant w names in
      elim (registered request name w) [
        | none ↦ rest
        | some item ↦ if is_visible request grant w name item then item.spec ∷ rest else rest
      ]

  unfoldable pub visible_tools : RunRequest → CapabilityGrant → World H X → List ToolSpec
  visible_tools request grant w =
      visible_among request grant w (sorted (names_of grant.tool_identities))
