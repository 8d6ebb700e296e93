-- ===== src/Grants/Tests.antt =====
-- A grant, a child grant and its own child, and the revocation of the first.
use suite_harness.Base.Names.{is_identifier}
use suite_harness.Base.KeySet.{add}
use suite_harness.Base.{
  ◌≡◌, refl, String, true, false, none, List, [], ◌∷◌, is_some, string_eq, pair_eq,
}
use suite_harness.Base.Dict
use suite_harness.Scopes.{product_path, agent_path}
use suite_harness.Tools.{ToolIdentity}
use suite_harness.Grants.{
  Authority, empty_authority, ChildArgs, child_grant, issue_child, resolve, live_loop, chain_fuel,
  store_child, issue, grant_scope,
}
use suite_harness.Grants.Revoking.{revoke, bind_activation, total_children}
use suite_harness.Grants.Model.{CapabilityGrant}
use suite_harness.Grants.Lineage.{AttenuatesAt}
use suite_harness.Grants.Issue.{IsIssued, issue_child-IsIssued}
use suite_harness.Grants.Histories.{
  Op, issues, issues_child, binds, run, step, child_attenuates, revoke_removes_descendants,
}
use suite_harness.Grants.Liveness.{IsCurrent, resolve_child-IsCurrent, live_loop_ends}

abbrev read_file : ToolIdentity
read_file = record {
  namespace = "suiteharness";
  name = "fs.read";
  origin = "suiteharness.builtin.fs";
  version = "1";
}

abbrev child_args : String → ChildArgs
child_args drawn = record {
  scope = agent_path "acme" "desk" "helper" "s1";
  tool_identities = read_file ∷ [];
  capabilities = [];
  principal_id = "alice";
  lifetime = 500;
  drawn = drawn;
}

abbrev history : List Op
history =
    binds "acme" ("desk" ∷ []) "kernel-1"
    ∷ issues 10 (product_path "acme" "desk") (read_file ∷ []) ("files.read" ∷ []) none 100 "g1"
    ∷ issues_child 11 "g1" (child_args "g2")
    ∷ issues_child 12 "g2" (child_args "g3")
    ∷ []

abbrev state : Authority
state = run history empty_authority

resolves_then_not :
    (is_some (resolve 20 "g3" state) ≡ true)
    × (is_some (resolve 110 "g3" state) ≡ false)
    × (is_some (resolve 20 "g3" (revoke "g1" state).0) ≡ false)
unfolding run resolve Dict.get step issue_child issue grant_scope is_identifier bind_activation
    Dict.put revoke add total_children Dict.remove
resolves_then_not = (refl, refl, refl)

child_attenuates_example : AttenuatesAt (Dict.get "g1" state.grants) (Dict.get "g2" state.grants)
unfolding run Dict.get step issue_child issue grant_scope is_identifier bind_activation Dict.put
child_attenuates_example = child_attenuates history "g2" "g1" refl

revoke_removes_descendants_example : Dict.has "g3" (revoke "g1" state).0.grants ≡ false
unfolding run Dict.get step issue_child issue grant_scope is_identifier bind_activation Dict.put
revoke_removes_descendants_example =
    revoke_removes_descendants history "g1" "g3" ("g2" ∷ "g1" ∷ []) (refl, (refl, refl)) refl

abbrev root_grant : CapabilityGrant
root_grant = record {
  grant_id = "g1";
  tenant_id = "acme";
  product_id = "desk";
  tool_identities = read_file ∷ [];
  capabilities = "files.read" ∷ [];
  principal_id = none;
  issued_at = 10;
  expires_at = 110;
}

abbrev child : CapabilityGrant
child = child_grant 11 (child_args "g2") root_grant

resolve_child-IsCurrent_example : IsCurrent 20 "g1" state
unfolding run resolve Dict.get step issue_child issue grant_scope is_identifier bind_activation
    Dict.put
resolve_child-IsCurrent_example =
    resolve_child-IsCurrent 20 "g2" "g1" ("g1" ∷ []) state child refl refl (refl, refl)

live_loop_ends_example : is_some (live_loop (chain_fuel state) 20 "g3" state) ≡ true
live_loop_ends_example = live_loop_ends history 20 "g3"

abbrev rooted : Authority
rooted =
    run
      (binds "acme" ("desk" ∷ []) "kernel-1"
        ∷ issues 10 (product_path "acme" "desk") (read_file ∷ []) ("files.read" ∷ []) none 100 "g1"
        ∷ [])
      empty_authority

issue_child-IsIssued_example :
    IsIssued 11 "g1" (child_args "g2") rooted (store_child "g1" child rooted) child
unfolding run issue_child Dict.get step issue grant_scope is_identifier bind_activation Dict.put
issue_child-IsIssued_example =
    issue_child-IsIssued 11 "g1" (child_args "g2") rooted (store_child "g1" child rooted) child refl
