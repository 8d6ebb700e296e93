-- ===== src/Grants.antt =====
-- src/suiteharness/execution/in_memory.py, `InMemoryCapabilityAuthority`: grants of tools and
-- capabilities, child grants that are issued from live parents, the activations that own products,
-- and revocation. Grant ids, which `secrets` draws, are arguments; times are ticks.
pub mod Model
pub mod Revoking
pub mod Loops
pub mod Lineage
pub mod Issue
pub mod Revocation
pub mod Order
pub mod Histories
pub mod Liveness
mod Tests
use suite_harness.Base.{
  ℕ, zero, suc, ◌+◌, ◌≡◌, min, String, Bool, true, false, ◌&&◌, ◌||◌, not, Option, none, some, List,
  [], ◌∷◌, ◌++◌, map, leb, ltb, if◌then◌else◌, nat_beq, ◌==◌, string_eq, pair_eq, option_eq, length,
  keep, any, all, is_some, sum, Result, ok, err, ◌>>=◌, ◌>>◌, require,
}
use suite_harness.Base.Dict
use suite_harness.Base.Dict.{Dict}
use suite_harness.Base.KeySet.{add, discard, subset}
use suite_harness.Base.Names.{codes, is_identifier}
use suite_harness.Scopes.{ScopePath, product_path, agent_path}
use suite_harness.Tools.{ToolIdentity, identity_eq}
use suite_harness.Grants.Model.{CapabilityGrant, GrantError, value_error, validate_grant}

pub record Authority : Type 0 where
  pub grants : Dict String CapabilityGrant
  pub grant_owners : Dict String (Option String)
  pub active_owners : Dict (String × String) String
  pub owner_grants : Dict String (List String)
  pub grant_parents : Dict String String
  pub grant_children : Dict String (List String)

abbrev pub empty_authority : Authority
empty_authority = record {
  grants = [];
  grant_owners = [];
  active_owners = [];
  owner_grants = [];
  grant_parents = [];
  grant_children = [];
}

-- `d.setdefault(k, set()).add(x)`
unfoldable pub add_to : String → String → Dict String (List String) → Dict String (List String)
add_to k x d = Dict.put k (add x (elim (Dict.get k d) [ none ↦ [] | some xs ↦ xs ])) d

abbrev pub active_owner : CapabilityGrant → Authority → Option String
active_owner g s = Dict.get (g.tenant_id, g.product_id) s.active_owners

-- `self._grant_owners.get(grant_id)`
abbrev pub owner_of : String → Authority → Option String
owner_of grant_id s = elim (Dict.get grant_id s.grant_owners) [ none ↦ none | some o ↦ o ]

-- The writes of a registration, for an owner that may be `None`.
abbrev pub store_grant : CapabilityGrant → Option String → Authority → Authority
store_grant g owner s = record s {
  grants = Dict.put g.grant_id g s.grants;
  grant_owners = Dict.put g.grant_id owner s.grant_owners;
  owner_grants = elim owner [ none ↦ s.owner_grants | some o ↦ add_to o g.grant_id s.owner_grants ];
}

unfoldable pub register : CapabilityGrant → Authority → Result GrantError Authority
unfolding add_to
register g s = do
  require (not (Dict.has g.grant_id s.grants)) value_error
  ok (store_grant g (active_owner g s) s)

-- `scope.tenant_id` and `scope.product_id`, of a scope that grants are issued for.
unfoldable pub grant_scope : ScopePath → Option (String × String)
grant_scope (product_path t p) = some (t, p)
grant_scope (agent_path t p a s) = some (t, p)
grant_scope _ = none

unfoldable pub issue :
    ℕ
    → ScopePath
    → List ToolIdentity
    → List String
    → Option String
    → ℕ
    → String
    → Authority
    → Result GrantError (Authority × CapabilityGrant)
unfolding register validate_grant
issue now scope tools capabilities principal lifetime drawn s = elim (grant_scope scope) [
  | none ↦ err value_error
  | some (tenant, product) ↦ do
    require (ltb 0 lifetime) value_error
    let g : CapabilityGrant = record {
      grant_id = drawn;
      tenant_id = tenant;
      product_id = product;
      tool_identities = tools;
      capabilities = capabilities;
      principal_id = principal;
      issued_at = now;
      expires_at = now + lifetime;
    }
    validate_grant g
    s' ← register g s
    ok (s', g)
]

-- `_grant_live_locked`: the loop over the ancestors, on fuel; `none` if the fuel does not suffice.
unfoldable pub live_loop : ℕ → ℕ → String → Authority → Option Bool
live_loop zero now grant_id s = none
live_loop (suc fuel) now grant_id s = elim (Dict.get grant_id s.grants) [
  | none ↦ some false
  | some g ↦
      if leb g.expires_at now
      then some false
      else if not (owner_of grant_id s == active_owner g s)
      then some false
      else elim (Dict.get grant_id s.grant_parents) [
        | none ↦ some true
        | some parent ↦ live_loop fuel now parent s
      ]
]

abbrev pub chain_fuel : Authority → ℕ
chain_fuel s = suc (length s.grants)

unfoldable pub grant_live : ℕ → String → Authority → Bool
unfolding live_loop
grant_live now grant_id s = elim (live_loop (chain_fuel s) now grant_id s) [
  | none ↦ false
  | some live ↦ live
]

-- The arguments of `issue_child` but for the parent.
pub record ChildArgs : Type 0 where
  pub scope : ScopePath
  pub tool_identities : List ToolIdentity
  pub capabilities : List String
  pub principal_id : String
  pub lifetime : ℕ
  pub drawn : String

abbrev pub child_grant : ℕ → ChildArgs → CapabilityGrant → CapabilityGrant
child_grant now args parent = record {
  grant_id = args.drawn;
  tenant_id = parent.tenant_id;
  product_id = parent.product_id;
  tool_identities = args.tool_identities;
  capabilities = args.capabilities;
  principal_id = some args.principal_id;
  issued_at = now;
  expires_at = min parent.expires_at (now + args.lifetime);
}

-- The writes of `issue_child`.
unfoldable pub store_child : String → CapabilityGrant → Authority → Authority
unfolding add_to
store_child parent_id g s =
    let s' : Authority = store_grant g (owner_of parent_id s) s in
    record s' {
      grant_parents = Dict.put g.grant_id parent_id s.grant_parents;
      grant_children = add_to parent_id g.grant_id s.grant_children;
    }

abbrev agent_scope : ScopePath → Option (String × String)
agent_scope (agent_path t p a s) = some (t, p)
agent_scope _ = none

unfoldable pub issue_child :
    ℕ → String → ChildArgs → Authority → Result GrantError (Authority × CapabilityGrant)
unfolding grant_live validate_grant store_child
issue_child now parent_id args s = do
  require (is_some (agent_scope args.scope)) value_error
  require (ltb 0 args.lifetime) value_error
  elim (Dict.get parent_id s.grants) [
    | none ↦ err value_error
    | some parent ↦ do
      require (grant_live now parent_id s) value_error
      require (agent_scope args.scope == some (parent.tenant_id, parent.product_id)) value_error
      require (elim parent.principal_id [ none ↦ true | some p ↦ args.principal_id == p ])
          value_error
      require (subset args.tool_identities parent.tool_identities) value_error
      require (subset args.capabilities parent.capabilities) value_error
      let g = child_grant now args parent
      validate_grant g
      require (not (Dict.has g.grant_id s.grants)) value_error
      ok (store_child parent_id g s, g)
  ]

unfoldable pub resolve : ℕ → String → Authority → Option CapabilityGrant
unfolding grant_live
resolve now grant_id s = elim (Dict.get grant_id s.grants) [
  | none ↦ none
  | some g ↦
      if Dict.has grant_id s.grant_parents
      then (if grant_live now grant_id s then some g else none)
      else if owner_of grant_id s == active_owner g s
      then some g
      else none
]
