-- ===== src/Registry.antt =====
-- src/suiteharness/execution/in_memory.py, `InMemoryToolRegistry`: tools registered under a scope
-- and a name, and looked up from the product of a request outwards. What the JSON Schema library
-- says of a schema, and the registration ids that `secrets` draws, are parameters; the compiled
-- validator, a function of the stored specification, is not kept.
pub mod Schemas
pub mod Entries
pub mod Protection
pub mod Histories
pub mod Keys
pub mod Ownership
mod Tests
use suite_harness.Base.{
  String, ◌≡◌, Bool, true, false, ◌&&◌, ◌||◌, not, Option, none, some, List, [], ◌∷◌, any, ◌==◌,
  string_eq, pair_eq, option_eq, is_some, if◌then◌else◌, nat_beq, Result, ok, err, ◌>>=◌, ◌>>◌,
  require,
}
use suite_harness.Base.Dict
use suite_harness.Base.Dict.{Dict}
use suite_harness.Base.Json.{
  Json, null, boolean, number, float, text, array, object, Items, nil, cons, Fields, end, field,
}
use suite_harness.Base.Names.{codes}
use suite_harness.Scopes.{
  ScopePath, root_path, tenant_path, product_path, agent_path, path_eq, RequestScope,
}
use suite_harness.Tools.{ToolIdentity, identity_eq, ToolSpec, scoped}
use suite_harness.Registry.Schemas.{refers_remotely}

pub data RegistryError : Type 0 where
  value_error : RegistryError
  schema_error : RegistryError

-- The three kinds of scope that tools may be registered at.
abbrev pub takes_tools : ScopePath → Bool
takes_tools (agent_path t p a s) = false
takes_tools _ = true

abbrev pub is_root : ScopePath → Bool
is_root root_path = true
is_root _ = false

-- `_PROTECTED_NAMESPACES`
abbrev pub is_reserved : String → Bool
is_reserved namespace = namespace == "suiteharness" || namespace == "framework"

-- `RegisteredTool`, with handlers in `H`.
pub record RegisteredTool (H : Type 0) : Type 0 where
  pub registration_scope : ScopePath
  pub identity : ToolIdentity
  pub spec : ToolSpec
  pub handler : H

pub record RegisteredEntry (H : Type 0) : Type 0 where
  pub item : RegisteredTool H
  pub registration_id : String
  pub protected : Bool

abbrev pub ToolKey : Type 0
ToolKey = ScopePath × String

pub record Registry (H : Type 0) : Type 0 where
  pub items : Dict ToolKey (RegisteredEntry H)
  pub protected_names : Dict String String

abbrev pub empty_registry : {H : Type 0} → Registry H
empty_registry = record { items = []; protected_names = [] }

-- `ToolRegistrationHandle`, of the one registry.
pub record Handle : Type 0 where
  pub scope : ScopePath
  pub tool_name : String
  pub identity : ToolIdentity
  pub registration_id : String
  pub closed : Bool

-- The candidates of a request's path, which is a product's or an agent's.
abbrev pub candidates : ScopePath → List ScopePath
candidates (product_path t p) = product_path t p ∷ tenant_path t ∷ root_path ∷ []
candidates (agent_path t p a s) = product_path t p ∷ tenant_path t ∷ root_path ∷ []
candidates _ = []

unfoldable pub registration_candidates : RequestScope → List ScopePath
registration_candidates scope = candidates scope.path

-- `identity or ToolIdentity(…)`
unfoldable pub protected_identity : Option ToolIdentity → ToolSpec → ToolIdentity
protected_identity (some identity) spec = identity
protected_identity none spec = record {
  namespace = "suiteharness";
  name = spec.name;
  origin = "suiteharness.framework";
  version = "1";
}

module _ {H : Type 0} where
  -- The critical section of `_register`.
  unfoldable pub add_entry :
      ScopePath → RegisteredEntry H → Registry H → Result RegistryError (Registry H)
  add_entry scope entry s = do
    let name = entry.item.spec.name
    require (not (not (is_root scope) && Dict.has name s.protected_names)) value_error
    require
        (not (
          entry.protected
          && any (λ (e : ToolKey × RegisteredEntry H). e.0.1 == name && not (is_root e.0.0))
              s.items))
        value_error
    require (not (Dict.has (scope, name) s.items)) value_error
    require
        (not (
          any (λ (e : ToolKey × RegisteredEntry H). e.1.item.identity == entry.item.identity)
            s.items))
        value_error
    ok (record {
      items = Dict.put (scope, name) entry s.items;
      protected_names =
          if entry.protected
          then Dict.put name entry.registration_id s.protected_names
          else s.protected_names;
    })

module _ {H : Type 0} (check_schema : Json → Bool) where
  -- `_register`; `drawn` is the registration id.
  unfoldable pub register_entry :
      ScopePath
      → ToolSpec
      → H
      → ToolIdentity
      → Bool
      → String
      → Registry H
      → Result RegistryError (Registry H × Handle)
  unfolding refers_remotely
  register_entry scope spec handler identity protected drawn s = do
    require (takes_tools scope) value_error
    require (identity.name == spec.name) value_error
    require (not (not protected && is_reserved identity.namespace)) value_error
    require (not (refers_remotely spec.input_schema)) schema_error
    require (check_schema spec.input_schema) schema_error
    s' ←
        add_entry scope
          (record {
            item = record {
              registration_scope = scope;
              identity = identity;
              spec = spec;
              handler = handler;
            };
            registration_id = drawn;
            protected = protected;
          })
          s
    ok (
      s',
      record {
        scope = scope;
        tool_name = spec.name;
        identity = identity;
        registration_id = drawn;
        closed = false;
      },
    )

  unfoldable pub register :
      ScopePath → ToolSpec → H → String → Registry H → Result RegistryError (Registry H × Handle)
  register scope spec handler drawn s = elim (scoped scope spec.name) [
    | err e ↦ err value_error
    | ok identity ↦ register_entry scope spec handler identity false drawn s
  ]

  unfoldable pub register_protected :
      ToolSpec
      → H
      → Option ToolIdentity
      → String
      → Registry H
      → Result RegistryError (Registry H × Handle)
  unfolding protected_identity
  register_protected spec handler identity drawn s = do
    require (is_reserved (protected_identity identity spec).namespace) value_error
    register_entry root_path spec handler (protected_identity identity spec) true drawn s

module _ {H : Type 0} where
  -- The removal of a stored entry, with the protection of its name if it is the entry's own.
  unfoldable pub drop_entry : ToolKey → RegisteredEntry H → Registry H → Registry H
  drop_entry key current s = record {
    items = Dict.remove key s.items;
    protected_names =
        if current.protected && Dict.get key.1 s.protected_names == some current.registration_id
        then Dict.remove key.1 s.protected_names
        else s.protected_names;
  }

  unfoldable pub unregister : ScopePath → String → Handle → Registry H → Registry H × Handle × Bool
  unfolding drop_entry
  unregister scope tool_name owner s =
      if not (owner.scope == scope && owner.tool_name == tool_name)
      then (s, owner, false)
      else elim (Dict.get (scope, tool_name) s.items) [
        | none ↦ (s, owner, false)
        | some current ↦
            if current.registration_id == owner.registration_id
            then (drop_entry (scope, tool_name) current s, record owner { closed = true }, true)
            else (s, owner, false)
      ]

  unfoldable pub close : Handle → Registry H → Registry H × Handle
  close owner s =
      let r = unregister owner.scope owner.tool_name owner s in
      if owner.closed then (s, owner) else (r.0, r.1)

  unfoldable pub first_entry :
      List ScopePath → String → Dict ToolKey (RegisteredEntry H) → Option (RegisteredTool H)
  first_entry [] name items = none
  first_entry (scope ∷ scopes) name items = elim (Dict.get (scope, name) items) [
    | none ↦ first_entry scopes name items
    | some entry ↦ some entry.item
  ]

  unfoldable pub resolve : RequestScope → String → Registry H → Option (RegisteredTool H)
  unfolding first_entry registration_candidates
  resolve scope tool_name s = first_entry (registration_candidates scope) tool_name s.items
