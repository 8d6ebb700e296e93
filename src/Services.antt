-- ===== src/Services.antt =====
-- src/suiteharness/runtime/scopes.py, `ServiceKey` and `ServiceBindings`: layers of services, each
-- with a parent that it falls back to. The classes of contracts and `isinstance` are parameters.
pub mod Overrides
mod Tests
use suite_harness.Base.{
  map, ℕ, leb, nat_beq, String, Bool, true, false, ◌&&◌, ◌||◌, not, Option, none, some, List, [],
  ◌∷◌, HasEq, ◌==◌, string_eq, contains, is_some, if◌then◌else◌, Result, ok, err, ◌>>=◌, ◌>>◌,
  require,
}
use suite_harness.Base.Dict
use suite_harness.Base.Names.{codes, sorted}
use suite_harness.Base.Dict.{Dict}
use suite_harness.Scopes.{ScopeKind, root, tenant, product, agent, kind_beq}

abbrev pub includes_kind : ScopeKind → List ScopeKind → Bool
includes_kind k [] = false
includes_kind k (x ∷ xs) = kind_beq x k || includes_kind k xs

abbrev pub kinds_subset : List ScopeKind → List ScopeKind → Bool
kinds_subset [] ys = true
kinds_subset (x ∷ xs) ys = includes_kind x ys && kinds_subset xs ys

-- `_CHILD_KIND.get(kind)`
abbrev pub child_kind : ScopeKind → Option ScopeKind
child_kind root = some tenant
child_kind tenant = some product
child_kind product = some agent
child_kind agent = none

pub data ServiceError : Type 0 where
  repeated_scope wrong_parent duplicate_name not_bindable_here wrong_type : ServiceError
  redefined not_overridable not_bound incompatible_key bad_name : ServiceError

-- `ServiceKey`, with the class of its contract.
pub record ServiceKey (C : Type 0) : Type 0 where
  pub name : String
  pub contract : C
  pub declared_at : ScopeKind
  pub overridable_at : List ScopeKind

-- `_Binding`
pub record Binding (C V : Type 0) : Type 0 where
  pub key : ServiceKey C
  pub value : V

-- `ServiceBindings`: the root layer, or a layer with its kind and its parent.
pub data ServiceBindings (C V : Type 0) : Type 0 where
  root_layer : Dict String (Binding C V) → ServiceBindings C V
  layer : ScopeKind → Dict String (Binding C V) → ServiceBindings C V → ServiceBindings C V

-- `[a-z]`, `[a-z0-9]` and `[._:/-]`
abbrev pub is_lower : ℕ → Bool
is_lower c = leb b'a' c && leb c b'z'

abbrev pub is_lower_or_digit : ℕ → Bool
is_lower_or_digit c = is_lower c || leb b'0' c && leb c b'9'

abbrev pub is_separator : ℕ → Bool
is_separator c =
    nat_beq c b'.' || nat_beq c b'_' || nat_beq c b':' || nat_beq c b'/' || nat_beq c b'-'

-- The rest of a name; the flag says whether a separator has just been read.
unfoldable pub service_rest : Bool → List ℕ → Bool
service_rest separated [] = not separated
service_rest separated (c ∷ cs) =
    let in_part = service_rest false cs in
    let after = service_rest true cs in
    if is_lower_or_digit c then in_part else is_separator c && not separated && after

-- `^[a-z][a-z0-9]*(?:[._:/-][a-z0-9]+)*$`
unfoldable pub is_service_name : List ℕ → Bool
is_service_name [] = false
is_service_name (c ∷ cs) = is_lower c && service_rest false cs

-- `ServiceKey(…)` with its `__post_init__`; a contract is a class by its type.
unfoldable pub service_key :
    {C : Type 0} → String → C → ScopeKind → List ScopeKind → Result ServiceError (ServiceKey C)
service_key name contract declared_at overridable_at = do
  require (is_service_name (codes name)) bad_name
  require (not (includes_kind declared_at overridable_at)) repeated_scope
  ok (record {
    name = name;
    contract = contract;
    declared_at = declared_at;
    overridable_at = overridable_at;
  })

-- `kind in key.binding_scopes`
abbrev pub bindable_at : {C : Type 0} → ScopeKind → ServiceKey C → Bool
bindable_at kind key = kind_beq key.declared_at kind || includes_kind kind key.overridable_at

module _ {C V : Type 0} where
  unfoldable pub kind_of : ServiceBindings C V → ScopeKind
  kind_of (root_layer values) = root
  kind_of (layer kind values parent) = kind

  -- `_find`
  unfoldable pub find_binding : String → ServiceBindings C V → Option (Binding C V)
  find_binding name (root_layer values) = Dict.get name values
  find_binding name (layer kind values parent) =
      let inherited = find_binding name parent in
      elim (Dict.get name values) [ none ↦ inherited | some b ↦ some b ]

  -- `values.update({name: binding.value for …})`
  unfoldable pub updated_with : Dict String (Binding C V) → Dict String V → Dict String V
  updated_with [] values = values
  updated_with ((name, b) ∷ bindings) values = updated_with bindings (Dict.put name b.value values)

  -- `snapshot`, from the root layer on
  unfoldable pub snapshot : ServiceBindings C V → Dict String V
  snapshot (root_layer bindings) = updated_with bindings []
  snapshot (layer kind bindings parent) = updated_with bindings (snapshot parent)

  -- `local_names`
  unfoldable pub local_names : ServiceBindings C V → List String
  local_names (root_layer bindings) = sorted (map (λ (e : String × Binding C V). e.0) bindings)
  local_names (layer kind bindings parent) =
      sorted (map (λ (e : String × Binding C V). e.0) bindings)

module _ {C V : Type 0} (same_contract : C → C → Bool) (instance_of : C → V → Bool) where
  -- `a == b`, of two keys
  abbrev pub key_beq : ServiceKey C → ServiceKey C → Bool
  key_beq a b =
      a.name == b.name
      && same_contract a.contract b.contract
      && kind_beq a.declared_at b.declared_at
      && kinds_subset a.overridable_at b.overridable_at
      && kinds_subset b.overridable_at a.overridable_at

  -- What an inherited binding allows.
  unfoldable pub check_inherited :
      ScopeKind → ServiceKey C → Option (Binding C V) → Result ServiceError (Unit {0})
  check_inherited kind key none = ok tt
  check_inherited kind key (some inherited) = do
    require (key_beq inherited.key key) redefined
    require (includes_kind kind key.overridable_at) not_overridable

  -- The loop over the values; `inherited` is `parent._find`, or finds nothing without a parent.
  unfoldable pub bind_values :
      ScopeKind
      → (String → Option (Binding C V))
      → List (ServiceKey C × V)
      → Dict String (Binding C V)
      → Result ServiceError (Dict String (Binding C V))
  bind_values kind inherited [] local = ok local
  bind_values kind inherited ((key, value) ∷ values) local = do
    require (not (Dict.has key.name local)) duplicate_name
    require (bindable_at kind key) not_bindable_here
    require (instance_of key.contract value) wrong_type
    checked ← check_inherited kind key (inherited key.name)
    bind_values kind inherited values
        (Dict.put key.name (record { key = key; value = value }) local)

  -- `ServiceBindings.root(values)`
  unfoldable pub root_bindings : List (ServiceKey C × V) → Result ServiceError (ServiceBindings C V)
  root_bindings values = do local ← bind_values root (λ name. none) values []; ok (root_layer local)

  -- `parent.derive(kind, values)`
  unfoldable pub derive :
      ScopeKind
      → List (ServiceKey C × V)
      → ServiceBindings C V
      → Result ServiceError (ServiceBindings C V)
  derive kind values parent = do
    require (elim (child_kind (kind_of parent)) [ none ↦ false | some k ↦ kind_beq k kind ])
        wrong_parent
    local ← bind_values kind (λ name. find_binding name parent) values []
    ok (layer kind local parent)

  -- `resolve(key)`
  unfoldable pub resolve_service : ServiceKey C → ServiceBindings C V → Result ServiceError V
  resolve_service key b = elim (find_binding key.name b) [
    | none ↦ err not_bound
    | some x ↦ if key_beq x.key key then ok x.value else err incompatible_key
  ]

  -- `contains(key)`
  unfoldable pub contains_service : ServiceKey C → ServiceBindings C V → Bool
  contains_service key b = elim (find_binding key.name b) [
    | none ↦ false
    | some x ↦ key_beq x.key key
  ]

  -- A layer below a layer, and so on.
  unfoldable pub derive_all :
      List (ScopeKind × List (ServiceKey C × V))
      → ServiceBindings C V
      → Result ServiceError (ServiceBindings C V)
  derive_all [] b = ok b
  derive_all ((kind, values) ∷ layers) b = do child ← derive kind values b; derive_all layers child
