-- ===== src/Tools.antt =====
-- src/suiteharness/execution/models.py: tool identities, tool specifications and their effects.
pub mod Effects
mod Tests
use Prim.Native.String.{◌++◌ as ◌<>◌}
use suite_harness.Base.{
  String, ◌≡◌, ◌↔◌, Bool, true, false, ◌&&◌, ◌||◌, not, List, [], ◌∷◌, arith, any, HasEq, ◌==◌,
  string_eq, Result, ok, err, ◌>>=◌, ◌>>◌, require,
}
use suite_harness.Base.Json.{Json}
use suite_harness.Scopes
use suite_harness.Scopes.{ScopePath, root_path, tenant_path, product_path, agent_path}

pub data ToolEffect : Type 0 where
  read write destructive external : ToolEffect

abbrev pub effect_beq : ToolEffect → ToolEffect → Bool
effect_beq read read = true
effect_beq write write = true
effect_beq destructive destructive = true
effect_beq external external = true
effect_beq _ _ = false

-- `effect in effects`
abbrev pub has_effect : ToolEffect → List ToolEffect → Bool
has_effect x effects = any (effect_beq x) effects

pub record ToolIdentity : Type 0 where
  pub namespace : String
  pub name : String
  pub origin : String
  pub version : String

abbrev pub identity_beq : ToolIdentity → ToolIdentity → Bool
identity_beq a b =
    a.namespace == b.namespace && a.name == b.name && a.origin == b.origin && a.version == b.version

pub identity_beq_iff : (a b : ToolIdentity) → (identity_beq a b ≡ true) ↔ (a ≡ b)
identity_beq_iff a b = ground (
  arith,
  string_eq.same_iff a.namespace b.namespace,
  string_eq.same_iff a.name b.name,
  string_eq.same_iff a.origin b.origin,
  string_eq.same_iff a.version b.version,
)

instance abbrev pub identity_eq : HasEq ToolIdentity
identity_eq = record { same = identity_beq; same_iff = identity_beq_iff }

pub data ToolError : Type 0 where
  value_error : ToolError

-- `ToolIdentity.scoped`, at version "1".
unfoldable pub scoped : ScopePath → String → Result ToolError ToolIdentity
scoped root_path name =
    ok (record { namespace = "root"; name = name; origin = "scope:root"; version = "1" })
scoped (tenant_path t) name =
    ok (record { namespace = "tenant"; name = name; origin = "scope:tenant:" <> t; version = "1" })
scoped (product_path t p) name = ok (record {
  namespace = "product";
  name = name;
  origin = "scope:product:" <> (t <> (":" <> p));
  version = "1";
})
scoped (agent_path t p a s) name = err value_error

pub record ToolSpec : Type 0 where
  pub name : String
  pub effects : List ToolEffect
  pub required_capabilities : List String
  pub input_schema : Json

-- `validate_effects`
unfoldable pub validate_effects : List ToolEffect → Result ToolError (Unit {0})
validate_effects [] = err value_error
validate_effects (e ∷ es) = do
  let effects = e ∷ es
  require (has_effect read effects || has_effect write effects) value_error
  require (not (has_effect destructive effects && not (has_effect write effects))) value_error
  require (not (has_effect read effects && has_effect write effects)) value_error
  ok tt

-- `is_read`
unfoldable pub is_read : ToolSpec → Bool
is_read spec = has_effect read spec.effects && not (has_effect write spec.effects)
