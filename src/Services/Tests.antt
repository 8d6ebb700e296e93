-- ===== src/Services/Tests.antt =====
-- A service of the root that tenants may not replace, and one that they may.
use suite_harness.Base.{
  false, true, ℕ, String, ◌≡◌, refl, Bool, true, some, List, [], ◌∷◌, nat_beq, ok, err, Ends, ◌>>=◌,
}
use suite_harness.Base.Dict
use suite_harness.Scopes.{ScopeKind, root, tenant, product}
use suite_harness.Base.Names.{codes}
use suite_harness.Services.{
  snapshot, updated_with, service_key, is_service_name, service_rest, ServiceKey, ServiceBindings,
  root_layer, not_bindable_here, kind_of, find_binding, check_inherited, bind_values, root_bindings,
  derive, derive_all, resolve_service,
}
use suite_harness.Services.Overrides.{resolve_fixed}

abbrev any_value : ℕ → String → Bool
any_value contract value = true

abbrev clock : ServiceKey ℕ
clock = record { name = "clock"; contract = 1; declared_at = root; overridable_at = [] }

abbrev model : ServiceKey ℕ
model = record { name = "model"; contract = 2; declared_at = root; overridable_at = tenant ∷ [] }

abbrev at_root : ServiceBindings ℕ String
at_root = root_layer (
    ("clock", record { key = clock; value = "system" })
    ∷ ("model", record { key = model; value = "small" })
    ∷ [])

abbrev layers : List (ScopeKind × List (ServiceKey ℕ × String))
layers = (tenant, (model, "large") ∷ []) ∷ (product, []) ∷ []

binds_root :
    root_bindings nat_beq any_value ((clock, "system") ∷ (model, "small") ∷ []) ≡ ok at_root
unfolding root_bindings bind_values check_inherited Dict.get Dict.put
binds_root = refl

clock_is_fixed :
    derive nat_beq any_value tenant ((clock, "fake") ∷ []) at_root ≡ err not_bindable_here
unfolding derive kind_of bind_values check_inherited find_binding Dict.get Dict.put
clock_is_fixed = refl

model_is_replaced :
    (derive_all nat_beq any_value layers at_root >>= resolve_service nat_beq any_value model)
    ≡ ok "large"
unfolding derive_all resolve_service derive kind_of bind_values check_inherited find_binding
    Dict.get Dict.put
model_is_replaced = refl

makes_clock : service_key "clock" 1 root [] ≡ ok clock
unfolding service_key is_service_name service_rest
makes_clock = refl

parted_name : is_service_name (codes "a1.b-2/c") ≡ true
unfolding is_service_name service_rest
parted_name = refl

empty_part : is_service_name (codes "a..b") ≡ false
unfolding is_service_name service_rest
empty_part = refl

reads_both_layers :
    (derive_all nat_beq any_value layers at_root >>= λ b. ok (snapshot b))
    ≡ ok (("clock", "system") ∷ ("model", "large") ∷ [])
unfolding derive_all derive kind_of bind_values check_inherited find_binding snapshot updated_with
    Dict.get Dict.put
reads_both_layers = refl

clock_found : find_binding "clock" at_root ≡ some (record { key = clock; value = "system" })
unfolding find_binding Dict.get
clock_found = refl

resolve_fixed_example :
    Ends
      (λ e. Unit {0})
      (λ child.
        resolve_service nat_beq any_value clock child
        ≡ resolve_service nat_beq any_value clock at_root)
      (derive_all nat_beq any_value layers at_root)
resolve_fixed_example =
    resolve_fixed nat_beq any_value layers clock (record { key = clock; value = "system" }) at_root
      clock_found refl
