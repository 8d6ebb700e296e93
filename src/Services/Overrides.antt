-- ===== src/Services/Overrides.antt =====
-- Which services the layers below a binding can replace.
use suite_harness.Base.{
  String, ◌≡◌, refl, ap, sym, ◌∙◌, inl, inr, Bool, true, false, not, Option, none, some, List, [],
  ◌∷◌, arith, string_eq, Bool-cases, Option-cases, same_cases, same_self, Result, ok, err, ◌>>=◌,
  ◌>>◌, require, if◌then◌else◌, Ends, Ends-bind,
}
use suite_harness.Base.Dict
use suite_harness.Base.Dict.{Dict, get-put, get-put_ne}
use mathlib.Core.Option.{some-injective}
use suite_harness.Scopes.{ScopeKind, kind_beq}
use suite_harness.Services.{
  includes_kind, kinds_subset, ServiceError, ServiceKey, Binding, ServiceBindings, layer,
  find_binding, child_kind, kind_of, duplicate_name, not_bindable_here, wrong_type, wrong_parent,
  bindable_at, key_beq, check_inherited, bind_values, derive, derive_all, resolve_service,
  incompatible_key,
}

weaken :
    {A : Type 0} (Q R : A → Type 0) (r : Result ServiceError A)
    → Ends (λ x. Unit {0}) Q r
    → ((a : A) → Q a → R a)
    → Ends (λ x. Unit {0}) R r
weaken Q R (ok a) h k = k a h
weaken Q R (err e) h k = tt

require_then :
    {A : Type 0} (Q : A → Type 0) (c : Bool) (e : ServiceError) (r : Result ServiceError A)
    → Ends (λ x. Unit {0}) Q r
    → Ends (λ x. Unit {0}) Q (require c e >> r)
require_then Q true e r h = h
require_then Q false e r h = tt

module _ {C V : Type 0} (same_contract : C → C → Bool) (instance_of : C → V → Bool) where
  -- What is bound in place of an inherited binding has the same key and may be overridden here.
  abbrev pub Replaces : ScopeKind → Binding C V → Binding C V → Type 0
  Replaces kind x y =
      (key_beq same_contract instance_of x.key y.key ≡ true)
      × (includes_kind kind y.key.overridable_at ≡ true)

  abbrev pub IsDeclared :
      ScopeKind → (String → Option (Binding C V)) → Dict String (Binding C V) → Type 0
  IsDeclared kind inherited local =
      (name : String) (x y : Binding C V)
      → inherited name ≡ some x
      → Dict.get name local ≡ some y
      → Replaces kind x y

  check_inherited-Replaces :
      (kind : ScopeKind) (key : ServiceKey C) (value : V) (o : Option (Binding C V))
      → Ends
          (λ e. Unit {0})
          (λ (u : Unit {0}).
            (x : Binding C V) → o ≡ some x → Replaces kind x (record { key = key; value = value }))
          (check_inherited same_contract instance_of kind key o)
  unfolding check_inherited
  check_inherited-Replaces kind key value none = λ x e. absurd (ground (arith, e))
  check_inherited-Replaces kind key value (some i) =
      elim (Bool-cases (key_beq same_contract instance_of i.key key)) [
        | inl a ↦ elim (Bool-cases (includes_kind kind key.overridable_at)) [
          | inl b ↦ rw (a, b) (λ x e. (rw (sym (some-injective i x e)) a, refl))
          | inr b ↦ rw (a, b) tt
        ]
        | inr a ↦ rw a tt
      ]

  put-IsDeclared :
      (kind : ScopeKind) (inherited : String → Option (Binding C V)) (b : Binding C V)
      (local : Dict String (Binding C V))
      → ((x : Binding C V) → inherited b.key.name ≡ some x → Replaces kind x b)
      → IsDeclared kind inherited local
      → IsDeclared kind inherited (Dict.put b.key.name b local)
  put-IsDeclared kind inherited b local new old name x y i g = elim (same_cases b.key.name name) [
    | inl e ↦
        let found : Dict.get name (Dict.put b.key.name b local) ≡ some b =
          get-put b.key.name name b local ∙ rw (e, same_self name) refl in
        rw (sym (some-injective b y (sym found ∙ g))) (new x (ap inherited e ∙ i))
    | inr ne ↦ old name x y i (sym (get-put_ne b.key.name name b local ne) ∙ g)
  ]

  bind_values-IsDeclared :
      (kind : ScopeKind) (inherited : String → Option (Binding C V))
      (values : List (ServiceKey C × V)) (local : Dict String (Binding C V))
      → IsDeclared kind inherited local
      → Ends
          (λ e. Unit {0})
          (IsDeclared kind inherited)
          (bind_values same_contract instance_of kind inherited values local)
  unfolding bind_values
  bind_values-IsDeclared kind inherited [] local h = h
  bind_values-IsDeclared kind inherited ((key, value) ∷ values) local h =
      let b : Binding C V = record { key = key; value = value } in
      let found = inherited key.name in
      let next =
        bind_values same_contract instance_of kind inherited values (Dict.put key.name b local) in
      let guarded = check_inherited same_contract instance_of kind key found >>= λ u. next in
      let typed = require (instance_of key.contract value) wrong_type >> guarded in
      let bindable = require (bindable_at kind key) not_bindable_here >> typed in
      require_then (IsDeclared kind inherited) (not (Dict.has key.name local)) duplicate_name
        bindable
        (require_then (IsDeclared kind inherited) (bindable_at kind key) not_bindable_here typed (
          require_then (IsDeclared kind inherited) (instance_of key.contract value) wrong_type
            guarded
            (Ends-bind (λ e. Unit {0})
              (λ (u : Unit {0}).
                (x : Binding C V) → inherited key.name ≡ some x → Replaces kind x b)
              (IsDeclared kind inherited) (check_inherited same_contract instance_of kind key found)
              (λ u. next) (check_inherited-Replaces kind key value found)
              (λ u new.
                bind_values-IsDeclared kind inherited values (Dict.put key.name b local)
                  (put-IsDeclared kind inherited b local new h)))))

  none_found : (m : String) (z : Binding C V) → ¬ (Dict.get {V = Binding C V} m [] ≡ some z)
  unfolding Dict.get
  none_found m z g = absurd (ground (arith, g))

  none_overridable :
      (k : ScopeKind) (ys : List ScopeKind) → kinds_subset ys [] ≡ true → includes_kind k ys ≡ false
  none_overridable k [] h = refl
  none_overridable k (y ∷ ys) h = absurd (ground (arith, h))

  layer_fixed :
      (kind : ScopeKind) (name : String) (x : Binding C V) (b : ServiceBindings C V)
      (local : Dict String (Binding C V))
      → find_binding name b ≡ some x
      → x.key.overridable_at ≡ []
      → IsDeclared kind (λ n. find_binding n b) local
      → find_binding name (layer kind local b) ≡ some x
  unfolding find_binding
  layer_fixed kind name x b local f n d = elim (Option-cases (Dict.get name local)) [
    | inl e ↦ rw (e, find_binding) f
    | inr (y, e) ↦
        let r : Replaces kind x y = d name x y f e in
        let within : kinds_subset y.key.overridable_at x.key.overridable_at ≡ true =
          ground (arith, r.0) in
        absurd (ground (arith, r.1, none_overridable kind y.key.overridable_at (rw n at within)))
  ]

  derive_fixed :
      (kind : ScopeKind) (values : List (ServiceKey C × V)) (name : String) (x : Binding C V)
      (b : ServiceBindings C V)
      → find_binding name b ≡ some x
      → x.key.overridable_at ≡ []
      → Ends
          (λ e. Unit {0})
          (λ child. find_binding name child ≡ some x)
          (derive same_contract instance_of kind values b)
  unfolding derive
  derive_fixed kind values name x b f n =
      require_then (λ child. find_binding name child ≡ some x)
        (elim (child_kind (kind_of b)) [ none ↦ false | some k ↦ kind_beq k kind ]) wrong_parent
        (bind_values same_contract instance_of kind (λ m. find_binding m b) values [] >>= λ local.
          ok (layer kind local b))
        (Ends-bind (λ e. Unit {0}) (IsDeclared kind (λ m. find_binding m b))
          (λ child. find_binding name child ≡ some x)
          (bind_values same_contract instance_of kind (λ m. find_binding m b) values [])
          (λ local. ok (layer kind local b))
          (bind_values-IsDeclared kind (λ m. find_binding m b) values []
            (λ m y z i g. absurd (none_found m z g)))
          (λ local d. layer_fixed kind name x b local f n d))

  derive_all_fixed :
      (layers : List (ScopeKind × List (ServiceKey C × V))) (name : String) (x : Binding C V)
      (b : ServiceBindings C V)
      → find_binding name b ≡ some x
      → x.key.overridable_at ≡ []
      → Ends
          (λ e. Unit {0})
          (λ child. find_binding name child ≡ some x)
          (derive_all same_contract instance_of layers b)
  unfolding derive_all
  derive_all_fixed [] name x b f n = f
  derive_all_fixed ((kind, values) ∷ layers) name x b f n =
      Ends-bind (λ e. Unit {0}) (λ child. find_binding name child ≡ some x)
        (λ child. find_binding name child ≡ some x) (derive same_contract instance_of kind values b)
        (derive_all same_contract instance_of layers) (derive_fixed kind values name x b f n)
        (λ child g. derive_all_fixed layers name x child g n)

  resolve_found :
      (key : ServiceKey C) (x : Binding C V) (b : ServiceBindings C V)
      → find_binding key.name b ≡ some x
      → resolve_service same_contract instance_of key b
        ≡ (if key_beq same_contract instance_of x.key key then ok x.value else err incompatible_key)
  unfolding resolve_service
  resolve_found key x b f = rw (f, resolve_service) refl

  -- A service that is bound under a key that no kind of scope may override resolves to the same
  -- value, with any key, in every layer that is derived below, through any number of layers.
  pub resolve_fixed :
      (layers : List (ScopeKind × List (ServiceKey C × V))) (key : ServiceKey C) (x : Binding C V)
      (b : ServiceBindings C V)
      → find_binding key.name b ≡ some x
      → x.key.overridable_at ≡ []
      → Ends
          (λ e. Unit {0})
          (λ child.
            resolve_service same_contract instance_of key child
            ≡ resolve_service same_contract instance_of key b)
          (derive_all same_contract instance_of layers b)
  resolve_fixed layers key x b f n =
      weaken (λ child. find_binding key.name child ≡ some x)
        (λ child.
          resolve_service same_contract instance_of key child
          ≡ resolve_service same_contract instance_of key b)
        (derive_all same_contract instance_of layers b) (derive_all_fixed layers key.name x b f n)
        (λ child g. resolve_found key x child g ∙ sym (resolve_found key x b f))
