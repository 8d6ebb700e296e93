-- ===== src/Registry/Keys.antt =====
-- The keys of the registry: every tool stands under its own name.
use suite_harness.Base.{
  String, ◌≡◌, refl, ap, sym, ◌∙◌, same→eq, and-true, inl, inr, Bool, true, false, ◌&&◌, not, some,
  List, [], ◌∷◌, arith, all, ◌==◌, string_eq, pair_eq, Option-cases, Result-cases,
}
use suite_harness.Base.Dict
use suite_harness.Base.Dict.{all-put, all-remove, all-get}
use suite_harness.Base.Json.{Json}
use suite_harness.Scopes.{ScopePath, path_eq, RequestScope}
use suite_harness.Tools.{ToolIdentity, ToolSpec}
use suite_harness.Registry.{
  RegisteredTool, RegisteredEntry, ToolKey, Registry, empty_registry, Handle, is_root, drop_entry,
  register_entry, unregister, first_entry, resolve, registration_candidates,
}
use suite_harness.Registry.Entries.{entry_of, register_entry-Registered}
use suite_harness.Registry.Histories.{Op, after, run, run_keeps}

module _ {H : Type 0} where
  abbrev pub is_keyed : ToolKey × RegisteredEntry H → Bool
  is_keyed (key, entry) = entry.item.spec.name == key.1 && entry.item.identity.name == key.1

  abbrev pub IsKeyed : Registry H → Type 0
  IsKeyed s = all is_keyed s.items ≡ true

  unregister-IsKeyed :
      (scope : ScopePath) (name : String) (handle : Handle) (s : Registry H)
      → IsKeyed s
      → IsKeyed (unregister scope name handle s).0
  unfolding unregister drop_entry
  unregister-IsKeyed scope name handle s h = elim (Option-cases (Dict.get (scope, name) s.items)) [
    | inl e ↦ ground (arith, e, h)
    | inr (current, e) ↦ ground (arith, e, h, all-remove is_keyed (scope, name) s.items h)
  ]

  first_entry_keyed :
      (scopes : List ScopePath) (name : String) (s : Registry H) (t : RegisteredTool H)
      → IsKeyed s
      → first_entry scopes name s.items ≡ some t
      → (t.spec.name ≡ name) × (t.identity.name ≡ name)
  unfolding first_entry
  first_entry_keyed [] name s t k h = absurd (ground (arith, h))
  first_entry_keyed (scope ∷ scopes) name s t k h =
      elim (Option-cases (Dict.get (scope, name) s.items)) [
        | inl e ↦ first_entry_keyed scopes name s t k (ground (arith, e, h))
        | inr (entry, e) ↦
            let keyed = all-get is_keyed (scope, name) entry s.items k e in
            let same : entry.item ≡ t = ground (arith, e, h) in
            (
              ap (λ (x : RegisteredTool H). x.spec.name) (sym same)
                  ∙ same→eq entry.item.spec.name name (and-true _ _ keyed).0,
              ap (λ (x : RegisteredTool H). x.identity.name) (sym same)
                  ∙ same→eq entry.item.identity.name name (and-true _ _ keyed).1,
            )
      ]

  -- A lookup by a name finds a tool whose specification and identity have that name.
  pub resolve_named :
      (scope : RequestScope) (name : String) (s : Registry H) (t : RegisteredTool H)
      → IsKeyed s
      → resolve scope name s ≡ some t
      → (t.spec.name ≡ name) × (t.identity.name ≡ name)
  unfolding resolve
  resolve_named scope name s t k h = first_entry_keyed (registration_candidates scope) name s t k h

module _ {H : Type 0} (check_schema : Json → Bool) where
  after-IsKeyed :
      (s : Registry H) (scope : ScopePath) (spec : ToolSpec) (handler : H) (identity : ToolIdentity)
      (protected : Bool) (drawn : String)
      → (protected && not (is_root scope)) ≡ false
      → IsKeyed s
      → IsKeyed (
          after check_schema s
            (register_entry check_schema scope spec handler identity protected drawn s))
  after-IsKeyed s scope spec handler identity protected drawn r k =
      elim (Result-cases
        (register_entry check_schema scope spec handler identity protected drawn s)) [
          | inr (e, bad) ↦ rw bad k
          | inl ((s', handle), good) ↦
              let w =
                register_entry-Registered check_schema scope spec handler identity protected drawn s
                  s' handle good in
              let entry = entry_of scope spec handler identity protected drawn in
              rw (good, w.added.items)
                (all-put is_keyed (scope, spec.name) entry s.items
                  (ground (arith, w.named, string_eq.same_iff identity.name spec.name)) k)
        ]

  run-IsKeyed : (ops : List (Op H)) → IsKeyed (run check_schema ops empty_registry)
  run-IsKeyed ops =
      run_keeps check_schema IsKeyed (after-IsKeyed) unregister-IsKeyed ops empty_registry refl

  -- In a registry that any sequence of calls has built, a name resolves only to tools of that name.
  pub run_resolves_named :
      (ops : List (Op H)) (scope : RequestScope) (name : String) (t : RegisteredTool H)
      → resolve scope name (run check_schema ops empty_registry) ≡ some t
      → (t.spec.name ≡ name) × (t.identity.name ≡ name)
  run_resolves_named ops scope name t h =
      resolve_named scope name (run check_schema ops empty_registry) t (run-IsKeyed ops) h
