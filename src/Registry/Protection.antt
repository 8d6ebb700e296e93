-- ===== src/Registry/Protection.antt =====
-- Protected names of the tool registry, under one call and under a lookup.
use suite_harness.Base.{
  String, ◌≡◌, ◌≢◌, inl, inr, refl, true, false, ◌&&◌, not, Option, none, some, [], ◌∷◌, arith, any,
  ◌==◌, string_eq, pair_eq, option_eq, is_some, Option-cases,
}
use suite_harness.Base.Dict
use suite_harness.Base.Dict.{Dict, get-put, get-remove}
use suite_harness.Scopes.{
  ScopePath, root_path, tenant_path, product_path, agent_path, path_eq, RequestScope,
}
use suite_harness.Tools.{identity_eq}
use suite_harness.Registry.{
  RegisteredEntry, ToolKey, Registry, Handle, is_root, drop_entry, unregister, first_entry, resolve,
  registration_candidates, candidates,
}
use suite_harness.Registry.Entries.{entry_at, Added}

module _ {H : Type 0} where
  -- The entry, if there is one, is no protected one.
  abbrev pub IsPlain : Option (RegisteredEntry H) → Type 0
  IsPlain none = Unit
  IsPlain (some e) = e.protected ≡ false

  abbrev pub IsProtectedAs : String → Option (RegisteredEntry H) → Type 0
  IsProtectedAs id none = ⊥
  IsProtectedAs id (some e) = (e.protected ≡ true) × (e.registration_id ≡ id)

  -- Of one name: a protected entry is at the root, and a protected name has one there and no entry
  -- anywhere else.
  pub record NameIsGuarded (name : String) (s : Registry H) : Type 0 where
    pub plain : (scope : ScopePath) → is_root scope ≡ false → IsPlain (entry_at scope name s)
    pub protected :
        (id : String)
        → Dict.get name s.protected_names ≡ some id
        → IsProtectedAs id (entry_at root_path name s)
    pub unshadowed :
        (scope : ScopePath)
        → is_root scope ≡ false
        → is_some (Dict.get name s.protected_names) ≡ true
        → entry_at scope name s ≡ none

  abbrev pub IsGuarded : Registry H → Type 0
  IsGuarded s = (name : String) → NameIsGuarded name s

  pub not_shadowed :
      (name : String) (scope : ScopePath) (items : Dict ToolKey (RegisteredEntry H))
      → any (λ (e : ToolKey × RegisteredEntry H). e.0.1 == name && not (is_root e.0.0)) items
        ≡ false
      → is_root scope ≡ false
      → Dict.get (scope, name) items ≡ none
  unfolding Dict.get
  not_shadowed name scope [] h n = refl
  not_shadowed name scope (((sc, m), e) ∷ items) h n =
      ground
        (arith, string_eq.same_iff m name, path_eq.same_iff sc scope, not_shadowed name scope items)

  pub Added-NameIsGuarded :
      (scope : ScopePath) (entry : RegisteredEntry H) (s s' : Registry H) (name : String)
      → Added scope entry s s'
      → (entry.protected && not (is_root scope)) ≡ false
      → NameIsGuarded name s
      → NameIsGuarded name s'
  Added-NameIsGuarded scope entry s s' name a r g =
      let m : String = entry.item.spec.name in
      let k = string_eq.same_iff m name in
      record {
        plain = λ sc n. ground (
          arith,
          a.items,
          k,
          path_eq.same_iff scope sc,
          g.plain sc n,
          get-put (scope, m) (sc, name) entry s.items,
        );
        protected = λ id h. ground (
          arith,
          h,
          a.items,
          a.names,
          a.free,
          a.unprotected,
          k,
          path_eq.same_iff scope root_path,
          g.protected id,
          get-put (scope, m) (root_path, name) entry s.items,
          get-put m name entry.registration_id s.protected_names,
        );
        unshadowed = λ sc n h. ground (
          arith,
          h,
          a.items,
          a.names,
          a.unprotected,
          a.unshadowed,
          k,
          path_eq.same_iff scope sc,
          g.unshadowed sc n,
          get-put (scope, m) (sc, name) entry s.items,
          get-put m name entry.registration_id s.protected_names,
          not_shadowed name sc s.items,
        );
      }

  pub drop_entry-NameIsGuarded :
      (scope : ScopePath) (m : String) (e : RegisteredEntry H) (s : Registry H) (name : String)
      → entry_at scope m s ≡ some e
      → NameIsGuarded name s
      → NameIsGuarded name (drop_entry (scope, m) e s)
  unfolding drop_entry
  drop_entry-NameIsGuarded scope m e s name at g =
      let k = string_eq.same_iff m name in
      record {
        plain = λ sc n. ground (
          arith,
          at,
          k,
          path_eq.same_iff scope sc,
          g.plain sc n,
          get-remove (scope, m) (sc, name) s.items,
        );
        protected = λ id h. ground (
          arith,
          h,
          at,
          k,
          path_eq.same_iff scope root_path,
          g.protected id,
          get-remove (scope, m) (root_path, name) s.items,
          get-remove m name s.protected_names,
          string_eq.same_iff id e.registration_id,
        );
        unshadowed = λ sc n h. ground (
          arith,
          h,
          at,
          k,
          path_eq.same_iff scope sc,
          g.unshadowed sc n,
          get-remove (scope, m) (sc, name) s.items,
          get-remove m name s.protected_names,
        );
      }

  pub unregister-IsGuarded :
      (scope : ScopePath) (m : String) (owner : Handle) (s : Registry H)
      → IsGuarded s
      → IsGuarded (unregister scope m owner s).0
  unfolding unregister
  unregister-IsGuarded scope m owner s g name = elim (Option-cases (entry_at scope m s)) [
    | inl none_ ↦ ground (arith, none_, g name)
    | inr (e, at) ↦
        ground (arith, at, g name, drop_entry-NameIsGuarded scope m e s name at (g name))
  ]

  path_resolves :
      (path : ScopePath) (name : String) (s : Registry H) (e : RegisteredEntry H)
      → NameIsGuarded name s
      → is_some (Dict.get name s.protected_names) ≡ true
      → candidates path ≢ []
      → entry_at root_path name s ≡ some e
      → first_entry (candidates path) name s.items ≡ some e.item
  unfolding first_entry
  path_resolves (product_path t p) name s e g h c at =
      ground
        (arith, at, g.unshadowed (product_path t p) refl h, g.unshadowed (tenant_path t) refl h)
  path_resolves (agent_path t p a q) name s e g h c at =
      ground
        (arith, at, g.unshadowed (product_path t p) refl h, g.unshadowed (tenant_path t) refl h)
  path_resolves root_path name s e g h c at = absurd (c refl)
  path_resolves (tenant_path t) name s e g h c at = absurd (c refl)

  pub resolve_root :
      (scope : RequestScope) (name : String) (s : Registry H) (e : RegisteredEntry H)
      → NameIsGuarded name s
      → is_some (Dict.get name s.protected_names) ≡ true
      → registration_candidates scope ≢ []
      → entry_at root_path name s ≡ some e
      → resolve scope name s ≡ some e.item
  unfolding resolve registration_candidates
  resolve_root scope name s e g h c at = path_resolves scope.path name s e g h c at
