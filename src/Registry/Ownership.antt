-- ===== src/Registry/Ownership.antt =====
-- The handles of the tool registry, and what they remove.
use suite_harness.Base.{
  String, ◌≡◌, ◌↔◌, inl, inr, Bool, true, false, ◌&&◌, not, none, some, arith, string_eq, pair_eq,
  option_eq, Bool-cases, ◌≢◌, refl, ◌∙◌, same_ne, same_self, ◌==◌, Option-cases, ok,
}
use suite_harness.Base.Dict
use suite_harness.Base.Dict.{Dict, get-put, get-put_self, remove-put, get-remove, get-remove_self}
use suite_harness.Base.Json.{Json}
use suite_harness.Scopes.{ScopePath, root_path, path_eq}
use suite_harness.Tools.{ToolIdentity, identity_eq, ToolSpec}
use suite_harness.Registry.{
  RegisteredEntry, ToolKey, Registry, Handle, is_root, register_entry, drop_entry, unregister,
  close,
}
use suite_harness.Registry.Entries.{entry_at, Added, entry_of, register_entry-Registered}
use suite_harness.Registry.Protection.{IsGuarded, NameIsGuarded}

abbrev pub key_at : ScopePath → String → ToolKey
key_at scope name = (scope, name)

module _ {H : Type 0} where
  -- The registration that `owner` stands for is stored under the given scope and name.
  pub record Owns (scope : ScopePath) (name : String) (owner : Handle) (s : Registry H)
      (e : RegisteredEntry H) : Type 0 where
    pub scope_fits : owner.scope ≡ scope
    pub name_fits : owner.tool_name ≡ name
    pub stored : entry_at scope name s ≡ some e
    pub id_fits : e.registration_id ≡ owner.registration_id

  owned_removed :
      (scope : ScopePath) (name : String) (owner : Handle) (s : Registry H) (e : RegisteredEntry H)
      → Owns scope name owner s e
      → unregister scope name owner s
        ≡ (drop_entry (scope, name) e s, record owner { closed = true }, true)
  unfolding unregister
  owned_removed scope name owner s e o = ground (
    arith,
    o.stored,
    o.scope_fits,
    o.name_fits,
    o.id_fits,
    path_eq.same_iff owner.scope scope,
    string_eq.same_iff owner.tool_name name,
    string_eq.same_iff e.registration_id owner.registration_id,
  )

  kept_unowned :
      (scope : ScopePath) (name : String) (owner : Handle) (s : Registry H)
      → (unregister scope name owner s).2 ≡ false
      → (unregister scope name owner s).0 ≡ s
  unfolding unregister
  kept_unowned scope name owner s h = elim (Option-cases (entry_at scope name s)) [
    | inl none_ ↦ ground (arith, none_, h)
    | inr (e, at) ↦ ground (arith, at, h)
  ]

  removed_owned :
      (scope : ScopePath) (name : String) (owner : Handle) (s : Registry H)
      → (unregister scope name owner s).2 ≡ true
      → (e : RegisteredEntry H) × Owns scope name owner s e
  unfolding unregister
  removed_owned scope name owner s h = elim (Option-cases (entry_at scope name s)) [
    | inl none_ ↦ absurd (ground (arith, none_))
    | inr (e, at) ↦ (
      e,
      record {
        scope_fits = ground (arith, h, at, path_eq.same_iff owner.scope scope);
        name_fits = ground (arith, h, at, string_eq.same_iff owner.tool_name name);
        stored = at;
        id_fits = ground (arith, h, at, string_eq.same_iff e.registration_id owner.registration_id);
      },
    )
  ]

  -- What is stored after a removal: all but the entry, and all protections but its own.
  pub record Removed (scope : ScopePath) (name : String) (e : RegisteredEntry H) (s s' : Registry H)
      : Type 0 where
    pub gone : entry_at scope name s' ≡ none
    pub entries :
        (other : ScopePath) (n : String)
        → key_at scope name ≢ key_at other n
        → entry_at other n s' ≡ entry_at other n s
    pub unprotected :
        e.protected ≡ true
        → Dict.get name s.protected_names ≡ some e.registration_id
        → Dict.get name s'.protected_names ≡ none
    pub not_its_own :
        (e.protected && Dict.get name s.protected_names == some e.registration_id) ≡ false
        → s'.protected_names ≡ s.protected_names
    pub protections :
        (n : String) → name ≢ n → Dict.get n s'.protected_names ≡ Dict.get n s.protected_names

  drop_entry-Removed :
      (scope : ScopePath) (name : String) (e : RegisteredEntry H) (s : Registry H)
      → Removed scope name e s (drop_entry (scope, name) e s)
  unfolding drop_entry
  drop_entry-Removed scope name e s = record {
    gone = get-remove_self (scope, name) s.items;
    entries = λ other n ne.
        get-remove (scope, name) (other, n) s.items ∙ rw (same_ne (scope, name) (other, n) ne) refl;
    unprotected =
        λ p own. rw (p, own, same_self e.registration_id) (get-remove_self name s.protected_names);
    not_its_own = λ h. rw h refl;
    protections = λ n ne. ground (arith, get-remove name n s.protected_names, same_ne name n ne);
  }

  -- A removal succeeds exactly with the handle of the registration that is stored under the scope
  -- and name. Then that entry is gone and every other one is left, the protection of its name is
  -- gone if it is its own, and every other protection is left; a removal that fails changes nothing
  -- in the registry.
  pub unregister_iff_owner :
      (scope : ScopePath) (name : String) (owner : Handle) (s : Registry H)
      → (((unregister scope name owner s).2 ≡ true) ↔ (
          (e : RegisteredEntry H) × (Owns scope name owner s e
            × Removed scope name e s (unregister scope name owner s).0)))
        × (((unregister scope name owner s).2 ≡ false) → (unregister scope name owner s).0 ≡ s)
  unregister_iff_owner scope name owner s = (
    (
      λ h.
          let (e, o) = removed_owned scope name owner s h in
          (e, (o, rw (owned_removed scope name owner s e o) (drop_entry-Removed scope name e s))),
      λ (e, (o, h)). rw (owned_removed scope name owner s e o) refl,
    ),
    λ h. kept_unowned scope name owner s h,
  )

  -- A root entry that may be added is not protected yet.
  free_name :
      (name : String) (s : Registry H)
      → NameIsGuarded name s
      → entry_at root_path name s ≡ none
      → Dict.has name s.protected_names ≡ false
  free_name name s g free = elim (Option-cases (Dict.get name s.protected_names)) [
    | inl none_ ↦ ground (arith, none_)
    | inr (id, there) ↦ absurd (ground (arith, free, g.protected id there))
  ]

  -- Where an entry may be added, its name is not protected, unless the entry is a plain one.
  free_to_protect :
      (scope : ScopePath) (entry : RegisteredEntry H) (s s' : Registry H)
      → Added scope entry s s'
      → entry.protected ≡ true
      → (entry.protected && not (is_root scope)) ≡ false
      → IsGuarded s
      → Dict.has entry.item.spec.name s.protected_names ≡ false
  free_to_protect root_path entry s s' a p r g =
      free_name entry.item.spec.name s (g entry.item.spec.name) a.free
  free_to_protect _ entry s s' a p r g = absurd (ground (arith, p, r))

  Added-dropped :
      (scope : ScopePath) (entry : RegisteredEntry H) (s s' : Registry H)
      → Added scope entry s s'
      → (entry.protected && not (is_root scope)) ≡ false
      → IsGuarded s
      → drop_entry (scope, entry.item.spec.name) entry s' ≡ s
  unfolding drop_entry
  Added-dropped scope entry s s' a r g =
      let name : String = entry.item.spec.name in
      let id : String = entry.registration_id in
      let items = remove-put (scope, name) entry s.items (ground (arith, a.free)) in
      elim (Bool-cases entry.protected) [
        | inr plain ↦ ground (arith, plain, a.items, a.names, items)
        | inl guarded ↦ ground (
          arith,
          guarded,
          a.items,
          a.names,
          items,
          get-put_self name id s.protected_names,
          string_eq.same_iff id id,
          remove-put name id s.protected_names (free_to_protect scope entry s s' a guarded r g),
        )
      ]

module _ {H : Type 0} (check_schema : Json → Bool) where
  -- On a registry that guards its protected names, a registration followed by closing its handle
  -- gives the registry back as it was, the protection of names included, and a closed handle.
  pub register_entry-close :
      (scope : ScopePath) (spec : ToolSpec) (handler : H) (identity : ToolIdentity)
      (protected : Bool) (drawn : String) (s s' : Registry H) (handle : Handle)
      → IsGuarded s
      → (protected && not (is_root scope)) ≡ false
      → register_entry check_schema scope spec handler identity protected drawn s ≡ ok (s', handle)
      → close handle s' ≡ (s, record handle { closed = true })
  unfolding close
  register_entry-close scope spec handler identity protected drawn s s' handle g r h =
      let w =
        register_entry-Registered check_schema scope spec handler identity protected drawn s s'
          handle h in
      let entry : RegisteredEntry H = entry_of scope spec handler identity protected drawn in
      let back = Added-dropped scope entry s s' w.added r g in
      let o : Owns scope spec.name handle s' entry = record {
        scope_fits = ground (arith, w.returned);
        name_fits = ground (arith, w.returned);
        stored = ground (arith, w.added.items, get-put_self (scope, spec.name) entry s.items);
        id_fits = ground (arith, w.returned);
      } in
      ground (arith, w.returned, back, owned_removed scope spec.name handle s' entry o)
