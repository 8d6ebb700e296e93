-- ===== src/Registry/Histories.antt =====
-- Histories of the tool registry: registrations and removals in any order.
use suite_harness.Base.{
  String, ◌≡◌, ◌≢◌, inl, inr, refl, subst, Bool, true, false, ◌&&◌, not, Option, some, List, [],
  ◌∷◌, arith, string_eq, pair_eq, option_eq, is_some, Bool-cases, Option-cases, Result,
  Result-cases, ok, err,
}
use suite_harness.Base.Dict
use suite_harness.Base.Dict.{Dict, get-put, get-remove}
use suite_harness.Base.Json.{Json}
use suite_harness.Scopes.{ScopePath, root_path, path_eq, RequestScope}
use suite_harness.Tools.{ToolIdentity, identity_eq, ToolSpec, scoped}
use suite_harness.Registry.{
  RegisteredEntry, Registry, empty_registry, Handle, is_root, register_entry, register,
  register_protected, unregister, resolve, registration_candidates, RegistryError,
  protected_identity, is_reserved,
}
use suite_harness.Registry.Entries.{entry_at, entry_of, register_entry-Registered}
use suite_harness.Registry.Protection.{
  NameIsGuarded, IsGuarded, IsProtectedAs, Added-NameIsGuarded, unregister-IsGuarded, resolve_root,
}

pub data Op (H : Type 0) : Type 0 where
  registers : ScopePath → ToolSpec → H → String → Op H
  protects : ToolSpec → H → Option ToolIdentity → String → Op H
  unregisters : ScopePath → String → Handle → Op H

module _ {H : Type 0} (check_schema : Json → Bool) where
  -- The registry after a call: one that raises leaves it as it was.
  abbrev pub after : Registry H → Result RegistryError (Registry H × Handle) → Registry H
  after s (ok (s', handle)) = s'
  after s (err e) = s

  unfoldable pub step : Op H → Registry H → Registry H
  step (registers scope spec handler drawn) s =
      after s (register check_schema scope spec handler drawn s)
  step (protects spec handler identity drawn) s =
      after s (register_protected check_schema spec handler identity drawn s)
  step (unregisters scope name handle) s = (unregister scope name handle s).0

  unfoldable pub run : List (Op H) → Registry H → Registry H
  run [] s = s
  run (op ∷ ops) s = run ops (step op s)

  after-IsGuarded :
      (s : Registry H) (scope : ScopePath) (spec : ToolSpec) (handler : H) (identity : ToolIdentity)
      (protected : Bool) (drawn : String)
      → (protected && not (is_root scope)) ≡ false
      → IsGuarded s
      → IsGuarded
          (after s (register_entry check_schema scope spec handler identity protected drawn s))
  after-IsGuarded s scope spec handler identity protected drawn r g name =
      elim (Result-cases
        (register_entry check_schema scope spec handler identity protected drawn s)) [
          | inr (e, bad) ↦ rw bad (g name)
          | inl ((s', handle), good) ↦
              let w =
                register_entry-Registered check_schema scope spec handler identity protected drawn s
                  s' handle good in
              rw good (
                Added-NameIsGuarded scope (entry_of scope spec handler identity protected drawn) s
                  s' name w.added r (g name))
        ]

  -- What every accepted registration and every removal keeps, a call keeps, and so does a history.
  module _ (P : Registry H → Type 0)
      (registered : (s : Registry H) (scope : ScopePath) (spec : ToolSpec) (handler : H)
          (identity : ToolIdentity) (protected : Bool) (drawn : String)
        → (protected && not (is_root scope)) ≡ false
        → P s
        → P (after s (register_entry check_schema scope spec handler identity protected drawn s)))
      (unregistered : (scope : ScopePath) (name : String) (handle : Handle) (s : Registry H)
        → P s
        → P (unregister scope name handle s).0) where
    step_keeps : (op : Op H) (s : Registry H) → P s → P (step op s)
    unfolding step
    step_keeps (registers scope spec handler drawn) s g =
        elim (Result-cases (scoped scope spec.name)) [
          | inr (e, bad) ↦
              let same : step (registers scope spec handler drawn) s ≡ s =
                unfold register in ground (arith, bad) in
              rw same g
          | inl (identity, good) ↦
              let same : step (registers scope spec handler drawn) s
                  ≡ after s
                      (register_entry check_schema scope spec handler identity false drawn s) =
                unfold register in ground (arith, good) in
              rw same (registered s scope spec handler identity false drawn (ground arith) g)
        ]
    step_keeps (protects spec handler identity drawn) s g =
        let id : ToolIdentity = protected_identity identity spec in
        elim (Bool-cases (is_reserved id.namespace)) [
          | inr bad ↦
              let same : step (protects spec handler identity drawn) s ≡ s =
                unfold register_protected in ground (arith, bad) in
              rw same g
          | inl good ↦
              let same : step (protects spec handler identity drawn) s
                  ≡ after s (register_entry check_schema root_path spec handler id true drawn s) =
                unfold register_protected in ground (arith, good) in
              rw same (registered s root_path spec handler id true drawn refl g)
        ]
    step_keeps (unregisters scope name handle) s g = unregistered scope name handle s g

    pub run_keeps : (ops : List (Op H)) (s : Registry H) → P s → P (run ops s)
    unfolding run
    run_keeps [] s g = g
    run_keeps (op ∷ ops) s g = run_keeps ops (step op s) (step_keeps op s g)

  run-IsGuarded : (ops : List (Op H)) (s : Registry H) → IsGuarded s → IsGuarded (run ops s)
  run-IsGuarded ops s g = run_keeps IsGuarded after-IsGuarded unregister-IsGuarded ops s g

  pub empty-IsGuarded : IsGuarded {H = H} empty_registry
  unfolding Dict.get
  empty-IsGuarded name = record {
    plain = λ scope n. tt;
    protected = λ id h. absurd (ground arith);
    unshadowed = λ scope n h. refl;
  }

  guarded_root :
      (name : String) (s : Registry H)
      → NameIsGuarded name s
      → is_some (Dict.get name s.protected_names) ≡ true
      → (e : RegisteredEntry H) × ((entry_at root_path name s ≡ some e) × (e.protected ≡ true))
  guarded_root name s g h = elim (Option-cases (Dict.get name s.protected_names)) [
    | inl none_ ↦ absurd (ground (arith, none_))
    | inr (id, there) ↦ elim (Option-cases (entry_at root_path name s)) [
      | inl none_ ↦ absurd (subst (IsProtectedAs id) none_ (g.protected id there))
      | inr (e, at) ↦ (e, (at, (subst (IsProtectedAs id) at (g.protected id there)).0))
    ]
  ]

  -- Whatever registrations and removals are tried on a new registry, with whatever handles: a name
  -- that is protected resolves, for every product and agent, to the protected tool at the root.
  pub protected_resolves :
      (ops : List (Op H)) (scope : RequestScope) (name : String)
      → registration_candidates scope ≢ []
      → is_some (Dict.get name (run ops empty_registry).protected_names) ≡ true
      → (e : RegisteredEntry H) × ((entry_at root_path name (run ops empty_registry) ≡ some e)
          × ((e.protected ≡ true) × (resolve scope name (run ops empty_registry) ≡ some e.item)))
  protected_resolves ops scope name c h =
      let s = run ops empty_registry in
      let g = run-IsGuarded ops empty_registry empty-IsGuarded name in
      let (e, (at, p)) = guarded_root name s g h in
      (e, (at, (p, resolve_root scope name s e g h c at)))
