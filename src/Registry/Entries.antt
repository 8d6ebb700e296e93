-- ===== src/Registry/Entries.antt =====
-- What a registration that is accepted checked and wrote.
use suite_harness.Base.{
  String, ◌≡◌, inl, inr, ap, sym, ◌∙◌, Bool, false, ◌&&◌, not, Option, none, arith, any, ◌==◌,
  string_eq, pair_eq, option_eq, if◌then◌else◌, Result-cases, ok,
}
use suite_harness.Base.Dict
use suite_harness.Base.Dict.{Dict, get-put, get-remove}
use suite_harness.Base.Json.{Json}
use suite_harness.Scopes.{ScopePath, path_eq}
use suite_harness.Tools.{ToolIdentity, identity_eq, ToolSpec}
use suite_harness.Registry.{
  RegisteredEntry, ToolKey, Registry, Handle, is_root, add_entry, register_entry,
}

module _ {H : Type 0} where
  abbrev pub entry_at : ScopePath → String → Registry H → Option (RegisteredEntry H)
  entry_at scope name s = Dict.get (scope, name) s.items

  abbrev pub elsewhere : String → ToolKey × RegisteredEntry H → Bool
  elsewhere name e = e.0.1 == name && not (is_root e.0.0)

  abbrev pub same_identity : RegisteredEntry H → ToolKey × RegisteredEntry H → Bool
  same_identity entry e = e.1.item.identity == entry.item.identity

  -- What `add_entry` checked and wrote.
  pub record Added (scope : ScopePath) (entry : RegisteredEntry H) (s s' : Registry H)
      : Type 0 where
    pub free : entry_at scope entry.item.spec.name s ≡ none
    pub unprotected :
        (not (is_root scope) && Dict.has entry.item.spec.name s.protected_names) ≡ false
    pub unshadowed : (entry.protected && any (elsewhere entry.item.spec.name) s.items) ≡ false
    pub new_identity : any (same_identity entry) s.items ≡ false
    pub items : s'.items ≡ Dict.put (scope, entry.item.spec.name) entry s.items
    pub names : s'.protected_names ≡ (
        if entry.protected
        then Dict.put entry.item.spec.name entry.registration_id s.protected_names
        else s.protected_names)

  pub add_entry-Added :
      (scope : ScopePath) (entry : RegisteredEntry H) (s s' : Registry H)
      → add_entry scope entry s ≡ ok s'
      → Added scope entry s s'
  unfolding add_entry
  add_entry-Added scope entry s s' h = record {
    free = ground (arith, h);
    unprotected = ground (arith, h);
    unshadowed = ground (arith, h);
    new_identity = ground (arith, h);
    items = ground (arith, h);
    names = ground (arith, h);
  }

abbrev pub entry_of :
    {H : Type 0} → ScopePath → ToolSpec → H → ToolIdentity → Bool → String → RegisteredEntry H
entry_of scope spec handler identity protected drawn = record {
  item = record { registration_scope = scope; identity = identity; spec = spec; handler = handler };
  registration_id = drawn;
  protected = protected;
}

module _ {H : Type 0} (check_schema : Json → Bool) where
  -- What a registration that was accepted added, and the handle that it returned.
  pub record Registered (scope : ScopePath) (spec : ToolSpec) (handler : H)
      (identity : ToolIdentity) (protected : Bool) (drawn : String) (s s' : Registry H)
      (handle : Handle) : Type 0 where
    pub named : identity.name ≡ spec.name
    pub added : Added scope (entry_of scope spec handler identity protected drawn) s s'
    pub returned : handle ≡ record {
      scope = scope;
      tool_name = spec.name;
      identity = identity;
      registration_id = drawn;
      closed = false;
    }

  pub register_entry-Registered :
      (scope : ScopePath) (spec : ToolSpec) (handler : H) (identity : ToolIdentity)
      (protected : Bool) (drawn : String) (s s' : Registry H) (handle : Handle)
      → register_entry check_schema scope spec handler identity protected drawn s ≡ ok (s', handle)
      → Registered scope spec handler identity protected drawn s s' handle
  register_entry-Registered scope spec handler identity protected drawn s s' handle h =
      let entry : RegisteredEntry H = entry_of scope spec handler identity protected drawn in
      elim (Result-cases (add_entry scope entry s)) [
        | inr (e, bad) ↦ absurd (unfold register_entry in ground (arith, h, bad))
        | inl (x, good) ↦
            let same : s' ≡ x = unfold register_entry in ground (arith, h, good) in
            record {
              named =
                  unfold register_entry in
                  ground (arith, h, string_eq.same_iff identity.name spec.name);
              added = add_entry-Added scope entry s s' (good ∙ ap ok (sym same));
              returned = unfold register_entry in ground (arith, h, good);
            }
      ]
