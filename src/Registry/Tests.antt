-- ===== src/Registry/Tests.antt =====
-- A protected tool that a product tries to shadow.
use suite_harness.Base.{
  String, ◌≡◌, ◌↔◌, refl, Bool, true, false, none, some, List, [], ◌∷◌, string_eq, pair_eq,
}
use suite_harness.Base.Dict
use suite_harness.Base.Json.{Json, object, end}
use suite_harness.Scopes.{
  ScopePath, root_path, product_path, agent_path, path_eq, RequestScope, path_beq,
}
use suite_harness.Tools.{ToolIdentity, ToolSpec, read, scoped}
use suite_harness.Registry.{
  RegisteredEntry, Registry, empty_registry, Handle, register_entry, unregister, close, resolve,
  registration_candidates, register, add_entry, register_protected,
}
use suite_harness.Registry.Entries.{entry_at, entry_of}
use suite_harness.Registry.Histories.{
  Op, registers, protects, unregisters, run, step, protected_resolves, empty-IsGuarded,
}
use suite_harness.Registry.Keys.{run_resolves_named}
use suite_harness.Registry.Ownership.{Owns, Removed, unregister_iff_owner, register_entry-close}

abbrev any_schema : Json → Bool
any_schema j = true

abbrev read_file : ToolSpec
read_file = record {
  name = "fs.read";
  effects = read ∷ [];
  required_capabilities = [];
  input_schema = object end;
}

abbrev identity : ToolIdentity
identity = record {
  namespace = "suiteharness";
  name = "fs.read";
  origin = "suiteharness.framework";
  version = "1";
}

abbrev desk : ScopePath
desk = product_path "acme" "desk"

abbrev forged : Handle
forged = record {
  scope = root_path;
  tool_name = "fs.read";
  identity = identity;
  registration_id = "guess";
  closed = false;
}

-- The handlers are names here.
abbrev attempts : List (Op String)
attempts =
    protects read_file "builtin" none "id-1"
    ∷ registers desk read_file "impostor" "id-2"
    ∷ unregisters root_path "fs.read" forged
    ∷ []

abbrev request : RequestScope
request = record {
  path = agent_path "acme" "desk" "helper" "s1";
  principal_id = "alice";
  channel_id = "web";
  session_owner_id = none;
}

protected_resolves_example :
    (e : RegisteredEntry String) × ((entry_at root_path "fs.read"
          (run any_schema attempts empty_registry)
        ≡ some e)
      × ((e.protected ≡ true)
          × (resolve request "fs.read" (run any_schema attempts empty_registry) ≡ some e.item)))
unfolding registration_candidates run Dict.get step unregister path_beq register scoped
    register_entry add_entry register_protected Dict.put
protected_resolves_example = protected_resolves any_schema attempts request "fs.read" (λ h. cc) refl

run_resolves_named_example : (read_file.name ≡ "fs.read") × (identity.name ≡ "fs.read")
unfolding registration_candidates run Dict.get step path_beq resolve unregister register scoped
    register_entry add_entry register_protected Dict.put
run_resolves_named_example =
    run_resolves_named any_schema attempts request "fs.read"
      (entry_of root_path read_file "builtin" identity true "id-1").item refl

abbrev handle : Handle
handle = record forged { registration_id = "id-1" }

abbrev registered : Registry String
registered = record {
  items =
      ((root_path, "fs.read"), entry_of root_path read_file "builtin" identity true "id-1") ∷ [];
  protected_names = ("fs.read", "id-1") ∷ [];
}

unregister_iff_owner_example :
    (((unregister root_path "fs.read" handle registered).2 ≡ true) ↔ (
      (e : RegisteredEntry String) × (Owns root_path "fs.read" handle registered e
        × Removed root_path "fs.read" e registered
            (unregister root_path "fs.read" handle registered).0)))
    × (((unregister root_path "fs.read" handle registered).2 ≡ false)
        → (unregister root_path "fs.read" handle registered).0 ≡ registered)
unregister_iff_owner_example = unregister_iff_owner root_path "fs.read" handle registered

register_entry-close_example :
    close handle registered ≡ (empty_registry, record handle { closed = true })
unfolding register_entry add_entry Dict.get Dict.put
register_entry-close_example =
    register_entry-close any_schema root_path read_file "builtin" identity true "id-1"
      empty_registry registered handle (empty-IsGuarded any_schema) refl refl
