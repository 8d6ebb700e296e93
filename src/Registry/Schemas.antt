-- ===== src/Registry/Schemas.antt =====
-- src/suiteharness/execution/in_memory.py: remote references in the JSON schema of a tool.
use suite_harness.Base.{
  String, Bool, false, ◌&&◌, ◌||◌, not, [], ◌∷◌, ◌==◌, string_eq, pair_eq, option_eq, nat_beq,
}
use suite_harness.Base.Json.{Json, text, array, object, Items, nil, cons, Fields, end, field}
use suite_harness.Base.Names.{codes}
use suite_harness.Scopes.{path_eq}
use suite_harness.Tools.{identity_eq}

-- `value.startswith("#")`
abbrev starts_with_hash : String → Bool
starts_with_hash s = elim (codes s) [ [] ↦ false | c ∷ rest ↦ nat_beq c b'#' ]

-- `key in {"$ref", "$dynamicRef"} and isinstance(value, str) and not value.startswith("#")`
abbrev is_remote : String → Json → Bool
is_remote key (text s) = (key == "$ref" || key == "$dynamicRef") && not (starts_with_hash s)
is_remote key _ = false

-- Whether `_reject_remote_references` raises.
unfoldable mutual
  pub refers_remotely : Json → Bool
  refers_remotely (object fs) = fields_refer fs
  refers_remotely (array xs) = items_refer xs
  refers_remotely _ = false

  pub items_refer : Items → Bool
  items_refer nil = false
  items_refer (cons x xs) = refers_remotely x || items_refer xs

  pub fields_refer : Fields → Bool
  fields_refer end = false
  fields_refer (field k v fs) = is_remote k v || refers_remotely v || fields_refer fs
