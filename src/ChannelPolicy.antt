-- ===== src/ChannelPolicy.antt =====
-- src/suiteharness/channels/policy.py: what the Web and Feishu channels may run. A text is worked on
-- as the list of its code points.
pub mod Paths
pub mod Decisions
mod Tests
use suite_harness.Base.{
  ℕ, String, ◌≡◌, Bool, true, false, ◌&&◌, ◌||◌, not, Option, none, some, List, [], ◌∷◌, map, any,
  all, ◌==◌, string_eq, nat_eq, option_eq, is_some, if◌then◌else◌, nat_beq, leb, length, take, keep,
  contains, Result, ok, err, ◌>>=◌, ◌>>◌, require,
}
use suite_harness.Base.Json.{Json, null, text, Fields, lookup}
use suite_harness.Base.Names.{codes}
use suite_harness.Scopes.{RequestScope}
use suite_harness.Tools.{ToolIdentity, ToolSpec, write, destructive, has_effect, is_read}

abbrev pub Part : Type 0
Part = List ℕ

abbrev pub part_beq : Part → Part → Bool
part_beq [] [] = true
part_beq (a ∷ x) (b ∷ y) = nat_beq a b && part_beq x y
part_beq _ _ = false

abbrev pub parts_beq : List Part → List Part → Bool
parts_beq [] [] = true
parts_beq (a ∷ x) (b ∷ y) = part_beq a b && parts_beq x y
parts_beq _ _ = false

-- `value.replace("\\", "/")`
abbrev pub portable_of : List ℕ → List ℕ
portable_of [] = []
portable_of (c ∷ cs) = (if nat_beq c b'\\' then b'/' else c) ∷ portable_of cs

abbrev cons_first : ℕ → List Part → List Part
cons_first c [] = (c ∷ []) ∷ []
cons_first c (p ∷ ps) = (c ∷ p) ∷ ps

-- `portable.split("/")`
unfoldable pub split : List ℕ → List Part
split [] = [] ∷ []
split (c ∷ cs) = let rest = split cs in if nat_beq c b'/' then [] ∷ rest else cons_first c rest

-- `part in {"", ".", ".."}`
abbrev pub is_special : Part → Bool
is_special [] = true
is_special (a ∷ []) = nat_beq a b'.'
is_special (a ∷ b ∷ []) = nat_beq a b'.' && nat_beq b b'.'
is_special _ = false

-- `PurePosixPath(…).parts` of a relative path: empty and `.` parts are left out.
abbrev pub kept_in_path : Part → Bool
kept_in_path [] = false
kept_in_path (a ∷ []) = not (nat_beq a b'.')
kept_in_path _ = true

abbrev pub is_letter : ℕ → Bool
is_letter c = leb b'A' c && leb c b'Z' || leb b'a' c && leb c b'z'

-- `portable.startswith("/")` and `_DRIVE.match(portable)`
abbrev pub is_absolute : List ℕ → Bool
is_absolute [] = false
is_absolute (a ∷ []) = nat_beq a b'/'
is_absolute (a ∷ b ∷ cs) = nat_beq a b'/' || is_letter a && nat_beq b b':'

abbrev pub raw_parts : List ℕ → Option (List Part)
raw_parts portable =
    let raw = split portable in
    if any is_special raw
    then none
    else if parts_beq raw (keep kept_in_path raw)
    then some (keep kept_in_path raw)
    else none

-- `_parts` of a text.
unfoldable pub parts_of_codes : List ℕ → Bool → Option (List Part)
unfolding split
parts_of_codes value allow_root =
    let portable = portable_of value in
    if any (nat_beq 0) value
    then none
    else if part_beq portable (b'.' ∷ [])
    then (if allow_root then some [] else none)
    else if is_absolute portable
    then none
    else raw_parts portable

unfoldable pub parts : Json → Bool → Option (List Part)
unfolding parts_of_codes
parts (text s) allow_root = elim (codes s) [
  | [] ↦ none
  | c ∷ cs ↦ parts_of_codes (c ∷ cs) allow_root
]
parts _ allow_root = none

pub record WorkspaceWriteRule : Type 0 where
  pub space : String
  pub path : String

pub data PolicyError : Type 0 where
  value_error : PolicyError

-- `__post_init__`
unfoldable pub write_rule : String → String → Result PolicyError WorkspaceWriteRule
unfolding parts
write_rule space path = do
  require (space == "product" || space == "shared") value_error
  require (is_some (parts (text path) true)) value_error
  ok (record { space = space; path = path })

-- `space`, with `None` as "product".
abbrev pub space_text : Json → Option String
space_text null = some "product"
space_text (text s) = some s
space_text _ = none

abbrev pub starts_with : List Part → List Part → Bool
starts_with configured requested = parts_beq (take (length configured) requested) configured

-- `not configured or requested[: len(configured)] == configured`
abbrev pub covers : Option (List Part) → Option (List Part) → Bool
covers (some configured) (some requested) = starts_with configured requested
covers _ _ = false

unfoldable pub permits : WorkspaceWriteRule → Json → Json → Bool
unfolding parts
permits rule space path =
    space_text space == some rule.space && covers (parts (text rule.path) true) (parts path false)

pub data ToolAuthorization : Type 0 where
  default allow require_approval deny : ToolAuthorization

-- `arguments.get(key, default)`
abbrev pub argument : String → Json → Fields → Json
argument key other fields = elim (lookup key fields) [ none ↦ other | some v ↦ v ]

unfoldable pub is_builtin_file_write : ToolIdentity → ToolSpec → Bool
is_builtin_file_write identity spec =
    identity.namespace == "suiteharness"
    && identity.origin == "suiteharness.builtin.fs"
    && (identity.name == "suiteharness.fs.write" || identity.name == "suiteharness.fs.edit")
    && spec.name == identity.name

unfoldable pub evaluate_feishu :
    List WorkspaceWriteRule → ToolIdentity → ToolSpec → Fields → ToolAuthorization
unfolding is_builtin_file_write permits is_read
evaluate_feishu roots identity spec arguments =
    if has_effect destructive spec.effects
    then deny
    else if is_read spec
    then allow
    else if not (is_builtin_file_write identity spec)
    then deny
    else if any
        (λ (rule : WorkspaceWriteRule).
          permits rule (argument "space" (text "product") arguments)
            (argument "path" null arguments))
        roots
    then allow
    else deny

unfoldable pub evaluate :
    List WorkspaceWriteRule → RequestScope → ToolIdentity → ToolSpec → Fields → ToolAuthorization
unfolding evaluate_feishu
evaluate roots scope identity spec arguments =
    if scope.channel_id == "web"
    then (if has_effect write spec.effects || has_effect destructive spec.effects
        then require_approval
        else allow)
    else if not (scope.channel_id == "feishu")
    then default
    else evaluate_feishu roots identity spec arguments
