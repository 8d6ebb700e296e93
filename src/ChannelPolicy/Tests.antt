-- ===== src/ChannelPolicy/Tests.antt =====
-- Paths that the policy takes and refuses, and a Feishu write under a root.
use suite_harness.Base.{String, ◌≡◌, refl, Bool, true, false, none, List, [], ◌∷◌, is_some, map}
use suite_harness.Base.Json.{text, object, Fields, field, end, lookup}
use suite_harness.Scopes.{RequestScope, agent_path}
use suite_harness.Tools.{ToolIdentity, ToolSpec, write, is_read}
use suite_harness.ChannelPolicy.{parts, parts_of_codes, split, WorkspaceWriteRule, evaluate, deny}
use suite_harness.ChannelPolicy.Decisions.{IsConfinedWrite, feishu_write-IsConfinedWrite}

abbrev taken : List String → List Bool
taken = map (λ s. is_some (parts (text s) false))

path_table :
    taken ("a/b.txt" ∷ "a\\b" ∷ "../a" ∷ "a//b" ∷ "/a" ∷ "C:x" ∷ "a/./b" ∷ "." ∷ "" ∷ [])
    ≡ true ∷ true ∷ false ∷ false ∷ false ∷ false ∷ false ∷ false ∷ false ∷ []
unfolding parts parts_of_codes split
path_table = refl

abbrev rule : WorkspaceWriteRule
rule = record { space = "product"; path = "reports" }

abbrev write_file : ToolSpec
write_file = record {
  name = "suiteharness.fs.write";
  effects = write ∷ [];
  required_capabilities = [];
  input_schema = object end;
}

abbrev identity : ToolIdentity
identity = record {
  namespace = "suiteharness";
  name = "suiteharness.fs.write";
  origin = "suiteharness.builtin.fs";
  version = "1";
}

abbrev request : RequestScope
request = record {
  path = agent_path "acme" "desk" "helper" "s1";
  principal_id = "alice";
  channel_id = "feishu";
  session_owner_id = none;
}

abbrev arguments : Fields
arguments = field "path" (text "reports/may.txt") end

outside_is_denied :
    evaluate (rule ∷ []) request identity write_file (field "path" (text "reports/../x") end) ≡ deny
unfolding evaluate lookup
outside_is_denied = refl

feishu_write-IsConfinedWrite_example : IsConfinedWrite (rule ∷ []) identity write_file arguments
unfolding evaluate is_read lookup
feishu_write-IsConfinedWrite_example =
    feishu_write-IsConfinedWrite (rule ∷ []) request identity write_file arguments refl refl refl
