-- ===== src/Tools/Tests.antt =====
-- Tool effects at concrete inputs.
use suite_harness.Base.{◌≡◌, refl, [], ◌∷◌, err}
use suite_harness.Base.Json
use suite_harness.Tools.{read, write, destructive, ToolSpec, value_error, validate_effects}

abbrev delete_tool : ToolSpec
delete_tool = record {
  name = "records.delete";
  effects = write ∷ destructive ∷ [];
  required_capabilities = [];
  input_schema = Json.object Json.end;
}

read_and_write : validate_effects (read ∷ write ∷ []) ≡ err value_error
unfolding validate_effects
read_and_write = refl
