-- ===== src/ModelContext/Tests.antt =====
-- A conversation with one tool call.
use suite_harness.Base.KeySet.{add, discard}
use suite_harness.Base.{◌≡◌, ◌≤◌, refl, none, some, List, [], ◌∷◌, err, false}
use suite_harness.ModelContext.{
  user, assistant, tool, ModelMessage, budget_error, validate_pairs, rounds_loop,
}
use suite_harness.ModelContext.Pairs.{calls_total, results_total, validate_pairs_lem}

abbrev asks : ModelMessage
asks = record { role = user; tool_call_id = none; tool_calls = [] }

abbrev calls : ModelMessage
calls = record { role = assistant; tool_call_id = none; tool_calls = "c1" ∷ [] }

abbrev result : ModelMessage
result = record { role = tool; tool_call_id = some "c1"; tool_calls = [] }

abbrev replies : ModelMessage
replies = record { role = assistant; tool_call_id = none; tool_calls = [] }

abbrev conversation : List ModelMessage
conversation = asks ∷ calls ∷ result ∷ replies ∷ asks ∷ []

orphan_refused : validate_pairs (asks ∷ result ∷ []) ≡ err budget_error
unfolding validate_pairs
orphan_refused = refl

two_rounds : rounds_loop 0 conversation [] false ≡ (0 ∷ 1 ∷ 2 ∷ 3 ∷ []) ∷ (4 ∷ []) ∷ []
unfolding rounds_loop
two_rounds = refl

validate_pairs_lem_example :
    (results_total "c1" conversation ≡ calls_total "c1" conversation)
    × (calls_total "c1" conversation ≤ 1)
unfolding validate_pairs add discard
validate_pairs_lem_example = validate_pairs_lem conversation "c1" refl
