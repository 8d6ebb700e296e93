-- ===== src/ModelContext.antt =====
-- src/suiteharness/models/context.py: the pairing of tool calls with their results, and the rounds
-- of a conversation. A message is kept with its role and the ids that these read.
pub mod Pairs
mod Tests
use suite_harness.Base.{
  ℕ, suc, ◌+◌, String, Bool, true, false, ◌&&◌, ◌||◌, not, Option, none, some, List, [], ◌∷◌, ◌++◌,
  ◌==◌, string_eq, contains, if◌then◌else◌, Result, ok, err, ◌>>=◌, ◌>>◌, require,
}
use suite_harness.Base.KeySet.{add, discard}

pub data ModelRole : Type 0 where
  system user assistant tool : ModelRole

pub record ModelMessage : Type 0 where
  pub role : ModelRole
  pub tool_call_id : Option String
  pub tool_calls : List String

pub data ContextError : Type 0 where
  budget_error : ContextError

-- The loop over the calls of one message, with the sets `pending` and `used`.
unfoldable pub add_calls :
    List String → List String → List String → Result ContextError (List String × List String)
add_calls [] pending used = ok (pending, used)
add_calls (call ∷ calls) pending used =
    if contains call used
    then err budget_error
    else add_calls calls (add call pending) (add call used)

-- The loop over the messages.
unfoldable pub pairs_loop :
    List ModelMessage → List String → List String → Result ContextError (Unit {0})
unfolding add_calls
pairs_loop [] [] used = ok tt
pairs_loop [] (p ∷ ps) used = err budget_error
pairs_loop (m ∷ ms) pending used = elim m.role [
  | ModelRole.system ↦ pairs_loop ms pending used
  | ModelRole.tool ↦ elim m.tool_call_id [
    | none ↦ err budget_error
    | some id ↦
        if contains id pending then pairs_loop ms (discard id pending) used else err budget_error
  ]
  | _ ↦ elim pending [
    | p ∷ ps ↦ err budget_error
    | [] ↦ elim (add_calls m.tool_calls [] used) [
      | err e ↦ err e
      | ok (pending', used') ↦ pairs_loop ms pending' used'
    ]
  ]
]

-- `_validate_pairs`
unfoldable pub validate_pairs : List ModelMessage → Result ContextError (Unit {0})
unfolding pairs_loop
validate_pairs messages = pairs_loop messages [] []

-- `rounds[-1].append(index)`
unfoldable pub append_last : ℕ → List (List ℕ) → List (List ℕ)
append_last index [] = []
append_last index (r ∷ []) = (r ++ index ∷ []) ∷ []
append_last index (r ∷ q ∷ rounds) = r ∷ append_last index (q ∷ rounds)

abbrev is_user : ModelRole → Bool
is_user user = true
is_user _ = false

abbrev has_none : {A : Type 0} → List A → Bool
has_none [] = true
has_none (x ∷ xs) = false

-- `message.role is ModelRole.ASSISTANT and not message.tool_calls`
abbrev answers : ModelMessage → Bool
answers m = elim m.role [ assistant ↦ has_none m.tool_calls | _ ↦ false ]

-- The loop that groups the messages into rounds; `index` is the next message's.
unfoldable pub rounds_loop : ℕ → List ModelMessage → List (List ℕ) → Bool → List (List ℕ)
unfolding append_last
rounds_loop index [] rounds answered = rounds
rounds_loop index (m ∷ ms) rounds answered = elim m.role [
  | ModelRole.system ↦ rounds_loop (suc index) ms rounds answered
  | _ ↦
      let opens : Bool = has_none rounds || (is_user m.role && answered) in
      rounds_loop (suc index) ms (append_last index (if opens then rounds ++ [] ∷ [] else rounds))
        (answers m || not opens && answered)
]
