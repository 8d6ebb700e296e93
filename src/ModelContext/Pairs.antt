-- ===== src/ModelContext/Pairs.antt =====
-- What the pairing of tool calls with results guarantees of a conversation.
use suite_harness.Base.{
  ℕ, ◌+◌, ◌≤◌, ◌≡◌, refl, inl, inr, String, true, ◌||◌, not, Option, none, some, List, [], ◌∷◌,
  arith, ◌==◌, string_eq, contains, if◌then◌else◌, Result-cases, ok, err,
}
use suite_harness.Base.KeySet.{add, discard, contains-add, contains-discard}
use suite_harness.ModelContext.{
  ModelRole, system, user, assistant, tool, ModelMessage, budget_error, add_calls, pairs_loop,
  validate_pairs,
}

-- How often `id` is among some calls.
abbrev pub count_calls : String → List String → ℕ
count_calls id [] = 0
count_calls id (c ∷ cs) = (if c == id then 1 else 0) + count_calls id cs

-- The calls that one message makes, and the results that it gives, for `id`.
abbrev pub calls_in : String → ModelMessage → ℕ
calls_in id m = elim m.role [
  | ModelRole.system ↦ 0
  | ModelRole.tool ↦ 0
  | _ ↦ count_calls id m.tool_calls
]

abbrev pub results_in : String → ModelMessage → ℕ
results_in id m = elim m.role [
  | ModelRole.tool ↦ elim m.tool_call_id [ none ↦ 0 | some j ↦ if j == id then 1 else 0 ]
  | _ ↦ 0
]

abbrev pub calls_total : String → List ModelMessage → ℕ
calls_total id [] = 0
calls_total id (m ∷ ms) = calls_in id m + calls_total id ms

abbrev pub results_total : String → List ModelMessage → ℕ
results_total id [] = 0
results_total id (m ∷ ms) = results_in id m + results_total id ms

abbrev held : String → List String → ℕ
held id s = if contains id s then 1 else 0

add_calls-held :
    (id : String) (calls pending used pending' used' : List String)
    → (not (contains id pending) || contains id used) ≡ true
    → add_calls calls pending used ≡ ok (pending', used')
    → (held id pending' ≡ held id pending + count_calls id calls)
      × (held id used' ≡ held id used + count_calls id calls)
      × ((not (contains id pending') || contains id used') ≡ true)
unfolding add_calls
add_calls-held id [] pending used pending' used' w h = ground (arith, h, w)
add_calls-held id (c ∷ calls) pending used pending' used' w h = ground (
  arith,
  h,
  w,
  string_eq.same_iff c id,
  contains-add c id pending,
  contains-add c id used,
  add_calls-held id calls (add c pending) (add c used) pending' used',
)

-- No call is pending that was not made.
abbrev WasMade : String → List String → List String → Type 0
WasMade id pending used = (not (contains id pending) || contains id used) ≡ true

-- Every call of `id` is answered, with those that are pending, and it is made once at most.
abbrev IsBalanced : String → List ModelMessage → List String → List String → Type 0
IsBalanced id ms pending used =
    (results_total id ms ≡ calls_total id ms + held id pending)
    × (calls_total id ms + held id used ≤ 1)

-- One message that is neither a system message nor a result.
speaker-IsBalanced :
    (id : String) (calls : List String) (ms : List ModelMessage) (pending used : List String)
    → ((p u : List String) → WasMade id p u → pairs_loop ms p u ≡ ok tt → IsBalanced id ms p u)
    → WasMade id pending used
    → (elim pending [
      | p ∷ ps ↦ err budget_error
      | [] ↦ elim (add_calls calls [] used) [
        | err e ↦ err e
        | ok (pending', used') ↦ pairs_loop ms pending' used'
      ]
    ])
      ≡ ok tt
    → (results_total id ms ≡ count_calls id calls + calls_total id ms + held id pending)
      × (count_calls id calls + calls_total id ms + held id used ≤ 1)
speaker-IsBalanced id calls ms (p ∷ ps) used ih w h = absurd (ground arith)
speaker-IsBalanced id calls ms [] used ih w h = elim (Result-cases (add_calls calls [] used)) [
  | inr (e, bad) ↦ absurd (ground (arith, h, bad))
  | inl ((p', u'), good) ↦
      let made = add_calls-held id calls [] used p' u' refl good in
      let rest = ih p' u' made.2 (ground (arith, h, good)) in
      omega (arith, made.0, made.1, rest.0, rest.1)
]

message-IsBalanced :
    (id : String) (role : ModelRole) (o : Option String) (calls : List String)
    (ms : List ModelMessage) (pending used : List String)
    → ((p u : List String) → WasMade id p u → pairs_loop ms p u ≡ ok tt → IsBalanced id ms p u)
    → WasMade id pending used
    → pairs_loop (record { role = role; tool_call_id = o; tool_calls = calls } ∷ ms) pending used
      ≡ ok tt
    → IsBalanced id (record { role = role; tool_call_id = o; tool_calls = calls } ∷ ms) pending used
unfolding pairs_loop
message-IsBalanced id system o calls ms pending used ih w h =
    let rest = ih pending used w h in omega (arith, rest.0, rest.1)
message-IsBalanced id tool none calls ms pending used ih w h = absurd (ground arith)
message-IsBalanced id tool (some j) calls ms pending used ih w h =
    let rest =
      ih (discard j pending) used
        (ground (arith, w, contains-discard j id pending, string_eq.same_iff j id)) in
    ground (arith, h, w, string_eq.same_iff j id, contains-discard j id pending, rest)
message-IsBalanced id user o calls ms pending used ih w h =
    let rest = speaker-IsBalanced id calls ms pending used ih w h in omega (arith, rest.0, rest.1)
message-IsBalanced id assistant o calls ms pending used ih w h =
    let rest = speaker-IsBalanced id calls ms pending used ih w h in omega (arith, rest.0, rest.1)

pairs_loop-IsBalanced :
    (id : String) (ms : List ModelMessage) (pending used : List String)
    → WasMade id pending used
    → pairs_loop ms pending used ≡ ok tt
    → IsBalanced id ms pending used
pairs_loop-IsBalanced id [] [] used w h = (refl, ground arith)
pairs_loop-IsBalanced id [] (p ∷ ps) used w h = absurd (unfold pairs_loop in ground (arith, h))
pairs_loop-IsBalanced id (m ∷ ms) pending used w h =
    message-IsBalanced id m.role m.tool_call_id m.tool_calls ms pending used
      (pairs_loop-IsBalanced id ms) w h

-- In a conversation whose pairs were accepted every tool call id is called at most once, and it has
-- as many results as calls.
pub validate_pairs_lem :
    (messages : List ModelMessage) (id : String)
    → validate_pairs messages ≡ ok tt
    → (results_total id messages ≡ calls_total id messages) × (calls_total id messages ≤ 1)
unfolding validate_pairs
validate_pairs_lem messages id h =
    let b = pairs_loop-IsBalanced id messages [] [] refl h in omega (arith, b.0, b.1)
