-- ===== src/Budget/Tests.antt =====
-- Runs of the shared budget at concrete inputs.
use suite_harness.Base.{
  ℕ, ◌≡◌, refl, none, List, [], ◌∷◌, arith, nat, negative, err, string_eq, ◌≤◌, ◌+◌,
}
use suite_harness.Budget.{Budget, create, value_error}
use suite_harness.Budget.Runs.{
  Op, iteration, tool_slots, child, child_slot, free_slot, run, step, child_total, slots_total,
}
use suite_harness.Budget.Bounds.{IsWithin, SameLimits, run-create-IsWithin}
use suite_harness.Budget.Slots.{held, child_reserved_once}

abbrev fresh : Budget
fresh = record {
  max_iterations = 2;
  max_tool_calls = 3;
  max_children = 1;
  deadline = 100;
  iterations_used = 0;
  tool_calls_used = 0;
  child_calls = [];
  active_children = 0;
}

abbrev busy : Budget
busy = record fresh { active_children = 1 }

-- Two callers ask for two tool slots each, and both ask for the one child.
abbrev history : List (ℕ × Op)
history =
    (1, iteration)
    ∷ (2, tool_slots (nat 2))
    ∷ (3, tool_slots (nat 2))
    ∷ (4, child "a" none)
    ∷ (5, child "a" none)
    ∷ (6, child_slot (nat 4))
    ∷ (7, child_slot (nat 4))
    ∷ (8, free_slot)
    ∷ []

negative_limit : create (nat 1) (negative 0) (nat 1) 9 ≡ err value_error
unfolding create
negative_limit = refl

second_caller_gets_the_rest : slots_total (run fresh history).1 ≡ 3
unfolding run step
second_caller_gets_the_rest = refl

fresh-IsWithin : IsWithin fresh
fresh-IsWithin = omega arith

run-create-IsWithin_example :
    IsWithin (run fresh history).0 × SameLimits fresh (run fresh history).0
unfolding create
run-create-IsWithin_example = run-create-IsWithin (nat 2) (nat 3) (nat 1) 100 history refl

child_reserved_once_example : held "a" fresh + child_total "a" (run fresh history).1 ≤ 1
child_reserved_once_example = child_reserved_once "a" fresh history

-- The slot is busy at first, and free after the notification.
