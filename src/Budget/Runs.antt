-- ===== src/Budget/Runs.antt =====
-- Histories of a shared budget: any interleaving of the methods' critical sections. One pass of
-- the loop of `take_child_slot` is such a section, since the wait gives the lock up.
use suite_harness.Base.{
  ℕ, ◌+◌, min, String, Bool, true, Option, List, [], ◌∷◌, if◌then◌else◌, ◌==◌, string_eq, Result,
  ok, err, IntArg,
}
use suite_harness.Budget.{
  Budget, BudgetError, Pass, granted, ended, waits, nonnegative, take_iteration, take_tool_slots,
  reserve_child, slot_pass, release_child_slot,
}

pub data Op : Type 0 where
  iteration : Op
  tool_slots : IntArg → Op
  child : String → Option IntArg → Op
  child_slot : IntArg → Op
  free_slot : Op

pub data Reply : Type 0 where
  iteration_given : Bool → Reply
  slots_given : ℕ → Reply
  child_given : String → Bool → Reply
  slot_given : Reply
  slot_ended : Reply
  slot_waits : Reply
  slot_freed : Reply
  raised : BudgetError → Reply

abbrev slots_reply : Budget → Result BudgetError (Budget × ℕ) → Budget × Reply
slots_reply b (ok (b', n)) = (b', slots_given n)
slots_reply b (err e) = (b, raised e)

abbrev child_reply : Budget → String → Result BudgetError (Budget × Bool) → Budget × Reply
child_reply b call_id (ok (b', given)) = (b', child_given call_id given)
child_reply b call_id (err e) = (b, raised e)

abbrev pass_reply : Budget → Pass → Budget × Reply
pass_reply b (granted b') = (b', slot_given)
pass_reply b ended = (b, slot_ended)
pass_reply b waits = (b, slot_waits)

abbrev slot_reply : ℕ → Budget → Result BudgetError ℕ → Budget × Reply
slot_reply now b (ok ceiling) = pass_reply b (slot_pass now (min ceiling b.max_children) b)
slot_reply now b (err e) = (b, raised e)

abbrev free_reply : Budget → Result BudgetError Budget → Budget × Reply
free_reply b (ok b') = (b', slot_freed)
free_reply b (err e) = (b, raised e)

abbrev iteration_reply : Budget × Bool → Budget × Reply
iteration_reply (b', given) = (b', iteration_given given)

unfoldable pub step : ℕ → Op → Budget → Budget × Reply
unfolding take_iteration take_tool_slots reserve_child slot_pass release_child_slot nonnegative
step now iteration b = iteration_reply (take_iteration now b)
step now (tool_slots requested) b = slots_reply b (take_tool_slots now requested b)
step now (child call_id ceiling) b = child_reply b call_id (reserve_child now call_id ceiling b)
step now (child_slot ceiling) b = slot_reply now b (nonnegative ceiling)
step now free_slot b = free_reply b (release_child_slot b)

unfoldable pub run : Budget → List (ℕ × Op) → Budget × List Reply
run b [] = (b, [])
run b ((now, op) ∷ ops) =
    let (b', reply) = step now op b in let (b'', replies) = run b' ops in (b'', reply ∷ replies)

-- What the replies gave out.
abbrev pub slots_of : Reply → ℕ
slots_of (slots_given n) = n
slots_of _ = 0

abbrev pub slots_total : List Reply → ℕ
slots_total [] = 0
slots_total (r ∷ rs) = slots_of r + slots_total rs

abbrev pub iteration_of : Reply → ℕ
iteration_of (iteration_given true) = 1
iteration_of _ = 0

abbrev pub iterations_total : List Reply → ℕ
iterations_total [] = 0
iterations_total (r ∷ rs) = iteration_of r + iterations_total rs

abbrev pub child_of : String → Reply → ℕ
child_of call_id (child_given c true) = if c == call_id then 1 else 0
child_of call_id _ = 0

-- How often a reservation of `call_id` succeeded.
abbrev pub child_total : String → List Reply → ℕ
child_total call_id [] = 0
child_total call_id (r ∷ rs) = child_of call_id r + child_total call_id rs

abbrev pub acquired_of : Reply → ℕ
acquired_of slot_given = 1
acquired_of _ = 0

abbrev pub acquired_total : List Reply → ℕ
acquired_total [] = 0
acquired_total (r ∷ rs) = acquired_of r + acquired_total rs

abbrev pub freed_of : Reply → ℕ
freed_of slot_freed = 1
freed_of _ = 0

abbrev pub freed_total : List Reply → ℕ
freed_total [] = 0
freed_total (r ∷ rs) = freed_of r + freed_total rs
