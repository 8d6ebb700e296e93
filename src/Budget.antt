-- ===== src/Budget.antt =====
-- src/suiteharness/multiagent/budget.py: the quota that a parent run shares with its child runs.
-- Every method runs under one lock, so a history is a sequence of method calls; the time of
-- `time.monotonic()` is an argument of each call, in ticks.
pub mod Runs
pub mod Bounds
pub mod Slots
mod Tests
use suite_harness.Base.{
  ℕ, ◌+◌, ◌-◌, min, String, ◌≡◌, Bool, true, false, ◌||◌, ◌&&◌, Option, none, some, List, [], ◌∷◌,
  ltb, leb, if◌then◌else◌, length, contains, ◌==◌, string_eq, Result, ok, err, IntArg, nat,
  negative, not_int, ◌>>=◌,
}

pub record Budget : Type 0 where
  pub max_iterations : ℕ
  pub max_tool_calls : ℕ
  pub max_children : ℕ
  pub deadline : ℕ
  pub iterations_used : ℕ
  pub tool_calls_used : ℕ
  pub child_calls : List String
  pub active_children : ℕ

pub data BudgetError : Type 0 where
  value_error runtime_error : BudgetError

-- `isinstance(value, bool) or not isinstance(value, int) or value < 0`
unfoldable pub nonnegative : IntArg → Result BudgetError ℕ
nonnegative (nat n) = ok n
nonnegative (negative n) = err value_error
nonnegative not_int = err value_error

unfoldable pub create : IntArg → IntArg → IntArg → ℕ → Result BudgetError Budget
unfolding nonnegative
create max_iterations max_tool_calls max_children deadline = do
  iterations ← nonnegative max_iterations
  tool_calls ← nonnegative max_tool_calls
  children ← nonnegative max_children
  ok (record {
    max_iterations = iterations;
    max_tool_calls = tool_calls;
    max_children = children;
    deadline = deadline;
    iterations_used = 0;
    tool_calls_used = 0;
    child_calls = [];
    active_children = 0;
  })

-- `max(0.0, deadline - now)`: subtraction on ℕ stops at 0.
unfoldable pub remaining_seconds : Budget → ℕ → ℕ
remaining_seconds b now = b.deadline - now

unfoldable pub take_iteration : ℕ → Budget → Budget × Bool
unfolding remaining_seconds
take_iteration now b =
    if leb (remaining_seconds b now) 0 || leb b.max_iterations b.iterations_used
    then (b, false)
    else (record b { iterations_used = b.iterations_used + 1 }, true)

unfoldable pub take_tool_slots : ℕ → IntArg → Budget → Result BudgetError (Budget × ℕ)
unfolding remaining_seconds nonnegative
take_tool_slots now requested b = do
  requested ← nonnegative requested
  if leb (remaining_seconds b now) 0 then ok (b, 0) else do
    let permitted = min requested (b.max_tool_calls - b.tool_calls_used)
    ok (record b { tool_calls_used = b.tool_calls_used + permitted }, permitted)

unfoldable pub child_limit : Budget → Option ℕ → ℕ
child_limit b none = b.max_children
child_limit b (some ceiling) = min b.max_children ceiling

unfoldable pub optional_ceiling : Option IntArg → Result BudgetError (Option ℕ)
unfolding nonnegative
optional_ceiling none = ok none
optional_ceiling (some ceiling) = do c ← nonnegative ceiling; ok (some c)

unfoldable pub reserve_child :
    ℕ → String → Option IntArg → Budget → Result BudgetError (Budget × Bool)
unfolding remaining_seconds optional_ceiling child_limit
reserve_child now call_id ceiling b = if call_id == "" then err value_error else do
  ceiling ← optional_ceiling ceiling
  if leb (remaining_seconds b now) 0
        || contains call_id b.child_calls
        || leb (child_limit b ceiling) (length b.child_calls)
      then ok (b, false)
      else ok (record b { child_calls = call_id ∷ b.child_calls }, true)

-- What one pass of the `while` loop of `take_child_slot` comes to: the slot, the end of the loop,
-- or a wait on the condition.
pub data Pass : Type 0 where
  granted : Budget → Pass
  ended : Pass
  waits : Pass

unfoldable pub slot_pass : ℕ → ℕ → Budget → Pass
unfolding remaining_seconds
slot_pass now effective b =
    if ltb 0 (remaining_seconds b now) && ltb 0 effective
    then if ltb b.active_children effective
      then granted (record b { active_children = b.active_children + 1 })
      else waits
    else ended

-- How a wait ends: by `notify_all`, at a later time and with the budget as the other tasks left it,
-- or by the timeout.
pub data Wake : Type 0 where
  notified : ℕ → Budget → Wake
  timed_out : Wake

-- The outcome of the call, `none` while it still waits.
pub data SlotReply : Type 0 where
  acquired : Budget → SlotReply
  refused : SlotReply
  blocked : SlotReply

unfoldable pub wait_loop : ℕ → ℕ → Budget → List Wake → SlotReply
unfolding slot_pass
wait_loop effective now b [] = elim (slot_pass now effective b) [
  | granted b' ↦ acquired b'
  | ended ↦ refused
  | waits ↦ blocked
]
wait_loop effective now b (timed_out ∷ wakes) = elim (slot_pass now effective b) [
  | granted b' ↦ acquired b'
  | ended ↦ refused
  | waits ↦ refused
]
wait_loop effective now b (notified later c ∷ wakes) =
    let rest = wait_loop effective later c wakes in
    elim (slot_pass now effective b) [ granted b' ↦ acquired b' | ended ↦ refused | waits ↦ rest ]

unfoldable pub take_child_slot : ℕ → IntArg → Budget → List Wake → Result BudgetError SlotReply
unfolding nonnegative wait_loop
take_child_slot now ceiling b wakes = do
  ceiling ← nonnegative ceiling
  ok (wait_loop (min ceiling b.max_children) now b wakes)

unfoldable pub release_child_slot : Budget → Result BudgetError Budget
release_child_slot b =
    if leb b.active_children 0
    then err runtime_error
    else ok (record b { active_children = b.active_children - 1 })
