-- ===== src/Budget/Bounds.antt =====
-- The limits of the shared budget over interleavings of parent and child runs.
use suite_harness.Base.{
  ℕ, ◌+◌, ◌≤◌, ◌≡◌, none, some, List, [], ◌∷◌, arith, length, string_eq, ok, IntArg, nat,
}
use suite_harness.Base.KeySet.{IsDistinct}
use suite_harness.Budget.{Budget, create}
use suite_harness.Budget.Runs.{
  Op, iteration, tool_slots, child, child_slot, step, run, slots_of, slots_total, iteration_of,
  iterations_total,
}

pub record IsWithin (b : Budget) : Type 0 where
  pub iterations : b.iterations_used ≤ b.max_iterations
  pub tool_calls : b.tool_calls_used ≤ b.max_tool_calls
  pub children : length b.child_calls ≤ b.max_children
  pub distinct : IsDistinct b.child_calls
  pub active : b.active_children ≤ b.max_children

pub record SameLimits (b c : Budget) : Type 0 where
  pub iterations : c.max_iterations ≡ b.max_iterations
  pub tool_calls : c.max_tool_calls ≡ b.max_tool_calls
  pub children : c.max_children ≡ b.max_children
  pub deadline : c.deadline ≡ b.deadline

step-IsWithin : (now : ℕ) (op : Op) (b : Budget) → IsWithin b → IsWithin (step now op b).0
unfolding step
step-IsWithin now iteration b h = ground arith
step-IsWithin now (tool_slots (nat n)) b h = ground arith
step-IsWithin now (child call_id none) b h = ground arith
step-IsWithin now (child call_id (some (nat c))) b h = ground arith
step-IsWithin now (child_slot (nat n)) b h = ground arith
step-IsWithin now _ b h = ground arith

step-SameLimits : (now : ℕ) (op : Op) (b : Budget) → SameLimits b (step now op b).0
unfolding step
step-SameLimits now (child call_id none) b = ground arith
step-SameLimits now (child call_id (some (nat c))) b = ground arith
step-SameLimits now _ b = ground arith

run-IsWithin : (b : Budget) (ops : List (ℕ × Op)) → IsWithin b → IsWithin (run b ops).0
unfolding run
run-IsWithin b [] h = h
run-IsWithin b ((now, op) ∷ ops) h = run-IsWithin (step now op b).0 ops (step-IsWithin now op b h)

run-SameLimits : (b : Budget) (ops : List (ℕ × Op)) → SameLimits b (run b ops).0
unfolding run
run-SameLimits b [] = ground arith
run-SameLimits b ((now, op) ∷ ops) =
    ground (arith, step-SameLimits now op b, run-SameLimits (step now op b).0 ops)

create-IsWithin :
    (i t c : IntArg) (deadline : ℕ) {b : Budget} → create i t c deadline ≡ ok b → IsWithin b
unfolding create
create-IsWithin i t c deadline h = ground arith

-- A budget that was created stays within its limits through every interleaving of calls, and the
-- limits and the deadline stay as they were created: the iterations, the tool calls and the active
-- children never pass their ceilings, and the reserved child calls are distinct and at most
-- `max_children`.
pub run-create-IsWithin :
    (i t c : IntArg) (deadline : ℕ) {b : Budget} (ops : List (ℕ × Op))
    → create i t c deadline ≡ ok b
    → IsWithin (run b ops).0 × SameLimits b (run b ops).0
run-create-IsWithin i t c deadline {b} ops h =
    (run-IsWithin b ops (create-IsWithin i t c deadline h), run-SameLimits b ops)

step-slots :
    (now : ℕ) (op : Op) (b : Budget)
    → (step now op b).0.tool_calls_used ≡ b.tool_calls_used + slots_of (step now op b).1
unfolding step
step-slots now (child call_id none) b = ground arith
step-slots now (child call_id (some (nat c))) b = ground arith
step-slots now _ b = ground arith

step-iterations :
    (now : ℕ) (op : Op) (b : Budget)
    → (step now op b).0.iterations_used ≡ b.iterations_used + iteration_of (step now op b).1
unfolding step
step-iterations now (child call_id none) b = ground arith
step-iterations now (child call_id (some (nat c))) b = ground arith
step-iterations now _ b = ground arith

run-slots :
    (b : Budget) (ops : List (ℕ × Op))
    → (run b ops).0.tool_calls_used ≡ b.tool_calls_used + slots_total (run b ops).1
unfolding run
run-slots b [] = omega arith
run-slots b ((now, op) ∷ ops) = omega (arith, step-slots now op b, run-slots (step now op b).0 ops)

run-iterations :
    (b : Budget) (ops : List (ℕ × Op))
    → (run b ops).0.iterations_used ≡ b.iterations_used + iterations_total (run b ops).1
unfolding run
run-iterations b [] = omega arith
run-iterations b ((now, op) ∷ ops) =
    omega (arith, step-iterations now op b, run-iterations (step now op b).0 ops)

-- The iterations and the tool slots that a budget within its limits gives out over any
-- interleaving, added up over all callers, are exactly what its counters grew by, and with what was
-- used before they do not pass the ceilings.
pub charged_within_ceiling :
    (b : Budget) (ops : List (ℕ × Op))
    → IsWithin b
    → ((run b ops).0.tool_calls_used ≡ b.tool_calls_used + slots_total (run b ops).1)
      × (b.tool_calls_used + slots_total (run b ops).1 ≤ b.max_tool_calls)
      × ((run b ops).0.iterations_used ≡ b.iterations_used + iterations_total (run b ops).1)
      × (b.iterations_used + iterations_total (run b ops).1 ≤ b.max_iterations)
charged_within_ceiling b ops h =
    let w = run-IsWithin b ops h in
    let l = run-SameLimits b ops in
    let s = run-slots b ops in
    let i = run-iterations b ops in
    (s, omega (arith, w.tool_calls, l.tool_calls), i, omega (arith, w.iterations, l.iterations))
