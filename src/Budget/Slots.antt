-- ===== src/Budget/Slots.antt =====
-- Reservations and concurrency slots of children, and the deadline.
use suite_harness.Base.{
  ℕ, ◌+◌, ◌≤◌, ◌<◌, min, String, ◌≡◌, ◌⊎◌, Bool, true, false, none, some, List, [], ◌∷◌, arith,
  if◌then◌else◌, contains, string_eq, ok, nat, ltb,
}
use suite_harness.Budget.{Budget, acquired, Wake, notified, timed_out, wait_loop, take_child_slot}
use suite_harness.Budget.Runs.{
  Op, child, Reply, iteration_given, slots_given, child_given, slot_given, step, run, child_of,
  child_total, acquired_of, acquired_total, freed_of, freed_total,
}

step-active :
    (now : ℕ) (op : Op) (b : Budget)
    → (step now op b).0.active_children + freed_of (step now op b).1
      ≡ b.active_children + acquired_of (step now op b).1
unfolding step
step-active now (child call_id none) b = ground arith
step-active now (child call_id (some (nat c))) b = ground arith
step-active now _ b = ground arith

-- Over any interleaving the active children are those at the start, plus the slots that were
-- acquired, minus the slots that were given back: no slot is lost or counted twice.
pub active_balance :
    (b : Budget) (ops : List (ℕ × Op))
    → (run b ops).0.active_children + freed_total (run b ops).1
      ≡ b.active_children + acquired_total (run b ops).1
unfolding run
active_balance b [] = omega arith
active_balance b ((now, op) ∷ ops) =
    omega (arith, step-active now op b, active_balance (step now op b).0 ops)

abbrev pub held : String → Budget → ℕ
held call_id b = if contains call_id b.child_calls then 1 else 0

step-held :
    (call_id : String) (now : ℕ) (op : Op) (b : Budget)
    → held call_id b + child_of call_id (step now op b).1 ≡ held call_id (step now op b).0
unfolding step
step-held call_id now (child c none) b = ground (arith, string_eq.same_iff c call_id)
step-held call_id now (child c (some (nat n))) b = ground (arith, string_eq.same_iff c call_id)
step-held call_id now (child c _) b = ground arith
step-held call_id now _ b = ground arith

run-held :
    (call_id : String) (b : Budget) (ops : List (ℕ × Op))
    → held call_id b + child_total call_id (run b ops).1 ≡ held call_id (run b ops).0
unfolding run
run-held call_id b [] = omega arith
run-held call_id b ((now, op) ∷ ops) =
    omega (arith, step-held call_id now op b, run-held call_id (step now op b).0 ops)

-- Whatever the interleaving, the ceilings and the times, one call id is reserved at most once, and
-- not at all if it was reserved before.
pub child_reserved_once :
    (call_id : String) (b : Budget) (ops : List (ℕ × Op))
    → held call_id b + child_total call_id (run b ops).1 ≤ 1
child_reserved_once call_id b ops = let h = run-held call_id b ops in ground (arith, h)

-- A reply that gives out work, or a slot for it.
abbrev pub gives : Reply → Bool
gives (iteration_given given) = given
gives (slots_given n) = ltb 0 n
gives (child_given c given) = given
gives slot_given = true
gives _ = false

-- From the deadline on no call gives anything out: neither an iteration, nor tool slots, nor a
-- child, nor a child's slot.
pub nothing_after_deadline :
    (now : ℕ) (op : Op) (b : Budget) → b.deadline ≤ now → gives (step now op b).1 ≡ false
unfolding step
nothing_after_deadline now (child call_id none) b h = ground arith
nothing_after_deadline now (child call_id (some (nat c))) b h = ground arith
nothing_after_deadline now _ b h = ground arith

-- One pass of the loop takes a slot of budget `b` at time `now`, which makes it `c`.
abbrev pub Takes : ℕ → ℕ → Budget → Budget → Type 0
Takes effective now b c =
    (now < b.deadline)
    × (b.active_children < effective)
    × (c ≡ record b { active_children = b.active_children + 1 })

-- Some pass of the loop takes a slot: the first, or one after a notification.
abbrev pub TakesInTime : ℕ → ℕ → Budget → List Wake → Budget → Type 0
TakesInTime effective now b [] c = Takes effective now b c
TakesInTime effective now b (timed_out ∷ wakes) c = Takes effective now b c
TakesInTime effective now b (notified later b' ∷ wakes) c =
    Takes effective now b c ⊎ TakesInTime effective later b' wakes c

pub wait_loop-TakesInTime :
    (effective now : ℕ) (b : Budget) (wakes : List Wake) (c : Budget)
    → wait_loop effective now b wakes ≡ acquired c
    → TakesInTime effective now b wakes c
unfolding wait_loop
wait_loop-TakesInTime effective now b [] c h = ground arith
wait_loop-TakesInTime effective now b (timed_out ∷ wakes) c h = ground arith
wait_loop-TakesInTime effective now b (notified later b' ∷ wakes) c h =
    ground (arith, wait_loop-TakesInTime effective later b' wakes c)

-- A call that gets a slot got it in a pass of its loop before the deadline, while fewer children
-- were active than the call's ceiling and `max_children`, and added one to the count as it stood
-- in that pass.
pub slot_taken_in_time :
    (now ceiling : ℕ) (b : Budget) (wakes : List Wake) (c : Budget)
    → take_child_slot now (nat ceiling) b wakes ≡ ok (acquired c)
    → TakesInTime (min ceiling b.max_children) now b wakes c
unfolding take_child_slot
slot_taken_in_time now ceiling b wakes c h =
    wait_loop-TakesInTime (min ceiling b.max_children) now b wakes c (ground arith)
