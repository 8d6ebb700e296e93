-- ===== src/Effects/Tests.antt =====
-- A scope that is closed while another task calls it.
use suite_harness.Base.{ℕ, String, ◌≡◌, refl, none, some, List, [], ◌∷◌, ok, err}
use suite_harness.Effects.{
  is_open, closed, EffectScope, is_space, lstrip, rstrip, reversed, create, callback, Call,
  register, begin_close, dispose_next, finish_close, close_result, after_register, own_close,
  dispose, finished, step, run, fresh,
}
use suite_harness.Effects.Unwinding.{disposed, owned, result_with, failures_in, closed_unwinds}

abbrev scope : EffectScope ℕ String
scope = record { name = "run"; state = is_open; effects = []; cleanup_error = none }

-- Two effects, one whose disposer fails, and a third that comes too late.
abbrev calls : List (Call ℕ String)
calls =
    register " file " 1
    ∷ register "task" 2
    ∷ begin_close
    ∷ dispose_next (some "boom")
    ∷ register "late" 3
    ∷ begin_close
    ∷ dispose_next none
    ∷ finish_close
    ∷ []

abbrev later : List (Call ℕ String)
later = register "later" 4 ∷ begin_close ∷ dispose_next none ∷ []

created : create {D = ℕ} {E = String} " run " ≡ ok scope
unfolding create lstrip rstrip is_space
created = refl

closes : (run calls (fresh scope)).scope.state ≡ closed
unfolding run step after_register own_close dispose finished callback lstrip rstrip is_space
    reversed
closes = refl

task_goes_first :
    disposed (run calls (fresh scope))
    ≡ record { label = "task"; dispose = 2 } ∷ record { label = "file"; dispose = 1 } ∷ []
unfolding run step after_register own_close dispose finished callback lstrip rstrip is_space
    reversed
task_goes_first = refl

failure_is_kept :
    close_result (run calls (fresh scope)).scope
    ≡ err (record { label = "task"; error = "boom" } ∷ [])
unfolding close_result run step after_register own_close dispose finished callback lstrip rstrip
    is_space reversed
failure_is_kept = refl

closed_unwinds_example :
    (disposed (run calls (fresh scope)) ≡ reversed (owned calls (fresh scope)))
    × (close_result (run calls (fresh scope)).scope
        ≡ result_with (failures_in (run calls (fresh scope)).log))
    × (run later (run calls (fresh scope)) ≡ run calls (fresh scope))
closed_unwinds_example = closed_unwinds " run " scope calls later created closes
