-- ===== src/Runner/Ceilings.antt =====
-- What an execution policy that was accepted guarantees.
use suite_harness.Base.{
  ℕ, ◌≤◌, ◌≡◌, inl, inr, true, arith, Result, Ends, Ends-bind, ok, Bool-cases, ltb, ◌||◌, ◌>>=◌,
  refl, IntArg, nat, negative, not_int,
}
use suite_harness.Tools.{destructive, has_effect}
use suite_harness.Runner.Policy.{
  ExecutionPolicy, PolicyArgs, mebibytes, PolicyError, within, execution_policy,
}

-- The limits of a policy are positive and below the absolute ones, and it asks an approval for
-- destructive tools, whatever the deployment chose.
pub record IsBounded (day : ℕ) (p : ExecutionPolicy) : Type 0 where
  pub input : (1 ≤ p.max_run_input_bytes) × (p.max_run_input_bytes ≤ mebibytes 8)
  pub argument : (1 ≤ p.max_tool_argument_bytes) × (p.max_tool_argument_bytes ≤ mebibytes 8)
  pub result : (1 ≤ p.max_tool_result_bytes) × (p.max_tool_result_bytes ≤ mebibytes 32)
  pub output : (1 ≤ p.max_final_output_bytes) × (p.max_final_output_bytes ≤ mebibytes 32)
  pub state : (1 ≤ p.max_workflow_state_bytes) × (p.max_workflow_state_bytes ≤ mebibytes 8)
  pub iterations : (1 ≤ p.max_iterations) × (p.max_iterations ≤ 10000)
  pub calls : (1 ≤ p.max_tool_calls) × (p.max_tool_calls ≤ 100000)
  pub parallel : (1 ≤ p.max_parallel_calls) × (p.max_parallel_calls ≤ 1024)
  pub timeout : (1 ≤ p.max_timeout_seconds) × (p.max_timeout_seconds ≤ day)
  pub destructive_asks : has_effect destructive p.approval_effects ≡ true

abbrev Between : ℕ → ℕ → Type 0
Between maximum n = (1 ≤ n) × (n ≤ maximum)

within_bounds :
    (maximum : ℕ) (a : IntArg)
    → Ends (λ (e : PolicyError). Unit {0}) (Between maximum) (within maximum a)
unfolding within
within_bounds maximum (nat k) = elim (Bool-cases (ltb k 1 || ltb maximum k)) [
  | inl e ↦ rw (e, Ends) tt
  | inr e ↦ rw (e, Ends) (ground (arith, e), ground (arith, e))
]
within_bounds maximum (negative k) = tt
within_bounds maximum not_int = tt

-- One more limit of the chain.
also :
    {B : Type 0} (R : B → Type 0) (maximum : ℕ) (a : IntArg) (f : ℕ → Result PolicyError B)
    → ((n : ℕ) → Between maximum n → Ends (λ (e : PolicyError). Unit {0}) R (f n))
    → Ends (λ (e : PolicyError). Unit {0}) R (within maximum a >>= f)
also R maximum a f k =
    Ends-bind (λ (e : PolicyError). Unit {0}) (Between maximum) R _ _ (within_bounds maximum a) k

execution_policy_bounds :
    (day : ℕ) (args : PolicyArgs)
    → Ends (λ (e : PolicyError). Unit {0}) (IsBounded day) (execution_policy day args)
unfolding execution_policy
execution_policy_bounds day args =
    also (IsBounded day) (mebibytes 8) args.max_run_input_bytes _ (λ n0 h0.
      also (IsBounded day) (mebibytes 8) args.max_tool_argument_bytes _ (λ n1 h1.
        also (IsBounded day) (mebibytes 32) args.max_tool_result_bytes _ (λ n2 h2.
          also (IsBounded day) (mebibytes 32) args.max_final_output_bytes _ (λ n3 h3.
            also (IsBounded day) (mebibytes 8) args.max_workflow_state_bytes _ (λ n4 h4.
              also (IsBounded day) 10000 args.max_iterations _ (λ n5 h5.
                also (IsBounded day) 100000 args.max_tool_calls _ (λ n6 h6.
                  also (IsBounded day) 1024 args.max_parallel_calls _ (λ n7 h7.
                    also (IsBounded day) day args.max_timeout_seconds _ (λ n8 h8. record {
                      input = h0;
                      argument = h1;
                      result = h2;
                      output = h3;
                      state = h4;
                      iterations = h5;
                      calls = h6;
                      parallel = h7;
                      timeout = h8;
                      destructive_asks = refl;
                    })))))))))

-- A policy that the constructor accepts has limits that are positive and below the absolute ones,
-- and its effects that need an approval contain the destructive one.
pub execution_policy-IsBounded :
    (day : ℕ) (args : PolicyArgs) (p : ExecutionPolicy)
    → execution_policy day args ≡ ok p
    → IsBounded day p
execution_policy-IsBounded day args p h = rw (h, Ends) at (execution_policy_bounds day args)
