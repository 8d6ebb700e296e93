-- ===== src/Sessions/Claims/Capacity.antt =====
-- Run claims and the configured limits on their number.
use suite_harness.Base.{
  ℕ, ◌+◌, ◌≤◌, String, ◌≡◌, refl, Option, none, some, List, [], ◌∷◌, arith, ◌==◌, string_eq,
  pair_eq, length,
}
use suite_harness.Base.Dict.{length-put, count_keys-put}
use suite_harness.Sessions.Model.{
  SessionIdentity, session_eq, ClaimPhase, RunClaim, RunKey, Store, SessionStoreLimits,
  session_beq_iff,
}
use suite_harness.Sessions.Claims.{claims_of, claim_found, finalize_found, stop_found, request_stop}
use suite_harness.Sessions.Claims.Lifecycle.{
  Op, claims, finalizes, stops, claim_reply, step, run, claim_at, claims_cases, finalizes_cases,
}

pub record IsWithin (l : SessionStoreLimits) (identity : SessionIdentity) (s : Store) : Type 0 where
  pub limits : s.limits ≡ l
  pub session : claims_of identity s ≤ l.max_run_claims_per_session
  pub total : length s.run_claims ≤ l.max_run_claims_total

claim_found-IsWithin :
    (l : SessionStoreLimits) (i : SessionIdentity) (now : ℕ) (k : RunKey) (owner : String)
    (lease : ℕ) (s : Store) (o : Option RunClaim)
    → claim_at k s ≡ o
    → IsWithin l i s
    → IsWithin l i (claim_reply s k (claim_found now k owner lease s o)).0
unfolding claim_found
claim_found-IsWithin l i now k owner lease s none e h =
    let d : RunClaim = record {
      owner_token = owner;
      phase = ClaimPhase.active;
      expires_at = now + lease;
    } in
    ground (
      arith,
      e,
      h.limits,
      h.session,
      h.total,
      session_beq_iff k.0 i,
      length-put k d s.run_claims,
      count_keys-put (λ (j : RunKey). j.0 == i) k d s.run_claims,
    )
claim_found-IsWithin l i now k owner lease s (some c) e h =
    let d : RunClaim = record c { phase = ClaimPhase.abandoned } in
    ground (
      arith,
      e,
      h.limits,
      h.session,
      h.total,
      length-put k d s.run_claims,
      count_keys-put (λ (j : RunKey). j.0 == i) k d s.run_claims,
    )

finalize_found-IsWithin :
    (l : SessionStoreLimits) (i : SessionIdentity) (now : ℕ) (k : RunKey) (owner : String)
    (lease : ℕ) (s : Store) (o : Option RunClaim)
    → claim_at k s ≡ o
    → IsWithin l i s
    → IsWithin l i (finalize_found now k owner lease s o).0
unfolding finalize_found claims_of
finalize_found-IsWithin l i now k owner lease s none e h = h
finalize_found-IsWithin l i now k owner lease s (some c) e h =
    let d : RunClaim = record {
      owner_token = owner;
      phase = ClaimPhase.finalizing;
      expires_at = now + lease;
    } in
    ground (
      arith,
      e,
      h.limits,
      h.session,
      h.total,
      length-put k d s.run_claims,
      count_keys-put (λ (j : RunKey). j.0 == i) k d s.run_claims,
    )

stop_found-IsWithin :
    (l : SessionStoreLimits) (i : SessionIdentity) (now : ℕ) (k : RunKey) (s : Store)
    (o : Option RunClaim)
    → IsWithin l i s
    → IsWithin l i (stop_found now k s o).0
unfolding stop_found claims_of
stop_found-IsWithin l i now k s none h = h
stop_found-IsWithin l i now k s (some c) h = ground (arith, h.limits, h.session, h.total)

step-IsWithin :
    (l : SessionStoreLimits) (i : SessionIdentity) (op : Op) (s : Store)
    → IsWithin l i s
    → IsWithin l i (step op s).0
unfolding step request_stop
step-IsWithin l i (claims now j r owner lease) s h =
    claims_cases (λ x. IsWithin l i x.0) s (λ e. h) now j r owner lease
      λ n. claim_found-IsWithin l i now (j, r) owner n s (claim_at (j, r) s) refl h
step-IsWithin l i (finalizes now j r owner lease) s h =
    finalizes_cases (λ x. IsWithin l i x.0) s (λ e. h) now j r owner lease
      λ n. finalize_found-IsWithin l i now (j, r) owner n s (claim_at (j, r) s) refl h
step-IsWithin l i (stops now j r) s h =
    let k = stop_found-IsWithin l i now (j, r) s (claim_at (j, r) s) h in ground (arith, k, h)

-- From a store within its limits no sequence of calls brings the claims of a session past
-- `max_run_claims_per_session`, nor all claims past `max_run_claims_total`, and the limits stay.
pub run_claims-IsWithin :
    (l : SessionStoreLimits) (i : SessionIdentity) (ops : List Op) (s : Store)
    → IsWithin l i s
    → IsWithin l i (run s ops).0
unfolding run
run_claims-IsWithin l i [] s h = h
run_claims-IsWithin l i (op ∷ ops) s h =
    run_claims-IsWithin l i ops (step op s).0 (step-IsWithin l i op s h)
