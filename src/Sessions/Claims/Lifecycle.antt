-- ===== src/Sessions/Claims/Lifecycle.antt =====
-- Histories of run claims: calls of `claim_run`, `finalize_run` and `request_stop` in any order.
use suite_harness.Base.{
  ℕ, ◌+◌, ◌≤◌, String, ◌≡◌, refl, inl, inr, Bool, true, Option, none, some, List, [], ◌∷◌, arith,
  if◌then◌else◌, ◌==◌, string_eq, pair_eq, Result, Result-cases, ok, err, IntArg,
}
use suite_harness.Base.Dict
use suite_harness.Base.Dict.{get-put}
use suite_harness.Sessions.Model.{
  SessionIdentity, session_eq, SessionError, SessionRunClaimState, RunStopOutcome, ClaimPhase,
  RunClaim, RunKey, Store, key_iff,
}
use suite_harness.Sessions.Claims.{
  claim_found, claim_run, finalize_found, finalize_run, stop_found, request_stop, require_session,
  validate_run_claim,
}

pub data Op : Type 0 where
  claims : ℕ → SessionIdentity → String → String → IntArg → Op
  finalizes : ℕ → SessionIdentity → String → String → IntArg → Op
  stops : ℕ → SessionIdentity → String → Op

pub data Reply : Type 0 where
  claimed : RunKey → SessionRunClaimState → Reply
  finalized : RunKey → Bool → Reply
  stopped : RunKey → RunStopOutcome → Reply
  raised : SessionError → Reply

abbrev pub claim_reply :
    Store → RunKey → Result SessionError (Store × SessionRunClaimState) → Store × Reply
claim_reply s key (ok (s', state)) = (s', claimed key state)
claim_reply s key (err e) = (s, raised e)

abbrev pub finalize_reply : Store → RunKey → Result SessionError (Store × Bool) → Store × Reply
finalize_reply s key (ok (s', done)) = (s', finalized key done)
finalize_reply s key (err e) = (s, raised e)

abbrev pub stop_reply :
    Store → RunKey → Result SessionError (Store × RunStopOutcome) → Store × Reply
stop_reply s key (ok (s', outcome)) = (s', stopped key outcome)
stop_reply s key (err e) = (s, raised e)

unfoldable pub step : Op → Store → Store × Reply
step (claims now identity run_id owner lease) s =
    claim_reply s (identity, run_id) (claim_run now identity run_id owner lease s)
step (finalizes now identity run_id owner lease) s =
    finalize_reply s (identity, run_id) (finalize_run now identity run_id owner lease s)
step (stops now identity run_id) s =
    stop_reply s (identity, run_id) (request_stop now identity run_id s)

unfoldable pub run : Store → List Op → Store × List Reply
run s [] = (s, [])
run s (op ∷ ops) =
    let (s', reply) = step op s in let (s'', replies) = run s' ops in (s'', reply ∷ replies)

abbrev pub claim_at : RunKey → Store → Option RunClaim
claim_at key s = Dict.get key s.run_claims

-- How often the replies acquired, or finalized, the run of `key`.
abbrev pub acquired_of : RunKey → Reply → ℕ
acquired_of key (claimed k SessionRunClaimState.acquired) = if k == key then 1 else 0
acquired_of key _ = 0

abbrev pub acquired_total : RunKey → List Reply → ℕ
acquired_total key [] = 0
acquired_total key (r ∷ rs) = acquired_of key r + acquired_total key rs

abbrev pub finalized_of : RunKey → Reply → ℕ
finalized_of key (finalized k true) = if k == key then 1 else 0
finalized_of key _ = 0

abbrev pub finalized_total : RunKey → List Reply → ℕ
finalized_total key [] = 0
finalized_total key (r ∷ rs) = finalized_of key r + finalized_total key rs

abbrev pub count_some : Option RunClaim → ℕ
count_some none = 0
count_some (some c) = 1

abbrev count_active : Option RunClaim → ℕ
count_active none = 0
count_active (some c) = elim c.phase [ ClaimPhase.active ↦ 1 | _ ↦ 0 ]

-- What a step adds to the counts of one key.
record Counts (key : RunKey) (s s' : Store) (reply : Reply) : Type 0 where
  held : count_some (claim_at key s) + acquired_of key reply ≡ count_some (claim_at key s')
  open_ :
      finalized_of key reply + count_active (claim_at key s')
      ≤ count_active (claim_at key s) + acquired_of key reply

claim_found-Counts :
    (key : RunKey) (now : ℕ) (k : RunKey) (owner : String) (lease : ℕ) (s : Store)
    (o : Option RunClaim)
    → claim_at k s ≡ o
    → Counts key s
        (claim_reply s k (claim_found now k owner lease s o)).0
        (claim_reply s k (claim_found now k owner lease s o)).1
unfolding claim_found
claim_found-Counts key now k owner lease s none e = ground (
  arith,
  e,
  key_iff k key,
  get-put k key
      (record { owner_token = owner; phase = ClaimPhase.active; expires_at = now + lease })
      s.run_claims,
)
claim_found-Counts key now k owner lease s (some c) e = ground (
  arith,
  e,
  key_iff k key,
  get-put k key (record c { phase = ClaimPhase.abandoned }) s.run_claims,
)

finalize_found-Counts :
    (key : RunKey) (now : ℕ) (k : RunKey) (owner : String) (lease : ℕ) (s : Store)
    (o : Option RunClaim)
    → claim_at k s ≡ o
    → Counts key s
        (finalize_found now k owner lease s o).0
        (finalized k (finalize_found now k owner lease s o).1)
unfolding finalize_found
finalize_found-Counts key now k owner lease s none e = ground arith
finalize_found-Counts key now k owner lease s (some c) e = ground (
  arith,
  e,
  key_iff k key,
  get-put k key
      (record { owner_token = owner; phase = ClaimPhase.finalizing; expires_at = now + lease })
      s.run_claims,
)

pub claims_kept :
    (now : ℕ) (k : RunKey) (s : Store) (o : Option RunClaim)
    → (stop_found now k s o).0.run_claims ≡ s.run_claims
unfolding stop_found
claims_kept now k s none = refl
claims_kept now k s (some c) = ground arith

-- The two calls that check their arguments and the session first: they raise and change nothing,
-- or they go on to what is stored.
module _ (P : Store × Reply → Type 0) (s : Store) (failed : (e : SessionError) → P (s, raised e))
    (now : ℕ) (i : SessionIdentity) (r owner : String) (lease : IntArg) where
  pub claims_cases :
      ((n : ℕ) → P (claim_reply s (i, r) (claim_found now (i, r) owner n s (claim_at (i, r) s))))
      → P (step (claims now i r owner lease) s)
  unfolding step claim_run
  claims_cases found = elim (Result-cases (validate_run_claim s.limits r owner lease)) [
    | inr (e, bad) ↦ rw (bad, claim_run) (failed e)
    | inl (n, good) ↦ elim (Result-cases (require_session i s)) [
      | inr (e, bad) ↦ rw (good, bad, claim_run) (failed e)
      | inl (x, ok_) ↦ rw (good, ok_, claim_run) (found n)
    ]
  ]

  pub finalizes_cases :
      ((n : ℕ)
        → let f = finalize_found now (i, r) owner n s (claim_at (i, r) s) in
          P (f.0, finalized (i, r) f.1))
      → P (step (finalizes now i r owner lease) s)
  unfolding step finalize_run
  finalizes_cases found = elim (Result-cases (validate_run_claim s.limits r owner lease)) [
    | inr (e, bad) ↦ rw (bad, finalize_run) (failed e)
    | inl (n, good) ↦ elim (Result-cases (require_session i s)) [
      | inr (e, bad) ↦ rw (good, bad, finalize_run) (failed e)
      | inl (x, ok_) ↦ rw (good, ok_, finalize_run) (found n)
    ]
  ]

step-Counts : (key : RunKey) (op : Op) (s : Store) → Counts key s (step op s).0 (step op s).1
step-Counts key (claims now i r owner lease) s =
    claims_cases (λ x. Counts key s x.0 x.1) s (λ e. omega arith) now i r owner lease
      λ n. claim_found-Counts key now (i, r) owner n s (claim_at (i, r) s) refl
step-Counts key (finalizes now i r owner lease) s =
    finalizes_cases (λ x. Counts key s x.0 x.1) s (λ e. omega arith) now i r owner lease
      λ n. finalize_found-Counts key now (i, r) owner n s (claim_at (i, r) s) refl
step-Counts key (stops now i r) s =
    unfold step request_stop in ground (arith, claims_kept now (i, r) s (claim_at (i, r) s))

run-Counts :
    (key : RunKey) (ops : List Op) (s : Store)
    → (count_some (claim_at key s) + acquired_total key (run s ops).1
        ≡ count_some (claim_at key (run s ops).0))
      × (finalized_total key (run s ops).1 + count_active (claim_at key (run s ops).0)
          ≤ count_active (claim_at key s) + acquired_total key (run s ops).1)
unfolding run
run-Counts key [] s = omega arith
run-Counts key (op ∷ ops) s =
    let c = step-Counts key op s in
    let r = run-Counts key ops (step op s).0 in omega (arith, c.held, c.open_, r.0, r.1)

count_active-le : (o : Option RunClaim) → count_active o ≤ count_some o
count_active-le none = omega arith
count_active-le (some c) = ground arith

count_some-le : (o : Option RunClaim) → count_some o ≤ 1
count_some-le none = omega arith
count_some-le (some c) = omega arith

-- Whatever calls are made, in any order, by any owners and at any times, one run of one session is
-- acquired at most once, and not at all if it was claimed before, and it is finalized at most once.
pub acquired_once :
    (key : RunKey) (ops : List Op) (s : Store)
    → (count_some (claim_at key s) + acquired_total key (run s ops).1 ≤ 1)
      × (finalized_total key (run s ops).1 ≤ 1)
acquired_once key ops s =
    let r = run-Counts key ops s in
    let a = count_active-le (claim_at key s) in
    let b = count_some-le (claim_at key (run s ops).0) in
    (omega (arith, r.0, b), omega (arith, r.0, r.1, a, b))
