-- ===== src/Sessions/Tests/RunClaims.antt =====
-- Two workers race for one run.
use suite_harness.Base.Names.{is_identifier, is_owner_token}
use suite_harness.Base.{
  String, ◌≡◌, ◌≤◌, ◌↔◌, ◌+◌, refl, true, false, some, List, [], ◌∷◌, arith, nat, string_eq,
  pair_eq,
}
use suite_harness.Base.Dict
use suite_harness.Sessions.Model.{
  session_eq, ClaimPhase, RunClaim, RunKey, Store, SessionRunClaimState, RunStopOutcome,
  SessionError, session_beq,
}
use suite_harness.Sessions.Claims.{
  finalize_found, claim_run, claims_of, request_stop, finalize_run, validate_run_claim,
  require_session,
}
use suite_harness.Sessions.Claims.Lifecycle.{
  Op, claims, finalizes, stops, run, step, claimed, finalized, stopped, raised, acquired_total,
  finalized_total, claim_at, acquired_once, count_some,
}
use suite_harness.Sessions.Claims.Phases.{
  Advances, IsOwnedActive, fence, finalize_iff_owner, run-Advances,
}
use suite_harness.Sessions.Claims.Capacity.{IsWithin, run_claims-IsWithin}
use suite_harness.Sessions.Tests.Data.{alice, opened, limits}

abbrev first_worker : String
first_worker = "worker-1-aaaaaaaaaaaaaaaaaaaaaaaaaaaaaaaa"

abbrev other_worker : String
other_worker = "worker-2-bbbbbbbbbbbbbbbbbbbbbbbbbbbbbbbb"

abbrev key : RunKey
key = (alice, "run-1")

abbrev race : List Op
race =
    claims 10 alice "run-1" first_worker (nat 60)
    ∷ claims 11 alice "run-1" other_worker (nat 60)
    ∷ claims 12 alice "run-2" other_worker (nat 60)
    ∷ stops 13 alice "run-1"
    ∷ finalizes 14 alice "run-1" other_worker (nat 60)
    ∷ finalizes 15 alice "run-1" first_worker (nat 60)
    ∷ finalizes 16 alice "run-1" first_worker (nat 60)
    ∷ claims 99 alice "run-1" other_worker (nat 60)
    ∷ []

race_replies :
    (run opened race).1
    ≡ claimed key SessionRunClaimState.acquired
      ∷ claimed key SessionRunClaimState.active
      ∷ raised SessionError.capacity
      ∷ stopped key RunStopOutcome.requested
      ∷ finalized key false
      ∷ finalized key true
      ∷ finalized key false
      ∷ claimed key SessionRunClaimState.stale
      ∷ []
unfolding run step claim_run request_stop finalize_run validate_run_claim is_identifier
    is_owner_token require_session Dict.get session_beq Dict.put
race_replies = refl

acquired_once_example :
    (count_some (claim_at key opened) + acquired_total key (run opened race).1 ≤ 1)
    × (finalized_total key (run opened race).1 ≤ 1)
acquired_once_example = acquired_once key race opened

abbrev claim : RunClaim
claim = record { owner_token = first_worker; phase = ClaimPhase.active; expires_at = 70 }

abbrev held : Store
held = record opened { run_claims = (key, claim) ∷ [] }

run-Advances_example : Advances (claim_at key held) (claim_at key (run held race).0)
run-Advances_example = run-Advances key race held

finalize_iff_owner_example :
    let r = finalize_found 14 key first_worker 60 held (claim_at key held) in
    (r.1 ≡ true) ↔ (
      (c : RunClaim) × (IsOwnedActive key first_worker held c
        × (claim_at key r.0 ≡ some (fence 14 first_worker 60))))
finalize_iff_owner_example = finalize_iff_owner 14 key first_worker 60 held

run_claims-IsWithin_example : IsWithin limits alice (run opened race).0
unfolding claims_of
run_claims-IsWithin_example =
    run_claims-IsWithin limits alice race opened
      (record { limits = refl; session = omega arith; total = omega arith })
