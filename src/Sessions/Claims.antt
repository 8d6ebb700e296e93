-- ===== src/Sessions/Claims.antt =====
-- src/suiteharness/sessions/memory.py: sessions, run claims and stop requests. Leases are in the
-- ticks of the clock.
pub mod Lifecycle
pub mod Phases
pub mod Capacity
use suite_harness.Base.{
  ℕ, ◌+◌, ◌*◌, ◌≤◌, String, ◌≡◌, Bool, true, false, ◌&&◌, ◌||◌, not, Option, none, some, List, [],
  ◌∷◌, map, ltb, leb, if◌then◌else◌, ◌==◌, string_eq, pair_eq, length, keep, take, contains,
  is_some, Result, ok, err, ◌>>=◌, ◌>>◌, require, IntArg, nat,
}
use suite_harness.Base.Dict
use suite_harness.Base.KeySet.{add}
use suite_harness.Base.Names.{is_identifier, is_owner_token}
use suite_harness.Sessions.Model.{
  SessionStoreLimits, SessionIdentity, session_eq, SessionError, value_error, capacity,
  SessionStoreLimits, SessionRecord, SessionStatus, SessionRunClaimState, RunStopOutcome,
  ClaimPhase, RunClaim, RunKey, Store,
}

-- `_require`
unfoldable pub require_session : SessionIdentity → Store → Result SessionError SessionRecord
require_session identity s = elim (Dict.get identity s.sessions) [
  | none ↦ err SessionError.not_found
  | some record' ↦ ok record'
]

-- `SessionRecord(identity=identity)`, created at `now`.
abbrev pub new_record : ℕ → SessionIdentity → SessionRecord
new_record now identity = record {
  identity = identity;
  status = SessionStatus.active;
  revision = 0;
  memory_invalidated_revision = 0;
  memory_source_versions = [];
  created_at = now;
  updated_at = now;
}

unfoldable pub create : ℕ → SessionIdentity → Store → Result SessionError (Store × SessionRecord)
create now identity s = elim (Dict.get identity s.sessions) [
  | some found ↦ ok (s, found)
  | none ↦
      if leb s.limits.max_sessions (length s.sessions)
      then err capacity
      else ok (
        record s {
          sessions = Dict.put identity (new_record now identity) s.sessions;
          events = Dict.put identity [] s.events;
          checkpoints = Dict.put identity [] s.checkpoints;
        },
        new_record now identity,
      )
]

unfoldable pub get : SessionIdentity → Store → Option SessionRecord
get identity s = Dict.get identity s.sessions

-- 172 800 seconds, in ticks.
abbrev pub max_lease : SessionStoreLimits → ℕ
max_lease limits = 172800 * limits.ticks_per_second

-- `_validate_run_claim`: a lease is a number of ticks, so that a fraction of a second is one too; a
-- lease that is no finite number is `not_int`.
unfoldable pub validate_run_claim :
    SessionStoreLimits → String → String → IntArg → Result SessionError ℕ
validate_run_claim limits run_id owner_token (nat lease) =
    if is_identifier run_id
      && is_owner_token owner_token
      && ltb 0 lease
      && leb lease (max_lease limits)
    then ok lease
    else err value_error
validate_run_claim limits run_id owner_token _ = err value_error

unfoldable pub validate_run_id : String → Result SessionError (Unit {0})
validate_run_id run_id = require (is_identifier run_id) value_error

-- The claims of one session.
unfoldable pub claims_of : SessionIdentity → Store → ℕ
claims_of identity s = length (keep (λ (e : RunKey × RunClaim). e.0.0 == identity) s.run_claims)

-- The critical section of `claim_run`, by what is stored for the key.
unfoldable pub claim_found :
    ℕ
    → RunKey
    → String
    → ℕ
    → Store
    → Option RunClaim
    → Result SessionError (Store × SessionRunClaimState)
unfolding claims_of
claim_found now key owner_token lease s none =
    if leb s.limits.max_run_claims_per_session (claims_of key.0 s)
    then err capacity
    else if leb s.limits.max_run_claims_total (length s.run_claims)
    then err capacity
    else ok (
      record s {
        run_claims =
            Dict.put key
              (record {
                owner_token = owner_token;
                phase = ClaimPhase.active;
                expires_at = now + lease;
              })
              s.run_claims;
      },
      SessionRunClaimState.acquired,
    )
claim_found now key owner_token lease s (some prior) = elim prior.phase [
  | ClaimPhase.abandoned ↦ ok (s, SessionRunClaimState.stale)
  | _ ↦
      if ltb now prior.expires_at
      then ok (s, SessionRunClaimState.active)
      else ok (
        record s {
          run_claims = Dict.put key (record prior { phase = ClaimPhase.abandoned }) s.run_claims;
        },
        SessionRunClaimState.stale,
      )
]

unfoldable pub claim_run :
    ℕ
    → SessionIdentity
    → String
    → String
    → IntArg
    → Store
    → Result SessionError (Store × SessionRunClaimState)
unfolding claim_found
claim_run now identity run_id owner_token lease s = do
  lease ← validate_run_claim s.limits run_id owner_token lease
  found ← require_session identity s
  claim_found now (identity, run_id) owner_token lease s (Dict.get (identity, run_id) s.run_claims)

unfoldable pub finalize_found : ℕ → RunKey → String → ℕ → Store → Option RunClaim → Store × Bool
finalize_found now key owner_token lease s none = (s, false)
finalize_found now key owner_token lease s (some prior) = elim prior.phase [
  | ClaimPhase.active ↦
      if prior.owner_token == owner_token
      then (
        record s {
          run_claims =
              Dict.put key
                (record {
                  owner_token = owner_token;
                  phase = ClaimPhase.finalizing;
                  expires_at = now + lease;
                })
                s.run_claims;
        },
        true,
      )
      else (s, false)
  | _ ↦ (s, false)
]

unfoldable pub finalize_run :
    ℕ → SessionIdentity → String → String → IntArg → Store → Result SessionError (Store × Bool)
unfolding finalize_found
finalize_run now identity run_id owner_token lease s = do
  lease ← validate_run_claim s.limits run_id owner_token lease
  found ← require_session identity s
  ok (
      finalize_found now (identity, run_id) owner_token lease s
        (Dict.get (identity, run_id) s.run_claims))

-- `claim[1] == "active" and claim[2] > now`
unfoldable pub is_running : ℕ → RunClaim → Bool
is_running now claim = elim claim.phase [ ClaimPhase.active ↦ ltb now claim.expires_at | _ ↦ false ]

unfoldable pub stop_found : ℕ → RunKey → Store → Option RunClaim → Store × RunStopOutcome
unfolding is_running
stop_found now key s none = (s, RunStopOutcome.not_found)
stop_found now key s (some claim) =
    if not (is_running now claim)
    then (s, RunStopOutcome.already_finished)
    else if contains key s.run_stops
    then (s, RunStopOutcome.already_requested)
    else (record s { run_stops = add key s.run_stops }, RunStopOutcome.requested)

unfoldable pub request_stop :
    ℕ → SessionIdentity → String → Store → Result SessionError (Store × RunStopOutcome)
unfolding stop_found validate_run_id
request_stop now identity run_id s = do
  validate_run_id run_id
  ok (stop_found now (identity, run_id) s (Dict.get (identity, run_id) s.run_claims))

unfoldable pub stop_requested : SessionIdentity → String → Store → Result SessionError Bool
unfolding validate_run_id
stop_requested identity run_id s = do
  validate_run_id run_id
  ok (contains (identity, run_id) s.run_stops)

-- `_validate_active_run_limit`
unfoldable pub validate_active_run_limit : IntArg → Result SessionError ℕ
validate_active_run_limit (nat n) = if leb 1 n && leb n 1000 then ok n else err value_error
validate_active_run_limit _ = err value_error

unfoldable pub active_run_ids :
    ℕ → SessionIdentity → IntArg → Store → Result SessionError (List String)
unfolding validate_active_run_limit is_running
active_run_ids now identity limit s = do
  n ← validate_active_run_limit limit
  ok (
      take n (
        map (λ (e : RunKey × RunClaim). e.0.1)
          (keep (λ (e : RunKey × RunClaim). e.0.0 == identity && is_running now e.1) s.run_claims)))
