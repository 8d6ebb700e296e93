-- ===== src/Sessions/Checkpoints.antt =====
-- src/suiteharness/sessions/memory.py: checkpoints, the session's status and its resumption.
pub mod Prune
pub mod Save
pub mod Resume
use suite_harness.Base.{
  ℕ, suc, ◌+◌, String, Bool, true, false, ◌&&◌, ◌||◌, not, Option, none, some, List, [], ◌∷◌, ◌++◌,
  map, ltb, leb, if◌then◌else◌, ◌==◌, string_eq, nat_eq, pair_eq, length, keep, any, sum, Result,
  ok, err, ◌>>=◌, ◌>>◌, require,
}
use suite_harness.Base.Dict
use suite_harness.Base.Json.{Json}
use suite_harness.Base.Names.{is_identifier}
use suite_harness.Sessions.Model.{
  SessionIdentity, session_eq, SessionError, value_error, payload_too_large, idempotency_conflict,
  revision_conflict, SessionStoreLimits, SessionStatus, SessionRecord, SessionCheckpoint,
  SessionSnapshot, TranscriptEvent, RunKey, Store,
}
use suite_harness.Sessions.Claims.{require_session}
use suite_harness.Sessions.Payloads.{is_canonical}
use suite_harness.Sessions.Transcript.{Encoding, events_of, check_revision}

abbrev pub Remembered : Type 0
Remembered = List (RunKey × (String × SessionCheckpoint))

-- `self._checkpoints[identity]`
unfoldable pub checkpoints_of : SessionIdentity → Store → List SessionCheckpoint
checkpoints_of identity s = elim (Dict.get identity s.checkpoints) [ none ↦ [] | some l ↦ l ]

unfoldable pub get_last? {ℓ} : {A : Type ℓ} → List A → Option A
get_last? [] = none
get_last? (x ∷ []) = some x
get_last? (x ∷ y ∷ xs) = get_last? (y ∷ xs)

pub record CheckpointArgs : Type 0 where
  pub checkpoint_id : String
  pub workflow_state : Json
  pub expected_revision : ℕ
  pub idempotency_key : String

-- A pruned checkpoint is forgotten, unless its key stands for another checkpoint by now.
unfoldable pub forget : SessionIdentity → SessionCheckpoint → Remembered → Remembered
forget identity removed d = elim (Dict.get (identity, removed.idempotency_key) d) [
  | none ↦ d
  | some (digest, c) ↦
      if c.checkpoint_id == removed.checkpoint_id
      then Dict.remove (identity, removed.idempotency_key) d
      else d
]

module _ (enc : Encoding) where
  unfoldable pub retained_bytes : List SessionCheckpoint → ℕ
  retained_bytes [] = 0
  retained_bytes (c ∷ cs) = enc.payload_bytes c.workflow_state + retained_bytes cs

  abbrev pub over_limit : SessionStoreLimits → List SessionCheckpoint → Bool
  over_limit l cs =
      ltb l.max_checkpoints_per_session (length cs)
      || ltb l.max_checkpoint_bytes_per_session (retained_bytes cs)

  -- The `while` loop of `_prune_checkpoints`, which pops the oldest checkpoint.
  unfoldable pub prune_loop :
      SessionIdentity
      → SessionStoreLimits
      → List SessionCheckpoint
      → Remembered
      → List SessionCheckpoint × Remembered
  unfolding forget retained_bytes
  prune_loop identity l [] d = ([], d)
  prune_loop identity l (c ∷ cs) d =
      let rest = prune_loop identity l cs (forget identity c d) in
      if over_limit l (c ∷ cs) then rest else (c ∷ cs, d)

  abbrev pub new_checkpoint :
      ℕ → SessionIdentity → CheckpointArgs → SessionRecord → ℕ → SessionCheckpoint
  new_checkpoint now identity args r count = record {
    identity = identity;
    checkpoint_id = args.checkpoint_id;
    revision = r.revision + 1;
    workflow_state = args.workflow_state;
    last_event_sequence = count;
    created_at = now;
    idempotency_key = args.idempotency_key;
  }

  -- The writes of `save_checkpoint`.
  unfoldable pub write_checkpoint :
      ℕ → SessionIdentity → SessionRecord → SessionCheckpoint → Store → Store
  unfolding prune_loop
  write_checkpoint now identity r c s =
      let pruned = prune_loop identity s.limits (checkpoints_of identity s ++ c ∷ []) (
        Dict.put (identity, c.idempotency_key) (enc.state_digest c.workflow_state, c)
          s.checkpoint_idempotency) in
      record s {
        checkpoints = Dict.put identity pruned.0 s.checkpoints;
        checkpoint_idempotency = pruned.1;
        sessions =
            Dict.put identity (record r { revision = c.revision; updated_at = now }) s.sessions;
      }

  unfoldable pub save_new :
      ℕ
      → SessionIdentity
      → CheckpointArgs
      → SessionRecord
      → Store
      → Result SessionError (Store × SessionCheckpoint)
  unfolding check_revision write_checkpoint
  save_new now identity args r s = do
    require
        (not (
          any (λ (c : SessionCheckpoint). c.checkpoint_id == args.checkpoint_id)
            (checkpoints_of identity s)))
        idempotency_conflict
    check_revision r (some args.expected_revision)
    require (is_identifier args.checkpoint_id && is_identifier args.idempotency_key) value_error
    let c = new_checkpoint now identity args r (length (events_of identity s))
    ok (write_checkpoint now identity r c s, c)

  unfoldable pub save_found :
      ℕ
      → SessionIdentity
      → CheckpointArgs
      → SessionRecord
      → Store
      → Option (String × SessionCheckpoint)
      → Result SessionError (Store × SessionCheckpoint)
  save_found now identity args r s none = save_new now identity args r s
  save_found now identity args r s (some (digest, c)) =
      if digest == enc.state_digest args.workflow_state then ok (s, c) else err idempotency_conflict

  unfoldable pub save_checkpoint :
      ℕ → SessionIdentity → CheckpointArgs → Store → Result SessionError (Store × SessionCheckpoint)
  save_checkpoint now identity args s = do
    require (is_canonical args.workflow_state) value_error
    require (leb (enc.payload_bytes args.workflow_state) s.limits.max_checkpoint_state_bytes)
        payload_too_large
    r ← require_session identity s
    save_found now identity args r s
        (Dict.get (identity, args.idempotency_key) s.checkpoint_idempotency)

unfoldable pub set_status :
    ℕ → SessionIdentity → SessionStatus → ℕ → Store → Result SessionError (Store × SessionRecord)
unfolding check_revision
set_status now identity status expected_revision s = do
  r ← require_session identity s
  check_revision r (some expected_revision)
  let updated = record r { status = status; revision = r.revision + 1; updated_at = now }
  ok (record s { sessions = Dict.put identity updated s.sessions }, updated)

-- `after`: the last event that the checkpoint covers.
unfoldable pub covered : Option SessionCheckpoint → ℕ
covered none = 0
covered (some c) = c.last_event_sequence

unfoldable pub resume : SessionIdentity → Store → Option SessionSnapshot
unfolding covered get_last? checkpoints_of
resume identity s = elim (Dict.get identity s.sessions) [
  | none ↦ none
  | some r ↦
      let checkpoint = get_last? (checkpoints_of identity s) in
      some (record {
        session = r;
        checkpoint = checkpoint;
        transcript =
            keep (λ (e : TranscriptEvent). ltb (covered checkpoint) e.sequence)
              (events_of identity s);
      })
]
