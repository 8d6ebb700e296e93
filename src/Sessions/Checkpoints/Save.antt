-- ===== src/Sessions/Checkpoints/Save.antt =====
-- What `save_checkpoint` writes and keeps.
use suite_harness.Base.{
  ℕ, ◌+◌, ◌≤◌, String, ◌≡◌, refl, sym, ap, ◌∙◌, inl, inr, Option, none, some, List, [], ◌∷◌, ◌++◌,
  arith, string_eq, nat_eq, pair_eq, length, Result-cases, ok,
}
use suite_harness.Base.Dict
use suite_harness.Base.Dict.{get-put_self, get-put}
use suite_harness.Sessions.Model.{
  SessionIdentity, session_eq, SessionStoreLimits, internally_consistent, SessionRecord,
  SessionCheckpoint, Store,
}
use suite_harness.Sessions.Claims.{require_session}
use suite_harness.Sessions.Transcript.{Encoding, events_of}
use suite_harness.Sessions.Transcript.Append.{require_session-found}
use suite_harness.Sessions.Checkpoints.{
  Remembered, CheckpointArgs, checkpoints_of, get_last?, retained_bytes, prune_loop, new_checkpoint,
  write_checkpoint, save_new, save_found, save_checkpoint,
}
use suite_harness.Sessions.Checkpoints.Prune.{dropped, prune_longest}

get_last?-append :
    (xs ys : List SessionCheckpoint) → 1 ≤ length ys → get_last? (xs ++ ys) ≡ get_last? ys
unfolding get_last?
get_last?-append [] ys h = refl
get_last?-append (x ∷ []) [] h = absurd (omega arith)
get_last?-append (x ∷ []) (y ∷ ys) h = refl
get_last?-append (x ∷ x' ∷ xs) ys h = get_last?-append (x' ∷ xs) ys h

checkpoints_of-put :
    (i : SessionIdentity) (cs : List SessionCheckpoint) (s s' : Store)
    → s'.checkpoints ≡ Dict.put i cs s.checkpoints
    → checkpoints_of i s' ≡ cs
unfolding checkpoints_of
checkpoints_of-put i cs s s' h = ground (arith, h, get-put_self i cs s.checkpoints)

-- What the checked limits leave room for.
checkpoint_room :
    (l : SessionStoreLimits)
    → internally_consistent l ≡ ok tt
    → (1 ≤ l.max_checkpoints_per_session)
      × (l.max_checkpoint_state_bytes ≤ l.max_checkpoint_bytes_per_session)
unfolding internally_consistent
checkpoint_room l h = ground arith

module _ (enc : Encoding) where
  prune_keeps_newest :
      (i : SessionIdentity) (l : SessionStoreLimits) (cs : List SessionCheckpoint)
      (c : SessionCheckpoint) (d : Remembered)
      → 1 ≤ l.max_checkpoints_per_session
      → enc.payload_bytes c.workflow_state ≤ l.max_checkpoint_bytes_per_session
      → get_last? (prune_loop enc i l (cs ++ c ∷ []) d).0 ≡ some c
  unfolding retained_bytes
  prune_keeps_newest i l cs c d one small =
      let p = prune_longest enc i l cs (c ∷ []) d (record { count = one; bytes = omega arith }) in
      let kept = (prune_loop enc i l (cs ++ c ∷ []) d).0 in
      sym (get_last?-append (dropped enc i l (cs ++ c ∷ [])) kept p.2)
      ∙ ap get_last? p.0
      ∙ (unfold get_last? in get_last?-append cs (c ∷ []) (omega arith))

  -- What a call that saved a new checkpoint checked, and the store and the checkpoint it returned.
  pub record Saved (now : ℕ) (i : SessionIdentity) (args : CheckpointArgs) (s s' : Store)
      (c : SessionCheckpoint) : Type 0 where
    pub old : SessionRecord
    pub found : Dict.get i s.sessions ≡ some old
    pub small : enc.payload_bytes args.workflow_state ≤ s.limits.max_checkpoint_state_bytes
    pub current : args.expected_revision ≡ old.revision
    pub checkpoint : c ≡ new_checkpoint enc now i args old (length (events_of i s))
    pub store : s' ≡ write_checkpoint enc now i old c s

  pub save_cases :
      (now : ℕ) (i : SessionIdentity) (args : CheckpointArgs) (s s' : Store) (c : SessionCheckpoint)
      (o : Option (String × SessionCheckpoint))
      → Dict.get (i, args.idempotency_key) s.checkpoint_idempotency ≡ o
      → save_checkpoint enc now i args s ≡ ok (s', c)
      → o ≡ none
      → Saved now i args s s' c
  save_cases now i args s s' c o p h n = elim (Result-cases (require_session i s)) [
    | inr (x, bad) ↦ absurd (unfold save_checkpoint in ground (arith, bad))
    | inl (r, found) ↦
        let new : save_new enc now i args r s ≡ ok (s', c) =
          unfold save_checkpoint save_found in ground (arith, found, p, n) in
        record {
          old = r;
          found = require_session-found i s r found;
          small = unfold save_checkpoint in ground (arith, found);
          current =
              unfold save_new in
              ground (arith, new, nat_eq.same_iff args.expected_revision r.revision);
          checkpoint = unfold save_new in ground (arith, new);
          store = unfold save_new in ground (arith, new);
        }
  ]

  pub save_repeats :
      (now : ℕ) (i : SessionIdentity) (args : CheckpointArgs) (s s' : Store) (c : SessionCheckpoint)
      (x : String × SessionCheckpoint)
      → Dict.get (i, args.idempotency_key) s.checkpoint_idempotency ≡ some x
      → save_checkpoint enc now i args s ≡ ok (s', c)
      → s' ≡ s
  save_repeats now i args s s' c x p h = elim (Result-cases (require_session i s)) [
    | inr (e, bad) ↦ absurd (unfold save_checkpoint in ground (arith, bad))
    | inl (r, found) ↦ unfold save_checkpoint save_found in ground (arith, found, p)
  ]

  -- What a new checkpoint changes of the session.
  pub record Checkpointed (now : ℕ) (i : SessionIdentity) (args : CheckpointArgs) (s s' : Store)
      (c : SessionCheckpoint) : Type 0 where
    pub old : SessionRecord
    pub had : Dict.get i s.sessions ≡ some old
    pub has :
        Dict.get i s'.sessions ≡ some (record old { revision = old.revision + 1; updated_at = now })
    pub current : args.expected_revision ≡ old.revision
    pub newest : get_last? (checkpoints_of i s') ≡ some c
    pub covers : c.last_event_sequence ≡ length (events_of i s)
    pub state : c.workflow_state ≡ args.workflow_state
    pub events : s'.events ≡ s.events
    pub run_claims : s'.run_claims ≡ s.run_claims

  Saved-Checkpointed :
      (now : ℕ) (i : SessionIdentity) (args : CheckpointArgs) (s s' : Store) (c : SessionCheckpoint)
      → internally_consistent s.limits ≡ ok tt
      → Saved now i args s s' c
      → Checkpointed now i args s s' c
  unfolding write_checkpoint
  Saved-Checkpointed now i args s s' c l w =
      let room = checkpoint_room s.limits l in
      let small : enc.payload_bytes c.workflow_state ≤ s.limits.max_checkpoint_bytes_per_session =
        ground (arith, w.checkpoint, w.small, room.1) in
      let d : Remembered =
        Dict.put (i, c.idempotency_key) (enc.state_digest c.workflow_state, c)
          s.checkpoint_idempotency in
      let kept = (prune_loop enc i s.limits (checkpoints_of i s ++ c ∷ []) d).0 in
      let updated : SessionRecord = record w.old { revision = c.revision; updated_at = now } in
      record {
        old = w.old;
        had = w.found;
        has = ground (arith, w.store, w.checkpoint, get-put_self i updated s.sessions);
        current = w.current;
        newest =
            rw (checkpoints_of-put i kept s s' (rw w.store))
              (prune_keeps_newest i s.limits (checkpoints_of i s) c d room.0 small);
        covers = ground (arith, w.checkpoint);
        state = ground (arith, w.checkpoint);
        events = rw w.store;
        run_claims = rw w.store;
      }

  -- With consistent limits, a call that saves a checkpoint under a new idempotency key does so only
  -- at the expected revision, raises the revision by one, leaves the transcripts and the claims as
  -- they were, and makes the session's newest checkpoint the one that it returns: it holds the
  -- given state, covers all events so far, and is not pruned by its own call.
  pub save_checkpoint_effect :
      (now : ℕ) (i : SessionIdentity) (args : CheckpointArgs) (s s' : Store) (c : SessionCheckpoint)
      → internally_consistent s.limits ≡ ok tt
      → Dict.get (i, args.idempotency_key) s.checkpoint_idempotency ≡ none
      → save_checkpoint enc now i args s ≡ ok (s', c)
      → Checkpointed now i args s s' c
  save_checkpoint_effect now i args s s' c l n h =
      Saved-Checkpointed now i args s s' c l (save_cases now i args s s' c none n h refl)
