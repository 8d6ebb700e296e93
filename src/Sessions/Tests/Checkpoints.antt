-- ===== src/Sessions/Tests/Checkpoints.antt =====
-- Checkpoints under a limit of one per session.
use suite_harness.Sessions.Payloads.{is_canonical}
use suite_harness.Base.Names.{is_identifier}
use suite_harness.Base.{
  ◌≡◌, ◌≤◌, refl, some, [], ◌∷◌, ◌++◌, arith, ok, length, take, string_eq, inl, pair_eq,
}
use suite_harness.Base.Dict
use suite_harness.Base.Json.{text}
use suite_harness.Sessions.Model.{
  session_eq, SessionCheckpoint, SessionSnapshot, Store, internally_consistent, session_beq,
}
use suite_harness.Sessions.Claims.{new_record, require_session}
use suite_harness.Sessions.Transcript.{events_of}
use suite_harness.Sessions.Transcript.Invariant.{IsConsistent}
use suite_harness.Sessions.Checkpoints.{
  CheckpointArgs, checkpoints_of, covered, get_last?, prune_loop, resume, save_checkpoint,
  retained_bytes, save_found, save_new,
}
use suite_harness.Sessions.Checkpoints.Prune.{Fits, dropped, prune_longest}
use suite_harness.Sessions.Checkpoints.Save.{Checkpointed, save_checkpoint_effect}
use suite_harness.Sessions.Checkpoints.Resume.{resume_complete}
use suite_harness.Sessions.Tests.Data.{alice, enc, greeted, limits, hello_event}

abbrev old_checkpoint : SessionCheckpoint
old_checkpoint = record {
  identity = alice;
  checkpoint_id = "c1";
  revision = 1;
  workflow_state = text "planning";
  last_event_sequence = 0;
  created_at = 6;
  idempotency_key = "ck1";
}

abbrev saved_once : Store
saved_once = record greeted {
  checkpoints = (alice, old_checkpoint ∷ []) ∷ [];
  checkpoint_idempotency = ((alice, "ck1"), ("planning", old_checkpoint)) ∷ [];
}

abbrev args : CheckpointArgs
args = record {
  checkpoint_id = "c2";
  workflow_state = text "acting";
  expected_revision = 1;
  idempotency_key = "ck2";
}

abbrev new_one : SessionCheckpoint
new_one = record {
  identity = alice;
  checkpoint_id = "c2";
  revision = 2;
  workflow_state = text "acting";
  last_event_sequence = 1;
  created_at = 9;
  idempotency_key = "ck2";
}

abbrev saved_twice : Store
saved_twice = record greeted {
  sessions = (alice, record (new_record 5 alice) { revision = 2; updated_at = 9 }) ∷ [];
  checkpoints = (alice, new_one ∷ []) ∷ [];
  checkpoint_idempotency = ((alice, "ck2"), ("acting", new_one)) ∷ [];
}

saved : save_checkpoint enc 9 alice args saved_once ≡ ok (saved_twice, new_one)
unfolding save_checkpoint is_canonical require_session Dict.get session_beq save_found save_new
    checkpoints_of is_identifier Dict.put events_of Dict.remove
saved = refl

save_checkpoint_effect_example : Checkpointed enc 9 alice args saved_once saved_twice new_one
unfolding internally_consistent Dict.get session_beq
save_checkpoint_effect_example =
    save_checkpoint_effect enc 9 alice args saved_once saved_twice new_one refl refl saved

prune_longest_example :
    let kept = (prune_loop enc alice limits (old_checkpoint ∷ new_one ∷ []) []).0 in
    (dropped enc alice limits (old_checkpoint ∷ new_one ∷ []) ++ kept
      ≡ old_checkpoint ∷ new_one ∷ [])
    × Fits enc limits kept
    × (1 ≤ length kept)
unfolding retained_bytes
prune_longest_example =
    prune_longest enc alice limits (old_checkpoint ∷ []) (new_one ∷ []) []
      (record { count = omega arith; bytes = omega arith })

saved_once-IsConsistent : IsConsistent saved_once
unfolding events_of Dict.get
saved_once-IsConsistent = record {
  at = λ j q h.
      let r : q ≡ record (new_record 5 alice) { revision = 1; updated_at = 7 } = ground arith in
      let es : events_of j saved_once ≡ hello_event ∷ [] = ground arith in
      rw (r, es)
        (record { numbered = (refl, tt); rising = (omega arith, omega arith); stamped = inl refl });
}

abbrev snapshot : SessionSnapshot
snapshot = record {
  session = record (new_record 5 alice) { revision = 1; updated_at = 7 };
  checkpoint = some old_checkpoint;
  transcript = hello_event ∷ [];
}

resumed : resume alice saved_once ≡ some snapshot
unfolding resume Dict.get session_beq events_of
resumed = refl

resume_complete_example :
    (Dict.get alice saved_once.sessions ≡ some snapshot.session)
    × (snapshot.checkpoint ≡ get_last? (checkpoints_of alice saved_once))
    × (take (covered snapshot.checkpoint) (events_of alice saved_once) ++ snapshot.transcript
        ≡ events_of alice saved_once)
resume_complete_example = resume_complete alice saved_once snapshot saved_once-IsConsistent resumed
