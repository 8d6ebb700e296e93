-- ===== src/Sessions/Tests/Transcripts.antt =====
-- A transcript with a repeated message.
use suite_harness.Sessions.Payloads.{is_canonical, finished_resume_run_id}
use suite_harness.Base.Names.{is_identifier}
use suite_harness.Base.{◌≡◌, ◌≢◌, ◌⊎◌, refl, List, [], ◌∷◌, arith, ok, err, inl}
use suite_harness.Base.Dict
use suite_harness.Sessions.Model.{
  session_eq, SessionStatus, TranscriptEvent, stop_iteration, empty_store, session_beq,
}
use suite_harness.Sessions.Claims.{new_record, require_session}
use suite_harness.Sessions.Transcript.{
  AppendArgs, append, events_of, append_found, prior_event, append_source, is_outdated, append_new,
  total_events, drop_resume_points, write_event,
}
use suite_harness.Sessions.Transcript.Invariant.{IsConsistent, append-IsConsistent}
use suite_harness.Sessions.Transcript.Replay.{append_replay}
use suite_harness.Sessions.Transcript.Pages.{walk_back, walk_back_complete}
use suite_harness.Sessions.Transcript.Repeats.{Repeats}
use suite_harness.Sessions.Transcript.Effect.{OneMore, append_effect}
use suite_harness.Sessions.Transcript.Errors.{append-ne-stop_iteration}
use suite_harness.Sessions.Histories.{Call, creates, appends, sets, run, histories-IsConsistent}
use suite_harness.Sessions.Tests.Data.{alice, bob, enc, hello, hello_event, opened, greeted, limits}

appended : append enc 8 alice hello opened ≡ ok (greeted, hello_event)
unfolding append is_canonical require_session Dict.get session_beq append_found prior_event
    append_source is_outdated append_new events_of total_events is_identifier drop_resume_points
    finished_resume_run_id write_event Dict.put
appended = refl

-- The same content under the same key, sent again with another id and an old revision.
abbrev again : AppendArgs
again = record hello { event_id = "e9"; occurred_at = 20 }

append_replay_example : append enc 21 alice again greeted ≡ ok (greeted, hello_event)
append_replay_example =
    append_replay enc 8 21 alice hello again opened greeted hello_event "k1" appended refl
      (record { event_type = refl; payload = refl; key = refl })

opened-IsConsistent : IsConsistent opened
unfolding events_of Dict.get
opened-IsConsistent = record {
  at = λ j q h.
      let r : q ≡ new_record 5 alice = ground arith in
      let es : events_of j opened ≡ [] = ground arith in
      rw (r, es) (record { numbered = tt; rising = omega arith; stamped = inl refl });
}

append-IsConsistent_example : IsConsistent greeted
append-IsConsistent_example =
    append-IsConsistent enc 8 alice hello opened greeted hello_event appended opened-IsConsistent

append-ne-stop_iteration_example : append enc 8 alice hello opened ≢ err stop_iteration
append-ne-stop_iteration_example =
    append-ne-stop_iteration enc 8 alice hello opened opened-IsConsistent

append_effect_example :
    ((greeted ≡ opened) × Repeats enc alice hello opened hello_event)
    ⊎ OneMore enc alice hello opened greeted hello_event
append_effect_example = append_effect enc 8 alice hello opened greeted hello_event appended

abbrev three_events : List TranscriptEvent
three_events =
    hello_event
    ∷ record hello_event { sequence = 2; event_id = "e2" }
    ∷ record hello_event { sequence = 3; event_id = "e3" }
    ∷ []

walk_back_complete_example : walk_back 4 2 4 three_events ≡ three_events
walk_back_complete_example =
    walk_back_complete 2 three_events (omega arith) (refl, (refl, (refl, tt)))

abbrev calls : List Call
calls =
    creates 5 alice
    ∷ creates 6 bob
    ∷ appends 7 alice hello
    ∷ sets 8 alice SessionStatus.completed 1
    ∷ []

histories-IsConsistent_example :
    let s = run enc calls (empty_store limits) in
    IsConsistent s × (append enc 9 alice again s ≢ err stop_iteration)
histories-IsConsistent_example = histories-IsConsistent enc limits calls 9 alice again
