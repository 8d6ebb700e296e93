-- ===== src/Sessions/Tests/Points.antt =====
-- A resume point of a running run, under a limit of one per session.
use suite_harness.Base.{ℕ, String, [], ◌∷◌, string_eq, nat_eq, pair_eq}
use suite_harness.Base.Dict
use suite_harness.Base.Json.{text}
use suite_harness.Sessions.Model.{session_eq, RunResumePoint, RunClaim, ClaimPhase, Store}
use suite_harness.Sessions.Tests.Data.{alice, opened}

abbrev claim : RunClaim
claim = record { owner_token = "worker"; phase = ClaimPhase.active; expires_at = 70 }

abbrev point : String → ℕ → RunResumePoint
point run_id now = record {
  identity = alice;
  run_id = run_id;
  payload = text "state";
  memory_invalidated_revision = 0;
  memory_source_versions = [];
  created_at = now;
}

abbrev running : Store
running = record opened {
  run_claims = ((alice, "run-1"), claim) ∷ [];
  resume_points = ((alice, "run-0"), point "run-0" 5) ∷ [];
  resume_point_bytes = ((alice, "run-0"), 100) ∷ [];
}

-- The older point of the session is evicted.
abbrev saved : Store
saved = record running {
  resume_points = ((alice, "run-1"), point "run-1" 20) ∷ [];
  resume_point_bytes = ((alice, "run-1"), 200) ∷ [];
}
