-- ===== src/Sessions/ResumePoints.antt =====
-- src/suiteharness/sessions/memory.py: the cache of resume points, its expiry and its removals.
pub mod Saving
pub mod Saved
use suite_harness.Base.{ℕ, ◌+◌, Bool, List, [], ◌∷◌, map, leb, string_eq, nat_eq, pair_eq, keep}
use suite_harness.Base.Dict
use suite_harness.Sessions.Model.{session_eq, RunResumePoint, RunKey, Store}

-- `RESUME_POINT_TTL_SECONDS`
abbrev pub resume_point_ttl : ℕ
resume_point_ttl = 300

-- `_discard_resume_point`, for each key in turn: it pops the key in both dictionaries.
unfoldable pub remove_all : {V : Type 0} → List RunKey → List (RunKey × V) → List (RunKey × V)
remove_all [] d = d
remove_all (k ∷ ks) d = remove_all ks (Dict.remove k d)

unfoldable pub discard_resume_points : List RunKey → Store → Store
unfolding remove_all
discard_resume_points ks s = record s {
  resume_points = remove_all ks s.resume_points;
  resume_point_bytes = remove_all ks s.resume_point_bytes;
}

-- `(now - point.created_at).total_seconds() >= RESUME_POINT_TTL_SECONDS`
unfoldable pub is_expired : ℕ → RunResumePoint → Bool
is_expired now point = leb (point.created_at + resume_point_ttl) now

abbrev pub keys_of : {V : Type 0} → List (RunKey × V) → List RunKey
keys_of = map (λ e. e.0)

unfoldable pub expire_resume_points : ℕ → Store → Store
unfolding discard_resume_points is_expired
expire_resume_points now s =
    discard_resume_points
      (keys_of (keep (λ (e : RunKey × RunResumePoint). is_expired now e.1) s.resume_points)) s
