-- ===== src/Sessions/ResumePoints/Saving.antt =====
-- src/suiteharness/sessions/memory.py: saving, trimming and reading resume points. What
-- `safe_resume_point` makes of the caller's point, and the length of the point's JSON, are arguments.
use suite_harness.Base.{
  ℕ, ◌+◌, ◌-◌, String, Bool, true, false, ◌&&◌, not, Option, none, some, List, [], ◌∷◌, map, ltb,
  leb, if◌then◌else◌, ◌==◌, string_eq, nat_eq, pair_eq, option_eq, length, keep, contains, sum,
  Result, ok, ◌>>◌, all,
}
use suite_harness.Base.Dict
use suite_harness.Base.Dict.{Dict}
use suite_harness.Sessions.Model.{
  SessionIdentity, session_eq, SessionError, SessionRecord, RunResumePoint, RunClaim, RunKey, Store,
}
use suite_harness.Sessions.Claims.{is_running, validate_run_id}
use suite_harness.Sessions.ResumePoints.{
  resume_point_ttl, discard_resume_points, expire_resume_points, keys_of,
}

abbrev pub point_bytes : Store → RunKey → ℕ
point_bytes s k = elim (Dict.get k s.resume_point_bytes) [ none ↦ 0 | some n ↦ n ]

abbrev created : Store → RunKey → ℕ
created s k = elim (Dict.get k s.resume_points) [ none ↦ 0 | some p ↦ p.created_at ]

-- `sorted(…, key=created_at)`, which is stable.
unfoldable pub insert_by_age : Store → RunKey → List RunKey → List RunKey
insert_by_age s k [] = k ∷ []
insert_by_age s k (j ∷ ks) =
    let rest = insert_by_age s k ks in
    if leb (created s k) (created s j) then k ∷ j ∷ ks else j ∷ rest

unfoldable pub sort_by_age : Store → List RunKey → List RunKey
unfolding insert_by_age
sort_by_age s [] = []
sort_by_age s (k ∷ ks) = insert_by_age s k (sort_by_age s ks)

-- The inner loop of `_trim_resume_points`.
unfoldable pub trim_loop : RunKey → ℕ → ℕ → List RunKey → ℕ → ℕ → Store → Store
unfolding discard_resume_points
trim_loop kept max_count max_bytes [] count size s = s
trim_loop kept max_count max_bytes (k ∷ ks) count size s =
    elim (leb count max_count && leb size max_bytes) [
      | true ↦ s
      | false ↦ elim (k == kept) [
        | true ↦ trim_loop kept max_count max_bytes ks count size s
        | false ↦
            trim_loop kept max_count max_bytes ks (count - 1) (size - point_bytes s k)
              (discard_resume_points (k ∷ []) s)
      ]
    ]

-- One pass of the outer loop, for the keys in scope.
unfoldable pub trim_scope : RunKey → ℕ → ℕ → List RunKey → Store → Store
unfolding trim_loop sort_by_age
trim_scope kept max_count max_bytes keys s =
    trim_loop kept max_count max_bytes (sort_by_age s keys) (length keys)
      (sum (map (point_bytes s) keys)) s

-- `_trim_resume_points`: the session's points, then all points.
unfoldable pub trim_resume_points : SessionIdentity → RunKey → Store → Store
unfolding trim_scope
trim_resume_points identity kept s =
    let s' =
      trim_scope kept s.limits.max_resume_points_per_session s.limits.max_resume_bytes_per_session
        (keep (λ (k : RunKey). k.0 == identity) (keys_of s.resume_points)) s in
    trim_scope kept s'.limits.max_resume_points_total s'.limits.max_resume_bytes_total
      (keys_of s'.resume_points) s'

-- `0 <= (now - created_at).total_seconds() < RESUME_POINT_TTL_SECONDS`
unfoldable pub is_fresh : ℕ → RunResumePoint → Bool
is_fresh now point = leb point.created_at now && ltb now (point.created_at + resume_point_ttl)

-- `prior is not None and checked.created_at < prior.created_at`
abbrev pub is_older : RunResumePoint → Option RunResumePoint → Bool
is_older point none = false
is_older point (some prior) = ltb point.created_at prior.created_at

-- Equality of two dicts, whatever their order.
abbrev pub same_versions : Dict String ℕ → Dict String ℕ → Bool
same_versions a b = length a == length b && all (λ (e : String × ℕ). Dict.get e.0 b == some e.1) a

-- Whether the point may be saved, by the claim, the record and the prior point that are stored.
unfoldable pub may_save :
    ℕ → RunKey → RunResumePoint → Store → Option RunClaim → Option SessionRecord → Bool
unfolding is_fresh is_running
may_save now key point s (some claim) (some r) =
    is_running now claim
    && not (contains key s.run_stops)
    && is_fresh now point
    && point.memory_invalidated_revision == r.memory_invalidated_revision
    && same_versions point.memory_source_versions r.memory_source_versions
    && not (is_older point (Dict.get key s.resume_points))
may_save now key point s _ _ = false

-- The critical section of `save_resume_point`.
unfoldable pub save_checked :
    ℕ → SessionIdentity → RunResumePoint → ℕ → Store → Store × Option RunResumePoint
unfolding may_save trim_resume_points expire_resume_points
save_checked now identity point bytes s =
    let s' = expire_resume_points now s in
    let key : RunKey = (identity, point.run_id) in
    if may_save now key point s' (Dict.get key s'.run_claims) (Dict.get identity s'.sessions)
    then (
      trim_resume_points identity key (record s' {
        resume_points = Dict.put key point s'.resume_points;
        resume_point_bytes = Dict.put key bytes s'.resume_point_bytes;
      }),
      some point,
    )
    else (s', none)

unfoldable pub save_resume_point :
    ℕ → SessionIdentity → Option RunResumePoint → ℕ → Store → Store × Option RunResumePoint
unfolding save_checked
save_resume_point now identity none bytes s = (s, none)
save_resume_point now identity (some point) bytes s =
    if not (point.identity == identity)
    then (s, none)
    else if ltb s.limits.max_resume_point_bytes bytes
    then (s, none)
    else save_checked now identity point bytes s

unfoldable pub get_resume_point :
    ℕ → SessionIdentity → String → Store → Result SessionError (Store × Option RunResumePoint)
unfolding validate_run_id expire_resume_points is_fresh
get_resume_point now identity run_id s = do
  validate_run_id run_id
  let s' = expire_resume_points now s
  ok (
    s',
    elim (Dict.get (identity, run_id) s'.resume_points) [
      | none ↦ none
      | some point ↦ if is_fresh now point then some point else none
    ],
  )
