-- ===== src/Sessions/ResumePoints/Saved.antt =====
-- What `save_resume_point` asks of the run and the session, and what it stores.
use suite_harness.Base.{
  ◌∙◌, ℕ, ◌+◌, ◌-◌, ◌≤◌, ◌<◌, ◌≡◌, refl, inl, inr, true, false, ◌&&◌, some, List, [], ◌∷◌, map,
  arith, ltb, leb, ◌==◌, string_eq, pair_eq, option_eq, length, keep, contains, sum, Bool-cases,
}
use suite_harness.Base.Dict
use suite_harness.Base.Dict.{Dict, get-remove, get-put_self}
use suite_harness.Sessions.Model.{
  SessionIdentity, session_eq, SessionRecord, RunResumePoint, ClaimPhase, RunClaim, RunKey, Store,
}
use suite_harness.Sessions.ResumePoints.{
  resume_point_ttl, discard_resume_points, expire_resume_points, keys_of,
}
use suite_harness.Sessions.ResumePoints.{remove_all}
use suite_harness.Sessions.ResumePoints.Saving.{
  point_bytes, sort_by_age, trim_loop, trim_scope, trim_resume_points, same_versions, save_checked,
  save_resume_point,
}

-- What a point that is saved goes with: a run that is running and was not asked to stop, and a
-- record at whose watermarks the point was made.
pub record IsResumable (now : ℕ) (identity : SessionIdentity) (p : RunResumePoint) (bytes : ℕ)
    (s : Store) : Type 0 where
  pub claim : RunClaim
  pub stored : SessionRecord
  pub claimed : Dict.get (identity, p.run_id) s.run_claims ≡ some claim
  pub active : claim.phase ≡ ClaimPhase.active
  pub unexpired : now < claim.expires_at
  pub not_stopped : contains (identity, p.run_id) s.run_stops ≡ false
  pub found : Dict.get identity s.sessions ≡ some stored
  pub own : p.identity ≡ identity
  pub small : bytes ≤ s.limits.max_resume_point_bytes
  pub begun : p.created_at ≤ now
  pub fresh : now < p.created_at + resume_point_ttl
  pub current : p.memory_invalidated_revision ≡ stored.memory_invalidated_revision
  pub versions : same_versions p.memory_source_versions stored.memory_source_versions ≡ true

trim_loop-kept :
    (kept : RunKey) (max_count max_bytes : ℕ) (ks : List RunKey) (count size : ℕ) (s : Store)
    → Dict.get kept (trim_loop kept max_count max_bytes ks count size s).resume_points
      ≡ Dict.get kept s.resume_points
unfolding trim_loop
trim_loop-kept kept max_count max_bytes [] count size s = refl
trim_loop-kept kept max_count max_bytes (k ∷ ks) count size s =
    let rest : Store = discard_resume_points (k ∷ []) s in
    let less : ℕ = size - point_bytes s k in
    let skipped = trim_loop-kept kept max_count max_bytes ks count size s in
    let dropped = trim_loop-kept kept max_count max_bytes ks (count - 1) less rest in
    elim (Bool-cases (leb count max_count && leb size max_bytes)) [
      | inl enough ↦ ground (arith, enough)
      | inr over ↦ elim (Bool-cases (k == kept)) [
        | inl same ↦ ground (arith, over, same, skipped)
        | inr other ↦
            let left : Dict.get kept rest.resume_points ≡ Dict.get kept s.resume_points =
              unfold discard_resume_points remove_all in
              ground (arith, get-remove k kept s.resume_points, other) in
            ground (arith, over, other, dropped, left)
      ]
    ]

trim_resume_points-kept :
    (identity : SessionIdentity) (kept : RunKey) (s : Store)
    → Dict.get kept (trim_resume_points identity kept s).resume_points
      ≡ Dict.get kept s.resume_points
unfolding trim_resume_points trim_scope
trim_resume_points-kept identity kept s =
    let keys : List RunKey = keep (λ (k : RunKey). k.0 == identity) (keys_of s.resume_points) in
    let s' : Store =
      trim_scope kept s.limits.max_resume_points_per_session s.limits.max_resume_bytes_per_session
        keys s in
    trim_loop-kept kept s'.limits.max_resume_points_total s'.limits.max_resume_bytes_total
      (sort_by_age s' (keys_of s'.resume_points)) (length (keys_of s'.resume_points))
      (sum (map (point_bytes s') (keys_of s'.resume_points))) s'
    ∙ trim_loop-kept kept s.limits.max_resume_points_per_session
        s.limits.max_resume_bytes_per_session (sort_by_age s keys) (length keys)
        (sum (map (point_bytes s) keys)) s

checked_stored :
    (now : ℕ) (identity : SessionIdentity) (p q : RunResumePoint) (bytes : ℕ) (s s' : Store)
    → save_checked now identity q bytes s ≡ (s', some p)
    → Dict.get (identity, p.run_id) s'.resume_points ≡ some p
checked_stored now identity p q bytes s s' h =
    let t : Store = expire_resume_points now s in
    let key : RunKey = (identity, q.run_id) in
    let put : Store = record t {
      resume_points = Dict.put key q t.resume_points;
      resume_point_bytes = Dict.put key bytes t.resume_point_bytes;
    } in
    let same : p ≡ q = unfold save_checked in ground (arith, h) in
    let trimmed : s' ≡ trim_resume_points identity key put =
      unfold save_checked in ground (arith, h) in
    rw (same, trimmed)
      (trim_resume_points-kept identity key put ∙ get-put_self key q t.resume_points)

-- A resume point that is saved is in the store afterwards: trimming to the limits evicts others.
pub save_resume_point_stores :
    (now : ℕ) (identity : SessionIdentity) (p q : RunResumePoint) (bytes : ℕ) (s s' : Store)
    → save_resume_point now identity (some q) bytes s ≡ (s', some p)
    → Dict.get (identity, p.run_id) s'.resume_points ≡ some p
unfolding save_resume_point
save_resume_point_stores now identity p q bytes s s' h =
    elim (Bool-cases (q.identity == identity)) [
      | inr other ↦ absurd (ground (arith, h, other))
      | inl own ↦ elim (Bool-cases (ltb s.limits.max_resume_point_bytes bytes)) [
        | inl large ↦ absurd (ground (arith, h, own, large))
        | inr small ↦ checked_stored now identity p q bytes s s' (ground (arith, h, own, small))
      ]
    ]
