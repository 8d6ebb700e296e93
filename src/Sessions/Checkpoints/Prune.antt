-- ===== src/Sessions/Checkpoints/Prune.antt =====
-- Which checkpoints `_prune_checkpoints` keeps.
use suite_harness.Base.{
  ◌+◌, ◌≤◌, ◌≡◌, refl, List, [], ◌∷◌, ◌++◌, arith, if◌then◌else◌, length, length-append,
}
use suite_harness.Sessions.Model.{SessionIdentity, SessionStoreLimits, SessionCheckpoint}
use suite_harness.Sessions.Transcript.{Encoding}
use suite_harness.Sessions.Checkpoints.{Remembered, forget, retained_bytes, over_limit, prune_loop}

module _ (enc : Encoding) where
  pub record Fits (l : SessionStoreLimits) (cs : List SessionCheckpoint) : Type 0 where
    pub count : length cs ≤ l.max_checkpoints_per_session
    pub bytes : retained_bytes enc cs ≤ l.max_checkpoint_bytes_per_session

  prune_loop-Fits :
      (i : SessionIdentity) (l : SessionStoreLimits) (cs : List SessionCheckpoint) (d : Remembered)
      → Fits l (prune_loop enc i l cs d).0
  unfolding prune_loop
  prune_loop-Fits i l [] d = omega arith
  prune_loop-Fits i l (c ∷ cs) d = ground (arith, prune_loop-Fits i l cs (forget i c d))

  -- The oldest checkpoints, those that are dropped.
  unfoldable pub dropped :
      SessionIdentity → SessionStoreLimits → List SessionCheckpoint → List SessionCheckpoint
  dropped i l [] = []
  dropped i l (c ∷ cs) =
      let rest = dropped i l cs in if over_limit enc l (c ∷ cs) then c ∷ rest else []

  dropped-append :
      (i : SessionIdentity) (l : SessionStoreLimits) (cs : List SessionCheckpoint) (d : Remembered)
      → dropped i l cs ++ (prune_loop enc i l cs d).0 ≡ cs
  unfolding prune_loop dropped
  dropped-append i l [] d = refl
  dropped-append i l (c ∷ cs) d = ground (arith, dropped-append i l cs (forget i c d))

  retained_bytes-append :
      (xs ys : List SessionCheckpoint)
      → retained_bytes enc (xs ++ ys) ≡ retained_bytes enc xs + retained_bytes enc ys
  unfolding retained_bytes
  retained_bytes-append [] ys = omega arith
  retained_bytes-append (x ∷ xs) ys = omega (arith, retained_bytes-append xs ys)

  prune_loop-longest :
      (i : SessionIdentity) (l : SessionStoreLimits) (xs ys : List SessionCheckpoint)
      (d : Remembered)
      → Fits l ys
      → length ys ≤ length (prune_loop enc i l (xs ++ ys) d).0
  unfolding prune_loop
  prune_loop-longest i l [] [] d f = omega arith
  prune_loop-longest i l [] (y ∷ ys) d f = ground (arith, f.count, f.bytes)
  prune_loop-longest i l (x ∷ xs) ys d f =
      ground (arith, prune_loop-longest i l xs ys (forget i x d) f, length-append xs ys)

  -- Pruning drops the oldest checkpoints only, what it keeps is within the limit on their number
  -- and the limit on their bytes, and it keeps no fewer than any run `ys` of the newest checkpoints
  -- that is within both.
  pub prune_longest :
      (i : SessionIdentity) (l : SessionStoreLimits) (xs ys : List SessionCheckpoint)
      (d : Remembered)
      → Fits l ys
      → let kept = (prune_loop enc i l (xs ++ ys) d).0 in
        (dropped i l (xs ++ ys) ++ kept ≡ xs ++ ys) × Fits l kept × (length ys ≤ length kept)
  prune_longest i l xs ys d f = (
    dropped-append i l (xs ++ ys) d,
    prune_loop-Fits i l (xs ++ ys) d,
    prune_loop-longest i l xs ys d f,
  )
