-- ===== src/Sessions/Checkpoints/Resume.antt =====
-- What `resume` returns.
use suite_harness.Base.{
  ℕ, zero, suc, ◌+◌, ◌<◌, ◌≡◌, refl, inl, inr, some, List, [], ◌∷◌, ◌++◌, arith, ltb, keep, drop,
  take, take-append-drop_self, Option-cases, nat_eq,
}
use suite_harness.Base.Dict
use suite_harness.Base.Dict.{get-put_self, get-put_ne, get-put}
use suite_harness.Sessions.Model.{
  SessionIdentity, session_eq, SessionSnapshot, TranscriptEvent, Store,
}
use suite_harness.Sessions.Transcript.{events_of}
use suite_harness.Sessions.Transcript.Invariant.{Numbered, IsConsistent}
use suite_harness.Sessions.Checkpoints.{checkpoints_of, get_last?, covered, resume}

keep_all :
    (after n : ℕ) (es : List TranscriptEvent)
    → Numbered n es
    → after < n
    → keep (λ (e : TranscriptEvent). ltb after e.sequence) es ≡ es
keep_all after n [] h l = refl
keep_all after n (e ∷ es) h l = ground (arith, keep_all after (suc n) es h.1)

keep-drop :
    (after n k : ℕ) (es : List TranscriptEvent)
    → Numbered n es
    → after + 1 ≡ n + k
    → keep (λ (e : TranscriptEvent). ltb after e.sequence) es ≡ drop k es
keep-drop after n zero es h p = keep_all after n es h (omega arith)
keep-drop after n (suc k) [] h p = refl
keep-drop after n (suc k) (e ∷ es) h p = ground (arith, keep-drop after (suc n) k es h.1)

-- From a consistent store a session resumes with its record, its newest checkpoint, and exactly the
-- events after those which the checkpoint covers: the covered events followed by the resumed ones
-- are the whole transcript.
pub resume_complete :
    (i : SessionIdentity) (s : Store) (snap : SessionSnapshot)
    → IsConsistent s
    → resume i s ≡ some snap
    → (Dict.get i s.sessions ≡ some snap.session)
      × (snap.checkpoint ≡ get_last? (checkpoints_of i s))
      × (take (covered snap.checkpoint) (events_of i s) ++ snap.transcript ≡ events_of i s)
unfolding resume
resume_complete i s snap c h = elim (Option-cases (Dict.get i s.sessions)) [
  | inl e ↦ absurd (ground (arith, e))
  | inr (r, e) ↦
      let after : ℕ = covered (get_last? (checkpoints_of i s)) in
      let tail = keep-drop after 1 after (events_of i s) (c.at i r e).numbered (omega arith) in
      (
        ground (arith, e),
        ground (arith, e),
        ground (arith, e, tail, take-append-drop_self after (events_of i s)),
      )
]
