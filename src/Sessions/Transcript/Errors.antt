-- ===== src/Sessions/Transcript/Errors.antt =====
-- The search `next(…)` of `append`, and the exception of an empty search.
use suite_harness.Base.{
  ℕ, ◌<◌, String, ◌≡◌, ◌≢◌, refl, subst, inl, inr, Bool, true, false, ◌&&◌, Option, none, some,
  List, [], arith, ltb, if◌then◌else◌, string_eq, nat_eq, pair_eq, is_some, Bool-cases, Result,
  Result-cases, ok, err, nat,
}
use suite_harness.Base.Dict
use suite_harness.Base.Json.{Json, object, text, number, lookup}
use suite_harness.Sessions.Model.{
  SessionIdentity, session_eq, SessionError, SessionRecord, TranscriptEvent, TranscriptEventType,
  memory_invalidated, Store, stop_iteration, value_error,
}
use suite_harness.Base.Names.{is_identifier}
use suite_harness.Sessions.Claims.{require_session}
use suite_harness.Sessions.Payloads.{source_stamp, memory_invalidation_source, is_none}
use suite_harness.Sessions.Transcript.{
  Encoding, AppendArgs, events_of, source_of, is_outdated, event_at_revision, append_new,
  append_source, prior_event, append_found, append,
}
use suite_harness.Sessions.Transcript.Append.{require_session-found}
use suite_harness.Sessions.Transcript.Invariant.{IsConsistent, Stamped}

abbrev Positive : Option (String × ℕ) → Type 0
Positive none = Unit
Positive (some (namespace, version)) = 0 < version

-- What a source stamp comes to: a positive version, none, or a ValueError.
abbrev IsStamp : Result SessionError (Option (String × ℕ)) → Type 0
IsStamp (ok source) = Positive source
IsStamp (err e) = e ≢ stop_iteration

if-IsStamp :
    (b : Bool) (source : Option (String × ℕ))
    → (b ≡ true → Positive source)
    → IsStamp (if b then ok source else err value_error)
if-IsStamp true source h = h refl
if-IsStamp false source h = λ e. cc

source_stamp-IsStamp : (a b : Option Json) → IsStamp (source_stamp a b)
unfolding source_stamp
source_stamp-IsStamp (some (text n)) (some (number (nat v))) =
    if-IsStamp (is_identifier n && ltb 0 v) (some (n, v)) (λ h. ground (arith, h))
source_stamp-IsStamp a b = if-IsStamp (is_none a && is_none b) none (λ _. tt)

source_of-IsStamp : (t : TranscriptEventType) (payload : Json) → IsStamp (source_of t payload)
unfolding source_of memory_invalidation_source
source_of-IsStamp memory_invalidated (object fs) =
    source_stamp-IsStamp (lookup "source_namespace" fs) (lookup "source_version" fs)
source_of-IsStamp memory_invalidated _ = tt
source_of-IsStamp _ payload = tt

-- A positive version that is not above its watermark: the record has watermarks.
outdated-ne-nil :
    (source : Option (String × ℕ)) (r : SessionRecord)
    → Positive source
    → is_outdated source r ≡ true
    → r.memory_source_versions ≢ []
unfolding is_outdated Dict.get
outdated-ne-nil none r p h e = cc
outdated-ne-nil (some (n, v)) r p h e = ground (arith, e)

outdated-found :
    (source : Option (String × ℕ)) (r : SessionRecord) (es : List TranscriptEvent)
    → Positive source
    → is_outdated source r ≡ true
    → Stamped es r
    → is_some (event_at_revision r.memory_invalidated_revision es) ≡ true
outdated-found source r es p h (inl none_) = absurd (outdated-ne-nil source r p h none_)
outdated-found source r es p h (inr there) = there

module _ (enc : Encoding) where
  append_new-ne :
      (now : ℕ) (i : SessionIdentity) (args : AppendArgs) (source : Option (String × ℕ))
      (r : SessionRecord) (s : Store)
      → append_new enc now i args source r s ≢ err stop_iteration
  unfolding append_new
  append_new-ne now i args source r s h = ground arith

  append_found-ne :
      (now : ℕ) (i : SessionIdentity) (args : AppendArgs) (source : Option (String × ℕ))
      (r : SessionRecord) (s : Store) (o : Option (String × TranscriptEvent))
      → Positive source
      → Stamped (events_of i s) r
      → append_found enc now i args source r s o ≢ err stop_iteration
  unfolding append_found append_source
  append_found-ne now i args source r s (some (d, e)) p st h = ground arith
  append_found-ne now i args source r s none p st h = elim (Bool-cases (is_outdated source r)) [
    | inl old ↦ ground (arith, old, outdated-found source r (events_of i s) p old st)
    | inr new ↦ append_new-ne now i args source r s (ground (arith, new))
  ]

  -- On a store whose transcripts are consistent the search for the event of the last invalidation,
  -- with which `append` answers an outdated one, never comes up empty.
  pub append-ne-stop_iteration :
      (now : ℕ) (i : SessionIdentity) (args : AppendArgs) (s : Store)
      → IsConsistent s
      → append enc now i args s ≢ err stop_iteration
  append-ne-stop_iteration now i args s c h =
      elim (Result-cases (source_of args.event_type args.payload)) [
        | inr (x, bad) ↦
            (subst IsStamp bad (source_of-IsStamp args.event_type args.payload))
              (unfold append in ground (arith, bad))
        | inl (source, read) ↦ elim (Result-cases (require_session i s)) [
          | inr (x, bad) ↦ absurd (unfold append require_session in ground (arith, read, bad))
          | inl (r, found) ↦
              append_found-ne now i args source r s (prior_event enc i args s)
                (subst IsStamp read (source_of-IsStamp args.event_type args.payload))
                (c.at i r (require_session-found i s r found)).stamped
                (unfold append in ground (arith, read, found))
        ]
      ]
