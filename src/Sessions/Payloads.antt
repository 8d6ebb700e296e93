-- ===== src/Sessions/Payloads.antt =====
-- src/suiteharness/sessions/models.py: what the store reads in the payload of a transcript event.
use suite_harness.Base.{
  ℕ, String, Bool, true, false, ◌&&◌, ◌||◌, not, Option, none, some, ltb, if◌then◌else◌, ◌==◌,
  string_eq, Result, ok, err, nat,
}
use suite_harness.Base.Json.{
  Json, null, boolean, number, float, text, array, object, Items, nil, cons, Fields, end, field,
  lookup,
}
use suite_harness.Base.Names.{is_identifier}
use suite_harness.Sessions.Model.{
  SessionError, value_error, TranscriptEventType, assistant_message, error,
}

-- `validate` of `canonical_json`: no float is infinite or not a number.
unfoldable mutual
  pub is_canonical : Json → Bool
  is_canonical (float x) = not (x == "nan" || x == "inf" || x == "-inf")
  is_canonical (array xs) = are_canonical xs
  is_canonical (object fs) = fields_canonical fs
  is_canonical null = true
  is_canonical (boolean b) = true
  is_canonical (number n) = true
  is_canonical (text s) = true

  pub are_canonical : Items → Bool
  are_canonical nil = true
  are_canonical (cons x xs) = is_canonical x && are_canonical xs

  pub fields_canonical : Fields → Bool
  fields_canonical end = true
  fields_canonical (field k v fs) = is_canonical v && fields_canonical fs

-- `is None`, of what `payload.get` returns
unfoldable pub is_none : Option Json → Bool
is_none none = true
is_none (some null) = true
is_none (some _) = false

unfoldable pub source_stamp : Option Json → Option Json → Result SessionError (Option (String × ℕ))
source_stamp (some (text namespace)) (some (number (nat version))) =
    if is_identifier namespace && ltb 0 version
    then ok (some (namespace, version))
    else err value_error
source_stamp namespace version =
    if is_none namespace && is_none version then ok none else err value_error

unfoldable pub memory_invalidation_source : Json → Result SessionError (Option (String × ℕ))
unfolding source_stamp is_none lookup
memory_invalidation_source (object fs) =
    source_stamp (lookup "source_namespace" fs) (lookup "source_version" fs)
memory_invalidation_source _ = ok none

unfoldable pub finished_id : Option Json → Option String
finished_id (some (text run_id)) = if is_identifier run_id then some run_id else none
finished_id _ = none

unfoldable pub is_cancelled : Option Json → Bool
is_cancelled (some (text s)) = s == "cancelled"
is_cancelled _ = false

unfoldable pub finished_in : Json → Option String
unfolding finished_id is_cancelled lookup
finished_in (object fs) =
    if is_cancelled (lookup "run_status" fs) then none else finished_id (lookup "run_id" fs)
finished_in _ = none

unfoldable pub finished_resume_run_id : TranscriptEventType → Json → Option String
unfolding finished_in
finished_resume_run_id assistant_message payload = finished_in payload
finished_resume_run_id error payload = finished_in payload
finished_resume_run_id _ payload = none
