-- ===== src/Runner/Resumption.antt =====
-- src/suiteharness/execution/runner.py: what may cross a resume boundary (`_safe_observation`,
-- `_valid_resume`) and the checkpoints that a run publishes.
use suite_harness.Base.{
  ℕ, ◌-◌, ◌*◌, String, Bool, true, false, ◌&&◌, ◌||◌, not, none, some, List, [], ◌∷◌, map, all, leb,
  ltb, min, ◌==◌, string_eq, option_eq, nat_beq, contains, length,
}
use suite_harness.Base.Json.{Json, null, object}
use suite_harness.Base.KeySet.{subset}
use suite_harness.Tools.{identity_eq}
use suite_harness.Registry.{RegisteredTool}
use suite_harness.Grants.Model.{CapabilityGrant}
use suite_harness.Runner.{
  ToolCallStatus, succeeded, ToolObservation, RunResumeState, RunRequest, Validation, accepted,
  World, Outside,
}
use suite_harness.Runner.Policy.{ExecutionPolicy, requires_approval}
use suite_harness.Runner.Authorize.{
  registered, safe_registration, authorization, is_deny, is_default, is_require_approval,
}
use suite_harness.Runner.Observations.{contains_run_credentials, fields_contain}

abbrev pub is_succeeded : ToolCallStatus → Bool
is_succeeded succeeded = true
is_succeeded _ = false

-- `len(xs) == len(set(xs))`
unfoldable pub has_distinct : List String → Bool
has_distinct [] = true
has_distinct (x ∷ xs) = not (contains x xs) && has_distinct xs

abbrev pub is_null : Json → Bool
is_null null = true
is_null _ = false

abbrev pub is_web_tool : String → Bool
is_web_tool name = name == "suiteharness.web.search" || name == "suiteharness.web.fetch"

-- Here every exception of the validator is caught.
abbrev pub is_valid : Validation → Bool
is_valid accepted = true
is_valid _ = false

-- `_checkpoint_limit`
unfoldable pub checkpoint_limit : ExecutionPolicy → ℕ
checkpoint_limit policy =
    min (256 * 1024) (min policy.max_workflow_state_bytes policy.max_tool_result_bytes)

-- The checks of a resumed state against the request.
unfoldable pub resume_fits : RunRequest → RunResumeState → Bool
resume_fits request resume =
    request.read_only
    && not (request.run_id == resume.source_run_id)
    && ltb resume.iterations_used request.budget.max_iterations
    && leb resume.tool_calls_used request.budget.max_tool_calls

-- The checks of a resumed state in itself.
unfoldable pub resume_is_closed : RunResumeState → Bool
unfolding has_distinct contains_run_credentials
resume_is_closed resume =
    let ids = map (λ (x : ToolObservation). x.call_id) resume.observations in
    not (contains_run_credentials resume.workflow_state)
    && nat_beq resume.tool_calls_used (length resume.observations)
    && has_distinct resume.call_ids
    && subset resume.call_ids ids
    && subset ids resume.call_ids
    && nat_beq (length resume.call_ids) (length resume.observations)
    && (nat_beq (length resume.observations) 0
        || not (nat_beq resume.iterations_used 0) && not (is_null resume.workflow_state))

module _ {H X : Type 0} where
  unfoldable pub safe_observation : RunRequest → ToolObservation → World H X → Bool
  safe_observation request observation w =
      is_succeeded observation.status
      && safe_registration request observation.tool_name w
      && (elim (registered request observation.tool_name w) [
        | none ↦ false
        | some tool ↦ observation.tool_identity == some tool.identity
      ])
      && not (elim observation.result [ none ↦ false | some r ↦ contains_run_credentials r ])
      && not (elim observation.arguments [ none ↦ false | some fs ↦ fields_contain fs ])

module _ {H X : Type 0} (o : Outside H X) (policy : ExecutionPolicy) (ttl : ℕ) where
  -- The checks of the retained arguments, and the policy's answer: may the call be reused?
  unfoldable pub reusable : RunRequest → RegisteredTool H → ToolObservation → Bool
  reusable request tool observation = elim observation.arguments [
    | none ↦ (elim o.authorization_policy [
      | none ↦ not (requires_approval policy tool.spec)
      | some p ↦ false
    ])
    | some fs ↦
        let a = authorization o request tool.identity tool.spec fs in
        leb (o.payload_size (object fs)) policy.max_tool_argument_bytes
        && is_valid (o.validate tool.spec.input_schema fs)
        && not (is_deny a || is_require_approval a)
        && not (is_default a && requires_approval policy tool.spec)
  ]

  -- One turn of the loop of `_valid_resume`; `ttl` is `_WEB_RESUME_TTL_SECONDS` in ticks.
  unfoldable pub valid_observation :
      RunRequest → CapabilityGrant → World H X → ToolObservation → Bool
  valid_observation request grant w observation =
      safe_observation request observation w
      && (not (is_web_tool observation.tool_name)
          || leb observation.finished_at w.now && ltb (w.now - observation.finished_at) ttl)
      && (elim (registered request observation.tool_name w) [
        | none ↦ false
        | some tool ↦
            contains tool.identity grant.tool_identities
            && subset tool.spec.required_capabilities grant.capabilities
            && reusable request tool observation
      ])

  -- `_valid_resume`; `size` is the length of the state's canonical JSON.
  unfoldable pub valid_resume : RunRequest → RunResumeState → ℕ → CapabilityGrant → World H X → Bool
  valid_resume request resume size grant w =
      resume_fits request resume
      && (leb size (checkpoint_limit policy) && resume_is_closed resume)
      && all (valid_observation request grant w) resume.observations
