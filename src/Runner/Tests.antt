-- ===== src/Runner/Tests.antt =====
-- The execution runner at concrete inputs: one destructive tool of a product and one built-in file
-- tool, a grant of both, an approval of one call, and a workflow that calls a tool and then ends.
use suite_harness.Base.{
  Option, String, ◌<◌, ◌≡◌, ◌↔◌, ◌⊎◌, refl, true, false, ◌||◌, none, some, List, [], ◌∷◌, arith,
  any, ◌==◌, string_eq, ok, nat,
}
use suite_harness.Base.Dict
use suite_harness.Base.Json.{null, text, end}
use suite_harness.Scopes.{root_path, product_path, RequestScope, tenant_id, product_id, path_beq}
use suite_harness.Tools.{
  read, write, destructive, external, has_effect, ToolIdentity, ToolSpec, is_read,
}
use suite_harness.Registry
use suite_harness.Registry.{RegisteredTool, RegisteredEntry, Registry}
use suite_harness.Grants.Model.{CapabilityGrant}
use suite_harness.Grants
use suite_harness.Grants.{Authority, empty_authority}
use suite_harness.Approvals.{ApprovalBinding, consume_if_matches}
use suite_harness.ChannelPolicy.{WorkspaceWriteRule, evaluate, evaluate_feishu}
use suite_harness.ChannelPolicy.Decisions.{IsConfinedWrite}
use suite_harness.Runner.{
  ToolIntent, RunRequest, RunResumeState, ExecutionBudget, World, Machine, Outside, returned,
  answered, accepted, emit,
}
use suite_harness.Runner.Policy.{
  ExecutionPolicy, PolicyArgs, execution_policy, within, requires_approval,
}
use suite_harness.Runner.Ceilings.{IsBounded, execution_policy-IsBounded}
use suite_harness.Runner.Authorize.{
  Admitted, registered, grant_for, resumable_tool, is_builtin, safe_registration, authorization_of,
  authorization, or_stop, check_arguments, admit_tool, admit, needs_approval, check_binding,
  approve,
}
use suite_harness.Runner.Intents.{
  handle_call, start_call, execute_approved, execute_admitted, execute_intent,
}
use suite_harness.Runner.Outcomes.{
  stores_result, kept_result, resume_arguments, finish_kept, finish_call, conclude_call,
}
use suite_harness.Runner.Observations.{observed, deny, tool_failure}
use suite_harness.Sessions.Payloads.{is_canonical}
use suite_harness.Runner.Visible.{visible_tools}
use suite_harness.Runner.Strategies.{Strategies, decision, tools, final}
use suite_harness.Runner.Loop.{run_loop}
use suite_harness.Runner.Clearance.{IsCleared, starts}
use suite_harness.Runner.Started.{
  IsApproved, started-IsCleared, destructive-IsApproved, resumed-reads,
  feishu_started-IsConfinedWrite,
}
use suite_harness.Runner.Finished.{Outcome, run_loop-Outcome}
use suite_harness.Runner.Calm.{KeyFits, IsCalm}
use suite_harness.Runner.Offered.{offered_iff_admitted}

abbrev identity_wipe : ToolIdentity
identity_wipe = record {
  namespace = "product";
  name = "crm.wipe";
  origin = "scope:product:acme:crm";
  version = "1";
}

abbrev identity_fs : ToolIdentity
identity_fs = record {
  namespace = "suiteharness";
  name = "suiteharness.fs.read";
  origin = "suiteharness.builtin.fs";
  version = "1";
}

abbrev spec_wipe : ToolSpec
spec_wipe = record {
  name = "crm.wipe";
  effects = write ∷ destructive ∷ [];
  required_capabilities = "crm" ∷ [];
  input_schema = null;
}

abbrev spec_fs : ToolSpec
spec_fs = record {
  name = "suiteharness.fs.read";
  effects = read ∷ [];
  required_capabilities = [];
  input_schema = null;
}

abbrev wipe : RegisteredTool (Unit {0})
wipe = record {
  registration_scope = product_path "acme" "crm";
  identity = identity_wipe;
  spec = spec_wipe;
  handler = tt;
}

abbrev fs_read : RegisteredTool (Unit {0})
fs_read = record {
  registration_scope = root_path;
  identity = identity_fs;
  spec = spec_fs;
  handler = tt;
}

abbrev registry : Registry (Unit {0})
registry = record {
  items =
      (
        (product_path "acme" "crm", "crm.wipe"),
        record { item = wipe; registration_id = "r1"; protected = false },
      )
      ∷ (
        (root_path, "suiteharness.fs.read"),
        record { item = fs_read; registration_id = "r2"; protected = true },
      )
      ∷ [];
  protected_names = ("suiteharness.fs.read", "r2") ∷ [];
}

abbrev grant : CapabilityGrant
grant = record {
  grant_id = "g";
  tenant_id = "acme";
  product_id = "crm";
  tool_identities = identity_wipe ∷ identity_fs ∷ [];
  capabilities = "crm" ∷ [];
  principal_id = none;
  issued_at = 1;
  expires_at = 100;
}

abbrev authority : Authority
authority = record empty_authority { grants = ("g", grant) ∷ []; grant_owners = ("g", none) ∷ [] }

abbrev scope : RequestScope
scope = record {
  path = product_path "acme" "crm";
  principal_id = "alice";
  channel_id = "internal";
  session_owner_id = none;
}

abbrev limits : ExecutionBudget
limits = record {
  max_iterations = 2;
  max_tool_calls = 2;
  max_parallel_calls = 1;
  timeout_seconds = 50;
}

abbrev request : RunRequest
request = record {
  run_id = "run-1";
  scope = scope;
  grant_id = "g";
  input = null;
  read_only = false;
  budget = limits;
  resume = none;
}

abbrev call : ToolIntent
call = record {
  call_id = "c1";
  tool_name = "crm.wipe";
  arguments = end;
  approval_token = some "token";
}

abbrev read_call : ToolIntent
read_call = record {
  call_id = "c2";
  tool_name = "suiteharness.fs.read";
  arguments = end;
  approval_token = none;
}

abbrev approval : ApprovalBinding
approval = record {
  target = record {
    scope = product_path "acme" "crm";
    principal_id = "alice";
    run_id = "run-1";
    call_id = "c1";
    tool_identity = identity_wipe;
    arguments_digest = "00";
  };
  approved_by = "bob";
  issued_at = 5;
  expires_at = 60;
}

abbrev world : World (Unit {0}) (Unit {0})
world = record {
  now = 10;
  registry = registry;
  authority = authority;
  approvals = ("token", approval) ∷ [];
  pool = record {
    max_iterations = 2;
    max_tool_calls = 2;
    max_children = 2;
    deadline = 60;
    iterations_used = 0;
    tool_calls_used = 0;
    child_calls = [];
    active_children = 0;
  };
  rest = tt;
}

abbrev outside : Outside (Unit {0}) (Unit {0})
outside = record {
  payload_size = λ v. 10;
  preview = λ v. "";
  arguments_digest = λ fs. "00";
  token_digest = λ t. t;
  validate = λ s fs. accepted;
  publish = λ p w. (w, true);
  authorization_policy = none;
  interactive_approvals = none;
  handle = λ h c fs w. (w, returned null);
  tool_results = none;
}

abbrev policy : ExecutionPolicy
policy = record {
  approval_effects = destructive ∷ write ∷ external ∷ [];
  max_run_input_bytes = 100;
  max_tool_argument_bytes = 100;
  max_tool_result_bytes = 100;
  max_final_output_bytes = 100;
  max_workflow_state_bytes = 100;
  max_iterations = 16;
  max_tool_calls = 32;
  max_parallel_calls = 4;
  max_timeout_seconds = 120;
}

abbrev machine : Machine (Unit {0}) (Unit {0})
machine = record { world = world; journal = [] }

-- The first decision calls the tool, the next one ends the run.
abbrev strategies : Strategies (Unit {0}) (Unit {0}) (Unit {0})
strategies = record {
  prompt = none;
  resume_key = λ r f p. some none;
  stream = λ r f p w. (
    w,
    (
      (elim f.observations [
        | [] ↦ decision (tools call [] null)
        | x ∷ xs ↦ decision (final (text "done") null)
      ])
          ∷ [],
      true,
    ),
  );
  reflection = none;
  prompt_digest = λ r p. "";
  with_environment = λ p n. p;
  checkpoint_size = λ r s. 10;
}

-- The calls below are started.
call-starts : 0 < starts (execute_intent outside policy request call 1 10 false machine).0.journal
unfolding execute_intent execute_admitted execute_approved start_call handle_call conclude_call
    finish_call finish_kept kept_result stores_result resume_arguments safe_registration
    resumable_tool is_builtin emit deny tool_failure observed or_stop check_arguments admit
    admit_tool grant_for authorization authorization_of is_read approve needs_approval
    requires_approval check_binding consume_if_matches Grants.resolve Dict.get Dict.remove
    Registry.resolve tenant_id product_id path_beq evaluate evaluate_feishu is_canonical
call-starts = omega arith

no_key-KeyFits :
    (found : Option (Option String)) (key : Option String)
    → found ≡ some none
    → found ≡ some key
    → KeyFits key
no_key-KeyFits found none f e = tt
no_key-KeyFits found (some k) f e = absurd (ground (arith, f, e))

-- Nothing here raises or sets the clock back, so that the run below ends.
outside-IsCalm : IsCalm outside strategies
outside-IsCalm = record {
  outside = record {
    publishes = λ p w. refl;
    publish_clock = λ p w. omega arith;
    validates = λ schema fs e. absurd (ground (arith, e));
    ask_clock = λ ask e. absurd (ground (arith, e));
    handle_clock = λ h c fs w. omega arith;
    put_clock = λ put e. absurd (ground (arith, e));
  };
  prompt_clock = λ f e. absurd (ground (arith, e));
  stream_clock = λ r frame p w. omega arith;
  reflection_clock = λ f e. absurd (ground (arith, e));
  keys = λ r frame p key e. no_key-KeyFits (some none) key refl e;
}

run_loop-Outcome_example :
    Outcome outside strategies request
      (run_loop outside policy strategies 300 (λ s. 10) request machine)
run_loop-Outcome_example =
    run_loop-Outcome outside policy strategies 300 (λ s. 10) request machine refl refl

started-IsCleared_example :
    (a : Admitted (Unit {0})) × IsCleared outside policy request call world a false
started-IsCleared_example =
    started-IsCleared outside policy request call 1 10 false machine call-starts

destructive-IsApproved_example :
    (a : Admitted (Unit {0})) × ((a.tool ≡ wipe) × IsApproved outside policy request call world a)
unfolding Registry.resolve Dict.get path_beq
destructive-IsApproved_example =
    destructive-IsApproved outside policy request call 1 10 false machine call-starts wipe refl refl

abbrev resume : RunResumeState
resume = record {
  source_run_id = "run-0";
  workflow_state = null;
  observations = [];
  iterations_used = 0;
  tool_calls_used = 0;
  call_ids = [];
  prompt_digest = "";
  route_key = "route";
}

abbrev resumed : RunRequest
resumed = record request { read_only = true; resume = some resume }

read_starts :
    0 < starts (execute_intent outside policy resumed read_call 1 10 false machine).0.journal
unfolding execute_intent execute_admitted execute_approved start_call handle_call conclude_call
    finish_call finish_kept kept_result stores_result resume_arguments safe_registration
    resumable_tool is_builtin emit deny tool_failure observed or_stop check_arguments admit
    admit_tool grant_for authorization authorization_of is_read approve needs_approval
    requires_approval check_binding consume_if_matches Grants.resolve Dict.get Dict.remove
    Registry.resolve tenant_id product_id path_beq evaluate evaluate_feishu is_canonical
read_starts = omega arith

resumed-reads_example :
    (tool : RegisteredTool (Unit {0})) × ((registered resumed "suiteharness.fs.read" world
        ≡ some tool)
      × (safe_registration resumed "suiteharness.fs.read" world ≡ true)
      × (has_effect write tool.spec.effects || has_effect destructive tool.spec.effects ≡ false))
resumed-reads_example =
    resumed-reads outside policy resumed read_call 1 10 false machine read_starts refl

abbrev roots : List WorkspaceWriteRule
roots = record { space = "product"; path = "docs" } ∷ []

abbrev channel_outside : Outside (Unit {0}) (Unit {0})
channel_outside = record outside {
  authorization_policy =
      some (λ r i spec arguments. answered (evaluate roots r.scope i spec arguments));
}

abbrev feishu_scope : RequestScope
feishu_scope = record scope { channel_id = "feishu" }

abbrev feishu : RunRequest
feishu = record request { scope = feishu_scope }

channel_read_starts :
    0 < starts (execute_intent channel_outside policy feishu read_call 1 10 false machine).0.journal
unfolding execute_intent execute_admitted execute_approved start_call handle_call conclude_call
    finish_call finish_kept kept_result stores_result resume_arguments safe_registration
    resumable_tool is_builtin emit deny tool_failure observed or_stop check_arguments admit
    admit_tool grant_for authorization authorization_of is_read approve needs_approval
    requires_approval check_binding consume_if_matches Grants.resolve Dict.get Dict.remove
    Registry.resolve tenant_id product_id path_beq evaluate evaluate_feishu is_canonical
channel_read_starts = omega arith

feishu_started-IsConfinedWrite_example :
    (a : Admitted (Unit {0})) × (IsCleared channel_outside policy feishu read_call world a false
      × ((is_read a.tool.spec ≡ true) ⊎ IsConfinedWrite roots a.tool.identity a.tool.spec end))
feishu_started-IsConfinedWrite_example =
    feishu_started-IsConfinedWrite channel_outside policy feishu read_call 1 10 false machine
      channel_read_starts roots refl refl

offered_iff_admitted_example :
    (any (λ (s : ToolSpec). s.name == "crm.wipe") (visible_tools request grant world) ≡ true)
    ↔ ((a : Admitted (Unit {0})) × (admit outside policy request call false world ≡ ok a))
unfolding grant_for Grants.resolve Dict.get tenant_id product_id Registry.resolve path_beq
    authorization
offered_iff_admitted_example =
    offered_iff_admitted outside policy request call world grant wipe refl refl refl refl refl refl

abbrev policy_args : PolicyArgs
policy_args = record {
  approval_effects = [];
  max_run_input_bytes = nat 100;
  max_tool_argument_bytes = nat 100;
  max_tool_result_bytes = nat 100;
  max_final_output_bytes = nat 100;
  max_workflow_state_bytes = nat 100;
  max_iterations = nat 16;
  max_tool_calls = nat 32;
  max_parallel_calls = nat 4;
  max_timeout_seconds = nat 120;
}

execution_policy-IsBounded_example :
    IsBounded 86400 (record policy { approval_effects = destructive ∷ [] })
unfolding execution_policy within
execution_policy-IsBounded_example =
    execution_policy-IsBounded 86400 policy_args
      (record policy { approval_effects = destructive ∷ [] }) refl
