-- ===== src/Lib.antt =====
-- Verification library of SuiteHarness, a framework that runs AI agents for companies. The execution
-- runner drives a run and authorizes every call of a tool; it reads stores that decide who may do what: a session store keeps the transcript and lets one
-- worker own a run, a tool registry finds the tool for a request, the channel policy says what a
-- channel may run, an approval store lets a person permit one exact call once, and a shared budget
-- bounds the agents of one run together. This library models these components and states what the
-- rest of the program relies on. Every method that the code runs under one lock is one function on
-- the component's state, so a list of calls is an interleaving of concurrent callers; an exception is
-- an error value, and a call that raises has changed nothing.
--
--   Base           the shared names: Boolean tests, equality, lists over the native numbers, results,
--                  dicts (Dict) and sets (KeySet) in insertion order, identifier patterns (Names) and
--                  JSON values (Json)
--   Scopes         src/suiteharness/runtime/scopes.py: ScopePath, its constructor and parent, and the
--                  fields of RequestScope that decisions read
--   Tools          src/suiteharness/execution/models.py: ToolIdentity, ToolSpec and the effect rules
--   Registry       src/suiteharness/execution/in_memory.py, InMemoryToolRegistry: registration,
--                  protection, removal by handle and lookup; Schemas (remote references), Entries (what a
--                  registration wrote), Protection, Histories, Keys, Ownership (handles)
--   Runner         src/suiteharness/execution/runner.py and models.py, ExecutionRunner: its vocabulary
--                  and what it is given from outside (Runner), ExecutionPolicy (Policy), the checks and
--                  the approval of a call (Authorize), _execute_intent and batches (Observations,
--                  Outcomes, Intents),
--                  _valid_resume and _safe_observation (Resumption), _visible_tools (Visible), results
--                  and checkpoints (Results), strategies (Strategies), the loop of _run_loop (Turns,
--                  Calls, Loop). Audit (the events of one call), Clearance, ApprovedCalls, Trusted and Started
--                  (what a call that starts went through), Calm (when no exception escapes), Protocol, Invariant, Sound and Finished (the
--                  run as a whole), Offered, Ceilings
--   Plugins        src/suiteharness/plugins/graph.py, PluginPlanner: the checks, the bindings and the
--                  plan (Planner), the dependency graph and the loop over the heap (Graph), with the
--                  manifests of plugins/models.py (Plugins). Edges, Counted and Connected (how the
--                  graph is filled), Initial, Released and Ordering (the loop), Indexed, Plans, Complete
--   Effects        src/suiteharness/runtime/effects.py, EffectScope: create, callback and close, in
--                  steps between which other tasks call the scope; Unwinding
--   Services       src/suiteharness/runtime/scopes.py, ServiceKey and ServiceBindings; Overrides
--   ChannelPolicy  src/suiteharness/channels/policy.py: _parts, WorkspaceWriteRule and evaluate; Paths
--                  (accepted paths), Decisions (per channel)
--   ModelContext   src/suiteharness/models/context.py: _validate_pairs (Pairs) and the rounds of prepare
--   Grants         src/suiteharness/execution/in_memory.py, InMemoryCapabilityAuthority: register,
--                  issue, issue_child and resolve (Grants), the validated grant (Model), revocation and
--                  activations (Revoking); Loops, Lineage, Order (the links between child and parent
--                  grants), Issue, Revocation, Liveness, Histories
--   Approvals      src/suiteharness/execution/in_memory.py, InMemoryApprovalStore: issue,
--                  consume_if_matches and revoke; Consume (one call), Traces (sequences of calls)
--   Budget         src/suiteharness/multiagent/budget.py, AggregateRunBudget; Runs (interleavings),
--                  Bounds (limits), Slots (children and deadlines)
--   Sessions       src/suiteharness/sessions/memory.py and models.py, InMemorySessionStore:
--                  Model (state and vocabulary), Claims (create, claim_run, finalize_run, request_stop
--                  and the queries), Payloads (what is read in an event's payload), Transcript (append
--                  and pages), ResumePoints (save_resume_point, get_resume_point, expiry and trimming),
--                  Checkpoints (save_checkpoint, set_status, resume); Histories (calls that write a
--                  session, in any order)
--
-- The runner resolves tools in Registry and grants in Grants, consumes tokens in Approvals and takes
-- iterations and tool slots from Budget; its authorization policy can be that of ChannelPolicy. The
-- registry takes its scopes from Scopes and its identities from Tools; the channel policy reads
-- both; an approval names a scope path and a tool identity; the claims, the transcript and the
-- checkpoints share the store of Sessions.Model. The plan of Plugins, the scopes of Effects and
-- the layers of Services serve the code that starts the program's parts and stops them, which is not
-- modelled.
--
-- Times are numbers of ticks from one epoch. Leases, lifetimes and time-outs are whole ticks; the code
-- also takes fractions of a second, and a finer tick stands for these (`ticks_per_second` of the limits
-- of a session store, the ticks of a day for an execution policy). A float or a NaN where the
-- code wants an int is the value `not_int` of IntArg. Random tokens and ids are arguments, since the
-- code draws them from `secrets`; SHA-256, the length of the canonical JSON and what the JSON Schema
-- library says of a schema are parameters. An identity or a record that pydantic has validated is
-- taken as valid, where a function does not say that it validates.
--
-- Loops are recursion on what they consume: the wait of take_child_slot on its list of wake-ups, the
-- pruning of checkpoints on the list of checkpoints, the draw of a free token on the list of draws.
-- Fuel stands in four places. The loop that orders the plugins has as many turns as there are plugins,
-- since no plugin is taken twice. The loop over the ancestors of a grant has one pass more than grants are
-- stored, since a parent is stored before its child; the loop of a revocation has a pass for the grant
-- and one for every stored child, since each pass takes its children out; the client that reads a
-- transcript page by page (Sessions.Transcript.Pages) has one request more than there are events,
-- since each request but the last brings at least one event.
--
-- The runner's loop over the iterations is a recursion on how many are left, which the budget of the
-- request gives. Handlers, strategies, the broker and the result store are functions from the world
-- (clock, stores, shared budget and a state of any type) to a new world: while such code is awaited,
-- other tasks may change all of it, the clock included, which may go back. Batches of calls are those of
-- max_parallel_calls = 1, whose semaphore lets the calls run one after another; how parallel calls
-- interleave is not modelled. Nothing of `_execute_intent` and `_run_loop` catches the exception of a
-- validator other than JsonSchemaValidationError, of a publication on the stream, of a route key that
-- RunResumeState refuses, or of an observation or a result that would end before it starts: such a
-- call has no observation and such a run no result, and what `_run` makes of it is left out. The audit
-- sink is taken to accept every event.
--
-- Not modelled: safe_resume_point, whose result is an argument of save_resume_point, the time-out and
-- the cancellation of a run (cancel, stream and _run of the runner, which race tasks of the event
-- loop), register_owned, an interrupt of the process while a scope is closed, and everything that is network, process, database or file system access. Deep copies that the code makes of records are not visible on values.
pub mod Base
pub mod Budget
pub mod Scopes
pub mod Tools
pub mod Registry
pub mod Runner
pub mod Plugins
pub mod Effects
pub mod Services
pub mod Approvals
pub mod Grants
pub mod Sessions
pub mod ChannelPolicy
pub mod ModelContext
