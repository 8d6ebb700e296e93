-- ===== src/Runner/Protocol.antt =====
-- The protocol of the audit events of a run, as a machine that reads them, and what one call and one
-- batch of calls do to its phase.
use suite_harness.Base.{
  ℕ, ◌+◌, ◌≤◌, String, ◌≡◌, refl, inl, inr, Bool, true, false, Option, Option-cases, Bool-cases,
  none, some, List, [], ◌∷◌, arith, ◌==◌, string_eq, same_self, if◌then◌else◌, length,
}
use suite_harness.Runner.{
  AuditEventType, run_started, strategy_decision, tool_intent, tool_denied, tool_started,
  tool_finished, run_finished, ToolIntent, ToolObservation, of_completion, RunRequest, AuditEvent,
  World, Machine, Outside,
}
use suite_harness.Runner.Policy.{ExecutionPolicy}
use suite_harness.Runner.Intents.{execute_intent, complete_call, execute_batch}
use suite_harness.Runner.Observations.{budget_observation}
use suite_harness.Runner.Audit.{
  Ending, finishing, denying, Trail, cut_off, stopped, broke_off, went_through, TrailOf,
  execute_intent-Trail,
}
use suite_harness.Runner.Calm.{IsCalmOutside, IsDone, execute_intent-IsDone}
use suite_harness.Runner.Calls.{refuse_overflow}
use suite_harness.Runner.Clearance.{starts, Trail-starts-le}

-- Where a run stands, by its events: not begun, between calls, with a call that was asked for or
-- that is running, or ended.
pub data Phase : Type 0 where
  fresh idle over : Phase
  asked running : Option String → Phase

abbrev same_call : Option String → Option String → Bool
same_call (some c) (some d) = c == d
same_call _ _ = false

-- One event of the protocol; `none` if it may not come next. A call that was asked for is denied or
-- started, and a running one finished or denied, under its own call id. A call over the budget is
-- denied without having been asked for.
abbrev pub next_phase : AuditEventType → Option String → Phase → Option Phase
next_phase run_started c fresh = some idle
next_phase strategy_decision c idle = some idle
next_phase tool_intent c idle = some (asked c)
next_phase tool_denied c idle = some idle
next_phase tool_denied c (asked d) = if same_call c d then some idle else none
next_phase tool_started c (asked d) = if same_call c d then some (running c) else none
next_phase tool_denied c (running d) = if same_call c d then some idle else none
next_phase tool_finished c (running d) = if same_call c d then some idle else none
next_phase run_finished c idle = some over
next_phase _ _ _ = none

-- The phase after the events of a journal, the newest of which comes first.
abbrev pub phase : List AuditEvent → Option Phase
phase [] = some fresh
phase (e ∷ es) = elim (phase es) [ none ↦ none | some p ↦ next_phase e.event_type e.call_id p ]

Ending-idle :
    (intent : ToolIntent) (before after : List AuditEvent)
    → Ending intent before after
    → phase before ≡ some (running (some intent.call_id))
    → phase after ≡ some idle
Ending-idle intent before after (finishing e i) h =
    ground (arith, i.of_kind, i.of_call, h, same_self intent.call_id)
Ending-idle intent before after (denying e i) h =
    ground (arith, i.of_kind, i.of_call, h, same_self intent.call_id)

module _ {H X : Type 0} (o : Outside H X) (policy : ExecutionPolicy) (request : RunRequest) where
  Trail-idle :
      (intent : ToolIntent) (duplicate : Bool) (w : World H X) (before after : List AuditEvent)
      (done : Bool)
      → Trail o policy request intent duplicate w before done after
      → done ≡ true
      → phase before ≡ some idle
      → phase after ≡ some idle
  Trail-idle intent duplicate w before after done (cut_off asking i f) d h =
      absurd (ground (arith, f, d))
  Trail-idle intent duplicate w before after done (broke_off asking start a by i j g k f) d h =
      absurd (ground (arith, f, d))
  Trail-idle intent duplicate w before after done (stopped asking denial i j) d h =
      ground (arith, i.of_kind, i.of_call, j.of_kind, j.of_call, h, same_self intent.call_id)
  Trail-idle intent duplicate w before after done (went_through asking start _ a by i j g f end) d
        h =
      Ending-idle intent _ after end
        (ground (arith, i.of_kind, i.of_call, j.of_kind, j.of_call, h, same_self intent.call_id))

-- A call, or a batch of at most `n` starts, leaves a run between its calls; under `C` no exception
-- leaves it, and the clock does not go back.
pub record IsBetween {H X : Type 0} (C : Type 0) (n : ℕ) (m m' : Machine H X) : Type 0 where
  pub idle_after : phase m'.journal ≡ some idle
  pub few_starts : starts m'.journal ≤ starts m.journal + n
  pub later : C → m.world.now ≤ m'.world.now

abbrev pub EndsBetween :
    {H X A : Type 0} → Type 0 → ℕ → Machine H X → Option (Machine H X × A) → Type 0
EndsBetween C n m none = ¬ C
EndsBetween C n m (some (m', x)) = IsBetween C n m m'

module _ {H X : Type 0} (o : Outside H X) (policy : ExecutionPolicy) (request : RunRequest)
    (C : Type 0) (calm : C → IsCalmOutside o) where
  complete_call-EndsBetween :
      (intent : ToolIntent) (duplicate : Bool) (m : Machine H X)
      (r : Machine H X × Option ToolObservation)
      → TrailOf o policy request intent duplicate m.world m.journal r
      → (C → IsDone m.world.now r)
      → phase m.journal ≡ some idle
      → EndsBetween C 1 m (complete_call o policy intent r)
  unfolding complete_call
  complete_call-EndsBetween intent duplicate m (m', none) t d h =
      λ c. ground (arith, (d c).answered)
  complete_call-EndsBetween intent duplicate m (m', some x) t d h =
      elim (Bool-cases
        (o.publish (of_completion intent.call_id intent.tool_name x.status) m'.world).1) [
          | inr e ↦
              rw (e, EndsBetween)
                (λ c. ground (
                  arith,
                  e,
                  (calm c).publishes (of_completion intent.call_id intent.tool_name x.status)
                      m'.world,
                ))
          | inl e ↦
              rw (e, EndsBetween)
                (record {
                  idle_after =
                      Trail-idle o policy request intent duplicate m.world m.journal m'.journal true
                        t refl h;
                  few_starts = omega (
                    arith,
                    Trail-starts-le o policy request intent duplicate m.world m.journal true
                        m'.journal t,
                  );
                  later = λ c. omega (
                    arith,
                    (d c).later,
                    (calm c).publish_clock (of_completion intent.call_id intent.tool_name x.status)
                        m'.world,
                  );
                })
        ]

  -- A batch leaves a run between its calls, and starts at most as many calls as it has intents.
  pub execute_batch-EndsBetween :
      (intents : List (ToolIntent × Bool)) (iteration run_started_at : ℕ) (m : Machine H X)
      → phase m.journal ≡ some idle
      → EndsBetween C
          (length intents)
          m
          (execute_batch o policy request intents iteration run_started_at m)
  unfolding execute_batch
  execute_batch-EndsBetween [] iteration run_started_at m h = record {
    idle_after = h;
    few_starts = omega arith;
    later = λ c. omega arith;
  }
  execute_batch-EndsBetween ((intent, duplicate) ∷ intents) iteration run_started_at m h =
      let x = execute_intent o policy request intent iteration run_started_at duplicate m in
      let b =
        complete_call-EndsBetween intent duplicate m x
          (execute_intent-Trail o policy request intent iteration run_started_at duplicate m)
          (λ c.
            execute_intent-IsDone o (calm c) policy request intent iteration run_started_at
              duplicate m)
          h in
      elim (Option-cases (complete_call o policy intent x)) [
        | inl e ↦ rw (e, EndsBetween) (rw (e, EndsBetween) at b)
        | inr ((m', y), e) ↦
            let b' : IsBetween C 1 m m' = rw (e, EndsBetween) at b in
            let rest =
              execute_batch-EndsBetween intents iteration run_started_at m' b'.idle_after in
            elim (Option-cases
              (execute_batch o policy request intents iteration run_started_at m')) [
                | inl f ↦ rw (e, f, EndsBetween) (rw (f, EndsBetween) at rest)
                | inr ((m'', ys), f) ↦
                    let r : IsBetween C (length intents) m' m'' = rw (f, EndsBetween) at rest in
                    rw (e, f, EndsBetween)
                      (record {
                        idle_after = r.idle_after;
                        few_starts = omega (arith, b'.few_starts, r.few_starts);
                        later = λ c. omega (arith, b'.later c, r.later c);
                      })
              ]
      ]

module _ {H X : Type 0} (request : RunRequest) where
  -- The calls over the budget are denied; none is started.
  pub refuse_overflow_lem :
      (intents : List ToolIntent) (iteration : ℕ) (m : Machine H X)
      → phase m.journal ≡ some idle
      → let m' = (refuse_overflow request intents iteration m).0 in
        (phase m'.journal ≡ some idle)
        × (starts m'.journal ≡ starts m.journal)
        × (m'.world.now ≡ m.world.now)
  unfolding refuse_overflow budget_observation
  refuse_overflow_lem [] iteration m h = (h, refl, refl)
  refuse_overflow_lem (i ∷ intents) iteration m h =
      let r =
        refuse_overflow_lem intents iteration (budget_observation request i iteration m).0
          (ground (arith, h)) in
      (r.0, omega (arith, r.1), r.2)
