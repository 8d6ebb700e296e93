-- ===== src/Approvals/Traces.antt =====
-- Sequences of calls of the approval store, and how often they issue and use the approvals under one
-- digest.
use suite_harness.Base.{
  ℕ, ◌+◌, ◌≤◌, String, inl, inr, Option, none, some, List, [], ◌∷◌, arith, if◌then◌else◌, ◌==◌,
  string_eq, Option-cases,
}
use suite_harness.Base.Dict.{get, has, get-put, get-remove}
use suite_harness.Approvals.{
  ApprovalTarget, ApprovalBinding, Store, Issued, rejected, issued, drawing, issue,
  consume_if_matches, revoke, fresh_token,
}

pub data Op : Type 0 where
  issues : ℕ → ApprovalBinding → List String → Op
  consumes : ℕ → String → ApprovalTarget → Op
  revokes : String → Op

pub data Reply : Type 0 where
  gave : String → Reply
  used : String → ApprovalBinding → Reply
  other : Reply

abbrev issue_reply : Store → Issued → Store × Reply
issue_reply s (rejected e) = (s, other)
issue_reply s (issued token s') = (s', gave token)
issue_reply s drawing = (s, other)

abbrev use_reply : String → Store × Option ApprovalBinding → Store × Reply
use_reply token (s, none) = (s, other)
use_reply token (s, some b) = (s, used token b)

module _ (digest : String → String) where
  unfoldable pub step : Op → Store → Store × Reply
  unfolding issue consume_if_matches revoke
  step (issues now b draws) s = issue_reply s (issue digest now b draws s)
  step (consumes now token expected) s =
      use_reply token (consume_if_matches digest now token expected s)
  step (revokes token) s = ((revoke digest token s).0, other)

  unfoldable pub run : Store → List Op → Store × List Reply
  run s [] = (s, [])
  run s (op ∷ ops) =
      let (s', reply) = step op s in let (s'', replies) = run s' ops in (s'', reply ∷ replies)

  -- How often the replies gave out a token with the digest `key`, and how often one was used.
  abbrev pub issued_of : String → Reply → ℕ
  issued_of key (gave token) = if digest token == key then 1 else 0
  issued_of key _ = 0

  abbrev pub used_of : String → Reply → ℕ
  used_of key (used token b) = if digest token == key then 1 else 0
  used_of key _ = 0

  abbrev pub issued_total : String → List Reply → ℕ
  issued_total key [] = 0
  issued_total key (r ∷ rs) = issued_of key r + issued_total key rs

  abbrev pub used_total : String → List Reply → ℕ
  used_total key [] = 0
  used_total key (r ∷ rs) = used_of key r + used_total key rs

  abbrev pub pending_count : String → Store → ℕ
  pending_count key s = if has key s then 1 else 0

  step_balance :
      (key : String) (op : Op) (s : Store)
      → used_of key (step op s).1 + pending_count key (step op s).0
        ≤ issued_of key (step op s).1 + pending_count key s
  unfolding step
  step_balance key (issues now b draws) s = elim (Option-cases (fresh_token digest s draws)) [
    | inl e ↦ ground (arith, e)
    | inr (t, e) ↦ ground (arith, e, get-put (digest t) key b s)
  ]
  step_balance key (consumes now token expected) s = elim (Option-cases (get (digest token) s)) [
    | inl e ↦ ground (arith, e)
    | inr (b, e) ↦
        ground (arith, e, get-remove (digest token) key s, string_eq.same_iff (digest token) key)
  ]
  step_balance key (revokes token) s = ground (arith, get-remove (digest token) key s)

  -- Over any sequence of calls the approvals under one digest are used at most as often as they
  -- were issued, plus one if an approval was pending at the start; what is still pending at the end
  -- is counted too.
  pub used-le-issued :
      (key : String) (ops : List Op) (s : Store)
      → used_total key (run s ops).1 + pending_count key (run s ops).0
        ≤ issued_total key (run s ops).1 + pending_count key s
  unfolding run
  used-le-issued key [] s = omega arith
  used-le-issued key (op ∷ ops) s =
      omega (arith, step_balance key op s, used-le-issued key ops (step op s).0)
