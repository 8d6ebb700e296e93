-- ===== src/Approvals/Consume.antt =====
-- What one call of the approval store does, on every branch.
use suite_harness.Base.{
  refl, ℕ, ◌<◌, ◌≤◌, String, ◌≡◌, ◌≢◌, ◌↔◌, ap, inl, inr, true, false, not, Option, none, some,
  List, [], ◌∷◌, arith, string_eq, is_some, any, same_cases, same_ne, ◌∙◌, Option-cases, Bool-cases,
}
use suite_harness.Base.Dict.{get, has, put, remove, get-remove, get-remove_self}
use suite_harness.Approvals.{
  ApprovalTarget, target_eq, ApprovalBinding, Store, fresh_token, issue, issued, consume_if_matches,
}

-- The approval stored under `key` is live at `now` and authorizes exactly `expected`.
pub record Authorizes (now : ℕ) (key : String) (expected : ApprovalTarget) (s : Store)
    (b : ApprovalBinding) : Type 0 where
  pub stored : get key s ≡ some b
  pub live : now < b.expires_at
  pub exact : b.target ≡ expected

module _ (digest : String → String) where
  consume_authorized :
      (now : ℕ) (token : String) (expected : ApprovalTarget) (s : Store) (b : ApprovalBinding)
      → Authorizes now (digest token) expected s b
      → consume_if_matches digest now token expected s ≡ (remove (digest token) s, some b)
  unfolding consume_if_matches
  consume_authorized now token expected s b h =
      ground (arith, h.stored, target_eq.same_iff b.target expected)

  authorized_consume :
      (now : ℕ) (token : String) (expected : ApprovalTarget) (s : Store) (b : ApprovalBinding)
      → (consume_if_matches digest now token expected s).1 ≡ some b
      → Authorizes now (digest token) expected s b
  unfolding consume_if_matches
  authorized_consume now token expected s b h = elim (Option-cases (get (digest token) s)) [
    | inl e ↦ ground (arith, e)
    | inr (c, e) ↦ ground (arith, e, target_eq.same_iff c.target expected)
  ]

  -- A token is accepted exactly when the approval stored under its digest has not expired and was
  -- issued for exactly the expected call, and then the stored approval is the one returned.
  pub consume_iff_authorized :
      (now : ℕ) (token : String) (expected : ApprovalTarget) (s : Store) (b : ApprovalBinding)
      → ((consume_if_matches digest now token expected s).1 ≡ some b)
        ↔ Authorizes now (digest token) expected s b
  consume_iff_authorized now token expected s b = (
    authorized_consume now token expected s b,
    λ h.
        ap (λ (r : Store × Option ApprovalBinding). r.1)
          (consume_authorized now token expected s b h),
  )

  consume_absent :
      (now : ℕ) (token : String) (expected : ApprovalTarget) (s : Store)
      → get (digest token) s ≡ none
      → (consume_if_matches digest now token expected s).1 ≡ none
  unfolding consume_if_matches
  consume_absent now token expected s h = ground (arith, h)

  -- An accepted token is spent: its approval is gone, no other approval is touched, and no later
  -- call with the same token is accepted, whatever its time and target.
  pub consume_spends :
      (now later : ℕ) (token : String) (expected other : ApprovalTarget) (s : Store)
      (b : ApprovalBinding)
      → (consume_if_matches digest now token expected s).1 ≡ some b
      → let s' = (consume_if_matches digest now token expected s).0 in
        (s' ≡ remove (digest token) s) × ((consume_if_matches digest later token other s').1 ≡ none)
  consume_spends now later token expected other s b h =
      rw (consume_authorized now token expected s b (authorized_consume now token expected s b h)) (
        refl,
        consume_absent later token other (remove (digest token) s)
            (get-remove_self (digest token) s),
      )

  mismatch_keeps :
      (now : ℕ) (token : String) (expected : ApprovalTarget) (s : Store) (b : ApprovalBinding)
      → get (digest token) s ≡ some b
      → now < b.expires_at
      → b.target ≢ expected
      → consume_if_matches digest now token expected s ≡ (s, none)
  unfolding consume_if_matches
  mismatch_keeps now token expected s b e live ne =
      ground (arith, e, target_eq.same_iff b.target expected)

  -- The calls of `consume_if_matches` that are made in turn, with their times.
  abbrev pub presented : List (ℕ × (String × ApprovalTarget)) → Store → Store
  presented [] s = s
  presented ((now, (token, expected)) ∷ calls) s =
      presented calls (consume_if_matches digest now token expected s).0

  -- Calls before the expiry of `b`, none of which is that which `b` under `key` was issued for.
  abbrev pub AreOther : String → ApprovalBinding → List (ℕ × (String × ApprovalTarget)) → Type 0
  AreOther key b [] = Unit
  AreOther key b ((now, (token, expected)) ∷ calls) =
      (now < b.expires_at) × (digest token ≡ key → b.target ≢ expected) × AreOther key b calls

  other_keeps :
      (now : ℕ) (key token : String) (expected : ApprovalTarget) (s : Store) (b : ApprovalBinding)
      → get key s ≡ some b
      → now < b.expires_at
      → (digest token ≡ key → b.target ≢ expected)
      → get key (consume_if_matches digest now token expected s).0 ≡ some b
  other_keeps now key token expected s b e live other = elim (same_cases (digest token) key) [
    | inl same ↦
        let at : get (digest token) s ≡ some b = ap (λ k. get k s) same ∙ e in
        rw (mismatch_keeps now token expected s b at live (other same)) e
    | inr ne ↦
        unfold consume_if_matches in
        ground (arith, e, get-remove (digest token) key s, same_ne (digest token) key ne)
  ]

  -- An approval is not burnt by calls that it was not issued for: whatever calls are presented before
  -- it expires, with any tokens, as long as none presents its own token for its own call, it is then
  -- accepted for its call.
  pub refused_not_burnt :
      (calls : List (ℕ × (String × ApprovalTarget))) (later : ℕ) (token : String) (s : Store)
      (b : ApprovalBinding)
      → get (digest token) s ≡ some b
      → AreOther (digest token) b calls
      → later < b.expires_at
      → (consume_if_matches digest later token b.target (presented calls s)).1 ≡ some b
  refused_not_burnt [] later token s b e o live =
      (consume_iff_authorized later token b.target s b).1
        (record { stored = e; live = live; exact = refl })
  refused_not_burnt ((now, (t, expected)) ∷ calls) later token s b e o live =
      refused_not_burnt calls later token (consume_if_matches digest now t expected s).0 b
        (other_keeps now (digest token) t expected s b e o.0 o.1) o.2 live

  fresh_token-fresh :
      (s : Store) (draws : List String) (token : String)
      → fresh_token digest s draws ≡ some token
      → has (digest token) s ≡ false
  unfolding fresh_token
  fresh_token-fresh s [] token h = cc
  fresh_token-fresh s (t ∷ draws) token h = elim (Bool-cases (has (digest t) s)) [
    | inl taken ↦ fresh_token-fresh s draws token (ground (arith, taken))
    | inr free ↦ ground (arith, free)
  ]

  fresh_token-found :
      (s : Store) (draws : List String)
      → any (λ t. not (has (digest t) s)) draws ≡ true
      → is_some (fresh_token digest s draws) ≡ true
  unfolding fresh_token
  fresh_token-found s [] h = cc
  fresh_token-found s (t ∷ draws) h = ground (arith, fresh_token-found s draws)

  issue_inv :
      (now : ℕ) (b : ApprovalBinding) (draws : List String) (s s' : Store) (token : String)
      → issue digest now b draws s ≡ issued token s'
      → (b.issued_at ≤ now)
        × (now < b.expires_at)
        × (fresh_token digest s draws ≡ some token)
        × (s' ≡ put (digest token) b s)
  unfolding issue
  issue_inv now b draws s s' token h = elim (Option-cases (fresh_token digest s draws)) [
    | inl e ↦ absurd (ground (arith, e))
    | inr (t, e) ↦ (ground (arith, e), ground (arith, e), ground (arith, e), ground (arith, e))
  ]

  -- An approval that is issued for a current window gets a token whose digest was free, and is
  -- stored under it; no approval that was pending is changed.
  pub issue_adds :
      (now : ℕ) (b : ApprovalBinding) (draws : List String) (s s' : Store) (token : String)
      → issue digest now b draws s ≡ issued token s'
      → (b.issued_at ≤ now)
        × (now < b.expires_at)
        × (get (digest token) s ≡ none)
        × (s' ≡ put (digest token) b s)
  issue_adds now b draws s s' token h =
      let (i, l, f, e) = issue_inv now b draws s s' token h in
      (i, l, ground (arith, fresh_token-fresh s draws token f), e)

  -- Whenever the approval's window is current and some drawn token has a free digest, the loop that
  -- draws tokens ends and the approval is issued.
  pub issue_succeeds :
      (now : ℕ) (b : ApprovalBinding) (draws : List String) (s : Store)
      → b.issued_at ≤ now
      → now < b.expires_at
      → any (λ t. not (has (digest t) s)) draws ≡ true
      → (token : String) × (issue digest now b draws s ≡ issued token (put (digest token) b s))
  unfolding issue
  issue_succeeds now b draws s i l free = elim (Option-cases (fresh_token digest s draws)) [
    | inl e ↦ absurd (ground (arith, e, fresh_token-found s draws free))
    | inr (t, e) ↦ (t, ground (arith, e))
  ]
