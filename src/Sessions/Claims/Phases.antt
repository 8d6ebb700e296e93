-- ===== src/Sessions/Claims/Phases.antt =====
-- The phases and the owner of a run claim over a history, and its finalization.
use suite_harness.Base.{
  ℕ, ◌+◌, ◌≤◌, String, ◌≡◌, refl, inl, inr, ap, ◌∙◌, ◌↔◌, subst, same_cases, Bool, true, Option,
  none, some, List, [], ◌∷◌, arith, string_eq, pair_eq,
}
use suite_harness.Base.Dict
use suite_harness.Base.Dict.{get-put_self, get-put_ne}
use suite_harness.Sessions.Model.{session_eq, ClaimPhase, RunClaim, RunKey, Store}
use suite_harness.Sessions.Claims.{claim_found, finalize_found, request_stop}
use suite_harness.Sessions.Claims.Lifecycle.{
  Op, claims, finalizes, stops, claim_reply, step, run, claim_at, claims_kept, claims_cases,
  finalizes_cases,
}

abbrev pub rank : ClaimPhase → ℕ
rank ClaimPhase.active = 0
rank ClaimPhase.finalizing = 1
rank ClaimPhase.abandoned = 2

-- What was claimed stays claimed by the same owner, in the same phase or a later one.
abbrev pub Advances : Option RunClaim → Option RunClaim → Type 0
Advances none _ = Unit
Advances (some c) none = ⊥
Advances (some c) (some d) = (d.owner_token ≡ c.owner_token) × (rank c.phase ≤ rank d.phase)

Advances-refl : (o : Option RunClaim) → Advances o o
Advances-refl none = tt
Advances-refl (some c) = (refl, omega arith)

Advances-trans : (o p q : Option RunClaim) → Advances o p → Advances p q → Advances o q
Advances-trans none p q h k = tt
Advances-trans (some c) (some d) (some e) h k = (k.0 ∙ h.0, omega (arith, h.1, k.1))
Advances-trans (some c) none q h k = absurd h
Advances-trans (some c) (some d) none h k = absurd k

Advances-put :
    (key k : RunKey) (o : Option RunClaim) (d : RunClaim) (s : Store)
    → claim_at k s ≡ o
    → Advances o (some d)
    → Advances (claim_at key s) (Dict.get key (Dict.put k d s.run_claims))
Advances-put key k o d s e h = elim (same_cases k key) [
  | inl p ↦
      subst (λ j. Advances (claim_at j s) (Dict.get j (Dict.put k d s.run_claims))) p
        (rw (e, get-put_self k d s.run_claims) h)
  | inr n ↦ rw (get-put_ne k key d s.run_claims n) (Advances-refl (claim_at key s))
]

claim_found-Advances :
    (key : RunKey) (now : ℕ) (k : RunKey) (owner : String) (lease : ℕ) (s : Store)
    (o : Option RunClaim)
    → claim_at k s ≡ o
    → Advances
        (claim_at key s)
        (claim_at key (claim_reply s k (claim_found now k owner lease s o)).0)
unfolding claim_found
claim_found-Advances key now k owner lease s none e =
    let d : RunClaim = record {
      owner_token = owner;
      phase = ClaimPhase.active;
      expires_at = now + lease;
    } in
    ground (arith, Advances-refl (claim_at key s), Advances-put key k none d s e tt)
claim_found-Advances key now k owner lease s (some c) e =
    let d : RunClaim = record c { phase = ClaimPhase.abandoned } in
    ground (
      arith,
      Advances-refl (claim_at key s),
      Advances-put key k (some c) d s e (refl, ground arith),
    )

finalize_found-Advances :
    (key : RunKey) (now : ℕ) (k : RunKey) (owner : String) (lease : ℕ) (s : Store)
    (o : Option RunClaim)
    → claim_at k s ≡ o
    → Advances (claim_at key s) (claim_at key (finalize_found now k owner lease s o).0)
unfolding finalize_found
finalize_found-Advances key now k owner lease s none e = Advances-refl (claim_at key s)
finalize_found-Advances key now k owner lease s (some c) e =
    let d : RunClaim = record {
      owner_token = owner;
      phase = ClaimPhase.finalizing;
      expires_at = now + lease;
    } in
    ground (
      arith,
      Advances-refl (claim_at key s),
      string_eq.same_iff c.owner_token owner,
      Advances-put key k (some c) d s e,
    )

step-Advances :
    (key : RunKey) (op : Op) (s : Store) → Advances (claim_at key s) (claim_at key (step op s).0)
unfolding step request_stop
step-Advances key (claims now i r owner lease) s =
    claims_cases (λ x. Advances (claim_at key s) (claim_at key x.0)) s
      (λ e. Advances-refl (claim_at key s)) now i r owner lease
      λ n. claim_found-Advances key now (i, r) owner n s (claim_at (i, r) s) refl
step-Advances key (finalizes now i r owner lease) s =
    finalizes_cases (λ x. Advances (claim_at key s) (claim_at key x.0)) s
      (λ e. Advances-refl (claim_at key s)) now i r owner lease
      λ n. finalize_found-Advances key now (i, r) owner n s (claim_at (i, r) s) refl
step-Advances key (stops now i r) s =
    ground (arith, Advances-refl (claim_at key s), claims_kept now (i, r) s (claim_at (i, r) s))

-- Over any sequence of calls a claim is never removed and never changes its owner, and its phase
-- only advances: from active to finalizing to abandoned.
pub run-Advances :
    (key : RunKey) (ops : List Op) (s : Store)
    → Advances (claim_at key s) (claim_at key (run s ops).0)
unfolding run
run-Advances key [] s = Advances-refl (claim_at key s)
run-Advances key (op ∷ ops) s =
    Advances-trans (claim_at key s) (claim_at key (step op s).0) (claim_at key (run s (op ∷ ops)).0)
      (step-Advances key op s) (run-Advances key ops (step op s).0)

-- The claim that `owner` may finalize under `k`.
pub record IsOwnedActive (k : RunKey) (owner : String) (s : Store) (c : RunClaim) : Type 0 where
  pub stored : claim_at k s ≡ some c
  pub phase : c.phase ≡ ClaimPhase.active
  pub owned : c.owner_token ≡ owner

abbrev pub fence : ℕ → String → ℕ → RunClaim
fence now owner lease = record {
  owner_token = owner;
  phase = ClaimPhase.finalizing;
  expires_at = now + lease;
}

finalize_owned :
    (now : ℕ) (k : RunKey) (owner : String) (lease : ℕ) (s : Store) (c : RunClaim)
    → IsOwnedActive k owner s c
    → finalize_found now k owner lease s (claim_at k s)
      ≡ (record s { run_claims = Dict.put k (fence now owner lease) s.run_claims }, true)
unfolding finalize_found
finalize_owned now k owner lease s c h =
    ground (arith, h.stored, h.phase, string_eq.same_iff c.owner_token owner)

owned_finalize :
    (now : ℕ) (k : RunKey) (owner : String) (lease : ℕ) (s : Store) (o : Option RunClaim)
    → claim_at k s ≡ o
    → (finalize_found now k owner lease s o).1 ≡ true
    → (c : RunClaim) × IsOwnedActive k owner s c
unfolding finalize_found
owned_finalize now k owner lease s none e h = cc
owned_finalize now k owner lease s (some c) e h = (
  c,
  record {
    stored = e;
    phase = ground arith;
    owned = ground (arith, string_eq.same_iff c.owner_token owner);
  },
)

-- A finalization succeeds exactly for the owner of an active claim, which it leaves finalizing, with
-- the same owner, until the new lease runs out.
pub finalize_iff_owner :
    (now : ℕ) (k : RunKey) (owner : String) (lease : ℕ) (s : Store)
    → let r = finalize_found now k owner lease s (claim_at k s) in
      (r.1 ≡ true) ↔ (
        (c : RunClaim) × (IsOwnedActive k owner s c
          × (claim_at k r.0 ≡ some (fence now owner lease))))
finalize_iff_owner now k owner lease s = (
  λ h.
      let (c, w) = owned_finalize now k owner lease s (claim_at k s) refl h in
      (
        c,
        (
          w,
          rw (finalize_owned now k owner lease s c w)
              (get-put_self k (fence now owner lease) s.run_claims),
        ),
      ),
  λ (c, (w, h)). ap (λ (r : Store × Bool). r.1) (finalize_owned now k owner lease s c w),
)
