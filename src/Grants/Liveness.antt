-- ===== src/Grants/Liveness.antt =====
-- The ancestors of a grant that is resolved, and the end of the loop over them.
use suite_harness.Base.{
  ℕ, zero, suc, ◌<◌, ◌≡◌, inl, inr, String, true, some, List, [], ◌∷◌, arith, is_some, string_eq,
  option_eq, same→eq, subst, Option-cases,
}
use suite_harness.Base.Dict
use suite_harness.Grants.{
  Authority, empty_authority, live_loop, chain_fuel, grant_live, resolve, owner_of, active_owner,
}
use suite_harness.Grants.Model.{CapabilityGrant}
use suite_harness.Grants.Revocation.{Chain}
use suite_harness.Grants.Order.{chain_fuel-enough}
use suite_harness.Grants.Histories.{Op, run, run_empty-IsSound}

-- The grant is stored, has not expired, and belongs to the activation that owns its product now.
pub record IsCurrent (now : ℕ) (id : String) (s : Authority) : Type 0 where
  pub grant : CapabilityGrant
  pub stored : Dict.get id s.grants ≡ some grant
  pub unexpired : now < grant.expires_at
  pub owned : owner_of id s ≡ active_owner grant s

live_here :
    (fuel now : ℕ) (id : String) (s : Authority)
    → live_loop (suc fuel) now id s ≡ some true
    → IsCurrent now id s
live_here fuel now id s h = elim (Option-cases (Dict.get id s.grants)) [
  | inl absent ↦ absurd (unfold live_loop in ground (arith, h, absent))
  | inr (g, there) ↦ record {
    grant = g;
    stored = there;
    unexpired = unfold live_loop in ground (arith, h, there);
    owned =
        same→eq (owner_of id s) (active_owner g s) (unfold live_loop in ground (arith, h, there));
  }
]

live_above :
    (fuel now : ℕ) (id parent : String) (s : Authority)
    → live_loop (suc fuel) now id s ≡ some true
    → Dict.get id s.grant_parents ≡ some parent
    → live_loop fuel now parent s ≡ some true
live_above fuel now id parent s h link = elim (Option-cases (Dict.get id s.grants)) [
  | inl absent ↦ absurd (unfold live_loop in ground (arith, h, absent))
  | inr (g, there) ↦ unfold live_loop in ground (arith, h, there, link)
]

live-Chain :
    (fuel now : ℕ) (id top : String) (ancestors : List String) (s : Authority)
    → live_loop fuel now id s ≡ some true
    → Chain s id ancestors top
    → IsCurrent now top s
live-Chain zero now id top ancestors s h c = absurd (unfold live_loop in ground (arith, h))
live-Chain (suc fuel) now id top [] s h c =
    subst (λ k. IsCurrent now k s) c (live_here fuel now id s h)
live-Chain (suc fuel) now id top (parent ∷ ancestors) s h c =
    live-Chain fuel now parent top ancestors s (live_above fuel now id parent s h c.0) c.1

-- A child grant resolves only while it and every ancestor are stored, unexpired and owned by the
-- activation that owns their product now.
pub resolve_child-IsCurrent :
    (now : ℕ) (id top : String) (ancestors : List String) (s : Authority) (g : CapabilityGrant)
    → resolve now id s ≡ some g
    → Dict.has id s.grant_parents ≡ true
    → Chain s id ancestors top
    → IsCurrent now top s
resolve_child-IsCurrent now id top ancestors s g h child c =
    elim (Option-cases (live_loop (chain_fuel s) now id s)) [
      | inl out ↦ absurd (unfold resolve grant_live in ground (arith, h, child, out))
      | inr (b, done) ↦
          live-Chain (chain_fuel s) now id top ancestors s
            (unfold resolve grant_live in ground (arith, h, child, done)) c
    ]

-- After any history of a new authority the loop over the ancestors of a grant ends within as many
-- passes as grants are stored, and one.
pub live_loop_ends :
    (ops : List Op) (now : ℕ) (id : String)
    → let s = run ops empty_authority in is_some (live_loop (chain_fuel s) now id s) ≡ true
live_loop_ends ops now id =
    chain_fuel-enough now id (run ops empty_authority) (run_empty-IsSound ops).ordered
