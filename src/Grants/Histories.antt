-- ===== src/Grants/Histories.antt =====
-- Histories of the capability authority: its calls in any order.
use suite_harness.Base.{
  ℕ, ◌≡◌, refl, inl, inr, String, true, false, not, Option, some, List, [], ◌∷◌, arith, keep,
  if◌then◌else◌, ◌==◌, string_eq, Option-cases, Bool-cases, Result, Result-cases, ok, err,
}
use suite_harness.Base.Dict
use suite_harness.Base.Dict.{Dict}
use suite_harness.Scopes.{ScopePath}
use suite_harness.Tools.{ToolIdentity, identity_eq}
use suite_harness.Grants.{
  Authority, empty_authority, register, issue, issue_child, ChildArgs, grant_scope, store_grant,
  active_owner,
}
use suite_harness.Grants.Revoking.{
  members, revoke, revoke_subtree, revoke_all, bind_activation, release_activation,
}
use suite_harness.Grants.Model.{CapabilityGrant, GrantError}
use suite_harness.Grants.Lineage.{AttenuatesAt, IsLinked, revoke_subtree-IsLinked}
use suite_harness.Grants.Revocation.{Chain, Chain-removed}
use suite_harness.Grants.Order.{IsOrdered, put-IsOrdered, child-IsOrdered, revoke_subtree-IsOrdered}
use suite_harness.Grants.Issue.{
  IsIssued, store_grant-IsLinked, issue_child-IsIssued, child-IsLinked,
}

pub data Op : Type 0 where
  registers : CapabilityGrant → Op
  issues : ℕ → ScopePath → List ToolIdentity → List String → Option String → ℕ → String → Op
  issues_child : ℕ → String → ChildArgs → Op
  revokes : String → Op
  binds : String → List String → String → Op
  releases : String → Op

-- The authority after a call: one that raises leaves it as it was.
abbrev pub or_same : Authority → Result GrantError Authority → Authority
or_same s (ok s') = s'
or_same s (err e) = s

abbrev pub first_or_same : Authority → Result GrantError (Authority × CapabilityGrant) → Authority
first_or_same s (ok (s', g)) = s'
first_or_same s (err e) = s

unfoldable pub step : Op → Authority → Authority
step (registers g) s = or_same s (register g s)
step (issues now scope tools caps principal lifetime drawn) s =
    first_or_same s (issue now scope tools caps principal lifetime drawn s)
step (issues_child now parent args) s = first_or_same s (issue_child now parent args s)
step (revokes id) s = (revoke id s).0
step (binds tenant products owner) s = or_same s (bind_activation tenant products owner s)
step (releases owner) s = release_activation owner s

unfoldable pub run : List Op → Authority → Authority
run [] s = s
run (op ∷ ops) s = run ops (step op s)

-- The links hold, and they go from later grants to earlier ones.
pub record IsSound (s : Authority) : Type 0 where
  pub linked : IsLinked [] s
  pub ordered : IsOrdered s

store_grant-IsSound :
    (g : CapabilityGrant) (owner : Option String) (s : Authority)
    → Dict.has g.grant_id s.grants ≡ false
    → IsSound s
    → IsSound (store_grant g owner s)
store_grant-IsSound g owner s f l = record {
  linked = store_grant-IsLinked g owner s f l.linked;
  ordered = put-IsOrdered g owner s f l.linked l.ordered;
}

child-IsSound :
    (now : ℕ) (parent : String) (args : ChildArgs) (s s' : Authority) (g : CapabilityGrant)
    → IsIssued now parent args s s' g
    → IsSound s
    → IsSound s'
child-IsSound now parent args s s' g i l = record {
  linked = child-IsLinked now parent args s s' g i l.linked;
  ordered = child-IsOrdered now parent args s s' g i l.linked l.ordered;
}

revoke_subtree-IsSound : (id : String) (s : Authority) → IsSound s → IsSound (revoke_subtree id s)
revoke_subtree-IsSound id s l = record {
  linked = revoke_subtree-IsLinked id s l.linked;
  ordered = revoke_subtree-IsOrdered id s l.ordered;
}

-- Calls that leave the grants and their links alone.
same_links :
    (s s' : Authority)
    → s'.grants ≡ s.grants
    → s'.grant_parents ≡ s.grant_parents
    → s'.grant_children ≡ s.grant_children
    → IsSound s
    → IsSound s'
same_links s s' g p c l = record {
  linked = record {
    stored = λ x y h. ground (arith, h, g, p, l.linked.stored x y);
    listed = λ x y h w. ground (arith, h, p, c, l.linked.listed x y);
    attenuated = λ x y h w. rw g (l.linked.attenuated x y (ground (arith, h, p)) refl);
  };
  ordered = record {
    before = λ x y h w. rw g (l.ordered.before x y (ground (arith, h, p)) (ground (arith, w, g)));
  };
}

register-IsSound :
    (g : CapabilityGrant) (s s' : Authority) → register g s ≡ ok s' → IsSound s → IsSound s'
register-IsSound g s s' h l =
    let free : Dict.has g.grant_id s.grants ≡ false = unfold register in ground (arith, h) in
    let is_put : s' ≡ store_grant g (active_owner g s) s = unfold register in ground (arith, h) in
    rw is_put (store_grant-IsSound g (active_owner g s) s free l)

issue_registers :
    (now : ℕ) (scope : ScopePath) (tools : List ToolIdentity) (caps : List String)
    (principal : Option String) (lifetime : ℕ) (drawn : String) (s s' : Authority)
    (g : CapabilityGrant)
    → issue now scope tools caps principal lifetime drawn s ≡ ok (s', g)
    → register g s ≡ ok s'
issue_registers now scope tools caps principal lifetime drawn s s' g h =
    elim (Option-cases (grant_scope scope)) [
      | inl none_ ↦ absurd (unfold issue in ground (arith, h, none_))
      | inr ((t, p), there) ↦ unfold issue register in ground (arith, h, there)
    ]

revoke-IsSound : (id : String) (s : Authority) → IsSound s → IsSound (revoke id s).0
unfolding revoke
revoke-IsSound id s l = elim (Bool-cases (Dict.has id s.grants)) [
  | inl there ↦ rw there (revoke_subtree-IsSound id s l)
  | inr absent ↦ rw absent l
]

revoke_all-IsSound : (ids : List String) (s : Authority) → IsSound s → IsSound (revoke_all ids s)
unfolding revoke_all
revoke_all-IsSound [] s l = l
revoke_all-IsSound (id ∷ ids) s l =
    revoke_all-IsSound ids (if Dict.has id s.grants then revoke_subtree id s else s)
      (revoke_if id s l)
  where
    revoke_if :
        (id : String) (s : Authority)
        → IsSound s
        → IsSound (if Dict.has id s.grants then revoke_subtree id s else s)
    revoke_if id s l = elim (Bool-cases (Dict.has id s.grants)) [
      | inl there ↦ rw there (revoke_subtree-IsSound id s l)
      | inr absent ↦ rw absent l
    ]

step-IsSound : (op : Op) (s : Authority) → IsSound s → IsSound (step op s)
unfolding step
step-IsSound (registers g) s l = elim (Result-cases (register g s)) [
  | inl (s', good) ↦ rw good (register-IsSound g s s' good l)
  | inr (e, bad) ↦ rw bad l
]
step-IsSound (issues now scope tools caps principal lifetime drawn) s l =
    elim (Result-cases (issue now scope tools caps principal lifetime drawn s)) [
      | inl ((s', g), good) ↦ rw good (
          register-IsSound g s s'
            (issue_registers now scope tools caps principal lifetime drawn s s' g good) l)
      | inr (e, bad) ↦ rw bad l
    ]
step-IsSound (issues_child now parent args) s l =
    elim (Result-cases (issue_child now parent args s)) [
      | inl ((s', g), good) ↦ rw good (
          child-IsSound now parent args s s' g (issue_child-IsIssued now parent args s s' g good) l)
      | inr (e, bad) ↦ rw bad l
    ]
step-IsSound (revokes id) s l = revoke-IsSound id s l
step-IsSound (binds tenant products owner) s l =
    elim (Result-cases (bind_activation tenant products owner s)) [
      | inl (s', good) ↦ rw good (
          same_links s s' (unfold bind_activation in ground (arith, good))
            (unfold bind_activation in ground (arith, good))
            (unfold bind_activation in ground (arith, good)) l)
      | inr (e, bad) ↦ rw bad l
    ]
step-IsSound (releases owner) s l =
    let kept : Dict (String × String) String =
      keep (λ (e : (String × String) × String). not (e.1 == owner)) s.active_owners in
    let s0 : Authority = record s { active_owners = kept } in
    let s1 : Authority = revoke_all (members owner s.owner_grants) s0 in
    unfold release_activation in
    same_links s1 (record s1 { owner_grants = Dict.remove owner s1.owner_grants }) refl refl refl
      (revoke_all-IsSound (members owner s.owner_grants) s0 (same_links s s0 refl refl refl l))

run-IsSound : (ops : List Op) (s : Authority) → IsSound s → IsSound (run ops s)
unfolding run
run-IsSound [] s l = l
run-IsSound (op ∷ ops) s l = run-IsSound ops (step op s) (step-IsSound op s l)

empty-IsSound : IsSound empty_authority
unfolding Dict.get
empty-IsSound = record {
  linked = record {
    stored = λ c p h. absurd (ground arith);
    listed = λ c p h w. absurd (ground arith);
    attenuated = λ c p h w. absurd (ground arith);
  };
  ordered = record { before = λ c p h w. absurd (ground arith) };
}

pub run_empty-IsSound : (ops : List Op) → IsSound (run ops empty_authority)
run_empty-IsSound ops = run-IsSound ops empty_authority empty-IsSound

-- After any history of a new authority, whoever registers, issues, revokes, binds and releases: a
-- grant that was issued from a parent is stored only while its parent is, and it is for the same
-- tenant and product, adds no tool and no capability, expires no later, and is for the parent's
-- principal, if that has one.
pub child_attenuates :
    (ops : List Op) (child parent : String)
    → Dict.get child (run ops empty_authority).grant_parents ≡ some parent
    → AttenuatesAt
        (Dict.get parent (run ops empty_authority).grants)
        (Dict.get child (run ops empty_authority).grants)
child_attenuates ops child parent h = (run_empty-IsSound ops).linked.attenuated child parent h refl

-- After any history of a new authority, revoking a grant removes it and every grant below it.
pub revoke_removes_descendants :
    (ops : List Op) (id child : String) (ancestors : List String)
    → Chain (run ops empty_authority) child ancestors id
    → Dict.has id (run ops empty_authority).grants ≡ true
    → Dict.has child (revoke id (run ops empty_authority)).0.grants ≡ false
unfolding revoke
revoke_removes_descendants ops id child ancestors d h =
    rw h
      (Chain-removed (run ops empty_authority) id child ancestors (run_empty-IsSound ops).linked d)
