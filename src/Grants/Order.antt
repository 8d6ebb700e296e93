-- ===== src/Grants/Order.antt =====
-- The order in which grants were stored, along which the loop of `_grant_live_locked` climbs.
use suite_harness.Base.{
  ℕ, zero, suc, ◌+◌, ◌<◌, ◌≡◌, ◌≢◌, refl, sym, ◌∙◌, inl, inr, String, Bool, true, false, Option,
  none, some, List, [], ◌∷◌, ◌++◌, arith, is_some, if◌then◌else◌, ◌==◌, string_eq, same_ne,
  same_cases, ne_of_beq, length, Option-cases,
}
use suite_harness.Base.Dict
use suite_harness.Base.Dict.{Dict, get-remove, get-put, get-put_ne, get-put_self}
use suite_harness.Grants.{Authority, store_grant, store_child, live_loop, chain_fuel, ChildArgs}
use suite_harness.Grants.Revoking.{members, revoke_one, revoke_loop, revoke_subtree, total_children}
use suite_harness.Grants.Model.{CapabilityGrant}
use suite_harness.Grants.Lineage.{IsLinked, linked_parent}
use suite_harness.Grants.Issue.{IsIssued}

abbrev Grants : Type 0
Grants = Dict String CapabilityGrant

-- `p` is a key, and `c` is a later one.
unfoldable pub precedes : String → String → Dict String CapabilityGrant → Bool
precedes p c [] = false
precedes p c ((j, g) ∷ d) =
    let rest = precedes p c d in if j == c then false else if j == p then Dict.has c d else rest

-- How many keys stand before `c`.
unfoldable pub index : String → Dict String CapabilityGrant → ℕ
index c [] = 0
index c ((j, g) ∷ d) = let rest = index c d in if j == c then 0 else suc rest

precedes-index : (p c : String) (d : Grants) → precedes p c d ≡ true → index p d < index c d
unfolding precedes index
precedes-index p c [] h = absurd (ground arith)
precedes-index p c ((j, g) ∷ d) h = ground (arith, precedes-index p c d)

index-length : (c : String) (d : Grants) → Dict.has c d ≡ true → index c d < length d
unfolding index Dict.get
index-length c [] h = absurd (ground arith)
index-length c ((j, g) ∷ d) h = ground (arith, index-length c d)

precedes-remove :
    (k p c : String) (d : Grants)
    → k ≢ p
    → k ≢ c
    → precedes p c d ≡ true
    → precedes p c (Dict.remove k d) ≡ true
unfolding precedes Dict.remove
precedes-remove k p c [] n m h = h
precedes-remove k p c ((j, g) ∷ d) n m h = ground (
  arith,
  h,
  string_eq.same_iff j k,
  string_eq.same_iff j p,
  string_eq.same_iff j c,
  precedes-remove k p c d n m,
  get-remove k c d,
  same_ne k c m,
)

precedes-put :
    (k p c : String) (g : CapabilityGrant) (d : Grants)
    → precedes p c d ≡ true
    → precedes p c (Dict.put k g d) ≡ true
unfolding precedes Dict.put
precedes-put k p c g [] h = absurd (ground arith)
precedes-put k p c g ((j, x) ∷ d) h =
    ground (arith, h, string_eq.same_iff j k, precedes-put k p c g d, get-put k c g d)

precedes-new :
    (p n : String) (g : CapabilityGrant) (d : Grants)
    → Dict.has p d ≡ true
    → Dict.has n d ≡ false
    → precedes p n (Dict.put n g d) ≡ true
unfolding precedes Dict.put Dict.get
precedes-new p n g [] h f = absurd (ground arith)
precedes-new p n g ((j, x) ∷ d) h f =
    ground (arith, h, f, string_eq.same_iff j n, precedes-new p n g d, get-put_self n g d)

-- A parent that is stored was stored before its child.
pub record IsOrdered (s : Authority) : Type 0 where
  pub before :
      (c p : String)
      → Dict.get c s.grant_parents ≡ some p
      → Dict.has p s.grants ≡ true
      → precedes p c s.grants ≡ true

pub put-IsOrdered :
    (g : CapabilityGrant) (owner : Option String) (s : Authority)
    → Dict.has g.grant_id s.grants ≡ false
    → IsLinked [] s
    → IsOrdered s
    → IsOrdered (store_grant g owner s)
put-IsOrdered g owner s f l o = record {
  before = λ c p h w.
      let there =
        linked_parent (Dict.get p s.grants) (Dict.get c s.grants) (l.attenuated c p h refl) in
      precedes-put g.grant_id p c g s.grants (o.before c p h there);
}

pub child-IsOrdered :
    (now : ℕ) (parent_id : String) (args : ChildArgs) (s s' : Authority) (g : CapabilityGrant)
    → IsIssued now parent_id args s s' g
    → IsLinked [] s
    → IsOrdered s
    → IsOrdered s'
child-IsOrdered now parent_id args s s' g i l o = rw i.store (
    unfold store_child in
    record {
      before = λ c p h w. elim (same_cases g.grant_id c) [
        | inl here ↦
            let is_parent : p ≡ parent_id =
              ground (arith, h, here, get-put_self g.grant_id parent_id s.grant_parents) in
            rw (← here, is_parent)
              (precedes-new parent_id g.grant_id g s.grants (ground (arith, i.found)) i.free)
        | inr other ↦
            (put-IsOrdered g none s i.free l o).before c p
              (sym (get-put_ne g.grant_id c parent_id s.grant_parents other) ∙ h) w
      ];
    })

revoke_one-IsOrdered :
    (current : String) (s : Authority) → IsOrdered s → IsOrdered (revoke_one current s)
unfolding revoke_one
revoke_one-IsOrdered current s o = record {
  before = λ c p h w.
      let e = get-remove current c s.grant_parents in
      let k = get-remove current p s.grants in
      precedes-remove current p c s.grants (ne_of_beq current p (ground (arith, w, k)))
        (ne_of_beq current c (ground (arith, h, e)))
        (o.before c p (ground (arith, h, e)) (ground (arith, w, k)));
}

revoke_loop-IsOrdered :
    (fuel : ℕ) (pending : List String) (s : Authority)
    → IsOrdered s
    → IsOrdered (revoke_loop fuel pending s).0
unfolding revoke_loop
revoke_loop-IsOrdered zero pending s o = o
revoke_loop-IsOrdered (suc fuel) [] s o = o
revoke_loop-IsOrdered (suc fuel) (current ∷ pending) s o =
    revoke_loop-IsOrdered fuel (members current s.grant_children ++ pending) (revoke_one current s)
      (revoke_one-IsOrdered current s o)

pub revoke_subtree-IsOrdered :
    (id : String) (s : Authority) → IsOrdered s → IsOrdered (revoke_subtree id s)
unfolding revoke_subtree
revoke_subtree-IsOrdered id s o =
    revoke_loop-IsOrdered (suc (suc (total_children s.grant_children))) (id ∷ []) s o

-- The loop ends when its fuel passes the place of the grant among the stored ones.
live_loop-ends :
    (fuel now : ℕ) (id : String) (s : Authority)
    → IsOrdered s
    → (if Dict.has id s.grants then index id s.grants + 1 else 0) < fuel
    → is_some (live_loop fuel now id s) ≡ true
unfolding live_loop
live_loop-ends zero now id s o h = absurd (omega arith)
live_loop-ends (suc fuel) now id s o h = elim (Option-cases (Dict.get id s.grants)) [
  | inl absent ↦ ground (arith, absent)
  | inr (g, there) ↦ elim (Option-cases (Dict.get id s.grant_parents)) [
    | inl root ↦ ground (arith, there, root)
    | inr (p, link) ↦
        let parent_ends : is_some (live_loop fuel now p s) ≡ true =
          live_loop-ends fuel now p s o
            (ground (arith, h, there, o.before id p link, precedes-index p id s.grants)) in
        ground (arith, there, link, parent_ends)
  ]
]

pub chain_fuel-enough :
    (now : ℕ) (id : String) (s : Authority)
    → IsOrdered s
    → is_some (live_loop (chain_fuel s) now id s) ≡ true
chain_fuel-enough now id s o =
    live_loop-ends (chain_fuel s) now id s o (ground (arith, index-length id s.grants))
