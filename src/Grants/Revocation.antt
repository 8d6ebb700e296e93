-- ===== src/Grants/Revocation.antt =====
-- What a revocation removes: the grant and the grants that were issued below it.
use suite_harness.Base.{
  ℕ, zero, suc, ◌≡◌, refl, sym, ◌∙◌, ◌⊎◌, inl, inr, String, false, some, List, [], ◌∷◌, ◌++◌, arith,
  string_eq, same_ne, same_cases, subst,
}
use suite_harness.Base.Dict
use suite_harness.Base.Dict.{Dict, get-remove, get-remove_self}
use suite_harness.Grants.{Authority}
use suite_harness.Grants.Revoking.{members, revoke_one, revoke_loop, revoke_subtree, total_children}
use suite_harness.Grants.Lineage.{IsLinked, linked_parent, revoke_subtree-IsLinked}

-- The ancestors of `child`, one after the other, up to `id`.
abbrev pub Chain : Authority → String → List String → String → Type 0
Chain s child [] id = child ≡ id
Chain s child (parent ∷ ancestors) id =
    (Dict.get child s.grant_parents ≡ some parent) × Chain s parent ancestors id

absent_stays :
    (fuel : ℕ) (pending : List String) (s : Authority) (c : String)
    → Dict.has c s.grants ≡ false
    → Dict.has c (revoke_loop fuel pending s).0.grants ≡ false
unfolding revoke_loop revoke_one
absent_stays zero pending s c h = h
absent_stays (suc fuel) [] s c h = h
absent_stays (suc fuel) (current ∷ pending) s c h =
    absent_stays fuel (members current s.grant_children ++ pending) (revoke_one current s) c
      (ground (arith, h, get-remove current c s.grants))

popped_absent :
    (current : String) (s : Authority) → Dict.has current (revoke_one current s).grants ≡ false
unfolding revoke_one
popped_absent current s = ground (arith, get-remove_self current s.grants)

-- A grant is gone, or its link to its parent is as it was.
gone_or_kept :
    (fuel : ℕ) (pending : List String) (s : Authority) (c : String)
    → let s' = (revoke_loop fuel pending s).0 in
      (Dict.has c s'.grants ≡ false) ⊎ (Dict.get c s'.grant_parents ≡ Dict.get c s.grant_parents)
unfolding revoke_loop
gone_or_kept zero pending s c = inr refl
gone_or_kept (suc fuel) [] s c = inr refl
gone_or_kept (suc fuel) (current ∷ pending) s c =
    let next : List String = members current s.grant_children ++ pending in
    elim (same_cases current c) [
      | inl here ↦ inl (
          absent_stays fuel next (revoke_one current s) c (
            subst (λ k. Dict.has k (revoke_one current s).grants ≡ false) here
              (popped_absent current s)))
      | inr other ↦ elim (gone_or_kept fuel next (revoke_one current s) c) [
        | inl gone ↦ inl gone
        | inr same ↦ inr (
            same
            ∙ (unfold revoke_one in
                ground (arith, get-remove current c s.grant_parents, same_ne current c other)))
      ]
    ]

root_removed : (id : String) (s : Authority) → Dict.has id (revoke_subtree id s).grants ≡ false
unfolding revoke_subtree revoke_loop
root_removed id s =
    absent_stays (suc (total_children s.grant_children)) (members id s.grant_children ++ [])
      (revoke_one id s) id (popped_absent id s)

pub Chain-removed :
    (s : Authority) (id child : String) (ancestors : List String)
    → IsLinked [] s
    → Chain s child ancestors id
    → Dict.has child (revoke_subtree id s).grants ≡ false
unfolding revoke_subtree
Chain-removed s id child [] l d =
    subst (λ k. Dict.has k (revoke_subtree id s).grants ≡ false) (sym d) (root_removed id s)
Chain-removed s id child (parent ∷ ancestors) l d =
    let above = Chain-removed s id parent ancestors l d.1 in
    let l' = revoke_subtree-IsLinked id s l in
    elim (gone_or_kept (suc (suc (total_children s.grant_children))) (id ∷ []) s child) [
      | inl gone ↦ gone
      | inr same ↦
          let there =
            linked_parent (Dict.get parent (revoke_subtree id s).grants)
              (Dict.get child (revoke_subtree id s).grants)
              (l'.attenuated child parent (same ∙ d.0) refl) in
          absurd (ground (arith, above, there))
    ]
