-- ===== src/Grants/Lineage.antt =====
-- Child grants and their parents: what a child may do, and that the links between them hold
-- through every call.
use suite_harness.Base.{
  ℕ, zero, suc, ◌≤◌, ◌≡◌, ◌≢◌, refl, ◌⊎◌, inl, inr, String, true, false, ◌||◌, Option, none, some,
  List, [], ◌∷◌, ◌++◌, arith, contains, is_some, string_eq, Option-cases, same_ne, ne_of_beq, subst,
}
use suite_harness.Base.Dict
use suite_harness.Base.Dict.{Dict, get-put, get-remove, get-put_ne, get-put_self}
use suite_harness.Base.KeySet.{discard, subset, contains-discard}
use suite_harness.Tools.{identity_eq}
use suite_harness.Grants.{Authority}
use suite_harness.Grants.Revoking.{
  members, discard_from, discard_owned, revoke_one, revoke_loop, revoke_subtree, total_children,
}
use suite_harness.Grants.Model.{CapabilityGrant}
use suite_harness.Grants.Loops.{revoke_loop-done}

-- The child may do no more than the parent, for the same product and no longer, and for the
-- parent's principal, if that has one.
pub record Attenuates (parent child : CapabilityGrant) : Type 0 where
  pub tenant : child.tenant_id ≡ parent.tenant_id
  pub product : child.product_id ≡ parent.product_id
  pub tools : subset child.tool_identities parent.tool_identities ≡ true
  pub capabilities : subset child.capabilities parent.capabilities ≡ true
  pub expiry : child.expires_at ≤ parent.expires_at
  pub principal : (parent.principal_id ≡ none) ⊎ (child.principal_id ≡ parent.principal_id)

abbrev pub AttenuatesAt : Option CapabilityGrant → Option CapabilityGrant → Type 0
AttenuatesAt (some parent) (some child) = Attenuates parent child
AttenuatesAt _ _ = ⊥

-- A grant at both ends of a link is stored.
pub linked_parent : (o q : Option CapabilityGrant) → AttenuatesAt o q → is_some o ≡ true
linked_parent (some a) (some b) h = refl
linked_parent (some a) none h = absurd h
linked_parent none q h = absurd h

-- The links between children and parents, but for the children that are pending.
pub record IsLinked (pending : List String) (s : Authority) : Type 0 where
  pub stored : (c p : String) → Dict.get c s.grant_parents ≡ some p → Dict.has c s.grants ≡ true
  pub listed :
      (c p : String)
      → Dict.get c s.grant_parents ≡ some p
      → contains c pending ≡ false
      → contains c (members p s.grant_children) ≡ true
  pub attenuated :
      (c p : String)
      → Dict.get c s.grant_parents ≡ some p
      → contains c pending ≡ false
      → AttenuatesAt (Dict.get p s.grants) (Dict.get c s.grants)

contains-append :
    (c : String) (xs ys : List String) → contains c (xs ++ ys) ≡ (contains c xs || contains c ys)
contains-append c [] ys = refl
contains-append c (x ∷ xs) ys = ground (arith, contains-append c xs ys)

-- Another child stays in the set that one child is discarded from.
members-discard_from :
    (k x p c : String) (d : Dict String (List String))
    → x ≢ c
    → contains c (members p d) ≡ true
    → contains c (members p (discard_from k x d)) ≡ true
unfolding discard_from
members-discard_from k x p c d n h = elim (Option-cases (Dict.get k d)) [
  | inl none_ ↦ ground (arith, none_, h)
  | inr (xs, found) ↦ ground (
    arith,
    found,
    h,
    same_ne x c n,
    string_eq.same_iff k p,
    contains-discard x c xs,
    get-remove k p d,
    get-put k p (discard x xs) d,
  )
]

members-discard_owned :
    (o : Option String) (x p c : String) (d : Dict String (List String))
    → x ≢ c
    → contains c (members p d) ≡ true
    → contains c (members p (discard_owned o x d)) ≡ true
members-discard_owned none x p c d n h = h
members-discard_owned (some k) x p c d n h = members-discard_from k x p c d n h

-- A child that is left after a pass, and its parent, which is left too unless the child is pending.
record Left (current c p : String) (pending : List String) (s : Authority) : Type 0 where
  parent : Dict.get c s.grant_parents ≡ some p
  other : current ≢ c
  waits : contains c (current ∷ pending) ≡ false
  parent_left : current ≢ p

left_parent :
    (current c p : String) (s : Authority)
    → Dict.get c (revoke_one current s).grant_parents ≡ some p
    → (Dict.get c s.grant_parents ≡ some p) × (current ≢ c)
unfolding revoke_one
left_parent current c p s h =
    let e = get-remove current c s.grant_parents in
    (ground (arith, h, e), ne_of_beq current c (ground (arith, h, e)))

child-Left :
    (current c p : String) (pending : List String) (s : Authority)
    → IsLinked (current ∷ pending) s
    → Dict.get c (revoke_one current s).grant_parents ≡ some p
    → contains c (members current s.grant_children ++ pending) ≡ false
    → Left current c p pending s
child-Left current c p pending s g h w =
    let (q, n) = left_parent current c p s h in
    let a = contains-append c (members current s.grant_children) pending in
    let waits : contains c (current ∷ pending) ≡ false =
      ground (arith, a, w, same_ne current c n) in
    let listed = g.listed c p q waits in
    record {
      parent = q;
      other = n;
      waits = waits;
      parent_left = λ e. ground (arith, a, w, listed, e);
    }

revoke_one-IsLinked :
    (current : String) (pending : List String) (s : Authority)
    → IsLinked (current ∷ pending) s
    → IsLinked (members current s.grant_children ++ pending) (revoke_one current s)
revoke_one-IsLinked current pending s g = record {
  stored = λ c p h.
      let (q, n) = left_parent current c p s h in
      unfold revoke_one in
      ground (arith, get-remove current c s.grants, same_ne current c n, g.stored c p q);
  listed = λ c p h w.
      let l = child-Left current c p pending s g h w in
      unfold revoke_one in
      members-discard_owned (Dict.get current s.grant_parents) current p c
        (Dict.remove current s.grant_children) l.other
        (ground (
          arith,
          get-remove current p s.grant_children,
          same_ne current p l.parent_left,
          g.listed c p l.parent l.waits,
        ));
  attenuated = λ c p h w.
      let l = child-Left current c p pending s g h w in
      unfold revoke_one in
      rw
        (
          get-remove current c s.grants,
          same_ne current c l.other,
          get-remove current p s.grants,
          same_ne current p l.parent_left,
        )
        (g.attenuated c p l.parent l.waits);
}

revoke_loop-IsLinked :
    (fuel : ℕ) (pending : List String) (s : Authority)
    → IsLinked pending s
    → IsLinked (revoke_loop fuel pending s).1 (revoke_loop fuel pending s).0
unfolding revoke_loop
revoke_loop-IsLinked zero pending s g = g
revoke_loop-IsLinked (suc fuel) [] s g = g
revoke_loop-IsLinked (suc fuel) (current ∷ pending) s g =
    revoke_loop-IsLinked fuel (members current s.grant_children ++ pending) (revoke_one current s)
      (revoke_one-IsLinked current pending s g)

pub revoke_subtree-IsLinked :
    (id : String) (s : Authority) → IsLinked [] s → IsLinked [] (revoke_subtree id s)
unfolding revoke_subtree
revoke_subtree-IsLinked id s g =
    let fuel : ℕ = suc (suc (total_children s.grant_children)) in
    let started : IsLinked (id ∷ []) s = record {
      stored = g.stored;
      listed = λ c p h w. g.listed c p h refl;
      attenuated = λ c p h w. g.attenuated c p h refl;
    } in
    let finished = revoke_loop-done fuel (id ∷ []) s (omega arith) in
    subst (λ pending. IsLinked pending (revoke_loop fuel (id ∷ []) s).0) finished
      (revoke_loop-IsLinked fuel (id ∷ []) s started)
