-- ===== src/Grants/Issue.antt =====
-- What `issue_child` checks and writes, and the links after a grant is stored.
use suite_harness.Base.{
  ℕ, ◌+◌, min, ◌≡◌, ◌≢◌, refl, ap, sym, ◌∙◌, ◌⊎◌, inl, inr, String, true, false, ◌&&◌, ◌||◌, Option,
  none, some, List, [], arith, contains, ◌==◌, string_eq, pair_eq, option_eq, Option-cases, same→eq,
  same_cases, ok,
}
use suite_harness.Base.Dict
use suite_harness.Base.Dict.{Dict, get-put, get-remove, get-put_ne, get-put_self}
use suite_harness.Base.KeySet.{add, contains-add}
use suite_harness.Tools.{identity_eq}
use suite_harness.Grants.{
  Authority, add_to, store_grant, store_child, owner_of, ChildArgs, child_grant, grant_live,
  issue_child,
}
use suite_harness.Grants.Revoking.{members}
use suite_harness.Grants.Model.{CapabilityGrant}
use suite_harness.Grants.Lineage.{Attenuates, AttenuatesAt, IsLinked, linked_parent}

fresh_ne :
    (id k : String) (d : Dict String CapabilityGrant)
    → Dict.has id d ≡ false
    → Dict.has k d ≡ true
    → id ≢ k
fresh_ne id k d f h e = ground (arith, f, h, e)

pub store_grant-IsLinked :
    (g : CapabilityGrant) (owner : Option String) (s : Authority)
    → Dict.has g.grant_id s.grants ≡ false
    → IsLinked [] s
    → IsLinked [] (store_grant g owner s)
store_grant-IsLinked g owner s f l = record {
  stored = λ c p h.
      let n = fresh_ne g.grant_id c s.grants f (l.stored c p h) in
      rw (get-put_ne g.grant_id c g s.grants n) (l.stored c p h);
  listed = λ c p h w. l.listed c p h w;
  attenuated = λ c p h w.
      let a = l.attenuated c p h w in
      let n = fresh_ne g.grant_id c s.grants f (l.stored c p h) in
      let m =
        fresh_ne g.grant_id p s.grants f
          (linked_parent (Dict.get p s.grants) (Dict.get c s.grants) a) in
      rw (get-put_ne g.grant_id c g s.grants n, get-put_ne g.grant_id p g s.grants m) a;
}

members-add_to :
    (k x p c : String) (d : Dict String (List String))
    → contains c (members p (add_to k x d)) ≡ (((k == p) && (x == c)) || contains c (members p d))
unfolding add_to
members-add_to k x p c d = ground (
  arith,
  string_eq.same_iff k p,
  contains-add x c (members k d),
  get-put k p (add x (members k d)) d,
)

-- What is stored of a child grant.
store_child_writes :
    (parent_id : String) (g : CapabilityGrant) (s : Authority)
    → let s' = store_child parent_id g s in
      (Dict.get g.grant_id s'.grants ≡ some g)
      × (Dict.get g.grant_id s'.grant_parents ≡ some parent_id)
      × (contains g.grant_id (members parent_id s'.grant_children) ≡ true)
      × (owner_of g.grant_id s' ≡ owner_of parent_id s)
unfolding store_child
store_child_writes parent_id g s = (
  get-put_self g.grant_id g s.grants,
  get-put_self g.grant_id parent_id s.grant_parents,
  ground (
    arith,
    members-add_to parent_id g.grant_id parent_id g.grant_id s.grant_children,
    string_eq.same_iff parent_id parent_id,
    string_eq.same_iff g.grant_id g.grant_id,
  ),
  ap (λ (x : Option (Option String)). elim x [ none ↦ none | some o ↦ o ])
      (get-put_self g.grant_id (owner_of parent_id s) s.grant_owners),
)

store_child_others :
    (parent_id : String) (g : CapabilityGrant) (s : Authority) (k : String)
    → g.grant_id ≢ k
    → let s' = store_child parent_id g s in
      (Dict.get k s'.grants ≡ Dict.get k s.grants)
      × (Dict.get k s'.grant_parents ≡ Dict.get k s.grant_parents)
unfolding store_child
store_child_others parent_id g s k ne =
    (get-put_ne g.grant_id k g s.grants ne, get-put_ne g.grant_id k parent_id s.grant_parents ne)

-- What a call of `issue_child` that succeeded checked and returned.
pub record IsIssued (now : ℕ) (parent_id : String) (args : ChildArgs) (s s' : Authority)
    (g : CapabilityGrant) : Type 0 where
  pub parent : CapabilityGrant
  pub found : Dict.get parent_id s.grants ≡ some parent
  pub live : grant_live now parent_id s ≡ true
  pub free : Dict.has g.grant_id s.grants ≡ false
  pub grant : g ≡ child_grant now args parent
  pub id : g.grant_id ≡ args.drawn
  pub tools : g.tool_identities ≡ args.tool_identities
  pub capabilities : g.capabilities ≡ args.capabilities
  pub principal : g.principal_id ≡ some args.principal_id
  pub issued : g.issued_at ≡ now
  pub expires : g.expires_at ≡ min parent.expires_at (now + args.lifetime)
  pub attenuates : Attenuates parent g
  pub stored : Dict.get g.grant_id s'.grants ≡ some g
  pub linked : Dict.get g.grant_id s'.grant_parents ≡ some parent_id
  pub child_of : contains g.grant_id (members parent_id s'.grant_children) ≡ true
  pub same_owner : owner_of g.grant_id s' ≡ owner_of parent_id s
  pub others :
      (k : String)
      → g.grant_id ≢ k
      → (Dict.get k s'.grants ≡ Dict.get k s.grants)
        × (Dict.get k s'.grant_parents ≡ Dict.get k s.grant_parents)
  pub store : s' ≡ store_child parent_id g s

principal_kept :
    (o : Option String) (p : String)
    → (elim o [ none ↦ true | some q ↦ p == q ]) ≡ true
    → (o ≡ none) ⊎ (some p ≡ o)
principal_kept none p h = inl refl
principal_kept (some q) p h = inr (ap some (same→eq p q h))

child-IsIssued :
    (now : ℕ) (parent_id : String) (args : ChildArgs) (s s' : Authority)
    (g parent : CapabilityGrant)
    → Dict.get parent_id s.grants ≡ some parent
    → issue_child now parent_id args s ≡ ok (s', g)
    → IsIssued now parent_id args s s' g
child-IsIssued now parent_id args s s' g parent found h =
    let is_child : g ≡ child_grant now args parent =
      unfold issue_child in ground (arith, h, found) in
    let stores : s' ≡ store_child parent_id g s = unfold issue_child in ground (arith, h, found) in
    let w = store_child_writes parent_id g s in
    record {
      parent = parent;
      found = found;
      live = unfold issue_child in ground (arith, h, found);
      free = unfold issue_child in ground (arith, h, found);
      grant = is_child;
      attenuates = rw is_child (record {
        tenant = refl;
        product = refl;
        tools = unfold issue_child in ground (arith, h, found);
        capabilities = unfold issue_child in ground (arith, h, found);
        expiry = omega arith;
        principal =
            principal_kept parent.principal_id args.principal_id
              (unfold issue_child in ground (arith, h, found));
      });
      id = rw is_child refl;
      tools = rw is_child refl;
      capabilities = rw is_child refl;
      principal = rw is_child refl;
      issued = rw is_child refl;
      expires = rw is_child refl;
      stored = rw stores w.0;
      linked = rw stores w.1;
      child_of = rw stores w.2;
      same_owner = rw stores w.3;
      others = λ k ne. rw stores (store_child_others parent_id g s k ne);
      store = stores;
    }

-- A child grant that is issued has a parent that is stored and live, an id that was free, and the
-- fields that were asked for; it attenuates the parent. It is stored under its id with its link to the
-- parent, it is listed among the parent's children and has the parent's owner, and no other grant or
-- link is changed.
pub issue_child-IsIssued :
    (now : ℕ) (parent_id : String) (args : ChildArgs) (s s' : Authority) (g : CapabilityGrant)
    → issue_child now parent_id args s ≡ ok (s', g)
    → IsIssued now parent_id args s s' g
issue_child-IsIssued now parent_id args s s' g h =
    elim (Option-cases (Dict.get parent_id s.grants)) [
      | inl none_ ↦ absurd (unfold issue_child in ground (arith, h, none_))
      | inr (parent, found) ↦ child-IsIssued now parent_id args s s' g parent found h
    ]

child_listed :
    (now : ℕ) (parent_id : String) (args : ChildArgs) (s s' : Authority) (g : CapabilityGrant)
    (c p : String)
    → IsIssued now parent_id args s s' g
    → IsLinked [] s
    → Dict.get c (Dict.put g.grant_id parent_id s.grant_parents) ≡ some p
    → contains c (members p (add_to parent_id g.grant_id s.grant_children)) ≡ true
child_listed now parent_id args s s' g c p i l h = ground (
  arith,
  h,
  get-put g.grant_id c parent_id s.grant_parents,
  members-add_to parent_id g.grant_id p c s.grant_children,
  string_eq.same_iff parent_id p,
  l.listed c p,
)

child_attenuated :
    (now : ℕ) (parent_id : String) (args : ChildArgs) (s s' : Authority) (g : CapabilityGrant)
    (c p : String)
    → IsIssued now parent_id args s s' g
    → IsLinked [] s
    → Dict.get c (Dict.put g.grant_id parent_id s.grant_parents) ≡ some p
    → AttenuatesAt
        (Dict.get p (Dict.put g.grant_id g s.grants))
        (Dict.get c (Dict.put g.grant_id g s.grants))
child_attenuated now parent_id args s s' g c p i l h = elim (same_cases g.grant_id c) [
  | inl here ↦
      let is_parent : p ≡ parent_id =
        ground (arith, h, here, get-put_self g.grant_id parent_id s.grant_parents) in
      let n = fresh_ne g.grant_id parent_id s.grants i.free (ground (arith, i.found)) in
      rw
        (
          ← here,
          is_parent,
          get-put_self g.grant_id g s.grants,
          get-put_ne g.grant_id parent_id g s.grants n,
          i.found,
        )
        i.attenuates
  | inr other ↦
      let q : Dict.get c s.grant_parents ≡ some p =
        sym (get-put_ne g.grant_id c parent_id s.grant_parents other) ∙ h in
      (store_grant-IsLinked g none s i.free l).attenuated c p q refl
]

pub child-IsLinked :
    (now : ℕ) (parent_id : String) (args : ChildArgs) (s s' : Authority) (g : CapabilityGrant)
    → IsIssued now parent_id args s s' g
    → IsLinked [] s
    → IsLinked [] s'
child-IsLinked now parent_id args s s' g i l = rw i.store (
    unfold store_child in
    record {
      stored = λ c p h. ground (
        arith,
        h,
        get-put g.grant_id c parent_id s.grant_parents,
        get-put g.grant_id c g s.grants,
        l.stored c p,
      );
      listed = λ c p h w. child_listed now parent_id args s s' g c p i l h;
      attenuated = λ c p h w. child_attenuated now parent_id args s s' g c p i l h;
    })
