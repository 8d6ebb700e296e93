-- ===== src/Grants/Revoking.antt =====
-- src/suiteharness/execution/in_memory.py: revocation and the activations that own products.
use suite_harness.Base.{
  ℕ, zero, suc, String, Bool, true, false, ◌&&◌, not, Option, none, some, List, [], ◌∷◌, ◌++◌, map,
  ltb, if◌then◌else◌, ◌==◌, string_eq, pair_eq, option_eq, length, keep, any, sum, Result, ok, ◌>>◌,
  require,
}
use suite_harness.Base.Dict
use suite_harness.Base.Dict.{Dict}
use suite_harness.Base.KeySet.{discard}
use suite_harness.Tools.{identity_eq}
use suite_harness.Grants.Model.{GrantError, value_error}
use suite_harness.Grants.{Authority, owner_of}

abbrev pub members : String → Dict String (List String) → List String
members k d = elim (Dict.get k d) [ none ↦ [] | some xs ↦ xs ]

-- `d[k].discard(x)`, with an empty set popped, where there is a set.
unfoldable pub discard_from :
    String → String → Dict String (List String) → Dict String (List String)
discard_from k x d = elim (Dict.get k d) [
  | none ↦ d
  | some xs ↦ elim (discard x xs) [ [] ↦ Dict.remove k d | y ∷ ys ↦ Dict.put k (y ∷ ys) d ]
]

abbrev pub discard_owned :
    Option String → String → Dict String (List String) → Dict String (List String)
discard_owned none x d = d
discard_owned (some k) x d = discard_from k x d

-- One pass of the loop of `_revoke_subtree_locked`, for the id that it popped, after its children
-- were taken out.
unfoldable pub revoke_one : String → Authority → Authority
unfolding discard_from
revoke_one current s =
    let without : Dict String (List String) = Dict.remove current s.grant_children in
    record s {
      grants = Dict.remove current s.grants;
      grant_owners = Dict.remove current s.grant_owners;
      owner_grants = discard_owned (owner_of current s) current s.owner_grants;
      grant_parents = Dict.remove current s.grant_parents;
      grant_children = discard_owned (Dict.get current s.grant_parents) current without;
    }

-- The loop on fuel, with the ids that are still pending when it stops. A set is read in the order
-- of its list.
unfoldable pub revoke_loop : ℕ → List String → Authority → Authority × List String
revoke_loop zero pending s = (s, pending)
revoke_loop (suc fuel) [] s = (s, [])
revoke_loop (suc fuel) (current ∷ pending) s =
    revoke_loop fuel (members current s.grant_children ++ pending) (revoke_one current s)

-- The ids that the sets of children hold.
unfoldable pub total_children : Dict String (List String) → ℕ
total_children d = sum (map (λ (e : String × List String). length e.1) d)

-- `_revoke_subtree_locked`, with one pass for the grant and one for every stored child.
unfoldable pub revoke_subtree : String → Authority → Authority
unfolding revoke_loop revoke_one
revoke_subtree grant_id s =
    (revoke_loop (suc (suc (total_children s.grant_children))) (grant_id ∷ []) s).0

unfoldable pub revoke : String → Authority → Authority × Bool
unfolding revoke_subtree
revoke grant_id s =
    if Dict.has grant_id s.grants then (revoke_subtree grant_id s, true) else (s, false)

abbrev pub all_distinct : List String → Bool
all_distinct [] = true
all_distinct (x ∷ xs) = not (any (λ y. x == y) xs) && all_distinct xs

-- The loop that gives every product to the owner.
unfoldable pub own_products :
    String → List String → String → Dict (String × String) String → Dict (String × String) String
own_products tenant [] owner d = d
own_products tenant (p ∷ ps) owner d = own_products tenant ps owner (Dict.put (tenant, p) owner d)

unfoldable pub bind_activation :
    String → List String → String → Authority → Result GrantError Authority
unfolding own_products
bind_activation tenant products owner s = do
  require (not (owner == "")) value_error
  require (ltb 0 (length products) && all_distinct products) value_error
  require (not (any (λ (p : String). Dict.has (tenant, p) s.active_owners) products)) value_error
  ok (record s {
    active_owners = own_products tenant products owner s.active_owners;
    owner_grants = Dict.put owner (members owner s.owner_grants) s.owner_grants;
  })

-- The loop of `release_activation` over the grants that it found.
unfoldable pub revoke_all : List String → Authority → Authority
unfolding revoke_subtree
revoke_all [] s = s
revoke_all (g ∷ gs) s =
    let s' = if Dict.has g s.grants then revoke_subtree g s else s in revoke_all gs s'

unfoldable pub release_activation : String → Authority → Authority
unfolding revoke_all
release_activation owner s =
    let kept = keep (λ (e : (String × String) × String). not (e.1 == owner)) s.active_owners in
    let s' = revoke_all (members owner s.owner_grants) (record s { active_owners = kept }) in
    record s' { owner_grants = Dict.remove owner s'.owner_grants }
