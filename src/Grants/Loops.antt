-- ===== src/Grants/Loops.antt =====
-- The loop of `_revoke_subtree_locked` and the fuel that it is given.
use suite_harness.Base.{
  ℕ, zero, suc, ◌+◌, ◌≤◌, ◌<◌, ◌≡◌, refl, inl, inr, String, Option, none, some, List, [], ◌∷◌, ◌++◌,
  arith, length, length-append, string_eq, Option-cases,
}
use suite_harness.Base.Dict
use suite_harness.Base.Dict.{Dict}
use suite_harness.Base.KeySet.{discard}
use suite_harness.Grants.{Authority}
use suite_harness.Grants.Revoking.{
  members, discard_from, discard_owned, revoke_one, revoke_loop, total_children,
}

total_children-remove :
    (k : String) (d : Dict String (List String))
    → total_children (Dict.remove k d) + length (members k d) ≤ total_children d
unfolding total_children Dict.remove Dict.get
total_children-remove k [] = omega arith
total_children-remove k ((j, xs) ∷ d) = ground (arith, total_children-remove k d)

total_children-put :
    (k : String) (xs : List String) (d : Dict String (List String))
    → total_children (Dict.put k xs d) + length (members k d) ≡ total_children d + length xs
unfolding total_children Dict.put Dict.get
total_children-put k xs [] = omega arith
total_children-put k xs ((j, ys) ∷ d) = ground (arith, total_children-put k xs d)

length-discard-le : (x : String) (xs : List String) → length (discard x xs) ≤ length xs
unfolding discard
length-discard-le x [] = omega arith
length-discard-le x (y ∷ ys) = ground (arith, length-discard-le x ys)

total_children-discard_from :
    (k x : String) (d : Dict String (List String))
    → total_children (discard_from k x d) ≤ total_children d
unfolding discard_from
total_children-discard_from k x d = elim (Option-cases (Dict.get k d)) [
  | inl none_ ↦ ground (arith, none_)
  | inr (xs, found) ↦ ground (
    arith,
    found,
    length-discard-le x xs,
    total_children-remove k d,
    total_children-put k (discard x xs) d,
  )
]

total_children-discard_owned :
    (o : Option String) (x : String) (d : Dict String (List String))
    → total_children (discard_owned o x d) ≤ total_children d
total_children-discard_owned none x d = omega arith
total_children-discard_owned (some k) x d = total_children-discard_from k x d

revoke_one-total_children :
    (current : String) (s : Authority)
    → total_children (revoke_one current s).grant_children
        + length (members current s.grant_children)
      ≤ total_children s.grant_children
unfolding revoke_one
revoke_one-total_children current s = omega (
  arith,
  total_children-remove current s.grant_children,
  total_children-discard_owned (Dict.get current s.grant_parents) current
      (Dict.remove current s.grant_children),
)

-- The loop ends with nothing pending when it has more fuel than there are pending ids and stored
-- children.
pub revoke_loop-done :
    (fuel : ℕ) (pending : List String) (s : Authority)
    → length pending + total_children s.grant_children < fuel
    → (revoke_loop fuel pending s).1 ≡ []
unfolding revoke_loop
revoke_loop-done zero pending s h = absurd (omega arith)
revoke_loop-done (suc fuel) [] s h = refl
revoke_loop-done (suc fuel) (current ∷ pending) s h =
    revoke_loop-done fuel (members current s.grant_children ++ pending) (revoke_one current s) (
      omega (
        arith,
        h,
        length-append (members current s.grant_children) pending,
        revoke_one-total_children current s,
      ))
