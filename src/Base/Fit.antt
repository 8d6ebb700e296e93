-- ===== src/Base/Fit.antt =====
-- Lists of distinct names beside the keys of a dict: how many there can be.
use Prim.Native.Nat.{suc, ◌≤◌}
use Prim.Native.String.{String}
use native.Mathlib.Omega.{arith}
use mathlib.Core.Path.{◌≡◌, refl, ap, sym, ◌∙◌}
use mathlib.Core.Logic.{inl, inr}
use mathlib.Core.Bool.{true}
use mathlib.Core.List.{List, [], ◌∷◌, map}
use suite_harness.Base.Tests.{Bool-cases}
use suite_harness.Base.Equality.{string_eq, same_cases, same_ne, same_self}
use suite_harness.Base.Lists.{length, contains}
use suite_harness.Base.Dict
use suite_harness.Base.Dict.{Dict, get-remove, length-remove-lt}
use suite_harness.Base.KeySet.{IsDistinct}

-- Distinct names that are all keys are at most as many as the keys.
pub distinct_fit :
    {V : Type 0} (xs : List String) (d : Dict String V)
    → IsDistinct xs
    → ((x : String) → contains x xs ≡ true → Dict.has x d ≡ true)
    → length xs ≤ length d
distinct_fit [] d h m = omega arith
distinct_fit (x ∷ xs) d h m =
    let mine : Dict.has x d ≡ true = m x (ground (arith, same_self x)) in
    let rest : length xs ≤ length (Dict.remove x d) =
      distinct_fit xs (Dict.remove x d) h.1
        (λ y n. ground (arith, n, m y, get-remove x y d, string_eq.same_iff x y, h.0)) in
    omega (arith, rest, length-remove-lt x d mine)

-- Distinct keys that are as many as the keys are all of them.
pub distinct_fill :
    {V : Type 0} (xs : List String) (d : Dict String V)
    → IsDistinct xs
    → ((x : String) → contains x xs ≡ true → Dict.has x d ≡ true)
    → length xs ≡ length d
    → (x : String) → Dict.has x d ≡ true
    → contains x xs ≡ true
distinct_fill xs d h m full x mine = elim (Bool-cases (contains x xs)) [
  | inl e ↦ e
  | inr e ↦
      let more : suc (length xs) ≤ length d =
        distinct_fit (x ∷ xs) d (e, h)
          (λ y n. elim (same_cases x y) [
            | inl s ↦ rw (sym s) mine
            | inr ne ↦ m y (ground (arith, n, same_ne x y ne))
          ]) in
      absurd (omega (arith, more, full))
]

abbrev as_keys : List String → Dict String String
as_keys = map (λ x. (x, x))

has-as_keys : (x : String) (ys : List String) → Dict.has x (as_keys ys) ≡ contains x ys
unfolding Dict.get
has-as_keys x [] = refl
has-as_keys x (y ∷ ys) = ground (arith, has-as_keys x ys)

length-as_keys : (ys : List String) → length (as_keys ys) ≡ length ys
length-as_keys [] = refl
length-as_keys (y ∷ ys) = ap suc (length-as_keys ys)

-- Distinct names that all stand in a list are at most as many as its length.
pub distinct_le :
    (xs ys : List String)
    → IsDistinct xs
    → ((x : String) → contains x xs ≡ true → contains x ys ≡ true)
    → length xs ≤ length ys
distinct_le xs ys h m =
    omega
      (arith, distinct_fit xs (as_keys ys) h (λ x n. has-as_keys x ys ∙ m x n), length-as_keys ys)
