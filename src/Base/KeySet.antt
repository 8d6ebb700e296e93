-- ===== src/Base/KeySet.antt =====
-- Python's `set` of keys, as a list without repetitions.
use suite_harness.Base.Tests.{if◌then◌else◌}
use suite_harness.Base.Equality.{HasEq, ◌==◌}
use suite_harness.Base.Lists.{contains}
use mathlib.Core.Path.{◌≡◌}
use mathlib.Core.Bool.{Bool, true, false, ◌||◌, ◌&&◌}
use mathlib.Core.List.{List, [], ◌∷◌}
use native.Mathlib.Omega.{arith}

module _ {ℓ} {A : Type ℓ} ⦃e : HasEq A⦄ where
  -- `s.add(a)`
  unfoldable pub add : A → List A → List A
  add a s = if contains a s then s else a ∷ s

  -- `s.discard(a)`
  unfoldable pub discard : A → List A → List A
  discard a [] = []
  discard a (x ∷ s) = let rest = discard a s in if x == a then rest else x ∷ rest

  -- `s <= t`
  abbrev pub subset : List A → List A → Bool
  subset [] t = true
  subset (x ∷ s) t = contains x t && subset s t

  abbrev pub IsDistinct : List A → Type 0
  IsDistinct [] = Unit
  IsDistinct (x ∷ s) = (contains x s ≡ false) × IsDistinct s

  pub contains-add : (a b : A) (s : List A) → contains b (add a s) ≡ ((a == b) || contains b s)
  unfolding add
  contains-add a b s = ground (arith, e.same_iff a b)

  pub add-IsDistinct : (a : A) (s : List A) → IsDistinct s → IsDistinct (add a s)
  unfolding add
  add-IsDistinct a s h = ground arith

  pub contains-discard :
      (a b : A) (s : List A) → contains b (discard a s) ≡ (if a == b then false else contains b s)
  unfolding discard
  contains-discard a b [] = ground arith
  contains-discard a b (x ∷ s) =
      ground (arith, e.same_iff a b, e.same_iff x a, e.same_iff x b, contains-discard a b s)

  pub contains_of_subset :
      (a : A) (s t : List A) → subset s t ≡ true → contains a s ≡ true → contains a t ≡ true
  contains_of_subset a [] t h m = ground arith
  contains_of_subset a (x ∷ s) t h m = ground (arith, e.same_iff x a, contains_of_subset a s t)
