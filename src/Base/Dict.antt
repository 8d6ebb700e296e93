-- ===== src/Base/Dict.antt =====
-- Python's `dict`: an association list in insertion order. A write to a present key stays in its
-- place, a write to a new key goes to the end, and keys are distinct.
use suite_harness.Base.Tests.{if◌then◌else◌, is_some}
use suite_harness.Base.Equality.{HasEq, ◌==◌, same_ne, same_self, same_cases}
use suite_harness.Base.Lists.{length, keep, all}
use Prim.Native.Nat.{ℕ, suc, ◌+◌, ◌≤◌}
use mathlib.Core.Path.{◌≡◌, refl, sym}
use mathlib.Core.Logic.{◌≢◌, inl, inr}
use mathlib.Core.Bool.{Bool, true, false}
use mathlib.Core.Option.{Option, none, some}
use mathlib.Core.List.{List, [], ◌∷◌}
use native.Mathlib.Omega.{arith}

abbrev pub Dict {ℓ} : Type ℓ → Type ℓ → Type ℓ
Dict K V = List (K × V)

module _ {ℓ} {K V : Type ℓ} ⦃e : HasEq K⦄ where
  -- `d.get(k)`
  unfoldable pub get : K → Dict K V → Option V
  get k [] = none
  get k ((j, v) ∷ d) = if j == k then some v else get k d

  -- `k in d`
  abbrev pub has : K → Dict K V → Bool
  has k d = is_some (get k d)

  -- `d[k] = v`
  unfoldable pub put : K → V → Dict K V → Dict K V
  put k v [] = (k, v) ∷ []
  put k v ((j, w) ∷ d) = if j == k then (j, v) ∷ d else (j, w) ∷ put k v d

  -- `d.pop(k, None)`
  unfoldable pub remove : K → Dict K V → Dict K V
  remove k [] = []
  remove k ((j, w) ∷ d) = let rest = remove k d in if j == k then rest else (j, w) ∷ rest

  pub get-put :
      (k j : K) (v : V) (d : Dict K V) → get j (put k v d) ≡ (if k == j then some v else get j d)
  unfolding get put
  get-put k j v [] = refl
  get-put k j v ((i, w) ∷ d) =
      ground (arith, e.same_iff k j, e.same_iff i k, e.same_iff i j, get-put k j v d)

  pub get-remove :
      (k j : K) (d : Dict K V) → get j (remove k d) ≡ (if k == j then none else get j d)
  unfolding get remove
  get-remove k j [] = ground arith
  get-remove k j ((i, w) ∷ d) =
      ground (arith, e.same_iff k j, e.same_iff i k, e.same_iff i j, get-remove k j d)

  pub get-put_self : (k : K) (v : V) (d : Dict K V) → get k (put k v d) ≡ some v
  get-put_self k v d = ground (arith, get-put k k v d, e.same_iff k k)

  pub get-put_ne : (k j : K) (v : V) (d : Dict K V) → k ≢ j → get j (put k v d) ≡ get j d
  get-put_ne k j v d h = rw (get-put k j v d, same_ne k j h)

  pub get-remove_self : (k : K) (d : Dict K V) → get k (remove k d) ≡ none
  get-remove_self k d = ground (arith, get-remove k k d, e.same_iff k k)

  pub remove_absent : (k : K) (d : Dict K V) → has k d ≡ false → remove k d ≡ d
  unfolding get remove
  remove_absent k [] h = refl
  remove_absent k ((j, w) ∷ d) h = ground (arith, remove_absent k d)

  -- A new key that is written and removed again.
  pub remove-put : (k : K) (v : V) (d : Dict K V) → has k d ≡ false → remove k (put k v d) ≡ d
  unfolding get put remove
  remove-put k v [] h = ground (arith, e.same_iff k k)
  remove-put k v ((j, w) ∷ d) h = ground (arith, remove-put k v d)

  -- A write adds one entry exactly when the key is new.
  pub length-put :
      (k : K) (v : V) (d : Dict K V)
      → length (put k v d) ≡ (if has k d then length d else suc (length d))
  unfolding get put
  length-put k v [] = refl
  length-put k v ((j, w) ∷ d) = ground (arith, length-put k v d)

  pub length-remove-le : (k : K) (d : Dict K V) → length (remove k d) ≤ length d
  unfolding remove
  length-remove-le k [] = omega arith
  length-remove-le k ((j, w) ∷ d) = ground (arith, length-remove-le k d)

  pub length-remove-lt :
      (k : K) (d : Dict K V) → has k d ≡ true → suc (length (remove k d)) ≤ length d
  unfolding get remove
  length-remove-lt k [] h = absurd (ground (arith, h))
  length-remove-lt k ((j, w) ∷ d) h = ground (arith, h, length-remove-lt k d, length-remove-le k d)

  -- The number of entries whose key passes a test.
  abbrev pub count_keys : (K → Bool) → Dict K V → ℕ
  count_keys p d = length (keep (λ (e : K × V). p e.0) d)

  -- A write adds an entry that counts exactly when its key is new and passes the test.
  pub count_keys-put :
      (p : K → Bool) (k : K) (v : V) (d : Dict K V)
      → count_keys p (put k v d)
        ≡ (if has k d then count_keys p d else count_keys p d + (if p k then 1 else 0))
  unfolding get put
  count_keys-put p k v [] = ground arith
  count_keys-put p k v ((j, w) ∷ d) = ground (arith, e.same_iff j k, count_keys-put p k v d)

  -- A test of the items is kept by the writes of items that pass it, and by removals.
  pub all-put :
      (p : K × V → Bool) (k : K) (v : V) (d : Dict K V)
      → p (k, v) ≡ true
      → all p d ≡ true
      → all p (put k v d) ≡ true
  unfolding put
  all-put p k v [] h g = ground (arith, h)
  all-put p k v ((j, w) ∷ d) h g = elim (same_cases j k) [
    | inl s ↦ rw (s, same_self k) (ground (arith, h, g))
    | inr ne ↦ rw (same_ne j k ne) (ground (arith, g, all-put p k v d h))
  ]

  pub all-remove :
      (p : K × V → Bool) (k : K) (d : Dict K V) → all p d ≡ true → all p (remove k d) ≡ true
  unfolding remove
  all-remove p k [] g = refl
  all-remove p k ((j, w) ∷ d) g = ground (arith, g, all-remove p k d)

  pub all-get :
      (p : K × V → Bool) (k : K) (v : V) (d : Dict K V)
      → all p d ≡ true
      → get k d ≡ some v
      → p (k, v) ≡ true
  unfolding get
  all-get p k v [] g h = absurd (ground (arith, h))
  all-get p k v ((j, w) ∷ d) g h = elim (same_cases j k) [
    | inl s ↦
        let found : p (j, w) ≡ true = ground (arith, g) in
        let same : w ≡ v = ground (arith, h, rw s at (same_self j)) in rw (sym s, sym same) found
    | inr ne ↦ all-get p k v d (ground (arith, g)) (ground (arith, same_ne j k ne, h))
  ]

  abbrev pub HasDistinctKeys : Dict K V → Type 0
  HasDistinctKeys [] = Unit
  HasDistinctKeys ((k, v) ∷ d) = (has k d ≡ false) × HasDistinctKeys d

  pub put-HasDistinctKeys :
      (k : K) (v : V) (d : Dict K V) → HasDistinctKeys d → HasDistinctKeys (put k v d)
  unfolding put
  put-HasDistinctKeys k v [] h = (unfold get in refl, tt)
  put-HasDistinctKeys k v ((j, w) ∷ d) h = elim (same_cases j k) [
    | inl e ↦ let same : (j == k) ≡ true = rw e (same_self k) in rw same h
    | inr ne ↦
        let absent : has j (put k v d) ≡ false = rw (get-put_ne k j v d (λ e. ne (sym e))) h.0 in
        rw (same_ne j k ne) (absent, put-HasDistinctKeys k v d h.1)
  ]
