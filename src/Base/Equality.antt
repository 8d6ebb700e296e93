-- ===== src/Base/Equality.antt =====
-- Equality tests by instances: the numbers, the texts and the pairs of such.
use Prim.Native.Nat.{ℕ}
use Prim.Native.String.{String}
use mathlib.Core.Path.{◌≡◌, refl}
use mathlib.Core.Logic.{◌↔◌, ◌≢◌, ◌⊎◌, inl, inr}
use mathlib.Core.Bool.{Bool, true, false, ◌&&◌}
use mathlib.Core.Option.{Option, none, some}
use native.Mathlib.Omega.{arith}
use text.Mathlib.Text.{◌==◌ as str_eq}
use text.Mathlib.TextEquality.{eq_iff}
use suite_harness.Base.Tests.{nat_beq, nat_beq_iff, Bool-cases}

-- A type whose values Python compares by `==`.
pub record HasEq {ℓ} (K : Type ℓ) : Type ℓ where
  pub same : K → K → Bool
  pub same_iff : (k j : K) → (same k j ≡ true) ↔ (k ≡ j)

infix 50 ◌==◌
abbrev pub ◌==◌ {ℓ} : {K : Type ℓ} ⦃e : HasEq K⦄ → K → K → Bool
◌==◌ ⦃e⦄ k j = e.same k j

instance abbrev pub string_eq : HasEq String
string_eq = record { same = str_eq; same_iff = eq_iff }

instance abbrev pub nat_eq : HasEq ℕ
nat_eq = record { same = nat_beq; same_iff = nat_beq_iff }

module _ {ℓ} {A : Type ℓ} ⦃e : HasEq A⦄ where
  pub same_self : (a : A) → (a == a) ≡ true
  same_self a = (e.same_iff a a).1 refl

  pub same→eq : (a b : A) → (a == b) ≡ true → a ≡ b
  same→eq a b h = (e.same_iff a b).0 h

  pub same_ne : (a b : A) → a ≢ b → (a == b) ≡ false
  same_ne a b h = ground (arith, e.same_iff a b)

  pub ne_of_beq : (a b : A) → (a == b) ≡ false → a ≢ b
  ne_of_beq a b h p = ground (arith, e.same_iff a b)

module _ {ℓ} {A : Type ℓ} ⦃e : HasEq A⦄ where
  pub same_cases : (a b : A) → (a ≡ b) ⊎ (a ≢ b)
  same_cases a b = elim (Bool-cases (a == b)) [
    | inl p ↦ inl ((e.same_iff a b).0 p)
    | inr n ↦ inr (ne_of_beq a b n)
  ]

module _ {ℓ κ} {A : Type ℓ} {B : Type κ} ⦃e : HasEq A⦄ ⦃f : HasEq B⦄ where
  abbrev pub pair_beq : A × B → A × B → Bool
  pair_beq p q = (p.0 == q.0) && (p.1 == q.1)

  pub pair_beq_iff : (p q : A × B) → (pair_beq p q ≡ true) ↔ (p ≡ q)
  pair_beq_iff (a, b) (c, d) = ground (arith, e.same_iff a c, f.same_iff b d)

  instance abbrev pub pair_eq : HasEq (A × B)
  pair_eq = record { same = pair_beq; same_iff = pair_beq_iff }

module _ {ℓ} {A : Type ℓ} ⦃e : HasEq A⦄ where
  abbrev pub option_beq : Option A → Option A → Bool
  option_beq none none = true
  option_beq (some a) (some b) = a == b
  option_beq _ _ = false

  pub option_beq_iff : (o p : Option A) → (option_beq o p ≡ true) ↔ (o ≡ p)
  option_beq_iff none none = ground arith
  option_beq_iff none (some b) = ground arith
  option_beq_iff (some a) none = ground arith
  option_beq_iff (some a) (some b) = ground (arith, e.same_iff a b)

  instance abbrev pub option_eq : HasEq (Option A)
  option_eq = record { same = option_beq; same_iff = option_beq_iff }
