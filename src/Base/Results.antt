-- ===== src/Base/Results.antt =====
-- Exceptions as values, and arguments that the code checks for being integers.
use Prim.Native.Nat.{ℕ}
use mathlib.Core.Path.{◌≡◌, refl}
use mathlib.Core.Logic.{◌⊎◌, inl, inr}
use mathlib.Core.Bool.{Bool, true, false}

pub data Result {ℓ κ} (E : Type ℓ) (A : Type κ) : Type (ℓ ⊔ κ) where
  ok : A → Result E A
  err : E → Result E A

module _ {ℓ κ μ} {E : Type ℓ} {A : Type κ} {B : Type μ} where
  infixl 5 ◌>>=◌
  abbrev pub ◌>>=◌ : Result E A → (A → Result E B) → Result E B
  ok a >>= f = f a
  err e >>= f = err e

module _ {ℓ κ} {E : Type ℓ} {B : Type κ} where
  infixl 5 ◌>>◌
  abbrev pub ◌>>◌ : Result E (Unit {0}) → Result E B → Result E B
  m >> k = m >>= λ _. k

-- `if not test: raise e`
abbrev pub require {ℓ} : {E : Type ℓ} → Bool → E → Result E (Unit {0})
require true e = ok tt
require false e = err e

pub Result-cases {ℓ κ} :
    {E : Type ℓ} {A : Type κ} (r : Result E A) → ((a : A) × (r ≡ ok a)) ⊎ ((e : E) × (r ≡ err e))
Result-cases (ok a) = inl (a, refl)
Result-cases (err e) = inr (e, refl)

-- A computation that ends in a value of `Q` or in an exception of `P`.
abbrev pub Ends {ℓ κ μ} :
    {E : Type ℓ} {A : Type κ} → (E → Type μ) → (A → Type μ) → Result E A → Type μ
Ends P Q (ok a) = Q a
Ends P Q (err e) = P e

module _ {ℓ κ ι μ} {E : Type ℓ} {A : Type κ} {B : Type ι} (P : E → Type μ) (Q : A → Type μ)
    (R : B → Type μ) where
  pub Ends-bind :
      (r : Result E A) (f : A → Result E B)
      → Ends P Q r
      → ((a : A) → Q a → Ends P R (f a))
      → Ends P R (r >>= f)
  Ends-bind (ok a) f h k = k a h
  Ends-bind (err e) f h k = h

-- What a caller passes where the code wants a nonnegative integer: such a number, a negative one
-- (`negative n` is -(n + 1)), or a Boolean or another type.
pub data IntArg : Type 0 where
  nat : ℕ → IntArg
  negative : ℕ → IntArg
  not_int : IntArg
