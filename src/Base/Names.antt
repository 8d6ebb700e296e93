-- ===== src/Base/Names.antt =====
-- The identifier patterns that the models check by `fullmatch`.
use Prim.Native.Char.{code}
use Prim.Native.Nat.{ℕ}
use Prim.Native.String.{String}
use mathlib.Core.Path.{◌≡◌, refl}
use native.Mathlib.Omega.{arith}
use mathlib.Core.Bool.{Bool, true, false, ◌&&◌, ◌||◌}
use mathlib.Core.List.{List, [], ◌∷◌}
use suite_harness.Base.KeySet.{IsDistinct}
use mathlib.Core.Logic.{inl, inr}
use suite_harness.Base.Tests.{Bool-cases, leb, ltb, nat_beq, if◌then◌else◌}
use suite_harness.Base.Equality.{◌==◌, string_eq}
use suite_harness.Base.Lists.{length, all, contains}

abbrev pub codes : String → List ℕ
codes String.[] = []
codes (String.◌∷◌ c s) = code c ∷ codes s

-- `[A-Za-z0-9]`
unfoldable pub is_alphanumeric : ℕ → Bool
is_alphanumeric c = leb b'A' c && leb c b'Z' || leb b'a' c && leb c b'z' || leb b'0' c && leb c b'9'

-- `[A-Za-z0-9._:-]`
unfoldable pub is_identifier_char : ℕ → Bool
unfolding is_alphanumeric
is_identifier_char c =
    is_alphanumeric c || nat_beq c b'.' || nat_beq c b'_' || nat_beq c b':' || nat_beq c b'-'

unfoldable pub is_identifier_codes : List ℕ → Bool
unfolding is_identifier_char
is_identifier_codes [] = false
is_identifier_codes (c ∷ rest) =
    is_alphanumeric c && all is_identifier_char rest && leb (length rest) 127

-- `^[A-Za-z0-9][A-Za-z0-9._:-]{0,127}$`
unfoldable pub is_identifier : String → Bool
unfolding is_identifier_codes
is_identifier s = is_identifier_codes (codes s)

-- `^[A-Za-z0-9_-]{32,256}$`
unfoldable pub is_owner_token : String → Bool
unfolding is_alphanumeric
is_owner_token s =
    all (λ c. is_alphanumeric c || nat_beq c b'_' || nat_beq c b'-') (codes s)
    && leb 32 (length (codes s))
    && leb (length (codes s)) 256

-- `x <= y` on texts, by their code points.
abbrev pub codes_le : List ℕ → List ℕ → Bool
codes_le [] ys = true
codes_le (x ∷ xs) [] = false
codes_le (x ∷ xs) (y ∷ ys) = ltb x y || nat_beq x y && codes_le xs ys

unfoldable pub insert_name : String → List String → List String
insert_name n [] = n ∷ []
insert_name n (m ∷ ms) =
    let rest = insert_name n ms in if codes_le (codes n) (codes m) then n ∷ m ∷ ms else m ∷ rest

-- `sorted(names)`, of texts
unfoldable pub sorted : List String → List String
unfolding insert_name
sorted [] = []
sorted (n ∷ ns) = insert_name n (sorted ns)

pub contains-insert_name :
    (n m : String) (ms : List String) → contains n (insert_name m ms) ≡ ((m == n) || contains n ms)
unfolding insert_name
contains-insert_name n m [] = ground arith
contains-insert_name n m (k ∷ ms) = ground (arith, contains-insert_name n m ms)

pub contains-sorted : (n : String) (ns : List String) → contains n (sorted ns) ≡ contains n ns
unfolding sorted
contains-sorted n [] = refl
contains-sorted n (m ∷ ms) =
    ground (arith, contains-insert_name n m (sorted ms), contains-sorted n ms)

pub insert_name-IsDistinct :
    (n : String) (ms : List String)
    → contains n ms ≡ false
    → IsDistinct ms
    → IsDistinct (insert_name n ms)
unfolding insert_name
insert_name-IsDistinct n [] h d = (refl, tt)
insert_name-IsDistinct n (m ∷ ms) h d = elim (Bool-cases (codes_le (codes n) (codes m))) [
  | inl e ↦ rw e (h, d)
  | inr e ↦
      let other : contains m (insert_name n ms) ≡ false = ground (
        arith,
        contains-insert_name m n ms,
        string_eq.same_iff n m,
        string_eq.same_iff m n,
        h,
        d.0,
      ) in
      rw e (other, insert_name-IsDistinct n ms (ground (arith, h)) d.1)
]

pub sorted-IsDistinct : (ns : List String) → IsDistinct ns → IsDistinct (sorted ns)
unfolding sorted
sorted-IsDistinct [] d = tt
sorted-IsDistinct (n ∷ ns) d =
    insert_name-IsDistinct n (sorted ns) (rw (contains-sorted n ns) d.0) (sorted-IsDistinct ns d.1)
