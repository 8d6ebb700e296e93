-- ===== src/ChannelPolicy/Paths.antt =====
-- The parts of a path that `_parts` accepts.
use suite_harness.Base.{
  ℕ, String, ◌≡◌, refl, inl, inr, Bool, true, false, none, some, List, [], ◌∷◌, ◌++◌, arith, any,
  All, length, ◌≤◌, ◌⊎◌, nat_beq, keep, Bool-cases, string_eq,
}
use suite_harness.Base.Json.{text}
use suite_harness.Base.Names.{codes}
use suite_harness.ChannelPolicy.{
  Part, part_beq, parts_beq, portable_of, cons_first, split, is_special, kept_in_path, raw_parts,
  parts_of_codes, parts,
}

pub part_beq→eq : (x y : Part) → part_beq x y ≡ true → x ≡ y
part_beq→eq [] [] h = refl
part_beq→eq [] (b ∷ y) h = absurd (ground arith)
part_beq→eq (a ∷ x) [] h = absurd (ground arith)
part_beq→eq (a ∷ x) (b ∷ y) h = ground (arith, part_beq→eq x y)

pub parts_beq→eq : (x y : List Part) → parts_beq x y ≡ true → x ≡ y
parts_beq→eq [] [] h = refl
parts_beq→eq [] (b ∷ y) h = absurd (ground arith)
parts_beq→eq (a ∷ x) [] h = absurd (ground arith)
parts_beq→eq (a ∷ x) (b ∷ y) h = ground (arith, part_beq→eq a b, parts_beq→eq x y)

-- A part without the code point `k`.
abbrev pub Lacks : ℕ → Part → Type 0
Lacks k p = any (nat_beq k) p ≡ false

pub record IsSafe (p : Part) : Type 0 where
  pub named : is_special p ≡ false
  pub no_slash : Lacks b'/' p
  pub no_backslash : Lacks b'\\' p
  pub no_nul : Lacks 0 p

cons_first-Lacks :
    (k c : ℕ) (ps : List Part)
    → nat_beq k c ≡ false
    → All (Lacks k) ps
    → All (Lacks k) (cons_first c ps)
cons_first-Lacks k c [] h a = ground arith
cons_first-Lacks k c (p ∷ ps) h a = (ground (arith, a.0), a.1)

split-Lacks : (k : ℕ) (cs : List ℕ) → any (nat_beq k) cs ≡ false → All (Lacks k) (split cs)
unfolding split
split-Lacks k [] h = (refl, tt)
split-Lacks k (c ∷ cs) h = elim (Bool-cases (nat_beq c b'/')) [
  | inl slash ↦ rw slash (refl, split-Lacks k cs (ground (arith, h)))
  | inr plain ↦
      rw plain
        (cons_first-Lacks k c (split cs) (ground (arith, h)) (split-Lacks k cs (ground (arith, h))))
]

split-no_slash : (cs : List ℕ) → All (Lacks b'/') (split cs)
unfolding split
split-no_slash [] = (refl, tt)
split-no_slash (c ∷ cs) = elim (Bool-cases (nat_beq c b'/')) [
  | inl slash ↦ rw slash (refl, split-no_slash cs)
  | inr plain ↦
      rw plain (cons_first-Lacks b'/' c (split cs) (ground (arith, plain)) (split-no_slash cs))
]

portable-no_backslash : (cs : List ℕ) → any (nat_beq b'\\') (portable_of cs) ≡ false
portable-no_backslash [] = refl
portable-no_backslash (c ∷ cs) = ground (arith, portable-no_backslash cs)

portable-no_nul :
    (cs : List ℕ) → any (nat_beq 0) cs ≡ false → any (nat_beq 0) (portable_of cs) ≡ false
portable-no_nul [] h = refl
portable-no_nul (c ∷ cs) h = ground (arith, portable-no_nul cs)

All-IsSafe :
    (ps : List Part)
    → any is_special ps ≡ false
    → All (Lacks b'/') ps
    → All (Lacks b'\\') ps
    → All (Lacks 0) ps
    → All IsSafe ps
All-IsSafe [] n s b z = tt
All-IsSafe (p ∷ ps) n s b z = (
  record { named = ground (arith, n); no_slash = s.0; no_backslash = b.0; no_nul = z.0 },
  All-IsSafe ps (ground (arith, n)) s.1 b.1 z.1,
)

-- The parts with a separator between them, which is the inverse of `split`.
abbrev pub join : List Part → List ℕ
join [] = []
join (p ∷ []) = p
join (p ∷ q ∷ ps) = p ++ (b'/' ∷ join (q ∷ ps))

join-cons_first : (c : ℕ) (ps : List Part) → join (cons_first c ps) ≡ c ∷ join ps
join-cons_first c [] = refl
join-cons_first c (p ∷ []) = refl
join-cons_first c (p ∷ q ∷ ps) = refl

join-slash : (ps : List Part) → 1 ≤ length ps → join ([] ∷ ps) ≡ b'/' ∷ join ps
join-slash [] h = absurd (omega arith)
join-slash (p ∷ ps) h = refl

cons_first-some : (c : ℕ) (ps : List Part) → 1 ≤ length (cons_first c ps)
cons_first-some c [] = omega arith
cons_first-some c (p ∷ ps) = omega arith

split-some : (cs : List ℕ) → 1 ≤ length (split cs)
unfolding split
split-some [] = omega arith
split-some (c ∷ cs) = ground (arith, cons_first-some c (split cs))

pub join-split : (cs : List ℕ) → join (split cs) ≡ cs
unfolding split
join-split [] = refl
join-split (c ∷ cs) = elim (Bool-cases (nat_beq c b'/')) [
  | inl slash ↦
      rw (slash, join-slash (split cs) (split-some cs), join-split cs) (ground (arith, slash))
  | inr plain ↦ rw (plain, join-cons_first c (split cs), join-split cs)
]

-- What an accepted path comes to: the root itself, or safe parts that make up the portable text.
pub record IsAccepted (value : List ℕ) (ps : List Part) : Type 0 where
  pub safe : All IsSafe ps
  pub whole : (ps ≡ []) ⊎ (join ps ≡ portable_of value)

raw_parts-IsAccepted :
    (value : List ℕ) (ps : List Part)
    → any (nat_beq 0) value ≡ false
    → raw_parts (portable_of value) ≡ some ps
    → IsAccepted value ps
raw_parts-IsAccepted value ps z h =
    let cs : List ℕ = portable_of value in
    let plain : any is_special (split cs) ≡ false = ground (arith, h) in
    let kept : ps ≡ split cs =
      ground (arith, h, parts_beq→eq (split cs) (keep kept_in_path (split cs))) in
    record {
      safe = rw kept (
          All-IsSafe (split cs) plain (split-no_slash cs)
            (split-Lacks b'\\' cs (portable-no_backslash value))
            (split-Lacks 0 cs (portable-no_nul value z)));
      whole = inr (rw (kept, join-split cs));
    }

codes-IsAccepted :
    (value : List ℕ) (allow_root : Bool) (ps : List Part)
    → parts_of_codes value allow_root ≡ some ps
    → IsAccepted value ps
unfolding parts_of_codes
codes-IsAccepted value allow_root ps h = elim (Bool-cases (any (nat_beq 0) value)) [
  | inl nul ↦ absurd (ground (arith, nul, h))
  | inr z ↦ elim (Bool-cases (part_beq (portable_of value) (b'.' ∷ []))) [
    | inl dot ↦
        let root : ps ≡ [] = ground (arith, z, dot, h) in
        rw root (record { safe = tt; whole = inl refl })
    | inr other ↦ raw_parts-IsAccepted value ps z (ground (arith, z, other, h))
  ]
]

-- A path that is accepted is the root, or the texts of its parts with a separator between them;
-- no part is empty, `.` or `..`, or holds a separator or the code point 0.
pub parts-IsAccepted :
    (s : String) (allow_root : Bool) (ps : List Part)
    → parts (text s) allow_root ≡ some ps
    → IsAccepted (codes s) ps
unfolding parts
parts-IsAccepted s allow_root ps h = go (codes s) h
  where
    go :
        (cs : List ℕ)
        → (elim cs [ [] ↦ none | c ∷ rest ↦ parts_of_codes (c ∷ rest) allow_root ]) ≡ some ps
        → IsAccepted cs ps
    go [] k = absurd (ground arith)
    go (c ∷ rest) k = codes-IsAccepted (c ∷ rest) allow_root ps k
