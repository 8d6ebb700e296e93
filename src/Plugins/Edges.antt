-- ===== src/Plugins/Edges.antt =====
-- The edges of the dependency graph, counted.
use suite_harness.Base.{
  ℕ, ◌+◌, String, ◌≡◌, refl, ap, sym, ◌∙◌, inl, inr, Bool, true, false, ◌&&◌, not, none, some, List,
  [], ◌∷◌, arith, contains, ◌==◌, string_eq, Bool-cases, same_cases, same_self, same_ne,
}
use suite_harness.Base.Dict
use suite_harness.Base.Dict.{Dict, get-put, HasDistinctKeys, put-HasDistinctKeys}
use suite_harness.Base.KeySet.{add}

abbrev pub Outgoing : Type 0
Outgoing = Dict String (List String)

abbrev pub one_if : Bool → ℕ
one_if true = 1
one_if false = 0

-- How many plugins outside `order` have `c` among their consumers.
abbrev pub open_count : List String → String → Outgoing → ℕ
open_count order c [] = 0
open_count order c ((p, cs) ∷ d) =
    one_if (contains c cs && not (contains p order)) + open_count order c d

-- `c` depends on `p`
abbrev pub depends : String → String → Outgoing → Bool
depends c p d = elim (Dict.get p d) [ none ↦ false | some cs ↦ contains c cs ]

pub open_count-absent :
    (order : List String) (p c : String) (d : Outgoing)
    → Dict.has p d ≡ false
    → open_count (p ∷ order) c d ≡ open_count order c d
unfolding Dict.get
open_count-absent order p c [] h = refl
open_count-absent order p c ((q, cs) ∷ d) h =
    ground (arith, h, string_eq.same_iff p q, string_eq.same_iff q p, open_count-absent order p c d)

-- Taking a plugin lowers the count of each of its consumers by one.
pub open_count-take :
    (order : List String) (p c : String) (d : Outgoing)
    → HasDistinctKeys d
    → contains p order ≡ false
    → open_count order c d ≡ open_count (p ∷ order) c d + one_if (depends c p d)
unfolding Dict.get
open_count-take order p c [] k h = refl
open_count-take order p c ((q, cs) ∷ d) k h = elim (same_cases q p) [
  | inl e ↦
      let present : contains q order ≡ false = ap (λ x. contains x order) e ∙ h in
      let same : (q == p) ≡ true = rw e (same_self p) in
      let same' : (p == q) ≡ true = rw e (same_self p) in
      let absent : Dict.has p d ≡ false = rw e at (k.0) in
      ground (arith, present, same, same', open_count-absent order p c d absent)
  | inr ne ↦
      let differ : (q == p) ≡ false = same_ne q p ne in
      let differ' : (p == q) ≡ false = same_ne p q (λ e. ne (sym e)) in
      ground (arith, differ, differ', open_count-take order p c d k.1 h)
]

-- What depends on a plugin outside `order` has an open dependency.
pub open_count_zero :
    (order : List String) (p c : String) (d : Outgoing)
    → open_count order c d ≡ 0
    → depends c p d ≡ true
    → contains p order ≡ true
unfolding Dict.get
open_count_zero order p c [] z h = absurd (ground (arith, h))
open_count_zero order p c ((q, cs) ∷ d) z h = elim (same_cases q p) [
  | inl e ↦
      let same : (q == p) ≡ true = rw e (same_self p) in
      ap (λ x. contains x order) (sym e) ∙ ground (arith, z, h, same)
  | inr ne ↦ open_count_zero order p c d (ground (arith, z)) (ground (arith, h, same_ne q p ne))
]

-- A new edge to `c` raises its count by one and no other count.
pub open_count-put :
    (p c x : String) (d : Outgoing)
    → depends c p d ≡ false
    → open_count [] x (Dict.put p (add c (elim (Dict.get p d) [ none ↦ [] | some cs ↦ cs ])) d)
      ≡ open_count [] x d + one_if (c == x)
unfolding Dict.put Dict.get add
open_count-put p c x [] h = ground arith
open_count-put p c x ((q, cs) ∷ d) h = elim (Bool-cases (q == p)) [
  | inl e ↦ ground (arith, e, h, string_eq.same_iff c x)
  | inr e ↦ ground (arith, e, h, open_count-put p c x d)
]
