-- ===== src/Plugins/Released.antt =====
-- The consumers that one turn of the ordering loop releases.
use suite_harness.Base.{
  ◌-◌, String, ◌≡◌, refl, inl, inr, true, false, ◌&&◌, ◌||◌, List, [], ◌∷◌, arith, contains, ◌==◌,
  string_eq, nat_beq, Bool-cases, same_self,
}
use suite_harness.Base.KeySet.{IsDistinct}
use suite_harness.Base.Names.{contains-insert_name, insert_name-IsDistinct}
use suite_harness.Plugins.Graph.{count_of, Progress, release, release_all}
use suite_harness.Plugins.Edges.{one_if}
use suite_harness.Plugins.Counted.{count_of-put}

count_of-release :
    (c x : String) (s : Progress)
    → count_of x (release c s).counts ≡ count_of x s.counts - one_if (c == x)
unfolding release
count_of-release c x s =
    ground (arith, count_of-put c x (count_of c s.counts - 1) s.counts, string_eq.same_iff c x)

contains-release :
    (c x : String) (s : Progress)
    → contains x (release c s).ready
      ≡ (contains x s.ready || c == x && nat_beq (count_of x s.counts - 1) 0)
unfolding release
contains-release c x s = ground (arith, contains-insert_name x c s.ready, string_eq.same_iff c x)

pub order-release_all : (cs : List String) (s : Progress) → (release_all cs s).order ≡ s.order
unfolding release_all release
order-release_all [] s = refl
order-release_all (c ∷ cs) s = order-release_all cs (release c s)

pub count_of-release_all :
    (cs : List String) (x : String) (s : Progress)
    → IsDistinct cs
    → count_of x (release_all cs s).counts ≡ count_of x s.counts - one_if (contains x cs)
unfolding release_all
count_of-release_all [] x s d = ground arith
count_of-release_all (c ∷ cs) x s d = ground (
  arith,
  count_of-release_all cs x (release c s) d.1,
  count_of-release c x s,
  string_eq.same_iff c x,
  d.0,
)

pub contains-release_all :
    (cs : List String) (x : String) (s : Progress)
    → IsDistinct cs
    → contains x (release_all cs s).ready
      ≡ (contains x s.ready || contains x cs && nat_beq (count_of x s.counts - 1) 0)
unfolding release_all
contains-release_all [] x s d = ground arith
contains-release_all (c ∷ cs) x s d = ground (
  arith,
  contains-release_all cs x (release c s) d.1,
  count_of-release c x s,
  contains-release c x s,
  string_eq.same_iff c x,
  d.0,
)

release-IsDistinct :
    (c : String) (s : Progress)
    → IsDistinct s.ready
    → contains c s.ready ≡ false
    → IsDistinct (release c s).ready
unfolding release
release-IsDistinct c s r new = elim (Bool-cases (nat_beq (count_of c s.counts - 1) 0)) [
  | inl e ↦ rw e (insert_name-IsDistinct c s.ready new r)
  | inr e ↦ rw e r
]

pub release_all-IsDistinct :
    (cs : List String) (s : Progress)
    → IsDistinct cs
    → IsDistinct s.ready
    → ((x : String) → contains x cs ≡ true → contains x s.ready ≡ false)
    → IsDistinct (release_all cs s).ready
unfolding release_all
release_all-IsDistinct [] s d r new = r
release_all-IsDistinct (c ∷ cs) s d r new =
    release_all-IsDistinct cs (release c s) d.1
      (release-IsDistinct c s r (new c (ground (arith, same_self c))))
      (λ x m. ground (arith, contains-release c x s, new x, string_eq.same_iff c x, d.0, m))
