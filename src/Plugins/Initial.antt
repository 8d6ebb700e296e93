-- ===== src/Plugins/Initial.antt =====
-- The graph and the heap that the planner starts with.
use suite_harness.Base.{
  ℕ, String, ◌≡◌, refl, ap, ◌∙◌, inl, inr, false, ◌&&◌, none, some, List, [], ◌∷◌, map, arith,
  contains, if◌then◌else◌, string_eq, nat_beq, Bool-cases,
}
use suite_harness.Base.Dict
use suite_harness.Base.Dict.{Dict, HasDistinctKeys, get-put}
use suite_harness.Base.KeySet.{IsDistinct}
use suite_harness.Base.Names.{contains-insert_name, insert_name-IsDistinct}
use suite_harness.Plugins.{VerifiedPluginSource}
use suite_harness.Plugins.Graph.{Graph, consumers, count_of}
use suite_harness.Plugins.Planner.{Sources, initial_graph, first_ready, initial_progress}
use suite_harness.Plugins.Edges.{open_count, depends}
use suite_harness.Plugins.Counted.{IsCounted, depends-consumers}
use suite_harness.Plugins.Ordering.{IsOrdered}

abbrev no_consumers : List String
no_consumers = []

module _ {V : Type 0} (v : V) where
  abbrev constant : Sources → Dict String V
  constant d = map (λ (e : String × VerifiedPluginSource). (e.0, v)) d

  get-constant :
      (x : String) (d : Sources) → Dict.get x (constant d) ≡ (if Dict.has x d then some v else none)
  unfolding Dict.get
  get-constant x [] = refl
  get-constant x ((c, s) ∷ d) = ground (arith, get-constant x d)

  constant-HasDistinctKeys : (d : Sources) → HasDistinctKeys d → HasDistinctKeys (constant d)
  constant-HasDistinctKeys [] h = tt
  constant-HasDistinctKeys ((c, s) ∷ d) h =
      (ground (arith, get-constant c d, h.0), constant-HasDistinctKeys d h.1)

open_count-constant : (x : String) (d : Sources) → open_count [] x (constant no_consumers d) ≡ 0
open_count-constant x [] = refl
open_count-constant x ((c, s) ∷ d) = ground (arith, open_count-constant x d)

consumers-initial_graph : (p : String) (d : Sources) → consumers p (initial_graph d) ≡ []
unfolding consumers initial_graph
consumers-initial_graph p d = ground (arith, get-constant no_consumers p d)

pub depends-initial_graph :
    (x p : String) (d : Sources) → depends x p (initial_graph d).outgoing ≡ false
depends-initial_graph x p d =
    depends-consumers x p (initial_graph d) ∙ ap (λ l. contains x l) (consumers-initial_graph p d)

pub known-initial_graph :
    (x : String) (d : Sources) → Dict.has x (initial_graph d).incoming_count ≡ Dict.has x d
unfolding initial_graph
known-initial_graph x d = ground (arith, get-constant {V = ℕ} 0 x d)

pub initial_graph-IsCounted : (d : Sources) → HasDistinctKeys d → IsCounted (initial_graph d)
initial_graph-IsCounted d h = record {
  counts = λ x.
      unfold initial_graph count_of in
      ground (arith, get-constant {V = ℕ} 0 x d, open_count-constant x d);
  keys = unfold initial_graph in constant-HasDistinctKeys no_consumers d h;
  tallies = unfold initial_graph in constant-HasDistinctKeys {V = ℕ} 0 d h;
  lists = λ p. rw (consumers-initial_graph p d) tt;
}

pub contains-first_ready :
    (x : String) (d : Dict String ℕ)
    → HasDistinctKeys d
    → contains x (first_ready d) ≡ (Dict.has x d && nat_beq (count_of x d) 0)
unfolding first_ready Dict.get count_of
contains-first_ready x [] h = refl
contains-first_ready x ((c, n) ∷ d) h = ground (
  arith,
  contains-first_ready x d h.1,
  contains-insert_name x c (first_ready d),
  string_eq.same_iff c x,
  h.0,
)

first_ready-IsDistinct : (d : Dict String ℕ) → HasDistinctKeys d → IsDistinct (first_ready d)
unfolding first_ready
first_ready-IsDistinct [] h = tt
first_ready-IsDistinct ((c, n) ∷ d) h =
    let rest : IsDistinct (first_ready d) = first_ready-IsDistinct d h.1 in
    let absent : contains c (first_ready d) ≡ false =
      ground (arith, contains-first_ready c d h.1, h.0) in
    elim (Bool-cases (nat_beq n 0)) [
      | inl e ↦ rw e (insert_name-IsDistinct c (first_ready d) absent rest)
      | inr e ↦ rw e rest
    ]

pub initial_progress-IsOrdered : (g : Graph) → IsCounted g → IsOrdered g (initial_progress g)
unfolding initial_progress
initial_progress-IsOrdered g c = record {
  counts = c.counts;
  closed = λ x m. absurd (ground (arith, m));
  free = λ x m. refl;
  zero_count =
      λ x m. ground (arith, m, contains-first_ready x g.incoming_count c.tallies, c.counts x);
  known = λ x m. ground (arith, m, contains-first_ready x g.incoming_count c.tallies);
  placed = λ x m. absurd (ground (arith, m));
  waits = λ x h m z.
      ground (arith, h, z, contains-first_ready x g.incoming_count c.tallies, c.counts x);
  heap = first_ready-IsDistinct g.incoming_count c.tallies;
  distinct = tt;
  ordered = λ x p h m. absurd (ground (arith, m));
}
