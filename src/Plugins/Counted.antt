-- ===== src/Plugins/Counted.antt =====
-- The counts of open dependencies, while the graph is built.
use suite_harness.Base.{
  ℕ, ◌+◌, String, ◌≡◌, ◌≢◌, refl, ap, ◌∙◌, inl, inr, true, false, ◌&&◌, ◌||◌, List, [], ◌∷◌, arith,
  contains, if◌then◌else◌, ◌==◌, string_eq, Bool-cases, same_cases, same_self, same_ne,
}
use suite_harness.Base.Dict
use suite_harness.Base.Dict.{Dict, get-put, HasDistinctKeys, put-HasDistinctKeys}
use suite_harness.Base.KeySet.{add, contains-add, IsDistinct, add-IsDistinct}
use suite_harness.Plugins.Graph.{Graph, consumers, count_of, add_edge, add_edges}
use suite_harness.Plugins.Edges.{open_count, depends, open_count-put}

-- The counts of a graph are those of its edges; no plugin and no consumer is listed twice.
pub record IsCounted (g : Graph) : Type 0 where
  pub counts : (x : String) → count_of x g.incoming_count ≡ open_count [] x g.outgoing
  pub keys : HasDistinctKeys g.outgoing
  pub tallies : HasDistinctKeys g.incoming_count
  pub lists : (p : String) → IsDistinct (consumers p g)

pub count_of-put :
    (c x : String) (n : ℕ) (d : Dict String ℕ)
    → count_of x (Dict.put c n d) ≡ (if c == x then n else count_of x d)
unfolding count_of
count_of-put c x n d = ground (arith, get-put c x n d)

consumers-add_edge :
    (p c q : String) (g : Graph)
    → consumers q (add_edge p c g) ≡ (if p == q then add c (consumers p g) else consumers q g)
unfolding consumers add_edge
consumers-add_edge p c q g = ground (arith, get-put p q (add c (consumers p g)) g.outgoing)

pub depends-consumers :
    (x p : String) (g : Graph) → depends x p g.outgoing ≡ contains x (consumers p g)
unfolding consumers
depends-consumers x p g = ground arith

depends-add_edge :
    (p c q x : String) (g : Graph)
    → depends x q (add_edge p c g).outgoing ≡ (depends x q g.outgoing || p == q && c == x)
depends-add_edge p c q x g = elim (same_cases p q) [
  | inl e ↦
      let same : (p == q) ≡ true = rw e (same_self q) in
      let list : consumers q (add_edge p c g) ≡ add c (consumers q g) =
        consumers-add_edge p c q g ∙ rw (same, e) refl in
      depends-consumers x q (add_edge p c g)
      ∙ ap (λ l. contains x l) list
      ∙ contains-add c x (consumers q g)
      ∙ ground (arith, depends-consumers x q g, same)
  | inr ne ↦
      let differ : (p == q) ≡ false = same_ne p q ne in
      let list : consumers q (add_edge p c g) ≡ consumers q g =
        consumers-add_edge p c q g ∙ rw differ refl in
      depends-consumers x q (add_edge p c g)
      ∙ ap (λ l. contains x l) list
      ∙ ground (arith, depends-consumers x q g, differ)
]

add_edge-IsCounted :
    (p c : String) (g : Graph)
    → depends c p g.outgoing ≡ false
    → IsCounted g
    → IsCounted (add_edge p c g)
add_edge-IsCounted p c g new h = record {
  counts = λ x.
      unfold add_edge consumers in
      ground (
        arith,
        count_of-put c x (count_of c g.incoming_count + 1) g.incoming_count,
        open_count-put p c x g.outgoing new,
        h.counts x,
        h.counts c,
        string_eq.same_iff c x,
      );
  keys = unfold add_edge in put-HasDistinctKeys p (add c (consumers p g)) g.outgoing h.keys;
  tallies =
      unfold add_edge in
      put-HasDistinctKeys c (count_of c g.incoming_count + 1) g.incoming_count h.tallies;
  lists = λ q. elim (Bool-cases (p == q)) [
    | inl e ↦ rw (consumers-add_edge p c q g, e) (add-IsDistinct c (consumers p g) (h.lists p))
    | inr e ↦ rw (consumers-add_edge p c q g, e) (h.lists q)
  ];
}

-- The edges from distinct plugins to one consumer that has none yet.
pub add_edges-IsCounted :
    (ps : List String) (c : String) (g : Graph)
    → IsDistinct ps
    → ((p : String) → contains p ps ≡ true → depends c p g.outgoing ≡ false)
    → IsCounted g
    → IsCounted (add_edges ps c g)
unfolding add_edges
add_edges-IsCounted [] c g d new h = h
add_edges-IsCounted (p ∷ ps) c g d new h =
    add_edges-IsCounted ps c (add_edge p c g) d.1
      (λ q m. ground (arith, depends-add_edge p c q c g, new q, string_eq.same_iff p q, d.0, m))
      (add_edge-IsCounted p c g (new p (ground (arith, same_self p))) h)

pub depends-add_edges :
    (ps : List String) (c q x : String) (g : Graph)
    → depends x q (add_edges ps c g).outgoing ≡ (depends x q g.outgoing || contains q ps && c == x)
unfolding add_edges
depends-add_edges [] c q x g = ground arith
depends-add_edges (p ∷ ps) c q x g =
    ground (arith, depends-add_edges ps c q x (add_edge p c g), depends-add_edge p c q x g)

pub add_edges-others :
    (ps : List String) (c x : String) (g : Graph)
    → c ≢ x
    → count_of x (add_edges ps c g).incoming_count ≡ count_of x g.incoming_count
unfolding add_edges
add_edges-others [] c x g ne = refl
add_edges-others (p ∷ ps) c x g ne =
    add_edges-others ps c x (add_edge p c g) ne
    ∙ unfold add_edge in
      (count_of-put c x (count_of c g.incoming_count + 1) g.incoming_count
        ∙ rw (same_ne c x ne) refl)
