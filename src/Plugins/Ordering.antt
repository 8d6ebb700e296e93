-- ===== src/Plugins/Ordering.antt =====
-- The loop that orders the plugins.
use suite_harness.Base.{
  ℕ, zero, suc, ◌+◌, String, ◌≡◌, ap, sym, ◌∙◌, inl, inr, Bool, true, false, ◌&&◌, ◌||◌, List, [],
  ◌∷◌, arith, contains, if◌then◌else◌, ◌==◌, string_eq, nat_beq, same_cases, same_self, same_ne,
}
use suite_harness.Base.Dict
use suite_harness.Base.Dict.{Dict, HasDistinctKeys}
use suite_harness.Base.KeySet.{IsDistinct}
use suite_harness.Base.Names.{sorted, contains-sorted, sorted-IsDistinct}
use suite_harness.Plugins.Graph.{
  Graph, consumers, count_of, Progress, release_all, take_ready, order_loop,
}
use suite_harness.Plugins.Edges.{one_if, open_count, depends, open_count-take, open_count_zero}
use suite_harness.Plugins.Counted.{IsCounted, depends-consumers}
use suite_harness.Plugins.Released.{
  order-release_all, count_of-release_all, contains-release_all, release_all-IsDistinct,
}

-- In an order with the last plugin first, `p` comes before `x`.
abbrev pub precedes : String → String → List String → Bool
precedes p x [] = false
precedes p x (y ∷ ys) = if y == x then contains p ys else precedes p x ys

-- The counts are those of the dependencies outside the order, the plugins in the heap are outside
-- it and have none, and each plugin in the order comes after those that it depends on.
pub record IsOrdered (g : Graph) (s : Progress) : Type 0 where
  pub counts : (x : String) → count_of x s.counts ≡ open_count s.order x g.outgoing
  pub closed : (x : String) → contains x s.order ≡ true → open_count s.order x g.outgoing ≡ 0
  pub free : (x : String) → contains x s.ready ≡ true → contains x s.order ≡ false
  pub zero_count : (x : String) → contains x s.ready ≡ true → open_count s.order x g.outgoing ≡ 0
  pub known : (x : String) → contains x s.ready ≡ true → Dict.has x g.incoming_count ≡ true
  pub placed : (x : String) → contains x s.order ≡ true → Dict.has x g.incoming_count ≡ true
  pub waits :
      (x : String)
      → Dict.has x g.incoming_count ≡ true
      → contains x s.order ≡ false
      → open_count s.order x g.outgoing ≡ 0
      → contains x s.ready ≡ true
  pub heap : IsDistinct s.ready
  pub distinct : IsDistinct s.order
  pub ordered :
      (x p : String)
      → depends x p g.outgoing ≡ true
      → contains x s.order ≡ true
      → precedes p x s.order ≡ true

pub depends_known :
    (g : Graph)
    → IsCounted g
    → (x p : String) → depends x p g.outgoing ≡ true
    → Dict.has x g.incoming_count ≡ true
unfolding count_of
depends_known g c x p h = ground (arith, h, c.counts x, open_count_zero [] p x g.outgoing)

-- One turn of the loop.
module _ (g : Graph) (c : IsCounted g) (p : String) (ready order : List String)
    (counts : Dict String ℕ) where
  abbrev pub before : Progress
  before = record { counts = counts; ready = p ∷ ready; order = order }

  abbrev pub taken : Progress
  taken = record { counts = counts; ready = ready; order = p ∷ order }

  listed : (x : String) → contains x (sorted (consumers p g)) ≡ depends x p g.outgoing
  listed x = contains-sorted x (consumers p g) ∙ sym (depends-consumers x p g)

  released-IsDistinct : IsDistinct (sorted (consumers p g))
  released-IsDistinct = sorted-IsDistinct (consumers p g) (c.lists p)

  module _ (o : IsOrdered g before) where
    first_free : contains p order ≡ false
    first_free = o.free p (ground (arith, same_self p))

    first_zero : open_count order p g.outgoing ≡ 0
    first_zero = o.zero_count p (ground (arith, same_self p))

    taken_splits :
        (x : String)
        → open_count order x g.outgoing
          ≡ open_count (p ∷ order) x g.outgoing + one_if (depends x p g.outgoing)
    taken_splits x = open_count-take order p x g.outgoing c.keys first_free

    released :
        (x : String)
        → contains x (release_all (sorted (consumers p g)) taken).ready ≡ (
            contains x ready
            || depends x p g.outgoing && nat_beq (open_count (p ∷ order) x g.outgoing) 0)
    released x = ground (
      arith,
      contains-release_all (sorted (consumers p g)) x taken released-IsDistinct,
      listed x,
      o.counts x,
      taken_splits x,
    )

    counts_after :
        (x : String)
        → count_of x (release_all (sorted (consumers p g)) taken).counts
          ≡ open_count (p ∷ order) x g.outgoing
    counts_after x = ground (
      arith,
      count_of-release_all (sorted (consumers p g)) x taken released-IsDistinct,
      listed x,
      o.counts x,
      taken_splits x,
    )

    not_itself : (x : String) → depends x p g.outgoing ≡ true → (p == x) ≡ false
    not_itself x h = ground (arith, h, taken_splits x, first_zero, string_eq.same_iff p x)

    free_after :
        (x : String)
        → contains x (release_all (sorted (consumers p g)) taken).ready ≡ true
        → contains x (p ∷ order) ≡ false
    free_after x m = ground (
      arith,
      m,
      released x,
      o.free x,
      o.closed x,
      o.heap.0,
      not_itself x,
      taken_splits x,
      string_eq.same_iff p x,
    )

    known_after :
        (x : String)
        → contains x (release_all (sorted (consumers p g)) taken).ready ≡ true
        → Dict.has x g.incoming_count ≡ true
    known_after x m = ground (arith, m, released x, o.known x, depends_known g c x p)

    placed_after : (x : String) → contains x (p ∷ order) ≡ true → Dict.has x g.incoming_count ≡ true
    placed_after x m = elim (same_cases p x) [
      | inl e ↦ rw (sym e) (o.known p (ground (arith, same_self p)))
      | inr ne ↦ o.placed x (ground (arith, m, same_ne p x ne))
    ]

    waits_after :
        (x : String)
        → Dict.has x g.incoming_count ≡ true
        → contains x (p ∷ order) ≡ false
        → open_count (p ∷ order) x g.outgoing ≡ 0
        → contains x (release_all (sorted (consumers p g)) taken).ready ≡ true
    waits_after x h m z =
        ground (arith, h, m, z, released x, o.waits x, taken_splits x, string_eq.same_iff p x)

    follows :
        (x q : String)
        → depends x q g.outgoing ≡ true
        → contains x (p ∷ order) ≡ true
        → precedes q x (p ∷ order) ≡ true
    follows x q h m = elim (same_cases p x) [
      | inl e ↦
          let zero_open : open_count order x g.outgoing ≡ 0 =
            ap (λ y. open_count order y g.outgoing) (sym e) ∙ first_zero in
          rw (e, same_self x) (open_count_zero order q x g.outgoing zero_open h)
      | inr ne ↦
          let differ : (p == x) ≡ false = same_ne p x ne in
          rw differ (o.ordered x q h (ground (arith, m, differ)))
    ]

    pub turn-IsOrdered : IsOrdered g (release_all (sorted (consumers p g)) taken)
    turn-IsOrdered =
        let e : (release_all (sorted (consumers p g)) taken).order ≡ p ∷ order =
          order-release_all (sorted (consumers p g)) taken in
        record {
          counts = λ x. rw e (counts_after x);
          closed = λ x m. rw e (
              ground (
                arith,
                rw e at m,
                o.closed x,
                first_zero,
                taken_splits x,
                taken_splits p,
                string_eq.same_iff p x,
              ));
          free = λ x m. rw e (free_after x m);
          zero_count = λ x m. rw e (ground (arith, m, released x, o.zero_count x, taken_splits x));
          known = λ x m. known_after x m;
          placed = λ x m. placed_after x (rw e at m);
          waits = λ x h m z. waits_after x h (rw e at m) (rw e at z);
          heap =
              release_all-IsDistinct (sorted (consumers p g)) taken released-IsDistinct o.heap.1
                (λ x m. ground (arith, m, listed x, o.zero_count x, taken_splits x));
          distinct = rw e (first_free, o.distinct);
          ordered = λ x q h m. rw e (follows x q h (rw e at m));
        }

pub take-IsOrdered :
    (g : Graph) (ready : List String) (counts : Dict String ℕ) (order : List String)
    → IsCounted g
    → IsOrdered g (record { counts = counts; ready = ready; order = order })
    → IsOrdered g (take_ready g ready (record { counts = counts; ready = ready; order = order }))
unfolding take_ready
take-IsOrdered g [] counts order c o = o
take-IsOrdered g (p ∷ ready) counts order c o = turn-IsOrdered g c p ready order counts o

pub turns-IsOrdered :
    (fuel : ℕ) (g : Graph) (s : Progress)
    → IsCounted g
    → IsOrdered g s
    → IsOrdered g (order_loop fuel g s)
unfolding order_loop
turns-IsOrdered zero g s c o = o
turns-IsOrdered (suc fuel) g s c o =
    turns-IsOrdered fuel g (take_ready g s.ready s) c
      (take-IsOrdered g s.ready s.counts s.order c o)
