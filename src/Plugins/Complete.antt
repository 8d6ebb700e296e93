-- ===== src/Plugins/Complete.antt =====
-- The ordering loop finds an order where there is one.
use suite_harness.Base.{
  ℕ, zero, suc, ◌+◌, ◌≤◌, String, ◌≡◌, refl, ap, sym, ◌∙◌, inl, inr, Bool, true, false, List, [],
  ◌∷◌, length, arith, contains, ◌==◌, string_eq, nat_beq, Bool-cases, same_cases, same_self,
  same_ne, ok,
}
use suite_harness.Base.Dict
use suite_harness.Base.Dict.{Dict, HasDistinctKeys}
use suite_harness.Base.KeySet.{IsDistinct}
use suite_harness.Base.Names.{sorted}
use suite_harness.Base.Fit.{distinct_fit, distinct_le}
use suite_harness.Plugins.{VerifiedPluginSource}
use suite_harness.Plugins.Graph.{Graph, Progress, consumers, take_ready, release_all, order_loop}
use suite_harness.Plugins.Planner.{
  Sources, Providers, Bindings, PluginPlan, index_sources, sort_sources, initial_graph,
  initial_progress, finish_plan, connect, sources_of,
}
use suite_harness.Plugins.Edges.{Outgoing, open_count, depends}
use suite_harness.Plugins.Counted.{IsCounted}
use suite_harness.Plugins.Released.{order-release_all}
use suite_harness.Plugins.Ordering.{precedes, IsOrdered, take-IsOrdered, turns-IsOrdered}
use suite_harness.Plugins.Initial.{initial_progress-IsOrdered}
use suite_harness.Plugins.Connected.{is_bound, IsConnected, connect-IsConnected}
use suite_harness.Plugins.Indexed.{ids, IsIndexed, index_sources-IsIndexed}
use suite_harness.Plugins.Plans.{
  IsStartOrder, sorted-IsIndexed, initial-IsConnected, none_found, has_none, length-ids,
}

idle :
    (fuel : ℕ) (g : Graph) (counts : Dict String ℕ) (order : List String)
    → (order_loop fuel g (record { counts = counts; ready = []; order = order })).ready ≡ []
unfolding order_loop take_ready
idle zero g counts order = refl
idle (suc fuel) g counts order = idle fuel g counts order

-- With as many turns as plugins are left, the heap is empty at the end.
order_loop_drains :
    {V : Type 0} (by_id : Dict String V) (fuel : ℕ) (g : Graph) (ready : List String)
    (counts : Dict String ℕ) (order : List String)
    → IsCounted g
    → ((c : String) → Dict.has c g.incoming_count ≡ true → Dict.has c by_id ≡ true)
    → IsOrdered g (record { counts = counts; ready = ready; order = order })
    → length by_id ≤ length order + fuel
    → (order_loop fuel g (record { counts = counts; ready = ready; order = order })).ready ≡ []
unfolding order_loop take_ready
order_loop_drains by_id fuel g [] counts order c known o n = idle fuel g counts order
order_loop_drains by_id zero g (p ∷ ready) counts order c known o n =
    let more : suc (length order) ≤ length by_id =
      distinct_fit (p ∷ order) by_id (o.free p (ground (arith, same_self p)), o.distinct)
        (λ x m. elim (same_cases p x) [
          | inl e ↦ rw (sym e) (known p (o.known p (ground (arith, same_self p))))
          | inr ne ↦ known x (o.placed x (ground (arith, m, same_ne p x ne)))
        ]) in
    absurd (omega (arith, more, n))
order_loop_drains by_id (suc fuel) g (p ∷ ready) counts order c known o n =
    let taken : Progress = record { counts = counts; ready = ready; order = p ∷ order } in
    let next : Progress = release_all (sorted (consumers p g)) taken in
    let same : next.order ≡ p ∷ order = order-release_all (sorted (consumers p g)) taken in
    order_loop_drains by_id fuel g next.ready next.counts next.order c known
      (take-IsOrdered g (p ∷ ready) counts order c o) (omega (arith, n, ap length same))

-- A plugin whose dependencies all stand in the order has no open dependency.
open_count_all :
    (order : List String) (x : String) (d : Outgoing)
    → HasDistinctKeys d
    → ((p : String) → depends x p d ≡ true → contains p order ≡ true)
    → open_count order x d ≡ 0
unfolding Dict.get
open_count_all order x [] k h = refl
open_count_all order x ((p, cs) ∷ d) k h =
    let rest : open_count order x d ≡ 0 = open_count_all order x d k.1 (λ q m.
      elim (same_cases p q) [
        | inl e ↦ absurd (ground (arith, rw e at (k.0), m))
        | inr ne ↦ h q (ground (arith, m, same_ne p q ne))
      ]) in
    ground (arith, rest, h p, same_self p)

behind : (y z : String) (ys : List String) → contains z ys ≡ true → contains z (y ∷ ys) ≡ true
behind y z ys n = ground (arith, n)

behind_differs :
    (y z : String) (ys : List String)
    → contains y ys ≡ false
    → contains z ys ≡ true
    → (y == z) ≡ false
behind_differs y z ys absent n = elim (same_cases y z) [
  | inl e ↦ absurd (ground (arith, rw e at absent, n))
  | inr ne ↦ same_ne y z ne
]

first_taken :
    (g : Graph) (s : Progress) (y : String)
    → IsCounted g
    → IsOrdered g s
    → s.ready ≡ []
    → Dict.has y g.incoming_count ≡ true
    → ((p : String) → depends y p g.outgoing ≡ true → contains p s.order ≡ true)
    → contains y s.order ≡ true
first_taken g s y c o r known before = elim (Bool-cases (contains y s.order)) [
  | inl e ↦ e
  | inr e ↦
      let waiting : contains y s.ready ≡ true =
        o.waits y known e (open_count_all s.order y g.outgoing c.keys before) in
      absurd (ground (arith, rw r at waiting))
]

-- Every plugin of an order that respects the dependencies is taken.
all_taken :
    (g : Graph) (s : Progress) (xs : List String)
    → IsCounted g
    → IsOrdered g s
    → s.ready ≡ []
    → IsDistinct xs
    → ((x : String) → contains x xs ≡ true → Dict.has x g.incoming_count ≡ true)
    → ((x p : String)
        → depends x p g.outgoing ≡ true
        → contains x xs ≡ true
        → precedes p x xs ≡ true)
    → (x : String) → contains x xs ≡ true
    → contains x s.order ≡ true
all_taken g s [] c o r d known before x m = absurd (ground (arith, m))
all_taken g s (y ∷ ys) c o r d known before x m =
    let rest : (z : String) → contains z ys ≡ true → contains z s.order ≡ true =
      all_taken g s ys c o r d.1 (λ z n. known z (behind y z ys n))
        (λ z p h n. rw (behind_differs y z ys d.0 n) at (before z p h (behind y z ys n))) in
    elim (same_cases y x) [
      | inl e ↦
          let first : contains y (y ∷ ys) ≡ true = ground (arith, same_self y) in
          rw (sym e) (
            first_taken g s y c o r (known y first)
              (λ p h. rest p (rw (same_self y) at (before y p h first))))
      | inr ne ↦ rest x (ground (arith, m, same_ne y x ne))
    ]

pub heap_drains :
    (by_id : Sources) (g : Graph) (bindings : Bindings)
    → IsConnected by_id g bindings
    → (order_loop (length by_id) g (initial_progress g)).ready ≡ []
unfolding initial_progress
heap_drains by_id g bindings c =
    order_loop_drains by_id (length by_id) g (initial_progress g).ready (initial_progress g).counts
      [] c.counted c.known (unfold initial_progress in initial_progress-IsOrdered g c.counted)
      (omega arith)

found_in :
    (by_id : Sources) (g : Graph) (bindings : Bindings) (xs : List String)
    → IsConnected by_id g bindings
    → IsDistinct xs
    → length xs ≡ length by_id
    → ((x : String) → contains x xs ≡ true → Dict.has x by_id ≡ true)
    → ((c p : String) → is_bound c p bindings ≡ true → precedes p c xs ≡ true)
    → (p : PluginPlan) × (finish_plan by_id g bindings ≡ ok p)
unfolding finish_plan
found_in by_id g bindings xs c d full inside before =
    let s : Progress = order_loop (length by_id) g (initial_progress g) in
    let start : IsOrdered g (initial_progress g) = initial_progress-IsOrdered g c.counted in
    let o : IsOrdered g s = turns-IsOrdered (length by_id) g (initial_progress g) c.counted start in
    let drained : s.ready ≡ [] = heap_drains by_id g bindings c in
    let taken : (x : String) → contains x xs ≡ true → contains x s.order ≡ true =
      all_taken g s xs c.counted o drained d (λ x m. c.all_known x (inside x m))
        (λ x p h m. before x p (sym (c.edges x p) ∙ h)) in
    let most : length s.order ≤ length by_id =
      distinct_fit s.order by_id o.distinct (λ x m. c.known x (o.placed x m)) in
    let least : length xs ≤ length s.order = distinct_le xs s.order d taken in
    let same : nat_beq (length s.order) (length by_id) ≡ true = ground (arith, most, least, full) in
    (record { sources = sources_of s.order by_id; bindings = bindings }, rw same refl)

-- The planner finds an order where there is one: for the plugins of `by_id` and the bindings that
-- the requirements come to, a start order means that `plan` does not report a cycle.
module _ (accepts : String → String → Bool)
    (version_le : VerifiedPluginSource → VerifiedPluginSource → Bool)
    (candidates : List VerifiedPluginSource) where
  pub start_order_found :
      (by_id : Sources) (providers : Providers) (g : Graph) (bindings : Bindings)
      (sources : List VerifiedPluginSource)
      → index_sources (sort_sources accepts version_le candidates) [] ≡ ok by_id
      → connect accepts version_le providers by_id (initial_graph by_id) [] ≡ ok (g, bindings)
      → IsStartOrder candidates (record { sources = sources; bindings = bindings })
      → (p : PluginPlan) × (finish_plan by_id g bindings ≡ ok p)
  start_order_found by_id providers g bindings sources e f h =
      let sorted_first : IsIndexed [] (sort_sources accepts version_le candidates) by_id = rw e at (
        index_sources-IsIndexed (sort_sources accepts version_le candidates) [] tt
          (λ x s n. absurd (none_found x s n))) in
      let i : IsIndexed [] candidates by_id =
        sorted-IsIndexed accepts version_le candidates by_id sorted_first in
      let c : IsConnected by_id g bindings = rw f at (
        connect-IsConnected accepts version_le providers by_id by_id (initial_graph by_id) [] i.keys
          (λ x m. has_none _ x) (λ x m. m) (initial-IsConnected accepts version_le by_id i.keys)) in
      found_in by_id g bindings (ids sources) c h.once
        (sym (length-ids sources) ∙ h.size ∙ sym (i.size ∙ omega arith))
        (λ x m. ground (arith, m, i.members x, h.complete x)) (λ x p b. h.after x p b)
