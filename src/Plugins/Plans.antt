-- ===== src/Plugins/Plans.antt =====
-- The plans of the planner.
use suite_harness.Base.{
  suc, ◌+◌, String, ◌≡◌, ◌⊎◌, refl, ap, sym, ◌∙◌, inl, inr, Bool, true, false, some, List, [], ◌∷◌,
  length, arith, contains, string_eq, nat_beq, Bool-cases, Option-cases, same_self, Result, ok, err,
  ◌>>=◌, Ends, Ends-bind,
}
use suite_harness.Base.Dict
use suite_harness.Base.Dict.{
  Dict, HasDistinctKeys, get-put, get-remove, length-put, put-HasDistinctKeys, length-remove-lt,
}
use suite_harness.Base.KeySet.{IsDistinct}
use suite_harness.Plugins.{VerifiedPluginSource, PluginErrorCode}
use suite_harness.Plugins.Graph.{Graph, Progress, order_loop}
use suite_harness.Plugins.Planner.{
  Sources, Bindings, PluginPlan, index_sources, sort_sources, initial_graph, initial_progress,
  sources_of, finish_plan, add_providers, check_contributions, check_sources, connect, plan,
}
use suite_harness.Base.Fit.{distinct_fill}
use suite_harness.Plugins.Edges.{depends}
use suite_harness.Plugins.Ordering.{precedes, IsOrdered, turns-IsOrdered, depends_known}
use suite_harness.Plugins.Initial.{
  initial_graph-IsCounted, depends-initial_graph, known-initial_graph, initial_progress-IsOrdered,
}
use suite_harness.Plugins.Connected.{is_bound, IsConnected, connect-IsConnected}
use suite_harness.Plugins.Indexed.{
  ids, IsIndexed, index_sources-IsIndexed, contains-sort_sources, length-sort_sources,
}

pub length-ids : (ss : List VerifiedPluginSource) → length ss ≡ length (ids ss)
length-ids [] = refl
length-ids (s ∷ ss) = ap suc (length-ids ss)

ids-sources_of :
    (xs : List String) (by_id : Sources)
    → ((x : String) (s : VerifiedPluginSource)
        → Dict.get x by_id ≡ some s
        → s.manifest.plugin_id ≡ x)
    → ((x : String) → contains x xs ≡ true → Dict.has x by_id ≡ true)
    → ids (sources_of xs by_id) ≡ xs
unfolding sources_of
ids-sources_of [] by_id named m = refl
ids-sources_of (x ∷ xs) by_id named m = elim (Option-cases (Dict.get x by_id)) [
  | inl e ↦ absurd (ground (arith, e, m x (ground (arith, same_self x))))
  | inr (s, e) ↦
      rw (e, sources_of)
        (rw (named x s e)
          (ap (λ ys. x ∷ ys) (ids-sources_of xs by_id named (λ y n. m y (ground (arith, n))))))
]

-- Each candidate is started once, and after the plugins that its requirements are bound to.
pub record IsStartOrder (candidates : List VerifiedPluginSource) (p : PluginPlan) : Type 0 where
  pub complete : (x : String) → contains x (ids p.sources) ≡ contains x (ids candidates)
  pub once : IsDistinct (ids p.sources)
  pub size : length p.sources ≡ length candidates
  pub after : (c q : String) → is_bound c q p.bindings ≡ true → precedes q c (ids p.sources) ≡ true

pub has_none : (V : Type 0) (x : String) → Dict.has {V = V} x [] ≡ false
unfolding Dict.get
has_none V x = refl

ordered-IsStartOrder :
    (candidates : List VerifiedPluginSource) (by_id : Sources) (g : Graph) (bindings : Bindings)
    (s : Progress)
    → IsIndexed [] candidates by_id
    → IsConnected by_id g bindings
    → IsOrdered g s
    → length s.order ≡ length by_id
    → IsStartOrder candidates (record { sources = sources_of s.order by_id; bindings = bindings })
ordered-IsStartOrder candidates by_id g bindings s i c o full =
    let inside : (x : String) → contains x s.order ≡ true → Dict.has x by_id ≡ true =
      λ x m. c.known x (o.placed x m) in
    let filled : (x : String) → Dict.has x by_id ≡ true → contains x s.order ≡ true =
      distinct_fill s.order by_id o.distinct inside full in
    let named : ids (sources_of s.order by_id) ≡ s.order =
      ids-sources_of s.order by_id i.named inside in
    record {
      complete = λ x.
          rw named
            (ground (arith, i.members x, has_none VerifiedPluginSource x, inside x, filled x));
      once = rw named o.distinct;
      size = length-ids (sources_of s.order by_id) ∙ ap length named ∙ full ∙ i.size ∙ omega arith;
      after = λ x q h.
          let edge : depends x q g.outgoing ≡ true = c.edges x q ∙ h in
          rw named (o.ordered x q edge (filled x (c.known x (depends_known g c.counted x q edge))));
    }

pub none_found :
    (x : String) (s : VerifiedPluginSource) → ¬ (Dict.get {V = VerifiedPluginSource} x [] ≡ some s)
unfolding Dict.get
none_found x s h = absurd (ground (arith, h))

skip :
    {A B : Type 0} (R : B → Type 0) (r : Result PluginErrorCode A)
    (f : A → Result PluginErrorCode B)
    → ((a : A) → Ends (λ e. Unit {0}) R (f a))
    → Ends (λ e. Unit {0}) R (r >>= f)
skip R (ok a) f h = h a
skip R (err e) f h = tt

full_cases :
    (s : Progress) (by_id : Sources)
    → ((nat_beq (length s.order) (length by_id) ≡ true) × (length s.order ≡ length by_id))
      ⊎ (nat_beq (length s.order) (length by_id) ≡ false)
full_cases s by_id = elim (Bool-cases (nat_beq (length s.order) (length by_id))) [
  | inl e ↦ inl (e, ground (arith, e))
  | inr e ↦ inr e
]

finish_plan-IsStartOrder :
    (candidates : List VerifiedPluginSource) (by_id : Sources) (g : Graph) (bindings : Bindings)
    → IsIndexed [] candidates by_id
    → IsConnected by_id g bindings
    → Ends (λ e. Unit {0}) (IsStartOrder candidates) (finish_plan by_id g bindings)
unfolding finish_plan
finish_plan-IsStartOrder candidates by_id g bindings i c =
    let o : IsOrdered g (order_loop (length by_id) g (initial_progress g)) =
      turns-IsOrdered (length by_id) g (initial_progress g) c.counted
        (initial_progress-IsOrdered g c.counted) in
    elim (full_cases (order_loop (length by_id) g (initial_progress g)) by_id) [
      | inl e ↦ rw (e.0) (ordered-IsStartOrder candidates by_id g bindings _ i c o e.1)
      | inr e ↦ rw e tt
    ]

module _ (accepts : String → String → Bool)
    (version_le : VerifiedPluginSource → VerifiedPluginSource → Bool) where
  pub initial-IsConnected :
      (by_id : Sources) → HasDistinctKeys by_id → IsConnected by_id (initial_graph by_id) []
  initial-IsConnected by_id k = record {
    counted = initial_graph-IsCounted by_id k;
    edges = λ x p. depends-initial_graph x p by_id ∙ unfold Dict.get in refl;
    known = λ x m. sym (known-initial_graph x by_id) ∙ m;
    all_known = λ x m. known-initial_graph x by_id ∙ m;
  }

  pub sorted-IsIndexed :
      (ss : List VerifiedPluginSource) (by_id : Sources)
      → IsIndexed [] (sort_sources accepts version_le ss) by_id
      → IsIndexed [] ss by_id
  sorted-IsIndexed ss by_id i = record {
    keys = i.keys;
    named = i.named;
    members = λ x. ground (arith, i.members x, contains-sort_sources version_le accepts x ss);
    size = i.size ∙ ap (λ n. 0 + n) (length-sort_sources version_le accepts ss);
  }

  pub plan-IsStartOrder :
      (harness_version : String) (candidates : List VerifiedPluginSource)
      → Ends
          (λ e. Unit {0})
          (IsStartOrder candidates)
          (plan accepts version_le harness_version candidates)
  unfolding plan
  plan-IsStartOrder harness_version candidates =
      skip (IsStartOrder candidates) (check_sources accepts version_le harness_version candidates) _
        (λ checked.
          Ends-bind (λ e. Unit {0}) (IsIndexed [] (sort_sources accepts version_le candidates))
            (IsStartOrder candidates)
            (index_sources (sort_sources accepts version_le candidates) []) _
            (index_sources-IsIndexed (sort_sources accepts version_le candidates) [] tt
              (λ x s h. absurd (none_found x s h)))
            (λ by_id i. skip (IsStartOrder candidates) (add_providers by_id []) _ (λ providers.
              skip (IsStartOrder candidates) (check_contributions by_id []) _ (λ seen.
                Ends-bind (λ e. Unit {0}) (λ (r : Graph × Bindings). IsConnected by_id r.0 r.1)
                  (IsStartOrder candidates)
                  (connect accepts version_le providers by_id (initial_graph by_id) []) _
                  (connect-IsConnected accepts version_le providers by_id by_id
                    (initial_graph by_id) [] i.keys (λ x m. has_none _ x) (λ x m. m)
                    (initial-IsConnected by_id i.keys))
                  (λ r c.
                    finish_plan-IsStartOrder candidates by_id r.0 r.1
                      (sorted-IsIndexed candidates by_id i) c)))))
