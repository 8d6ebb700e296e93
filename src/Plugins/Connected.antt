-- ===== src/Plugins/Connected.antt =====
-- The loop that fills the graph and the bindings.
use suite_harness.Base.{
  ◌+◌, String, ◌≡◌, ◌≢◌, refl, ap, sym, ◌∙◌, inl, inr, Bool, true, false, ◌||◌, Option, none, some,
  List, [], ◌∷◌, arith, contains, ◌==◌, string_eq, same_cases, same_self, same_ne, Result, ok, err,
  ◌>>=◌, Ends, Ends-bind,
}
use suite_harness.Base.Dict
use suite_harness.Base.Dict.{Dict, HasDistinctKeys, get-put}
use suite_harness.Base.KeySet.{IsDistinct, contains-add, add-IsDistinct}
use suite_harness.Plugins.{
  VerifiedPluginSource, RequiredService, ResolvedRequirement, PluginErrorCode,
}
use suite_harness.Plugins.Graph.{Graph, count_of, add_edge, add_edges}
use suite_harness.Plugins.Planner.{
  Sources, Providers, Bindings, Resolved, bound_to, resolve_one, resolve_requires, connect,
}
use suite_harness.Plugins.Edges.{depends}
use suite_harness.Plugins.Counted.{IsCounted, add_edges-IsCounted, depends-add_edges}

-- Whether `p` provides one of the requirements.
abbrev pub provides_one : String → List ResolvedRequirement → Bool
provides_one p [] = false
provides_one p (r ∷ rs) =
    elim r.provider_plugin_id [ none ↦ false | some q ↦ q == p ] || provides_one p rs

-- Whether the plan binds a requirement of `c` to `p`.
abbrev pub is_bound : String → String → Bindings → Bool
is_bound c p bindings = elim (Dict.get c bindings) [ none ↦ false | some rs ↦ provides_one p rs ]

-- The edges are the bindings, and every counted plugin is one of `by_id`.
pub record IsConnected (by_id : Sources) (g : Graph) (bindings : Bindings) : Type 0 where
  pub counted : IsCounted g
  pub edges : (c p : String) → depends c p g.outgoing ≡ is_bound c p bindings
  pub known : (c : String) → Dict.has c g.incoming_count ≡ true → Dict.has c by_id ≡ true
  pub all_known : (c : String) → Dict.has c by_id ≡ true → Dict.has c g.incoming_count ≡ true

known-add_edge :
    (p c x : String) (g : Graph)
    → Dict.has x (add_edge p c g).incoming_count ≡ true
    → c ≢ x
    → Dict.has x g.incoming_count ≡ true
unfolding add_edge
known-add_edge p c x g h ne =
    ground
      (arith, h, get-put c x (count_of c g.incoming_count + 1) g.incoming_count, same_ne c x ne)

known-add_edges :
    (ps : List String) (c x : String) (g : Graph)
    → Dict.has x (add_edges ps c g).incoming_count ≡ true
    → c ≢ x
    → Dict.has x g.incoming_count ≡ true
unfolding add_edges
known-add_edges [] c x g h ne = h
known-add_edges (p ∷ ps) c x g h ne =
    known-add_edge p c x g (known-add_edges ps c x (add_edge p c g) h ne) ne

kept-add_edge :
    (p c x : String) (g : Graph)
    → Dict.has x g.incoming_count ≡ true
    → Dict.has x (add_edge p c g).incoming_count ≡ true
unfolding add_edge
kept-add_edge p c x g h =
    ground (arith, h, get-put c x (count_of c g.incoming_count + 1) g.incoming_count)

kept-add_edges :
    (ps : List String) (c x : String) (g : Graph)
    → Dict.has x g.incoming_count ≡ true
    → Dict.has x (add_edges ps c g).incoming_count ≡ true
unfolding add_edges
kept-add_edges [] c x g h = h
kept-add_edges (p ∷ ps) c x g h = kept-add_edges ps c x (add_edge p c g) (kept-add_edge p c x g h)

-- What a plugin depends on is what its requirements are bound to.
abbrev pub IsResolved : Resolved → Type 0
IsResolved r =
    IsDistinct r.dependencies
    × ((p : String) → contains p r.dependencies ≡ provides_one p r.resolved)

bound_to-IsResolved :
    (provider : Option String) (requirement : RequiredService) (r : Resolved)
    → IsResolved r
    → IsResolved (bound_to provider requirement r)
bound_to-IsResolved none requirement r h = h
bound_to-IsResolved (some q) requirement r h = (
  add-IsDistinct q r.dependencies h.0,
  λ p. contains-add q p r.dependencies ∙ ap (λ b. q == p || b) (h.1 p),
)

later_present :
    (c : String) (s : VerifiedPluginSource) (ss : Sources) (x : String)
    → Dict.has x ss ≡ true
    → Dict.has x ((c, s) ∷ ss) ≡ true
unfolding Dict.get
later_present c s ss x m = ground (arith, m)

later_differs :
    (c : String) (ss : Sources) (x : String)
    → Dict.has c ss ≡ false
    → Dict.has x ss ≡ true
    → (c == x) ≡ false
later_differs c ss x absent m = elim (same_cases c x) [
  | inl e ↦ absurd (ground (arith, rw e at absent, m))
  | inr ne ↦ same_ne c x ne
]

-- One turn of the loop over the plugins.
resolved-IsConnected :
    (by_id : Sources) (c : String) (r : Resolved) (g : Graph) (bindings : Bindings)
    → Dict.has c bindings ≡ false
    → Dict.has c by_id ≡ true
    → IsResolved r
    → IsConnected by_id g bindings
    → IsConnected by_id (add_edges r.dependencies c g) (Dict.put c r.resolved bindings)
resolved-IsConnected by_id c r g bindings new old t h = record {
  counted =
      add_edges-IsCounted r.dependencies c g t.0 (λ p m. h.edges c p ∙ ground (arith, new))
        h.counted;
  edges = λ x p. ground (
    arith,
    depends-add_edges r.dependencies c p x g,
    h.edges x p,
    t.1 p,
    get-put c x r.resolved bindings,
    string_eq.same_iff c x,
    new,
  );
  known = λ x m. elim (same_cases c x) [
    | inl e ↦ rw (sym e) old
    | inr ne ↦ h.known x (known-add_edges r.dependencies c x g m ne)
  ];
  all_known = λ x m. kept-add_edges r.dependencies c x g (h.all_known x m);
}

module _ (accepts : String → String → Bool)
    (version_le : VerifiedPluginSource → VerifiedPluginSource → Bool) (providers : Providers) where
  IsResolved-then :
      (r : RequiredService) (rs : List RequiredService)
      (provider : Result PluginErrorCode (Option String))
      → Ends (λ e. Unit {0}) IsResolved (resolve_requires accepts version_le providers rs)
      → Ends
          (λ e. Unit {0})
          IsResolved
          (provider >>= λ p.
            resolve_requires accepts version_le providers rs >>= λ rest. ok (bound_to p r rest))
  IsResolved-then r rs (err e) h = tt
  IsResolved-then r rs (ok p) h =
      Ends-bind (λ e. Unit {0}) IsResolved IsResolved
        (resolve_requires accepts version_le providers rs) (λ rest. ok (bound_to p r rest)) h
        (λ rest t. bound_to-IsResolved p r rest t)

  resolve_requires-IsResolved :
      (rs : List RequiredService)
      → Ends (λ e. Unit {0}) IsResolved (resolve_requires accepts version_le providers rs)
  unfolding resolve_requires
  resolve_requires-IsResolved [] = (tt, λ p. refl)
  resolve_requires-IsResolved (r ∷ rs) =
      IsResolved-then r rs (resolve_one accepts version_le providers r)
        (resolve_requires-IsResolved rs)

  pub connect-IsConnected :
      (by_id ss : Sources) (g : Graph) (bindings : Bindings)
      → HasDistinctKeys ss
      → ((c : String) → Dict.has c ss ≡ true → Dict.has c bindings ≡ false)
      → ((c : String) → Dict.has c ss ≡ true → Dict.has c by_id ≡ true)
      → IsConnected by_id g bindings
      → Ends
          (λ e. Unit {0})
          (λ (r : Graph × Bindings). IsConnected by_id r.0 r.1)
          (connect accepts version_le providers ss g bindings)
  unfolding connect
  connect-IsConnected by_id [] g bindings k new old h = h
  connect-IsConnected by_id ((c, s) ∷ ss) g bindings k new old h =
      Ends-bind (λ e. Unit {0}) IsResolved (λ (r : Graph × Bindings). IsConnected by_id r.0 r.1) _ _
        (resolve_requires-IsResolved s.manifest.requires)
        (λ r t.
          let mine : Dict.has c ((c, s) ∷ ss) ≡ true =
            unfold Dict.get in ground (arith, same_self c) in
          connect-IsConnected by_id ss (add_edges r.dependencies c g)
            (Dict.put c r.resolved bindings) k.1
            (λ x m. ground (
              arith,
              get-put c x r.resolved bindings,
              new x (later_present c s ss x m),
              later_differs c ss x k.0 m,
            ))
            (λ x m. old x (later_present c s ss x m))
            (resolved-IsConnected by_id c r g bindings (new c mine) (old c mine) t h))
