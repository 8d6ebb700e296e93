-- ===== src/Plugins/Planner.antt =====
-- src/suiteharness/plugins/graph.py: the checks of `plan`, the bindings, and the plan.
use suite_harness.Base.{
  ℕ, String, Bool, not, Option, none, some, List, [], ◌∷◌, map, length, nat_beq, if◌then◌else◌,
  ◌==◌, string_eq, pair_eq, Result, ok, err, ◌>>=◌, ◌>>◌, require,
}
use suite_harness.Base.Dict
use suite_harness.Base.Dict.{Dict}
use suite_harness.Base.KeySet.{add}
use suite_harness.Base.Names.{codes, codes_le, insert_name}
use suite_harness.Plugins.{
  ProvidedService, RequiredService, VerifiedPluginSource, ResolvedRequirement, PluginErrorCode,
  trust_rejected, harness_api_mismatch, duplicate_plugin, duplicate_provider, contribution_conflict,
  missing_provider, provider_version_mismatch, dependency_cycle,
}
use suite_harness.Plugins.Graph.{Graph, Progress, add_edges, order_loop}

abbrev pub Sources : Type 0
Sources = Dict String VerifiedPluginSource

-- `providers`: the plugin of a service and the version that it provides.
abbrev pub Providers : Type 0
Providers = Dict String (String × String)

abbrev pub Bindings : Type 0
Bindings = Dict String (List ResolvedRequirement)

-- `PluginPlan`; `sources` has the plugin that is started last first.
pub record PluginPlan : Type 0 where
  pub sources : List VerifiedPluginSource
  pub bindings : Bindings

-- `by_id`
unfoldable pub index_sources : List VerifiedPluginSource → Sources → Result PluginErrorCode Sources
index_sources [] by_id = ok by_id
index_sources (s ∷ ss) by_id = do
  let plugin_id = s.manifest.plugin_id
  require (not (Dict.has plugin_id by_id)) duplicate_plugin
  index_sources ss (Dict.put plugin_id s by_id)

unfoldable pub add_provided :
    String → List ProvidedService → Providers → Result PluginErrorCode Providers
add_provided plugin_id [] providers = ok providers
add_provided plugin_id (x ∷ xs) providers = do
  require (not (Dict.has x.service providers)) duplicate_provider
  add_provided plugin_id xs (Dict.put x.service (plugin_id, x.version) providers)

-- `providers`
unfoldable pub add_providers : Sources → Providers → Result PluginErrorCode Providers
add_providers [] providers = ok providers
add_providers ((plugin_id, s) ∷ ss) providers = do
  providers ← add_provided plugin_id s.manifest.provides providers
  add_providers ss providers

unfoldable pub add_contributions :
    String
    → List (String × String)
    → Dict (String × String) String
    → Result PluginErrorCode (Dict (String × String) String)
add_contributions plugin_id [] seen = ok seen
add_contributions plugin_id (key ∷ keys) seen = do
  require (not (Dict.has key seen)) contribution_conflict
  add_contributions plugin_id keys (Dict.put key plugin_id seen)

-- `seen_contributions`
unfoldable pub check_contributions :
    Sources → Dict (String × String) String → Result PluginErrorCode (Dict (String × String) String)
check_contributions [] seen = ok seen
check_contributions ((plugin_id, s) ∷ ss) seen = do
  seen ← add_contributions plugin_id s.manifest.contributions seen
  check_contributions ss seen

-- What the requirements of one plugin come to: `resolved` and `provider_dependencies`.
pub record Resolved : Type 0 where
  pub resolved : List ResolvedRequirement
  pub dependencies : List String

abbrev pub bound_to : Option String → RequiredService → Resolved → Resolved
bound_to provider requirement r = record {
  resolved = record { requirement = requirement; provider_plugin_id = provider } ∷ r.resolved;
  dependencies = elim provider [ none ↦ r.dependencies | some p ↦ add p r.dependencies ];
}

-- `outgoing` and `incoming_count` before the loop over the plugins.
unfoldable pub initial_graph : Sources → Graph
initial_graph by_id = record {
  outgoing = map (λ (e : String × VerifiedPluginSource). (e.0, [])) by_id;
  incoming_count = map (λ (e : String × VerifiedPluginSource). (e.0, 0)) by_id;
}

-- The plugins without open dependencies, as a heap.
unfoldable pub first_ready : Dict String ℕ → List String
first_ready [] = []
first_ready ((c, n) ∷ counts) =
    let rest = first_ready counts in if nat_beq n 0 then insert_name c rest else rest

unfoldable pub initial_progress : Graph → Progress
initial_progress g = record {
  counts = g.incoming_count;
  ready = first_ready g.incoming_count;
  order = [];
}

-- `by_id[plugin_id] for plugin_id in order`: the keys are there.
unfoldable pub sources_of : List String → Sources → List VerifiedPluginSource
sources_of [] by_id = []
sources_of (x ∷ xs) by_id =
    let rest = sources_of xs by_id in elim (Dict.get x by_id) [ none ↦ rest | some s ↦ s ∷ rest ]

-- The end of `plan`: the order, or the error of a cycle.
unfoldable pub finish_plan : Sources → Graph → Bindings → Result PluginErrorCode PluginPlan
finish_plan by_id g bindings =
    let s = order_loop (length by_id) g (initial_progress g) in
    if nat_beq (length s.order) (length by_id)
    then ok (record { sources = sources_of s.order by_id; bindings = bindings })
    else err dependency_cycle

-- The parameters are `version in SpecifierSet(…)`, and the order of the sort keys of two plugins with
-- the same id.
module _ (accepts : String → String → Bool)
    (version_le : VerifiedPluginSource → VerifiedPluginSource → Bool) where
  -- The provider of a requirement, which an optional one need not have.
  unfoldable pub resolve_one : Providers → RequiredService → Result PluginErrorCode (Option String)
  resolve_one providers r = elim (Dict.get r.service providers) [
    | none ↦ if r.optional then ok none else err missing_provider
    | some (p, version) ↦
        if accepts r.version version then ok (some p) else err provider_version_mismatch
  ]

  unfoldable pub resolve_requires :
      Providers → List RequiredService → Result PluginErrorCode Resolved
  resolve_requires providers [] = ok (record { resolved = []; dependencies = [] })
  resolve_requires providers (r ∷ rs) = do
    provider ← resolve_one providers r
    rest ← resolve_requires providers rs
    ok (bound_to provider r rest)

  -- The loop over the plugins that fills the graph and the bindings.
  unfoldable pub connect :
      Providers → Sources → Graph → Bindings → Result PluginErrorCode (Graph × Bindings)
  connect providers [] g bindings = ok (g, bindings)
  connect providers ((c, s) ∷ ss) g bindings = do
    r ← resolve_requires providers s.manifest.requires
    connect providers ss (add_edges r.dependencies c g) (Dict.put c r.resolved bindings)

  -- `sorted(candidates, key=self._source_key)`
  abbrev pub source_le : VerifiedPluginSource → VerifiedPluginSource → Bool
  source_le a b =
      if a.manifest.plugin_id == b.manifest.plugin_id
      then version_le a b
      else codes_le (codes a.manifest.plugin_id) (codes b.manifest.plugin_id)

  unfoldable pub insert_source :
      VerifiedPluginSource → List VerifiedPluginSource → List VerifiedPluginSource
  insert_source a [] = a ∷ []
  insert_source a (b ∷ bs) =
      let rest = insert_source a bs in if source_le a b then a ∷ b ∷ bs else b ∷ rest

  unfoldable pub sort_sources : List VerifiedPluginSource → List VerifiedPluginSource
  sort_sources [] = []
  sort_sources (a ∷ rest) = insert_source a (sort_sources rest)

  -- The checks of each source, for the version of the harness.
  unfoldable pub check_sources :
      String → List VerifiedPluginSource → Result PluginErrorCode (Unit {0})
  check_sources harness_version [] = ok tt
  check_sources harness_version (s ∷ ss) = do
    require s.attested trust_rejected
    require (accepts s.manifest.harness_api harness_version) harness_api_mismatch
    check_sources harness_version ss

  unfoldable pub plan : String → List VerifiedPluginSource → Result PluginErrorCode PluginPlan
  plan harness_version candidates = do
    checked ← check_sources harness_version candidates
    by_id ← index_sources (sort_sources candidates) []
    providers ← add_providers by_id []
    seen ← check_contributions by_id []
    (g, bindings) ← connect providers by_id (initial_graph by_id) []
    finish_plan by_id g bindings
