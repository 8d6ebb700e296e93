-- ===== src/Plugins/Tests.antt =====
-- Runs of the planner.
use suite_harness.Base.{String, Bool, true, false, some, List, [], ◌∷◌, ◌≡◌, refl, ok, err, Ends}
use suite_harness.Base.Dict
use suite_harness.Base.KeySet.{add}
use suite_harness.Base.Names.{insert_name, sorted}
use suite_harness.Plugins.{
  ProvidedService, RequiredService, VerifiedPluginSource, missing_provider, dependency_cycle,
}
use suite_harness.Plugins.Graph.{
  Graph, consumers, count_of, add_edge, add_edges, release, release_all, take_ready, order_loop,
}
use suite_harness.Plugins.Complete.{start_order_found}
use suite_harness.Plugins.Planner.{
  Sources, Providers, Bindings, PluginPlan, index_sources, add_provided, add_providers,
  add_contributions, check_contributions, initial_graph, first_ready, initial_progress, sources_of,
  finish_plan, resolve_one, resolve_requires, connect, insert_source, sort_sources, check_sources,
  plan,
}
use suite_harness.Plugins.Plans.{IsStartOrder, plan-IsStartOrder}

abbrev accepts_all : String → String → Bool
accepts_all specifier version = true

abbrev any_version : VerifiedPluginSource → VerifiedPluginSource → Bool
any_version a b = true

abbrev source : String → List ProvidedService → List RequiredService → VerifiedPluginSource
source plugin_id provides requires = record {
  manifest = record {
    plugin_id = plugin_id;
    version = "1.0.0";
    harness_api = ">=1";
    provides = provides;
    requires = requires;
    contributions = [];
  };
  digest = "d";
  attested = true;
}

abbrev needs : String → RequiredService
needs service = record { service = service; version = ">=1"; optional = false }

abbrev offers : String → ProvidedService
offers service = record { service = service; version = "1.0.0" }

-- The agent plugin comes first by its name and second by its requirement.
abbrev agent_and_store : List VerifiedPluginSource
agent_and_store =
    source "agent" [] (needs "store" ∷ []) ∷ source "store" (offers "store" ∷ []) [] ∷ []

abbrev two_in_a_cycle : List VerifiedPluginSource
two_in_a_cycle =
    source "a" (offers "x" ∷ []) (needs "y" ∷ [])
    ∷ source "b" (offers "y" ∷ []) (needs "x" ∷ [])
    ∷ []

store_first :
    plan accepts_all any_version "1.0.0" agent_and_store
    ≡ ok (record {
      sources =
          source "agent" [] (needs "store" ∷ []) ∷ source "store" (offers "store" ∷ []) [] ∷ [];
      bindings =
          ("agent", record { requirement = needs "store"; provider_plugin_id = some "store" } ∷ [])
          ∷ ("store", [])
          ∷ [];
    })
unfolding plan check_sources index_sources sort_sources insert_source add_providers add_provided
    check_contributions add_contributions connect resolve_requires resolve_one initial_graph
    initial_progress first_ready sources_of finish_plan order_loop take_ready release_all release
    consumers count_of add_edges add_edge Dict.get Dict.put add insert_name sorted
store_first = refl

cycle_is_refused : plan accepts_all any_version "1.0.0" two_in_a_cycle ≡ err dependency_cycle
unfolding plan check_sources index_sources sort_sources insert_source add_providers add_provided
    check_contributions add_contributions connect resolve_requires resolve_one initial_graph
    initial_progress first_ready sources_of finish_plan order_loop take_ready release_all release
    consumers count_of add_edges add_edge Dict.get Dict.put add insert_name sorted
cycle_is_refused = refl

nobody_provides :
    plan accepts_all any_version "1.0.0" (source "a" [] (needs "y" ∷ []) ∷ [])
    ≡ err missing_provider
unfolding plan check_sources index_sources sort_sources insert_source add_providers add_provided
    check_contributions add_contributions connect resolve_requires resolve_one initial_graph
    initial_progress first_ready sources_of finish_plan order_loop take_ready release_all release
    consumers count_of add_edges add_edge Dict.get Dict.put add insert_name sorted
nobody_provides = refl

plan-IsStartOrder_example :
    Ends
      (λ e. Unit {0})
      (IsStartOrder agent_and_store)
      (plan accepts_all any_version "1.0.0" agent_and_store)
plan-IsStartOrder_example = plan-IsStartOrder accepts_all any_version "1.0.0" agent_and_store

abbrev agent_last : List VerifiedPluginSource
agent_last = source "agent" [] (needs "store" ∷ []) ∷ source "store" (offers "store" ∷ []) [] ∷ []

abbrev by_name : Sources
by_name =
    ("agent", source "agent" [] (needs "store" ∷ []))
    ∷ ("store", source "store" (offers "store" ∷ []) [])
    ∷ []

abbrev store_providers : Providers
store_providers = ("store", ("store", "1.0.0")) ∷ []

abbrev store_bindings : Bindings
store_bindings =
    ("agent", record { requirement = needs "store"; provider_plugin_id = some "store" } ∷ [])
    ∷ ("store", [])
    ∷ []

abbrev store_graph : Graph
store_graph = record {
  outgoing = ("agent", []) ∷ ("store", "agent" ∷ []) ∷ [];
  incoming_count = ("agent", 1) ∷ ("store", 0) ∷ [];
}

-- The hypotheses of the search for an order, at these plugins.
indexed_by_name :
    index_sources (sort_sources accepts_all any_version agent_and_store) [] ≡ ok by_name
unfolding index_sources sort_sources insert_source Dict.get Dict.put
indexed_by_name = refl

connected_store :
    connect accepts_all any_version store_providers by_name (initial_graph by_name) []
    ≡ ok (store_graph, store_bindings)
unfolding connect resolve_requires resolve_one initial_graph consumers count_of add_edges add_edge
    Dict.get Dict.put add
connected_store = refl

agent_last-IsStartOrder :
    IsStartOrder agent_and_store (record { sources = agent_last; bindings = store_bindings })
agent_last-IsStartOrder =
    rw store_first at (plan-IsStartOrder accepts_all any_version "1.0.0" agent_and_store)

start_order_found_example :
    (p : PluginPlan) × (finish_plan by_name store_graph store_bindings ≡ ok p)
start_order_found_example =
    start_order_found accepts_all any_version agent_and_store by_name store_providers store_graph
      store_bindings agent_last indexed_by_name connected_store agent_last-IsStartOrder
