-- ===== src/Plugins/Graph.antt =====
-- src/suiteharness/plugins/graph.py: the dependency graph of `plan`, and the loop that takes plugins
-- without open dependencies from a heap.
use suite_harness.Base.{
  ℕ, zero, suc, ◌+◌, ◌-◌, String, none, some, List, [], ◌∷◌, nat_beq, if◌then◌else◌, string_eq,
}
use suite_harness.Base.Dict
use suite_harness.Base.Dict.{Dict}
use suite_harness.Base.KeySet.{add}
use suite_harness.Base.Names.{insert_name, sorted}

-- `outgoing` and `incoming_count`
pub record Graph : Type 0 where
  pub outgoing : Dict String (List String)
  pub incoming_count : Dict String ℕ

-- `outgoing[plugin_id]` and `incoming_count[plugin_id]`: the keys are there.
unfoldable pub consumers : String → Graph → List String
consumers p g = elim (Dict.get p g.outgoing) [ none ↦ [] | some xs ↦ xs ]

unfoldable pub count_of : String → Dict String ℕ → ℕ
count_of c counts = elim (Dict.get c counts) [ none ↦ 0 | some n ↦ n ]

-- One turn of the loop over the dependencies of the plugin `c`.
unfoldable pub add_edge : String → String → Graph → Graph
add_edge p c g = record {
  outgoing = Dict.put p (add c (consumers p g)) g.outgoing;
  incoming_count = Dict.put c (count_of c g.incoming_count + 1) g.incoming_count;
}

unfoldable pub add_edges : List String → String → Graph → Graph
add_edges [] c g = g
add_edges (p ∷ ps) c g = add_edges ps c (add_edge p c g)

-- The variables of the loop; `order` has the last plugin first.
pub record Progress : Type 0 where
  pub counts : Dict String ℕ
  pub ready : List String
  pub order : List String

-- One turn of the loop over the consumers of a plugin.
unfoldable pub release : String → Progress → Progress
release c s =
    let left = count_of c s.counts - 1 in
    record s {
      counts = Dict.put c left s.counts;
      ready = if nat_beq left 0 then insert_name c s.ready else s.ready;
    }

unfoldable pub release_all : List String → Progress → Progress
release_all [] s = s
release_all (c ∷ cs) s = release_all cs (release c s)

-- One turn of `while ready`: the least plugin is taken from the heap.
unfoldable pub take_ready : Graph → List String → Progress → Progress
take_ready g [] s = s
take_ready g (p ∷ ready) s =
    release_all (sorted (consumers p g)) (record s { ready = ready; order = p ∷ s.order })

-- `while ready`, for as many turns as there are plugins: no plugin is taken twice, and turns on an
-- empty heap change nothing.
unfoldable pub order_loop : ℕ → Graph → Progress → Progress
order_loop zero g s = s
order_loop (suc fuel) g s = order_loop fuel g (take_ready g s.ready s)
