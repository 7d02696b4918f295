-- ===== src/Engine/Graph.antt =====
-- internal/engine/dependency_graph.go: the graph of engines. Its methods are those of the graph of
-- internal/workflow/dag/graph.go, but for AddNode, which takes an ID again, and the search, which
-- keeps no path. The field `outputs`, which no method reads or writes, is left out.
use platformfoundry_ce.Base.{suc, String, Bool, true, false, Option, List, [], length, map_option}
use platformfoundry_ce.Base.Maps.{lookup, insert, has, keys, RangeOrder}
use platformfoundry_ce.Dag.Graph.{
  Node, Graph, Result, ok, err, circular, back_edge, link, ◌>>=◌, ◌>>◌,
}
use platformfoundry_ce.Dag.Graph.{Error}
use platformfoundry_ce.Dag.Graph
use platformfoundry_ce.Dag.Levels
use platformfoundry_ce.EdgeSearch.{Outcome, clear, found, search_from, fresh}

pub record DependencyGraph : Type 0 where
  pub nodes : Graph

unfoldable pub new_dependency_graph : DependencyGraph
new_dependency_graph = record { nodes = [] }

unfoldable pub add_engine : DependencyGraph → String → String → List String → DependencyGraph
add_engine g id name deps = record g {
  nodes =
      link id deps
        (insert id (record { id = id; name = name; dependencies = deps; dependents = [] }) g.nodes);
}

unfoldable pub remove_engine : DependencyGraph → String → DependencyGraph
remove_engine g id = record g { nodes = Graph.remove_node g.nodes id }

unfoldable pub engine_dependencies : DependencyGraph → String → List String
engine_dependencies g id = Graph.get_dependencies g.nodes id

unfoldable pub engine_dependents : DependencyGraph → String → List String
engine_dependents g id = Graph.get_dependents g.nodes id

-- `g.nodes[id].dependencies`, none of a nil node.
unfoldable pub node_dependencies : DependencyGraph → String → Option (List String)
node_dependencies g id = map_option (λ node. node.dependencies) (lookup id g.nodes)

-- `detectCycle`. The depth of the recursion is at most the number of nodes.
unfoldable pub detect_engine_cycle : RangeOrder → DependencyGraph → Outcome
detect_engine_cycle range g =
    search_from (node_dependencies g) (λ id. has id g.nodes) (suc (length g.nodes))
      (range 0 (keys g.nodes)) fresh

unfoldable pub reject_engine_cycle : Outcome → Result (Unit {0})
reject_engine_cycle (clear s) = ok tt
reject_engine_cycle (found a b) = err (circular (back_edge a b))
reject_engine_cycle Outcome.nil_node = err Error.nil_node
reject_engine_cycle Outcome.out_of_fuel = err Error.out_of_fuel

-- `GetParallelExecutionLevels`. Each round completes a node, so the rounds are at most the nodes
-- and the last test.
unfoldable pub engine_levels : RangeOrder → DependencyGraph → Result (List (List String))
engine_levels range g = do
  reject_engine_cycle (detect_engine_cycle range g)
  Levels.levels_from range g.nodes (suc (length g.nodes)) 1 [] []

-- `TopologicalSort`
unfoldable pub engine_order : RangeOrder → DependencyGraph → Result (List String)
engine_order range g = do levels ← engine_levels range g; ok (Levels.concat levels)

-- `HasCycle`
unfoldable pub engine_has_cycle : RangeOrder → DependencyGraph → Bool
engine_has_cycle range g = elim (detect_engine_cycle range g) [ found a b ↦ true | _ ↦ false ]
