-- ===== src/Engine/Agree.antt =====
-- The graph of internal/engine/dependency_graph.go against that of internal/workflow/dag/graph.go.
use platformfoundry_ce.Base.{suc, String, ◌≡◌, ◌⊎◌, refl, inl, inr, some, List, length, All-of}
use platformfoundry_ce.Base.Maps.{lookup, has, keys, RangeOrder, VisitsAll}
use platformfoundry_ce.Dag.Graph.{Node, err, circular, closed_path, back_edge, ◌>>=◌}
use platformfoundry_ce.Dag.Search
use platformfoundry_ce.Dag.Walks.{IsCycle, Acyclic}
use platformfoundry_ce.Dag.Cycles.{Decides, detect_cycle-Decides, ranged}
use platformfoundry_ce.Dag.Levels.{get_parallel_execution_levels, topological_sort, reject_cycle}
use platformfoundry_ce.EdgeSearch.{Outcome, clear, found, nil_node, out_of_fuel}
use platformfoundry_ce.EdgeSearch.Simulation.{Same, search_from-Same}
use platformfoundry_ce.Engine.Graph.{
  DependencyGraph, node_dependencies, detect_engine_cycle, reject_engine_cycle, engine_levels,
  engine_order,
}

-- Both searches let the graph pass, or each names a cycle in its own way.
abbrev pub Rejects : DependencyGraph → Outcome → Search.Outcome → Type 0
Rejects g o o' =
    (Acyclic g.nodes × (reject_engine_cycle o ≡ reject_cycle o'))
    ⊎ ((a b : String) × (c : List String) × IsCycle g.nodes c
        × (reject_engine_cycle o ≡ err (circular (back_edge a b)))
        × (reject_cycle o' ≡ err (circular (closed_path c))))

Same-Rejects :
    (g : DependencyGraph) (o : Outcome) (o' : Search.Outcome)
    → Same o o'
    → Decides g.nodes o'
    → Rejects g o o'
unfolding reject_engine_cycle reject_cycle
Same-Rejects g (clear s) (Search.clear t) same d = inl (d, refl)
Same-Rejects g (clear s) (Search.found c) same d = elim same [ ]
Same-Rejects g (clear s) Search.nil_node same d = elim same [ ]
Same-Rejects g (clear s) Search.out_of_fuel same d = elim same [ ]
Same-Rejects g (found a b) (Search.clear t) same d = elim same [ ]
Same-Rejects g (found a b) (Search.found (closed_path c)) same d = inr (a, b, c, d, refl, refl)
Same-Rejects g (found a b) (Search.found (back_edge x y)) same d = elim d [ ]
Same-Rejects g (found a b) Search.nil_node same d = elim same [ ]
Same-Rejects g (found a b) Search.out_of_fuel same d = elim same [ ]
Same-Rejects g nil_node (Search.clear t) same d = elim same [ ]
Same-Rejects g nil_node (Search.found c) same d = elim same [ ]
Same-Rejects g nil_node Search.nil_node same d = elim d [ ]
Same-Rejects g nil_node Search.out_of_fuel same d = elim same [ ]
Same-Rejects g out_of_fuel (Search.clear t) same d = elim same [ ]
Same-Rejects g out_of_fuel (Search.found c) same d = elim same [ ]
Same-Rejects g out_of_fuel Search.nil_node same d = elim same [ ]
Same-Rejects g out_of_fuel Search.out_of_fuel same d = elim d [ ]

module _ (range : RangeOrder) (visits : VisitsAll range) (g : DependencyGraph) where
  node_deps :
      (id : String) (node : Node)
      → lookup id g.nodes ≡ some node
      → node_dependencies g id ≡ some node.dependencies
  unfolding node_dependencies
  node_deps id node e = rw e refl

  detect_cycle-Rejects : Rejects g (detect_engine_cycle range g) (Search.detect_cycle range g.nodes)
  unfolding detect_engine_cycle Search.detect_cycle
  detect_cycle-Rejects =
      Same-Rejects g _ _
        (search_from-Same g.nodes (node_dependencies g) (λ id. has id g.nodes) (λ d. refl) node_deps
          (suc (length g.nodes)) (range 0 (keys g.nodes)) Search.fresh
          (All-of _ _ (ranged range visits g.nodes 0)))
        (detect_cycle-Decides range visits g.nodes)

  -- For every order in which Go visits the maps: on a graph with no cycle the engine's levels and
  -- order are those of the workflow package for the same nodes; on any other graph both packages
  -- return an error, one with an edge and one with a cycle of the graph.
  pub engine_levels-agrees :
      (Acyclic g.nodes
        × (engine_levels range g ≡ get_parallel_execution_levels range g.nodes)
        × (engine_order range g ≡ topological_sort range g.nodes))
      ⊎ ((a b : String) × (c : List String) × IsCycle g.nodes c
          × (engine_levels range g ≡ err (circular (back_edge a b)))
          × (engine_order range g ≡ err (circular (back_edge a b)))
          × (get_parallel_execution_levels range g.nodes ≡ err (circular (closed_path c))))
  unfolding engine_levels engine_order get_parallel_execution_levels topological_sort
  engine_levels-agrees = elim detect_cycle-Rejects [
    | inl (acyclic, e) ↦ inl (acyclic, rw e refl, rw e refl)
    | inr (a, b, c, cycle, e, e') ↦
        inr (a, b, c, cycle, rw (e, ◌>>=◌) refl, rw (e, ◌>>=◌) refl, rw (e', ◌>>=◌) refl)
  ]
