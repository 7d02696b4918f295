-- ===== src/Dag/Schedule.antt =====
-- Execution levels, the topological order and `HasCycle` of internal/workflow/dag/graph.go.
use platformfoundry_ce.Base.{
  String, ◌≡◌, ◌⊎◌, inl, inr, List, [], arith, Distinct, Perm, refl, suc, length,
}
use platformfoundry_ce.Base.Maps.{keys, RangeOrder, VisitsAll}
use platformfoundry_ce.Dag.Graph.{Graph, closed_path, back_edge, circular, ok, err, ◌>>=◌}
use platformfoundry_ce.Dag.Walks.{IsCycle, Acyclic, Acyclic-not-IsCycle}
use platformfoundry_ce.Dag.Cycles.{Decides, detect_cycle-Decides}
use platformfoundry_ce.Dag.Layers.{IsSchedule, IsOrdered, IsLayered-IsOrdered}
use platformfoundry_ce.Dag.Search.{Outcome, clear, found, nil_node, out_of_fuel, detect_cycle}
use platformfoundry_ce.Dag.Levels.{
  reject_cycle, get_parallel_execution_levels, topological_sort, concat,
}
use platformfoundry_ce.Dag.Levels.Loop.{start-IsBetween, levels_from-IsSchedule}

module _ (range : RangeOrder) (visits : VisitsAll range) (g : Graph) where
  reject_cycle_cases :
      (o : Outcome)
      → Decides g o
      → (Acyclic g × (reject_cycle o ≡ ok tt))
        ⊎ ((c : List String) × IsCycle g c × (reject_cycle o ≡ err (circular (closed_path c))))
  unfolding reject_cycle
  reject_cycle_cases (clear s) d = inl (d, refl)
  reject_cycle_cases (found (closed_path c)) d = inr (c, d, refl)
  reject_cycle_cases (found (back_edge a b)) d = elim d [ ]
  reject_cycle_cases nil_node d = elim d [ ]
  reject_cycle_cases out_of_fuel d = elim d [ ]

  -- `reject_cycle` lets a graph pass if it has a rank that each edge lowers, and names a cycle of
  -- it otherwise.
  pub reject_cycle-detect_cycle :
      (Acyclic g × (reject_cycle (detect_cycle range g) ≡ ok tt))
      ⊎ ((c : List String) × IsCycle g c
          × (reject_cycle (detect_cycle range g) ≡ err (circular (closed_path c))))
  reject_cycle-detect_cycle = reject_cycle_cases _ (detect_cycle-Decides range visits g)

module _ (range : RangeOrder) (visits : VisitsAll range) (g : Graph)
    (keys_distinct : Distinct (keys g)) where
  -- For every order in which Go visits the map, and node IDs that are distinct: on a graph with
  -- no cycle the call returns levels which hold each node exactly once, and a level holds exactly
  -- the nodes not in earlier levels all of whose dependencies in the graph are in earlier levels;
  -- on any other graph it returns the error with a cycle of the graph. It never returns "unable
  -- to resolve remaining dependencies", and its loop ends.
  pub get_parallel_execution_levels-IsSchedule :
      ((levels : List (List String)) × (get_parallel_execution_levels range g ≡ ok levels)
        × IsSchedule g levels
        × ((c : List String) → ¬ IsCycle g c))
      ⊎ ((c : List String) × (get_parallel_execution_levels range g
            ≡ err (circular (closed_path c)))
          × IsCycle g c)
  unfolding get_parallel_execution_levels
  get_parallel_execution_levels-IsSchedule = elim (reject_cycle-detect_cycle range visits g) [
    | inl (acyclic, e) ↦
        let (levels, r, s) =
          levels_from-IsSchedule g keys_distinct range visits acyclic (suc (length g)) 1 [] []
            (start-IsBetween g keys_distinct range visits) (omega arith) in
        inl (levels, rw (e, ◌>>=◌) r, s, Acyclic-not-IsCycle g acyclic)
    | inr (c, cycle, e) ↦ inr (c, rw (e, ◌>>=◌) refl, cycle)
  ]

  -- For every order in which Go visits the map, and node IDs that are distinct: on a graph with
  -- no cycle `TopologicalSort` returns the nodes of the graph, each once and after all the nodes
  -- that it depends on; on any other graph it returns the error with a cycle of the graph.
  pub topological_sort-IsOrdered :
      ((order : List String) × (topological_sort range g ≡ ok order)
        × Perm order (keys g)
        × IsOrdered g [] order
        × ((c : List String) → ¬ IsCycle g c))
      ⊎ ((c : List String) × (topological_sort range g ≡ err (circular (closed_path c)))
          × IsCycle g c)
  unfolding topological_sort
  topological_sort-IsOrdered = elim get_parallel_execution_levels-IsSchedule [
    | inl (levels, e, (layered, perm), none_cyclic) ↦ inl (
      concat levels,
      rw (e, ◌>>=◌) refl,
      perm,
      IsLayered-IsOrdered g [] levels layered,
      none_cyclic,
    )
    | inr (c, e, cycle) ↦ inr (c, rw (e, ◌>>=◌) refl, cycle)
  ]
