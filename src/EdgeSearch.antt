-- ===== src/EdgeSearch.antt =====
-- The depth-first search for a cycle that internal/engine/dependency_graph.go and
-- internal/orchestrator/dependency.go have in one form: it keeps no path and reports one edge.
pub mod Simulation
use platformfoundry_ce.Base.{
  ℕ, zero, suc, String, Bool, true, false, Option, none, some, List, [], ◌∷◌, if◌then◌else◌,
}
use platformfoundry_ce.Base.Maps.{Map, insert, flag}

-- The variables that the closure shares.
pub record State : Type 0 where
  pub visited : Map Bool
  pub recursion_stack : Map Bool

-- How a call ends: with no cycle, with the edge that closes one, in a nil dereference, or out of
-- fuel.
pub data Outcome : Type 0 where
  clear : State → Outcome
  found : String → String → Outcome
  nil_node out_of_fuel : Outcome

abbrev pub and_then : Outcome → (State → Outcome) → Outcome
and_then (clear s) f = f s
and_then (found a b) f = found a b
and_then nil_node f = nil_node
and_then out_of_fuel f = out_of_fuel

unfoldable pub enter : String → State → State
enter id s = record {
  visited = insert id true s.visited;
  recursion_stack = insert id true s.recursion_stack;
}

unfoldable pub leave : String → State → State
leave id s = record s { recursion_stack = insert id false s.recursion_stack }

-- `deps_of` are the dependencies of a node, none of a nil one; `present` tells what is in the graph.
module _ (deps_of : String → Option (List String)) (present : String → Bool) where
  unfoldable pub visit_dep : (String → State → Outcome) → String → String → State → Outcome
  visit_dep visit id dep s =
      if present dep
      then (if flag dep s.visited
          then (if flag dep s.recursion_stack then found id dep else clear s)
          else visit dep s)
      else clear s

  unfoldable pub visit_deps : (String → State → Outcome) → String → List String → State → Outcome
  visit_deps visit id [] s = clear s
  visit_deps visit id (dep ∷ deps) s =
      and_then (visit_dep visit id dep s) (visit_deps visit id deps)

  unfoldable pub dfs : ℕ → String → State → Outcome
  dfs zero id s = out_of_fuel
  dfs (suc fuel) id s = elim (deps_of id) [
    | none ↦ nil_node
    | some deps ↦ and_then (visit_deps (dfs fuel) id deps (enter id s)) (λ t. clear (leave id t))
  ]

  unfoldable pub search_from : ℕ → List String → State → Outcome
  search_from fuel [] s = clear s
  search_from fuel (id ∷ ids) s =
      and_then (if flag id s.visited then clear s else dfs fuel id s) (search_from fuel ids)

abbrev pub fresh : State
fresh = record { visited = []; recursion_stack = [] }
