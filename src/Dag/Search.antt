-- ===== src/Dag/Search.antt =====
-- internal/workflow/dag/graph.go: the depth-first search for a cycle.
pub mod Invariant
use platformfoundry_ce.Base.{
  ℕ, zero, suc, String, Bool, true, false, none, some, List, [], ◌∷◌, ◌++◌, if◌then◌else◌, ◌==◌,
  length, contains,
}
use platformfoundry_ce.Base.Maps.{Map, lookup, insert, has, keys, flag, RangeOrder}
use platformfoundry_ce.Dag.Graph.{Graph, Cycle, closed_path, back_edge}

-- The variables that the closure `dfs` shares.
pub record State : Type 0 where
  pub visited : Map Bool
  pub recursion_stack : Map Bool
  pub traversal_path : List String

-- How a call of `dfs` ends: with "", with a cycle, in a nil dereference, or out of fuel.
pub data Outcome : Type 0 where
  clear : State → Outcome
  found : Cycle → Outcome
  nil_node out_of_fuel : Outcome

abbrev pub and_then : Outcome → (State → Outcome) → Outcome
and_then (clear s) f = f s
and_then (found c) f = found c
and_then nil_node f = nil_node
and_then out_of_fuel f = out_of_fuel

-- `path[:len(path)-1]`
unfoldable pub drop_last : List String → List String
drop_last [] = []
drop_last (x ∷ []) = []
drop_last (x ∷ y ∷ xs) = x ∷ drop_last (y ∷ xs)

-- `path[cycleStart:]`
unfoldable pub from_first : String → List String → List String
from_first id [] = []
from_first id (x ∷ xs) = if x == id then x ∷ xs else from_first id xs

unfoldable pub enter : String → State → State
enter id s = record {
  visited = insert id true s.visited;
  recursion_stack = insert id true s.recursion_stack;
  traversal_path = s.traversal_path ++ id ∷ [];
}

unfoldable pub leave : String → State → State
leave id s = record s {
  recursion_stack = insert id false s.recursion_stack;
  traversal_path = drop_last s.traversal_path;
}

-- The branch that builds the cycle, at the edge from `id` back to `dep`.
unfoldable pub cycle_at : String → String → List String → Cycle
cycle_at id dep path =
    if contains path dep then closed_path (from_first dep path ++ dep ∷ []) else back_edge id dep

module _ (g : Graph) where
  -- The body of the loop over the dependencies of `id`; `visit` is the recursive call.
  unfoldable pub visit_dep : (String → State → Outcome) → String → String → State → Outcome
  visit_dep visit id dep s =
      if has dep g
      then (if flag dep s.visited
          then (if flag dep s.recursion_stack
              then found (cycle_at id dep s.traversal_path)
              else clear s)
          else visit dep s)
      else clear s

  unfoldable pub visit_deps : (String → State → Outcome) → String → List String → State → Outcome
  visit_deps visit id [] s = clear s
  visit_deps visit id (dep ∷ deps) s =
      and_then (visit_dep visit id dep s) (visit_deps visit id deps)

  unfoldable pub dfs : ℕ → String → State → Outcome
  dfs zero id s = out_of_fuel
  dfs (suc fuel) id s = elim (lookup id g) [
    | none ↦ nil_node
    | some node ↦
        and_then (visit_deps (dfs fuel) id node.dependencies (enter id s)) (λ t. clear (leave id t))
  ]

  unfoldable pub search_from : ℕ → List String → State → Outcome
  search_from fuel [] s = clear s
  search_from fuel (id ∷ ids) s =
      and_then (if flag id s.visited then clear s else dfs fuel id s) (search_from fuel ids)

abbrev pub fresh : State
fresh = record { visited = []; recursion_stack = []; traversal_path = [] }

-- `detectCycle`. The depth of the recursion is at most the number of nodes.
unfoldable pub detect_cycle : RangeOrder → Graph → Outcome
unfolding search_from dfs visit_deps visit_dep
detect_cycle range g = search_from g (suc (length g)) (range 0 (keys g)) fresh

-- `HasCycle`.
unfoldable pub has_cycle : RangeOrder → Graph → Bool
has_cycle range g = elim (detect_cycle range g) [ found c ↦ true | _ ↦ false ]
