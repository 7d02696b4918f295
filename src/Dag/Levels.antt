-- ===== src/Dag/Levels.antt =====
-- internal/workflow/dag/graph.go: execution levels, the topological order, validation and
-- the construction of a graph from steps.
pub mod Rounds
pub mod Loop
use platformfoundry_ce.Base.{
  ℕ, zero, suc, String, Bool, true, false, not, ◌&&◌, ◌||◌, none, some, List, [], ◌∷◌, ◌++◌,
  if◌then◌else◌, ltb, length, select,
}
use platformfoundry_ce.Base.Maps.{Map, insert, has, keys, flag, RangeOrder}
use platformfoundry_ce.Dag.Graph.{
  Graph, Error, already_exists, non_existent, circular, unresolved, Result, ok, err, ◌>>=◌, ◌>>◌,
  new_graph, add_node, get_dependencies,
}
use platformfoundry_ce.Dag.Graph
use platformfoundry_ce.Dag.Search.{Outcome, clear, found, detect_cycle}

-- `if cycle := g.detectCycle(); cycle != "" { return error }`
unfoldable pub reject_cycle : Outcome → Result (Unit {0})
reject_cycle (clear s) = ok tt
reject_cycle (found c) = err (circular c)
reject_cycle Outcome.nil_node = err Error.nil_node
reject_cycle Outcome.out_of_fuel = err Error.out_of_fuel

unfoldable pub all_completed : Graph → Map Bool → List String → Bool
all_completed g completed [] = true
all_completed g completed (dep ∷ deps) =
    not (has dep g && not (flag dep completed)) && all_completed g completed deps

unfoldable pub is_ready : Graph → Map Bool → String → Bool
unfolding all_completed
is_ready g completed id =
    not (flag id completed) && all_completed g completed (get_dependencies g id)

unfoldable pub complete : List String → Map Bool → Map Bool
complete [] completed = completed
complete (id ∷ ids) completed = complete ids (insert id true completed)

module _ (range : RangeOrder) (g : Graph) where
  unfoldable pub current_level : ℕ → Map Bool → List String
  unfolding is_ready select
  current_level n completed = select (is_ready g completed) (range n (keys g))

  -- The `for` loop; `n` counts the range statements.
  unfoldable pub levels_from : ℕ → ℕ → Map Bool → List (List String) → Result (List (List String))
  levels_from zero n completed levels = err Error.out_of_fuel
  levels_from (suc fuel) n completed levels =
      let level = current_level n completed in
      let next = levels_from fuel (suc n) (complete level completed) (levels ++ level ∷ []) in
      if ltb (length completed) (length g)
      then (elim level [ [] ↦ err unresolved | id ∷ ids ↦ next ])
      else ok levels

-- Each round completes a node, so the rounds are at most the nodes and the last test.
unfoldable pub get_parallel_execution_levels : RangeOrder → Graph → Result (List (List String))
unfolding reject_cycle levels_from current_level complete
get_parallel_execution_levels range g = do
  reject_cycle (detect_cycle range g)
  levels_from range g (suc (length g)) 1 [] []

unfoldable pub concat : List (List String) → List String
concat [] = []
concat (level ∷ levels) = level ++ concat levels

unfoldable pub topological_sort : RangeOrder → Graph → Result (List String)
unfolding concat
topological_sort range g = do levels ← get_parallel_execution_levels range g; ok (concat levels)

-- The first dependency of a node that is not in the graph.
unfoldable pub check_deps : Graph → String → List String → Result (Unit {0})
check_deps g id [] = ok tt
check_deps g id (dep ∷ deps) =
    let rest = check_deps g id deps in if has dep g then rest else err (non_existent id dep)

unfoldable pub check_nodes : Graph → List String → Result (Unit {0})
unfolding check_deps
check_nodes g [] = ok tt
check_nodes g (id ∷ ids) = check_deps g id (get_dependencies g id) >> check_nodes g ids

-- `Validate`: its own loop is range statement 1, the search's is 0.
unfoldable pub validate : RangeOrder → Graph → Result (Unit {0})
unfolding check_nodes reject_cycle
validate range g = check_nodes g (range 1 (keys g)) >> reject_cycle (detect_cycle range g)

pub record StepInfo : Type 0 where
  pub id : String
  pub name : String
  pub depends_on : List String

unfoldable pub add_steps : Graph → List StepInfo → Result Graph
add_steps g [] = ok g
add_steps g (step ∷ steps) = do
  g' ← add_node g step.id step.name step.depends_on
  add_steps g' steps

unfoldable pub build_from_steps : RangeOrder → List StepInfo → Result Graph
unfolding add_steps
build_from_steps range steps = do g ← add_steps new_graph steps; validate range g; ok g
