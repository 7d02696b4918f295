-- ===== src/Dag/Tests.antt =====
-- Small graphs for internal/workflow/dag/graph.go.
use platformfoundry_ce.Base.{
  ℕ, ◌≡◌, refl, ◌↔◌, ◌⊎◌, true, false, List, [], ◌∷◌, String, ◌∈◌, arith, contains, Distinct,
  eq_iff, count, if◌then◌else◌, ◌==◌, select, Perm,
}
use mathlib.Core.List.Perm
use platformfoundry_ce.Base.Maps.{
  RangeOrder, VisitsAll, keys, has, lookup, insert, delete, adjust, flag,
}
use platformfoundry_ce.Dag.Graph.{
  Graph, Node, ok, err, non_existent, circular, closed_path, new_graph, add_node, remove_node, link,
  unlink, drop_first, get_dependents, get_dependencies,
}
use platformfoundry_ce.Dag.Search.{
  detect_cycle, has_cycle, enter, leave, drop_last, from_first, cycle_at,
}
use platformfoundry_ce.Dag.Levels.{
  StepInfo, get_parallel_execution_levels, topological_sort, concat, is_ready, all_completed,
  validate, build_from_steps,
}
use platformfoundry_ce.Dag.Walks.{IsCycle, Acyclic}
use platformfoundry_ce.Dag.Layers.{IsSchedule, IsOrdered}
use platformfoundry_ce.Dag.Schedule.{
  get_parallel_execution_levels-IsSchedule, topological_sort-IsOrdered,
}
use platformfoundry_ce.Dag.Neighbours.{
  IsWellFormed, new_graph-IsWellFormed, add_node-IsWellFormed, remove_node-add_node,
  get_dependents-depends, add_node_forgets,
}
use platformfoundry_ce.Dag.Validate.{IsClosed, validate_cases}
use platformfoundry_ce.Dag.Build.{IsBuilt, build_from_steps-IsBuilt, build_from_steps_total}
use platformfoundry_ce.Dag.Cycles.{Decides, detect_cycle-Decides, has_cycle_iff}
use platformfoundry_ce.Dag.Reached.{Made, made, added, removed, Made-IsWellFormed}

abbrev node : String → List String → List String → Node
node id deps dependents = record {
  id = id;
  name = id;
  dependencies = deps;
  dependents = dependents;
}

-- Two steps, each waiting for the other, and one that waits for both.
abbrev looped : Graph
looped =
    ("a", node "a" ("b" ∷ []) ("b" ∷ "c" ∷ []))
    ∷ ("b", node "b" ("a" ∷ []) ("c" ∷ []))
    ∷ ("c", node "c" ("a" ∷ "b" ∷ []) [])
    ∷ []

abbrev step : String → List String → StepInfo
step id deps = record { id = id; name = id; depends_on = deps }

abbrev pipeline : List StepInfo
pipeline = step "deploy" ("test" ∷ "build" ∷ []) ∷ step "build" [] ∷ step "test" ("build" ∷ []) ∷ []

abbrev as_listed : RangeOrder
as_listed n ks = ks

as_listed-VisitsAll : VisitsAll as_listed
as_listed-VisitsAll n ks = Perm.refl ks

program : Unit {0}
unfolding lookup keys has insert delete flag adjust count select drop_first detect_cycle enter leave
    drop_last from_first cycle_at has_cycle is_ready all_completed get_dependencies get_dependents
    get_parallel_execution_levels topological_sort concat validate build_from_steps link add_node
    unlink remove_node
program = tt

has_cycle-looped : has_cycle as_listed looped ≡ true
unfolding program
has_cycle-looped = refl

built : Graph
unfolding program
built =
    ("deploy", node "deploy" ("test" ∷ "build" ∷ []) [])
    ∷ ("build", node "build" [] ("test" ∷ []))
    ∷ ("test", node "test" ("build" ∷ []) [])
    ∷ []

-- The dependents of "build" miss "deploy", which was added before it.
build_from_steps-pipeline : build_from_steps as_listed pipeline ≡ ok built
unfolding program built
build_from_steps-pipeline = refl

levels-built :
    get_parallel_execution_levels as_listed built
    ≡ ok (("build" ∷ []) ∷ ("test" ∷ []) ∷ ("deploy" ∷ []) ∷ [])
unfolding program built
levels-built = refl

levels-looped :
    get_parallel_execution_levels as_listed looped
    ≡ err (circular (closed_path ("a" ∷ "b" ∷ "a" ∷ [])))
unfolding program
levels-looped = refl

detect_cycle-Decides_example : Decides looped (detect_cycle as_listed looped)
detect_cycle-Decides_example = detect_cycle-Decides as_listed as_listed-VisitsAll looped

has_cycle_iff_run : (has_cycle as_listed looped ≡ true) ↔ ((c : List String) × IsCycle looped c)
has_cycle_iff_run = has_cycle_iff as_listed as_listed-VisitsAll looped

looped-Distinct : Distinct (keys looped)
unfolding keys
looped-Distinct = (refl, (refl, (refl, tt)))

get_parallel_execution_levels-IsSchedule_example :
    ((levels : List (List String)) × (get_parallel_execution_levels as_listed looped ≡ ok levels)
      × IsSchedule looped levels
      × ((c : List String) → ¬ IsCycle looped c))
    ⊎ ((c : List String) × (get_parallel_execution_levels as_listed looped
          ≡ err (circular (closed_path c)))
        × IsCycle looped c)
get_parallel_execution_levels-IsSchedule_example =
    get_parallel_execution_levels-IsSchedule as_listed as_listed-VisitsAll looped looped-Distinct

built-Distinct : Distinct (keys built)
unfolding keys built
built-Distinct = (refl, (refl, (refl, tt)))

topological_sort-IsOrdered_run :
    ((order : List String) × (topological_sort as_listed built ≡ ok order)
      × Perm order (keys built)
      × IsOrdered built [] order
      × ((c : List String) → ¬ IsCycle built c))
    ⊎ ((c : List String) × (topological_sort as_listed built ≡ err (circular (closed_path c)))
        × IsCycle built c)
topological_sort-IsOrdered_run =
    topological_sort-IsOrdered as_listed as_listed-VisitsAll built built-Distinct

validate_cases_run :
    ((validate as_listed looped ≡ ok tt) × IsClosed looped × Acyclic looped)
    ⊎ ((a d : String) × (validate as_listed looped ≡ err (non_existent a d))
        × (d ∈ get_dependencies looped a)
        × (has d looped ≡ false))
    ⊎ ((c : List String) × (validate as_listed looped ≡ err (circular (closed_path c)))
        × IsClosed looped
        × IsCycle looped c)
validate_cases_run = validate_cases as_listed as_listed-VisitsAll looped

build_from_steps-IsBuilt_run : IsBuilt pipeline built × (IsClosed built × Acyclic built)
build_from_steps-IsBuilt_run =
    build_from_steps-IsBuilt as_listed as_listed-VisitsAll pipeline built build_from_steps-pipeline

abbrev rank : String → ℕ
rank x = if x == "build" then 0 else if x == "test" then 1 else 2

build_from_steps_total_example : (g : Graph) × (build_from_steps as_listed pipeline ≡ ok g)
build_from_steps_total_example =
    build_from_steps_total as_listed as_listed-VisitsAll pipeline rank (refl, (refl, (refl, tt)))
      (((refl, omega arith), ((refl, omega arith), tt)), (tt, (((refl, omega arith), tt), tt)))

-- "late" is named by "a" before it is there.
waiting : Graph
unfolding program
waiting = ("a", node "a" ("late" ∷ []) []) ∷ []

joined : Graph
unfolding program
joined = ("a", node "a" ("late" ∷ []) ("late" ∷ [])) ∷ ("late", node "late" ("a" ∷ []) []) ∷ []

add_node-joined : add_node waiting "late" "late" ("a" ∷ []) ≡ ok joined
unfolding program waiting joined
add_node-joined = refl

waiting-IsWellFormed : IsWellFormed waiting
waiting-IsWellFormed =
    add_node-IsWellFormed new_graph waiting "a" "a" ("late" ∷ []) (unfold program waiting in refl)
      new_graph-IsWellFormed

waiting-Made : Made waiting
waiting-Made = added {g' = waiting} "a" "a" ("late" ∷ []) made (unfold program waiting in refl)

joined-IsWellFormed : IsWellFormed joined
joined-IsWellFormed =
    add_node-IsWellFormed waiting joined "late" "late" ("a" ∷ []) add_node-joined
      waiting-IsWellFormed

Made-IsWellFormed_run : IsWellFormed (remove_node joined "a")
Made-IsWellFormed_run =
    Made-IsWellFormed (removed "a" (added "late" "late" ("a" ∷ []) waiting-Made add_node-joined))

remove_node-add_node_example : lookup "a" (remove_node joined "late") ≡ lookup "a" waiting
remove_node-add_node_example =
    remove_node-add_node waiting joined "late" "late" ("a" ∷ []) add_node-joined
      waiting-IsWellFormed "a"

get_dependents-depends_run : "a" ∈ get_dependencies joined "late"
get_dependents-depends_run =
    get_dependents-depends joined "a" "late" joined-IsWellFormed (unfold program joined in refl)

add_node_forgets_run : contains (get_dependents joined "late") "a" ≡ false
add_node_forgets_run =
    add_node_forgets waiting joined "late" "late" ("a" ∷ []) "a" add_node-joined
      (ground (arith, eq_iff "late" "a"))
