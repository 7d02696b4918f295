-- ===== src/Dag/Graph.antt =====
-- internal/workflow/dag/graph.go: the graph of workflow steps and the calls that change it.
-- The mutex is left out: each call holds it from start to end.
use platformfoundry_ce.Base.{String, none, some, List, [], ◌∷◌, ◌++◌, if◌then◌else◌, ◌==◌}
use platformfoundry_ce.Base.Maps.{Map, lookup, insert, delete, has, adjust}

pub record Node : Type 0 where
  pub id : String
  pub name : String
  pub dependencies : List String
  pub dependents : List String

abbrev pub Graph : Type 0
Graph = Map Node

-- What `detectCycle` reports: the closed path, or the one edge if the path misses its start.
pub data Cycle : Type 0 where
  closed_path : List String → Cycle
  back_edge : String → String → Cycle

-- The errors of the package. The last two are a panic and the end of the model's fuel.
pub data Error : Type 0 where
  already_exists : String → Error
  non_existent : String → String → Error
  circular : Cycle → Error
  unresolved nil_node out_of_fuel : Error

pub data Result {ℓ} (A : Type ℓ) : Type ℓ where
  err : Error → Result A
  ok : A → Result A

infixl 5 ◌>>=◌ ◌>>◌
abbrev pub ◌>>=◌ {κ ℓ} : {B : Type κ} {A : Type ℓ} → Result B → (B → Result A) → Result A
err failure >>= next = err failure
ok value >>= next = next value

abbrev pub ◌>>◌ {κ} : {A : Type κ} → Result (Unit {0}) → Result A → Result A
first >> next = first >>= λ done. next

abbrev pub new_graph : Graph
new_graph = []

abbrev pub add_dependent : String → Node → Node
add_dependent id node = record node { dependents = node.dependents ++ id ∷ [] }

-- The loop that updates the dependents of the nodes that the new node depends on.
unfoldable pub link : String → List String → Graph → Graph
link id [] g = g
link id (dep ∷ deps) g = link id deps (adjust dep (add_dependent id) g)

unfoldable pub add_node : Graph → String → String → List String → Result Graph
add_node g id name deps =
    if has id g
    then err (already_exists id)
    else ok (
        link id deps
          (insert id (record { id = id; name = name; dependencies = deps; dependents = [] }) g))

-- The inner loop of `RemoveNode`, up to its `break`: it drops the first occurrence.
unfoldable pub drop_first : String → List String → List String
drop_first id [] = []
drop_first id (x ∷ xs) = if x == id then xs else x ∷ drop_first id xs

abbrev pub drop_dependent : String → Node → Node
drop_dependent id node = record node { dependents = drop_first id node.dependents }

unfoldable pub unlink : String → List String → Graph → Graph
unlink id [] g = g
unlink id (dep ∷ deps) g = unlink id deps (adjust dep (drop_dependent id) g)

unfoldable pub remove_node : Graph → String → Graph
remove_node g id = elim (lookup id g) [
  | none ↦ g
  | some node ↦ delete id (unlink id node.dependencies g)
]

-- `nil` and the empty slice are one list.
unfoldable pub get_dependencies : Graph → String → List String
get_dependencies g id = elim (lookup id g) [ none ↦ [] | some node ↦ node.dependencies ]

unfoldable pub get_dependents : Graph → String → List String
get_dependents g id = elim (lookup id g) [ none ↦ [] | some node ↦ node.dependents ]
