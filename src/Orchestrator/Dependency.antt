-- ===== src/Orchestrator/Dependency.antt =====
-- internal/orchestrator/dependency.go: the dependencies of resources and the order of a batch.
use platformfoundry_ce.Base.{
  ℕ, zero, suc, String, Bool, true, Option, none, some, List, [], ◌∷◌, ◌++◌, if◌then◌else◌, ◌==◌,
  contains, length,
}
use platformfoundry_ce.Base.Maps.{Map, lookup, insert, has, keys, flag, RangeOrder}
use platformfoundry_ce.EdgeSearch.{Outcome, clear, found, search_from, fresh}

-- A value of a specification, as far as it is looked at: the items of a list that are texts.
pub data Value : Type 0 where
  text : String → Value
  items : List (Option String) → Value
  other : Value

pub record Resource : Type 0 where
  pub name : String
  pub kind : String
  pub spec : Map Value

pub record DependencyResolver : Type 0 where
  pub resources : Map Resource
  pub graph : Map (List String)

unfoldable pub new_dependency_resolver : DependencyResolver
new_dependency_resolver = record { resources = []; graph = [] }

-- `if ref, ok := resource.Spec[key].(string); ok { deps = append(deps, ref) }`
unfoldable pub text_at : String → Resource → List String
text_at key resource = elim (lookup key resource.spec) [
  | some (text ref) ↦ ref ∷ []
  | some (items list) ↦ []
  | some other ↦ []
  | none ↦ []
]

unfoldable pub texts : List (Option String) → List String
texts [] = []
texts (some dep ∷ rest) = dep ∷ texts rest
texts (none ∷ rest) = texts rest

unfoldable pub texts_at : String → Resource → List String
texts_at key resource = elim (lookup key resource.spec) [
  | some (items list) ↦ texts list
  | some (text ref) ↦ []
  | some other ↦ []
  | none ↦ []
]

unfoldable pub find_cluster_dependency : Resource → List String
find_cluster_dependency resource = text_at "cluster" resource ++ text_at "clusterName" resource

unfoldable pub find_pipeline_dependency : Resource → List String
find_pipeline_dependency resource = text_at "pipeline" resource ++ text_at "pipelineName" resource

unfoldable pub kind_dependencies : Resource → List String
kind_dependencies resource =
    if resource.kind == "Pipeline"
    then find_cluster_dependency resource
    else if resource.kind == "Application"
    then find_cluster_dependency resource ++ find_pipeline_dependency resource
    else []

unfoldable pub extract_dependencies : Resource → List String
extract_dependencies resource =
    text_at "clusterRef" resource
    ++ text_at "infrastructureRef" resource
    ++ texts_at "dependsOn" resource
    ++ kind_dependencies resource

unfoldable pub add_resource : Resource → DependencyResolver → DependencyResolver
add_resource resource dr = record {
  resources = insert resource.name resource dr.resources;
  graph = insert resource.name (extract_dependencies resource) dr.graph;
}

-- `dr.graph[name]`, none on a missing key.
unfoldable pub dependencies : DependencyResolver → String → List String
dependencies dr name = elim (lookup name dr.graph) [ none ↦ [] | some deps ↦ deps ]

-- `detectCycles`. The depth of the recursion is at most the number of resources.
unfoldable pub detect_cycles : RangeOrder → DependencyResolver → Outcome
detect_cycles range dr =
    search_from (λ name. some (dependencies dr name)) (λ name. has name dr.resources)
      (suc (length dr.resources)) (range 0 (keys dr.resources)) fresh

-- The variables of the closure `visit` in `Resolve`.
pub record Walked : Type 0 where
  pub visited : Map Bool
  pub stack : List String

unfoldable pub mark : String → Walked → Walked
mark name w = record w { visited = insert name true w.visited }

unfoldable pub push : String → Walked → Walked
push name w = record w { stack = w.stack ++ name ∷ [] }

abbrev pub and_then : Option Walked → (Walked → Option Walked) → Option Walked
and_then none f = none
and_then (some w) f = f w

-- The loop over names that skips those outside the batch; `visit` is the recursive call.
unfoldable pub visit_each :
    DependencyResolver → (String → Walked → Option Walked) → List String → Walked → Option Walked
visit_each dr visit [] w = some w
visit_each dr visit (dep ∷ deps) w =
    and_then (if has dep dr.resources then visit dep w else some w) (visit_each dr visit deps)

-- The closure `visit`; none where the fuel is used up.
unfoldable pub visit : DependencyResolver → ℕ → String → Walked → Option Walked
visit dr zero name w = none
visit dr (suc fuel) name w =
    let below = visit_each dr (visit dr fuel) (dependencies dr name) (mark name w) in
    if flag name w.visited then some w else and_then below (λ v. some (push name v))

-- The loop over all resources.
unfoldable pub visit_all : DependencyResolver → ℕ → List String → Walked → Option Walked
visit_all dr fuel [] w = some w
visit_all dr fuel (name ∷ names) w = and_then (visit dr fuel name w) (visit_all dr fuel names)

unfoldable pub collect : Map Resource → List String → List Resource
collect resources [] = []
collect resources (name ∷ names) =
    let rest = collect resources names in
    elim (lookup name resources) [ none ↦ rest | some resource ↦ resource ∷ rest ]

-- How `Resolve` ends; the last two are a failure of the search and the end of the model's fuel.
pub data Resolved : Type 0 where
  resolved : List Resource → Resolved
  circular : String → String → Resolved
  nil_node out_of_fuel : Resolved

unfoldable pub sorted : RangeOrder → DependencyResolver → Resolved
sorted range dr =
    elim (visit_all dr (suc (length dr.resources)) (range 1 (keys dr.resources))
      (record { visited = []; stack = [] })) [
        | none ↦ out_of_fuel
        | some w ↦ resolved (collect dr.resources w.stack)
      ]

unfoldable pub resolve : RangeOrder → DependencyResolver → Resolved
resolve range dr = elim (detect_cycles range dr) [
  | clear s ↦ sorted range dr
  | found a b ↦ circular a b
  | Outcome.nil_node ↦ nil_node
  | Outcome.out_of_fuel ↦ out_of_fuel
]

-- The loop of `GetDependents`.
unfoldable pub dependents_from : DependencyResolver → String → List String → List String
dependents_from dr name [] = []
dependents_from dr name (k ∷ ks) =
    let rest = dependents_from dr name ks in
    if contains (dependencies dr k) name then k ∷ rest else rest

unfoldable pub get_dependents : RangeOrder → DependencyResolver → String → List String
get_dependents range dr name = dependents_from dr name (range 0 (keys dr.graph))
