-- ===== src/Orchestrator/Decides.antt =====
-- `detectCycles` of internal/orchestrator/dependency.go decides whether the batch has a cycle.
use platformfoundry_ce.Base.{
  suc, String, ◌≡◌, refl, sym, ap, inl, inr, true, some, List, [], ◌∷◌, arith, Bool-cases,
  map_option, All-of, length, ◌==◌, eq_iff,
}
use platformfoundry_ce.Base.Maps.{Map, lookup, has, keys, lookup-has, RangeOrder, VisitsAll}
use platformfoundry_ce.Dag.Graph.{Node, Graph, closed_path, back_edge}
use platformfoundry_ce.Dag.Graph
use platformfoundry_ce.Dag.Search
use platformfoundry_ce.Dag.Walks.{IsCycle, Acyclic}
use platformfoundry_ce.Dag.Cycles.{Decides, detect_cycle-Decides, ranged}
use platformfoundry_ce.EdgeSearch.{Outcome, clear, found, nil_node, out_of_fuel}
use platformfoundry_ce.EdgeSearch.Simulation.{Same, search_from-Same}
use platformfoundry_ce.Orchestrator.Dependency.{
  Resource, DependencyResolver, dependencies, detect_cycles,
}

-- The batch as a graph of the workflow package.
unfoldable pub nodes_of : DependencyResolver → Map Resource → Graph
nodes_of dr [] = []
nodes_of dr ((k, r) ∷ rest) =
    (k, record { id = k; name = k; dependencies = dependencies dr k; dependents = [] })
    ∷ nodes_of dr rest

abbrev pub batch : DependencyResolver → Graph
batch dr = nodes_of dr dr.resources

lookup-nodes_of :
    (dr : DependencyResolver) (m : Map Resource) (k : String)
    → lookup k (nodes_of dr m)
      ≡ map_option
          (λ r. record { id = k; name = k; dependencies = dependencies dr k; dependents = [] })
          (lookup k m)
unfolding lookup nodes_of
lookup-nodes_of dr [] k = refl
lookup-nodes_of dr ((j, r) ∷ rest) k = elim (Bool-cases (j == k)) [
  | inl e ↦ rw e (rw ((eq_iff j k).0 e) refl)
  | inr e ↦ rw e (lookup-nodes_of dr rest k)
]

pub has-nodes_of :
    (dr : DependencyResolver) (m : Map Resource) (k : String) → has k (nodes_of dr m) ≡ has k m
unfolding has
has-nodes_of dr m k = ground (arith, lookup-nodes_of dr m k)

pub keys-nodes_of : (dr : DependencyResolver) (m : Map Resource) → keys (nodes_of dr m) ≡ keys m
unfolding keys nodes_of
keys-nodes_of dr [] = refl
keys-nodes_of dr ((k, r) ∷ rest) = ap (λ ks. k ∷ ks) (keys-nodes_of dr rest)

length-nodes_of : (dr : DependencyResolver) (m : Map Resource) → length (nodes_of dr m) ≡ length m
unfolding nodes_of
length-nodes_of dr [] = refl
length-nodes_of dr ((k, r) ∷ rest) = omega (arith, length-nodes_of dr rest)

node_deps :
    (dr : DependencyResolver) (m : Map Resource) (k : String) (node : Node)
    → lookup k (nodes_of dr m) ≡ some node
    → some (dependencies dr k) ≡ some node.dependencies
node_deps dr m k node e = ground (arith, lookup-nodes_of dr m k)

pub get_dependencies-batch :
    (dr : DependencyResolver) (k : String)
    → has k dr.resources ≡ true
    → Graph.get_dependencies (batch dr) k ≡ dependencies dr k
unfolding has Graph.get_dependencies
get_dependencies-batch dr k e =
    ground (arith, lookup-nodes_of dr dr.resources k, lookup-has k dr.resources)

-- What an outcome says of the batch.
abbrev pub DecidesBatch : DependencyResolver → Outcome → Type 0
DecidesBatch dr (clear s) = Acyclic (batch dr)
DecidesBatch dr (found a b) = (c : List String) × IsCycle (batch dr) c
DecidesBatch dr nil_node = ⊥
DecidesBatch dr out_of_fuel = ⊥

Same-Decides :
    (dr : DependencyResolver) (o : Outcome) (o' : Search.Outcome)
    → Same o o'
    → Decides (batch dr) o'
    → DecidesBatch dr o
Same-Decides dr (clear s) (Search.clear t) same d = d
Same-Decides dr (clear s) (Search.found c) same d = elim same [ ]
Same-Decides dr (clear s) Search.nil_node same d = elim same [ ]
Same-Decides dr (clear s) Search.out_of_fuel same d = elim same [ ]
Same-Decides dr (found a b) (Search.clear t) same d = elim same [ ]
Same-Decides dr (found a b) (Search.found (closed_path c)) same d = (c, d)
Same-Decides dr (found a b) (Search.found (back_edge x y)) same d = elim d [ ]
Same-Decides dr (found a b) Search.nil_node same d = elim same [ ]
Same-Decides dr (found a b) Search.out_of_fuel same d = elim same [ ]
Same-Decides dr nil_node (Search.clear t) same d = elim same [ ]
Same-Decides dr nil_node (Search.found c) same d = elim same [ ]
Same-Decides dr nil_node Search.nil_node same d = elim d [ ]
Same-Decides dr nil_node Search.out_of_fuel same d = elim same [ ]
Same-Decides dr out_of_fuel (Search.clear t) same d = elim same [ ]
Same-Decides dr out_of_fuel (Search.found c) same d = elim same [ ]
Same-Decides dr out_of_fuel Search.nil_node same d = elim same [ ]
Same-Decides dr out_of_fuel Search.out_of_fuel same d = elim d [ ]

module _ (range : RangeOrder) (visits : VisitsAll range) (dr : DependencyResolver) where
  detect_cycles-Same : Same (detect_cycles range dr) (Search.detect_cycle range (batch dr))
  unfolding detect_cycles Search.detect_cycle
  detect_cycles-Same =
      rw (length-nodes_of, keys-nodes_of)
        (search_from-Same (batch dr) (λ name. some (dependencies dr name))
          (λ name. has name dr.resources) (λ d. sym (has-nodes_of dr dr.resources d))
          (node_deps dr dr.resources) (suc (length dr.resources)) (range 0 (keys dr.resources))
          Search.fresh
          (rw (keys-nodes_of dr dr.resources) at (All-of _ _ (ranged range visits (batch dr) 0))))

  -- The search ends; it reports an edge exactly if the batch has a cycle.
  pub detect_cycles-Decides : DecidesBatch dr (detect_cycles range dr)
  detect_cycles-Decides =
      Same-Decides dr _ _ detect_cycles-Same (detect_cycle-Decides range visits (batch dr))
