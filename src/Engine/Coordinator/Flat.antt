-- ===== src/Engine/Coordinator/Flat.antt =====
-- internal/engine/coordinator.go with internal/engine/dependency_graph.go: engines that name those
-- that they depend on, where the levels look dependencies up by ID.
use platformfoundry_ce.Base.{
  String, ◌≡◌, refl, subst, ◌∙◌, inl, inr, true, false, Option, none, some, List, [], ◌∷◌, arith,
  map_option, contains-perm, ◌∈◌, All-of,
}
use mathlib.Core.List.Perm
use platformfoundry_ce.Base.Maps.{Map, lookup, has, keys, contains-keys, RangeOrder, VisitsAll}
use platformfoundry_ce.Dag.Graph.{Node, ok, get_dependencies}
use platformfoundry_ce.Dag.Walks.{Acyclic, Acyclic-not-IsCycle}
use platformfoundry_ce.Dag.Levels.{concat}
use platformfoundry_ce.Engine.Graph.{DependencyGraph, engine_levels}
use platformfoundry_ce.Engine.Coordinator.{Engine}
use platformfoundry_ce.Engine.Coordinator.Registry.{
  IsRegistry, same_keys, described, described_node,
}
use platformfoundry_ce.Engine.Coordinator.Apply.{engine_levels-IsSchedule}

-- No dependency of an engine is the ID of an engine.
abbrev pub NoIds : Map Engine → Type 0
NoIds engines =
    (id d : String) (engine : Engine)
    → lookup id engines ≡ some engine
    → d ∈ engine.depends_on
    → has d engines ≡ false

module _ (range : RangeOrder) (visits : VisitsAll range) (engines : Map Engine)
    (g : DependencyGraph) (registry : IsRegistry engines g) (no_ids : NoIds engines) where
  same_dependencies :
      (o : Option Node) (p : Option Engine) (d : String)
      → map_option described_node o ≡ map_option described p
      → d ∈ (elim o [ none ↦ [] | some node ↦ node.dependencies ])
      → (engine : Engine) × (p ≡ some engine) × (d ∈ engine.depends_on)
  same_dependencies none p d h m = absurd (ground arith)
  same_dependencies (some node) none d h m = absurd (cc)
  same_dependencies (some node) (some engine) d h m =
      (engine, refl, subst (λ l. d ∈ l) (ground arith) m)

  no_edge : (a d : String) → d ∈ get_dependencies g.nodes a → has d g.nodes ≡ false
  unfolding get_dependencies
  no_edge a d m =
      let (engine, found, named) =
        same_dependencies (lookup a g.nodes) (lookup a engines) d (registry.listed a) m in
      same_keys engines g registry d ∙ no_ids a d engine found named

  g-Acyclic : Acyclic g.nodes
  g-Acyclic = (λ a. 0, λ a b edge. absurd (cc (no_edge a b edge.0, edge.1)))

  -- In a coordinator whose graph has exactly its engines, of which there is one or more: if no
  -- engine has the ID of a registered engine among its dependencies, but the names, say, then for
  -- every order in which Go visits the map the first level holds all registered engines: each may
  -- start before those that it names.
  pub engine_levels-flat :
      (id : String)
      → has id engines ≡ true
      → (first : List String) × (rest : List (List String)) × (engine_levels range g
          ≡ ok (first ∷ rest))
        × ((a : String) → has a engines ≡ true → a ∈ first)
  unfolding concat
  engine_levels-flat id there = elim (engine_levels-IsSchedule range visits engines g registry) [
    | inr (a, b, c, cycle, e) ↦ absurd (Acyclic-not-IsCycle g.nodes g-Acyclic c cycle)
    | inl ([], e, (layered, perm)) ↦
        let nowhere : id ∈ [] =
          contains-perm (keys g.nodes) [] id (Perm.symm perm)
            (contains-keys g.nodes id ∙ same_keys engines g registry id ∙ there) in
        absurd (ground arith)
    | inl (first ∷ rest, e, (layered, perm)) ↦ (
      first,
      rest,
      e,
      λ a known. (layered.0 a).1 (
        same_keys engines g registry a ∙ known,
        refl,
        All-of _ (get_dependencies g.nodes a) (λ d m in_graph. cc (no_edge a d m, in_graph)),
      ),
    )
  ]
