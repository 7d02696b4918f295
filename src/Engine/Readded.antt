-- ===== src/Engine/Readded.antt =====
-- internal/engine/dependency_graph.go: AddNode of an ID that may be in the graph, and RemoveNode.
use platformfoundry_ce.Base.{
  String, ◌≡◌, refl, ap, ◌∙◌, inl, inr, false, none, some, List, ◌++◌, arith, ◌==◌, eq_refl,
  if◌then◌else◌, Option-cases, map_option, count, count-append,
}
use platformfoundry_ce.Base.Maps.{lookup, insert, has, lookup-insert}
use platformfoundry_ce.Dag.Graph.{get_dependents}
use platformfoundry_ce.Dag.Links.{
  copies, with_more, with_fewer, new_node, lookup-link, lookup-remove_node, count-copies,
  count-dropped,
}
use platformfoundry_ce.Engine.Graph.{DependencyGraph, add_engine, remove_engine, engine_dependents}

module _ (g : DependencyGraph) (id name : String) (deps : List String) where
  abbrev pub after : DependencyGraph
  after = remove_engine (add_engine g id name deps) id

  pub lookup-add_engine :
      (k : String)
      → lookup k (add_engine g id name deps).nodes
        ≡ map_option
            (with_more (copies k id deps))
            (lookup k (insert id (new_node id name deps) g.nodes))
  unfolding add_engine
  lookup-add_engine k = lookup-link id deps (insert id (new_node id name deps) g.nodes) k

  lookup-added :
      lookup id (add_engine g id name deps).nodes
      ≡ some (with_more (copies id id deps) (new_node id name deps))
  lookup-added =
      lookup-add_engine id
      ∙ ground (arith, lookup-insert id id (new_node id name deps) g.nodes, eq_refl id)

  lookup-after :
      (k : String)
      → lookup k after.nodes ≡ (
          if id == k
          then none
          else map_option (with_fewer k id deps) (
              map_option
                (with_more (copies k id deps))
                (lookup k (insert id (new_node id name deps) g.nodes))))
  unfolding remove_engine
  lookup-after k =
      lookup-remove_node (add_engine g id name deps).nodes id k lookup-added
      ∙ ap (λ o. if id == k then none else map_option (with_fewer k id deps) o)
          (lookup-add_engine k)

  count-after :
      (k x : String)
      → (id == k) ≡ false
      → count x (engine_dependents after k) ≡ count x (engine_dependents g k)
  unfolding engine_dependents get_dependents count
  count-after k x apart = elim (Option-cases (lookup k g.nodes)) [
    | inl e ↦ rw (engine_dependents, get_dependents, lookup-after k, lookup-insert, apart, e) refl
    | inr (node, e) ↦
        rw (engine_dependents, get_dependents, lookup-after k, lookup-insert, apart, e)
          (ground (
            arith,
            count-dropped x k id deps (node.dependents ++ copies k id deps),
            count-append x node.dependents (copies k id deps),
            count-copies x k id deps,
          ))
  ]

  -- Behind AddNode of an ID and RemoveNode of it the ID is not in the graph, but every other node
  -- has among its dependents what it had before AddNode, as often as then: an ID that was in the
  -- graph before the two calls is still a dependent of the nodes that it depended on.
  pub remove_engine-add_engine :
      (k x : String)
      → (id == k) ≡ false
      → (has id after.nodes ≡ false)
        × (count x (engine_dependents after k) ≡ count x (engine_dependents g k))
  unfolding has
  remove_engine-add_engine k x apart =
      (ground (arith, lookup-after id, eq_refl id), count-after k x apart)
