-- ===== src/Engine/Coordinator/Registry.antt =====
-- internal/engine/coordinator.go: the engines that are registered against the nodes of the graph.
use platformfoundry_ce.Base.{
  String, ◌≡◌, refl, sym, ap, ◌∙◌, inl, inr, Bool, true, false, none, some, Option, List, arith,
  ◌==◌, eq_iff, if◌then◌else◌, Bool-cases, map_option, Distinct, subst,
}
use platformfoundry_ce.Base.Maps.{
  Map, lookup, insert, delete, has, keys, lookup-insert, lookup-delete, insert-Distinct,
  delete-Distinct,
}
use platformfoundry_ce.Dag.Graph.{Node}
use platformfoundry_ce.Dag.Links.{
  copies, with_more, with_fewer, new_node, lookup-remove_node, keys-link, keys-remove_node-Distinct,
}
use platformfoundry_ce.Engine.Graph.{DependencyGraph, add_engine, remove_engine}
use platformfoundry_ce.Engine.Readded.{lookup-add_engine}
use platformfoundry_ce.Engine.Coordinator.{Engine}

-- The name and the dependencies of an engine.
abbrev pub described : Engine → String × List String
described engine = (engine.name, engine.depends_on)

abbrev pub described_node : Node → String × List String
described_node node = (node.name, node.dependencies)

-- Each engine stands under its own ID, and the graph has exactly a node for each engine, with the
-- engine's name and dependencies.
pub record IsRegistry (engines : Map Engine) (g : DependencyGraph) : Type 0 where
  pub named : (id : String) (engine : Engine) → lookup id engines ≡ some engine → engine.id ≡ id
  pub listed :
      (id : String)
      → map_option described_node (lookup id g.nodes) ≡ map_option described (lookup id engines)
  pub nodes_distinct : Distinct (keys g.nodes)
  pub engines_distinct : Distinct (keys engines)

more_same :
    (ids : List String) (o : Option Node)
    → map_option described_node (map_option (with_more ids) o) ≡ map_option described_node o
more_same ids none = refl
more_same ids (some node) = refl

fewer_same :
    (k id : String) (ids : List String) (o : Option Node)
    → map_option described_node (map_option (with_fewer k id ids) o) ≡ map_option described_node o
fewer_same k id ids none = refl
fewer_same k id ids (some node) = refl

module _ (engines : Map Engine) (g : DependencyGraph) (h : IsRegistry engines g) where
  insert-named :
      (new : Engine) (id : String) (engine : Engine)
      → lookup id (insert new.id new engines) ≡ some engine
      → engine.id ≡ id
  insert-named new id engine e = elim (Bool-cases (new.id == id)) [
    | inl same ↦
        let found : new ≡ engine = ground (arith, lookup-insert new.id id new engines) in
        subst (λ s. s.id ≡ id) found ((eq_iff new.id id).0 same)
    | inr apart ↦ h.named id engine (ground (arith, lookup-insert new.id id new engines))
  ]

  added :
      (new : Engine) (k : String) (b : Bool)
      → (new.id == k) ≡ b
      → map_option described_node
          (if b then some (new_node new.id new.name new.depends_on) else lookup k g.nodes)
        ≡ map_option described (if b then some new else lookup k engines)
  added new k true e = refl
  added new k false e = h.listed k

  pub add_engine-IsRegistry :
      (new : Engine)
      → IsRegistry (insert new.id new engines) (add_engine g new.id new.name new.depends_on)
  add_engine-IsRegistry new = record {
    named = insert-named new;
    listed = λ k.
        ap (map_option described_node) (lookup-add_engine g new.id new.name new.depends_on k)
        ∙ more_same (copies k new.id new.depends_on) _
        ∙ ap (map_option described_node) (lookup-insert new.id k _ g.nodes)
        ∙ added new k (new.id == k) refl
        ∙ sym (ap (map_option described) (lookup-insert new.id k new engines));
    nodes_distinct =
        unfold add_engine in
        rw (keys-link new.id new.depends_on (insert new.id _ g.nodes))
          (insert-Distinct new.id _ g.nodes h.nodes_distinct);
    engines_distinct = insert-Distinct new.id new engines h.engines_distinct;
  }

  deleted :
      (id k : String) (b : Bool) (ids : List String)
      → map_option described_node
          (if b then none else map_option (with_fewer k id ids) (lookup k g.nodes))
        ≡ map_option described (if b then none else lookup k engines)
  deleted id k true ids = refl
  deleted id k false ids = fewer_same k id ids (lookup k g.nodes) ∙ h.listed k

  pub remove_engine-IsRegistry :
      (id : String) (node : Node)
      → lookup id g.nodes ≡ some node
      → IsRegistry (delete id engines) (remove_engine g id)
  unfolding remove_engine
  remove_engine-IsRegistry id node e = record {
    named = λ k engine found. h.named k engine (ground (arith, found, lookup-delete id k engines));
    listed = λ k.
        ap (map_option described_node) (lookup-remove_node g.nodes id k e)
        ∙ deleted id k (id == k) node.dependencies
        ∙ sym (ap (map_option described) (lookup-delete id k engines));
    nodes_distinct = keys-remove_node-Distinct g.nodes id h.nodes_distinct;
    engines_distinct = delete-Distinct id engines h.engines_distinct;
  }

same_has :
    (o : Option Node) (p : Option Engine)
    → map_option described_node o ≡ map_option described p
    → (elim o [ none ↦ false | some v ↦ true ]) ≡ (elim p [ none ↦ false | some v ↦ true ])
same_has none none h = refl
same_has none (some engine) h = cc
same_has (some node) none h = cc
same_has (some node) (some engine) h = refl

pub same_keys :
    (engines : Map Engine) (g : DependencyGraph)
    → IsRegistry engines g
    → (id : String) → has id g.nodes ≡ has id engines
unfolding has
same_keys engines g h id = same_has (lookup id g.nodes) (lookup id engines) (h.listed id)
