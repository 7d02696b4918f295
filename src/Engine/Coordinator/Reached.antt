-- ===== src/Engine/Coordinator/Reached.antt =====
-- internal/engine/coordinator.go: what calls of RegisterEngine, UnregisterEngine and Apply reach.
use platformfoundry_ce.Base.{String, refl, sym, subst, ◌∙◌, inl, inr, Option, [], arith, Bool-cases}
use platformfoundry_ce.Base.Maps.{Map, lookup, has, keys, lookup-has, RangeOrder, VisitsAll}
use platformfoundry_ce.Engine.Graph.{new_dependency_graph}
use platformfoundry_ce.Engine.Coordinator.{
  Engine, Coordinator, CoordinatorConfig, Methods, new_coordinator, register_engine,
  unregister_engine, apply,
}
use platformfoundry_ce.Engine.Coordinator.Registry.{
  IsRegistry, add_engine-IsRegistry, remove_engine-IsRegistry, same_keys,
}
use platformfoundry_ce.Engine.Coordinator.Apply.{apply-Keeps}

nil-IsRegistry : IsRegistry [] new_dependency_graph
unfolding new_dependency_graph lookup keys
nil-IsRegistry = record {
  named = λ id engine e. absurd (ground arith);
  listed = λ id. refl;
  nodes_distinct = tt;
  engines_distinct = tt;
}

module _ {ℓ} {R V : Type ℓ} where
  register_engine-IsRegistry :
      (engine : Engine) (c : Coordinator R V)
      → IsRegistry c.engines c.dep_graph
      → IsRegistry (register_engine engine c).1.engines (register_engine engine c).1.dep_graph
  unfolding register_engine
  register_engine-IsRegistry engine c h = elim (Bool-cases (has engine.id c.engines)) [
    | inl e ↦ rw (e, register_engine) h
    | inr e ↦ rw (e, register_engine) (add_engine-IsRegistry c.engines c.dep_graph h engine)
  ]

  unregister_engine-IsRegistry :
      (id : String) (c : Coordinator R V)
      → IsRegistry c.engines c.dep_graph
      → IsRegistry (unregister_engine id c).1.engines (unregister_engine id c).1.dep_graph
  unfolding unregister_engine
  unregister_engine-IsRegistry id c h = elim (Bool-cases (has id c.engines)) [
    | inr e ↦ rw (e, unregister_engine) h
    | inl e ↦
        let (node, found) =
          lookup-has id c.dep_graph.nodes (same_keys c.engines c.dep_graph h id ∙ e) in
        rw (e, unregister_engine) (remove_engine-IsRegistry c.engines c.dep_graph h id node found)
  ]

-- The coordinators that calls reach, with engines that return what they like.
pub data Reached {ℓ} (R V S : Type ℓ) : Coordinator R V → Type ℓ where
  made : (config : CoordinatorConfig) → Reached R V S (new_coordinator config)
  registers :
      {c : Coordinator R V} (engine : Engine)
      → Reached R V S c
      → Reached R V S (register_engine engine c).1
  unregisters :
      {c : Coordinator R V} (id : String)
      → Reached R V S c
      → Reached R V S (unregister_engine id c).1
  applies :
      {c : Coordinator R V} (methods : Methods R V S) (specs : Map (Option S))
      (range order : RangeOrder)
      → VisitsAll range
      → VisitsAll order
      → Reached R V S c
      → Reached R V S (apply methods range order specs c).1

-- Whatever calls a coordinator gets from its making on, and however its runs end: each engine
-- stands under its own ID, and the graph has exactly a node for each registered engine, with the
-- engine's name and dependencies, and no ID twice.
pub Reached-IsRegistry {ℓ} :
    {R V S : Type ℓ} (c : Coordinator R V) → Reached R V S c → IsRegistry c.engines c.dep_graph
unfolding new_coordinator
Reached-IsRegistry c (made config) = nil-IsRegistry
Reached-IsRegistry c (registers {c = d} engine h) =
    register_engine-IsRegistry engine d (Reached-IsRegistry d h)
Reached-IsRegistry c (unregisters {c = d} id h) =
    unregister_engine-IsRegistry id d (Reached-IsRegistry d h)
Reached-IsRegistry c (applies {c = d} methods specs range order visits order_visits h) =
    let before = Reached-IsRegistry d h in
    let (engines, graph, config) =
      apply-Keeps methods specs range order visits order_visits d before in
    subst (λ m. IsRegistry m (apply methods range order specs d).1.dep_graph) (sym engines)
      (subst (IsRegistry d.engines) (sym graph) before)
