-- ===== src/Engine/Coordinator/Apply.antt =====
-- internal/engine/coordinator.go: Apply, in which order it completes engines, what a success says,
-- and what it rolls back.
use platformfoundry_ce.Base.{
  ℕ, suc, String, ◌≡◌, ◌⊎◌, refl, sym, ap, subst, ◌∙◌, inl, inr, true, Option, List, [], ◌∷◌,
  if◌then◌else◌, arith, contains-perm, mem→contains, contains→mem, ◌∈◌, All, All-of, Perm,
}
use mathlib.Core.List.{reverse, mem-reverse}
use mathlib.Core.List.Perm
use platformfoundry_ce.Base.Maps.{
  Map, lookup, has, keys, contains-keys, flag, RangeOrder, VisitsAll,
}
use platformfoundry_ce.Dag.Graph.{ok, err, circular, back_edge}
use platformfoundry_ce.Dag.Walks.{IsCycle, Acyclic-not-IsCycle}
use platformfoundry_ce.Dag.Layers.{IsSchedule, IsOrdered}
use platformfoundry_ce.Dag.Schedule.{get_parallel_execution_levels-IsSchedule}
use platformfoundry_ce.Dag.Goroutines.{
  Within, contains-Within, goroutines, goroutines-IsOrdered, goroutines-Perm,
}
use platformfoundry_ce.Engine.Graph.{DependencyGraph, engine_levels}
use platformfoundry_ce.Engine.Agree.{engine_levels-agrees}
use platformfoundry_ce.Engine.Resolver.{is_completed, reset}
use platformfoundry_ce.Engine.Coordinator.{
  Engine, RunError, Methods, Coordinator, completed, no_levels, level_failed, apply, reset_state,
  rolled_back, rollback_completed, max_retries,
}
use platformfoundry_ce.Engine.Coordinator.Kept.{InStep, AllDone}
use platformfoundry_ce.Engine.Coordinator.Levels.{
  Levels, apply_levels-Levels, Levels-Keeps, Levels-InStep, Levels-AllDone, Levels-rolled,
}
use platformfoundry_ce.Engine.Coordinator.Registry.{IsRegistry, same_keys}

pub engine_levels-IsSchedule :
    (range : RangeOrder)
    → VisitsAll range
    → (engines : Map Engine) (g : DependencyGraph) → IsRegistry engines g
    → ((levels : List (List String)) × (engine_levels range g ≡ ok levels)
        × IsSchedule g.nodes levels)
      ⊎ ((a b : String) × (c : List String) × IsCycle g.nodes c
          × (engine_levels range g ≡ err (circular (back_edge a b))))
engine_levels-IsSchedule range visits engines g h = elim (engine_levels-agrees range visits g) [
  | inr (a, b, c, cycle, e, e', e'') ↦ inr (a, b, c, cycle, e)
  | inl (acyclic, e, e') ↦
      elim (get_parallel_execution_levels-IsSchedule range visits g.nodes h.nodes_distinct) [
        | inl (levels, ok_levels, schedule, no_cycle) ↦ inl (levels, e ∙ ok_levels, schedule)
        | inr (c, failed, cycle) ↦ absurd (Acyclic-not-IsCycle g.nodes acyclic c cycle)
      ]
]

contains-reverse : (id : String) (ids : List String) → id ∈ reverse ids → id ∈ ids
contains-reverse id ids m =
    mem→contains ids ((mem-reverse {a = id} {l = ids}).0 (contains→mem (reverse ids) id m))

rolled_back-All :
    (engines : Map Engine) (ids : List String)
    → All (λ id. has id engines ≡ true) ids
    → rolled_back engines ids ≡ ids
unfolding rolled_back
rolled_back-All engines [] h = refl
rolled_back-All engines (id ∷ ids) h = rw (h.0, rolled_back-All engines ids h.1) refl

reset-InStep {ℓ} : {R V : Type ℓ} (c : Coordinator R V) → InStep (reset_state c)
unfolding reset_state reset is_completed has lookup flag
reset-InStep c id = (refl, refl)

module _ {ℓ} {R V S : Type ℓ} (methods : Methods R V S) (specs : Map (Option S))
    (range order : RangeOrder) (visits : VisitsAll range) (order_visits : VisitsAll order)
    (c : Coordinator R V) (registry : IsRegistry c.engines c.dep_graph) where
  -- The levels that `Apply` runs, or the cycle that it reports.
  apply-cases :
      ((levels : List (List String)) × IsSchedule c.dep_graph.nodes levels
        × Levels methods specs order 0 levels (reset_state c) (apply methods range order specs c))
      ⊎ ((a b : String) × (path : List String) × IsCycle c.dep_graph.nodes path
          × (apply methods range order specs c
              ≡ (no_levels (circular (back_edge a b)), reset_state c)))
  unfolding apply
  apply-cases = elim (engine_levels-IsSchedule range visits c.engines c.dep_graph registry) [
    | inl (levels, e, schedule) ↦ inl (
      levels,
      schedule,
      rw (e, apply) (apply_levels-Levels methods specs order 0 levels (reset_state c)),
    )
    | inr (a, b, path, cycle, e) ↦ inr (a, b, path, cycle, rw (e, apply) refl)
  ]

  -- For every order in which Go visits maps and in which the goroutines of a level run, whatever
  -- the engines return, and a coordinator whose graph has exactly its engines: if the graph has a
  -- cycle, Apply runs no engine and returns the error with an edge of the search; otherwise the
  -- engines that it completes are some of the registered ones, each at most once and none before a
  -- registered one whose ID is among its dependencies.
  pub apply-Within :
      ((all : List String) × Perm all (keys c.dep_graph.nodes)
        × IsOrdered c.dep_graph.nodes [] all
        × Within (apply methods range order specs c).1.completed_engines all)
      ⊎ ((a b : String) × (path : List String) × IsCycle c.dep_graph.nodes path
          × (apply methods range order specs c
              ≡ (no_levels (circular (back_edge a b)), reset_state c)))
  unfolding reset_state
  apply-Within = elim apply-cases [
    | inr cyclic ↦ inr cyclic
    | inl (levels, (layered, perm), h) ↦
        let kept = Levels-Keeps methods specs order 0 levels (reset_state c) _ registry.named h in
        let (more, e, within) = kept.adds in
        inl (
          goroutines order 0 levels,
          Perm.trans (goroutines-Perm order order_visits c.dep_graph.nodes 0 levels) perm,
          goroutines-IsOrdered order order_visits c.dep_graph.nodes 0 [] [] levels (λ a m. m)
              layered,
          subst (λ s. Within s (goroutines order 0 levels)) (sym e) within,
        )
  ]

  -- Behind Apply, however it ends, exactly the completed engines have a result, and exactly they
  -- are completed for the resolver on which the others wait.
  pub apply-InStep : InStep (apply methods range order specs c).1
  apply-InStep = elim apply-cases [
    | inl (levels, schedule, h) ↦
        Levels-InStep methods specs order 0 levels (reset_state c) _ (reset-InStep c) h
    | inr (a, b, path, cycle, e) ↦ rw e (reset-InStep c)
  ]

  -- Apply changes neither the engines nor the graph nor the configuration.
  pub apply-Keeps :
      ((apply methods range order specs c).1.engines ≡ c.engines)
      × ((apply methods range order specs c).1.dep_graph ≡ c.dep_graph)
      × ((apply methods range order specs c).1.config ≡ c.config)
  unfolding reset_state
  apply-Keeps = elim apply-cases [
    | inl (levels, schedule, h) ↦
        let kept = Levels-Keeps methods specs order 0 levels (reset_state c) _ registry.named h in
        (kept.engines, kept.dep_graph, kept.config)
    | inr (a, b, path, cycle, e) ↦ rw e (refl, refl, refl)
  ]

  -- For every order in which Go visits maps and in which the goroutines of a level run, whatever
  -- the engines return, and a coordinator whose graph has exactly its engines: where an attempt is
  -- allowed, if Apply returns no error then every registered engine with a specification is
  -- completed, and no error is stored.
  pub apply-AllDone :
      (left : ℕ)
      → max_retries c.config.retry_count ≡ suc left
      → (apply methods range order specs c).0 ≡ completed
      → ((apply methods range order specs c).1.errors ≡ [])
        × AllDone specs (keys c.engines) c.engines (apply methods range order specs c).1
  unfolding reset_state
  apply-AllDone left m ends = elim apply-cases [
    | inr (a, b, path, cycle, e) ↦ absurd (ground (arith, ap (λ x. x.0) e, ends))
    | inl (levels, (layered, perm), h) ↦
        let (no_errors, all) =
          Levels-AllDone methods specs order left 0 levels (reset_state c) _ registry.named m ends
            h in
        (
          no_errors,
          λ id engine spec there found s.
              all id engine spec
                (contains-perm (keys c.dep_graph.nodes) (goroutines order 0 levels) id
                  (Perm.symm (
                    Perm.trans (goroutines-Perm order order_visits c.dep_graph.nodes 0 levels)
                      perm))
                  (contains-keys c.dep_graph.nodes id
                    ∙ same_keys c.engines c.dep_graph registry id
                    ∙ sym (contains-keys c.engines id)
                    ∙ there))
                found s,
        )
  ]

  completed-registered :
      (id : String)
      → id ∈ (apply methods range order specs c).1.completed_engines
      → has id c.engines ≡ true
  unfolding reset_state
  completed-registered id there = elim apply-Within [
    | inl (all, perm, ordered, within) ↦
        sym (same_keys c.engines c.dep_graph registry id)
        ∙ sym (contains-keys c.dep_graph.nodes id)
        ∙ contains-perm all (keys c.dep_graph.nodes) id perm (contains-Within id within there)
    | inr (a, b, path, cycle, e) ↦
        let nowhere : id ∈ [] = subst (λ x. id ∈ x.1.completed_engines) e there in
        absurd (ground arith)
  ]

  -- For every order in which Go visits maps and in which the goroutines of a level run, whatever
  -- the engines return, and a coordinator whose graph has exactly its engines: if Apply stops at a
  -- level with errors, Rollback is called on the completed engines, the last first, where the
  -- configuration asks for it, and on no engine otherwise.
  pub apply-rolls_back :
      (n : ℕ) (errs : List (String × RunError)) (rolled : List String)
      → (apply methods range order specs c).0 ≡ level_failed n errs rolled
      → rolled ≡ (
          if c.config.rollback_on_failure
          then reverse (apply methods range order specs c).1.completed_engines
          else [])
  unfolding reset_state rollback_completed
  apply-rolls_back n errs rolled ends = elim apply-cases [
    | inr (a, b, path, cycle, e) ↦ absurd (ground (arith, ap (λ x. x.0) e, ends))
    | inl (levels, schedule, h) ↦
        let r = apply methods range order specs c in
        let kept = Levels-Keeps methods specs order 0 levels (reset_state c) r registry.named h in
        let known =
          All-of (λ id. has id c.engines ≡ true) (reverse r.1.completed_engines)
            (λ id m. completed-registered id (contains-reverse id r.1.completed_engines m)) in
        Levels-rolled methods specs order 0 levels (reset_state c) r n errs rolled ends h
        ∙ ap (λ k. if k.rollback_on_failure then rollback_completed r.1 else []) kept.config
        ∙ ap
            (λ m.
              if c.config.rollback_on_failure
              then rolled_back m (reverse r.1.completed_engines)
              else [])
            kept.engines
        ∙ ap (λ l. if c.config.rollback_on_failure then l else [])
            (rolled_back-All c.engines (reverse r.1.completed_engines) known)
  ]
