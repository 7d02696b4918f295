-- ===== src/Engine/Coordinator/Tests.antt =====
-- Runs of internal/engine/coordinator.go.
use platformfoundry_ce.Base.{
  ℕ, suc, String, ◌≡◌, ◌⊎◌, refl, sym, subst, inl, inr, true, false, Option, none, some, List, [],
  ◌∷◌, if◌then◌else◌, ◌==◌, arith, ltb, select, Perm, ◌∈◌, eq_iff, Bool-cases,
}
use mathlib.Core.List.{reverse}
use mathlib.Core.List.Perm
use platformfoundry_ce.Base.Int64.{i64}
use platformfoundry_ce.Base.Maps.{
  Map, lookup, insert, delete, has, keys, flag, adjust, RangeOrder, VisitsAll,
}
use platformfoundry_ce.Dag.Graph.{circular, back_edge, link, get_dependencies, ok}
use platformfoundry_ce.Dag.Levels.{is_ready, all_completed, levels_from, current_level, complete}
use platformfoundry_ce.Dag.Walks.{IsCycle}
use platformfoundry_ce.Dag.Layers.{IsOrdered}
use platformfoundry_ce.Dag.Goroutines.{Within}
use platformfoundry_ce.EdgeSearch.{enter, leave, visit_dep, visit_deps, dfs, search_from}
use platformfoundry_ce.Engine.Graph.{
  new_dependency_graph, add_engine, node_dependencies, detect_engine_cycle, reject_engine_cycle,
  engine_levels,
}
use platformfoundry_ce.Engine.Resolver.{new_resolver, mark_completed, reset}
use platformfoundry_ce.Engine.Coordinator.{
  Engine, apply_failed, refuses, gives, Methods, Coordinator, CoordinatorConfig, completed,
  no_levels, level_failed, find_spec, new_coordinator, register_engine, store, run_engine,
  attempts_from, execute_engine, execute_level, apply_levels, apply, reset_state, rolled_back,
  rollback_completed, max_retries,
}
use platformfoundry_ce.Engine.Coordinator.Runs.{Ends, execute_engine-Ends}
use platformfoundry_ce.Engine.Coordinator.Kept.{AllDone}
use platformfoundry_ce.Engine.Coordinator.Registry.{IsRegistry}
use platformfoundry_ce.Engine.Coordinator.Reached.{
  Reached, made, registers, applies, Reached-IsRegistry,
}
use platformfoundry_ce.Engine.Coordinator.Apply.{apply-Within, apply-AllDone, apply-rolls_back}
use platformfoundry_ce.Engine.Coordinator.Flat.{NoIds, engine_levels-flat}

abbrev as_listed : RangeOrder
as_listed n ks = ks

abbrev as_listed-VisitsAll : VisitsAll as_listed
as_listed-VisitsAll n ks = Perm.refl ks

program : Unit {0}
unfolding lookup keys has insert delete flag adjust link select get_dependencies is_ready
    all_completed levels_from current_level complete enter leave visit_dep visit_deps dfs
    search_from new_dependency_graph add_engine node_dependencies detect_engine_cycle
    reject_engine_cycle engine_levels new_resolver mark_completed reset find_spec new_coordinator
    register_engine store run_engine attempts_from execute_engine execute_level apply_levels apply
    reset_state rolled_back rollback_completed max_retries
program = tt

abbrev engine : String → String → List String → Engine
engine id name deps = record { id = id; name = name; category = "compute"; depends_on = deps }

-- An engine of this name fails on the first attempts.
abbrev failing : String → ℕ → Methods String String String
failing name tries = record {
  initialize = λ e n. none;
  start = λ e n. none;
  apply_spec = λ e spec n.
      if e.name == name
      then (if ltb n tries then refuses "quota" else gives spec [])
      else gives spec (("endpoint", spec) ∷ []);
}

abbrev specs : Map (Option String)
specs = ("app", some "v1") ∷ ("compute", some "small") ∷ []

abbrev config : CoordinatorConfig
config = record { rollback_on_failure = true; retry_count = i64 2 }

abbrev empty : Coordinator String String
empty = new_coordinator config

-- The application comes first, and depends on the ID of the infrastructure.
abbrev by_id : Coordinator String String
by_id =
    (register_engine (engine "u1" "infra" [])
      (register_engine (engine "u2" "app" ("u1" ∷ [])) empty).1).1

-- It depends on its name.
abbrev by_name : Coordinator String String
by_name =
    (register_engine (engine "u1" "infra" [])
      (register_engine (engine "u2" "app" ("infra" ∷ [])) empty).1).1

by_id-Reached : Reached String String String by_id
by_id-Reached = registers _ (registers _ (made config))

by_name-Reached : Reached String String String by_name
by_name-Reached = registers _ (registers _ (made config))

by_id-completed :
    (apply (failing "app" 1) as_listed as_listed specs by_id).1.completed_engines ≡ "u1" ∷ "u2" ∷ []
unfolding program
by_id-completed = refl

-- The engine that depends on the other is done first.
by_name-completed :
    (apply (failing "none" 0) as_listed as_listed specs by_name).1.completed_engines
    ≡ "u2" ∷ "u1" ∷ []
unfolding program
by_name-completed = refl

by_id-fails :
    (apply (failing "app" 2) as_listed as_listed specs by_id).0
    ≡ level_failed 1 (("app", apply_failed "quota") ∷ []) ("u1" ∷ [])
unfolding program
by_id-fails = refl

by_id-succeeds : (apply (failing "app" 1) as_listed as_listed specs by_id).0 ≡ completed
unfolding program
by_id-succeeds = refl

two_tries : max_retries config.retry_count ≡ suc 1
unfolding max_retries
two_tries = refl

by_id-config : max_retries by_id.config.retry_count ≡ suc 1
unfolding program
by_id-config = refl

by_id-IsRegistry : IsRegistry by_id.engines by_id.dep_graph
by_id-IsRegistry = Reached-IsRegistry by_id by_id-Reached

Reached-IsRegistry_example :
    IsRegistry
      (apply (failing "app" 2) as_listed as_listed specs by_id).1.engines
      (apply (failing "app" 2) as_listed as_listed specs by_id).1.dep_graph
Reached-IsRegistry_example =
    Reached-IsRegistry (apply (failing "app" 2) as_listed as_listed specs by_id).1 (
      applies (failing "app" 2) specs as_listed as_listed as_listed-VisitsAll as_listed-VisitsAll
        by_id-Reached)

apply-Within_example :
    ((all : List String) × Perm all (keys by_id.dep_graph.nodes)
      × IsOrdered by_id.dep_graph.nodes [] all
      × Within (apply (failing "app" 2) as_listed as_listed specs by_id).1.completed_engines all)
    ⊎ ((a b : String) × (path : List String) × IsCycle by_id.dep_graph.nodes path
        × (apply (failing "app" 2) as_listed as_listed specs by_id
            ≡ (no_levels (circular (back_edge a b)), reset_state by_id)))
apply-Within_example =
    apply-Within (failing "app" 2) specs as_listed as_listed as_listed-VisitsAll as_listed-VisitsAll
      by_id by_id-IsRegistry

apply-AllDone_example :
    ((apply (failing "app" 1) as_listed as_listed specs by_id).1.errors ≡ [])
    × AllDone specs
        (keys by_id.engines)
        by_id.engines
        (apply (failing "app" 1) as_listed as_listed specs by_id).1
apply-AllDone_example =
    apply-AllDone (failing "app" 1) specs as_listed as_listed as_listed-VisitsAll
      as_listed-VisitsAll by_id by_id-IsRegistry 1 by_id-config by_id-succeeds

apply-rolls_back_example : ◌≡◌ {A = List String} ("u1" ∷ []) (
    if by_id.config.rollback_on_failure
    then reverse (apply (failing "app" 2) as_listed as_listed specs by_id).1.completed_engines
    else [])
apply-rolls_back_example =
    apply-rolls_back (failing "app" 2) specs as_listed as_listed as_listed-VisitsAll
      as_listed-VisitsAll by_id by_id-IsRegistry 1 (("app", apply_failed "quota") ∷ []) ("u1" ∷ [])
      by_id-fails

execute_engine-Ends_example :
    Ends
      (failing "app" 1)
      (engine "u2" "app" [])
      "v1"
      0
      2
      by_id
      (execute_engine (failing "app" 1) (engine "u2" "app" []) "v1" by_id)
execute_engine-Ends_example =
    execute_engine-Ends (failing "app" 1) (engine "u2" "app" []) "v1" by_id 1 by_id-config

abbrev named_engines : Map Engine
named_engines = ("u2", engine "u2" "app" ("infra" ∷ [])) ∷ ("u1", engine "u1" "infra" []) ∷ []

by_name-engines : by_name.engines ≡ named_engines
unfolding program
by_name-engines = refl

no_ids : NoIds named_engines
unfolding program
no_ids id d e found named = elim (Bool-cases ("infra" == d)) [
  | inl same ↦ subst (λ i. has i named_engines ≡ false) ((eq_iff "infra" d).0 same) refl
  | inr apart ↦ absurd (ground (arith, eq_iff "u2" id, eq_iff "u1" id))
]

u1-registered : has "u1" by_name.engines ≡ true
unfolding program
u1-registered = refl

engine_levels-flat_example :
    (first : List String) × (rest : List (List String)) × (engine_levels as_listed by_name.dep_graph
      ≡ ok (first ∷ rest))
    × ((a : String) → has a by_name.engines ≡ true → a ∈ first)
engine_levels-flat_example =
    engine_levels-flat as_listed as_listed-VisitsAll by_name.engines by_name.dep_graph
      (Reached-IsRegistry by_name by_name-Reached) (subst NoIds (sym by_name-engines) no_ids) "u1"
      u1-registered
