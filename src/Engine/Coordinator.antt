-- ===== src/Engine/Coordinator.antt =====
-- internal/engine/coordinator.go: the engines that are registered, and their run level by level. An
-- engine is code behind an interface: what its Initialize, Start and Apply return on each attempt is
-- an argument, and its ID, name, category and dependencies do not change. Events, times, the mock
-- mode and the semaphore, which only delays, are left out. The goroutines of a level are taken one
-- after the other, in an order that is left open.
pub mod Runs
pub mod Registry
pub mod Kept
pub mod Rounds
pub mod Levels
pub mod Apply
pub mod Reached
pub mod Flat
mod Tests
use platformfoundry_ce.Base.{
  ℕ, zero, suc, ◌-◌, String, Bool, true, false, ◌||◌, Option, none, some, List, [], ◌∷◌, ◌++◌,
  if◌then◌else◌, ltb, length, ◌==◌,
}
use mathlib.Core.List.{reverse}
use platformfoundry_ce.Base.Int64.{Int64, zero_i64}
use platformfoundry_ce.Base.Maps.{Map, lookup, insert, delete, has, keys, RangeOrder}
use platformfoundry_ce.Dag.Graph.{Error, ok, err}
use platformfoundry_ce.Engine.Graph.{
  DependencyGraph, new_dependency_graph, add_engine, remove_engine, engine_levels,
}
use platformfoundry_ce.Engine.Resolver.{Resolver, new_resolver, mark_completed, reset}

pub record Engine : Type 0 where
  pub id : String
  pub name : String
  pub category : String
  pub depends_on : List String

-- The fields of the configuration that steer the run.
pub record CoordinatorConfig : Type 0 where
  pub rollback_on_failure : Bool
  pub retry_count : Int64

-- The wrapped errors of `runEngine`.
pub data RunError : Type 0 where
  initialization_failed start_failed apply_failed : String → RunError

-- What Apply of an engine returns: an error, or its result, and then its outputs.
pub data Reply {ℓ} (R V : Type ℓ) : Type ℓ where
  refuses : String → Reply R V
  gives : R → Map V → Reply R V

-- The engines' methods, on the attempt of this number.
pub record Methods {ℓ} (R V S : Type ℓ) : Type ℓ where
  pub initialize : Engine → ℕ → Option String
  pub start : Engine → ℕ → Option String
  pub apply_spec : Engine → S → ℕ → Reply R V

-- An error of the map `errors` is none where Go stores nil.
pub record Coordinator {ℓ} (R V : Type ℓ) : Type ℓ where
  pub engines : Map Engine
  pub dep_graph : DependencyGraph
  pub dep_resolver : Resolver V
  pub results : Map R
  pub errors : Map (Option RunError)
  pub completed_engines : List String
  pub config : CoordinatorConfig

pub data Registered : Type 0 where
  done : Registered
  already_registered not_found : String → Registered

-- How `Apply` ends. The last part of a failed level is what Rollback was called on, in this order.
pub data Applied : Type 0 where
  completed : Applied
  no_levels : Error → Applied
  level_failed : ℕ → List (String × RunError) → List String → Applied

-- The attempts that the loop allows, none for a negative number.
unfoldable pub max_retries : Int64 → ℕ
max_retries count = if ltb count zero_i64 || ltb zero_i64 count then count - zero_i64 else 1

-- The entry of a map of specifications may be nil.
unfoldable pub find_spec {ℓ} : {S : Type ℓ} → Engine → Map (Option S) → Option S
find_spec engine specs = elim (lookup engine.name specs) [
  | some spec ↦ spec
  | none ↦ elim (lookup engine.category specs) [ some spec ↦ spec | none ↦ none ]
]

-- The loop of `GetEngineByName`.
unfoldable pub first_engine : Map Engine → String → List String → Option Engine
first_engine engines name [] = none
first_engine engines name (id ∷ ids) =
    let rest = first_engine engines name ids in
    elim (lookup id engines) [
      | none ↦ rest
      | some engine ↦ if engine.name == name then some engine else rest
    ]

-- The loop of `rollbackCompleted` over the IDs, last first: it passes by those not registered.
unfoldable pub rolled_back : Map Engine → List String → List String
rolled_back engines [] = []
rolled_back engines (id ∷ ids) =
    let rest = rolled_back engines ids in if has id engines then id ∷ rest else rest

module _ {ℓ} {R V : Type ℓ} where
  unfoldable pub new_coordinator : CoordinatorConfig → Coordinator R V
  new_coordinator config = record {
    engines = [];
    dep_graph = new_dependency_graph;
    dep_resolver = new_resolver;
    results = [];
    errors = [];
    completed_engines = [];
    config = config;
  }

  unfoldable pub register_engine : Engine → Coordinator R V → Registered × Coordinator R V
  register_engine engine c =
      if has engine.id c.engines then (already_registered engine.id, c) else (
        done,
        record c {
          engines = insert engine.id engine c.engines;
          dep_graph = add_engine c.dep_graph engine.id engine.name engine.depends_on;
        },
      )

  unfoldable pub unregister_engine : String → Coordinator R V → Registered × Coordinator R V
  unregister_engine id c =
      if has id c.engines
      then (
        done,
        record c { engines = delete id c.engines; dep_graph = remove_engine c.dep_graph id },
      )
      else (not_found id, c)

  unfoldable pub get_engine : Coordinator R V → String → Option Engine
  get_engine c id = lookup id c.engines

  unfoldable pub get_engine_by_name : RangeOrder → Coordinator R V → String → Option Engine
  get_engine_by_name range c name = first_engine c.engines name (range 0 (keys c.engines))

  unfoldable pub engine_count : Coordinator R V → ℕ
  engine_count c = length c.engines

  unfoldable pub get_engine_ids : RangeOrder → Coordinator R V → List String
  get_engine_ids range c = range 0 (keys c.engines)

  -- The end of `runEngine`, when Apply of the engine has returned.
  unfoldable pub store : Engine → R → Map V → Coordinator R V → Coordinator R V
  store engine result outputs c = record c {
    results = insert engine.id result c.results;
    dep_resolver = mark_completed engine.id outputs c.dep_resolver;
    completed_engines = c.completed_engines ++ engine.id ∷ [];
  }

  unfoldable pub rollback_completed : Coordinator R V → List String
  rollback_completed c = rolled_back c.engines (reverse c.completed_engines)

  -- The fields that `Apply` sets first.
  unfoldable pub reset_state : Coordinator R V → Coordinator R V
  reset_state c = record c {
    dep_resolver = reset c.dep_resolver;
    results = [];
    errors = [];
    completed_engines = [];
  }

module _ {ℓ} {R V S : Type ℓ} (methods : Methods R V S) where
  unfoldable pub run_engine : Engine → S → ℕ → Coordinator R V → Option RunError × Coordinator R V
  run_engine engine spec n c = elim (methods.initialize engine n) [
    | some e ↦ (some (initialization_failed e), c)
    | none ↦ elim (methods.start engine n) [
      | some e ↦ (some (start_failed e), c)
      | none ↦ elim (methods.apply_spec engine spec n) [
        | refuses e ↦ (some (apply_failed e), c)
        | gives result outputs ↦ (none, store engine result outputs c)
      ]
    ]
  ]

  -- The loop of `executeEngine` with this many attempts left, and the error so far.
  unfoldable pub attempts_from :
      Engine → S → ℕ → ℕ → Option RunError → Coordinator R V → Option RunError × Coordinator R V
  attempts_from engine spec zero n last c =
      (last, record c { errors = insert engine.id last c.errors })
  attempts_from engine spec (suc left) n last c = elim (run_engine engine spec n c).0 [
    | none ↦ (none, (run_engine engine spec n c).1)
    | some e ↦ attempts_from engine spec left (suc n) (some e) (run_engine engine spec n c).1
  ]

  unfoldable pub execute_engine : Engine → S → Coordinator R V → Option RunError × Coordinator R V
  execute_engine engine spec c =
      attempts_from engine spec (max_retries c.config.retry_count) 0 none c

  -- The engines of a level; the names of the failed ones are collected with their errors.
  unfoldable pub execute_level :
      Map (Option S)
      → List String
      → List (String × RunError)
      → Coordinator R V
      → List (String × RunError) × Coordinator R V
  execute_level specs [] errs c = (errs, c)
  execute_level specs (id ∷ ids) errs c = elim (lookup id c.engines) [
    | none ↦ execute_level specs ids errs c
    | some engine ↦ elim (find_spec engine specs) [
      | none ↦ execute_level specs ids errs c
      | some spec ↦
          let r = execute_engine engine spec c in
          execute_level specs ids
            (elim r.0 [ none ↦ errs | some e ↦ errs ++ (engine.name, e) ∷ [] ]) r.1
    ]
  ]

  -- The loop of `Apply`; `order n` is the order of the goroutines of the n-th level.
  unfoldable pub apply_levels :
      RangeOrder
      → Map (Option S)
      → ℕ
      → List (List String)
      → Coordinator R V
      → Applied × Coordinator R V
  apply_levels order specs n [] c = (completed, c)
  apply_levels order specs n (level ∷ levels) c =
      let r = execute_level specs (order n level) [] c in
      elim r.0 [
        | [] ↦ apply_levels order specs (suc n) levels r.1
        | e ∷ es ↦ (
          level_failed n (e ∷ es)
              (if r.1.config.rollback_on_failure then rollback_completed r.1 else []),
          r.1,
        )
      ]

  unfoldable pub apply :
      RangeOrder → RangeOrder → Map (Option S) → Coordinator R V → Applied × Coordinator R V
  apply range order specs c = elim (engine_levels range c.dep_graph) [
    | err e ↦ (no_levels e, reset_state c)
    | ok levels ↦ apply_levels order specs 0 levels (reset_state c)
  ]
