-- ===== src/Engine/Resolver.antt =====
-- internal/engine/dependency_graph.go: the resolver that tells which engines are done. The graph that
-- it points to is an argument. The values of outputs are any type. A send on the channel of
-- completions never blocks: with 100 IDs waiting, it is left out.
use platformfoundry_ce.Base.{
  ℕ, String, Bool, true, false, not, ◌||◌, none, some, List, [], ◌∷◌, ◌++◌, if◌then◌else◌, ltb,
  length, ◌==◌,
}
use platformfoundry_ce.Base.Maps.{Map, lookup, insert, has, keys, flag, RangeOrder}
use platformfoundry_ce.Engine.Graph.{DependencyGraph}

pub record Resolver {ℓ} (V : Type ℓ) : Type ℓ where
  pub completed : Map Bool
  pub outputs : Map (Map V)
  pub notify_chan : List String

-- The loop of `findEngineByName`: the first of these IDs that is the name, or whose node has it.
unfoldable pub first_named : DependencyGraph → String → List String → String
first_named g name [] = ""
first_named g name (id ∷ ids) =
    let rest = first_named g name ids in
    elim (lookup id g.nodes) [
      | none ↦ rest
      | some node ↦ if node.name == name || id == name then id else rest
    ]

unfoldable pub find_engine_by_name : RangeOrder → DependencyGraph → String → String
find_engine_by_name range g name = first_named g name (range 0 (keys g.nodes))

-- The capacity of the channel.
abbrev pub capacity : ℕ
capacity = 100

module _ {ℓ} {V : Type ℓ} where
  unfoldable pub new_resolver : Resolver V
  new_resolver = record { completed = []; outputs = []; notify_chan = [] }

  unfoldable pub is_satisfied : RangeOrder → DependencyGraph → Resolver V → List String → Bool
  is_satisfied range g r [] = true
  is_satisfied range g r (dep ∷ deps) =
      let rest = is_satisfied range g r deps in
      let id = find_engine_by_name range g dep in
      if id == "" then rest else if not (flag id r.completed) then false else rest

  unfoldable pub mark_completed : String → Map V → Resolver V → Resolver V
  mark_completed id outputs r = record {
    completed = insert id true r.completed;
    outputs = insert id outputs r.outputs;
    notify_chan =
        (if ltb (length r.notify_chan) capacity then r.notify_chan ++ id ∷ [] else r.notify_chan);
  }

  unfoldable pub is_completed : Resolver V → String → Bool
  is_completed r id = flag id r.completed

  unfoldable pub reset : Resolver V → Resolver V
  reset r = record r { completed = []; outputs = [] }

  unfoldable pub target_id : RangeOrder → DependencyGraph → Resolver V → String → String
  target_id range g r id = if has id r.outputs then id else find_engine_by_name range g id

pub data Output {ℓ} (V : Type ℓ) : Type ℓ where
  value : V → Output V
  no_key no_outputs : Output V

module _ {ℓ} {V : Type ℓ} where
  unfoldable pub get_output : RangeOrder → DependencyGraph → Resolver V → String → String → Output V
  get_output range g r id key = elim (lookup (target_id range g r id) r.outputs) [
    | none ↦ no_outputs
    | some outputs ↦ elim (lookup key outputs) [ none ↦ no_key | some v ↦ value v ]
  ]

-- What wakes `WaitFor`: the context, its timer, the ticker, or a completion.
pub data Event : Type 0 where
  cancelled timed_out ticked : Event
  notified : String → Event

pub data Waited : Type 0 where
  ready context_error timeout still_waiting : Waited

module _ {ℓ} {V : Type ℓ} where
  -- The loop of `WaitFor`, over the events that come and the states that it meets then.
  unfoldable pub wait_loop :
      RangeOrder → DependencyGraph → List String → List (Event × Resolver V) → Waited
  wait_loop range g deps [] = still_waiting
  wait_loop range g deps ((cancelled, r) ∷ events) = context_error
  wait_loop range g deps ((timed_out, r) ∷ events) = timeout
  wait_loop range g deps ((ticked, r) ∷ events) =
      let rest = wait_loop range g deps events in
      if is_satisfied range g r deps then ready else rest
  wait_loop range g deps ((notified id, r) ∷ events) =
      let rest = wait_loop range g deps events in
      if is_satisfied range g r deps then ready else rest

  unfoldable pub wait_for :
      RangeOrder → DependencyGraph → List String → Resolver V → List (Event × Resolver V) → Waited
  wait_for range g deps r events =
      let rest = wait_loop range g deps events in
      if is_satisfied range g r deps then ready else rest
