-- ===== src/Engine/Waiting.antt =====
-- internal/engine/dependency_graph.go: when `WaitFor` returns.
use platformfoundry_ce.Base.{
  String, ◌≡◌, refl, Bool, true, false, List, [], ◌∷◌, ◌++◌, if◌then◌else◌, arith, All,
}
use platformfoundry_ce.Base.Maps.{RangeOrder, VisitsAll}
use platformfoundry_ce.Engine.Graph.{DependencyGraph}
use platformfoundry_ce.Engine.Resolver.{
  Resolver, is_satisfied, Event, cancelled, timed_out, ticked, notified, ready, wait_loop, wait_for,
}
use platformfoundry_ce.Engine.Satisfied.{IsUnambiguous, IsDone, is_satisfied_iff}

-- An event that only makes the loop look again.
unfoldable pub is_wake : Event → Bool
is_wake cancelled = false
is_wake timed_out = false
is_wake ticked = true
is_wake (notified id) = true

module _ {ℓ} {V : Type ℓ} (range : RangeOrder) (visits : VisitsAll range) (g : DependencyGraph)
    (deps : List String) where
  wait_loop-wake :
      (e : Event) (r : Resolver V) (events : List (Event × Resolver V))
      → is_wake e ≡ true
      → wait_loop range g deps ((e, r) ∷ events)
        ≡ (if is_satisfied range g r deps then ready else wait_loop range g deps events)
  unfolding wait_loop is_wake
  wait_loop-wake cancelled r events h = cc
  wait_loop-wake timed_out r events h = cc
  wait_loop-wake ticked r events h = refl
  wait_loop-wake (notified id) r events h = refl

  wait_loop-ready :
      (before : List (Event × Resolver V)) (e : Event) (r : Resolver V)
      (later : List (Event × Resolver V))
      → All (λ x. is_wake x.0 ≡ true) before
      → is_wake e ≡ true
      → is_satisfied range g r deps ≡ true
      → wait_loop range g deps (before ++ (e, r) ∷ later) ≡ ready
  wait_loop-ready [] e r later quiet wake done = rw (wait_loop-wake e r later wake, done) refl
  wait_loop-ready ((d, q) ∷ before) e r later quiet wake done = ground (
    arith,
    wait_loop-wake d q (before ++ (e, r) ∷ later) quiet.0,
    wait_loop-ready before e r later quiet.1 wake done,
  )

  module _ (unambiguous : IsUnambiguous g) where
    -- In a graph where no name stands for two engines, and no engine has the empty ID: if only
    -- ticks and completions come before an event, itself a tick or a completion, at which every
    -- engine that a dependency names is completed, then WaitFor returns without an error, at that
    -- event at the latest, whatever comes later.
    pub wait_for-ready :
        (r : Resolver V) (before : List (Event × Resolver V)) (e : Event) (q : Resolver V)
        (later : List (Event × Resolver V))
        → All (λ x. is_wake x.0 ≡ true) before
        → is_wake e ≡ true
        → All (IsDone g q) deps
        → wait_for range g deps r (before ++ (e, q) ∷ later) ≡ ready
    unfolding wait_for
    wait_for-ready r before e q later quiet wake done = ground (
      arith,
      wait_loop-ready before e q later quiet wake
          ((is_satisfied_iff range visits g unambiguous q deps).1 done),
    )
