-- ===== src/Engine/Coordinator/Kept.antt =====
-- internal/engine/coordinator.go: what the attempts of an engine leave alone and what they add.
use platformfoundry_ce.Base.{
  ℕ, zero, suc, String, ◌≡◌, refl, ap, ◌∙◌, inl, inr, true, Option, none, some, List, [], ◌∷◌, ◌++◌,
  arith, contains, contains-append, ◌∈◌,
}
use platformfoundry_ce.Base.Maps.{Map, lookup, has, has-insert, flag-insert}
use platformfoundry_ce.Dag.Goroutines.{empty, takes, Adds, Adds-none, Adds-trans}
use platformfoundry_ce.Engine.Resolver.{mark_completed, is_completed}
use platformfoundry_ce.Engine.Coordinator.{
  Engine, RunError, Methods, Coordinator, find_spec, store, attempts_from,
}
use platformfoundry_ce.Engine.Coordinator.Runs.{
  settled, outcome-cases, attempts_from-next, next, Ends,
}

-- Each engine stands under its own ID.
abbrev pub NamedIn : Map Engine → Type 0
NamedIn engines = (id : String) (engine : Engine) → lookup id engines ≡ some engine → engine.id ≡ id

-- The engines of these IDs that have a specification are completed.
abbrev pub AllDone {ℓ} :
    {R V S : Type ℓ} → Map (Option S) → List String → Map Engine → Coordinator R V → Type ℓ
AllDone {S} specs ids engines d =
    (id : String) (engine : Engine) (spec : S)
    → id ∈ ids
    → lookup id engines ≡ some engine
    → find_spec engine specs ≡ some spec
    → id ∈ d.completed_engines

module _ {ℓ} {R V : Type ℓ} where
  -- The engines, the graph and the configuration stay, and of these IDs some are completed, in this
  -- order.
  pub record Keeps (ids : List String) (c d : Coordinator R V) : Type ℓ where
    pub engines : d.engines ≡ c.engines
    pub dep_graph : d.dep_graph ≡ c.dep_graph
    pub config : d.config ≡ c.config
    pub adds : Adds c.completed_engines ids d.completed_engines

  pub Keeps-none : (ids : List String) (c : Coordinator R V) → Keeps ids c c
  Keeps-none ids c = record {
    engines = refl;
    dep_graph = refl;
    config = refl;
    adds = Adds-none c.completed_engines ids;
  }

  pub Keeps-trans :
      (ids jds : List String) {c d x : Coordinator R V}
      → Keeps ids c d
      → Keeps jds d x
      → Keeps (ids ++ jds) c x
  Keeps-trans ids jds h k = record {
    engines = k.engines ∙ h.engines;
    dep_graph = k.dep_graph ∙ h.dep_graph;
    config = k.config ∙ h.config;
    adds = Adds-trans _ _ _ ids jds h.adds k.adds;
  }

  -- Exactly the completed engines have a result, and are done for the resolver.
  abbrev pub InStep : Coordinator R V → Type 0
  InStep c =
      (id : String)
      → (has id c.results ≡ contains c.completed_engines id)
        × (is_completed c.dep_resolver id ≡ contains c.completed_engines id)

  pub store-InStep :
      (engine : Engine) (result : R) (outputs : Map V) (c : Coordinator R V)
      → InStep c
      → InStep (store engine result outputs c)
  unfolding store mark_completed is_completed
  store-InStep engine result outputs c h id = ground (
    arith,
    (h id).0,
    (h id).1,
    contains-append c.completed_engines (engine.id ∷ []) id,
    has-insert engine.id id result c.results,
    flag-insert engine.id id true c.dep_resolver.completed,
  )

module _ {ℓ} {R V S : Type ℓ} (methods : Methods R V S) where
  pub attempts_from-Keeps :
      (engine : Engine) (spec : S) (left n : ℕ) (last : Option RunError) (c : Coordinator R V)
      → Keeps (engine.id ∷ []) c (attempts_from methods engine spec left n last c).1
  unfolding attempts_from next settled store
  attempts_from-Keeps engine spec zero n last c = record {
    engines = refl;
    dep_graph = refl;
    config = refl;
    adds = Adds-none c.completed_engines (engine.id ∷ []);
  }
  attempts_from-Keeps engine spec (suc left) n last c = elim (outcome-cases methods engine spec n) [
    | inr (result, outputs, o) ↦
        rw (attempts_from-next methods engine spec left n last c _ o) (record {
          engines = refl;
          dep_graph = refl;
          config = refl;
          adds = (engine.id ∷ [], refl, takes engine.id empty);
        })
    | inl (e, o) ↦
        rw (attempts_from-next methods engine spec left n last c _ o)
          (attempts_from-Keeps engine spec left (suc n) (some e) c)
  ]

  pub attempts_from-InStep :
      (engine : Engine) (spec : S) (left n : ℕ) (last : Option RunError) (c : Coordinator R V)
      → InStep c
      → InStep (attempts_from methods engine spec left n last c).1
  unfolding attempts_from next settled
  attempts_from-InStep engine spec zero n last c h = h
  attempts_from-InStep engine spec (suc left) n last c h =
      elim (outcome-cases methods engine spec n) [
        | inr (result, outputs, o) ↦
            rw (attempts_from-next methods engine spec left n last c _ o)
              (store-InStep engine result outputs c h)
        | inl (e, o) ↦
            rw (attempts_from-next methods engine spec left n last c _ o)
              (attempts_from-InStep engine spec left (suc n) (some e) c h)
      ]

  -- An engine that returns no error is completed, and leaves no error.
  pub Ends-completes :
      (engine : Engine) (spec : S) (n left : ℕ) (c : Coordinator R V)
      (r : Option RunError × Coordinator R V)
      → Ends methods engine spec n left c r
      → r.0 ≡ none
      → (r.1.completed_engines ≡ c.completed_engines ++ engine.id ∷ []) × (r.1.errors ≡ c.errors)
  unfolding store
  Ends-completes engine spec n left c r (inl (k, result, outputs, from, to, before, o, e)) h =
      (ap (λ x. x.1.completed_engines) e, ap (λ x. x.1.errors) e)
  Ends-completes engine spec n left c r (inr (k, x, last, all, o, e)) h =
      absurd (ground (arith, ap (λ y. y.0) e))
