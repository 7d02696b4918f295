-- ===== src/Executor/Order.antt =====
-- internal/workflow/dag/executor.go with internal/workflow/dag/graph.go: the order in which steps are
-- started.
use platformfoundry_ce.Base.{
  ℕ, suc, String, ◌≡◌, ◌⊎◌, refl, sym, ap, subst, ◌∙◌, inl, inr, Bool, true, false, some, List, [],
  ◌∷◌, ◌++◌, if◌then◌else◌, arith, ◌==◌, eq_iff, Bool-cases, Option-cases, Distinct, Perm,
}
use mathlib.Core.List.Perm
use platformfoundry_ce.Base.Maps.{Map, lookup, insert, lookup-insert, keys, RangeOrder, VisitsAll}
use platformfoundry_ce.Dag.Graph.{Graph, closed_path, circular}
use platformfoundry_ce.Dag.Walks.{IsCycle}
use platformfoundry_ce.Dag.Layers.{IsOrdered}
use platformfoundry_ce.Dag.Goroutines.{
  Within, empty, takes, goroutines, Adds, Adds-none, Adds-trans, goroutines-IsOrdered,
  goroutines-Perm,
}
use platformfoundry_ce.Dag.Schedule.{get_parallel_execution_levels-IsSchedule}
use platformfoundry_ce.Executor.Step.{StepSpec, Env}
use platformfoundry_ce.Executor.Run.{
  Execution, step_map, should_run, skip_step, run_step, level_steps, Finished, run_levels, execute,
  no_levels, level_failed,
}

skip_step-started : (id : String) (x : Execution) → (skip_step id x).started ≡ x.started
unfolding skip_step
skip_step-started id x = elim (Option-cases (lookup id x.steps)) [
  | inl e ↦ rw (e, skip_step) refl
  | inr (ex, e) ↦ rw (e, skip_step) refl
]

run_step-Adds :
    (env : Env) (spec : StepSpec) (x : Execution)
    → Adds x.started (spec.id ∷ []) (run_step env spec x).1.started
unfolding run_step
run_step-Adds env spec x = started_or_not _
  where
    started_or_not :
        (b : Bool)
        → Adds x.started (spec.id ∷ []) (if b then x.started ++ spec.id ∷ [] else x.started)
    started_or_not true = (spec.id ∷ [], refl, takes spec.id empty)
    started_or_not false = Adds-none x.started (spec.id ∷ [])

-- Each entry of the map stands under its own ID.
abbrev pub AreNamed : Map StepSpec → Type 0
AreNamed specs = (id : String) (spec : StepSpec) → lookup id specs ≡ some spec → spec.id ≡ id

module _ (env : Env) (specs : Map StepSpec) (named : AreNamed specs) where
  level_steps-Adds :
      (ids errors : List String) (x : Execution)
      → Adds x.started ids (level_steps env specs ids errors x).1.started
  unfolding level_steps
  level_steps-Adds [] errors x = Adds-none x.started []
  level_steps-Adds (id ∷ ids) errors x = elim (Option-cases (lookup id specs)) [
    | inl e ↦
        rw (e, level_steps)
          (Adds-trans _ _ _ (id ∷ []) ids (Adds-none x.started (id ∷ []))
            (level_steps-Adds ids errors x))
    | inr (spec, e) ↦ (elim (Bool-cases (should_run env spec)) [
      | inr skips ↦
          rw (e, skips, level_steps)
            (Adds-trans _ _ _ (id ∷ []) ids
              (rw (skip_step-started id x) (Adds-none x.started (id ∷ [])))
              (level_steps-Adds ids errors (skip_step id x)))
      | inl runs ↦
          rw (e, runs, level_steps)
            (Adds-trans _ _ _ (id ∷ []) ids
              (subst (λ i. Adds x.started (i ∷ []) (run_step env spec x).1.started)
                (named id spec e) (run_step-Adds env spec x))
              (level_steps-Adds ids _ (run_step env spec x).1))
    ])
  ]

  stop_or_go :
      (continue : Bool) (n : ℕ) (errors xs ids jds : List String) (y : Execution)
      (rest : Finished × Execution)
      → Adds xs ids y.started
      → Adds y.started jds rest.1.started
      → Adds xs
          (ids ++ jds)
          (if continue then rest else (elim errors [
            | [] ↦ rest
            | id ∷ more ↦ (level_failed n (id ∷ more), y)
          ])).1.started
  stop_or_go true n errors xs ids jds y rest p q = Adds-trans _ _ _ ids jds p q
  stop_or_go false n [] xs ids jds y rest p q = Adds-trans _ _ _ ids jds p q
  stop_or_go false n (id ∷ more) xs ids jds y rest p q =
      Adds-trans _ _ _ ids jds p (Adds-none y.started jds)

  run_levels-Adds :
      (order : RangeOrder) (continue : Bool) (n : ℕ) (levels : List (List String)) (x : Execution)
      → Adds x.started
          (goroutines order n levels)
          (run_levels order env continue specs n levels x).1.started
  unfolding run_levels goroutines
  run_levels-Adds order continue n [] x = Adds-none x.started []
  run_levels-Adds order continue n (level ∷ levels) x =
      stop_or_go continue n (level_steps env specs (order n level) [] x).0 x.started (order n level)
        (goroutines order (suc n) levels) (level_steps env specs (order n level) [] x).1
        (run_levels order env continue specs (suc n) levels
          (level_steps env specs (order n level) [] x).1)
        (level_steps-Adds (order n level) [] x)
        (run_levels-Adds order continue (suc n) levels
          (level_steps env specs (order n level) [] x).1)

insert-AreNamed :
    (spec : StepSpec) (m : Map StepSpec) → AreNamed m → AreNamed (insert spec.id spec m)
insert-AreNamed spec m named id other e = elim (Bool-cases (spec.id == id)) [
  | inl same ↦
      let found : spec ≡ other = ground (arith, lookup-insert spec.id id spec m) in
      subst (λ s. s.id ≡ id) found ((eq_iff spec.id id).0 same)
  | inr apart ↦ named id other (ground (arith, lookup-insert spec.id id spec m))
]

step_map-AreNamed :
    (specs : List StepSpec) (m : Map StepSpec) → AreNamed m → AreNamed (step_map specs m)
unfolding step_map
step_map-AreNamed [] m named = named
step_map-AreNamed (spec ∷ specs) m named =
    step_map-AreNamed specs (insert spec.id spec m) (insert-AreNamed spec m named)

nil-AreNamed : AreNamed []
unfolding lookup
nil-AreNamed id spec e = absurd (ground arith)

-- For every order in which Go visits maps and in which the goroutines of a level run, node IDs
-- that are distinct, and whatever the handlers return: if the graph has a cycle, Execute starts no
-- step and returns the error with a cycle; otherwise the steps that it starts are some of the
-- nodes, each at most once and none before one that it depends on.
pub execute-Within :
    (range order : RangeOrder)
    → VisitsAll range
    → VisitsAll order
    → (env : Env) (continue : Bool) (g : Graph) (specs : List StepSpec) (x : Execution)
    → Distinct (keys g)
    → x.started ≡ []
    → ((all : List String) × Perm all (keys g)
        × IsOrdered g [] all
        × Within (execute range order env continue g specs x).1.started all)
      ⊎ ((c : List String) × IsCycle g c
          × (execute range order env continue g specs x
              ≡ (no_levels (circular (closed_path c)), x)))
unfolding execute
execute-Within range order visits order_visits env continue g specs x distinct fresh =
    elim (get_parallel_execution_levels-IsSchedule range visits g distinct) [
      | inr (c, e, cycle) ↦ inr (c, cycle, rw (e, execute) refl)
      | inl (levels, e, (layered, perm), acyclic) ↦
          let (more, started, within) =
            run_levels-Adds env (step_map specs []) (step_map-AreNamed specs [] nil-AreNamed) order
              continue 0 levels x in
          inl (
            goroutines order 0 levels,
            Perm.trans (goroutines-Perm order order_visits g 0 levels) perm,
            goroutines-IsOrdered order order_visits g 0 [] [] levels (λ a m. m) layered,
            rw (e, execute)
                (subst (λ s. Within s (goroutines order 0 levels))
                  (sym (started ∙ ap (λ s. s ++ more) fresh)) within),
          )
    ]
