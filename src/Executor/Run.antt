-- ===== src/Executor/Run.antt =====
-- internal/workflow/dag/executor.go: Execute and executeLevel. The goroutines of a level are taken one
-- after the other, in an order that is left open; each works on the entry of its own step. Resolve
-- of internal/workflow/dag/resolver.go, which returns no error, gives the text of a condition.
use platformfoundry_ce.Base.{
  ℕ, suc, String, Bool, true, false, not, ◌||◌, none, some, List, [], ◌∷◌, ◌++◌, if◌then◌else◌,
  ◌==◌,
}
use platformfoundry_ce.Base.Maps.{Map, lookup, insert, RangeOrder}
use platformfoundry_ce.Dag.Graph.{Graph, Error, ok, err}
use platformfoundry_ce.Dag.Levels.{get_parallel_execution_levels}
use platformfoundry_ce.Executor.Step.{
  StepSpec, StepExecution, skipped, Env, step_execution, execute_step,
}

-- The steps of the execution, and the IDs that `OnStepStart` was called with.
pub record Execution : Type 0 where
  pub steps : Map StepExecution
  pub started : List String

unfoldable pub step_map : List StepSpec → Map StepSpec → Map StepSpec
step_map [] m = m
step_map (step ∷ rest) m = step_map rest (insert step.id step m)

unfoldable pub evaluate_condition : String → Bool
evaluate_condition resolved =
    if resolved == "true" || resolved == "1" || resolved == "yes"
    then true
    else if resolved == "false" || resolved == "0" || resolved == "no" || resolved == ""
    then false
    else not (resolved == "")

unfoldable pub should_run : Env → StepSpec → Bool
should_run env spec =
    if spec.condition == "" then true else evaluate_condition (env.resolved_condition spec)

unfoldable pub skip_step : String → Execution → Execution
skip_step id x = elim (lookup id x.steps) [
  | none ↦ x
  | some e ↦ record x { steps = insert id (record e { status = skipped }) x.steps }
]

-- The goroutine of a step: whether it sends an error, and what it leaves.
unfoldable pub run_step : Env → StepSpec → Execution → Bool × Execution
run_step env spec x =
    let r = execute_step env spec (step_execution x.steps spec.id) in
    (
      r.0,
      record {
        steps = insert spec.id r.1 x.steps;
        started = (if r.2 then x.started ++ spec.id ∷ [] else x.started);
      },
    )

-- The steps of a level; the failed ones are collected.
unfoldable pub level_steps :
    Env → Map StepSpec → List String → List String → Execution → List String × Execution
level_steps env specs [] errors x = (errors, x)
level_steps env specs (id ∷ ids) errors x = elim (lookup id specs) [
  | none ↦ level_steps env specs ids errors x
  | some spec ↦
      if should_run env spec
      then (let r = run_step env spec x in
          level_steps env specs ids (if r.0 then errors else errors ++ id ∷ []) r.1)
      else level_steps env specs ids errors (skip_step id x)
]

pub data Finished : Type 0 where
  done : Finished
  level_failed : ℕ → List String → Finished
  no_levels : Error → Finished

-- The loop over the levels; `order n` is the order of the goroutines of the n-th.
unfoldable pub run_levels :
    RangeOrder
    → Env
    → Bool
    → Map StepSpec
    → ℕ
    → List (List String)
    → Execution
    → Finished × Execution
run_levels order env continue_on_failure specs n [] x = (done, x)
run_levels order env continue_on_failure specs n (level ∷ levels) x =
    let r = level_steps env specs (order n level) [] x in
    let rest = run_levels order env continue_on_failure specs (suc n) levels r.1 in
    if continue_on_failure
    then rest
    else (elim r.0 [ [] ↦ rest | id ∷ ids ↦ (level_failed n (id ∷ ids), r.1) ])

unfoldable pub execute :
    RangeOrder → RangeOrder → Env → Bool → Graph → List StepSpec → Execution → Finished × Execution
execute range order env continue_on_failure g specs x =
    elim (get_parallel_execution_levels range g) [
      | err e ↦ (no_levels e, x)
      | ok levels ↦ run_levels order env continue_on_failure (step_map specs []) 0 levels x
    ]
