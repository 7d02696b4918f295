-- ===== src/Executor/Tests.antt =====
-- Runs of internal/workflow/dag/executor.go.
use platformfoundry_ce.Base.{
  ℕ, String, ◌≡◌, ◌⊎◌, refl, true, false, Option, none, some, List, [], ◌∷◌, Distinct, Perm,
  if◌then◌else◌, ◌==◌, leb,
}
use mathlib.Core.List.Perm
use platformfoundry_ce.Base.Maps.{lookup, insert, has, keys, flag, adjust, RangeOrder, VisitsAll}
use platformfoundry_ce.Base.{select}
use platformfoundry_ce.Dag.Graph.{Graph, circular, closed_path, get_dependencies}
use platformfoundry_ce.Dag.Walks.{IsCycle}
use platformfoundry_ce.Dag.Layers.{IsOrdered}
use platformfoundry_ce.Dag.Search.{detect_cycle, enter, leave, drop_last, from_first, cycle_at}
use platformfoundry_ce.Dag.Levels.{get_parallel_execution_levels, is_ready, all_completed}
use platformfoundry_ce.Executor.Step.{
  StepSpec, StepResult, Attempt, Env, StepStatus, completed, step_execution, is_completed,
  is_failed, process_result, succeeds, conclude, start_attempt, end_attempt, attempts, max_attempts,
  execute_step,
}
use platformfoundry_ce.Executor.Run.{
  Execution, step_map, evaluate_condition, should_run, skip_step, run_step, level_steps, no_levels,
  run_levels, execute,
}
use platformfoundry_ce.Executor.Attempts.{EndsAt, execute_step-EndsAt}
use platformfoundry_ce.Dag.Goroutines.{Within}
use platformfoundry_ce.Executor.Order.{execute-Within}

abbrev as_listed : RangeOrder
as_listed n ks = ks

abbrev as_listed-VisitsAll : VisitsAll as_listed
as_listed-VisitsAll n ks = Perm.refl ks

program : Unit {0}
unfolding lookup insert has keys flag adjust select get_dependencies detect_cycle enter leave
    drop_last from_first cycle_at is_ready all_completed get_parallel_execution_levels
    step_execution is_completed is_failed process_result succeeds conclude start_attempt end_attempt
    attempts max_attempts execute_step step_map evaluate_condition should_run skip_step run_step
    level_steps run_levels execute
program = tt

abbrev step : String → String → Option ℕ → StepSpec
step id condition tries = record {
  id = id;
  condition = condition;
  max_attempts = tries;
  continue_on_failure = false;
}

-- The test is listed first and depends on the build; the deployment has a condition.
abbrev pipeline : Graph
pipeline =
    ("test", record { id = "test"; name = "test"; dependencies = "build" ∷ []; dependents = [] })
    ∷ (
      "build",
      record { id = "build"; name = "build"; dependencies = []; dependents = "test" ∷ [] },
    )
    ∷ []

abbrev specs : List StepSpec
specs = step "test" "" none ∷ step "build" "" (some 3) ∷ []

abbrev result : StepStatus → StepResult
result status = record { status = status; outputs = []; error = "" }

-- The build passes on its second attempt.
abbrev flaky : StepSpec → ℕ → Attempt
flaky spec n =
    if spec.id == "build"
    then (if leb n 1
        then record { result = none; error = some "timeout" }
        else record { result = some (result completed); error = none })
    else record { result = some (result completed); error = none }

abbrev env : Env
env = record {
  has_handler = λ spec. true;
  config_error = λ spec. none;
  attempt = flaky;
  resolved_condition = λ spec. "";
}

abbrev idle : Execution
idle = record { steps = []; started = [] }

execute-started :
    (execute as_listed as_listed env false pipeline specs idle).1.started ≡ "build" ∷ "test" ∷ []
unfolding program
execute-started = refl

-- A failed comparison is a text that is not empty.
condition_always_true : evaluate_condition "failed == completed" ≡ true
unfolding program
condition_always_true = refl

-- A retry configuration without a number of attempts: the step is not run, and fails.
no_attempt_is_made :
    execute_step env (step "build" "" (some 0)) (step_execution [] "build")
    ≡ (false, step_execution [] "build", true)
unfolding program
no_attempt_is_made = refl

pipeline-Distinct : Distinct (keys pipeline)
unfolding keys
pipeline-Distinct = (refl, (refl, tt))

execute-Within_example :
    ((all : List String) × Perm all (keys pipeline)
      × IsOrdered pipeline [] all
      × Within (execute as_listed as_listed env false pipeline specs idle).1.started all)
    ⊎ ((c : List String) × IsCycle pipeline c
        × (execute as_listed as_listed env false pipeline specs idle
            ≡ (no_levels (circular (closed_path c)), idle)))
execute-Within_example =
    execute-Within as_listed as_listed as_listed-VisitsAll as_listed-VisitsAll env false pipeline
      specs idle pipeline-Distinct refl

build_attempts : max_attempts (step "build" "" (some 3)) ≡ 3
unfolding program
build_attempts = refl

execute_step-EndsAt_example :
    ((execute_step env (step "build" "" (some 3)) (step_execution [] "build")).2 ≡ true)
    × EndsAt (flaky (step "build" "" (some 3))) (step "build" "" (some 3)) 1 3 (
      (execute_step env (step "build" "" (some 3)) (step_execution [] "build")).0,
      (execute_step env (step "build" "" (some 3)) (step_execution [] "build")).1,
    )
execute_step-EndsAt_example =
    execute_step-EndsAt env (step "build" "" (some 3)) (step_execution [] "build") 2 refl refl
      build_attempts
