-- ===== src/Executor/Step.antt =====
-- internal/workflow/dag/executor.go: executeStep. What a handler returns for a step on each attempt,
-- whether there is one for its type, and whether the step's configuration resolves, are arguments:
-- a handler is code behind an interface, and is taken not to change the step's entry itself. Times,
-- logs and the delay between attempts are left out.
use platformfoundry_ce.Base.{
  ℕ, zero, suc, String, Bool, true, false, not, ◌&&◌, ◌||◌, Option, none, some, [], if◌then◌else◌,
  ◌==◌,
}
use platformfoundry_ce.Base.Maps.{Map, lookup}

pub data StepStatus : Type 0 where
  pending running completed failed skipped cancelled : StepStatus

-- `max_attempts` is none without a retry configuration; a negative number is 0.
pub record StepSpec : Type 0 where
  pub id : String
  pub condition : String
  pub max_attempts : Option ℕ
  pub continue_on_failure : Bool

pub record StepExecution : Type 0 where
  pub step_id : String
  pub status : StepStatus
  pub attempt : ℕ
  pub outputs : Map String
  pub error : String

-- `error` is the text of the error, or else the message, empty without both.
pub record StepResult : Type 0 where
  pub status : StepStatus
  pub outputs : Map String
  pub error : String

-- What `Execute` of a handler returns.
pub record Attempt : Type 0 where
  pub result : Option StepResult
  pub error : Option String

-- The environment of an execution.
pub record Env : Type 0 where
  pub has_handler : StepSpec → Bool
  pub config_error : StepSpec → Option String
  pub attempt : StepSpec → ℕ → Attempt
  pub resolved_condition : StepSpec → String

-- The entry of the execution for a step, a new one if there is none.
unfoldable pub step_execution : Map StepExecution → String → StepExecution
step_execution steps id = elim (lookup id steps) [
  | none ↦ record { step_id = id; status = pending; attempt = 0; outputs = []; error = "" }
  | some e ↦ e
]

unfoldable pub is_completed : StepStatus → Bool
is_completed completed = true
is_completed _ = false

unfoldable pub is_failed : StepStatus → Bool
is_failed failed = true
is_failed _ = false

unfoldable pub process_result : Option StepResult → StepExecution → StepExecution
process_result none e = e
process_result (some r) e = record e {
  status = r.status;
  outputs = r.outputs;
  error = (if r.error == "" then e.error else r.error);
}

-- The two returns of no error in the loop.
unfoldable pub succeeds : StepSpec → Option StepResult → StepExecution → Bool
succeeds spec none e = spec.continue_on_failure && is_failed e.status
succeeds spec (some r) e = is_completed r.status || (spec.continue_on_failure && is_failed e.status)

-- Behind the loop: the error, if there was one, or the status decide.
unfoldable pub conclude : Option String → StepExecution → Bool × StepExecution
conclude (some err) e = (false, record e { status = failed; error = err })
conclude none e = (is_completed e.status, e)

unfoldable pub start_attempt : ℕ → StepExecution → StepExecution
start_attempt n e = record e { attempt = n; status = running }

unfoldable pub end_attempt :
    StepSpec → Option String → Attempt → StepExecution → Bool × StepExecution
end_attempt spec last a e =
    let e' = process_result a.result e in
    if succeeds spec a.result e'
    then (true, e')
    else conclude (elim a.error [ none ↦ last | some err ↦ some err ]) e'

-- The loop over the attempts, of which so many are left; `n` is the number of the next.
unfoldable pub attempts :
    (ℕ → Attempt) → StepSpec → Option String → ℕ → ℕ → StepExecution → Bool × StepExecution
attempts handle spec last zero n e = conclude last e
attempts handle spec last (suc left) n e =
    let begun = start_attempt n e in
    elim (handle n).error [
      | none ↦ end_attempt spec last (handle n) begun
      | some err ↦ elim left [
        | zero ↦ end_attempt spec last (handle n) begun
        | suc more ↦ attempts handle spec (some err) left (suc n) begun
      ]
    ]

unfoldable pub max_attempts : StepSpec → ℕ
max_attempts spec = elim spec.max_attempts [ none ↦ 1 | some n ↦ n ]

-- Whether the step ended without an error, its entry, and whether `OnStepStart` was called.
unfoldable pub execute_step : Env → StepSpec → StepExecution → Bool × StepExecution × Bool
execute_step env spec e =
    if not (env.has_handler spec)
    then (false, record e { status = failed; error = "no handler registered" }, false)
    else (elim (env.config_error spec) [
      | some err ↦ (false, record e { status = failed; error = err }, false)
      | none ↦
          let r = attempts (env.attempt spec) spec none (max_attempts spec) 1 e in (r.0, r.1, true)
    ])
