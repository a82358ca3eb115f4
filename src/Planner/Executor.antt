-- ===== src/Planner/Executor.antt =====
-- pkg/planner/executor.go: the retries of a step, and the levels of a plan one after another, with
-- the join strategy "all". What the step executor answers is `answers`, by step and attempt, none
-- for nil; `cancelled` says whether the context ends while the executor waits after an attempt. The
-- runs of a level are listed in the order in which they are started: they share no state.
use ranyaa.Base.{
  ℕ, zero, suc, String, Bool, true, false, not, ◌||◌, Option, none, some, List, [], ◌∷◌,
  if◌then◌else◌,
}
use ranyaa.Planner.{
  Step, StepStatus, running, completed, failed, Plan, Ordering, ordered, circular_dependencies,
  out_of_fuel, get_execution_order,
}
use ranyaa.Planner.Degrees.{is_step}

pub data FailureStrategy : Type 0 where
  fail_abort : FailureStrategy
  fail_continue : FailureStrategy
  fail_retry : FailureStrategy

pub data ExecutionError : Type 0 where
  step_error : String → ExecutionError
  context_error : ExecutionError
  step_not_found : String → ExecutionError
  no_execution_order : ExecutionError

-- the step after its execution, and the error of executeStep
pub record StepRun : Type 0 where
  pub id : String
  pub status : StepStatus
  pub attempts : ℕ
  pub error : Option ExecutionError

pub record Executor : Type 0 where
  pub max_retries : ℕ
  pub failure_strategy : FailureStrategy
  pub answers : String → ℕ → Option String
  pub cancelled : String → ℕ → Bool

-- all attempts failed
abbrev pub reported : FailureStrategy → String → Option ExecutionError
reported fail_abort err = some (step_error err)
reported fail_retry err = some (step_error err)
reported fail_continue err = none

abbrev pub or_else : Option ExecutionError → Option ExecutionError → Option ExecutionError
or_else none other = other
or_else (some err) other = some err

abbrev retries : FailureStrategy → Bool
retries fail_retry = true
retries fail_abort = false
retries fail_continue = false

abbrev pub is_abort : FailureStrategy → Bool
is_abort fail_abort = true
is_abort fail_retry = false
is_abort fail_continue = false

-- the end of executeStep: all attempts failed, or the context ended between two
abbrev pub gave_up : Executor → String → ℕ → String → StepRun
gave_up e id attempt err = record {
  id = id;
  status = failed;
  attempts = suc attempt;
  error = reported e.failure_strategy err;
}

abbrev stopped : String → ℕ → StepRun
stopped id attempt = record {
  id = id;
  status = running;
  attempts = suc attempt;
  error = some context_error;
}

abbrev pub judge_attempt : String → ℕ → (String → StepRun) → Option String → StepRun
judge_attempt id attempt on_error none = record {
  id = id;
  status = completed;
  attempts = suc attempt;
  error = none;
}
judge_attempt id attempt on_error (some err) = on_error err

-- the loop of executeStep, from an attempt with so many retries left
unfoldable pub attempt_step : Executor → String → ℕ → ℕ → StepRun
attempt_step e id attempt zero =
    judge_attempt id attempt (gave_up e id attempt) (e.answers id attempt)
attempt_step e id attempt (suc left) =
    let next = attempt_step e id (suc attempt) left in
    judge_attempt id attempt
      (λ err.
        if not (retries e.failure_strategy)
        then gave_up e id attempt err
        else if e.cancelled id attempt
        then stopped id attempt
        else next)
      (e.answers id attempt)

abbrev pub execute_step : Executor → String → StepRun
execute_step e id = attempt_step e id 0 e.max_retries

-- the steps of a level that are found, up to one that is not
unfoldable pub start_steps : Executor → List Step → List String → List StepRun × Option String
start_steps e steps [] = ([], none)
start_steps e steps (id ∷ ids) =
    let (runs, missing) = start_steps e steps ids in
    if is_step id steps then (execute_step e id ∷ runs, missing) else ([], some id)

abbrev pub first_error : List StepRun → Option ExecutionError
first_error [] = none
first_error (run ∷ runs) = or_else run.error (first_error runs)

abbrev pub is_single : List String → Bool
is_single [] = false
is_single (id ∷ []) = true
is_single (id ∷ x ∷ ids) = false

-- A single step returns its error; of several, an error counts for the strategy "abort" only.
abbrev pub join_error : Bool → List StepRun → Option String → Option ExecutionError
join_error counts runs (some id) = some (step_not_found id)
join_error counts runs none = if counts then first_error runs else none

unfoldable pub execute_level :
    Executor → List Step → List String → List StepRun × Option ExecutionError
unfolding start_steps
execute_level e steps level =
    let (runs, missing) = start_steps e steps level in
    (runs, join_error (is_single level || is_abort e.failure_strategy) runs missing)

abbrev pub then_levels :
    List StepRun
    → Option ExecutionError
    → List (List StepRun) × Option ExecutionError
    → List (List StepRun) × Option ExecutionError
then_levels runs (some err) later = (runs ∷ [], some err)
then_levels runs none later = (runs ∷ later.0, later.1)

unfoldable pub execute_levels :
    Executor → List Step → List (List String) → List (List StepRun) × Option ExecutionError
execute_levels e steps [] = ([], none)
execute_levels e steps (level ∷ levels) =
    let later = execute_levels e steps levels in
    let (runs, err) = execute_level e steps level in then_levels runs err later

abbrev pub execute_order :
    Executor → List Step → Ordering → List (List StepRun) × Option ExecutionError
execute_order e steps (ordered levels) = execute_levels e steps levels
execute_order e steps circular_dependencies = ([], some no_execution_order)
execute_order e steps out_of_fuel = ([], some no_execution_order)

-- Execute
unfoldable pub execute : Executor → Plan → List (List StepRun) × Option ExecutionError
execute e plan = execute_order e plan.steps (get_execution_order plan)
