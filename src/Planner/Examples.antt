-- ===== src/Planner/Examples.antt =====
-- Concrete plans.
use ranyaa.Base.{
  ℕ, String, ◌≡◌, refl, false, none, some, List, [], ◌∷◌, if◌then◌else◌, arith, str_eq, Bool-cases,
  ◌==◌, inl,
}
use ranyaa.Planner.{
  Step, Plan, pending, ordered, get_execution_order, add_dependencies, add_steps, relax,
  process_level, levels_of,
}
use ranyaa.Planner.Generate.{
  generate_plan, validate_steps, check_circular_dependencies, has_cycle, search_all, search_roots,
}
use ranyaa.Planner.Order.{IsExecutionOrder, get_execution_order_sound}
use ranyaa.Planner.Review.{Edit, added, removed, edit_all}
use ranyaa.Planner.Edits.{IsAcyclic, edit_all-get_execution_order}
use ranyaa.Planner.Executor.{
  Executor, FailureStrategy, fail_abort, fail_retry, execute, execute_levels, execute_level,
  start_steps, attempt_step,
}
use ranyaa.Planner.Executor.{step_error}
use ranyaa.Planner.Join.{step_failed, waiting_for_more, join_any}
use ranyaa.Planner.Safe.{IsCaused, execute-IsCaused}

abbrev step : String → List String → Step
step id deps = record { id = id; description = "work"; dependencies = deps; status = pending }

-- "c" waits for "a", twice, and for "b"
abbrev three : Plan
three = record {
  id = "p";
  description = "three";
  steps = step "c" ("a" ∷ "b" ∷ "a" ∷ []) ∷ step "a" [] ∷ step "b" ("a" ∷ []) ∷ [];
}

get_execution_order_sound_example :
    IsExecutionOrder three.steps (("a" ∷ []) ∷ ("b" ∷ []) ∷ ("c" ∷ []) ∷ [])
unfolding get_execution_order add_steps add_dependencies relax process_level levels_of
get_execution_order_sound_example =
    get_execution_order_sound three (("a" ∷ []) ∷ ("b" ∷ []) ∷ ("c" ∷ []) ∷ []) refl

abbrev one : Plan
one = record { id = "p"; description = "one"; steps = step "a" [] ∷ [] }

one-IsAcyclic : IsAcyclic one.steps
one-IsAcyclic = record {
  unique = λ id. ground (arith, Bool-cases (str_eq "a" id));
  rank = λ id. 0;
  falls = λ id dep e. ground (arith, e, Bool-cases (str_eq "a" id));
}

-- the second step goes in, one with an unknown dependency does not, and the first cannot go
abbrev edits : List Edit
edits = added (step "b" ("a" ∷ [])) ∷ added (step "c" ("x" ∷ [])) ∷ removed "a" ∷ []

edit_all-get_execution_order_example :
    (levels : List (List String)) × (get_execution_order (edit_all edits one) ≡ ordered levels)
edit_all-get_execution_order_example = edit_all-get_execution_order edits one one-IsAcyclic

-- every attempt at "b" fails
abbrev b_fails : FailureStrategy → Executor
b_fails strategy = record {
  max_retries = 1;
  failure_strategy = strategy;
  answers = λ id attempt. if str_eq id "b" then some "broken" else none;
  cancelled = λ id attempt. false;
}

execute-IsCaused_example : IsCaused three.steps [] (execute (b_fails fail_abort) three).0
execute-IsCaused_example = execute-IsCaused (b_fails fail_abort) three refl

abbrev parallel : Plan
parallel = record {
  id = "p";
  description = "two steps at once, and one that waits for the step that fails";
  steps = step "a" [] ∷ step "b" [] ∷ step "c" ("b" ∷ []) ∷ [];
}

-- With retries, the error of a step that runs beside others is lost, and the plan succeeds.
lost_error : (execute (b_fails fail_retry) parallel).1 ≡ none
unfolding execute execute_levels execute_level start_steps attempt_step get_execution_order
    add_steps add_dependencies relax process_level levels_of
lost_error = refl

abbrev two_digits : ℕ → String
two_digits n = if n == 2 then "2" else "1"

abbrev clashing : List Step
clashing = step "step-2" [] ∷ step "" [] ∷ []

-- The ids that are assigned are not compared with those that are given.
assigned_twice :
    generate_plan two_digits "p" "clash" clashing
    ≡ inl (record {
      id = "p";
      description = "clash";
      steps = step "step-2" [] ∷ step "step-2" [] ∷ [];
    })
unfolding generate_plan validate_steps check_circular_dependencies has_cycle search_all search_roots
assigned_twice = refl

-- With the strategy "any", the executor waits on when all steps have failed.
all_failed :
    join_any (step_failed (step_error "x") ∷ step_failed (step_error "y") ∷ []) ≡ waiting_for_more
all_failed = refl
