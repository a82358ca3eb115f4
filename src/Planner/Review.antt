-- ===== src/Planner/Review.antt =====
-- pkg/planner/review.go: steps are added to a plan and removed from it.
use ranyaa.Base.{
  Bool, true, false, ◌||◌, String, Option, none, some, List, [], ◌∷◌, ◌++◌, if◌then◌else◌, str_eq,
  has,
}
use ranyaa.Planner.{Step, Plan}
use ranyaa.Planner.Degrees.{is_step}

pub data ReviewError : Type 0 where
  step_id_already_exists : String → ReviewError
  dependency_not_found : String → ReviewError
  step_needed : String → String → ReviewError
  step_not_found : String → ReviewError

-- the first dependency that no step has as its id
abbrev pub missing_dependency : List String → List Step → Option String
missing_dependency [] steps = none
missing_dependency (dep ∷ deps) steps =
    let rest = missing_dependency deps steps in if is_step dep steps then rest else some dep

abbrev add_checked : Option String → Step → Plan → Plan × Option ReviewError
add_checked (some dep) step plan = (plan, some (dependency_not_found dep))
add_checked none step plan = (record plan { steps = plan.steps ++ step ∷ [] }, none)

unfoldable pub add_step_to : Step → Plan → Plan × Option ReviewError
add_step_to step plan =
    if is_step step.id plan.steps
    then (plan, some (step_id_already_exists step.id))
    else add_checked (missing_dependency step.dependencies plan.steps) step plan

-- the first step that has the dependency
abbrev pub dependent_of : String → List Step → Option String
dependent_of id [] = none
dependent_of id (s ∷ steps) =
    let rest = dependent_of id steps in if has id s.dependencies then some s.id else rest

-- the steps without the first that has the id
abbrev pub without_step : String → List Step → List Step
without_step id [] = []
without_step id (s ∷ steps) =
    let rest = s ∷ without_step id steps in if str_eq s.id id then steps else rest

abbrev remove_checked : Option String → String → Plan → Plan × Option ReviewError
remove_checked (some other) id plan = (plan, some (step_needed id other))
remove_checked none id plan =
    if is_step id plan.steps
    then (record plan { steps = without_step id plan.steps }, none)
    else (plan, some (step_not_found id))

unfoldable pub remove_step : String → Plan → Plan × Option ReviewError
remove_step id plan = remove_checked (dependent_of id plan.steps) id plan

pub data Edit : Type 0 where
  added : Step → Edit
  removed : String → Edit

abbrev pub edit : Edit → Plan → Plan
edit (added step) plan = (add_step_to step plan).0
edit (removed id) plan = (remove_step id plan).0

abbrev pub edit_all : List Edit → Plan → Plan
edit_all [] plan = plan
edit_all (e ∷ more) plan = edit_all more (edit e plan)

pub data ModifiedError : Type 0 where
  empty_plan_id : ModifiedError
  plan_without_steps : ModifiedError
  empty_step_id : ModifiedError
  duplicate_step : String → ModifiedError
  depends_on_missing : String → String → ModifiedError

pub data ReviewDecision : Type 0 where
  approve : ReviewDecision
  modify : Option Plan → ReviewDecision
  reject : ReviewDecision
  invalid_decision : String → ReviewDecision

pub data Reviewed : Type 0 where
  reviewed : Plan → Reviewed
  callback_failed : Reviewed
  modified_plan_missing : Reviewed
  invalid_modified_plan : ModifiedError → Reviewed
  rejected : Reviewed
  invalid_review_decision : String → Reviewed

abbrev or_missing : String → Option String → Option ModifiedError → Option ModifiedError
or_missing id none rest = rest
or_missing id (some dep) rest = some (depends_on_missing id dep)

-- the dependency "" is accepted
abbrev missing_given : List String → List Step → Option String
missing_given [] steps = none
missing_given (dep ∷ deps) steps =
    let rest = missing_given deps steps in
    if is_step dep steps || str_eq dep "" then rest else some dep

-- the loop of validateModifiedPlan over the steps, with the ids of those before
abbrev check_steps : List Step → List String → List Step → Option ModifiedError
check_steps all seen [] = none
check_steps all seen (s ∷ steps) =
    let rest =
      or_missing s.id (missing_given s.dependencies all) (check_steps all (s.id ∷ seen) steps) in
    if str_eq s.id ""
    then some empty_step_id
    else if has s.id seen
    then some (duplicate_step s.id)
    else rest

abbrev is_empty : List Step → Bool
is_empty [] = true
is_empty (s ∷ steps) = false

abbrev pub validate_modified_plan : Plan → Option ModifiedError
validate_modified_plan plan =
    let problem = check_steps plan.steps [] plan.steps in
    if str_eq plan.id ""
    then some empty_plan_id
    else if is_empty plan.steps
    then some plan_without_steps
    else problem

abbrev accept_modified : Plan → Option ModifiedError → Reviewed
accept_modified plan none = reviewed plan
accept_modified plan (some err) = invalid_modified_plan err

-- Review, given whether there is a callback and what it answers, none for an error
abbrev pub review : Bool → Option ReviewDecision → Plan → Reviewed
review false answer plan = reviewed plan
review true none plan = callback_failed
review true (some approve) plan = reviewed plan
review true (some (modify none)) plan = modified_plan_missing
review true (some (modify (some changed))) plan =
    accept_modified changed (validate_modified_plan changed)
review true (some reject) plan = rejected
review true (some (invalid_decision text)) plan = invalid_review_decision text
