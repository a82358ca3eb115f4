-- ===== src/Planner/Generate.antt =====
-- pkg/planner/planner.go: GeneratePlan and the validation of steps. The id of the plan and the
-- decimal numbers of fmt.Sprintf are arguments; the statuses that a caller leaves empty are pending.
use Prim.Native.String.{◌++◌ as join}
use ranyaa.Base.{
  ℕ, zero, suc, String, not, ◌&&◌, Option, none, some, List, [], ◌∷◌, if◌then◌else◌, Map, insert,
  length, str_eq, has, ◌⊎◌, inl, inr,
}
use ranyaa.Planner.{Step, Plan, dependents}

pub data PlanError : Type 0 where
  empty_description : PlanError
  no_steps : PlanError
  duplicate_step_id : String → PlanError
  non_existent_step : String → String → PlanError
  circular : PlanError
  search_too_deep : PlanError

-- the id that comes twice, and the ids that are given
abbrev pub duplicate_id : List Step → List String → Option String
duplicate_id [] seen = none
duplicate_id (s ∷ steps) seen =
    let skipped = duplicate_id steps seen in
    let rest = duplicate_id steps (s.id ∷ seen) in
    if str_eq s.id "" then skipped else if has s.id seen then some s.id else rest

abbrev given_ids : List Step → List String
given_ids [] = []
given_ids (s ∷ steps) = let rest = given_ids steps in if str_eq s.id "" then rest else s.id ∷ rest

abbrev unknown_dependency : List String → List String → Option String
unknown_dependency ids [] = none
unknown_dependency ids (dep ∷ deps) =
    let rest = unknown_dependency ids deps in
    if not (has dep ids) && not (str_eq dep "") then some dep else rest

abbrev or_next : String → Option String → Option PlanError → Option PlanError
or_next id none rest = rest
or_next id (some dep) rest = some (non_existent_step id dep)

abbrev unknown_in : List String → List Step → Option PlanError
unknown_in ids [] = none
unknown_in ids (s ∷ steps) =
    let rest = unknown_in ids steps in or_next s.id (unknown_dependency ids s.dependencies) rest

-- graph[step.ID] = step.Dependencies
abbrev dependency_graph : List Step → Map (List String) → Map (List String)
dependency_graph [] graph = graph
dependency_graph (s ∷ steps) graph = dependency_graph steps (insert s.id s.dependencies graph)

pub record DepthFirst : Type 0 where
  pub visited : List String
  pub rec_stack : List String

pub data Answer : Type 0 where
  cycle : Answer
  no_cycle : DepthFirst → Answer
  too_deep : Answer

abbrev without_id : String → List String → List String
without_id id [] = []
without_id id (x ∷ xs) = let rest = without_id id xs in if str_eq x id then rest else x ∷ rest

abbrev and_search : Answer → (DepthFirst → Answer) → Answer
and_search cycle next = cycle
and_search too_deep next = too_deep
and_search (no_cycle s) next = next s

abbrev leave : String → Answer → Answer
leave id cycle = cycle
leave id too_deep = too_deep
leave id (no_cycle s) = no_cycle (record s { rec_stack = without_id id s.rec_stack })

-- the loop over the dependencies, with the recursive calls of hasCycle
unfoldable pub search_all : (String → DepthFirst → Answer) → List String → DepthFirst → Answer
search_all search [] s = no_cycle s
search_all search (dep ∷ deps) s =
    let rest = search_all search deps in
    if not (has dep s.visited)
    then and_search (search dep s) rest
    else if has dep s.rec_stack
    then cycle
    else rest s

unfoldable pub has_cycle : ℕ → Map (List String) → String → DepthFirst → Answer
unfolding search_all
has_cycle zero graph id s = too_deep
has_cycle (suc depth) graph id s = leave id (
    search_all (has_cycle depth graph) (dependents id graph)
      (record { visited = id ∷ s.visited; rec_stack = id ∷ s.rec_stack }))

unfoldable pub search_roots : ℕ → Map (List String) → Map (List String) → DepthFirst → Answer
search_roots depth graph [] s = no_cycle s
search_roots depth graph ((id, deps) ∷ more) s =
    let rest = search_roots depth graph more in
    if has id s.visited then rest s else and_search (has_cycle depth graph id s) rest

abbrev cycle_error : Answer → Option PlanError
cycle_error cycle = some circular
cycle_error too_deep = some search_too_deep
cycle_error (no_cycle s) = none

-- a call below others is for an id that is not visited: a step, or the empty id
unfoldable pub check_circular_dependencies : List Step → Option PlanError
unfolding has_cycle search_roots
check_circular_dependencies steps =
    let graph = dependency_graph steps [] in
    cycle_error (
      search_roots (suc (suc (length steps))) graph graph (record { visited = []; rec_stack = [] }))

abbrev check_duplicate : Option String → Option PlanError → Option PlanError → Option PlanError
check_duplicate (some id) unknown circle = some (duplicate_step_id id)
check_duplicate none (some err) circle = some err
check_duplicate none none circle = circle

unfoldable pub validate_steps : List Step → Option PlanError
unfolding check_circular_dependencies
validate_steps steps =
    check_duplicate (duplicate_id steps []) (unknown_in (given_ids steps) steps)
      (check_circular_dependencies steps)

module _ (decimal : ℕ → String) where
  -- steps[i].ID = fmt.Sprintf("step-%d", i+1)
  abbrev pub assign_ids : ℕ → List Step → List Step
  assign_ids i [] = []
  assign_ids i (s ∷ steps) =
      (if str_eq s.id "" then record s { id = join "step-" (decimal (suc i)) } else s)
      ∷ assign_ids (suc i) steps

  abbrev generate_valid : Option PlanError → String → String → List Step → Plan ⊎ PlanError
  generate_valid (some err) plan_id description steps = inr err
  generate_valid none plan_id description steps =
      inl (record { id = plan_id; description = description; steps = assign_ids 0 steps })

  unfoldable pub generate_plan : String → String → List Step → Plan ⊎ PlanError
  unfolding validate_steps
  generate_plan plan_id description [] =
      if str_eq description "" then inr empty_description else inr no_steps
  generate_plan plan_id description (s ∷ steps) =
      if str_eq description ""
      then inr empty_description
      else generate_valid (validate_steps (s ∷ steps)) plan_id description (s ∷ steps)
