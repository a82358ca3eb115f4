-- ===== src/Planner.antt =====
-- pkg/planner/planner.go: the execution order of a plan's steps, level by level. A map of Go is an
-- association list, read with 0 or nil for a missing key as the code does.
pub mod Degrees
pub mod Levels
pub mod Order
pub mod Acyclic
pub mod Review
pub mod Edits
pub mod Generate
pub mod Executor
pub mod Join
pub mod Safe
mod Examples
use ranyaa.Base.{
  ℕ, zero, suc, ◌+◌, ◌-◌, String, ◌≡◌, Bool, true, false, not, ◌&&◌, ◌||◌, Option, none, some, List,
  [], ◌∷◌, ◌++◌, if◌then◌else◌, ◌==◌, ltb, leb, Map, lookup, insert, length, str_eq, has,
}

pub data StepStatus : Type 0 where
  pending : StepStatus
  running : StepStatus
  completed : StepStatus
  failed : StepStatus
  skipped : StepStatus

pub record Step : Type 0 where
  pub id : String
  pub description : String
  pub dependencies : List String
  pub status : StepStatus

pub record Plan : Type 0 where
  pub id : String
  pub description : String
  pub steps : List Step

abbrev pub number_or_zero : Option ℕ → ℕ
number_or_zero none = 0
number_or_zero (some n) = n

abbrev pub list_or_nil : Option (List String) → List String
list_or_nil none = []
list_or_nil (some xs) = xs

-- inDegree[id] and graph[id]
abbrev pub degree : String → Map ℕ → ℕ
degree id m = number_or_zero (lookup id m)

abbrev pub dependents : String → Map (List String) → List String
dependents id m = list_or_nil (lookup id m)

pub record StepGraph : Type 0 where
  pub graph : Map (List String)
  pub in_degree : Map ℕ

-- graph[dep] = append(graph[dep], step.ID); inDegree[step.ID]++
unfoldable pub add_dependencies : String → List String → StepGraph → StepGraph
add_dependencies id [] g = g
add_dependencies id (dep ∷ deps) g = add_dependencies id deps (record {
  graph = insert dep (dependents dep g.graph ++ id ∷ []) g.graph;
  in_degree = insert id (suc (degree id g.in_degree)) g.in_degree;
})

abbrev pub ensure_degree : String → Option ℕ → Map ℕ → Map ℕ
ensure_degree id none m = insert id 0 m
ensure_degree id (some _) m = m

abbrev pub add_step : Step → StepGraph → StepGraph
add_step s g =
    add_dependencies s.id s.dependencies
      (record g { in_degree = ensure_degree s.id (lookup s.id g.in_degree) g.in_degree })

unfoldable pub add_steps : List Step → StepGraph → StepGraph
add_steps [] g = g
add_steps (s ∷ more) g = add_steps more (add_step s g)

abbrev pub empty_graph : StepGraph
empty_graph = record { graph = []; in_degree = [] }

-- the steps with no dependencies
abbrev pub ready : Map ℕ → List String
ready [] = []
ready ((id, n) ∷ m) = let rest = ready m in if n == 0 then id ∷ rest else rest

-- inDegree[dependent]--, and the dependent is next if that gives 0; by `Degrees` it is never below
unfoldable pub relax : List String → Map ℕ → List String → Map ℕ × List String
relax [] m next = (m, next)
relax (x ∷ xs) m next =
    relax xs (insert x (degree x m - 1) m) (if degree x m == 1 then next ++ x ∷ [] else next)

unfoldable pub process_level :
    Map (List String) → List String → Map ℕ → List String → Map ℕ × List String
process_level graph [] m next = (m, next)
process_level graph (id ∷ queue) m next =
    let (m', next') = relax (dependents id graph) m next in process_level graph queue m' next'

abbrev add_level : List String → Option (List (List String)) → Option (List (List String))
add_level level none = none
add_level level (some levels) = some (level ∷ levels)

-- the loop over the levels, none when it takes more rounds than the fuel
unfoldable pub levels_of : ℕ → Map (List String) → Map ℕ → List String → Option (List (List String))
levels_of fuel graph m [] = some []
levels_of zero graph m (id ∷ queue) = none
levels_of (suc fuel) graph m (id ∷ queue) =
    let (m', next) = process_level graph (id ∷ queue) m [] in
    add_level (id ∷ queue) (levels_of fuel graph m' next)

abbrev pub concat : List (List String) → List String
concat [] = []
concat (level ∷ levels) = level ++ concat levels

pub data Ordering : Type 0 where
  ordered : List (List String) → Ordering
  circular_dependencies : Ordering
  out_of_fuel : Ordering

abbrev pub check_levels : ℕ → Option (List (List String)) → Ordering
check_levels steps none = out_of_fuel
check_levels steps (some levels) =
    if length (concat levels) == steps then ordered levels else circular_dependencies

unfoldable pub get_execution_order : Plan → Ordering
get_execution_order plan =
    let g = add_steps plan.steps empty_graph in
    check_levels (length plan.steps)
      (levels_of (suc (length plan.steps)) g.graph g.in_degree (ready g.in_degree))
