-- ===== src/Planner/Order.antt =====
-- The execution order of a plan: what it says, and when there is one.
use mathlib.Core.Path.{subst}
use ranyaa.Base.{
  ℕ, suc, ◌+◌, ◌-◌, ◌≤◌, String, ◌≡◌, refl, sym, ap, ◌∙◌, inl, inr, true, false, not, ◌&&◌, some,
  List, [], ◌∷◌, if◌then◌else◌, ◌==◌, ==_iff, arith, length, tally, tally-append, tally-le-length,
  bit, str_eq, str_eq_self, eq_iff, has, Bool-cases,
}
use ranyaa.Planner.{
  Step, Plan, ordered, circular_dependencies, dependents, add_steps, empty_graph, ready, levels_of,
  concat, check_levels, get_execution_order,
}
use ranyaa.Planner.Degrees.{count, waiting, is_step, add_steps-IsBuilt, count-ready}
use ranyaa.Planner.Levels.{
  undone, place, place_all, step_ids, IsLayered, IsRound, levels_of-total, has-count, has-step_ids,
  count-place, tally-place,
}

-- the further places of an id of the first list in the second
abbrev repeats : String → List String → List String → ℕ
repeats y xs ids = if has y xs then count y ids - 1 else 0

-- A list of ids that come once and are in the other list is shorter than it by the ids that it does
-- not have, and by the repeats of one that it has, at least.
pub distinct-length :
    (y : String) (xs ids : List String)
    → ((id : String) → count id xs ≤ 1)
    → ((id : String) → has id xs ≡ true → has id ids ≡ true)
    → length xs + tally (λ id. not (has id xs)) ids + repeats y xs ids ≤ length ids
distinct-length y [] ids one inside = omega (arith, tally-le-length (λ id. true) ids)
distinct-length y (x ∷ xs) ids one inside =
    let rest =
      distinct-length y xs ids (λ id. omega (arith, one id))
        (λ id e. inside id (ground (arith, e, Bool-cases (str_eq x id)))) in
    let new : has x xs ≡ false = ground (arith, one x, has-count x xs, str_eq_self x) in
    let there : has x ids ≡ true = inside x (ground (arith, str_eq_self x)) in
    ground (
      arith,
      rest,
      tally-place x xs ids new,
      there,
      has-count x ids,
      has-count y xs,
      one y,
      eq_iff x y,
    )

tally-zero :
    (xs ids : List String) (id : String)
    → tally (λ d. not (has d xs)) ids ≡ 0
    → has id ids ≡ true
    → has id xs ≡ true
tally-zero xs [] id zeroed e = ground (arith, e)
tally-zero xs (d ∷ ids) id zeroed e = elim (Bool-cases (str_eq d id)) [
  | inl here ↦
      ap (λ t. has t xs) (sym ((eq_iff d id).0 here))
      ∙ ground (arith, zeroed, Bool-cases (has d xs))
  | inr apart ↦
      tally-zero xs ids id (ground (arith, zeroed, Bool-cases (has d xs)))
        (ground (arith, e, apart))
]

pub length-step_ids : (steps : List Step) → length (step_ids steps) ≡ length steps
length-step_ids [] = refl
length-step_ids (s ∷ steps) = omega (arith, length-step_ids steps)

pub count-place_all :
    (id : String) (levels : List (List String)) (placed : List String)
    → count id (place_all levels placed) ≡ count id placed + count id (concat levels)
count-place_all id [] placed = omega arith
count-place_all id (level ∷ levels) placed = omega (
  arith,
  count-place_all id levels (place level placed),
  count-place id level placed,
  tally-append (λ x. str_eq x id) level (concat levels),
)

-- what the loop gives for a plan
pub record IsRun (steps : List Step) (levels : List (List String)) : Type 0 where
  pub gives :
      let g = add_steps steps empty_graph in
      levels_of (suc (length steps)) g.graph g.in_degree (ready g.in_degree) ≡ some levels
  pub layered : IsLayered steps [] levels
  pub final :
      (id : String)
      → count id (concat levels)
        ≡ bit (is_step id steps && (undone (place_all levels []) id steps == 0))

pub steps-IsRun : (steps : List Step) → (levels : List (List String)) × IsRun steps levels
steps-IsRun steps =
    let g = add_steps steps empty_graph in
    let built = add_steps-IsBuilt steps empty_graph tt in
    let edges : (p id : String)
        → count id (dependents p g.graph) ≡ waiting (λ d. str_eq d p) id steps =
      λ p id. omega (arith, built.edges p id) in
    let first : IsRound steps g.graph edges [] (ready g.in_degree) g.in_degree = record {
      degrees = λ id. omega (arith, built.degrees id);
      placing = λ id.
          ground (arith, built.degrees id, built.keys id, count-ready id g.in_degree built.is_map);
    } in
    let (levels, gives, layered, final) =
      levels_of-total steps g.graph edges (suc (length steps)) [] (ready g.in_degree) g.in_degree
        first
        (omega (
          arith,
          tally-le-length (λ id. not (has id [])) (step_ids steps),
          length-step_ids steps,
        )) in
    (
      levels,
      record {
        gives = gives;
        layered = layered;
        final = λ id. omega (arith, final id, count-place_all id levels []);
      },
    )

-- Each step comes in one level, once, and nothing else does; and each step comes after the levels
-- of all its dependencies.
pub record IsExecutionOrder (steps : List Step) (levels : List (List String)) : Type 0 where
  pub once : (id : String) → count id (concat levels) ≡ bit (is_step id steps)
  pub unique : (id : String) → count id (step_ids steps) ≤ 1
  pub layered : IsLayered steps [] levels

run-IsExecutionOrder :
    (steps : List Step) (levels : List (List String))
    → IsRun steps levels
    → length (concat levels) ≡ length steps
    → IsExecutionOrder steps levels
run-IsExecutionOrder steps levels run whole =
    let flat = concat levels in
    let one : (id : String) → count id flat ≤ 1 = λ id. ground (arith, run.final id) in
    let inside : (id : String) → has id flat ≡ true → has id (step_ids steps) ≡ true =
      λ id e. ground (arith, e, has-count id flat, run.final id, has-step_ids id steps) in
    let short = λ (y : String). distinct-length y flat (step_ids steps) one inside in
    let covered : (id : String) → has id (step_ids steps) ≡ true → has id flat ≡ true = λ id e.
      tally-zero flat (step_ids steps) id (omega (arith, short id, whole, length-step_ids steps))
        e in
    record {
      once = λ id.
          ground (arith, covered id, one id, has-count id flat, has-step_ids id steps, inside id);
      unique = λ id. ground (
        arith,
        short id,
        whole,
        length-step_ids steps,
        covered id,
        has-count id (step_ids steps),
      );
      layered = run.layered;
    }

-- If the planner gives an execution order of a plan, then every step of the plan is in exactly one
-- level, once, and nothing else is in the levels; the ids of the steps are different; and every
-- dependency of a step of a level is in an earlier level.
pub get_execution_order_sound :
    (plan : Plan) (levels : List (List String))
    → get_execution_order plan ≡ ordered levels
    → IsExecutionOrder plan.steps levels
unfolding get_execution_order
get_execution_order_sound plan levels e =
    let (found, run) = steps-IsRun plan.steps in
    let answer : check_levels (length plan.steps) (some found) ≡ ordered levels =
      ap (check_levels (length plan.steps)) (sym run.gives) ∙ e in
    elim (Bool-cases (length (concat found) == length plan.steps)) [
      | inr other ↦
          let wrong : circular_dependencies ≡ ordered levels = rw other at answer in
          ground (arith, wrong)
      | inl whole ↦
          let right : ordered found ≡ ordered levels = rw whole at answer in
          let same : found ≡ levels = ground (arith, right) in
          subst (IsExecutionOrder plan.steps) same (
            run-IsExecutionOrder plan.steps found run
              ((==_iff (length (concat found)) (length plan.steps)).0 whole))
    ]
