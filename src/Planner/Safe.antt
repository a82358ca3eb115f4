-- ===== src/Planner/Safe.antt =====
-- With the strategy "abort", a step starts only when the steps that it depends on have completed.
use ranyaa.Base.{
  ℕ, zero, suc, String, ◌≡◌, refl, sym, ap, ◌∙◌, Bool, true, false, not, ◌&&◌, ◌||◌, none, List, [],
  ◌∷◌, ◌++◌, if◌then◌else◌, arith, tally, str_eq, str_eq_self, eq_iff, has, any-append, Bool-cases,
  Option-cases, inl, inr,
}
use ranyaa.Planner.{
  Step, StepStatus, pending, running, completed, failed, skipped, Plan, Ordering, ordered,
  circular_dependencies, out_of_fuel, concat, get_execution_order,
}
use ranyaa.Planner.Degrees.{is_step}
use ranyaa.Planner.Levels.{undone, place, IsLayered, has-count, count-place}
use ranyaa.Planner.Order.{get_execution_order_sound}
use ranyaa.Planner.Acyclic.{depends_on}
use ranyaa.Planner.Executor.{
  fail_abort, Executor, StepRun, first_error, attempt_step, execute_step, start_steps,
  execute_level, execute_levels, execute_order, execute, is_abort, is_single,
}

abbrev is_completed : StepStatus → Bool
is_completed pending = false
is_completed running = false
is_completed completed = true
is_completed failed = false
is_completed skipped = false

abbrev pub run_ids : List StepRun → List String
run_ids [] = []
run_ids (run ∷ runs) = run.id ∷ run_ids runs

abbrev pub completed_ids : List StepRun → List String
completed_ids [] = []
completed_ids (run ∷ runs) =
    let rest = completed_ids runs in if is_completed run.status then run.id ∷ rest else rest

-- every dependency of a step that was started had completed in a level before
abbrev pub IsCaused : List Step → List String → List (List StepRun) → Type 0
IsCaused steps done [] = Unit {0}
IsCaused steps done (runs ∷ more) =
    ((id dep : String)
      → has id (run_ids runs) ≡ true
      → depends_on id dep steps ≡ true
      → has dep done ≡ true)
    × IsCaused steps (completed_ids runs ++ done) more

attempt_step-abort :
    (e : Executor) (id : String) (attempt left : ℕ)
    → e.failure_strategy ≡ fail_abort
    → let run = attempt_step e id attempt left in
      (run.id ≡ id) × ((run.error ≡ none) → run.status ≡ completed)
unfolding attempt_step
attempt_step-abort e id attempt zero strict = elim (Option-cases (e.answers id attempt)) [
  | inl fine ↦ rw (attempt_step, fine) (refl, λ quiet. refl)
  | inr (err, wrong) ↦ rw (attempt_step, wrong, strict) (refl, λ quiet. ground (arith, quiet))
]
attempt_step-abort e id attempt (suc left) strict = elim (Option-cases (e.answers id attempt)) [
  | inl fine ↦ rw (attempt_step, fine) (refl, λ quiet. refl)
  | inr (err, wrong) ↦ rw (attempt_step, wrong, strict) (refl, λ quiet. ground (arith, quiet))
]

tally-undone :
    (placed deps : List String) (dep : String)
    → tally (λ d. not (has d placed)) deps ≡ 0
    → has dep deps ≡ true
    → has dep placed ≡ true
tally-undone placed [] dep zeroed e = ground (arith, e)
tally-undone placed (d ∷ deps) dep zeroed e = elim (Bool-cases (str_eq d dep)) [
  | inl here ↦
      ap (λ t. has t placed) (sym ((eq_iff d dep).0 here))
      ∙ ground (arith, zeroed, Bool-cases (has d placed))
  | inr other ↦
      tally-undone placed deps dep (ground (arith, zeroed, Bool-cases (has d placed)))
        (ground (arith, e, other))
]

undone-depends :
    (placed : List String) (id dep : String) (steps : List Step)
    → undone placed id steps ≡ 0
    → depends_on id dep steps ≡ true
    → has dep placed ≡ true
undone-depends placed id dep [] zeroed e = ground (arith, e)
undone-depends placed id dep (s ∷ steps) zeroed e =
    elim (Bool-cases (str_eq s.id id && has dep s.dependencies)) [
      | inl here ↦
          tally-undone placed s.dependencies dep
            (ground (arith, zeroed, here, Bool-cases (str_eq s.id id)))
            (ground (arith, here, Bool-cases (str_eq s.id id)))
      | inr other ↦
          undone-depends placed id dep steps (ground (arith, zeroed, Bool-cases (str_eq s.id id)))
            (ground (arith, e, other))
    ]

in_front :
    (id : String) (level : List String) (levels : List (List String))
    → has id level ≡ true
    → has id (concat (level ∷ levels)) ≡ true
in_front id level levels h = ground (arith, h, any-append (λ x. str_eq x id) level (concat levels))

behind :
    (id : String) (level : List String) (levels : List (List String))
    → has id (concat levels) ≡ true
    → has id (concat (level ∷ levels)) ≡ true
behind id level levels h =
    ground
      (arith, h, any-append (λ x. str_eq x id) level (concat levels), Bool-cases (has id level))

has-place :
    (id : String) (level placed : List String)
    → has id (place level placed) ≡ (has id level || has id placed)
has-place id level placed = ground (
  arith,
  has-count id (place level placed),
  has-count id level,
  has-count id placed,
  count-place id level placed,
)

module _ (e : Executor) (strict : e.failure_strategy ≡ fail_abort) (steps : List Step) where
  start_steps-abort :
      (level : List String)
      → ((id : String) → has id level ≡ true → is_step id steps ≡ true)
      → let (runs, missing) = start_steps e steps level in
        (run_ids runs ≡ level)
        × (missing ≡ none)
        × ((first_error runs ≡ none) → completed_ids runs ≡ level)
  unfolding start_steps
  start_steps-abort [] known = (refl, refl, λ quiet. refl)
  start_steps-abort (id ∷ ids) known =
      let (same, all_there, done) =
        start_steps-abort ids (λ j h. known j (ground (arith, h, Bool-cases (str_eq id j)))) in
      let (self, fine) = attempt_step-abort e id 0 e.max_retries strict in
      let here : is_step id steps ≡ true = known id (ground (arith, str_eq_self id)) in
      rw here (
        ground (arith, same, self),
        all_there,
        λ quiet. elim (Option-cases (execute_step e id).error) [
          | inr (err, wrong) ↦ ground (arith, quiet, wrong)
          | inl clean ↦
              let rest = done (ground (arith, quiet, clean)) in
              rw (fine clean) (ground (arith, rest, self))
        ],
      )

  execute_level-abort :
      (level : List String)
      → ((id : String) → has id level ≡ true → is_step id steps ≡ true)
      → let (runs, err) = execute_level e steps level in
        (run_ids runs ≡ level) × ((err ≡ none) → completed_ids runs ≡ level)
  unfolding execute_level
  execute_level-abort level known =
      let (same, all_there, done) = start_steps-abort level known in
      (
        same,
        λ quiet. done (
            let abort : is_abort e.failure_strategy ≡ true = ap is_abort strict in
            let joined = rw all_there at quiet in
            ground (arith, joined, abort, Bool-cases (is_single level))),
      )

  execute_levels-IsCaused :
      (levels : List (List String)) (placed done : List String)
      → ((d : String) → has d placed ≡ true → has d done ≡ true)
      → ((id : String) → has id (concat levels) ≡ true → is_step id steps ≡ true)
      → IsLayered steps placed levels
      → IsCaused steps done (execute_levels e steps levels).0
  unfolding execute_levels
  execute_levels-IsCaused [] placed done kept known layered = tt
  execute_levels-IsCaused (level ∷ levels) placed done kept known (ready, layered) =
      let (runs, err) = execute_level e steps level in
      let (same, fine) =
        execute_level-abort level (λ id h. known id (in_front id level levels h)) in
      let caused : (id dep : String)
          → has id (run_ids runs) ≡ true
          → depends_on id dep steps ≡ true
          → has dep done ≡ true =
        λ id dep h depends.
          kept dep
            (undone-depends placed id dep steps (ready id (ap (has id) (sym same) ∙ h)) depends) in
      elim (Option-cases err) [
        | inr (wrong, stop) ↦ rw stop (caused, tt)
        | inl clean ↦ rw clean (
          caused,
          execute_levels-IsCaused levels (place level placed) (completed_ids runs ++ done)
              (λ d h.
                let either = has-place d level placed in
                let split = any-append (λ x. str_eq x d) (completed_ids runs) done in
                ground (arith, h, either, split, kept d, ap (has d) (fine clean)))
              (λ id h. known id (behind id level levels h)) layered,
        )
      ]

module _ (e : Executor) (plan : Plan) (strict : e.failure_strategy ≡ fail_abort) where
  answer-IsCaused :
      (answer : Ordering)
      → get_execution_order plan ≡ answer
      → IsCaused plan.steps [] (execute_order e plan.steps answer).0
  answer-IsCaused circular_dependencies eq = tt
  answer-IsCaused out_of_fuel eq = tt
  answer-IsCaused (ordered levels) eq =
      let order = get_execution_order_sound plan levels eq in
      execute_levels-IsCaused e strict plan.steps levels [] [] (λ d h. h)
        (λ id h. ground (arith, h, has-count id (concat levels), order.once id)) order.layered

  -- When a plan is executed with the failure strategy "abort" and the join strategy "all", then
  -- whatever the step executor answers, and whether the execution succeeds or not: for every step
  -- that is started, all the steps that it depends on have completed in an earlier level.
  pub execute-IsCaused : IsCaused plan.steps [] (execute e plan).0
  unfolding execute
  execute-IsCaused = answer-IsCaused (get_execution_order plan) refl
