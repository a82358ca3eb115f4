-- ===== src/Planner/Acyclic.antt =====
-- A plan whose dependencies do not go in a circle has an execution order.
use ranyaa.Base.{
  ℕ, zero, suc, ◌≤◌, ◌<◌, String, ◌≡◌, refl, sym, ◌∙◌, Bool, true, false, not, ◌&&◌, ◌||◌, List, [],
  ◌∷◌, ◌==◌, arith, length, tally, str_eq, str_eq_self, has, Bool-cases, inl, inr,
}
use ranyaa.Planner.{Step, Plan, ordered, concat, get_execution_order}
use ranyaa.Planner.Degrees.{count, is_step}
use ranyaa.Planner.Levels.{undone, place_all, step_ids, has-count, has-step_ids}
use ranyaa.Planner.Order.{IsRun, steps-IsRun, distinct-length, length-step_ids, count-place_all}

-- a step with the id has the dependency
abbrev pub depends_on : String → String → List Step → Bool
depends_on id dep [] = false
depends_on id dep (s ∷ steps) =
    (str_eq s.id id && has dep s.dependencies) || depends_on id dep steps

tally-placed :
    (placed deps : List String)
    → ((d : String) → has d deps ≡ true → has d placed ≡ true)
    → tally (λ d. not (has d placed)) deps ≡ 0
tally-placed placed [] inside = refl
tally-placed placed (d ∷ deps) inside = ground (
  arith,
  inside d,
  str_eq_self d,
  tally-placed placed deps (λ e h. inside e (ground (arith, h, Bool-cases (str_eq d e)))),
)

undone-placed :
    (placed : List String) (id : String) (steps : List Step)
    → ((d : String) → depends_on id d steps ≡ true → has d placed ≡ true)
    → undone placed id steps ≡ 0
undone-placed placed id [] inside = refl
undone-placed placed id (s ∷ steps) inside =
    let rest =
      undone-placed placed id steps (λ d h.
        inside d (ground (arith, h, Bool-cases (str_eq s.id id && has d s.dependencies)))) in
    elim (Bool-cases (str_eq s.id id)) [
      | inr other ↦ ground (arith, rest, other)
      | inl here ↦ ground (
        arith,
        rest,
        here,
        tally-placed placed s.dependencies (λ d h. inside d (ground (arith, h, here))),
      )
    ]

module _ (plan : Plan) (rank : String → ℕ)
    (unique : (id : String) → count id (step_ids plan.steps) ≤ 1)
    (falls : (id dep : String)
      → depends_on id dep plan.steps ≡ true
      → (rank dep < rank id) × (is_step dep plan.steps ≡ true)) where
  -- every step is placed, by induction on a bound of its rank
  all_placed :
      (levels : List (List String))
      → IsRun plan.steps levels
      → (bound : ℕ) (id : String) → rank id < bound
      → is_step id plan.steps ≡ true
      → has id (concat levels) ≡ true
  all_placed levels run zero id low step = ground (arith, low)
  all_placed levels run (suc bound) id low step =
      let placed = place_all levels [] in
      let done = undone-placed placed id plan.steps (λ d h.
        let (lower, known) = falls id d h in
        let there = all_placed levels run bound d (omega (arith, lower, low)) known in
        ground (
          arith,
          there,
          has-count d placed,
          has-count d (concat levels),
          count-place_all d levels [],
        )) in
      ground (arith, run.final id, step, done, has-count id (concat levels))

  -- If the steps of a plan have different ids, and ids have ranks that fall from every step to each
  -- of its dependencies, which are steps of the plan, then the planner gives an execution order.
  pub get_execution_order_complete :
      (levels : List (List String)) × (get_execution_order plan ≡ ordered levels)
  unfolding get_execution_order
  get_execution_order_complete =
      let steps = plan.steps in
      let (levels, run) = steps-IsRun steps in
      let flat = concat levels in
      let one : (id : String) → count id flat ≤ 1 = λ id. ground (arith, run.final id) in
      let short =
        distinct-length "" flat (step_ids steps) one
          (λ id e. ground (arith, e, has-count id flat, run.final id, has-step_ids id steps)) in
      let long = distinct-length "" (step_ids steps) flat unique (λ id e.
        all_placed levels run (suc (rank id)) id (omega arith) (sym (has-step_ids id steps) ∙ e)) in
      let whole : (length flat == length steps) ≡ true =
        ground (arith, short, long, length-step_ids steps) in
      (levels, rw (run.gives, whole) refl)
