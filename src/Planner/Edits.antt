-- ===== src/Planner/Edits.antt =====
-- A plan stays one that can be executed when the reviewer adds and removes steps
-- (pkg/planner/review.go).
use ranyaa.Base.{
  ℕ, suc, ◌+◌, ◌≤◌, ◌<◌, String, ◌≡◌, refl, sym, ap, ◌∙◌, true, false, ◌&&◌, ◌||◌, none, some, List,
  [], ◌∷◌, ◌++◌, if◌then◌else◌, arith, bit, str_eq, eq_iff, has, Bool-cases, Option-cases, inl, inr,
}
use ranyaa.Planner.{Step, Plan, ordered, get_execution_order}
use ranyaa.Planner.Degrees.{count, is_step}
use ranyaa.Planner.Levels.{step_ids, has-count, has-step_ids}
use ranyaa.Planner.Acyclic.{depends_on, get_execution_order_complete}
use ranyaa.Planner.Review.{
  missing_dependency, dependent_of, without_step, add_step_to, remove_step, Edit, added, removed,
  edit, edit_all,
}

-- ids that differ, and dependencies that are steps and do not go in a circle
pub record IsAcyclic (steps : List Step) : Type 0 where
  pub unique : (id : String) → count id (step_ids steps) ≤ 1
  pub rank : String → ℕ
  pub falls :
      (id dep : String)
      → depends_on id dep steps ≡ true
      → (rank dep < rank id) × (is_step dep steps ≡ true)

depends_on-append :
    (id dep : String) (step : Step) (steps : List Step)
    → depends_on id dep (steps ++ step ∷ [])
      ≡ (depends_on id dep steps || (str_eq step.id id && has dep step.dependencies))
depends_on-append id dep step [] =
    ground (arith, Bool-cases (str_eq step.id id), Bool-cases (has dep step.dependencies))
depends_on-append id dep step (s ∷ steps) = ground (arith, depends_on-append id dep step steps)

is_step-append :
    (id : String) (step : Step) (steps : List Step)
    → is_step id (steps ++ step ∷ []) ≡ (is_step id steps || str_eq step.id id)
is_step-append id step [] = ground arith
is_step-append id step (s ∷ steps) = ground (arith, is_step-append id step steps)

count-append :
    (id : String) (step : Step) (steps : List Step)
    → count id (step_ids (steps ++ step ∷ [])) ≡ count id (step_ids steps) + bit (str_eq step.id id)
count-append id step [] = omega arith
count-append id step (s ∷ steps) = omega (arith, count-append id step steps)

depends_on-is_step :
    (id dep : String) (steps : List Step) → depends_on id dep steps ≡ true → is_step id steps ≡ true
depends_on-is_step id dep [] e = e
depends_on-is_step id dep (s ∷ steps) e = ground (arith, e, depends_on-is_step id dep steps)

missing_dependency-none :
    (dep : String) (deps : List String) (steps : List Step)
    → missing_dependency deps steps ≡ none
    → has dep deps ≡ true
    → is_step dep steps ≡ true
missing_dependency-none dep [] steps e h = ground (arith, h)
missing_dependency-none dep (d ∷ deps) steps e h = elim (Bool-cases (str_eq d dep)) [
  | inl here ↦
      ap (λ t. is_step t steps) (sym ((eq_iff d dep).0 here))
      ∙ ground (arith, e, Bool-cases (is_step d steps))
  | inr other ↦
      missing_dependency-none dep deps steps (ground (arith, e, Bool-cases (is_step d steps)))
        (ground (arith, h, other))
]

abbrev sum_of : (String → ℕ) → List String → ℕ
sum_of f [] = 0
sum_of f (x ∷ xs) = f x + sum_of f xs

sum_of-le : (f : String → ℕ) (x : String) (xs : List String) → has x xs ≡ true → f x ≤ sum_of f xs
sum_of-le f x [] e = ground (arith, e)
sum_of-le f x (y ∷ xs) e = elim (Bool-cases (str_eq y x)) [
  | inl here ↦ omega (arith, ap f ((eq_iff y x).0 here))
  | inr other ↦ omega (arith, sum_of-le f x xs (ground (arith, e, other)))
]

step_differs :
    (new old : String) (steps : List Step)
    → is_step new steps ≡ false
    → is_step old steps ≡ true
    → str_eq new old ≡ false
step_differs new old steps out into = elim (Bool-cases (str_eq new old)) [
  | inr differ ↦ differ
  | inl same ↦
      let equal : true ≡ false =
        sym into ∙ ap (λ t. is_step t steps) (sym ((eq_iff new old).0 same)) ∙ out in
      ground (arith, equal)
]

append-IsAcyclic :
    (step : Step) (steps : List Step)
    → is_step step.id steps ≡ false
    → missing_dependency step.dependencies steps ≡ none
    → IsAcyclic steps
    → IsAcyclic (steps ++ step ∷ [])
append-IsAcyclic step steps new known h = record {
  unique = λ id. ground (
    arith,
    h.unique id,
    count-append id step steps,
    has-count id (step_ids steps),
    has-step_ids id steps,
    eq_iff step.id id,
    new,
  );
  rank = λ id. if str_eq step.id id then suc (sum_of h.rank step.dependencies) else h.rank id;
  falls = λ id dep e. elim (Bool-cases (depends_on id dep steps)) [
    | inl old ↦
        let (less, into) = h.falls id dep old in
        let first = step_differs step.id dep steps new into in
        let second = step_differs step.id id steps new (depends_on-is_step id dep steps old) in
        rw (first, second) (less, ground (arith, into, is_step-append dep step steps))
    | inr fresh ↦
        let here : (str_eq step.id id && has dep step.dependencies) ≡ true =
          ground (arith, e, fresh, depends_on-append id dep step steps) in
        let self : str_eq step.id id ≡ true = ground (arith, here) in
        let listed : has dep step.dependencies ≡ true =
          ground (arith, here, Bool-cases (str_eq step.id id)) in
        let into = missing_dependency-none dep step.dependencies steps known listed in
        let differ = step_differs step.id dep steps new into in
        rw (self, differ)
          (
            omega (arith, sum_of-le h.rank dep step.dependencies listed),
            ground (arith, into, is_step-append dep step steps),
          )
  ];
}

dependent_of-none :
    (id dep : String) (steps : List Step)
    → dependent_of dep steps ≡ none
    → depends_on id dep steps ≡ false
dependent_of-none id dep [] e = refl
dependent_of-none id dep (s ∷ steps) e = elim (Bool-cases (has dep s.dependencies)) [
  | inl needs ↦ let wrong : some s.id ≡ none = rw needs at e in ground (arith, wrong)
  | inr apart ↦
      ground
        (arith, apart, dependent_of-none id dep steps (rw apart at e), Bool-cases (str_eq s.id id))
]

depends_on-without_step :
    (id dep gone : String) (steps : List Step)
    → depends_on id dep (without_step gone steps) ≡ true
    → depends_on id dep steps ≡ true
depends_on-without_step id dep gone [] e = e
depends_on-without_step id dep gone (s ∷ steps) e = elim (Bool-cases (str_eq s.id gone)) [
  | inl here ↦
      let rest : depends_on id dep steps ≡ true = rw here at e in
      ground (arith, rest, Bool-cases (str_eq s.id id && has dep s.dependencies))
  | inr other ↦
      let kept : depends_on id dep (s ∷ without_step gone steps) ≡ true = rw other at e in
      ground (
        arith,
        kept,
        depends_on-without_step id dep gone steps,
        Bool-cases (str_eq s.id id && has dep s.dependencies),
      )
]

is_step-without_step :
    (id gone : String) (steps : List Step)
    → str_eq gone id ≡ false
    → is_step id (without_step gone steps) ≡ is_step id steps
is_step-without_step id gone [] apart = refl
is_step-without_step id gone (s ∷ steps) apart = ground (
  arith,
  is_step-without_step id gone steps apart,
  apart,
  eq_iff s.id gone,
  eq_iff s.id id,
  eq_iff gone id,
)

count-without_step :
    (id gone : String) (steps : List Step)
    → count id (step_ids (without_step gone steps)) ≤ count id (step_ids steps)
count-without_step id gone [] = omega arith
count-without_step id gone (s ∷ steps) = ground (arith, count-without_step id gone steps)

without_step-IsAcyclic :
    (gone : String) (steps : List Step)
    → dependent_of gone steps ≡ none
    → IsAcyclic steps
    → IsAcyclic (without_step gone steps)
without_step-IsAcyclic gone steps free h = record {
  unique = λ id. omega (arith, h.unique id, count-without_step id gone steps);
  rank = h.rank;
  falls = λ id dep e.
      let old = depends_on-without_step id dep gone steps e in
      let (less, into) = h.falls id dep old in
      let apart : str_eq gone dep ≡ false = elim (Bool-cases (str_eq gone dep)) [
        | inr differ ↦ differ
        | inl same ↦
            let free' : depends_on id dep steps ≡ false =
              ap (λ t. depends_on id t steps) (sym ((eq_iff gone dep).0 same))
              ∙ dependent_of-none id gone steps free in
            ground (arith, old, free')
      ] in
      (less, is_step-without_step dep gone steps apart ∙ into);
}

edit-IsAcyclic : (e : Edit) (plan : Plan) → IsAcyclic plan.steps → IsAcyclic (edit e plan).steps
unfolding add_step_to remove_step
edit-IsAcyclic (added step) plan h = elim (Bool-cases (is_step step.id plan.steps)) [
  | inl taken ↦ rw (edit, taken) h
  | inr new ↦ elim (Option-cases (missing_dependency step.dependencies plan.steps)) [
    | inr (dep, missing) ↦ rw (edit, new, missing) h
    | inl known ↦ rw (edit, new, known) (append-IsAcyclic step plan.steps new known h)
  ]
]
edit-IsAcyclic (removed id) plan h = elim (Option-cases (dependent_of id plan.steps)) [
  | inr (other, needed) ↦ rw (edit, needed) h
  | inl free ↦ elim (Bool-cases (is_step id plan.steps)) [
    | inl there ↦ rw (edit, free, there) (without_step-IsAcyclic id plan.steps free h)
    | inr unknown ↦ rw (edit, free, unknown) h
  ]
]

edit_all-IsAcyclic :
    (edits : List Edit) (plan : Plan) → IsAcyclic plan.steps → IsAcyclic (edit_all edits plan).steps
edit_all-IsAcyclic [] plan h = h
edit_all-IsAcyclic (e ∷ more) plan h =
    edit_all-IsAcyclic more (edit e plan) (edit-IsAcyclic e plan h)

-- If the steps of a plan have different ids and their dependencies are steps of the plan that do
-- not go in a circle, then after any additions and removals of steps by the reviewer, refused or
-- not, the planner gives an execution order of the plan.
pub edit_all-get_execution_order :
    (edits : List Edit) (plan : Plan)
    → IsAcyclic plan.steps
    → (levels : List (List String)) × (get_execution_order (edit_all edits plan) ≡ ordered levels)
edit_all-get_execution_order edits plan h =
    let h' = edit_all-IsAcyclic edits plan h in
    get_execution_order_complete (edit_all edits plan) h'.rank h'.unique h'.falls
