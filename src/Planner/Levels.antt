-- ===== src/Planner/Levels.antt =====
-- The loop over the levels: what it keeps, and that it ends.
use ranyaa.Base.{
  ℕ, zero, suc, ◌+◌, ◌≤◌, ◌<◌, String, ◌≡◌, refl, ap, ◌∙◌, Bool, true, false, not, ◌&&◌, some, List,
  [], ◌∷◌, ◌==◌, arith, ltb, Map, tally, tally-lt, bit, str_eq, str_eq_self, eq_iff, has,
  Bool-cases,
}
use ranyaa.Planner.{Step, degree, dependents, relax, process_level, levels_of}
use ranyaa.Planner.Degrees.{count, waiting, is_step, relax-degree, relax-next}

-- the dependencies of an id that are not among the placed ones
abbrev pub undone : List String → String → List Step → ℕ
undone placed = waiting (λ d. not (has d placed))

-- the placed ids after a level
abbrev pub place : List String → List String → List String
place [] placed = placed
place (id ∷ level) placed = place level (id ∷ placed)

has-same :
    (d q : String) (xs : List String) → str_eq d q ≡ true → has q xs ≡ false → has d xs ≡ false
has-same d q xs e out = ap (λ t. has t xs) ((eq_iff d q).0 e) ∙ out

pub tally-place :
    (q : String) (placed deps : List String)
    → has q placed ≡ false
    → tally (λ d. not (has d (q ∷ placed))) deps + count q deps
      ≡ tally (λ d. not (has d placed)) deps
tally-place q placed [] out = refl
tally-place q placed (d ∷ deps) out =
    ground (arith, tally-place q placed deps out, eq_iff q d, eq_iff d q, has-same d q placed, out)

undone-place :
    (q id : String) (placed : List String) (steps : List Step)
    → has q placed ≡ false
    → undone (q ∷ placed) id steps + waiting (λ d. str_eq d q) id steps ≡ undone placed id steps
undone-place q id placed [] out = refl
undone-place q id placed (s ∷ steps) out =
    ground (arith, undone-place q id placed steps out, tally-place q placed s.dependencies out)

-- the ids of a level are new and come once
abbrev pub AreNew : List String → List String → Type 0
AreNew [] placed = Unit {0}
AreNew (id ∷ level) placed = (has id placed ≡ false) × AreNew level (id ∷ placed)

pub has-count : (id : String) (xs : List String) → has id xs ≡ ltb 0 (count id xs)
has-count id [] = refl
has-count id (x ∷ xs) = ground (arith, has-count id xs)

pub count-place :
    (id : String) (level placed : List String)
    → count id (place level placed) ≡ count id placed + count id level
count-place id [] placed = omega arith
count-place id (x ∷ level) placed = omega (arith, count-place id level (x ∷ placed))

counted-AreNew :
    (level placed : List String)
    → ((id : String) → count id placed + count id level ≤ 1)
    → AreNew level placed
counted-AreNew [] placed once = tt
counted-AreNew (x ∷ level) placed once = (
  ground (arith, once x, has-count x placed, str_eq_self x),
  counted-AreNew level (x ∷ placed) (λ id. omega (arith, once id)),
)

waiting-is_step :
    (p : String → Bool) (id : String) (steps : List Step)
    → is_step id steps ≡ false
    → waiting p id steps ≡ 0
waiting-is_step p id [] e = refl
waiting-is_step p id (s ∷ steps) e = ground (arith, e, waiting-is_step p id steps)

abbrev pub step_ids : List Step → List String
step_ids [] = []
step_ids (s ∷ steps) = s.id ∷ step_ids steps

pub has-step_ids : (id : String) (steps : List Step) → has id (step_ids steps) ≡ is_step id steps
has-step_ids id [] = refl
has-step_ids id (s ∷ steps) = ground (arith, has-step_ids id steps)

-- every dependency of the steps of a level is placed before it
abbrev pub IsLayered : List Step → List String → List (List String) → Type 0
IsLayered steps placed [] = Unit {0}
IsLayered steps placed (level ∷ levels) =
    ((id : String) → has id level ≡ true → undone placed id steps ≡ 0)
    × IsLayered steps (place level placed) levels

abbrev pub place_all : List (List String) → List String → List String
place_all [] placed = placed
place_all (level ∷ levels) placed = place_all levels (place level placed)

abbrev pub remaining : List Step → List String → ℕ
remaining steps placed = tally (λ id. not (has id placed)) (step_ids steps)

module _ (steps : List Step) (graph : Map (List String))
    (edges : (p id : String)
      → count id (dependents p graph) ≡ waiting (λ d. str_eq d p) id steps) where
  process_level-places :
      (queue placed next : List String) (m : Map ℕ)
      → ((id : String) → degree id m ≡ undone placed id steps)
      → AreNew queue placed
      → (id : String)
      → let (m', next') = process_level graph queue m next in
        let after = undone (place queue placed) id steps in
        (degree id m' ≡ after)
        × (count id next' ≡ count id next + bit (ltb 0 (undone placed id steps) && (after == 0)))
        × (after ≤ undone placed id steps)
  unfolding process_level
  process_level-places [] placed next m degrees new id = (degrees id, ground arith, omega arith)
  process_level-places (q ∷ queue) placed next m degrees (out, new) id =
      let xs = dependents q graph in
      let enough : (j : String) → count j xs ≤ degree j m =
        λ j. omega (arith, edges q j, degrees j, undone-place q j placed steps out) in
      let (m', next') = relax xs m next in
      let degrees' : (j : String) → degree j m' ≡ undone (q ∷ placed) j steps = λ j. omega (
        arith,
        relax-degree xs m next enough j,
        edges q j,
        degrees j,
        undone-place q j placed steps out,
      ) in
      let (rest, nexts, less) = process_level-places queue (q ∷ placed) next' m' degrees' new id in
      let one = relax-next xs m next enough id in
      let part = undone-place q id placed steps out in
      (
        rest,
        ground (arith, nexts, one, part, less, edges q id, degrees id),
        omega (arith, less, part),
      )

  pub record IsRound (placed queue : List String) (m : Map ℕ) : Type 0 where
    pub degrees : (id : String) → degree id m ≡ undone placed id steps
    pub placing :
        (id : String)
        → count id placed + count id queue ≡ bit (is_step id steps && (undone placed id steps == 0))

  once : (b : Bool) → bit b ≤ 1
  once true = omega arith
  once false = omega arith

  round-AreNew :
      (placed queue : List String) (m : Map ℕ) → IsRound placed queue m → AreNew queue placed
  round-AreNew placed queue m h =
      counted-AreNew queue placed (λ id.
        omega (arith, h.placing id, once (is_step id steps && (undone placed id steps == 0))))

  next-IsRound :
      (placed queue : List String) (m : Map ℕ)
      → IsRound placed queue m
      → let (m', next) = process_level graph queue m [] in IsRound (place queue placed) next m'
  next-IsRound placed queue m h =
      let places =
        process_level-places queue placed [] m h.degrees (round-AreNew placed queue m h) in
      record {
        degrees = λ id. (places id).0;
        placing = λ id.
            let (left, next, less) = places id in
            ground (
              arith,
              next,
              less,
              h.placing id,
              count-place id queue placed,
              waiting-is_step (λ d. not (has d placed)) id steps,
              Bool-cases (is_step id steps),
            );
      }

  remaining-place :
      (q : String) (queue placed : List String) (m : Map ℕ)
      → IsRound placed (q ∷ queue) m
      → remaining steps (place (q ∷ queue) placed) < remaining steps placed
  remaining-place q queue placed m h =
      let after = place queue (q ∷ placed) in
      tally-lt (λ id. not (has id after)) (λ id. not (has id placed)) q (step_ids steps)
        (λ id e.
          ground
            (arith, e, has-count id after, has-count id placed, count-place id queue (q ∷ placed)))
        (ground
          (arith, has-step_ids q steps, h.placing q, str_eq_self q, Bool-cases (is_step q steps)))
        (ground (arith, has-count q after, count-place q queue (q ∷ placed), str_eq_self q))
        (ground (
          arith,
          has-count q placed,
          h.placing q,
          str_eq_self q,
          once (is_step q steps && (undone placed q steps == 0)),
        ))

  pub levels_of-total :
      (fuel : ℕ) (placed queue : List String) (m : Map ℕ)
      → IsRound placed queue m
      → remaining steps placed < fuel
      → (levels : List (List String)) × (levels_of fuel graph m queue ≡ some levels)
        × IsLayered steps placed levels
        × ((id : String)
            → count id (place_all levels placed)
              ≡ bit (is_step id steps && (undone (place_all levels placed) id steps == 0)))
  unfolding levels_of
  levels_of-total fuel placed [] m h room = ([], refl, tt, λ id. omega (arith, h.placing id))
  levels_of-total zero placed (q ∷ queue) m h room = ground (arith, room)
  levels_of-total (suc fuel) placed (q ∷ queue) m h room =
      let level = q ∷ queue in
      let (m', next) = process_level graph level m [] in
      let (levels, gives, layered, final) =
        levels_of-total fuel (place level placed) next m' (next-IsRound placed level m h)
          (omega (arith, remaining-place q queue placed m h, room)) in
      (
        level ∷ levels,
        rw gives refl,
        (λ id e. ground (arith, e, has-count id level, h.placing id), layered),
        final,
      )
