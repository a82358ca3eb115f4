-- ===== src/Planner/Degrees.antt =====
-- The degrees count the dependencies that are not done yet.
use ranyaa.Base.{
  ℕ, suc, ◌+◌, ◌-◌, ◌≤◌, String, ◌≡◌, refl, inl, inr, Bool, true, false, ◌&&◌, ◌||◌, none, some,
  List, [], ◌∷◌, ◌++◌, if◌then◌else◌, ◌==◌, arith, ltb, Map, lookup, insert, lookup-insert,
  insert-IsMap, IsMap, length, tally, tally-append, bit, str_eq, str_eq_self, eq_iff, Bool-cases,
  Option-cases,
}
use ranyaa.Planner.{
  Step, StepGraph, degree, dependents, add_dependencies, ensure_degree, add_step, add_steps, ready,
  relax,
}

-- how often an id is in a list
abbrev pub count : String → List String → ℕ
count id = tally (λ x. str_eq x id)

-- the dependencies of the steps with an id that pass a test
abbrev pub waiting : (String → Bool) → String → List Step → ℕ
waiting p id [] = 0
waiting p id (s ∷ steps) =
    (if str_eq s.id id then tally p s.dependencies else 0) + waiting p id steps

abbrev pub is_step : String → List Step → Bool
is_step id [] = false
is_step id (s ∷ steps) = str_eq s.id id || is_step id steps

degree-insert :
    (id x : String) (n : ℕ) (m : Map ℕ)
    → degree id (insert x n m) ≡ (if str_eq x id then n else degree id m)
degree-insert id x n m = ground (arith, lookup-insert x id n m)

dependents-insert :
    (p d : String) (xs : List String) (m : Map (List String))
    → dependents p (insert d xs m) ≡ (if str_eq d p then xs else dependents p m)
dependents-insert p d xs m = ground (arith, lookup-insert d p xs m)

-- one relaxation takes what it counts from each degree
pub relax-degree :
    (xs : List String) (m : Map ℕ) (next : List String)
    → ((id : String) → count id xs ≤ degree id m)
    → (id : String) → degree id (relax xs m next).0 + count id xs ≡ degree id m
unfolding relax
relax-degree [] m next enough id = omega arith
relax-degree (x ∷ xs) m next enough id =
    let m' = insert x (degree x m - 1) m in
    let next' = if degree x m == 1 then next ++ x ∷ [] else next in
    let rest =
      relax-degree xs m' next'
        (λ j. ground (arith, enough j, enough x, degree-insert j x (degree x m - 1) m, eq_iff x j))
        id in
    ground (arith, rest, enough id, degree-insert id x (degree x m - 1) m, eq_iff x id)

-- and gives the ids whose degree falls to 0 by it
pub relax-next :
    (xs : List String) (m : Map ℕ) (next : List String)
    → ((id : String) → count id xs ≤ degree id m)
    → (id : String)
    → count id (relax xs m next).1
      ≡ count id next + bit (ltb 0 (count id xs) && (degree id m == count id xs))
unfolding relax
relax-next [] m next enough id = ground arith
relax-next (x ∷ xs) m next enough id =
    let m' = insert x (degree x m - 1) m in
    let next' = if degree x m == 1 then next ++ x ∷ [] else next in
    let rest =
      relax-next xs m' next'
        (λ j. ground (arith, enough j, enough x, degree-insert j x (degree x m - 1) m, eq_iff x j))
        id in
    ground (
      arith,
      rest,
      enough id,
      enough x,
      degree-insert id x (degree x m - 1) m,
      eq_iff x id,
      tally-append (λ y. str_eq y id) next (x ∷ []),
    )

abbrev pub is_key : String → Map ℕ → Bool
is_key id [] = false
is_key id ((j, n) ∷ m) = str_eq j id || is_key id m

is_key-insert :
    (id x : String) (n : ℕ) (m : Map ℕ) → is_key id (insert x n m) ≡ (str_eq x id || is_key id m)
is_key-insert id x n [] = refl
is_key-insert id x n ((j, k) ∷ m) = ground (arith, is_key-insert id x n m, eq_iff j x, eq_iff x id)

is_key-lookup : (id : String) (m : Map ℕ) → lookup id m ≡ none → is_key id m ≡ false
is_key-lookup id [] e = refl
is_key-lookup id ((j, k) ∷ m) e = ground (arith, e, is_key-lookup id m)

is_key-found : (id : String) (n : ℕ) (m : Map ℕ) → lookup id m ≡ some n → is_key id m ≡ true
is_key-found id n [] e = ground (arith, e)
is_key-found id n ((j, k) ∷ m) e = ground (arith, e, is_key-found id n m)

pub count-ready :
    (id : String) (m : Map ℕ)
    → IsMap m
    → count id (ready m) ≡ bit (is_key id m && (degree id m == 0))
count-ready id [] map = refl
count-ready id ((j, n) ∷ m) map =
    ground (arith, count-ready id m map.1, map.0, eq_iff j id, is_key-lookup j m map.0)

-- what building the graph adds for the dependencies of a step
add_dependencies-degree :
    (sid : String) (deps : List String) (g : StepGraph) (id : String)
    → degree id (add_dependencies sid deps g).in_degree
      ≡ degree id g.in_degree + (if str_eq sid id then length deps else 0)
unfolding add_dependencies
add_dependencies-degree sid [] g id = ground arith
add_dependencies-degree sid (dep ∷ deps) g id =
    let g' : StepGraph = record {
      graph = insert dep (dependents dep g.graph ++ sid ∷ []) g.graph;
      in_degree = insert sid (suc (degree sid g.in_degree)) g.in_degree;
    } in
    ground (
      arith,
      add_dependencies-degree sid deps g' id,
      eq_iff sid id,
      degree-insert id sid (suc (degree sid g.in_degree)) g.in_degree,
    )

add_dependencies-graph :
    (sid : String) (deps : List String) (g : StepGraph) (p id : String)
    → count id (dependents p (add_dependencies sid deps g).graph)
      ≡ count id (dependents p g.graph) + (if str_eq sid id then count p deps else 0)
unfolding add_dependencies
add_dependencies-graph sid [] g p id = ground arith
add_dependencies-graph sid (dep ∷ deps) g p id =
    let g' : StepGraph = record {
      graph = insert dep (dependents dep g.graph ++ sid ∷ []) g.graph;
      in_degree = insert sid (suc (degree sid g.in_degree)) g.in_degree;
    } in
    ground (
      arith,
      add_dependencies-graph sid deps g' p id,
      eq_iff dep p,
      dependents-insert p dep (dependents dep g.graph ++ sid ∷ []) g.graph,
      tally-append (λ y. str_eq y id) (dependents dep g.graph) (sid ∷ []),
    )

add_dependencies-key :
    (sid : String) (deps : List String) (g : StepGraph) (id : String)
    → is_key sid g.in_degree ≡ true
    → IsMap g.in_degree
    → let m = (add_dependencies sid deps g).in_degree in
      (is_key id m ≡ is_key id g.in_degree) × IsMap m
unfolding add_dependencies
add_dependencies-key sid [] g id here map = (refl, map)
add_dependencies-key sid (dep ∷ deps) g id here map =
    let g' : StepGraph = record {
      graph = insert dep (dependents dep g.graph ++ sid ∷ []) g.graph;
      in_degree = insert sid (suc (degree sid g.in_degree)) g.in_degree;
    } in
    let n = suc (degree sid g.in_degree) in
    let (keys, map') =
      add_dependencies-key sid deps g' id
        (ground (arith, is_key-insert sid sid n g.in_degree, str_eq_self sid))
        (insert-IsMap sid n g.in_degree map) in
    (ground (arith, keys, is_key-insert id sid n g.in_degree, eq_iff sid id, here), map')

abbrev with_degree : Step → StepGraph → StepGraph
with_degree s g = record g { in_degree = ensure_degree s.id (lookup s.id g.in_degree) g.in_degree }

with_degree-same :
    (s : Step) (g : StepGraph) (id : String)
    → degree id (with_degree s g).in_degree ≡ degree id g.in_degree
with_degree-same s g id = elim (Option-cases (lookup s.id g.in_degree)) [
  | inl e ↦ rw e (ground (arith, e, degree-insert id s.id 0 g.in_degree, eq_iff s.id id))
  | inr (n, e) ↦ rw e refl
]

with_degree-key :
    (s : Step) (g : StepGraph) (id : String)
    → IsMap g.in_degree
    → let m = (with_degree s g).in_degree in
      (is_key id m ≡ (str_eq s.id id || is_key id g.in_degree)) × IsMap m
with_degree-key s g id map = elim (Option-cases (lookup s.id g.in_degree)) [
  | inl e ↦ rw e (is_key-insert id s.id 0 g.in_degree, insert-IsMap s.id 0 g.in_degree map)
  | inr (n, e) ↦ rw e (ground (arith, is_key-found s.id n g.in_degree e, eq_iff s.id id), map)
]

pub record IsBuilt (steps : List Step) (g : StepGraph) (h : StepGraph) : Type 0 where
  pub degrees :
      (id : String) → degree id h.in_degree ≡ degree id g.in_degree + waiting (λ d. true) id steps
  pub edges :
      (p id : String)
      → count id (dependents p h.graph)
        ≡ count id (dependents p g.graph) + waiting (λ d. str_eq d p) id steps
  pub keys : (id : String) → is_key id h.in_degree ≡ (is_key id g.in_degree || is_step id steps)
  pub is_map : IsMap h.in_degree

pub length-tally : (xs : List String) → tally (λ x. true) xs ≡ length xs
length-tally [] = refl
length-tally (x ∷ xs) = omega (arith, length-tally xs)

pub add_steps-IsBuilt :
    (steps : List Step) (g : StepGraph) → IsMap g.in_degree → IsBuilt steps g (add_steps steps g)
unfolding add_steps
add_steps-IsBuilt [] g map = record {
  degrees = λ id. omega arith;
  edges = λ p id. omega arith;
  keys = λ id. ground arith;
  is_map = map;
}
add_steps-IsBuilt (s ∷ steps) g map =
    let g' = with_degree s g in
    let self = with_degree-key s g s.id map in
    let here : is_key s.id g'.in_degree ≡ true = ground (arith, self.0, str_eq_self s.id) in
    let map' = (add_dependencies-key s.id s.dependencies g' s.id here self.1).1 in
    let rest = add_steps-IsBuilt steps (add_step s g) map' in
    record {
      degrees = λ id. ground (
        arith,
        rest.degrees id,
        add_dependencies-degree s.id s.dependencies g' id,
        with_degree-same s g id,
        length-tally s.dependencies,
      );
      edges = λ p id.
          ground (arith, rest.edges p id, add_dependencies-graph s.id s.dependencies g' p id);
      keys = λ id. ground (
        arith,
        rest.keys id,
        (add_dependencies-key s.id s.dependencies g' id here self.1).0,
        (with_degree-key s g id map).0,
        Bool-cases (str_eq s.id id),
        Bool-cases (is_key id g.in_degree),
      );
      is_map = rest.is_map;
    }
