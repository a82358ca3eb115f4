-- ===== src/Plugin/Cycles.antt =====
-- `DetectCycles`: a depth-first search. After a cycle is found the search of that root ends, and
-- what it has put on `rec_stack` and `path` stays there.
use ranyaa.Base.{
  ℕ, zero, suc, String, Bool, true, false, Option, none, some, List, [], ◌∷◌, ◌++◌, if◌then◌else◌,
  has, str_eq,
}
use ranyaa.Plugin.{DependencyGraph, targets, ids_of}

pub record CycleSearch : Type 0 where
  pub visited : List String
  pub rec_stack : List String
  pub path : List String
  pub cycles : List (List String)

-- a search with its answer, true for a cycle found; `lost` if the fuel ran out
pub data Found : Type 0 where
  answer : Bool → CycleSearch → Found
  lost : Found

-- path[cycleStart:], none if the id is not on the path
abbrev pub from_start : String → List String → Option (List String)
from_start id [] = none
from_start id (x ∷ path) =
    let rest = from_start id path in if str_eq x id then some (x ∷ path) else rest

abbrev pub add_cycle : Option (List String) → List (List String) → List (List String)
add_cycle none cycles = cycles
add_cycle (some cycle) cycles = cycles ++ cycle ∷ []

-- set[id] = false
abbrev pub drop_id : String → List String → List String
drop_id id [] = []
drop_id id (x ∷ xs) = let rest = drop_id id xs in if str_eq x id then rest else x ∷ rest

-- path[:len(path)-1]
abbrev pub without_last : List String → List String
without_last [] = []
without_last (x ∷ []) = []
without_last (x ∷ y ∷ rest) = x ∷ without_last (y ∷ rest)

abbrev pub enter : String → CycleSearch → CycleSearch
enter id s = record s {
  visited = id ∷ s.visited;
  rec_stack = id ∷ s.rec_stack;
  path = s.path ++ id ∷ [];
}

abbrev pub leave : String → CycleSearch → CycleSearch
leave id s = record s { path = without_last s.path; rec_stack = drop_id id s.rec_stack }

module _ (search_from : String → CycleSearch → Found) where
  -- the loop over the dependencies
  unfoldable pub search_targets : List String → CycleSearch → Found
  search_targets [] s = answer false s
  search_targets (dep ∷ deps) s =
      let here = record s { cycles = add_cycle (from_start dep s.path) s.cycles } in
      if has dep s.visited
      then (if has dep s.rec_stack then answer true here else search_targets deps s)
      else elim (search_from dep s) [
        | lost ↦ lost
        | answer true s' ↦ answer true s'
        | answer false s' ↦ search_targets deps s'
      ]

abbrev pub left : String → Found → Found
left id lost = lost
left id (answer true s) = answer true s
left id (answer false s) = answer false (leave id s)

unfoldable pub dfs : ℕ → DependencyGraph → String → CycleSearch → Found
unfolding search_targets
dfs zero g id s = lost
dfs (suc fuel) g id s = left id (search_targets (dfs fuel g) (targets g id) (enter id s))

-- the loop over the nodes, in which the answers are not read
unfoldable pub search_roots : ℕ → DependencyGraph → List String → CycleSearch → Option CycleSearch
unfolding dfs
search_roots fuel g [] s = some s
search_roots fuel g (id ∷ ids) s =
    let rest = search_roots fuel g ids in
    if has id s.visited
    then rest s
    else elim (dfs fuel g id s) [ lost ↦ none | answer found s' ↦ rest s' ]

abbrev pub no_search : CycleSearch
no_search = record { visited = []; rec_stack = []; path = []; cycles = [] }

abbrev cycles_of : Option CycleSearch → Option (List (List String))
cycles_of none = none
cycles_of (some s) = some s.cycles

-- none if the fuel ran out
unfoldable pub detect_cycles : ℕ → DependencyGraph → Option (List (List String))
unfolding search_roots
detect_cycles fuel g = cycles_of (search_roots fuel g (ids_of g.nodes) no_search)
