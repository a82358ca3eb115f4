-- ===== src/Plugin/Sort.antt =====
-- `TopologicalSort`.
use ranyaa.Base.{ℕ, zero, suc, String, Option, none, some, List, [], ◌∷◌, ◌++◌, if◌then◌else◌, has}
use ranyaa.Plugin.{DependencyGraph, targets, ids_of, enough}
use ranyaa.Plugin.Cycles.{detect_cycles, drop_id}

pub record Visiting : Type 0 where
  pub sorted : List String
  pub visited : List String
  pub temp : List String

pub data SortError : Type 0 where
  cycles_found : List (List String) → SortError
  cycle_at : String → SortError
  out_of_fuel : SortError

pub data Sorting {ℓ} (A : Type ℓ) : Type ℓ where
  done : A → Sorting A
  stuck : SortError → Sorting A

abbrev pub and_then : Sorting Visiting → (Visiting → Sorting Visiting) → Sorting Visiting
and_then (stuck err) next = stuck err
and_then (done s) next = next s

module _ (visit_one : String → Visiting → Sorting Visiting) where
  unfoldable pub visit_each : List String → Visiting → Sorting Visiting
  visit_each [] s = done s
  visit_each (id ∷ ids) s = and_then (visit_one id s) (visit_each ids)

-- the end of a visit
abbrev pub finished : String → Visiting → Visiting
finished id s = record {
  sorted = s.sorted ++ id ∷ [];
  visited = id ∷ s.visited;
  temp = drop_id id s.temp;
}

abbrev pub finish : String → Sorting Visiting → Sorting Visiting
finish id (stuck err) = stuck err
finish id (done s) = done (finished id s)

unfoldable pub visit : ℕ → DependencyGraph → String → Visiting → Sorting Visiting
unfolding visit_each
visit zero g id s = stuck out_of_fuel
visit (suc fuel) g id s =
    let below = visit_each (visit fuel g) (targets g id) (record s { temp = id ∷ s.temp }) in
    if has id s.temp
    then stuck (cycle_at id)
    else if has id s.visited
    then done s
    else finish id below

-- the loop over the nodes
unfoldable pub visit_nodes : ℕ → DependencyGraph → List String → Visiting → Sorting Visiting
unfolding visit
visit_nodes fuel g [] s = done s
visit_nodes fuel g (id ∷ ids) s =
    let rest = visit_nodes fuel g ids in
    if has id s.visited then rest s else and_then (visit fuel g id s) rest

abbrev pub order_of : Sorting Visiting → Sorting (List String)
order_of (stuck err) = stuck err
order_of (done s) = done s.sorted

abbrev pub nothing_visited : Visiting
nothing_visited = record { sorted = []; visited = []; temp = [] }

abbrev pub sort_unless : Option (List (List String)) → Sorting (List String) → Sorting (List String)
sort_unless none order = stuck out_of_fuel
sort_unless (some []) order = order
sort_unless (some (c ∷ cs)) order = stuck (cycles_found (c ∷ cs))

unfoldable pub topological_sort_within : ℕ → DependencyGraph → Sorting (List String)
unfolding visit_nodes detect_cycles
topological_sort_within fuel g =
    sort_unless (detect_cycles fuel g)
      (order_of (visit_nodes fuel g (ids_of g.nodes) nothing_visited))

unfoldable pub topological_sort : DependencyGraph → Sorting (List String)
unfolding topological_sort_within
topological_sort g = topological_sort_within (enough g) g
