-- ===== src/Plugin/Examples.antt =====
-- Three plugins: app needs db and log, db needs log. And a plugin that needs itself.
use ranyaa.Base.{
  ℕ, ◌<◌, String, ◌≡◌, ◌↔◌, refl, true, some, List, [], ◌∷◌, if◌then◌else◌, str_eq, has, arith,
  eq_iff, Bool-cases, inl, inr, ap, ◌∙◌,
}
use ranyaa.Plugin.{
  PluginDependency, PluginManifest, DependencyGraph, targets, ids_of, build_dependency_graph,
  get_dependents,
}
use ranyaa.Plugin.Cycles.{detect_cycles}
use ranyaa.Plugin.Sort.{done, topological_sort}
use ranyaa.Plugin.Order.{IsLoadOrder, all_in, topological_sort_sound}
use ranyaa.Plugin.Acyclic.{topological_sort_total}
use ranyaa.Plugin.Validate.{Semver, validate_dependencies, NodesMet, validate_dependencies_iff}

abbrev needs : String → PluginDependency
needs id = record { plugin_id = id; version = "" }

abbrev plugin : String → List PluginDependency → PluginManifest
plugin id deps = record { id = id; version = "1"; dependencies = deps }

abbrev three : DependencyGraph
three = record {
  nodes =
      ("app", plugin "app" (needs "db" ∷ needs "log" ∷ []))
      ∷ ("db", plugin "db" (needs "log" ∷ []))
      ∷ ("log", plugin "log" [])
      ∷ [];
  edges = ("app", "db" ∷ "log" ∷ []) ∷ ("db", "log" ∷ []) ∷ ("log", []) ∷ [];
}

three_built : build_dependency_graph ("app" ∷ "db" ∷ "gone" ∷ "log" ∷ []) three.nodes ≡ three
unfolding build_dependency_graph
three_built = refl

three_sorted : topological_sort three ≡ done ("log" ∷ "db" ∷ "app" ∷ [])
unfolding topological_sort
three_sorted = refl

log_dependents : get_dependents three "log" ≡ "app" ∷ "db" ∷ []
unfolding get_dependents
log_dependents = refl

topological_sort_sound_example :
    IsLoadOrder three [] ("log" ∷ "db" ∷ "app" ∷ [])
    × (all_in (ids_of three.nodes) ("log" ∷ "db" ∷ "app" ∷ []) ≡ true)
topological_sort_sound_example =
    topological_sort_sound three ("log" ∷ "db" ∷ "app" ∷ []) three_sorted

abbrev height : String → ℕ
height id = if str_eq id "app" then 2 else if str_eq id "db" then 1 else 0

height_falls : (id dep : String) → has dep (targets three id) ≡ true → height dep < height id
height_falls id dep h = elim (Bool-cases (str_eq "app" id)) [
  | inl e ↦
      let app : "app" ≡ id = (eq_iff "app" id).0 e in
      let edge : has dep (targets three "app") ≡ true =
        ap (λ i. has dep (targets three i)) app ∙ h in
      rw (← app) (elim (Bool-cases (str_eq "db" dep)) [
        | inl d ↦ rw (← (eq_iff "db" dep).0 d) (omega arith)
        | inr d ↦ elim (Bool-cases (str_eq "log" dep)) [
          | inl l ↦ rw (← (eq_iff "log" dep).0 l) (omega arith)
          | inr l ↦ absurd (ground (arith, edge, d, l))
        ]
      ])
  | inr e ↦ elim (Bool-cases (str_eq "db" id)) [
    | inl d ↦
        let db : "db" ≡ id = (eq_iff "db" id).0 d in
        let edge : has dep (targets three "db") ≡ true =
          ap (λ i. has dep (targets three i)) db ∙ h in
        rw (← db) (elim (Bool-cases (str_eq "log" dep)) [
          | inl l ↦ rw (← (eq_iff "log" dep).0 l) (omega arith)
          | inr l ↦ absurd (ground (arith, edge, l))
        ])
    | inr d ↦ absurd (ground (arith, h, e, d, eq_iff "log" id))
  ]
]

topological_sort_total_example : (order : List String) × (topological_sort three ≡ done order)
topological_sort_total_example = topological_sort_total three height height_falls

-- versions and constraints that are texts, and equality for the check
abbrev same_text : Semver
same_text = record {
  Version = String;
  Constraint = String;
  parse_version = λ v. some v;
  parse_constraint = λ c. some c;
  check = λ c v. str_eq c v;
}

validate_dependencies_iff_example :
    (validate_dependencies same_text three ≡ []) ↔ NodesMet same_text three three.nodes
validate_dependencies_iff_example = validate_dependencies_iff same_text three

-- "a" needs itself and "c" needs "a"; "c" is on no cycle, and is reported on one.
abbrev looped : DependencyGraph
looped = record {
  nodes = ("a", plugin "a" (needs "a" ∷ [])) ∷ ("c", plugin "c" (needs "a" ∷ [])) ∷ [];
  edges = ("a", "a" ∷ []) ∷ ("c", "a" ∷ []) ∷ [];
}

looped_cycles : detect_cycles 5 looped ≡ some (("a" ∷ []) ∷ ("a" ∷ "c" ∷ []) ∷ [])
unfolding detect_cycles
looped_cycles = refl
