-- ===== src/Plugin/Validate.antt =====
-- `ValidateDependencies`. The versions and constraints of semver are a parameter: `parse_version` and
-- `parse_constraint` give none for an error, and `check` is `Constraints.Check`.
use ranyaa.Base.{
  String, ◌≡◌, ◌↔◌, refl, ◌∙◌, inl, inr, Bool, true, Option, none, some, List, [], ◌∷◌,
  if◌then◌else◌, arith, Map, lookup, insert, str_eq, Bool-cases, eq_iff, ap, ◌≢◌,
}
use ranyaa.Plugin.{PluginDependency, PluginManifest, DependencyGraph}

pub record Semver : Type 1 where
  pub Version : Type 0
  pub Constraint : Type 0
  pub parse_version : String → Option Version
  pub parse_constraint : String → Option Constraint
  pub check : Constraint → Version → Bool

pub data DependencyError : Type 0 where
  missing_dependency : String → DependencyError
  invalid_version : String → DependencyError
  invalid_constraint : String → DependencyError
  not_satisfied : String → String → DependencyError
  incompatible : String → DependencyError → DependencyError

module _ (semver : Semver) where
  open semver use {Version, Constraint, parse_version, parse_constraint, check}

  abbrev pub check_parsed :
      String → String → Option Version → Option Constraint → Option DependencyError
  check_parsed version constraint none c = some (invalid_version version)
  check_parsed version constraint (some v) none = some (invalid_constraint constraint)
  check_parsed version constraint (some v) (some c) =
      if check c v then none else some (not_satisfied version constraint)

  unfoldable pub check_version_compatibility : String → String → Option DependencyError
  check_version_compatibility version constraint =
      check_parsed version constraint (parse_version version) (parse_constraint constraint)

  abbrev pub wrapped : String → Option DependencyError → Option DependencyError
  wrapped id none = none
  wrapped id (some err) = some (incompatible id err)

  -- what the loop's body finds for one dependency
  abbrev pub problem_of : PluginDependency → Option PluginManifest → Option DependencyError
  problem_of dep none = some (missing_dependency dep.plugin_id)
  problem_of dep (some manifest) =
      if str_eq dep.version ""
      then none
      else wrapped dep.plugin_id (check_version_compatibility manifest.version dep.version)

  -- errors[pluginID] = err
  abbrev pub note : String → Option DependencyError → Map DependencyError → Map DependencyError
  note id none errors = errors
  note id (some err) errors = insert id err errors

  unfoldable pub validate_each :
      DependencyGraph → String → List PluginDependency → Map DependencyError → Map DependencyError
  validate_each g id [] errors = errors
  validate_each g id (dep ∷ deps) errors =
      validate_each g id deps (note id (problem_of dep (lookup dep.plugin_id g.nodes)) errors)

  unfoldable pub validate_nodes :
      DependencyGraph → Map PluginManifest → Map DependencyError → Map DependencyError
  unfolding validate_each
  validate_nodes g [] errors = errors
  validate_nodes g ((id, manifest) ∷ more) errors =
      validate_nodes g more (validate_each g id manifest.dependencies errors)

  unfoldable pub validate_dependencies : DependencyGraph → Map DependencyError
  unfolding validate_nodes
  validate_dependencies g = validate_nodes g g.nodes []

  -- A dependency is met if it is a plugin of the graph, and its version satisfies the constraint.
  pub data IsMet (g : DependencyGraph) (dep : PluginDependency) : Type 0 where
    any_version :
        (m : PluginManifest)
        → lookup dep.plugin_id g.nodes ≡ some m
        → dep.version ≡ ""
        → IsMet g dep
    this_version :
        (m : PluginManifest) (v : Version) (c : Constraint)
        → lookup dep.plugin_id g.nodes ≡ some m
        → parse_version m.version ≡ some v
        → parse_constraint dep.version ≡ some c
        → check c v ≡ true
        → IsMet g dep

  abbrev pub DepsMet : DependencyGraph → List PluginDependency → Type 0
  DepsMet g [] = Unit {0}
  DepsMet g (dep ∷ deps) = IsMet g dep × DepsMet g deps

  abbrev pub NodesMet : DependencyGraph → Map PluginManifest → Type 0
  NodesMet g [] = Unit {0}
  NodesMet g ((id, manifest) ∷ more) = DepsMet g manifest.dependencies × NodesMet g more

  check_parsed-none :
      (version constraint : String) (v : Option Version) (c : Option Constraint)
      → check_parsed version constraint v c ≡ none
      → (v' : Version) × (c' : Constraint) × (v ≡ some v') × (c ≡ some c') × (check c' v' ≡ true)
  check_parsed-none version constraint none c e = absurd (ground (arith, e))
  check_parsed-none version constraint (some v) none e = absurd (ground (arith, e))
  check_parsed-none version constraint (some v) (some c) e = elim (Bool-cases (check c v)) [
    | inl yes_it_is ↦ (v, c, refl, refl, yes_it_is)
    | inr bad ↦ absurd (ground (arith, e, bad))
  ]

  wrapped-none : (id : String) (o : Option DependencyError) → wrapped id o ≡ none → o ≡ none
  wrapped-none id none e = refl
  wrapped-none id (some err) e = absurd (ground (arith, e))

  problem_sound :
      (g : DependencyGraph) (dep : PluginDependency) (o : Option PluginManifest)
      → lookup dep.plugin_id g.nodes ≡ o
      → problem_of dep o ≡ none
      → IsMet g dep
  unfolding check_version_compatibility
  problem_sound g dep none here e = absurd (ground (arith, e))
  problem_sound g dep (some m) here e = elim (Bool-cases (str_eq dep.version "")) [
    | inl blank ↦ any_version m here ((eq_iff dep.version "").0 blank)
    | inr some_version ↦
        let none_found : wrapped dep.plugin_id (check_version_compatibility m.version dep.version)
            ≡ none =
          rw some_version at (e) in
        let (v, c, parsed, constrained, holds) =
          check_parsed-none m.version dep.version (parse_version m.version)
            (parse_constraint dep.version) (wrapped-none dep.plugin_id _ none_found) in
        this_version m v c here parsed constrained holds
  ]

  problem_complete :
      (g : DependencyGraph) (dep : PluginDependency)
      → IsMet g dep
      → problem_of dep (lookup dep.plugin_id g.nodes) ≡ none
  unfolding check_version_compatibility
  problem_complete g dep (any_version m here blank) =
      rw (here, (eq_iff dep.version "").1 blank) refl
  problem_complete g dep (this_version m v c here parsed constrained holds) =
      elim (Bool-cases (str_eq dep.version "")) [
        | inl blank ↦ rw (here, blank) refl
        | inr e ↦ rw (here, e, parsed, constrained, holds) refl
      ]

  insert-ne-nil :
      (id : String) (err : DependencyError) (m : Map DependencyError) → insert id err m ≢ []
  insert-ne-nil id err [] e = ground (arith, e)
  insert-ne-nil id err ((j, w) ∷ m) e = ground (arith, e)

  note-nil :
      (id : String) (o : Option DependencyError) (errors : Map DependencyError)
      → note id o errors ≡ []
      → (o ≡ none) × (errors ≡ [])
  note-nil id none errors e = (refl, e)
  note-nil id (some err) errors e = absurd (insert-ne-nil id err errors e)

  module _ (g : DependencyGraph) where
    validate_each_sound :
        (id : String) (deps : List PluginDependency) (errors : Map DependencyError)
        → validate_each g id deps errors ≡ []
        → DepsMet g deps × (errors ≡ [])
    unfolding validate_each
    validate_each_sound id [] errors e = (tt, e)
    validate_each_sound id (dep ∷ deps) errors e =
        let (met, before) = validate_each_sound id deps _ e in
        let (fine, same) =
          note-nil id (problem_of dep (lookup dep.plugin_id g.nodes)) errors before in
        ((problem_sound g dep (lookup dep.plugin_id g.nodes) refl fine, met), same)

    validate_each_complete :
        (id : String) (deps : List PluginDependency)
        → DepsMet g deps
        → validate_each g id deps [] ≡ []
    unfolding validate_each
    validate_each_complete id [] h = refl
    validate_each_complete id (dep ∷ deps) (met, h) =
        ap (λ o. validate_each g id deps (note id o [])) (problem_complete g dep met)
        ∙ validate_each_complete id deps h

    validate_nodes_sound :
        (m : Map PluginManifest) (errors : Map DependencyError)
        → validate_nodes g m errors ≡ []
        → NodesMet g m × (errors ≡ [])
    unfolding validate_nodes
    validate_nodes_sound [] errors e = (tt, e)
    validate_nodes_sound ((id, manifest) ∷ more) errors e =
        let (met, before) = validate_nodes_sound more _ e in
        let (first, same) = validate_each_sound id manifest.dependencies errors before in
        ((first, met), same)

    validate_nodes_complete : (m : Map PluginManifest) → NodesMet g m → validate_nodes g m [] ≡ []
    unfolding validate_nodes
    validate_nodes_complete [] h = refl
    validate_nodes_complete ((id, manifest) ∷ more) (first, h) =
        ap (validate_nodes g more) (validate_each_complete id manifest.dependencies first)
        ∙ validate_nodes_complete more h

    -- `ValidateDependencies` reports no error just when every dependency of every plugin of the graph
    -- is a plugin of the graph whose version satisfies the constraint, if there is one.
    pub validate_dependencies_iff : (validate_dependencies g ≡ []) ↔ NodesMet g g.nodes
    unfolding validate_dependencies
    validate_dependencies_iff =
        (λ e. (validate_nodes_sound g.nodes [] e).0, validate_nodes_complete g.nodes)
