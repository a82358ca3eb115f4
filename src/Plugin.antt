-- ===== src/Plugin.antt =====
-- pkg/plugin/dependency.go: the graph of plugin dependencies, its cycles and its load order. Of a
-- manifest (types.go) the fields that this file reads. A set of ids is the list of its members.
-- Recursion takes fuel; `enough` is the fuel that the graph needs.
pub mod Cycles
pub mod Sort
pub mod Order
pub mod Acyclic
pub mod Validate
mod Examples
use ranyaa.Base.{
  ℕ, zero, suc, String, ◌≡◌, Bool, true, false, not, Option, none, some, List, [], ◌∷◌, ◌++◌,
  if◌then◌else◌, Map, lookup, insert, length, has, str_eq, any,
}

pub record PluginDependency : Type 0 where
  pub plugin_id : String
  pub version : String

pub record PluginManifest : Type 0 where
  pub id : String
  pub version : String
  pub dependencies : List PluginDependency

pub record DependencyGraph : Type 0 where
  pub nodes : Map PluginManifest
  pub edges : Map (List String)

abbrev pub or_nil : Option (List String) → List String
or_nil none = []
or_nil (some ids) = ids

-- graph.Edges[id], nil for a missing key
abbrev pub targets : DependencyGraph → String → List String
targets g id = or_nil (lookup id g.edges)

-- Add all plugins as nodes
add_nodes : List String → Map PluginManifest → DependencyGraph → DependencyGraph
add_nodes [] manifests g = g
add_nodes (id ∷ more) manifests g = elim (lookup id manifests) [
  | none ↦ add_nodes more manifests g
  | some manifest ↦
      add_nodes more manifests
        (record { nodes = insert id manifest g.nodes; edges = insert id [] g.edges })
]

-- graph.Edges[pluginID] = append(graph.Edges[pluginID], dep.PluginID)
add_targets : String → List PluginDependency → DependencyGraph → DependencyGraph
add_targets id [] g = g
add_targets id (dep ∷ deps) g =
    add_targets id deps
      (record g { edges = insert id (targets g id ++ dep.plugin_id ∷ []) g.edges })

add_edges : Map PluginManifest → DependencyGraph → DependencyGraph
unfolding add_targets
add_edges [] g = g
add_edges ((id, manifest) ∷ more) g = add_edges more (add_targets id manifest.dependencies g)

-- BuildDependencyGraph, given the ids of the discovered plugins
unfoldable pub build_dependency_graph : List String → Map PluginManifest → DependencyGraph
unfolding add_nodes add_edges
build_dependency_graph plugins manifests =
    let g = add_nodes plugins manifests (record { nodes = []; edges = [] }) in add_edges g.nodes g

abbrev pub ids_of {ℓ} : {V : Type ℓ} → Map V → List String
ids_of [] = []
ids_of ((id, v) ∷ m) = id ∷ ids_of m

abbrev pub all_targets : Map (List String) → List String
all_targets [] = []
all_targets ((id, ids) ∷ m) = ids ++ all_targets m

-- every id that the graph names
abbrev pub names : DependencyGraph → List String
names g = ids_of g.nodes ++ all_targets g.edges

abbrev pub enough : DependencyGraph → ℕ
enough g = suc (length (names g))

dependents_of : String → Map (List String) → List String
dependents_of plugin_id [] = []
dependents_of plugin_id ((id, ids) ∷ m) =
    let rest = dependents_of plugin_id m in if has plugin_id ids then id ∷ rest else rest

unfoldable pub get_dependents : DependencyGraph → String → List String
unfolding dependents_of
get_dependents g plugin_id = dependents_of plugin_id g.edges
