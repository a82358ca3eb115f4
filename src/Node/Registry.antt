-- ===== src/Node/Registry.antt =====
-- pkg/node/registry.go: `NodeRegistry` and its operations. Each operation runs under the registry's
-- lock, and takes the time at which it reads the clock.
use ranyaa.Base.{
  ℕ, suc, String, Bool, true, false, not, ◌&&◌, Option, none, some, List, [], ◌∷◌, if◌then◌else◌,
  leb, Map, lookup, insert, delete, str_eq, has,
}
use ranyaa.Node.{
  NodeData, NodeError, id_required, name_required, platform_required, invalid_capabilities,
  node_not_found, validate_capabilities, Result, ok, failed,
}

pub record NodeRegistry (M : Type 0) : Type 0 where
  pub nodes : Map (NodeData M)
  pub default_node : String

pub record NodeFilter : Type 0 where
  pub platform : Option String
  pub online : Option Bool
  pub capability : Option String
  pub degraded : Option Bool

abbrev default_permissions : Map Bool
default_permissions =
    ("camera", false) ∷ ("location", false) ∷ ("notifications", false) ∷ ("automation", false) ∷ []

abbrev pub permissions_or_default : Option (Map Bool) → Map Bool
permissions_or_default none = default_permissions
permissions_or_default (some permissions) = permissions

-- Booleans compared
abbrev same : Bool → Bool → Bool
same true b = b
same false b = not b

abbrev filter_passes {ℓ} : {A : Type ℓ} → (A → Bool) → Option A → Bool
filter_passes p none = true
filter_passes p (some a) = p a

module _ {M : Type 0} where
  unfoldable pub new_registry : NodeRegistry M
  new_registry = record { nodes = []; default_node = "" }

  -- the entry that RegisterNode writes
  abbrev pub registered : NodeData M → ℕ → Option (NodeData M) → NodeData M
  registered node now (some existing) = record existing {
    name = node.name;
    platform = node.platform;
    capabilities = node.capabilities;
    metadata = node.metadata;
    last_seen = now;
    online = true;
    missed_heartbeats = 0;
  }
  registered node now none = record node {
    created_at = now;
    last_seen = now;
    online = true;
    missed_heartbeats = 0;
    timeout_count = 0;
    degraded = false;
    permissions = some (permissions_or_default node.permissions);
  }

  abbrev pub register_valid :
      NodeData M → ℕ → NodeRegistry M → Option NodeError → NodeRegistry M × Option NodeError
  register_valid node now nr (some err) = (nr, some (invalid_capabilities err))
  register_valid node now nr none = (
    record nr { nodes = insert node.id (registered node now (lookup node.id nr.nodes)) nr.nodes },
    none,
  )

  unfoldable pub register_node : NodeData M → ℕ → NodeRegistry M → NodeRegistry M × Option NodeError
  register_node node now nr =
      if str_eq node.id ""
      then (nr, some id_required)
      else if str_eq node.name ""
      then (nr, some name_required)
      else if str_eq node.platform ""
      then (nr, some platform_required)
      else register_valid node now nr (validate_capabilities node.capabilities)

  abbrev pub unregister_found :
      String → NodeRegistry M → Option (NodeData M) → NodeRegistry M × Option NodeError
  unregister_found id nr none = (nr, some (node_not_found id))
  unregister_found id nr (some _) = (
    record {
      nodes = delete id nr.nodes;
      default_node = if str_eq nr.default_node id then "" else nr.default_node;
    },
    none,
  )

  unfoldable pub unregister_node : String → NodeRegistry M → NodeRegistry M × Option NodeError
  unregister_node id nr = unregister_found id nr (lookup id nr.nodes)

  abbrev node_or_error : String → Option (NodeData M) → Result (NodeData M)
  node_or_error id none = failed (node_not_found id)
  node_or_error id (some node) = ok node

  unfoldable pub get_node : String → NodeRegistry M → Result (NodeData M)
  get_node id nr = node_or_error id (lookup id nr.nodes)

  -- the tests of ListNodes
  abbrev matches : NodeFilter → NodeData M → Bool
  matches filter node =
      filter_passes (λ p. str_eq node.platform p) filter.platform
      && filter_passes (λ b. same node.online b) filter.online
      && filter_passes (λ b. same node.degraded b) filter.degraded
      && filter_passes (λ c. has c node.capabilities) filter.capability

  abbrev pub nodes_that_match : Option NodeFilter → Map (NodeData M) → List (NodeData M)
  nodes_that_match filter [] = []
  nodes_that_match filter ((id, node) ∷ m) =
      let rest = nodes_that_match filter m in
      if filter_passes (λ f. matches f node) filter then node ∷ rest else rest

  unfoldable pub list_nodes : Option NodeFilter → NodeRegistry M → List (NodeData M)
  list_nodes filter nr = nodes_that_match filter nr.nodes

  unfoldable pub get_all_nodes : NodeRegistry M → List (NodeData M)
  get_all_nodes nr = nodes_that_match none nr.nodes

  -- what the operations on one node share: the look-up, its error, and the write
  abbrev pub change_found :
      (NodeData M → NodeData M)
      → String
      → NodeRegistry M
      → Option (NodeData M)
      → NodeRegistry M × Option NodeError
  change_found change id nr none = (nr, some (node_not_found id))
  change_found change id nr (some node) =
      (record nr { nodes = insert id (change node) nr.nodes }, none)

  abbrev pub change_node :
      (NodeData M → NodeData M) → String → NodeRegistry M → NodeRegistry M × Option NodeError
  change_node change id nr = change_found change id nr (lookup id nr.nodes)

  abbrev pub seen : ℕ → NodeData M → NodeData M
  seen now node = record node { last_seen = now; online = true; missed_heartbeats = 0 }

  unfoldable pub handle_heartbeat : String → ℕ → NodeRegistry M → NodeRegistry M × Option NodeError
  handle_heartbeat id now = change_node (seen now) id

  unfoldable pub mark_node_offline : String → NodeRegistry M → NodeRegistry M × Option NodeError
  mark_node_offline = change_node (λ node. record node { online = false })

  unfoldable pub increment_missed_heartbeat :
      String → NodeRegistry M → NodeRegistry M × Option NodeError
  increment_missed_heartbeat =
      change_node (λ node. record node { missed_heartbeats = suc node.missed_heartbeats })

  abbrev pub timed_out : ℕ → NodeData M → NodeData M
  timed_out threshold node = record node {
    timeout_count = suc node.timeout_count;
    degraded = if leb threshold (suc node.timeout_count) then true else node.degraded;
  }

  unfoldable pub increment_timeout_count :
      String → ℕ → NodeRegistry M → NodeRegistry M × Option NodeError
  increment_timeout_count id degraded_threshold = change_node (timed_out degraded_threshold) id

  unfoldable pub reset_timeout_count : String → NodeRegistry M → NodeRegistry M × Option NodeError
  reset_timeout_count = change_node (λ node. record node { timeout_count = 0; degraded = false })

  abbrev pub default_found :
      String → NodeRegistry M → Option (NodeData M) → NodeRegistry M × Option NodeError
  default_found id nr none = (nr, some (node_not_found id))
  default_found id nr (some _) = (record nr { default_node = id }, none)

  unfoldable pub set_default_node : String → NodeRegistry M → NodeRegistry M × Option NodeError
  set_default_node id nr =
      if str_eq id ""
      then (record nr { default_node = id }, none)
      else default_found id nr (lookup id nr.nodes)

  abbrev capability_found : String → Option (NodeData M) → Bool
  capability_found capability none = false
  capability_found capability (some node) = has capability node.capabilities

  unfoldable pub has_capability : String → String → NodeRegistry M → Bool
  has_capability id capability nr = capability_found capability (lookup id nr.nodes)

  abbrev pub load_valid : NodeData M → Map (NodeData M) → Option NodeError → Map (NodeData M)
  load_valid node m none = insert node.id node m
  load_valid node m (some _) = m

  abbrev pub load_all : List (NodeData M) → Map (NodeData M) → Map (NodeData M)
  load_all [] m = m
  load_all (node ∷ rest) m =
      load_all rest (load_valid node m (validate_capabilities node.capabilities))

  unfoldable pub load_nodes : List (NodeData M) → NodeRegistry M → NodeRegistry M
  load_nodes list nr = record nr { nodes = load_all list nr.nodes }
