-- ===== src/Node/Permission.antt =====
-- pkg/node/permission.go: `PermissionManager`, which reads and writes the permissions that the
-- registry keeps with each node.
use ranyaa.Base.{String, Bool, true, false, Option, none, some, [], Map, lookup, insert}
use ranyaa.Node.{
  NodeData, NodeError, node_not_found, permission_denied, Result, ok, failed,
  get_permission_for_capability,
}
use ranyaa.Node.Registry.{NodeRegistry, get_node}

-- a nil map reads as an empty one
abbrev pub permission_map : Option (Map Bool) → Map Bool
permission_map none = []
permission_map (some m) = m

-- granted, exists := permissions[permission]; exists && granted
abbrev pub granted : Option Bool → Bool
granted none = false
granted (some b) = b

abbrev pub refusal : String → Result Bool → Option NodeError
refusal permission (failed err) = some err
refusal permission (ok true) = none
refusal permission (ok false) = some (permission_denied permission)

module _ {M : Type 0} where
  abbrev pub with_permission : String → Bool → NodeData M → NodeData M
  with_permission permission value node = record node {
    permissions = some (insert permission value (permission_map node.permissions));
  }

  abbrev pub write_found :
      String
      → String
      → Bool
      → NodeRegistry M
      → Option (NodeData M)
      → NodeRegistry M × Option NodeError
  write_found id permission value nr none = (nr, some (node_not_found id))
  write_found id permission value nr (some node) =
      (record nr { nodes = insert id (with_permission permission value node) nr.nodes }, none)

  -- The node is looked up twice, first by GetNode; the second look-up decides nothing new as long
  -- as nothing comes in between.
  abbrev pub write_known :
      String
      → String
      → Bool
      → NodeRegistry M
      → Result (NodeData M)
      → NodeRegistry M × Option NodeError
  write_known id permission value nr (failed err) = (nr, some err)
  write_known id permission value nr (ok _) =
      write_found id permission value nr (lookup id nr.nodes)

  unfoldable pub grant_permission :
      String → String → NodeRegistry M → NodeRegistry M × Option NodeError
  grant_permission id permission nr = write_known id permission true nr (get_node id nr)

  unfoldable pub revoke_permission :
      String → String → NodeRegistry M → NodeRegistry M × Option NodeError
  revoke_permission id permission nr = write_known id permission false nr (get_node id nr)

  abbrev pub has_of : String → Result (NodeData M) → Result Bool
  has_of permission (failed err) = failed err
  has_of permission (ok node) = ok (granted (lookup permission (permission_map node.permissions)))

  unfoldable pub has_permission : String → String → NodeRegistry M → Result Bool
  has_permission id permission nr = has_of permission (get_node id nr)

  abbrev permissions_of : Result (NodeData M) → Result (Map Bool)
  permissions_of (failed err) = failed err
  permissions_of (ok node) = ok (permission_map node.permissions)

  unfoldable pub get_permissions : String → NodeRegistry M → Result (Map Bool)
  get_permissions id nr = permissions_of (get_node id nr)

  abbrev pub check_required : String → NodeRegistry M → Result String → Option NodeError
  check_required id nr (failed err) = some err
  check_required id nr (ok permission) = refusal permission (has_permission id permission nr)

  unfoldable pub check_invocation_permission : String → String → NodeRegistry M → Option NodeError
  check_invocation_permission id capability nr =
      check_required id nr (get_permission_for_capability capability)
