-- ===== src/Node/Heartbeat.antt =====
-- pkg/node/heartbeat.go: one pass of `checkHeartbeats`, with the events that it emits. The ticker's
-- loop calls it again and again; the handlers of events perform elsewhere.
use ranyaa.Base.{ℕ, ◌-◌, String, Option, none, some, List, [], ◌∷◌, ◌++◌, if◌then◌else◌, ltb, leb}
use ranyaa.Node.{NodeData, NodeError, Result, ok, failed}
use ranyaa.Node.Registry.{
  NodeRegistry, get_node, get_all_nodes, increment_missed_heartbeat, mark_node_offline,
}

-- The fields of NodeConfig that the monitor reads.
pub record HeartbeatConfig : Type 0 where
  pub heartbeat_timeout : ℕ
  pub max_missed_heartbeats : ℕ

pub data NodeEvent : Type 0 where
  heartbeat_missed : String → ℕ → NodeEvent
  node_offline : String → ℕ → NodeEvent

module _ {M : Type 0} where
  -- MarkNodeOffline and what follows it
  abbrev pub put_offline :
      String → ℕ → NodeRegistry M × Option NodeError → NodeRegistry M × List NodeEvent
  put_offline id missed (nr, some err) = (nr, heartbeat_missed id missed ∷ [])
  put_offline id missed (nr, none) = (nr, heartbeat_missed id missed ∷ node_offline id missed ∷ [])

  -- the node as it is after the increment
  abbrev pub judge :
      HeartbeatConfig
      → String
      → NodeRegistry M
      → Result (NodeData M)
      → NodeRegistry M × List NodeEvent
  judge config id nr (failed err) = (nr, [])
  judge config id nr (ok updated) =
      if leb config.max_missed_heartbeats updated.missed_heartbeats
      then put_offline id updated.missed_heartbeats (mark_node_offline id nr)
      else (nr, heartbeat_missed id updated.missed_heartbeats ∷ [])

  abbrev pub miss :
      HeartbeatConfig → String → NodeRegistry M × Option NodeError → NodeRegistry M × List NodeEvent
  miss config id (nr, some err) = (nr, [])
  miss config id (nr, none) = judge config id nr (get_node id nr)

  -- the body of the loop, for one node of the copy
  unfoldable pub check_heartbeat :
      ℕ → HeartbeatConfig → NodeData M → NodeRegistry M → NodeRegistry M × List NodeEvent
  check_heartbeat now config node nr =
      if node.online
      then (if ltb config.heartbeat_timeout (now - node.last_seen)
          then miss config node.id (increment_missed_heartbeat node.id nr)
          else (nr, []))
      else (nr, [])

  unfoldable pub check_each :
      ℕ → HeartbeatConfig → List (NodeData M) → NodeRegistry M → NodeRegistry M × List NodeEvent
  unfolding check_heartbeat
  check_each now config [] nr = (nr, [])
  check_each now config (node ∷ rest) nr =
      let (nr', events) = check_heartbeat now config node nr in
      let (last, more) = check_each now config rest nr' in (last, events ++ more)

  unfoldable pub check_heartbeats :
      ℕ → HeartbeatConfig → NodeRegistry M → NodeRegistry M × List NodeEvent
  unfolding check_each
  check_heartbeats now config nr = check_each now config (get_all_nodes nr) nr
