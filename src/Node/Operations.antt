-- ===== src/Node/Operations.antt =====
-- The operations of pkg/node on the registry, in any order, and the rule by which an invariant of
-- the registry is proved for a pass of the heartbeat monitor.
use ranyaa.Base.{
  ℕ, ◌-◌, ltb, leb, String, ◌≡◌, refl, inl, inr, Option, none, some, List, [], ◌∷◌, Bool-cases,
}
use ranyaa.Node.{NodeData, NodeError, Result, ok, failed}
use ranyaa.Node.Registry.{
  NodeRegistry, register_node, unregister_node, handle_heartbeat, mark_node_offline,
  increment_missed_heartbeat, increment_timeout_count, reset_timeout_count, set_default_node,
  load_nodes, get_all_nodes, get_all_nodes, get_node,
}
use ranyaa.Node.Permission.{grant_permission, revoke_permission}
use ranyaa.Node.Heartbeat.{
  HeartbeatConfig, check_heartbeats, check_each, check_heartbeat, miss, judge, put_offline,
}

pub data Operation (M : Type 0) : Type 0 where
  register : NodeData M → ℕ → Operation M
  unregister : String → Operation M
  heartbeat : String → ℕ → Operation M
  offline : String → Operation M
  missed : String → Operation M
  timeout : String → ℕ → Operation M
  reset : String → Operation M
  set_default : String → Operation M
  load : List (NodeData M) → Operation M
  grant : String → String → Operation M
  revoke : String → String → Operation M
  check : ℕ → HeartbeatConfig → Operation M

module _ {M : Type 0} where
  unfoldable pub apply : Operation M → NodeRegistry M → NodeRegistry M
  apply (register node now) nr = (register_node node now nr).0
  apply (unregister id) nr = (unregister_node id nr).0
  apply (heartbeat id now) nr = (handle_heartbeat id now nr).0
  apply (offline id) nr = (mark_node_offline id nr).0
  apply (missed id) nr = (increment_missed_heartbeat id nr).0
  apply (timeout id threshold) nr = (increment_timeout_count id threshold nr).0
  apply (reset id) nr = (reset_timeout_count id nr).0
  apply (set_default id) nr = (set_default_node id nr).0
  apply (load list) nr = load_nodes list nr
  apply (grant id permission) nr = (grant_permission id permission nr).0
  apply (revoke id permission) nr = (revoke_permission id permission nr).0
  apply (check now config) nr = (check_heartbeats now config nr).0

  unfoldable pub perform : List (Operation M) → NodeRegistry M → NodeRegistry M
  unfolding apply
  perform [] nr = nr
  perform (op ∷ more) nr = perform more (apply op nr)

  pub registry-put_offline :
      (id : String) (count : ℕ) (p : NodeRegistry M × Option NodeError)
      → (put_offline id count p).0 ≡ p.0
  registry-put_offline id count (nr, some err) = refl
  registry-put_offline id count (nr, none) = refl

  -- What the two registry calls of the monitor keep, a pass keeps.
  module _ (P : NodeRegistry M → Type 0)
      (increment : (id : String) (nr : NodeRegistry M)
        → P nr
        → P (increment_missed_heartbeat id nr).0)
      (mark : (id : String) (nr : NodeRegistry M) → P nr → P (mark_node_offline id nr).0) where
    judge-keeps :
        (config : HeartbeatConfig) (id : String) (nr : NodeRegistry M) (o : Result (NodeData M))
        → P nr
        → P (judge config id nr o).0
    judge-keeps config id nr (failed err) h = h
    judge-keeps config id nr (ok n) h =
        elim (Bool-cases (leb config.max_missed_heartbeats n.missed_heartbeats)) [
          | inl e ↦
              rw (e, registry-put_offline id n.missed_heartbeats (mark_node_offline id nr))
                (mark id nr h)
          | inr e ↦ rw e h
        ]

    miss-keeps :
        (config : HeartbeatConfig) (id : String) (p : NodeRegistry M × Option NodeError)
        → P p.0
        → P (miss config id p).0
    miss-keeps config id (nr, some err) h = h
    miss-keeps config id (nr, none) h = judge-keeps config id nr (get_node id nr) h

    check_heartbeat-keeps :
        (now : ℕ) (config : HeartbeatConfig) (n : NodeData M) (nr : NodeRegistry M)
        → P nr
        → P (check_heartbeat now config n nr).0
    unfolding check_heartbeat
    check_heartbeat-keeps now config n nr h = elim (Bool-cases n.online) [
      | inr e ↦ rw e h
      | inl e ↦ elim (Bool-cases (ltb config.heartbeat_timeout (now - n.last_seen))) [
        | inr recent ↦ rw (e, recent) h
        | inl late ↦ rw (e, late) (miss-keeps config n.id _ (increment n.id nr h))
      ]
    ]

    check_each-keeps :
        (now : ℕ) (config : HeartbeatConfig) (list : List (NodeData M)) (nr : NodeRegistry M)
        → P nr
        → P (check_each now config list nr).0
    unfolding check_each
    check_each-keeps now config [] nr h = h
    check_each-keeps now config (n ∷ rest) nr h =
        check_each-keeps now config rest _ (check_heartbeat-keeps now config n nr h)

    pub check_heartbeats-keeps :
        (now : ℕ) (config : HeartbeatConfig) (nr : NodeRegistry M)
        → P nr
        → P (check_heartbeats now config nr).0
    unfolding check_heartbeats
    check_heartbeats-keeps now config nr h = check_each-keeps now config (get_all_nodes nr) nr h
