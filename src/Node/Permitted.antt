-- ===== src/Node/Permitted.antt =====
-- What the permission manager's calls amount to: for one node and one permission, the registry is
-- the value that an abstract machine of three states computes, not registered, refused or granted.
use ranyaa.Base.{
  ℕ, String, ◌≡◌, refl, ◌∙◌, ap, inl, inr, Bool, true, false, ◌&&◌, ◌||◌, Option, none, some, List,
  [], ◌∷◌, if◌then◌else◌, arith, lookup, insert, str_eq, eq_iff, lookup-insert, lookup-delete,
  Bool-cases, Option-cases,
}
use ranyaa.Node.{NodeData, NodeError, node_not_found, validate_capabilities, Result, ok, failed}
use ranyaa.Node.Registry.{
  NodeRegistry, register_node, register_valid, registered, unregister_node, unregister_found,
  handle_heartbeat, mark_node_offline, increment_missed_heartbeat, increment_timeout_count,
  reset_timeout_count, set_default_node, load_nodes, load_valid, change_node, change_found,
  get_node, new_registry, permissions_or_default,
}
use ranyaa.Node.Permission.{
  grant_permission, revoke_permission, write_known, write_found, with_permission, permission_map,
  granted, has_permission,
}
use ranyaa.Node.Operations.{
  Operation, register, unregister, heartbeat, offline, missed, timeout, reset, set_default, load,
  grant, revoke, check, apply, perform, check_heartbeats-keeps,
}

abbrev set_to : Bool → Option Bool → Option Bool
set_to b none = none
set_to b (some _) = some b

abbrev or_else : Bool → Option Bool → Option Bool
or_else b none = some b
or_else b (some old) = some old

abbrev if_valid : Option NodeError → Option Bool → Option Bool → Option Bool
if_valid none new old = new
if_valid (some err) new old = old

abbrev pub answer_of : String → Option Bool → Result Bool
answer_of id none = failed (node_not_found id)
answer_of id (some b) = ok b

module _ {M : Type 0} (id permission : String) where
  abbrev value_of : NodeData M → Bool
  value_of n = granted (lookup permission (permission_map n.permissions))

  abbrev view_of : Option (NodeData M) → Option Bool
  view_of none = none
  view_of (some n) = some (value_of n)

  -- none: not registered
  abbrev pub view : NodeRegistry M → Option Bool
  view nr = view_of (lookup id nr.nodes)

  abbrev load_view : List (NodeData M) → Option Bool → Option Bool
  load_view [] v = v
  load_view (n ∷ rest) v = load_view rest (
      if_valid (validate_capabilities n.capabilities)
        (if str_eq n.id id then some (value_of n) else v) v)

  abbrev register_view : NodeData M → Option Bool → Option Bool
  register_view n v =
      if str_eq n.id "" || str_eq n.name "" || str_eq n.platform ""
      then v
      else if_valid (validate_capabilities n.capabilities)
          (if str_eq n.id id
            then or_else (granted (lookup permission (permissions_or_default n.permissions))) v
            else v)
          v

  -- what an operation does to the abstract value
  abbrev pub view_step : Operation M → Option Bool → Option Bool
  view_step (register n now) v = register_view n v
  view_step (unregister j) v = if str_eq j id then none else v
  view_step (load list) v = load_view list v
  view_step (grant j q) v = if str_eq j id && str_eq q permission then set_to true v else v
  view_step (revoke j q) v = if str_eq j id && str_eq q permission then set_to false v else v
  view_step (heartbeat j now) v = v
  view_step (offline j) v = v
  view_step (missed j) v = v
  view_step (timeout j threshold) v = v
  view_step (reset j) v = v
  view_step (set_default j) v = v
  view_step (check now config) v = v

  abbrev pub view_perform : List (Operation M) → Option Bool → Option Bool
  view_perform [] v = v
  view_perform (op ∷ more) v = view_perform more (view_step op v)

  view-insert :
      (k : String) (n : NodeData M) (nr : NodeRegistry M)
      → view (record nr { nodes = insert k n nr.nodes })
        ≡ (if str_eq k id then some (value_of n) else view nr)
  view-insert k n nr = ground (arith, lookup-insert k id n nr.nodes)

  view-change_found :
      (change : NodeData M → NodeData M) (k : String) (nr : NodeRegistry M)
      (o : Option (NodeData M))
      → lookup k nr.nodes ≡ o
      → ((n : NodeData M) → (change n).permissions ≡ n.permissions)
      → view (change_found change k nr o).0 ≡ view nr
  view-change_found change k nr none e same = refl
  view-change_found change k nr (some n) e same =
      ground (arith, view-insert k (change n) nr, same n, e, eq_iff k id)

  view-change_node :
      (change : NodeData M → NodeData M) (k : String) (nr : NodeRegistry M)
      → ((n : NodeData M) → (change n).permissions ≡ n.permissions)
      → view (change_node change k nr).0 ≡ view nr
  view-change_node change k nr = view-change_found change k nr (lookup k nr.nodes) refl

  view-increment_missed_heartbeat :
      (k : String) (nr : NodeRegistry M) → view (increment_missed_heartbeat k nr).0 ≡ view nr
  unfolding increment_missed_heartbeat
  view-increment_missed_heartbeat k nr = view-change_node _ k nr (λ n. refl)

  view-mark_node_offline :
      (k : String) (nr : NodeRegistry M) → view (mark_node_offline k nr).0 ≡ view nr
  unfolding mark_node_offline
  view-mark_node_offline k nr = view-change_node _ k nr (λ n. refl)

  view-unregister_found :
      (k : String) (nr : NodeRegistry M) (o : Option (NodeData M))
      → lookup k nr.nodes ≡ o
      → view (unregister_found k nr o).0 ≡ (if str_eq k id then none else view nr)
  view-unregister_found k nr none e = ground (arith, e, eq_iff k id)
  view-unregister_found k nr (some n) e = ground (arith, lookup-delete k id nr.nodes)

  view-write_found :
      (k q : String) (value : Bool) (nr : NodeRegistry M) (o : Option (NodeData M))
      → lookup k nr.nodes ≡ o
      → view (write_found k q value nr o).0
        ≡ (if str_eq k id && str_eq q permission then set_to value (view nr) else view nr)
  view-write_found k q value nr none e = ground (arith, e, eq_iff k id)
  view-write_found k q value nr (some n) e = ground (
    arith,
    e,
    eq_iff k id,
    view-insert k (with_permission q value n) nr,
    lookup-insert q permission value (permission_map n.permissions),
  )

  view-register_valid :
      (n : NodeData M) (now : ℕ) (nr : NodeRegistry M) (o : Option NodeError)
      → view (register_valid n now nr o).0
        ≡ if_valid o
            (if str_eq n.id id
              then or_else
                  (granted (lookup permission (permissions_or_default n.permissions)))
                  (view nr)
              else view nr)
            (view nr)
  view-register_valid n now nr (some err) = refl
  view-register_valid n now nr none = elim (Option-cases (lookup n.id nr.nodes)) [
    | inl new ↦
        rw new (ground (arith, new, eq_iff n.id id, view-insert n.id (registered n now none) nr))
    | inr (old, e) ↦
        rw e (ground (arith, e, eq_iff n.id id, view-insert n.id (registered n now (some old)) nr))
  ]

  view-load_valid :
      (n : NodeData M) (nr : NodeRegistry M) (o : Option NodeError)
      → view (record nr { nodes = load_valid n nr.nodes o })
        ≡ if_valid o (if str_eq n.id id then some (value_of n) else view nr) (view nr)
  view-load_valid n nr none = view-insert n.id n nr
  view-load_valid n nr (some err) = refl

  view-load_nodes :
      (list : List (NodeData M)) (nr : NodeRegistry M)
      → view (load_nodes list nr) ≡ load_view list (view nr)
  unfolding load_nodes
  view-load_nodes [] nr = refl
  view-load_nodes (n ∷ rest) nr =
      view-load_nodes rest
        (record nr { nodes = load_valid n nr.nodes (validate_capabilities n.capabilities) })
      ∙ ap (load_view rest) (view-load_valid n nr (validate_capabilities n.capabilities))

  view-register_node :
      (n : NodeData M) (now : ℕ) (nr : NodeRegistry M)
      → view (register_node n now nr).0 ≡ register_view n (view nr)
  unfolding register_node
  view-register_node n now nr = elim (Bool-cases (str_eq n.id "")) [
    | inl e ↦ rw e refl
    | inr e ↦ elim (Bool-cases (str_eq n.name "")) [
      | inl f ↦ rw (e, f) refl
      | inr f ↦ elim (Bool-cases (str_eq n.platform "")) [
        | inl g ↦ rw (e, f, g) refl
        | inr g ↦ rw (e, f, g) (view-register_valid n now nr (validate_capabilities n.capabilities))
      ]
    ]
  ]

  view-write :
      (k q : String) (value : Bool) (nr : NodeRegistry M)
      → view (write_known k q value nr (get_node k nr)).0
        ≡ (if str_eq k id && str_eq q permission then set_to value (view nr) else view nr)
  unfolding get_node
  view-write k q value nr = elim (Option-cases (lookup k nr.nodes)) [
    | inl e ↦ rw e (view-write_found k q value nr none e)
    | inr (n, e) ↦ rw e (view-write_found k q value nr (lookup k nr.nodes) refl)
  ]

  view-set_default_node :
      (k : String) (nr : NodeRegistry M) → view (set_default_node k nr).0 ≡ view nr
  unfolding set_default_node
  view-set_default_node k nr = elim (Bool-cases (str_eq k "")) [
    | inl e ↦ rw e refl
    | inr e ↦ elim (Option-cases (lookup k nr.nodes)) [
      | inl f ↦ rw (e, f) refl
      | inr (n, f) ↦ rw (e, f) refl
    ]
  ]

  view-apply :
      (op : Operation M) (nr : NodeRegistry M) → view (apply op nr) ≡ view_step op (view nr)
  unfolding apply unregister_node handle_heartbeat increment_timeout_count reset_timeout_count
      grant_permission revoke_permission
  view-apply (register n now) nr = view-register_node n now nr
  view-apply (unregister k) nr = view-unregister_found k nr (lookup k nr.nodes) refl
  view-apply (heartbeat k now) nr = view-change_node _ k nr (λ n. refl)
  view-apply (offline k) nr = view-mark_node_offline k nr
  view-apply (missed k) nr = view-increment_missed_heartbeat k nr
  view-apply (timeout k threshold) nr = view-change_node _ k nr (λ n. refl)
  view-apply (reset k) nr = view-change_node _ k nr (λ n. refl)
  view-apply (set_default k) nr = view-set_default_node k nr
  view-apply (load list) nr = view-load_nodes list nr
  view-apply (grant k q) nr = view-write k q true nr
  view-apply (revoke k q) nr = view-write k q false nr
  view-apply (check now config) nr =
      check_heartbeats-keeps (λ after. view after ≡ view nr)
        (λ k after h. view-increment_missed_heartbeat k after ∙ h)
        (λ k after h. view-mark_node_offline k after ∙ h) now config nr refl

  view-perform :
      (ops : List (Operation M)) (nr : NodeRegistry M)
      → view (perform ops nr) ≡ view_perform ops (view nr)
  unfolding perform
  view-perform [] nr = refl
  view-perform (op ∷ more) nr =
      view-perform more (apply op nr) ∙ ap (view_perform more) (view-apply op nr)

  has_permission-view :
      (nr : NodeRegistry M) → has_permission id permission nr ≡ answer_of id (view nr)
  unfolding has_permission get_node
  has_permission-view nr = elim (Option-cases (lookup id nr.nodes)) [
    | inl e ↦ rw e refl
    | inr (n, e) ↦ rw e refl
  ]

  -- After any operations on a new registry, `HasPermission` answers what the abstract machine has
  -- computed from those operations: registering a new node sets the permission as given, or to
  -- false; loading a valid node overwrites it; granting and revoking set it if the node is there;
  -- unregistering forgets it; no other operation changes it.
  pub has_permission-perform :
      (ops : List (Operation M))
      → has_permission id permission (perform ops new_registry)
        ≡ answer_of id (view_perform ops none)
  unfolding new_registry
  has_permission-perform ops =
      has_permission-view (perform ops new_registry)
      ∙ ap (answer_of id) (view-perform ops new_registry)
