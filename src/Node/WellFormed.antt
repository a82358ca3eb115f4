-- ===== src/Node/WellFormed.antt =====
-- What every registry of pkg/node satisfies, whatever operations have perform.
use ranyaa.Base.{
  ℕ, String, ◌≡◌, refl, sym, ◌∙◌, ap, inl, inr, Bool, true, false, ◌||◌, Option, none, some, List,
  [], ◌∷◌, if◌then◌else◌, arith, Map, lookup, insert, delete, str_eq, eq_iff, IsMap, insert-IsMap,
  delete-IsMap, lookup-insert, lookup-insert_same, lookup-insert_ne, lookup-delete, Bool-cases,
  Option-cases,
}
use ranyaa.Node.{NodeData, NodeError, validate_capabilities, Result, ok, failed}
use ranyaa.Node.Registry.{
  NodeRegistry, register_node, register_valid, registered, unregister_node, unregister_found,
  handle_heartbeat, mark_node_offline, increment_missed_heartbeat, increment_timeout_count,
  reset_timeout_count, set_default_node, default_found, load_nodes, load_valid, change_node,
  change_found, get_node, new_registry,
}
use ranyaa.Node.Permission.{grant_permission, revoke_permission, write_known, with_permission}
use ranyaa.Node.Operations.{
  Operation, register, unregister, heartbeat, offline, missed, timeout, reset, set_default, load,
  grant, revoke, check, apply, perform, check_heartbeats-keeps,
}

abbrev has_key {ℓ} : {V : Type ℓ} → Option V → Bool
has_key none = false
has_key (some _) = true

module _ {M : Type 0} where
  -- Each node is stored under its own id and has capabilities that the validator accepts, and the
  -- default node is a registered one or none.
  pub record IsWellFormed (nr : NodeRegistry M) : Type 0 where
    pub is_map : IsMap nr.nodes
    pub entries :
        (k : String) (n : NodeData M)
        → lookup k nr.nodes ≡ some n
        → (n.id ≡ k) × (validate_capabilities n.capabilities ≡ none)
    pub default_known :
        (str_eq nr.default_node "" || has_key (lookup nr.default_node nr.nodes)) ≡ true

  default_known_after :
      (id d : String) (m : Map (NodeData M))
      → (str_eq d "" || has_key (lookup d m)) ≡ true
      → let d' = if str_eq d id then "" else d in
        (str_eq d' "" || has_key (lookup d' (delete id m))) ≡ true
  default_known_after id d m h = elim (Bool-cases (str_eq d id)) [
    | inl e ↦ rw e refl
    | inr e ↦ rw e (ground (arith, lookup-delete id d m, eq_iff d id, eq_iff id d))
  ]

  module _ (nr : NodeRegistry M) (h : IsWellFormed nr) where
    insert-IsWellFormed :
        (k : String) (n : NodeData M)
        → n.id ≡ k
        → validate_capabilities n.capabilities ≡ none
        → IsWellFormed (record nr { nodes = insert k n nr.nodes })
    insert-IsWellFormed k n own valid = record {
      is_map = insert-IsMap k n nr.nodes h.is_map;
      entries = λ j m e. elim (Bool-cases (str_eq k j)) [
        | inl same ↦
            let it : n ≡ m = lookup-insert_same k j n m nr.nodes same e in
            rw (← it) (own ∙ (eq_iff k j).0 same, valid)
        | inr other ↦ h.entries j m (sym (lookup-insert_ne k j n nr.nodes other) ∙ e)
      ];
      default_known = ground (arith, h.default_known, lookup-insert k nr.default_node n nr.nodes);
    }

    change_found-IsWellFormed :
        (change : NodeData M → NodeData M) (id : String) (o : Option (NodeData M))
        → lookup id nr.nodes ≡ o
        → ((n : NodeData M) → (change n).id ≡ n.id)
        → ((n : NodeData M) → (change n).capabilities ≡ n.capabilities)
        → IsWellFormed (change_found change id nr o).0
    change_found-IsWellFormed change id none e same_id same_caps = h
    change_found-IsWellFormed change id (some n) e same_id same_caps =
        let (own, valid) = h.entries id n e in
        insert-IsWellFormed id (change n) (same_id n ∙ own)
          (ap validate_capabilities (same_caps n) ∙ valid)

    change_node-IsWellFormed :
        (change : NodeData M → NodeData M) (id : String)
        → ((n : NodeData M) → (change n).id ≡ n.id)
        → ((n : NodeData M) → (change n).capabilities ≡ n.capabilities)
        → IsWellFormed (change_node change id nr).0
    change_node-IsWellFormed change id =
        change_found-IsWellFormed change id (lookup id nr.nodes) refl

    unregister_found-IsWellFormed :
        (id : String) (o : Option (NodeData M)) → IsWellFormed (unregister_found id nr o).0
    unregister_found-IsWellFormed id none = h
    unregister_found-IsWellFormed id (some _) = record {
      is_map = delete-IsMap id nr.nodes h.is_map;
      entries = λ j m e. h.entries j m (ground (arith, e, lookup-delete id j nr.nodes));
      default_known = default_known_after id nr.default_node nr.nodes h.default_known;
    }

    default_found-IsWellFormed :
        (id : String) (o : Option (NodeData M))
        → lookup id nr.nodes ≡ o
        → IsWellFormed (default_found id nr o).0
    default_found-IsWellFormed id none e = h
    default_found-IsWellFormed id (some n) e = record {
      is_map = h.is_map;
      entries = h.entries;
      default_known = ground (arith, e);
    }

    register_valid-IsWellFormed :
        (node : NodeData M) (now : ℕ) (o : Option NodeError)
        → validate_capabilities node.capabilities ≡ o
        → IsWellFormed (register_valid node now nr o).0
    register_valid-IsWellFormed node now (some err) e = h
    register_valid-IsWellFormed node now none e = elim (Option-cases (lookup node.id nr.nodes)) [
      | inl new ↦ rw new (insert-IsWellFormed node.id (registered node now none) refl e)
      | inr (n, old) ↦ rw old (
          insert-IsWellFormed node.id (registered node now (some n)) ((h.entries node.id n old).0)
            e)
    ]

    mark_node_offline-IsWellFormed : (id : String) → IsWellFormed (mark_node_offline id nr).0
    unfolding mark_node_offline
    mark_node_offline-IsWellFormed id = change_node-IsWellFormed _ id (λ n. refl) (λ n. refl)

  increment_missed_heartbeat-IsWellFormed :
      (id : String) (nr : NodeRegistry M)
      → IsWellFormed nr
      → IsWellFormed (increment_missed_heartbeat id nr).0
  unfolding increment_missed_heartbeat
  increment_missed_heartbeat-IsWellFormed id nr h =
      change_node-IsWellFormed nr h _ id (λ n. refl) (λ n. refl)

  load_valid-IsWellFormed :
      (n : NodeData M) (nr : NodeRegistry M) (o : Option NodeError)
      → validate_capabilities n.capabilities ≡ o
      → IsWellFormed nr
      → IsWellFormed (record nr { nodes = load_valid n nr.nodes o })
  load_valid-IsWellFormed n nr none e h = insert-IsWellFormed nr h n.id n refl e
  load_valid-IsWellFormed n nr (some err) e h = h

  load_nodes-IsWellFormed :
      (list : List (NodeData M)) (nr : NodeRegistry M)
      → IsWellFormed nr
      → IsWellFormed (load_nodes list nr)
  unfolding load_nodes
  load_nodes-IsWellFormed [] nr h = h
  load_nodes-IsWellFormed (n ∷ rest) nr h =
      load_nodes-IsWellFormed rest _
        (load_valid-IsWellFormed n nr (validate_capabilities n.capabilities) refl h)

  register_node-IsWellFormed :
      (n : NodeData M) (now : ℕ) (nr : NodeRegistry M)
      → IsWellFormed nr
      → IsWellFormed (register_node n now nr).0
  unfolding register_node
  register_node-IsWellFormed n now nr h = elim (Bool-cases (str_eq n.id "")) [
    | inl e ↦ rw e h
    | inr e ↦ elim (Bool-cases (str_eq n.name "")) [
      | inl f ↦ rw (e, f) h
      | inr f ↦ elim (Bool-cases (str_eq n.platform "")) [
        | inl g ↦ rw (e, f, g) h
        | inr g ↦
            rw (e, f, g)
              (register_valid-IsWellFormed nr h n now (validate_capabilities n.capabilities) refl)
      ]
    ]
  ]

  write_known-IsWellFormed :
      (id permission : String) (value : Bool) (nr : NodeRegistry M) (o : Result (NodeData M))
      → IsWellFormed nr
      → IsWellFormed (write_known id permission value nr o).0
  write_known-IsWellFormed id permission value nr (failed err) h = h
  write_known-IsWellFormed id permission value nr (ok n) h =
      elim (Option-cases (lookup id nr.nodes)) [
        | inl e ↦ rw e h
        | inr (m, e) ↦ rw e (
            insert-IsWellFormed nr h id (with_permission permission value m) (h.entries id m e).0
              (h.entries id m e).1)
      ]

  set_default_node-IsWellFormed :
      (id : String) (nr : NodeRegistry M)
      → IsWellFormed nr
      → IsWellFormed (set_default_node id nr).0
  unfolding set_default_node
  set_default_node-IsWellFormed id nr h = elim (Bool-cases (str_eq id "")) [
    | inr e ↦ rw e (default_found-IsWellFormed nr h id (lookup id nr.nodes) refl)
    | inl e ↦ rw e (record { is_map = h.is_map; entries = h.entries; default_known = rw e refl })
  ]

  pub apply-IsWellFormed :
      (op : Operation M) (nr : NodeRegistry M) → IsWellFormed nr → IsWellFormed (apply op nr)
  unfolding apply unregister_node handle_heartbeat increment_timeout_count reset_timeout_count
      grant_permission revoke_permission
  apply-IsWellFormed (register n now) nr h = register_node-IsWellFormed n now nr h
  apply-IsWellFormed (unregister id) nr h = unregister_found-IsWellFormed nr h id _
  apply-IsWellFormed (heartbeat id now) nr h =
      change_node-IsWellFormed nr h _ id (λ n. refl) (λ n. refl)
  apply-IsWellFormed (offline id) nr h = mark_node_offline-IsWellFormed nr h id
  apply-IsWellFormed (missed id) nr h = increment_missed_heartbeat-IsWellFormed id nr h
  apply-IsWellFormed (timeout id threshold) nr h =
      change_node-IsWellFormed nr h _ id (λ n. refl) (λ n. refl)
  apply-IsWellFormed (reset id) nr h = change_node-IsWellFormed nr h _ id (λ n. refl) (λ n. refl)
  apply-IsWellFormed (set_default id) nr h = set_default_node-IsWellFormed id nr h
  apply-IsWellFormed (load list) nr h = load_nodes-IsWellFormed list nr h
  apply-IsWellFormed (grant id permission) nr h =
      write_known-IsWellFormed id permission true nr (get_node id nr) h
  apply-IsWellFormed (revoke id permission) nr h =
      write_known-IsWellFormed id permission false nr (get_node id nr) h
  apply-IsWellFormed (check now config) nr h =
      check_heartbeats-keeps IsWellFormed increment_missed_heartbeat-IsWellFormed
        (λ id nr h. mark_node_offline-IsWellFormed nr h id) now config nr h

  -- If a registry keeps each node under its own id with capabilities that the validator accepts,
  -- no id twice, and its default node is a registered one or none, then this holds after any
  -- sequence of operations too, refused ones included.
  pub perform-IsWellFormed :
      (ops : List (Operation M)) (nr : NodeRegistry M)
      → IsWellFormed nr
      → IsWellFormed (perform ops nr)
  unfolding perform
  perform-IsWellFormed [] nr h = h
  perform-IsWellFormed (op ∷ more) nr h =
      perform-IsWellFormed more (apply op nr) (apply-IsWellFormed op nr h)

  pub new_registry-IsWellFormed : IsWellFormed new_registry
  unfolding new_registry
  new_registry-IsWellFormed = record {
    is_map = tt;
    entries = λ k n e. absurd (ground (arith, e));
    default_known = refl;
  }
