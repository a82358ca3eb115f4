-- ===== src/Node/Silence.antt =====
-- The heartbeat monitor against a description of one node: what a pass does to each node, and when
-- a node that is silent is marked offline.
use ranyaa.Base.{
  ℕ, suc, ◌+◌, ◌-◌, String, ◌≡◌, refl, ◌∙◌, ap, inl, inr, Bool, true, false, not, ◌&&◌, Option,
  none, some, List, [], ◌∷◌, if◌then◌else◌, arith, Map, lookup, insert, str_eq, eq_iff, IsMap,
  lookup-insert, lookup-insert_self, lookup-tail, Bool-cases, ltb, leb, length, all, str_eq_self,
  Option-cases,
}
use ranyaa.Node.{NodeData, ok}
use ranyaa.Node.Registry.{
  NodeRegistry, mark_node_offline, increment_missed_heartbeat, get_node, get_all_nodes,
  nodes_that_match, change_node, change_found,
}
use ranyaa.Node.Heartbeat.{HeartbeatConfig, check_heartbeats, check_each, check_heartbeat, judge}
use ranyaa.Node.Operations.{
  registry-put_offline, check_heartbeats-keeps, check, apply, perform, Operation,
}
use ranyaa.Node.WellFormed.{IsWellFormed, apply-IsWellFormed}

-- the node has not been heard of for longer than the timeout
abbrev pub is_silent : {M : Type 0} → ℕ → HeartbeatConfig → NodeData M → Bool
is_silent now config n = ltb config.heartbeat_timeout (now - n.last_seen)

-- what a pass does to a node
abbrev pub advance : {M : Type 0} → ℕ → HeartbeatConfig → NodeData M → NodeData M
advance now config n =
    if n.online && is_silent now config n
    then record n {
      missed_heartbeats = suc n.missed_heartbeats;
      online = not (leb config.max_missed_heartbeats (suc n.missed_heartbeats));
    }
    else n

abbrev pub map_option {ℓ} : {A : Type ℓ} → (A → A) → Option A → Option A
map_option f none = none
map_option f (some a) = some (f a)

module _ {M : Type 0} (now : ℕ) (config : HeartbeatConfig) where
  lookup-judge :
      (j : String) (n : NodeData M) (nr : NodeRegistry M)
      → lookup n.id nr.nodes ≡ some n
      → lookup j (judge config n.id nr (ok n)).0.nodes ≡ (
          if str_eq n.id j
          then (if leb config.max_missed_heartbeats n.missed_heartbeats
              then some (record n { online = false })
              else some n)
          else lookup j nr.nodes)
  unfolding mark_node_offline
  lookup-judge j n nr e = elim (Bool-cases (leb config.max_missed_heartbeats n.missed_heartbeats)) [
    | inl over ↦
        rw (over, registry-put_offline n.id n.missed_heartbeats (mark_node_offline n.id nr), e)
          (lookup-insert n.id j (record n { online = false }) nr.nodes)
    | inr under ↦ rw under (ground (arith, e, eq_iff n.id j))
  ]

  lookup-check_heartbeat :
      (j : String) (n : NodeData M) (nr : NodeRegistry M)
      → lookup n.id nr.nodes ≡ some n
      → lookup j (check_heartbeat now config n nr).0.nodes
        ≡ (if str_eq n.id j then some (advance now config n) else lookup j nr.nodes)
  unfolding check_heartbeat increment_missed_heartbeat get_node
  lookup-check_heartbeat j n nr e =
      let n' = record n { missed_heartbeats = suc n.missed_heartbeats } in
      let nr' = record nr { nodes = insert n.id n' nr.nodes } in
      elim (Bool-cases n.online) [
        | inr off ↦ rw off (ground (arith, e, off, eq_iff n.id j))
        | inl on ↦ elim (Bool-cases (is_silent now config n)) [
          | inr heard ↦ rw (on, heard) (ground (arith, e, eq_iff n.id j))
          | inl silent ↦
              rw (on, silent, e, lookup-insert_self n.id n' nr.nodes)
                (ground (
                  arith,
                  lookup-judge j n' nr' (lookup-insert_self n.id n' nr.nodes),
                  lookup-insert n.id j n' nr.nodes,
                ))
        ]
      ]

  abbrev advanced_or : Option (NodeData M) → Option (NodeData M) → Option (NodeData M)
  advanced_or none old = old
  advanced_or (some n) old = some (advance now config n)

  -- the nodes of a part of the map, which the registry holds as they are there
  lookup-check_each :
      (j : String) (m : Map (NodeData M)) (nr : NodeRegistry M)
      → IsMap m
      → ((k : String) (n : NodeData M) → lookup k m ≡ some n → n.id ≡ k)
      → ((k : String) (n : NodeData M) → lookup k m ≡ some n → lookup k nr.nodes ≡ some n)
      → lookup j (check_each now config (nodes_that_match none m) nr).0.nodes
        ≡ advanced_or (lookup j m) (lookup j nr.nodes)
  unfolding check_each
  lookup-check_each j [] nr map own held = refl
  lookup-check_each j ((k, n) ∷ m) nr map own held =
      let self : n.id ≡ k = own k n (rw (str_eq_self k) refl) in
      let here : lookup n.id nr.nodes ≡ some n =
        ap (λ i. lookup i nr.nodes) self ∙ held k n (rw (str_eq_self k) refl) in
      let nr' = (check_heartbeat now config n nr).0 in
      let rest =
        lookup-check_each j m nr' map.1 (λ i v e. own i v (lookup-tail k i n v m map.0 e).1)
          (λ i v e.
            let (other, whole) = lookup-tail k i n v m map.0 e in
            ground (arith, other, self, lookup-check_heartbeat i n nr here, held i v whole)) in
      ground (arith, rest, self, lookup-check_heartbeat j n nr here, eq_iff k j, map.0)

  change_node-default_node :
      (f : NodeData M → NodeData M) (id : String) (nr : NodeRegistry M)
      → (change_node f id nr).0.default_node ≡ nr.default_node
  unfolding change_found
  change_node-default_node f id nr = elim (Option-cases (lookup id nr.nodes)) [
    | inl missing ↦ rw missing refl
    | inr (n, found) ↦ rw found refl
  ]

  -- the default node of a registry is that of `nr`
  abbrev SameDefault : NodeRegistry M → NodeRegistry M → Type 0
  SameDefault nr after = after.default_node ≡ nr.default_node

  default_node-check_heartbeats :
      (nr : NodeRegistry M) → SameDefault nr (check_heartbeats now config nr).0
  unfolding increment_missed_heartbeat mark_node_offline
  default_node-check_heartbeats nr =
      check_heartbeats-keeps (SameDefault nr) (λ id r e. change_node-default_node _ id r ∙ e)
        (λ id r e. change_node-default_node _ id r ∙ e) now config nr refl

  -- A pass over a well-formed registry changes what is found under any id by `advance`: a node that
  -- is online and silent gets one more missed heartbeat, and goes offline if that reaches the
  -- maximum, any other node is as it was, and no node is added or removed. The default node is as
  -- it was.
  pub lookup-check_heartbeats :
      (id : String) (nr : NodeRegistry M)
      → IsWellFormed nr
      → let after = (check_heartbeats now config nr).0 in
        (lookup id after.nodes ≡ map_option (advance now config) (lookup id nr.nodes))
        × (after.default_node ≡ nr.default_node)
  unfolding check_heartbeats get_all_nodes
  lookup-check_heartbeats id nr h =
      let pass =
        lookup-check_each id nr.nodes nr h.is_map (λ k n e. (h.entries k n e).0) (λ k n e. e) in
      (ground (arith, pass), default_node-check_heartbeats nr)

module _ {M : Type 0} (config : HeartbeatConfig) where
  abbrev pub passes : List ℕ → List (Operation M)
  passes [] = []
  passes (now ∷ more) = check now config ∷ passes more

  abbrev pub all_silent : NodeData M → List ℕ → Bool
  all_silent n = all (λ now. is_silent now config n)

  -- In a well-formed registry, if a node is online just when its missed heartbeats are fewer than
  -- the maximum, and passes run at times later than its last sign of life by more than the
  -- timeout, then after them it is online just when its missed heartbeats before and the passes
  -- are fewer together than the maximum.
  pub silent_goes_offline :
      (times : List ℕ) (id : String) (n : NodeData M) (nr : NodeRegistry M)
      → IsWellFormed nr
      → lookup id nr.nodes ≡ some n
      → n.online ≡ ltb n.missed_heartbeats config.max_missed_heartbeats
      → all_silent n times ≡ true
      → (after : NodeData M) × (lookup id (perform (passes times) nr).nodes ≡ some after)
        × (after.online ≡ ltb (n.missed_heartbeats + length times) config.max_missed_heartbeats)
  unfolding perform apply
  silent_goes_offline [] id n nr h here online silent =
      (n, here, online ∙ ap (λ k. ltb k config.max_missed_heartbeats) (omega arith))
  silent_goes_offline (now ∷ more) id n nr h here online silent =
      let nr' = (check_heartbeats now config nr).0 in
      let h' : IsWellFormed nr' = apply-IsWellFormed (check now config) nr h in
      let here' : lookup id nr'.nodes ≡ some (advance now config n) =
        (lookup-check_heartbeats now config id nr h).0
        ∙ ap (map_option (advance now config)) here in
      elim (Bool-cases n.online) [
        | inr off ↦
            let same : advance now config n ≡ n = rw off refl in
            let (after, found, state) =
              silent_goes_offline more id n nr' h' (here' ∙ ap some same) online
                (ground (arith, silent)) in
            (after, found, state ∙ ground (arith, online, off))
        | inl on ↦
            let missed = suc n.missed_heartbeats in
            let n' = record n {
              missed_heartbeats = missed;
              online = not (leb config.max_missed_heartbeats missed);
            } in
            let next : advance now config n ≡ n' = ground (arith, on, silent) in
            let (after, found, state) =
              silent_goes_offline more id n' nr' h' (here' ∙ ap some next) (ground arith)
                (ground (arith, silent)) in
            (after, found, state ∙ ap (λ k. ltb k config.max_missed_heartbeats) (omega arith))
      ]
