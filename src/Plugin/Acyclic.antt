-- ===== src/Plugin/Acyclic.antt =====
-- On a graph without cycles, which a rank shows, `TopologicalSort` finds an order with the fuel that
-- `enough` gives.
use ranyaa.Base.{
  ℕ, zero, suc, ◌≤◌, ◌<◌, String, ◌≡◌, refl, sym, ◌∙◌, ap, inl, inr, true, false, not, some, List,
  [], ◌∷◌, arith, Map, lookup, has, str_eq, str_eq_self, eq_iff, Bool-cases, tally, tally-le,
  tally-lt, tally-le-length,
}
use ranyaa.Plugin.{DependencyGraph, targets, ids_of, enough, names, or_nil, all_targets}
use ranyaa.Plugin.Cycles.{
  CycleSearch, answer, enter, leave, left, search_targets, dfs, search_roots, no_search,
  detect_cycles,
}
use ranyaa.Plugin.Sort.{
  Visiting, done, visit_each, finished, and_then, visit, visit_nodes, nothing_visited,
  topological_sort,
}
use ranyaa.Plugin.Order.{IsSound, visit-Visits, has-append, has-drop_id}

has-all_targets :
    (id dep : String) (m : Map (List String))
    → has dep (or_nil (lookup id m)) ≡ true
    → has dep (all_targets m) ≡ true
has-all_targets id dep [] h = h
has-all_targets id dep ((j, ids) ∷ m) h =
    ground (arith, h, has-append dep ids (all_targets m), has-all_targets id dep m)

pub target_named :
    (g : DependencyGraph) (id dep : String)
    → has dep (targets g id) ≡ true
    → has dep (names g) ≡ true
target_named g id dep h =
    ground (
      arith,
      has-append dep (ids_of g.nodes) (all_targets g.edges),
      has-all_targets id dep g.edges h,
    )

-- how many names are not in the set
abbrev pub missing : DependencyGraph → List String → ℕ
missing g set = tally (λ u. not (has u set)) (names g)

missing-lt :
    (g : DependencyGraph) (id : String) (set bigger : List String)
    → has id (names g) ≡ true
    → has id set ≡ false
    → ((x : String) → has x set ≡ true → has x bigger ≡ true)
    → has id bigger ≡ true
    → missing g bigger < missing g set
missing-lt g id set bigger named new grows own =
    tally-lt (λ u. not (has u bigger)) (λ u. not (has u set)) id (names g)
      (λ x h. ground (arith, grows x, h)) named (ground (arith, own)) (ground (arith, new))

missing-le :
    (g : DependencyGraph) (set bigger : List String)
    → ((x : String) → has x set ≡ true → has x bigger ≡ true)
    → missing g bigger ≤ missing g set
missing-le g set bigger grows =
    tally-le (λ u. not (has u bigger)) (λ u. not (has u set)) (names g)
      (λ x h. ground (arith, grows x, h))

module _ (g : DependencyGraph) (rank : String → ℕ)
    (falls : (id dep : String) → has dep (targets g id) ≡ true → rank dep < rank id) where
  abbrev Below : String → List String → Type 0
  Below id set = (x : String) → has x set ≡ true → rank id < rank x

  -- the dependencies of an id lie below it and all that it lies below
  target-Below :
      (id dep : String) (set : List String)
      → has dep (targets g id) ≡ true
      → Below id set
      → Below dep (id ∷ set)
  target-Below id dep set edge below x h = elim (Bool-cases (str_eq id x)) [
    | inl e ↦ rw (← (eq_iff id x).0 e) (falls id dep edge)
    | inr e ↦ omega (arith, falls id dep edge, below x (ground (arith, h, e)))
  ]

  -- What a search without cycles leaves as it was.
  record Clean (s t : CycleSearch) : Type 0 where
    same_cycles : t.cycles ≡ s.cycles
    same_stack : (x : String) → has x t.rec_stack ≡ has x s.rec_stack
    grows : (x : String) → has x s.visited ≡ true → has x t.visited ≡ true

  Clean-refl : (s : CycleSearch) → Clean s s
  Clean-refl s = record { same_cycles = refl; same_stack = λ x. refl; grows = λ x h. h }

  Clean-trans : (s t u : CycleSearch) → Clean s t → Clean t u → Clean s u
  Clean-trans s t u p q = record {
    same_cycles = q.same_cycles ∙ p.same_cycles;
    same_stack = λ x. q.same_stack x ∙ p.same_stack x;
    grows = λ x h. q.grows x (p.grows x h);
  }

  abbrev Searches : ℕ → Type 0
  Searches fuel =
      (id : String) (s : CycleSearch)
      → has id (names g) ≡ true
      → has id s.visited ≡ false
      → Below id s.rec_stack
      → missing g s.visited < fuel
      → (t : CycleSearch) × (dfs fuel g id s ≡ answer false t) × Clean s t

  search_targets-Clean :
      (fuel : ℕ)
      → Searches fuel
      → (ids : List String) (s : CycleSearch)
      → ((dep : String) → has dep ids ≡ true → (has dep (names g) ≡ true) × Below dep s.rec_stack)
      → missing g s.visited < fuel
      → (t : CycleSearch) × (search_targets (dfs fuel g) ids s ≡ answer false t) × Clean s t
  unfolding search_targets
  search_targets-Clean fuel rule [] s deps fits = (s, refl, Clean-refl s)
  search_targets-Clean fuel rule (dep ∷ ids) s deps fits =
      let (named, below) = deps dep (rw (str_eq_self dep) refl) in
      elim (Bool-cases (has dep s.visited)) [
        | inl old ↦ elim (Bool-cases (has dep s.rec_stack)) [
          | inl loop ↦ absurd (omega (arith, below dep loop))
          | inr free ↦
              let (t, e, clean) =
                search_targets-Clean fuel rule ids s (λ d h. deps d (ground (arith, h))) fits in
              (t, rw (old, free) e, clean)
        ]
        | inr new ↦
            let (s', e, first) = rule dep s named new below fits in
            let (t, e', rest) =
              search_targets-Clean fuel rule ids s'
                (λ d h.
                  let (n, b) = deps d (ground (arith, h)) in
                  (n, λ x m. b x (sym (first.same_stack x) ∙ m)))
                (omega (arith, fits, missing-le g s.visited s'.visited first.grows)) in
            (t, rw (new, e) e', Clean-trans s s' t first rest)
      ]

  dfs-Searches : (fuel : ℕ) → Searches fuel
  unfolding dfs
  dfs-Searches zero id s named new below fits = absurd (omega arith)
  dfs-Searches (suc fuel) id s named new below fits =
      let idle : has id s.rec_stack ≡ false = elim (Bool-cases (has id s.rec_stack)) [
        | inl m ↦ absurd (omega (arith, below id m))
        | inr e ↦ e
      ] in
      let (t, e, clean) =
        search_targets-Clean fuel (dfs-Searches fuel) (targets g id) (enter id s)
          (λ dep h. (target_named g id dep h, target-Below id dep s.rec_stack h below))
          (omega (
            arith,
            fits,
            missing-lt g id s.visited (id ∷ s.visited) named new (λ x h. ground (arith, h))
                (rw (str_eq_self id) refl),
          )) in
      (
        leave id t,
        ap (left id) e,
        record {
          same_cycles = clean.same_cycles;
          same_stack = λ x.
              ground (arith, has-drop_id x id t.rec_stack, clean.same_stack x, eq_iff id x, idle);
          grows = λ x h. clean.grows x (ground (arith, h));
        },
      )

  search_roots-Clean :
      (fuel : ℕ) (ids : List String) (s : CycleSearch)
      → ((id : String) → has id ids ≡ true → has id (names g) ≡ true)
      → ((x : String) → has x s.rec_stack ≡ false)
      → missing g s.visited < fuel
      → (t : CycleSearch) × (search_roots fuel g ids s ≡ some t) × (t.cycles ≡ s.cycles)
  unfolding search_roots
  search_roots-Clean fuel [] s named empty fits = (s, refl, refl)
  search_roots-Clean fuel (id ∷ ids) s named empty fits = elim (Bool-cases (has id s.visited)) [
    | inl old ↦
        let (t, e, same) =
          search_roots-Clean fuel ids s (λ x h. named x (ground (arith, h))) empty fits in
        (t, rw old e, same)
    | inr new ↦
        let (s', e, first) =
          dfs-Searches fuel id s (named id (rw (str_eq_self id) refl)) new
            (λ x h. absurd (ground (arith, h, empty x))) fits in
        let (t, e', same) =
          search_roots-Clean fuel ids s' (λ x h. named x (ground (arith, h)))
            (λ x. first.same_stack x ∙ empty x)
            (omega (arith, fits, missing-le g s.visited s'.visited first.grows)) in
        (t, rw (new, e) e', same ∙ first.same_cycles)
  ]

  abbrev Succeeds : ℕ → Type 0
  Succeeds fuel =
      (id : String) (s : Visiting)
      → IsSound g s
      → has id (names g) ≡ true
      → Below id s.temp
      → missing g s.temp < fuel
      → (t : Visiting) × (visit fuel g id s ≡ done t)

  visit_each-Succeeds :
      (fuel : ℕ)
      → Succeeds fuel
      → (ids : List String) (s : Visiting) → IsSound g s
      → ((dep : String) → has dep ids ≡ true → (has dep (names g) ≡ true) × Below dep s.temp)
      → missing g s.temp < fuel
      → (t : Visiting) × (visit_each (visit fuel g) ids s ≡ done t)
  unfolding visit_each
  visit_each-Succeeds fuel rule [] s h deps fits = (s, refl)
  visit_each-Succeeds fuel rule (dep ∷ ids) s h deps fits =
      let (named, below) = deps dep (rw (str_eq_self dep) refl) in
      let (s', e) = rule dep s h named below fits in
      let (first, own) = visit-Visits g fuel dep s s' e h in
      let (t, e') =
        visit_each-Succeeds fuel rule ids s' first.sound
          (λ d m.
            let (n, b) = deps d (ground (arith, m)) in
            (n, λ x k. b x (sym (first.same_temp x) ∙ k)))
          (omega (arith, fits, missing-le g s.temp s'.temp (λ x k. first.same_temp x ∙ k))) in
      (t, ap (λ o. and_then o (visit_each (visit fuel g) ids)) e ∙ e')

  visit-Succeeds : (fuel : ℕ) → Succeeds fuel
  unfolding visit
  visit-Succeeds zero id s h named below fits = absurd (omega arith)
  visit-Succeeds (suc fuel) id s h named below fits = elim (Bool-cases (has id s.temp)) [
    | inl loop ↦ absurd (omega (arith, below id loop))
    | inr idle ↦ elim (Bool-cases (has id s.visited)) [
      | inl old ↦ (s, rw (idle, old) refl)
      | inr new ↦
          let (s', e) =
            visit_each-Succeeds fuel (visit-Succeeds fuel) (targets g id)
              (record s { temp = id ∷ s.temp })
              (record { ordered = h.ordered; visited_sorted = h.visited_sorted })
              (λ dep m. (target_named g id dep m, target-Below id dep s.temp m below))
              (omega (
                arith,
                fits,
                missing-lt g id s.temp (id ∷ s.temp) named idle (λ x k. ground (arith, k))
                    (rw (str_eq_self id) refl),
              )) in
          (finished id s', rw (idle, new, e) refl)
    ]
  ]

  visit_nodes-Succeeds :
      (fuel : ℕ) (ids : List String) (s : Visiting)
      → IsSound g s
      → ((id : String) → has id ids ≡ true → has id (names g) ≡ true)
      → ((x : String) → has x s.temp ≡ false)
      → missing g s.temp < fuel
      → (t : Visiting) × (visit_nodes fuel g ids s ≡ done t)
  unfolding visit_nodes
  visit_nodes-Succeeds fuel [] s h named empty fits = (s, refl)
  visit_nodes-Succeeds fuel (id ∷ ids) s h named empty fits = elim (Bool-cases (has id s.visited)) [
    | inl old ↦
        let (t, e) =
          visit_nodes-Succeeds fuel ids s h (λ x m. named x (ground (arith, m))) empty fits in
        (t, rw old e)
    | inr new ↦
        let (s', e) =
          visit-Succeeds fuel id s h (named id (rw (str_eq_self id) refl))
            (λ x m. absurd (ground (arith, m, empty x))) fits in
        let (first, own) = visit-Visits g fuel id s s' e h in
        let (t, e') =
          visit_nodes-Succeeds fuel ids s' first.sound (λ x m. named x (ground (arith, m)))
            (λ x. first.same_temp x ∙ empty x)
            (omega (arith, fits, missing-le g s.temp s'.temp (λ x k. first.same_temp x ∙ k))) in
        (t, rw (new, e) e')
  ]

  -- If a rank falls along every dependency, so that the graph has no cycle, `TopologicalSort` reports
  -- none and returns a load order: its recursion ends within the fuel that `enough` gives.
  pub topological_sort_total : (order : List String) × (topological_sort g ≡ done order)
  unfolding topological_sort detect_cycles
  topological_sort_total =
      let fits : missing g [] < enough g =
        omega (arith, tally-le-length (λ u. not (has u [])) (names g)) in
      let named = λ (id : String) (m : has id (ids_of g.nodes) ≡ true).
        has-append id (ids_of g.nodes) (all_targets g.edges) ∙ rw m refl in
      let (c, searched, clean) =
        search_roots-Clean (enough g) (ids_of g.nodes) no_search named (λ x. refl) fits in
      let (t, sorted) =
        visit_nodes-Succeeds (enough g) (ids_of g.nodes) nothing_visited
          (record { ordered = tt; visited_sorted = λ x. refl }) named (λ x. refl) fits in
      (t.sorted, rw (searched, clean, sorted) refl)
