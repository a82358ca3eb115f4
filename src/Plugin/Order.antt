-- ===== src/Plugin/Order.antt =====
-- A load order puts every plugin after its dependencies.
use ranyaa.Base.{
  ℕ, zero, suc, String, ◌≡◌, ◌⊎◌, refl, sym, ◌∙◌, ap, inl, inr, Bool, true, false, ◌&&◌, ◌||◌,
  Option, none, some, List, [], ◌∷◌, ◌++◌, if◌then◌else◌, arith, has, str_eq, eq_iff, any-append,
  Bool-cases,
}
use mathlib.Core.List.{append_assoc, append-nil}
use ranyaa.Plugin.{DependencyGraph, targets, ids_of, enough}
use ranyaa.Plugin.Cycles.{detect_cycles, drop_id}
use ranyaa.Plugin.Sort.{
  Visiting, Sorting, done, stuck, SortError, visit_each, finished, visit, visit_nodes, order_of,
  nothing_visited, sort_unless, topological_sort,
}

-- every one of the ids is in the list
abbrev pub all_in : List String → List String → Bool
all_in [] xs = true
all_in (id ∷ ids) xs = has id xs && all_in ids xs

-- Each id of the second list comes once, and after all its dependencies.
abbrev pub IsLoadOrder : DependencyGraph → List String → List String → Type 0
IsLoadOrder g before [] = Unit {0}
IsLoadOrder g before (id ∷ rest) =
    (has id before ≡ false)
    × (all_in (targets g id) before ≡ true)
    × IsLoadOrder g (before ++ id ∷ []) rest

pub has-append : (id : String) (xs ys : List String) → has id (xs ++ ys) ≡ (has id xs || has id ys)
has-append id xs ys = any-append (λ x. str_eq x id) xs ys

IsLoadOrder-snoc :
    (g : DependencyGraph) (before order : List String) (id : String)
    → IsLoadOrder g before order
    → has id (before ++ order) ≡ false
    → all_in (targets g id) (before ++ order) ≡ true
    → IsLoadOrder g before (order ++ id ∷ [])
IsLoadOrder-snoc g before [] id h new deps =
    (rw (← append-nil before) new, rw (← append-nil before) deps, tt)
IsLoadOrder-snoc g before (x ∷ order) id (fresh, ready, h) new deps =
    let same : (before ++ x ∷ []) ++ order ≡ before ++ x ∷ order =
      append_assoc before (x ∷ []) order in
    (
      fresh,
      ready,
      IsLoadOrder-snoc g (before ++ x ∷ []) order id h (ap (has id) same ∙ new)
          (ap (all_in (targets g id)) same ∙ deps),
    )

pub all_in-grows :
    (ids xs ys : List String)
    → ((id : String) → has id xs ≡ true → has id ys ≡ true)
    → all_in ids xs ≡ true
    → all_in ids ys ≡ true
all_in-grows [] xs ys grows h = refl
all_in-grows (id ∷ ids) xs ys grows h = ground (arith, grows id, all_in-grows ids xs ys grows, h)

pub has-drop_id :
    (x id : String) (ids : List String)
    → has x (drop_id id ids) ≡ (if str_eq id x then false else has x ids)
has-drop_id x id [] = ground arith
has-drop_id x id (y ∷ ids) =
    ground (arith, has-drop_id x id ids, eq_iff y id, eq_iff y x, eq_iff id x)

Sorting-cases {ℓ} :
    {A : Type ℓ} (o : Sorting A) → ((err : SortError) × (o ≡ stuck err)) ⊎ ((a : A) × (o ≡ done a))
Sorting-cases (stuck err) = inl (err, refl)
Sorting-cases (done a) = inr (a, refl)

module _ (g : DependencyGraph) where
  -- What holds between two visits.
  pub record IsSound (s : Visiting) : Type 0 where
    pub ordered : IsLoadOrder g [] s.sorted
    pub visited_sorted : (x : String) → has x s.visited ≡ has x s.sorted

  -- What a visit changes: it appends to the order, and not what is being visited.
  pub record Advances (s t : Visiting) : Type 0 where
    pub sound : IsSound t
    pub grows : (x : String) → has x s.sorted ≡ true → has x t.sorted ≡ true
    pub same_temp : (x : String) → has x t.temp ≡ has x s.temp
    pub skips : (x : String) → has x s.temp ≡ true → has x t.sorted ≡ has x s.sorted

  Advances-refl : (s : Visiting) → IsSound s → Advances s s
  Advances-refl s h = record {
    sound = h;
    grows = λ x p. p;
    same_temp = λ x. refl;
    skips = λ x p. refl;
  }

  Advances-trans : (s t u : Visiting) → Advances s t → Advances t u → Advances s u
  Advances-trans s t u p q = record {
    sound = q.sound;
    grows = λ x h. q.grows x (p.grows x h);
    same_temp = λ x. q.same_temp x ∙ p.same_temp x;
    skips = λ x h. q.skips x (p.same_temp x ∙ h) ∙ p.skips x h;
  }

  abbrev pub Visits : (String → Visiting → Sorting Visiting) → Type 0
  Visits v =
      (id : String) (s t : Visiting)
      → v id s ≡ done t
      → IsSound s
      → Advances s t × (has id t.sorted ≡ true)

  pub visit_each-Advances :
      (v : String → Visiting → Sorting Visiting)
      → Visits v
      → (ids : List String) (s t : Visiting) → visit_each v ids s ≡ done t
      → IsSound s
      → Advances s t × (all_in ids t.sorted ≡ true)
  unfolding visit_each
  visit_each-Advances v rule [] s t e h =
      let same : s ≡ t = ground (arith, e) in rw (← same) (Advances-refl s h, refl)
  visit_each-Advances v rule (id ∷ ids) s t e h = elim (Sorting-cases (v id s)) [
    | inl (err, failed) ↦ absurd (ground (arith, e, failed))
    | inr (s', ok) ↦
        let (first, own) = rule id s s' ok h in
        let e' : visit_each v ids s' ≡ done t = ground (arith, e, ok) in
        let (rest, all) = visit_each-Advances v rule ids s' t e' first.sound in
        (Advances-trans s s' t first rest, ground (arith, all, rest.grows id own))
  ]

  -- What the end of a visit does, after the visits of the dependencies.
  finish-Advances :
      (id : String) (s s' : Visiting)
      → IsSound s
      → has id s.temp ≡ false
      → has id s.visited ≡ false
      → Advances (record s { temp = id ∷ s.temp }) s'
      → all_in (targets g id) s'.sorted ≡ true
      → Advances s (finished id s') × (has id (finished id s').sorted ≡ true)
  finish-Advances id s s' h waiting new below ready =
      let fresh : has id s'.sorted ≡ false =
        ground (arith, below.skips id, h.visited_sorted id, new, eq_iff id id) in
      (
        record {
          sound = record {
            ordered = IsLoadOrder-snoc g [] s'.sorted id below.sound.ordered fresh ready;
            visited_sorted =
                λ x. ground (arith, below.sound.visited_sorted x, has-append x s'.sorted (id ∷ []));
          };
          grows = λ x p. ground (arith, below.grows x p, has-append x s'.sorted (id ∷ []));
          same_temp = λ x.
              ground (arith, below.same_temp x, has-drop_id x id s'.temp, eq_iff id x, waiting);
          skips = λ x p.
              ground
                (arith, below.skips x, has-append x s'.sorted (id ∷ []), eq_iff id x, p, waiting);
        },
        ground (arith, has-append id s'.sorted (id ∷ []), eq_iff id id),
      )

  pub visit-Visits : (fuel : ℕ) → Visits (visit fuel g)
  unfolding visit
  visit-Visits zero id s t e h = absurd (ground (arith, e))
  visit-Visits (suc fuel) id s t e h = elim (Bool-cases (has id s.temp)) [
    | inl waiting ↦ absurd (ground (arith, e, waiting))
    | inr idle ↦ elim (Bool-cases (has id s.visited)) [
      | inl old ↦
          let same : s ≡ t = ground (arith, e, idle, old) in
          rw (← same) (Advances-refl s h, sym (h.visited_sorted id) ∙ old)
      | inr new ↦
          let start = record s { temp = id ∷ s.temp } in
          elim (Sorting-cases (visit_each (visit fuel g) (targets g id) start)) [
            | inl (err, failed) ↦ absurd (ground (arith, e, idle, new, failed))
            | inr (s', ok) ↦
                let (below, ready) =
                  visit_each-Advances (visit fuel g) (visit-Visits fuel) (targets g id) start s' ok
                    (record { ordered = h.ordered; visited_sorted = h.visited_sorted }) in
                let same : finished id s' ≡ t = ground (arith, e, idle, new, ok) in
                rw (← same) (finish-Advances id s s' h idle new below ready)
          ]
    ]
  ]

  pub visit_nodes-Advances :
      (fuel : ℕ) (ids : List String) (s t : Visiting)
      → visit_nodes fuel g ids s ≡ done t
      → IsSound s
      → Advances s t × (all_in ids t.sorted ≡ true)
  unfolding visit_nodes
  visit_nodes-Advances fuel [] s t e h =
      let same : s ≡ t = ground (arith, e) in rw (← same) (Advances-refl s h, refl)
  visit_nodes-Advances fuel (id ∷ ids) s t e h = elim (Bool-cases (has id s.visited)) [
    | inl old ↦
        let (rest, all) = visit_nodes-Advances fuel ids s t (ground (arith, e, old)) h in
        (rest, ground (arith, all, rest.grows id, h.visited_sorted id, old))
    | inr new ↦ elim (Sorting-cases (visit fuel g id s)) [
      | inl (err, failed) ↦ absurd (ground (arith, e, new, failed))
      | inr (s', ok) ↦
          let (first, own) = visit-Visits fuel id s s' ok h in
          let (rest, all) =
            visit_nodes-Advances fuel ids s' t (ground (arith, e, new, ok)) first.sound in
          (Advances-trans s s' t first rest, ground (arith, all, rest.grows id own))
    ]
  ]

  sort_unless-done :
      (o : Option (List (List String))) (r : Sorting Visiting) (order : List String)
      → sort_unless o (order_of r) ≡ done order
      → (t : Visiting) × (r ≡ done t) × (t.sorted ≡ order)
  sort_unless-done none r order e = absurd (ground (arith, e))
  sort_unless-done (some (c ∷ cs)) r order e = absurd (ground (arith, e))
  sort_unless-done (some []) (stuck err) order e = absurd (ground (arith, e))
  sort_unless-done (some []) (done t) order e = (t, refl, ground (arith, e))

  -- A load order that `TopologicalSort` returns has every plugin of the graph, no id twice, and each
  -- id after all its dependencies, also those that are no plugins of the graph.
  pub topological_sort_sound :
      (order : List String)
      → topological_sort g ≡ done order
      → IsLoadOrder g [] order × (all_in (ids_of g.nodes) order ≡ true)
  unfolding topological_sort
  topological_sort_sound order e =
      let (t, sorted, same) =
        sort_unless-done (detect_cycles (enough g) g)
          (visit_nodes (enough g) g (ids_of g.nodes) nothing_visited) order e in
      let (run, all) =
        visit_nodes-Advances (enough g) (ids_of g.nodes) nothing_visited t sorted
          (record { ordered = tt; visited_sorted = λ x. refl }) in
      rw (← same) (run.sound.ordered, all)
