-- ===== src/Subagent/Descendants.antt =====
-- The descendants of a session: found, all of them, when the sessions do not go in a circle.
use mathlib.Core.Path.{subst}
use ranyaa.Base.{
  ℕ, zero, suc, ◌<◌, String, ◌≡◌, ◌↔◌, ◌⊎◌, refl, sym, ap, ◌∙◌, inl, inr, true, false, ◌||◌, Option,
  none, some, List, [], ◌∷◌, ◌++◌, map, arith, Map, lookup, has, str_eq, str_eq_self, eq_iff,
  lookup-tail, IsMap, Bool-cases,
}
use ranyaa.Subagent.{RunRecord, Coordinator}
use ranyaa.Subagent.Queries.{add_children, add_descendants, list_descendants}
use ranyaa.Subagent.Kept.{IsKept}

module _ {V : Type 0} where
  abbrev pub run_ids : List (RunRecord V) → List String
  run_ids [] = []
  run_ids (r ∷ rs) = r.id ∷ run_ids rs

  -- the run with the id is a child of the session, or below a child
  pub data IsBelow (m : Map (RunRecord V)) : String → String → Type 0 where
    child :
        (k : String) (r : RunRecord V) → lookup k m ≡ some r → IsBelow m r.parent_session_key r.id
    deeper :
        (k id : String) (r : RunRecord V)
        → lookup k m ≡ some r
        → IsBelow m r.child_session_key id
        → IsBelow m r.parent_session_key id

  -- as one of the runs of a part of the map makes it
  abbrev BelowPart : Map (RunRecord V) → Map (RunRecord V) → String → String → Type 0
  BelowPart m part key id =
      (k : String) × (r : RunRecord V) × (lookup k part ≡ some r)
      × (r.parent_session_key ≡ key)
      × ((r.id ≡ id) ⊎ IsBelow m r.child_session_key id)

  has-run_ids :
      (id : String) (below rest : List (RunRecord V))
      → has id (run_ids (below ++ rest)) ≡ (has id (run_ids below) || has id (run_ids rest))
  has-run_ids id [] rest = refl
  has-run_ids id (r ∷ below) rest = ground (arith, has-run_ids id below rest)

  has-both :
      (id : String) (r : RunRecord V) (below rest : List (RunRecord V))
      → has id (run_ids (r ∷ below ++ rest))
        ≡ (str_eq r.id id || (has id (run_ids below) || has id (run_ids rest)))
  has-both id r below rest = ap (λ b. str_eq r.id id || b) (has-run_ids id below rest)

  one_of_three {ℓ} :
      {B R : Type ℓ} (id : String) (r : RunRecord V) (below rest : List (RunRecord V))
      → (has id (run_ids below) ≡ true) ↔ B
      → (has id (run_ids rest) ≡ true) ↔ R
      → (has id (run_ids (r ∷ below ++ rest)) ≡ true) ↔ ((r.id ≡ id) ⊎ B ⊎ R)
  one_of_three id r below rest under after = (
    λ e. elim (Bool-cases (str_eq r.id id)) [
      | inl self ↦ inl ((eq_iff r.id id).0 self)
      | inr other ↦ elim (Bool-cases (has id (run_ids below))) [
        | inl inside ↦ inr (inl (under.0 inside))
        | inr outside ↦
            inr (inr (after.0 (ground (arith, e, other, outside, has-both id r below rest))))
      ]
    ],
    λ why. has-both id r below rest ∙ elim why [
      | inl self ↦ ground (arith, (eq_iff r.id id).1 self)
      | inr (inl b) ↦ ground (arith, under.1 b, Bool-cases (str_eq r.id id))
      | inr (inr c) ↦
          ground
            (arith, after.1 c, Bool-cases (str_eq r.id id), Bool-cases (has id (run_ids below)))
    ],
  )

  -- the run at the head of a part is no child of the session
  BelowPart-skip :
      (m more : Map (RunRecord V)) (key k id : String) (r : RunRecord V)
      → lookup k more ≡ none
      → str_eq r.parent_session_key key ≡ false
      → BelowPart m more key id ↔ BelowPart m ((k, r) ∷ more) key id
  BelowPart-skip m more key k id r new apart = (
    λ (j, s, at, same, why). (j, s, (lookup-tail k j r s more new at).1, same, why),
    λ (j, s, at, same, why). elim (Bool-cases (str_eq k j)) [
      | inr other ↦ (j, s, rw other at at, same, why)
      | inl equal ↦
          let run : some r ≡ some s = rw equal at at in
          ground (arith, run, same, apart, eq_iff r.parent_session_key key)
    ],
  )

  -- it is one
  BelowPart-take :
      (m more : Map (RunRecord V)) (key k id : String) (r : RunRecord V)
      → lookup k more ≡ none
      → r.parent_session_key ≡ key
      → ((r.id ≡ id) ⊎ IsBelow m r.child_session_key id ⊎ BelowPart m more key id)
        ↔ BelowPart m ((k, r) ∷ more) key id
  BelowPart-take m more key k id r new here = (
    λ why. elim why [
      | inl self ↦ (k, r, rw (str_eq_self k) refl, here, inl self)
      | inr (inl below) ↦ (k, r, rw (str_eq_self k) refl, here, inr below)
      | inr (inr (j, s, at, same, how)) ↦ (j, s, (lookup-tail k j r s more new at).1, same, how)
    ],
    λ (j, s, at, same, why). elim (Bool-cases (str_eq k j)) [
      | inr other ↦ inr (inr (j, s, rw other at at, same, why))
      | inl equal ↦
          let run : some r ≡ some s = rw equal at at in
          let one : r ≡ s = ground (arith, run) in
          elim why [
            | inl self ↦ inl (ap (λ x. x.id) one ∙ self)
            | inr below ↦ inr (inl (subst (λ x. IsBelow m x.child_session_key id) (sym one) below))
          ]
    ],
  )

  add_children_total :
      (m : Map (RunRecord V)) (f : String → Option (List (RunRecord V))) (key : String)
      (part : Map (RunRecord V))
      → IsMap part
      → ((k : String) (r : RunRecord V)
          → lookup k part ≡ some r
          → r.parent_session_key ≡ key
          → (below : List (RunRecord V)) × (f r.child_session_key ≡ some below)
            × ((id : String) → (has id (run_ids below) ≡ true) ↔ IsBelow m r.child_session_key id))
      → (found : List (RunRecord V)) × (add_children f key part ≡ some found)
        × ((id : String) → (has id (run_ids found) ≡ true) ↔ BelowPart m part key id)
  add_children_total m f key [] map each =
      ([], refl, λ id. (λ e. ground (arith, e), λ (k, r, e, same, why). ground (arith, e)))
  add_children_total m f key ((k, r) ∷ more) map each =
      let (rest, rest_found, rest_ids) =
        add_children_total m f key more map.1
          (λ j s e same. each j s (lookup-tail k j r s more map.0 e).1 same) in
      elim (Bool-cases (str_eq r.parent_session_key key)) [
        | inr apart ↦ (
          rest,
          rw apart rest_found,
          λ id.
              let skip = BelowPart-skip m more key k id r map.0 apart in
              (λ e. skip.0 ((rest_ids id).0 e), λ why. (rest_ids id).1 (skip.1 why)),
        )
        | inl here ↦
            let parent = (eq_iff r.parent_session_key key).0 here in
            let (below, found, below_ids) = each k r (rw (str_eq_self k) refl) parent in
            (
              r ∷ below ++ rest,
              rw (here, found, rest_found) refl,
              λ id.
                  let take = BelowPart-take m more key k id r map.0 parent in
                  let three = one_of_three id r below rest (below_ids id) (rest_ids id) in
                  (λ e. take.0 (three.0 e), λ why. three.1 (take.1 why)),
            )
      ]

  to_part : (m : Map (RunRecord V)) (key id : String) → IsBelow m key id → BelowPart m m key id
  to_part m _ _ (child k r at) = (k, r, at, refl, inl refl)
  to_part m _ id (deeper k _ r at below) = (k, r, at, refl, inr below)

  BelowPart-iff :
      (m : Map (RunRecord V)) (key id : String) → BelowPart m m key id ↔ IsBelow m key id
  BelowPart-iff m key id = (
    λ (k, r, at, same, why).
        subst (λ p. IsBelow m p id) same
          (elim why [
            | inl self ↦ subst (λ i. IsBelow m r.parent_session_key i) self (child k r at)
            | inr below ↦ deeper k id r at below
          ]),
    to_part m key id,
  )

  add_descendants_total :
      (m : Map (RunRecord V)) (rank : String → ℕ)
      → IsMap m
      → ((k : String) (r : RunRecord V)
          → lookup k m ≡ some r
          → rank r.child_session_key < rank r.parent_session_key)
      → (depth : ℕ) (key : String) → rank key < depth
      → (found : List (RunRecord V)) × (add_descendants depth m key ≡ some found)
        × ((id : String) → (has id (run_ids found) ≡ true) ↔ IsBelow m key id)
  unfolding add_descendants
  add_descendants_total m rank map falls zero key room = ground (arith, room)
  add_descendants_total m rank map falls (suc depth) key room =
      let (found, gives, ids) =
        add_children_total m (add_descendants depth m) key m map (λ k r at same.
          let lower : rank r.child_session_key < depth =
            omega (arith, falls k r at, ap rank same, room) in
          add_descendants_total m rank map falls depth r.child_session_key lower) in
      (
        found,
        gives,
        λ id.
            let part = BelowPart-iff m key id in
            (λ e. part.0 ((ids id).0 e), λ below. (ids id).1 (part.1 below)),
      )

  -- In a coordinator whose map of runs is well kept, if sessions have ranks that fall from the
  -- parent session to the child session of every run, then the recursion for the descendants of a
  -- session ends within one more step than the rank of the session, and gives exactly the runs that
  -- are children of the session or below a child.
  pub list_descendants_total :
      (c : Coordinator V) (rank : String → ℕ) (key : String)
      → IsKept c.active_runs
      → ((k : String) (r : RunRecord V)
          → lookup k c.active_runs ≡ some r
          → rank r.child_session_key < rank r.parent_session_key)
      → (found : List (RunRecord V)) × (list_descendants (suc (rank key)) key c ≡ some found)
        × ((id : String) → (has id (run_ids found) ≡ true) ↔ IsBelow c.active_runs key id)
  list_descendants_total c rank key h falls =
      add_descendants_total c.active_runs rank h.is_map falls (suc (rank key)) key (omega arith)
