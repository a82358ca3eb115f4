-- ===== src/Pairing/Consistent.antt =====
-- The two maps of pending requests agree, no pending peer is allowlisted, and the limit holds.
use ranyaa.Base.{
  ℕ, ◌≤◌, ◌<◌, String, ◌≡◌, refl, sym, ◌∙◌, ap, inl, inr, false, Option, none, some, [], ◌∷◌, arith,
  ltb, Map, lookup, length, str_eq, str_eq_self, eq_iff, IsMap, insert-IsMap, delete-IsMap,
  lookup-delete-some, lookup-delete_ne, lookup-insert-some, lookup-insert_ne, lookup-insert_self,
  lookup-tail, length-delete-le, length-insert_new, Bool-cases,
}
use Prim.Native.String.{◌++◌}
use ranyaa.Pairing.{
  PendingRequest, AllowlistEntry, Manager, forget, cleanup_each, cleanup_expired, is_listed,
}
use ranyaa.Pairing.Requests.{add_request, allow, remove}

abbrev value_of {ℓ} : {V : Type ℓ} → (V → String) → Option V → Option String
value_of f none = none
value_of f (some v) = some (f v)

-- Keys are different when a property of their values differs.
lookup-keys_differ {ℓ} :
    {V : Type ℓ} (f : V → String) (k j : String) (v w : V) (m : Map V)
    → lookup k m ≡ some v
    → lookup j m ≡ some w
    → str_eq (f v) (f w) ≡ false
    → str_eq k j ≡ false
lookup-keys_differ f k j v w m here there differ = elim (Bool-cases (str_eq k j)) [
  | inr e ↦ e
  | inl e ↦
      let same : some (f v) ≡ some (f w) =
        ap (value_of f) (sym here ∙ ap (λ c. lookup c m) ((eq_iff k j).0 e) ∙ there) in
      ground (arith, same, differ, eq_iff (f v) (f w))
]

-- A key that is not in the map is different from one that is.
lookup-missing_differs {ℓ} :
    {V : Type ℓ} (k j : String) (v : V) (m : Map V)
    → lookup k m ≡ none
    → lookup j m ≡ some v
    → str_eq k j ≡ false
lookup-missing_differs k j v m new there = elim (Bool-cases (str_eq k j)) [
  | inr e ↦ e
  | inl e ↦
      let same : none ≡ some v = sym new ∙ ap (λ c. lookup c m) ((eq_iff k j).0 e) ∙ there in
      ground (arith, same)
]

module _ (trim upper : String → String) (limit : ℕ) where
  pub record IsConsistent (m : Manager) : Type 0 where
    pub is_map : IsMap m.pending
    pub own :
        (p : String) (r : PendingRequest)
        → lookup p m.pending ≡ some r
        → (r.peer_id ≡ p) × (lookup (upper r.code) m.pending_by_code ≡ some p)
    pub known :
        (c p : String)
        → lookup c m.pending_by_code ≡ some p
        → (r : PendingRequest) × (lookup p m.pending ≡ some r) × (upper r.code ≡ c)
    pub apart :
        (p : String) (r : PendingRequest) → lookup p m.pending ≡ some r → is_listed p m ≡ false
    pub limited : m.max_pending ≡ limit
    pub bounded : length m.pending ≤ m.max_pending

  module _ (m : Manager) (h : IsConsistent m) where
    pub forget-IsConsistent :
        (p : String) (r : PendingRequest)
        → lookup p m.pending ≡ some r
        → IsConsistent (forget trim upper p r m)
    forget-IsConsistent p r found = record {
      is_map = delete-IsMap p m.pending h.is_map;
      own = λ q s e.
          let (other, old) = lookup-delete-some p q s m.pending e in
          let (same, code) = h.own q s old in
          let differ =
            lookup-keys_differ (λ x. x) (upper r.code) (upper s.code) p q m.pending_by_code
              (h.own p r found).1 code other in
          (same, lookup-delete_ne (upper r.code) (upper s.code) m.pending_by_code differ ∙ code);
      known = λ c q e.
          let (other, old) = lookup-delete-some (upper r.code) c q m.pending_by_code e in
          let (s, at, code) = h.known c q old in
          let differ =
            lookup-keys_differ (λ x. upper x.code) p q r s m.pending found at
              (ap (str_eq (upper r.code)) code ∙ other) in
          (s, lookup-delete_ne p q m.pending differ ∙ at, code);
      apart = λ q s e. h.apart q s (lookup-delete-some p q s m.pending e).1;
      limited = h.limited;
      bounded = omega (arith, h.bounded, length-delete-le p m.pending);
    }

    pub add_request-IsConsistent :
        (req : PendingRequest)
        → lookup req.peer_id m.pending ≡ none
        → lookup (upper req.code) m.pending_by_code ≡ none
        → is_listed req.peer_id m ≡ false
        → length m.pending < m.max_pending
        → IsConsistent (add_request trim upper req m)
    add_request-IsConsistent req new fresh outside room =
        let p = req.peer_id in
        let code = upper req.code in
        record {
          is_map = insert-IsMap p req m.pending h.is_map;
          own = λ q s e. elim (lookup-insert-some p q req s m.pending e) [
            | inl (same, equal) ↦
                rw (← same, ← equal) (refl, lookup-insert_self code p m.pending_by_code)
            | inr (other, old) ↦
                let (same, there) = h.own q s old in
                let differ =
                  lookup-missing_differs code (upper s.code) q m.pending_by_code fresh there in
                (same, lookup-insert_ne code (upper s.code) p m.pending_by_code differ ∙ there)
          ];
          known = λ c q e. elim (lookup-insert-some code c p q m.pending_by_code e) [
            | inl (same, equal) ↦
                rw (← same, ← equal) (req, lookup-insert_self p req m.pending, refl)
            | inr (other, old) ↦
                let (s, at, there) = h.known c q old in
                let differ = lookup-missing_differs p q s m.pending new at in
                (s, lookup-insert_ne p q req m.pending differ ∙ at, there)
          ];
          apart = λ q s e. elim (lookup-insert-some p q req s m.pending e) [
            | inl (same, equal) ↦ rw (← same) outside
            | inr (other, old) ↦ h.apart q s old
          ];
          limited = h.limited;
          bounded = omega (arith, room, length-insert_new p req m.pending new);
        }

    -- the request of a code that is known
    pub remove-IsConsistent :
        (code p : String)
        → lookup code m.pending_by_code ≡ some p
        → IsConsistent (remove trim upper p code m)
    remove-IsConsistent code p found =
        let (r, at, same) = h.known code p found in
        let removed = forget-IsConsistent p r at in rw (← same) removed

    pub allow-IsConsistent :
        (p code : String) (now : ℕ)
        → lookup p m.pending ≡ none
        → IsConsistent (allow trim upper p code now m)
    allow-IsConsistent p code now gone =
        let entry : AllowlistEntry = record {
          peer_id = p;
          added_at = now;
          reason = "approved via code " ++ code;
        } in
        record {
          is_map = h.is_map;
          own = h.own;
          known = h.known;
          apart = λ q s e.
              let differ = lookup-missing_differs p q s m.pending gone e in
              rw (lookup-insert_ne p q entry m.allowlist differ) (h.apart q s e);
          limited = h.limited;
          bounded = h.bounded;
        }

  -- the requests of a part of the map, which the manager holds as they are there
  cleanup_each-IsConsistent :
      (now : ℕ) (part : Map PendingRequest) (m : Manager)
      → IsMap part
      → ((p : String) (r : PendingRequest) → lookup p part ≡ some r → lookup p m.pending ≡ some r)
      → IsConsistent m
      → IsConsistent (cleanup_each trim upper now part m)
  unfolding cleanup_each
  cleanup_each-IsConsistent now [] m map held h = h
  cleanup_each-IsConsistent now ((p, r) ∷ more) m map held h =
      let here = held p r (rw (str_eq_self p) refl) in
      let rest = cleanup_each-IsConsistent now more in
      elim (Bool-cases (ltb r.expires_at now)) [
        | inr fresh ↦
            rw fresh (rest m map.1 (λ q s e. held q s (lookup-tail p q r s more map.0 e).1) h)
        | inl expired ↦ rw expired (
            rest (forget trim upper p r m) map.1
              (λ q s e.
                let (differ, whole) = lookup-tail p q r s more map.0 e in
                lookup-delete_ne p q m.pending differ ∙ held q s whole)
              (forget-IsConsistent m h p r here))
      ]

  pub cleanup_expired-IsConsistent :
      (now : ℕ) (m : Manager) → IsConsistent m → IsConsistent (cleanup_expired trim upper now m)
  unfolding cleanup_expired
  cleanup_expired-IsConsistent now m h =
      cleanup_each-IsConsistent now m.pending m h.is_map (λ p r e. e) h
