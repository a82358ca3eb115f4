-- ===== src/Pairing/Lifecycle.antt =====
-- A request from its creation to the decision on it, in time and too late.
use ranyaa.Base.{
  ℕ, String, ◌≡◌, refl, sym, ◌∙◌, ap, inl, inr, Bool, true, false, ◌&&◌, not, Option, none, some,
  List, [], ◌∷◌, if◌then◌else◌, arith, ltb, leb, Map, lookup, length, has, str_eq, eq_iff, IsMap,
  lookup-delete, lookup-insert_self, Bool-cases, Option-cases,
}
use Prim.Native.String.{◌++◌}
use ranyaa.Pairing.{
  PendingRequest, AllowlistEntry, Manager, Outcome, ok, failed, request_not_found, not_saved,
  Refresh, no_change, forget, load_pending, load_allowlist, cleanup_each, cleanup_expired,
  refresh_from_disk, is_listed,
}
use ranyaa.Pairing.Requests.{
  generate_unique_code, new_request, create, ensure_clean, ensure_pending, resolve,
}
use ranyaa.Pairing.Consistent.{IsConsistent, cleanup_expired-IsConsistent}
use ranyaa.Pairing.Runs.{ensured, is_quiet, perform_one-IsConsistent}

-- what a cleanup leaves of a peer's request
abbrev unless_expired : ℕ → Option PendingRequest → Option PendingRequest → Option PendingRequest
unless_expired now none old = old
unless_expired now (some r) old = if ltb r.expires_at now then none else old

unless_expired-some :
    (now : ℕ) (r : PendingRequest) (old : Option PendingRequest)
    → unless_expired now old old ≡ some r
    → (old ≡ some r) × (ltb r.expires_at now ≡ false)
unless_expired-some now r none e = ground (arith, e)
unless_expired-some now r (some s) e = elim (Bool-cases (ltb s.expires_at now)) [
  | inl expired ↦ ground (arith, e, expired)
  | inr fresh ↦
      let same : some s ≡ some r = rw fresh at e in
      let equal : s ≡ r = ground (arith, same) in
      (same, ap (λ x. ltb x.expires_at now) (sym equal) ∙ fresh)
]

abbrev approved_entry : String → String → ℕ → AllowlistEntry
approved_entry p code now = record {
  peer_id = p;
  added_at = now;
  reason = "approved via code " ++ code;
}

module _ (trim upper : String → String) where
  lookup-cleanup_each :
      (now : ℕ) (p : String) (part : Map PendingRequest) (m : Manager)
      → IsMap part
      → lookup p (cleanup_each trim upper now part m).pending
        ≡ unless_expired now (lookup p part) (lookup p m.pending)
  unfolding cleanup_each
  lookup-cleanup_each now p [] m map = refl
  lookup-cleanup_each now p ((k, r) ∷ more) m map = elim (Bool-cases (ltb r.expires_at now)) [
    | inr fresh ↦
        rw (cleanup_each, fresh)
          (ground (arith, fresh, map.0, eq_iff k p, lookup-cleanup_each now p more m map.1))
    | inl expired ↦
        rw (cleanup_each, expired)
          (ground (
            arith,
            expired,
            map.0,
            eq_iff k p,
            lookup-delete k p m.pending,
            lookup-cleanup_each now p more (forget trim upper k r m) map.1,
          ))
  ]

  is_listed-cleanup_each :
      (now : ℕ) (p : String) (part : Map PendingRequest) (m : Manager)
      → is_listed p (cleanup_each trim upper now part m) ≡ is_listed p m
  unfolding cleanup_each
  is_listed-cleanup_each now p [] m = refl
  is_listed-cleanup_each now p ((k, r) ∷ more) m = elim (Bool-cases (ltb r.expires_at now)) [
    | inr fresh ↦ rw (cleanup_each, fresh) (is_listed-cleanup_each now p more m)
    | inl expired ↦
        rw (cleanup_each, expired) (is_listed-cleanup_each now p more (forget trim upper k r m))
  ]

  module _ (limit : ℕ) (m : Manager) (h : IsConsistent trim upper limit m) where
    -- A request that has not expired is found by its code after a cleanup.
    found_in_time :
        (now : ℕ) (p : String) (r : PendingRequest)
        → lookup p m.pending ≡ some r
        → ltb r.expires_at now ≡ false
        → let m' = cleanup_expired trim upper now m in
          (lookup p m'.pending ≡ some r) × (lookup (upper r.code) m'.pending_by_code ≡ some p)
    unfolding cleanup_expired
    found_in_time now p r here fresh =
        let m' = cleanup_expired trim upper now m in
        let left : lookup p m'.pending ≡ some r =
          lookup-cleanup_each now p m.pending m h.is_map ∙ ground (arith, here, fresh) in
        let clean : IsConsistent trim upper limit m' =
          cleanup_expired-IsConsistent trim upper limit now m h in
        (left, (clean.own p r left).1)

    lost_too_late :
        (now : ℕ) (p : String) (r : PendingRequest)
        → lookup p m.pending ≡ some r
        → ltb r.expires_at now ≡ true
        → lookup (upper r.code) (cleanup_expired trim upper now m).pending_by_code ≡ none
    unfolding cleanup_expired
    lost_too_late now p r here expired =
        let m' = cleanup_expired trim upper now m in
        let clean : IsConsistent trim upper limit m' =
          cleanup_expired-IsConsistent trim upper limit now m h in
        elim (Option-cases (lookup (upper r.code) m'.pending_by_code)) [
          | inl gone ↦ gone
          | inr (q, e) ↦
              let (s, at, code) = clean.known (upper r.code) q e in
              let (old, fresh) =
                unless_expired-some now s (lookup q m.pending)
                  (sym (lookup-cleanup_each now q m.pending m h.is_map) ∙ at) in
              let peers : some p ≡ some q =
                sym (h.own p r here).1
                ∙ ap (λ c. lookup c m.pending_by_code) (sym code)
                ∙ (h.own q s old).1 in
              let peer : p ≡ q = ground (arith, peers) in
              let same : some r ≡ some s = sym here ∙ ap (λ k. lookup k m.pending) peer ∙ old in
              ground (arith, same, expired, fresh)
        ]

    -- a decision on a request that is pending
    pub resolve_pending :
        (text : String) (approve : Bool) (now : ℕ) (p : String) (r : PendingRequest)
        → lookup p m.pending ≡ some r
        → upper (trim text) ≡ upper r.code
        → str_eq (upper r.code) "" ≡ false
        → let (after, outcome) = resolve trim upper text approve now no_change true true m in
          (outcome ≡ (if ltb r.expires_at now then failed request_not_found else ok r))
          × (is_listed p after ≡ (approve && not (ltb r.expires_at now)))
    unfolding resolve cleanup_expired refresh_from_disk load_pending load_allowlist
    resolve_pending text approve now p r here typed given =
        let unlisted : is_listed p (cleanup_expired trim upper now m) ≡ false =
          is_listed-cleanup_each now p m.pending m ∙ h.apart p r here in
        elim (Bool-cases (ltb r.expires_at now)) [
          | inl expired ↦
              rw (expired, typed, given, lost_too_late now p r here expired)
                (refl, unlisted ∙ ground (arith, Bool-cases approve))
          | inr fresh ↦
              let (left, found) = found_in_time now p r here fresh in
              rw (fresh, typed, given, found, left)
                (elim (Bool-cases approve) [
                  | inl approved ↦
                      rw
                        (
                          approved,
                          lookup-insert_self p (approved_entry p (upper r.code) now)
                              (cleanup_expired trim upper now m).allowlist,
                        )
                        (
                          refl,
                          ground (
                            arith,
                            Bool-cases (has p (cleanup_expired trim upper now m).bootstrap),
                          ),
                        )
                  | inr refused ↦ rw refused (refl, unlisted)
                ])
        ]

  create_files :
      (p : String) (now : ℕ) (saves created : Bool) (code : Outcome String) (r : PendingRequest)
      (m : Manager)
      → (create trim upper p now saves code m).1 ≡ ok (r, created)
      → lookup p (create trim upper p now saves code m).0.pending ≡ some r
  create_files p now saves created (failed err) r m e = ground (arith, e)
  create_files p now saves created (ok code) r m e =
      let req = new_request trim upper p code now m in
      elim (Bool-cases saves) [
        | inr unsaved ↦
            let wrong : failed not_saved ≡ ok (r, created) = rw unsaved at e in
            ground (arith, wrong)
        | inl saved ↦
            let same : ok (req, true) ≡ ok (r, created) = rw saved at e in
            lookup-insert_self p req m.pending ∙ ground (arith, same)
      ]

  ensure_clean_files :
      (p : String) (now : ℕ) (codes : List (Option String)) (saves created : Bool)
      (r : PendingRequest) (m : Manager)
      → (ensure_clean trim upper p now codes saves m).1 ≡ ok (r, created)
      → lookup p (ensure_clean trim upper p now codes saves m).0.pending ≡ some r
  ensure_clean_files p now codes saves created r m e = elim (Bool-cases (is_listed p m)) [
    | inl listed ↦ ground (arith, e, listed)
    | inr outside ↦ elim (Option-cases (lookup p m.pending)) [
      | inr (existing, old) ↦
          let same : ok (existing, false) ≡ ok (r, created) = rw (outside, old) at e in
          rw (outside, old) (old ∙ ground (arith, same))
      | inl new ↦ elim (Bool-cases (leb m.max_pending (length m.pending))) [
        | inl full ↦ ground (arith, e, outside, new, full)
        | inr room ↦
            let code = generate_unique_code trim upper 5 codes m in
            let made : (create trim upper p now saves code m).1 ≡ ok (r, created) =
              rw (outside, new, room) at e in
            rw (outside, new, room) (create_files p now saves created code r m made)
      ]
    ]
  ]

  -- A request for access that the manager answers with a request, made on a consistent manager in
  -- which no file is read that another process has written, and then a decision on a text that is
  -- the code of that request up to the spaces around it and its case, when no file has changed and
  -- the files can be written: up to the expiry time the decision gives that request, and the peer
  -- is allowed just when it is an approval; after that the code is not found and the peer is not
  -- allowed.
  pub resolve_ensured :
      (limit : ℕ) (m : Manager)
      → IsConsistent trim upper limit m
      → (peer text : String) (asked_at decided_at : ℕ) (refresh : Refresh)
        (codes : List (Option String)) (saves created approve : Bool) (r : PendingRequest)
      → is_quiet refresh ≡ true
      → (ensure_pending trim upper peer asked_at refresh codes saves m).1 ≡ ok (r, created)
      → upper (trim text) ≡ upper r.code
      → str_eq (upper r.code) "" ≡ false
      → let pending = (ensure_pending trim upper peer asked_at refresh codes saves m).0 in
        let (after, outcome) =
          resolve trim upper text approve decided_at no_change true true pending in
        (outcome ≡ (if ltb r.expires_at decided_at then failed request_not_found else ok r))
        × (is_listed (trim peer) after ≡ (approve && not (ltb r.expires_at decided_at)))
  unfolding ensure_pending
  resolve_ensured limit m h peer text asked_at decided_at refresh codes saves created approve r
        quiet answered typed given =
      let o = ensured peer asked_at refresh codes saves in
      let pending = (ensure_pending trim upper peer asked_at refresh codes saves m).0 in
      let consistent = perform_one-IsConsistent trim upper limit o m quiet h in
      let filed : lookup (trim peer) pending.pending ≡ some r =
        elim (Bool-cases (str_eq (trim peer) "")) [
          | inl blank ↦ ground (arith, answered, blank)
          | inr named ↦ rw named (
              ensure_clean_files (trim peer) asked_at codes saves created r
                (cleanup_expired trim upper asked_at
                  (refresh_from_disk trim upper asked_at refresh m))
                (rw named at answered))
        ] in
      resolve_pending limit pending consistent text approve decided_at (trim peer) r filed typed
        given
