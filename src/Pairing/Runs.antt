-- ===== src/Pairing/Runs.antt =====
-- Every run of the manager's operations, when no file holds what the manager did not write.
use ranyaa.Base.{
  ℕ, zero, suc, ◌<◌, String, ◌≡◌, refl, inl, inr, Bool, true, false, ◌&&◌, Option, none, some, List,
  [], ◌∷◌, if◌then◌else◌, arith, leb, lookup, length, str_eq, str_eq_self, lookup-delete,
  Bool-cases, Option-cases, all,
}
use ranyaa.Pairing.{
  list_allowlist, list_pending, PendingRequest, AllowlistEntry, Manager, Outcome, ok, failed,
  FileRead, unchanged, unreadable, contents, Refresh, new_manager, load_pending, load_allowlist,
  cleanup_expired, refresh_from_disk, is_listed, is_allowed,
}
use ranyaa.Pairing.Requests.{
  generate_unique_code, new_request, create, ensure_clean, ensure_pending, remove, resolve_clean,
  resolve,
}
use ranyaa.Pairing.Consistent.{
  IsConsistent, cleanup_expired-IsConsistent, add_request-IsConsistent, remove-IsConsistent,
  allow-IsConsistent,
}

abbrev pub is_own : {A : Type 0} → FileRead A → Bool
is_own unchanged = true
is_own unreadable = true
is_own (contents _) = false

abbrev pub is_quiet : Refresh → Bool
is_quiet r = is_own r.pending_file && is_own r.allowlist_file

pub data Operation : Type 0 where
  asked : String → ℕ → Refresh → Operation
  listed_allowed : ℕ → Refresh → Operation
  listed_pending : ℕ → Refresh → Operation
  ensured : String → ℕ → Refresh → List (Option String) → Bool → Operation
  resolved : String → Bool → ℕ → Refresh → Bool → Bool → Operation

abbrev refresh_of : Operation → Refresh
refresh_of (asked peer now r) = r
refresh_of (listed_allowed now r) = r
refresh_of (listed_pending now r) = r
refresh_of (ensured peer now r codes saves) = r
refresh_of (resolved text approve now r saves_list saves_pending) = r

module _ (trim upper : String → String) where
  abbrev pub perform_one : Operation → Manager → Manager
  perform_one (asked peer now r) m = (is_allowed trim upper peer now r m).0
  perform_one (listed_allowed now r) m = (list_allowlist trim upper (λ xs. xs) now r m).0
  perform_one (listed_pending now r) m = (list_pending trim upper (λ xs. xs) now r m).0
  perform_one (ensured peer now r codes saves) m =
      (ensure_pending trim upper peer now r codes saves m).0
  perform_one (resolved text approve now r saves_list saves_pending) m =
      (resolve trim upper text approve now r saves_list saves_pending m).0

  unfoldable pub perform_all : List Operation → Manager → Manager
  perform_all [] m = m
  perform_all (o ∷ more) m = perform_all more (perform_one o m)

module _ (trim upper : String → String) (limit : ℕ) where
  load_pending-IsConsistent :
      (now : ℕ) (f : FileRead PendingRequest) (m : Manager)
      → is_own f ≡ true
      → IsConsistent trim upper limit m
      → IsConsistent trim upper limit (load_pending trim upper now f m)
  unfolding load_pending
  load_pending-IsConsistent now unchanged m quiet h = h
  load_pending-IsConsistent now unreadable m quiet h = record {
    is_map = tt;
    own = λ p r e. ground (arith, e);
    known = λ c p e. ground (arith, e);
    apart = λ p r e. ground (arith, e);
    limited = h.limited;
    bounded = omega arith;
  }
  load_pending-IsConsistent now (contents requests) m quiet h = ground (arith, quiet)

  load_allowlist-IsConsistent :
      (f : FileRead AllowlistEntry) (m : Manager)
      → is_own f ≡ true
      → IsConsistent trim upper limit m
      → IsConsistent trim upper limit (load_allowlist trim upper f m)
  unfolding load_allowlist
  load_allowlist-IsConsistent unchanged m quiet h = h
  load_allowlist-IsConsistent unreadable m quiet h = record {
    is_map = h.is_map;
    own = h.own;
    known = h.known;
    apart = λ p r e. ground (arith, h.apart p r e);
    limited = h.limited;
    bounded = h.bounded;
  }
  load_allowlist-IsConsistent (contents entries) m quiet h = ground (arith, quiet)

  refresh-IsConsistent :
      (now : ℕ) (r : Refresh) (m : Manager)
      → is_quiet r ≡ true
      → IsConsistent trim upper limit m
      → IsConsistent trim upper limit (refresh_from_disk trim upper now r m)
  unfolding refresh_from_disk
  refresh-IsConsistent now r m quiet h =
      load_allowlist-IsConsistent r.allowlist_file (load_pending trim upper now r.pending_file m)
        (ground (arith, quiet))
        (load_pending-IsConsistent now r.pending_file m (ground (arith, quiet)) h)

  generate_unique_code-fresh :
      (tries : ℕ) (codes : List (Option String)) (m : Manager) (code : String)
      → generate_unique_code trim upper tries codes m ≡ ok code
      → lookup (upper code) m.pending_by_code ≡ none
  unfolding generate_unique_code
  generate_unique_code-fresh zero codes m code e = ground (arith, e)
  generate_unique_code-fresh (suc tries) [] m code e = ground (arith, e)
  generate_unique_code-fresh (suc tries) (none ∷ codes) m code e = ground (arith, e)
  generate_unique_code-fresh (suc tries) (some c ∷ codes) m code e =
      elim (Option-cases (lookup (upper c) m.pending_by_code)) [
        | inl fresh ↦
            let here : lookup (upper c) m.pending_by_code ≡ none = fresh in
            let same : ok c ≡ ok code = rw fresh at e in
            let equal : c ≡ code = ground (arith, same) in rw (← equal) fresh
        | inr (p, used) ↦ generate_unique_code-fresh tries codes m code (rw used at e)
      ]

  create-IsConsistent :
      (p : String) (now : ℕ) (saves : Bool) (code : Outcome String) (m : Manager)
      → ((c : String) → code ≡ ok c → lookup (upper c) m.pending_by_code ≡ none)
      → lookup p m.pending ≡ none
      → is_listed p m ≡ false
      → length m.pending < m.max_pending
      → IsConsistent trim upper limit m
      → IsConsistent trim upper limit (create trim upper p now saves code m).0
  create-IsConsistent p now saves (failed err) m fresh new outside room h = h
  create-IsConsistent p now saves (ok c) m fresh new outside room h =
      add_request-IsConsistent trim upper limit m h (new_request trim upper p c now m) new
        (fresh c refl) outside room

  ensure_clean-IsConsistent :
      (p : String) (now : ℕ) (codes : List (Option String)) (saves : Bool) (m : Manager)
      → IsConsistent trim upper limit m
      → IsConsistent trim upper limit (ensure_clean trim upper p now codes saves m).0
  ensure_clean-IsConsistent p now codes saves m h = elim (Bool-cases (is_listed p m)) [
    | inl listed ↦ rw listed h
    | inr outside ↦ rw outside (elim (Option-cases (lookup p m.pending)) [
      | inr (existing, e) ↦ rw e h
      | inl new ↦ rw new (elim (Bool-cases (leb m.max_pending (length m.pending))) [
        | inl full ↦ rw full h
        | inr room ↦ rw room (
            create-IsConsistent p now saves (generate_unique_code trim upper 5 codes m) m
              (generate_unique_code-fresh 5 codes m) new outside (ground (arith, room)) h)
      ])
    ])
  ]

  resolve_clean-IsConsistent :
      (code : String) (approve : Bool) (now : ℕ) (saves_list saves_pending : Bool) (m : Manager)
      → IsConsistent trim upper limit m
      → IsConsistent trim upper limit
          (resolve_clean trim upper code approve now saves_list saves_pending m).0
  resolve_clean-IsConsistent code approve now saves_list saves_pending m h =
      elim (Option-cases (lookup code m.pending_by_code)) [
        | inl unknown ↦ rw unknown h
        | inr (p, e) ↦
            let removed = remove-IsConsistent trim upper limit m h code p e in
            rw e (elim (Bool-cases approve) [
              | inr refused ↦ rw refused removed
              | inl approved ↦ rw approved (
                  allow-IsConsistent trim upper limit (remove trim upper p code m) removed p code
                    now (ground (arith, lookup-delete p p m.pending, str_eq_self p)))
            ])
      ]

  pub perform_one-IsConsistent :
      (o : Operation) (m : Manager)
      → is_quiet (refresh_of o) ≡ true
      → IsConsistent trim upper limit m
      → IsConsistent trim upper limit (perform_one trim upper o m)
  unfolding is_allowed list_allowlist list_pending ensure_pending resolve
  perform_one-IsConsistent (asked peer now r) m quiet h =
      elim (Bool-cases (str_eq (trim peer) "")) [
        | inl blank ↦ rw (perform_one, blank) h
        | inr given ↦ rw (perform_one, given) (refresh-IsConsistent now r m quiet h)
      ]
  perform_one-IsConsistent (listed_allowed now r) m quiet h = refresh-IsConsistent now r m quiet h
  perform_one-IsConsistent (listed_pending now r) m quiet h =
      let m' = refresh_from_disk trim upper now r m in
      cleanup_expired-IsConsistent trim upper limit now m' (refresh-IsConsistent now r m quiet h)
  perform_one-IsConsistent (ensured peer now r codes saves) m quiet h =
      let m' = refresh_from_disk trim upper now r m in
      elim (Bool-cases (str_eq (trim peer) "")) [
        | inl blank ↦ rw (perform_one, blank) h
        | inr given ↦
            rw (perform_one, given)
              (ensure_clean-IsConsistent (trim peer) now codes saves
                (cleanup_expired trim upper now m')
                (cleanup_expired-IsConsistent trim upper limit now m'
                  (refresh-IsConsistent now r m quiet h)))
      ]
  perform_one-IsConsistent (resolved text approve now r saves_list saves_pending) m quiet h =
      let m' = refresh_from_disk trim upper now r m in
      let code = upper (trim text) in
      elim (Bool-cases (str_eq code "")) [
        | inl blank ↦ rw (perform_one, blank) h
        | inr given ↦
            rw (perform_one, given)
              (resolve_clean-IsConsistent code approve now saves_list saves_pending
                (cleanup_expired trim upper now m')
                (cleanup_expired-IsConsistent trim upper limit now m'
                  (refresh-IsConsistent now r m quiet h)))
      ]

  perform_all-IsConsistent :
      (ops : List Operation) (m : Manager)
      → all (λ o. is_quiet (refresh_of o)) ops ≡ true
      → IsConsistent trim upper limit m
      → IsConsistent trim upper limit (perform_all trim upper ops m)
  unfolding perform_all
  perform_all-IsConsistent [] m quiet h = h
  perform_all-IsConsistent (o ∷ more) m quiet h =
      perform_all-IsConsistent more (perform_one trim upper o m) (ground (arith, quiet))
        (perform_one-IsConsistent o m (ground (arith, quiet)) h)

module _ (trim upper : String → String) (channel : String) (max_pending pending_ttl : ℕ)
    (peers : List String) where
  pub new_manager-IsConsistent :
      IsConsistent trim upper
        (if leb max_pending 0 then 3 else max_pending)
        (new_manager trim upper channel max_pending pending_ttl peers)
  unfolding new_manager
  new_manager-IsConsistent = record {
    is_map = tt;
    own = λ p r e. ground (arith, e);
    known = λ c p e. ground (arith, e);
    apart = λ p r e. ground (arith, e);
    limited = refl;
    bounded = omega arith;
  }

  -- Whatever requests for access, approvals, rejections, checks and listings run on a new manager, if no
  -- operation reads a file that another process has written: no more than the maximal number of
  -- requests are pending (3 when the option is 0); the peer of each is the one it is filed under,
  -- its code leads back to it, every code leads to a pending request with that code, and its peer
  -- is not allowlisted.
  pub perform_new-IsConsistent :
      (ops : List Operation)
      → all (λ o. is_quiet (refresh_of o)) ops ≡ true
      → IsConsistent trim upper (if leb max_pending 0 then 3 else max_pending) (
          perform_all trim upper ops (new_manager trim upper channel max_pending pending_ttl peers))
  perform_new-IsConsistent ops quiet =
      perform_all-IsConsistent trim upper (if leb max_pending 0 then 3 else max_pending) ops
        (new_manager trim upper channel max_pending pending_ttl peers) quiet
        new_manager-IsConsistent
