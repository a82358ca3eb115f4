-- ===== src/Pairing/Requests.antt =====
-- A request of a peer: its code, its creation, and the decision on it.
use Prim.Native.String.{◌++◌}
use ranyaa.Base.{
  ℕ, zero, suc, ◌+◌, String, Bool, true, false, not, ◌&&◌, Option, none, some, List, [], ◌∷◌,
  if◌then◌else◌, leb, lookup, insert, delete, length, str_eq,
}
use ranyaa.Pairing.{
  PendingRequest, Manager, peer_id_required, code_required, already_allowlisted,
  pending_limit_reached, request_not_found, no_random_bytes, no_unique_code, not_saved, Outcome, ok,
  failed, Refresh, is_present, cleanup_expired, refresh_from_disk, is_listed,
}

module _ (trim upper : String → String) where
  -- at most so many tries
  unfoldable pub generate_unique_code : ℕ → List (Option String) → Manager → Outcome String
  generate_unique_code zero codes m = failed no_unique_code
  generate_unique_code (suc tries) [] m = failed no_random_bytes
  generate_unique_code (suc tries) (none ∷ codes) m = failed no_random_bytes
  generate_unique_code (suc tries) (some code ∷ codes) m =
      let again = generate_unique_code tries codes m in
      if is_present (lookup (upper code) m.pending_by_code) then again else ok code

  abbrev pub new_request : String → String → ℕ → Manager → PendingRequest
  new_request peer_id code now m = record {
    channel = m.channel;
    peer_id = peer_id;
    code = code;
    requested_at = now;
    expires_at = now + m.pending_ttl;
  }

  abbrev pub add_request : PendingRequest → Manager → Manager
  add_request req m = record m {
    pending = insert req.peer_id req m.pending;
    pending_by_code = insert (upper req.code) req.peer_id m.pending_by_code;
  }

  -- A request that is not saved stays in the maps.
  abbrev pub create :
      String → ℕ → Bool → Outcome String → Manager → Manager × Outcome (PendingRequest × Bool)
  create peer_id now saves (failed err) m = (m, failed err)
  create peer_id now saves (ok code) m =
      let req = new_request peer_id code now m in
      (add_request req m, if saves then ok (req, true) else failed not_saved)

  abbrev pub ensure_known :
      String
      → ℕ
      → List (Option String)
      → Bool
      → Option PendingRequest
      → Manager
      → Manager × Outcome (PendingRequest × Bool)
  ensure_known peer_id now codes saves (some existing) m = (m, ok (existing, false))
  ensure_known peer_id now codes saves none m =
      if leb m.max_pending (length m.pending)
      then (m, failed pending_limit_reached)
      else create peer_id now saves (generate_unique_code 5 codes m) m

  abbrev pub ensure_clean :
      String → ℕ → List (Option String) → Bool → Manager → Manager × Outcome (PendingRequest × Bool)
  ensure_clean peer_id now codes saves m =
      if is_listed peer_id m
      then (m, failed already_allowlisted)
      else ensure_known peer_id now codes saves (lookup peer_id m.pending) m

  unfoldable pub ensure_pending :
      String
      → ℕ
      → Refresh
      → List (Option String)
      → Bool
      → Manager
      → Manager × Outcome (PendingRequest × Bool)
  unfolding refresh_from_disk cleanup_expired generate_unique_code
  ensure_pending peer now r codes saves m =
      let peer_id = trim peer in
      if str_eq peer_id ""
      then (m, failed peer_id_required)
      else ensure_clean peer_id now codes saves
          (cleanup_expired trim upper now (refresh_from_disk trim upper now r m))

  abbrev pub allow : String → String → ℕ → Manager → Manager
  allow peer_id code now m = record m {
    allowlist =
        insert peer_id
          (record { peer_id = peer_id; added_at = now; reason = "approved via code " ++ code })
          m.allowlist;
  }

  abbrev pub remove : String → String → Manager → Manager
  remove peer_id code m = record m {
    pending = delete peer_id m.pending;
    pending_by_code = delete code m.pending_by_code;
  }

  abbrev pub blank_request : PendingRequest
  blank_request = record { channel = ""; peer_id = ""; code = ""; requested_at = 0; expires_at = 0 }

  -- request := m.pending[peerID]
  abbrev pub request_or_blank : Option PendingRequest → PendingRequest
  request_or_blank none = blank_request
  request_or_blank (some req) = req

  -- what is done in memory stays done when a file is not written
  abbrev pub resolve_found :
      Option String → String → Bool → ℕ → Bool → Bool → Manager → Manager × Outcome PendingRequest
  resolve_found none code approve now saves_list saves_pending m = (m, failed request_not_found)
  resolve_found (some peer_id) code approve now saves_list saves_pending m =
      let removed = remove peer_id code m in
      (
        if approve then allow peer_id code now removed else removed,
        if approve && not saves_list
            then failed not_saved
            else if saves_pending
            then ok (request_or_blank (lookup peer_id m.pending))
            else failed not_saved,
      )

  abbrev pub resolve_clean :
      String → Bool → ℕ → Bool → Bool → Manager → Manager × Outcome PendingRequest
  resolve_clean code approve now saves_list saves_pending m =
      resolve_found (lookup code m.pending_by_code) code approve now saves_list saves_pending m

  -- Approve and Reject
  unfoldable pub resolve :
      String → Bool → ℕ → Refresh → Bool → Bool → Manager → Manager × Outcome PendingRequest
  unfolding refresh_from_disk cleanup_expired
  resolve text approve now r saves_list saves_pending m =
      let code = upper (trim text) in
      if str_eq code ""
      then (m, failed code_required)
      else resolve_clean code approve now saves_list saves_pending
          (cleanup_expired trim upper now (refresh_from_disk trim upper now r m))
