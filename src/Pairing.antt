-- ===== src/Pairing.antt =====
-- pkg/pairing/manager.go: requests of unknown peers to be let in, and the allowlist. Each operation
-- runs under the manager's lock. What the disk and the random source do is an argument: `Refresh` is
-- what `refreshFromDiskLocked` finds, `saves` whether a file is written, and `codes` what
-- `generateCode` gives, none for an error. `trim` and `upper` are strings.TrimSpace and
-- strings.ToUpper. A set of peers is a list.
pub mod Requests
pub mod Consistent
pub mod Runs
pub mod Lifecycle
mod Examples
use ranyaa.Base.{
  ℕ, zero, suc, ◌+◌, ◌*◌, String, ◌≡◌, Bool, true, false, not, ◌&&◌, ◌||◌, Option, none, some, List,
  [], ◌∷◌, if◌then◌else◌, ltb, leb, Map, lookup, insert, delete, length, has, str_eq,
}

pub record PendingRequest : Type 0 where
  pub channel : String
  pub peer_id : String
  pub code : String
  pub requested_at : ℕ
  pub expires_at : ℕ

pub record AllowlistEntry : Type 0 where
  pub peer_id : String
  pub added_at : ℕ
  pub reason : String

pub record Manager : Type 0 where
  pub channel : String
  pub max_pending : ℕ
  pub pending_ttl : ℕ
  pub pending : Map PendingRequest
  pub pending_by_code : Map String
  pub allowlist : Map AllowlistEntry
  pub bootstrap : List String

pub data PairingError : Type 0 where
  peer_id_required : PairingError
  code_required : PairingError
  already_allowlisted : PairingError
  pending_limit_reached : PairingError
  request_not_found : PairingError
  no_random_bytes : PairingError
  no_unique_code : PairingError
  not_saved : PairingError

pub data Outcome {ℓ} (A : Type ℓ) : Type ℓ where
  ok : A → Outcome A
  failed : PairingError → Outcome A

-- A file of the manager: not changed since it was last read, changed and not to be read, or read.
pub data FileRead (A : Type 0) : Type 0 where
  unchanged : FileRead A
  unreadable : FileRead A
  contents : List A → FileRead A

pub record Refresh : Type 0 where
  pub pending_file : FileRead PendingRequest
  pub allowlist_file : FileRead AllowlistEntry

abbrev pub no_change : Refresh
no_change = record { pending_file = unchanged; allowlist_file = unchanged }

abbrev is_unreadable : {A : Type 0} → FileRead A → Bool
is_unreadable unchanged = false
is_unreadable unreadable = true
is_unreadable (contents _) = false

abbrev pub values {ℓ} : {V : Type ℓ} → Map V → List V
values [] = []
values ((k, v) ∷ m) = v ∷ values m

abbrev pub is_present {ℓ} : {A : Type ℓ} → Option A → Bool
is_present none = false
is_present (some _) = true

-- m.bootstrap[peerID], or an entry of the allowlist
abbrev pub is_listed : String → Manager → Bool
is_listed peer_id m = has peer_id m.bootstrap || is_present (lookup peer_id m.allowlist)

module _ (trim upper : String → String) where
  -- the bootstrap peers of the options
  unfoldable pub bootstrap_peers : List String → List String
  bootstrap_peers [] = []
  bootstrap_peers (peer ∷ more) =
      let rest = bootstrap_peers more in if str_eq (trim peer) "" then rest else trim peer ∷ rest

  -- NewManager without files; 0 stands for an option that is not given
  unfoldable pub new_manager : String → ℕ → ℕ → List String → Manager
  unfolding bootstrap_peers
  new_manager channel max_pending pending_ttl peers = record {
    channel = channel;
    max_pending = if leb max_pending 0 then 3 else max_pending;
    pending_ttl = if leb pending_ttl 0 then 60 * 60 * 1000000000 else pending_ttl;
    pending = [];
    pending_by_code = [];
    allowlist = [];
    bootstrap = bootstrap_peers peers;
  }

  -- delete(m.pending, peerID); delete(m.pendingByCode, strings.ToUpper(req.Code))
  abbrev pub forget : String → PendingRequest → Manager → Manager
  forget peer_id req m = record m {
    pending = delete peer_id m.pending;
    pending_by_code = delete (upper req.code) m.pending_by_code;
  }

  unfoldable pub cleanup_each : ℕ → Map PendingRequest → Manager → Manager
  cleanup_each now [] m = m
  cleanup_each now ((peer_id, req) ∷ more) m =
      cleanup_each now more (if ltb req.expires_at now then forget peer_id req m else m)

  -- a failed save is not reported
  unfoldable pub cleanup_expired : ℕ → Manager → Manager
  unfolding cleanup_each
  cleanup_expired now m = cleanup_each now m.pending m

  unfoldable pub load_requests : List PendingRequest → Manager → Manager
  load_requests [] m = m
  load_requests (req ∷ more) m =
      let peer_id = trim req.peer_id in
      let code = upper (trim req.code) in
      load_requests more (
        if str_eq peer_id "" || str_eq code "" then m else record m {
          pending = insert peer_id req m.pending;
          pending_by_code = insert code peer_id m.pending_by_code;
        })

  unfoldable pub load_entries : List AllowlistEntry → Manager → Manager
  load_entries [] m = m
  load_entries (entry ∷ more) m =
      let peer_id = trim entry.peer_id in
      load_entries more
        (if str_eq peer_id "" then m else record m { allowlist = insert peer_id entry m.allowlist })

  -- loadPending empties the maps first
  unfoldable pub load_pending : ℕ → FileRead PendingRequest → Manager → Manager
  unfolding load_requests cleanup_expired
  load_pending now unchanged m = m
  load_pending now unreadable m = record m { pending = []; pending_by_code = [] }
  load_pending now (contents requests) m =
      cleanup_expired now (load_requests requests (record m { pending = []; pending_by_code = [] }))

  unfoldable pub load_allowlist : FileRead AllowlistEntry → Manager → Manager
  unfolding load_entries
  load_allowlist unchanged m = m
  load_allowlist unreadable m = record m { allowlist = [] }
  load_allowlist (contents entries) m = load_entries entries (record m { allowlist = [] })

  unfoldable pub refresh_from_disk : ℕ → Refresh → Manager → Manager
  unfolding load_pending load_allowlist
  refresh_from_disk now r m = load_allowlist r.allowlist_file (load_pending now r.pending_file m)

  unfoldable pub is_allowed : String → ℕ → Refresh → Manager → Manager × Bool
  unfolding refresh_from_disk
  is_allowed peer now r m =
      let peer_id = trim peer in
      let m' = refresh_from_disk now r m in
      if str_eq peer_id "" then (m, false) else (m', is_listed peer_id m')

  -- ListAllowlist and ListPending; `sorted` is the sort.Slice by time of each
  unfoldable pub list_allowlist :
      (List AllowlistEntry → List AllowlistEntry)
      → ℕ
      → Refresh
      → Manager
      → Manager × List AllowlistEntry
  unfolding refresh_from_disk
  list_allowlist sorted now r m =
      let m' = refresh_from_disk now r m in (m', sorted (values m'.allowlist))

  unfoldable pub list_pending :
      (List PendingRequest → List PendingRequest)
      → ℕ
      → Refresh
      → Manager
      → Manager × List PendingRequest
  unfolding refresh_from_disk cleanup_expired
  list_pending sorted now r m =
      let m' = cleanup_expired now (refresh_from_disk now r m) in (m', sorted (values m'.pending))

  -- NewManager: none for an error, of the channel or of a file
  unfoldable pub open_manager : String → ℕ → ℕ → List String → ℕ → Refresh → Option Manager
  unfolding new_manager load_allowlist load_pending
  open_manager channel max_pending pending_ttl peers now r =
      let m = new_manager channel max_pending pending_ttl peers in
      if str_eq (trim channel) "" || is_unreadable r.allowlist_file || is_unreadable r.pending_file
      then none
      else some (load_pending now r.pending_file (load_allowlist r.allowlist_file m))
