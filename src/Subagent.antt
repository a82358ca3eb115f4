-- ===== src/Subagent.antt =====
-- pkg/subagent: the coordinator of subagent runs (coordinator.go, types.go). `time.Now().UnixMilli()`
-- and gonanoid's id are arguments, none for an error of gonanoid. The handlers that get an event are
-- not modelled: an operation gives the events it emits, in order. The registry on the disk is the
-- field `saved`, none as long as no file is there; `writes` says whether a save goes through, which
-- no caller is told.
pub mod Handlers
pub mod Updates
pub mod Queries
pub mod Kept
pub mod Cleanup
pub mod Events
pub mod Descendants
mod Examples
use ranyaa.Base.{
  ℕ, zero, suc, ◌+◌, ◌-◌, ◌*◌, String, ◌≡◌, Bool, true, false, not, ◌&&◌, ◌||◌, Option, none, some,
  List, [], ◌∷◌, ◌++◌, if◌then◌else◌, ltb, leb, Map, lookup, insert, delete, length, str_eq, tally,
}

-- an interface{} value that is not nil: a string or something else
pub data Value (V : Type 0) : Type 0 where
  text : String → Value V
  other : V → Value V

pub data RunStatus : Type 0 where
  pending : RunStatus
  running : RunStatus
  completed : RunStatus
  failed : RunStatus
  aborted : RunStatus
  unlisted : String → RunStatus

abbrev pub is_terminal : RunStatus → Bool
is_terminal pending = false
is_terminal running = false
is_terminal completed = true
is_terminal failed = true
is_terminal aborted = true
is_terminal (unlisted _) = false

abbrev pub is_active : RunStatus → Bool
is_active pending = true
is_active running = true
is_active completed = false
is_active failed = false
is_active aborted = false
is_active (unlisted _) = false

pub data EventType : Type 0 where
  start_event : EventType
  end_event : EventType
  error_event : EventType
  abort_event : EventType
  unknown_event : String → EventType

pub record RunParams (V : Type 0) : Type 0 where
  pub parent_session_key : String
  pub child_session_key : String
  pub prompt : String
  pub metadata : Map (Value V)

pub record RunRecord (V : Type 0) : Type 0 where
  pub id : String
  pub parent_session_key : String
  pub child_session_key : String
  pub prompt : String
  pub status : RunStatus
  pub started_at : ℕ
  pub completed_at : Option ℕ
  pub result : Option (Value V)
  pub error : String
  pub metadata : Map (Value V)

pub record LifecycleEvent (V : Type 0) : Type 0 where
  pub event_type : EventType
  pub session_key : String
  pub timestamp : ℕ
  pub payload : Option (Value V)

pub record Registry (V : Type 0) : Type 0 where
  pub runs : List (RunRecord V)
  pub last_updated : ℕ

pub record Coordinator (V : Type 0) : Type 0 where
  pub active_runs : Map (RunRecord V)
  pub auto_save : Bool
  pub saved : Option (Registry V)

pub record Stats : Type 0 where
  pub total_runs : ℕ
  pub active : ℕ
  pub completed_runs : ℕ
  pub failed_runs : ℕ
  pub aborted_runs : ℕ

pub data Emitted (V : Type 0) : Type 0 where
  run_registered : RunRecord V → Emitted V
  run_updated : RunRecord V → Emitted V
  lifecycle : LifecycleEvent V → RunRecord V → Emitted V

-- what an operation ends with: an assertion to a string that fails is a panic
pub data Ending : Type 0 where
  done : Ending
  no_run_id : Ending
  run_not_found : String → Ending
  unknown_event_type : EventType → Ending
  panic : Ending

-- the entries "result" and "error" of UpdateRunStatus's map
pub record UpdateData (V : Type 0) : Type 0 where
  pub result : Option (Value V)
  pub error : Option (Value V)

abbrev pub no_data : {V : Type 0} → UpdateData V
no_data = record { result = none; error = none }

module _ {V : Type 0} where
  abbrev pub values : Map (RunRecord V) → List (RunRecord V)
  values [] = []
  values ((k, r) ∷ m) = r ∷ values m

  abbrev pub save_registry : ℕ → Bool → Coordinator V → Coordinator V
  save_registry now writes c =
      if writes
      then record c { saved = some (record { runs = values c.active_runs; last_updated = now }) }
      else c

  abbrev pub save_if : Bool → ℕ → Bool → Coordinator V → Coordinator V
  save_if wanted now writes c = if wanted then save_registry now writes c else c

  abbrev pub load_runs : List (RunRecord V) → Map (RunRecord V) → Map (RunRecord V)
  load_runs [] m = m
  load_runs (r ∷ more) m = load_runs more (insert r.id r m)

  -- Initialize: none when the file is missing, unreadable or not JSON
  abbrev pub initialize : Option (Registry V) → Coordinator V → Coordinator V
  initialize none c = c
  initialize (some registry) c = record c { active_runs = load_runs registry.runs c.active_runs }

  abbrev pub new_record : String → RunParams V → ℕ → RunRecord V
  new_record id params now = record {
    id = id;
    parent_session_key = params.parent_session_key;
    child_session_key = params.child_session_key;
    prompt = params.prompt;
    status = pending;
    started_at = now;
    completed_at = none;
    result = none;
    error = "";
    metadata = params.metadata;
  }

  unfoldable pub register_run :
      Option String
      → RunParams V
      → ℕ
      → Bool
      → Coordinator V
      → Coordinator V × List (Emitted V) × Ending
  register_run none params now writes c = (c, [], no_run_id)
  register_run (some id) params now writes c =
      let r = new_record id params now in
      (
        save_if c.auto_save now writes (record c { active_runs = insert id r c.active_runs }),
        run_registered r ∷ [],
        done,
      )

  abbrev pub get_run : String → Coordinator V → Option (RunRecord V)
  get_run id c = lookup id c.active_runs

  -- the first run of a child session in the map's order
  abbrev pub find_child : String → Map (RunRecord V) → Option (RunRecord V)
  find_child key [] = none
  find_child key ((k, r) ∷ m) =
      let rest = find_child key m in if str_eq r.child_session_key key then some r else rest

  abbrev pub get_run_by_child_session : String → Coordinator V → Option (RunRecord V)
  get_run_by_child_session key c = find_child key c.active_runs
