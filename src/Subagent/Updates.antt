-- ===== src/Subagent/Updates.antt =====
-- The updates of a run, and the lifecycle events that make them.
use ranyaa.Base.{
  ℕ, String, Bool, Option, none, some, List, [], ◌∷◌, ◌++◌, if◌then◌else◌, lookup, insert,
}
use ranyaa.Subagent.{
  Value, text, other, RunStatus, running, completed, failed, aborted, is_terminal, EventType,
  start_event, end_event, error_event, abort_event, unknown_event, RunRecord, LifecycleEvent,
  Coordinator, Emitted, run_updated, lifecycle, Ending, done, no_run_id, run_not_found,
  unknown_event_type, panic, UpdateData, no_data, save_if, get_run, get_run_by_child_session,
}

-- the status of an event type
abbrev pub status_of : EventType → Option RunStatus
status_of start_event = some running
status_of end_event = some completed
status_of error_event = some failed
status_of abort_event = some aborted
status_of (unknown_event _) = none

module _ {V : Type 0} where
  abbrev pub result_or : Option (Value V) → Option (Value V) → Option (Value V)
  result_or none old = old
  result_or (some v) old = some v

  -- status, completion time and result
  abbrev pub set_status : RunStatus → UpdateData V → ℕ → RunRecord V → RunRecord V
  set_status status data_given now r = record r {
    status = status;
    completed_at = if is_terminal status then some now else r.completed_at;
    result = result_or data_given.result r.result;
  }

  abbrev pub put_run : String → RunRecord V → Coordinator V → Coordinator V
  put_run id r c = record c { active_runs = insert id r c.active_runs }

  abbrev pub finish_update :
      String → ℕ → Bool → RunRecord V → Coordinator V → Coordinator V × List (Emitted V) × Ending
  finish_update id now writes r c =
      (save_if c.auto_save now writes (put_run id r c), run_updated r ∷ [], done)

  -- errMsg.(string)
  abbrev pub set_error :
      Option (Value V)
      → String
      → ℕ
      → Bool
      → RunRecord V
      → Coordinator V
      → Coordinator V × List (Emitted V) × Ending
  set_error none id now writes r c = finish_update id now writes r c
  set_error (some (text t)) id now writes r c =
      finish_update id now writes (record r { error = t }) c
  set_error (some (other _)) id now writes r c = (put_run id r c, [], panic)

  abbrev pub update_record :
      Option (RunRecord V)
      → String
      → RunStatus
      → UpdateData V
      → ℕ
      → Bool
      → Coordinator V
      → Coordinator V × List (Emitted V) × Ending
  update_record none id status data_given now writes c = (c, [], run_not_found id)
  update_record (some r) id status data_given now writes c =
      set_error data_given.error id now writes (set_status status data_given now r) c

  unfoldable pub update_run_status :
      String
      → RunStatus
      → UpdateData V
      → ℕ
      → Bool
      → Coordinator V
      → Coordinator V × List (Emitted V) × Ending
  update_run_status id status data_given now writes c =
      update_record (lookup id c.active_runs) id status data_given now writes c

  abbrev result_data : Option (Value V) → UpdateData V
  result_data v = record { result = v; error = none }

  abbrev pub run_or : RunRecord V → Option (RunRecord V) → RunRecord V
  run_or r none = r
  run_or r (some now) = now

  -- the record is shared: the event carries it as the update has left it
  abbrev pub emit_lifecycle :
      LifecycleEvent V
      → RunRecord V
      → Coordinator V × List (Emitted V) × Ending
      → Coordinator V × List (Emitted V) × Ending
  emit_lifecycle event r (c, events, done) =
      (c, events ++ (lifecycle event (run_or r (get_run r.id c)) ∷ []), done)
  emit_lifecycle event r (c, events, no_run_id) = (c, events, no_run_id)
  emit_lifecycle event r (c, events, run_not_found id) = (c, events, run_not_found id)
  emit_lifecycle event r (c, events, unknown_event_type t) = (c, events, unknown_event_type t)
  emit_lifecycle event r (c, events, panic) = (c, events, panic)

  module _ (print : V → String) where
    -- fmt.Sprintf("%v", event.Data)
    abbrev pub printed : Value V → String
    printed (text t) = t
    printed (other v) = print v

    abbrev pub error_data : Option (Value V) → UpdateData V
    error_data none = no_data
    error_data (some v) = record { result = none; error = some (text (printed v)) }

    abbrev pub data_of : EventType → Option (Value V) → UpdateData V
    data_of start_event v = no_data
    data_of end_event v = result_data v
    data_of error_event v = error_data v
    data_of abort_event v = no_data
    data_of (unknown_event _) v = no_data

    abbrev pub handle_status :
        Option RunStatus
        → LifecycleEvent V
        → ℕ
        → Bool
        → RunRecord V
        → Coordinator V
        → Coordinator V × List (Emitted V) × Ending
    handle_status none event now writes r c = (c, [], unknown_event_type event.event_type)
    handle_status (some status) event now writes r c =
        emit_lifecycle event r
          (update_run_status r.id status (data_of event.event_type event.payload) now writes c)

    abbrev pub handle_found :
        Option (RunRecord V)
        → LifecycleEvent V
        → ℕ
        → Bool
        → Coordinator V
        → Coordinator V × List (Emitted V) × Ending
    handle_found none event now writes c = (c, [], done)
    handle_found (some r) event now writes c =
        handle_status (status_of event.event_type) event now writes r c

    -- an event of an unknown session is dropped
    unfoldable pub handle_lifecycle_event :
        LifecycleEvent V → ℕ → Bool → Coordinator V → Coordinator V × List (Emitted V) × Ending
    handle_lifecycle_event event now writes c =
        handle_found (get_run_by_child_session event.session_key c) event now writes c
