-- ===== src/Subagent/Handlers.antt =====
-- The handlers of the coordinator's events (On, Off and emit of pkg/subagent/coordinator.go). A
-- handler is a value of a type `H`; what it does is not modelled.
use ranyaa.Base.{String, Option, none, some, List, [], ◌∷◌, ◌++◌, Map, lookup, insert, delete}
use ranyaa.Subagent.{Emitted, run_registered, run_updated, lifecycle}

abbrev handlers_or_nil : {H : Type 0} → Option (List H) → List H
handlers_or_nil none = []
handlers_or_nil (some handlers) = handlers

abbrev event_name : {V : Type 0} → Emitted V → String
event_name (run_registered r) = "run:registered"
event_name (run_updated r) = "run:updated"
event_name (lifecycle event r) = "lifecycle:event"

module _ {H : Type 0} where
  abbrev pub on : String → H → Map (List H) → Map (List H)
  on event handler handlers =
      insert event (handlers_or_nil (lookup event handlers) ++ handler ∷ []) handlers

  abbrev pub off : String → Map (List H) → Map (List H)
  off event handlers = delete event handlers

  abbrev calls : {V : Type 0} → List H → Emitted V → List (H × Emitted V)
  calls [] event = []
  calls (handler ∷ more) event = (handler, event) ∷ calls more event

  -- the calls of handlers that an event leads to, in their order
  abbrev pub emit : {V : Type 0} → Map (List H) → Emitted V → List (H × Emitted V)
  emit handlers event = calls (handlers_or_nil (lookup (event_name event) handlers)) event
