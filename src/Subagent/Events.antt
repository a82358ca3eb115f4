-- ===== src/Subagent/Events.antt =====
-- What a lifecycle event does to the run of its session, and to no other.
use ranyaa.Base.{
  ℕ, String, ◌≡◌, refl, ap, ◌∙◌, inl, inr, Bool, true, false, Option, none, some, List, [], ◌∷◌,
  if◌then◌else◌, arith, Map, lookup, str_eq, str_eq_self, lookup-insert, lookup-insert_self,
  lookup-tail, IsMap, Bool-cases, Option-cases,
}
use ranyaa.Subagent.{
  Value, RunStatus, running, completed, failed, aborted, RunRecord, LifecycleEvent, EventType,
  start_event, end_event, error_event, abort_event, unknown_event, Coordinator, Emitted,
  run_updated, lifecycle, Ending, done, unknown_event_type, get_run, get_run_by_child_session,
  find_child,
}
use ranyaa.Subagent.Updates.{
  set_status, put_run, finish_update, set_error, update_run_status, result_or, emit_lifecycle,
  handle_lifecycle_event, status_of, data_of, printed,
}
use ranyaa.Subagent.Kept.{IsKept, active_runs-save_if}

abbrev pub is_known : EventType → Bool
is_known start_event = true
is_known end_event = true
is_known error_event = true
is_known abort_event = true
is_known (unknown_event _) = false

is_known-none : (t : EventType) → status_of t ≡ none → is_known t ≡ false
is_known-none start_event e = ground (arith, e)
is_known-none end_event e = ground (arith, e)
is_known-none error_event e = ground (arith, e)
is_known-none abort_event e = ground (arith, e)
is_known-none (unknown_event t) e = refl

is_known-some : (t : EventType) (s : RunStatus) → status_of t ≡ some s → is_known t ≡ true
is_known-some start_event s e = refl
is_known-some end_event s e = refl
is_known-some error_event s e = refl
is_known-some abort_event s e = refl
is_known-some (unknown_event t) s e = ground (arith, e)

module _ {V : Type 0} where
  find_child-held :
      (key : String) (r : RunRecord V) (m : Map (RunRecord V))
      → IsMap m
      → find_child key m ≡ some r
      → (id : String) × (lookup id m ≡ some r)
  find_child-held key r [] map e = ground (arith, e)
  find_child-held key r ((k, s) ∷ m) map e = elim (Bool-cases (str_eq s.child_session_key key)) [
    | inl here ↦ let same : some s ≡ some r = rw here at e in (k, rw (str_eq_self k) same)
    | inr apart ↦
        let deeper : find_child key m ≡ some r = rw apart at e in
        let (id, found) = find_child-held key r m map.1 deeper in
        (id, (lookup-tail k id s r m map.0 found).1)
  ]

  -- an event's outcome: the run is now another, both events carry it, and no other run changes
  abbrev pub IsHandled :
      LifecycleEvent V
      → RunRecord V
      → RunRecord V
      → Coordinator V
      → Coordinator V × List (Emitted V) × Ending
      → Type 0
  IsHandled event r r' c (after, events, ending) =
      (ending ≡ done)
      × (events ≡ (run_updated r' ∷ lifecycle event r' ∷ []))
      × ((id : String) → get_run id after ≡ (if str_eq r.id id then some r' else get_run id c))

  finish_update-IsHandled :
      (event : LifecycleEvent V) (now : ℕ) (writes : Bool) (r r' : RunRecord V) (c : Coordinator V)
      → IsHandled event r r' c (emit_lifecycle event r (finish_update r.id now writes r' c))
  finish_update-IsHandled event now writes r r' c =
      rw
        (
          active_runs-save_if c.auto_save now writes (put_run r.id r' c),
          lookup-insert_self r.id r' c.active_runs,
        )
        (refl, refl, λ id. lookup-insert r.id id r' c.active_runs)

module _ {V : Type 0} (print : V → String) where
  abbrev message_or : Option (Value V) → String → String
  message_or none old = old
  message_or (some v) old = printed print v

  -- the run after an event
  abbrev pub after_event : EventType → Option (Value V) → ℕ → RunRecord V → RunRecord V
  after_event start_event payload now r = record r { status = running }
  after_event end_event payload now r = record r {
    status = completed;
    completed_at = some now;
    result = result_or payload r.result;
  }
  after_event error_event payload now r = record r {
    status = failed;
    completed_at = some now;
    error = message_or payload r.error;
  }
  after_event abort_event payload now r = record r { status = aborted; completed_at = some now }
  after_event (unknown_event _) payload now r = r

  update_type-IsHandled :
      (event : LifecycleEvent V) (t : EventType) (payload : Option (Value V)) (status : RunStatus)
      (now : ℕ) (writes : Bool) (r : RunRecord V) (c : Coordinator V)
      → status_of t ≡ some status
      → let given = data_of print t payload in
        IsHandled event r (after_event t payload now r) c (
          emit_lifecycle event r
            (set_error given.error r.id now writes (set_status status given now r) c))
  update_type-IsHandled event start_event payload status now writes r c known =
      let same : running ≡ status = ground (arith, known) in
      rw (← same) (finish_update-IsHandled event now writes r (record r { status = running }) c)
  update_type-IsHandled event end_event payload status now writes r c known =
      let same : completed ≡ status = ground (arith, known) in
      rw (← same)
        (finish_update-IsHandled event now writes r (after_event end_event payload now r) c)
  update_type-IsHandled event error_event none status now writes r c known =
      let same : failed ≡ status = ground (arith, known) in
      rw (← same)
        (finish_update-IsHandled event now writes r (after_event error_event none now r) c)
  update_type-IsHandled event error_event (some v) status now writes r c known =
      let same : failed ≡ status = ground (arith, known) in
      rw (← same)
        (finish_update-IsHandled event now writes r (after_event error_event (some v) now r) c)
  update_type-IsHandled event abort_event payload status now writes r c known =
      let same : aborted ≡ status = ground (arith, known) in
      rw (← same)
        (finish_update-IsHandled event now writes r (after_event abort_event payload now r) c)
  update_type-IsHandled event (unknown_event t) payload status now writes r c known =
      ground (arith, known)

  -- what an event does when its session has no run, and when it has one
  abbrev pub IsAnswered :
      LifecycleEvent V
      → ℕ
      → Coordinator V
      → Option (RunRecord V)
      → Coordinator V × List (Emitted V) × Ending
      → Type 0
  IsAnswered event now c none result = result ≡ (c, [], done)
  IsAnswered event now c (some r) result =
      if is_known event.event_type
      then IsHandled event r (after_event event.event_type event.payload now r) c result
      else (result ≡ (c, [], unknown_event_type event.event_type))

  -- In a coordinator whose map of runs is well kept, an event of a session that has no run changes
  -- nothing and is no error. An event of an unknown type for a session with a run changes nothing
  -- and is refused. Every other event changes the run that is found for its session as its type
  -- says (`after_event`), with the time of completion when it ends, changes no other run, succeeds,
  -- and emits the update and the event with the changed run, in this order.
  pub handle_lifecycle_event_lem :
      (event : LifecycleEvent V) (now : ℕ) (writes : Bool) (c : Coordinator V)
      → IsKept c.active_runs
      → IsAnswered event now c
          (get_run_by_child_session event.session_key c)
          (handle_lifecycle_event print event now writes c)
  unfolding handle_lifecycle_event update_run_status
  handle_lifecycle_event_lem event now writes c h =
      elim (Option-cases (get_run_by_child_session event.session_key c)) [
        | inl missing ↦ rw missing refl
        | inr (r, found) ↦
            let (id, there) = find_child-held event.session_key r c.active_runs h.is_map found in
            let held : lookup r.id c.active_runs ≡ some r =
              ap (λ i. lookup i c.active_runs) (h.entries id r there).0 ∙ there in
            rw found (elim (Option-cases (status_of event.event_type)) [
              | inl unknown ↦ rw (unknown, is_known-none event.event_type unknown) refl
              | inr (status, known) ↦
                  rw (known, is_known-some event.event_type status known, held)
                    (update_type-IsHandled event event.event_type event.payload status now writes r
                      c known)
            ])
      ]
