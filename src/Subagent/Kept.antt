-- ===== src/Subagent/Kept.antt =====
-- What every operation of the coordinator keeps.
use ranyaa.Base.{
  ℕ, ◌-◌, String, ◌≡◌, refl, ◌∙◌, inl, inr, Bool, true, false, not, ◌&&◌, ◌||◌, Option, none, some,
  List, [], ◌∷◌, arith, ltb, Map, lookup, insert, delete, IsMap, insert-IsMap, delete-IsMap,
  lookup-delete-some, lookup-insert-some, Bool-cases, Option-cases, all,
}
use ranyaa.Subagent.{
  Value, text, other, RunStatus, is_terminal, RunParams, RunRecord, Registry, load_runs, initialize,
  LifecycleEvent, Coordinator, Emitted, Ending, done, no_run_id, run_not_found, unknown_event_type,
  panic, UpdateData, save_if, new_record, register_run, get_run_by_child_session,
}
use ranyaa.Subagent.Queries.{is_old, cleanup_each, cleanup, retention_or_default}
use ranyaa.Subagent.Updates.{
  set_status, put_run, set_error, update_run_status, emit_lifecycle, handle_lifecycle_event,
  status_of, data_of,
}

-- a time of completion stands in every run that has ended
abbrev has_time : Option ℕ → Bool
has_time none = false
has_time (some _) = true

abbrev pub is_dated : {V : Type 0} → RunRecord V → Bool
is_dated r = not (is_terminal r.status) || has_time r.completed_at

pub data Operation (V : Type 0) : Type 0 where
  registered : Option String → RunParams V → ℕ → Bool → Operation V
  updated : String → RunStatus → UpdateData V → ℕ → Bool → Operation V
  handled : LifecycleEvent V → ℕ → Bool → Operation V
  cleaned : ℕ → ℕ → Bool → Operation V

module _ {V : Type 0} where
  pub record IsKept (m : Map (RunRecord V)) : Type 0 where
    pub is_map : IsMap m
    pub entries :
        (id : String) (r : RunRecord V) → lookup id m ≡ some r → (r.id ≡ id) × (is_dated r ≡ true)

  insert-IsKept :
      (m : Map (RunRecord V)) (id : String) (r : RunRecord V)
      → r.id ≡ id
      → is_dated r ≡ true
      → IsKept m
      → IsKept (insert id r m)
  insert-IsKept m id r named dated h = record {
    is_map = insert-IsMap id r m h.is_map;
    entries = λ j s e. elim (lookup-insert-some id j r s m e) [
      | inl (here, same) ↦ rw (← same) (named ∙ here, dated)
      | inr (differ, old) ↦ h.entries j s old
    ];
  }

  delete-IsKept : (id : String) (m : Map (RunRecord V)) → IsKept m → IsKept (delete id m)
  delete-IsKept id m h = record {
    is_map = delete-IsMap id m h.is_map;
    entries = λ j r e. h.entries j r (lookup-delete-some id j r m e).1;
  }

  pub active_runs-save_if :
      (wanted : Bool) (now : ℕ) (writes : Bool) (c : Coordinator V)
      → (save_if wanted now writes c).active_runs ≡ c.active_runs
  active_runs-save_if wanted now writes c = ground (arith, Bool-cases wanted, Bool-cases writes)

  set_error-IsKept :
      (given : Option (Value V)) (id : String) (now : ℕ) (writes : Bool) (r : RunRecord V)
      (c : Coordinator V)
      → r.id ≡ id
      → is_dated r ≡ true
      → IsKept c.active_runs
      → IsKept (set_error given id now writes r c).0.active_runs
  set_error-IsKept none id now writes r c named dated h =
      rw (active_runs-save_if c.auto_save now writes (put_run id r c))
        (insert-IsKept c.active_runs id r named dated h)
  set_error-IsKept (some (text t)) id now writes r c named dated h =
      let r' = record r { error = t } in
      rw (active_runs-save_if c.auto_save now writes (put_run id r' c))
        (insert-IsKept c.active_runs id r' named dated h)
  set_error-IsKept (some (other v)) id now writes r c named dated h =
      insert-IsKept c.active_runs id r named dated h

  is_dated-set_status :
      (status : RunStatus) (given : UpdateData V) (now : ℕ) (r : RunRecord V)
      → is_dated r ≡ true
      → is_dated (set_status status given now r) ≡ true
  is_dated-set_status status given now r dated = elim (Bool-cases (is_terminal status)) [
    | inl ended ↦ rw ended refl
    | inr going ↦ rw going refl
  ]

  update_run_status-IsKept :
      (id : String) (status : RunStatus) (given : UpdateData V) (now : ℕ) (writes : Bool)
      (c : Coordinator V)
      → IsKept c.active_runs
      → IsKept (update_run_status id status given now writes c).0.active_runs
  unfolding update_run_status
  update_run_status-IsKept id status given now writes c h =
      elim (Option-cases (lookup id c.active_runs)) [
        | inl missing ↦ rw missing h
        | inr (r, e) ↦
            let (named, dated) = h.entries id r e in
            rw e (
              set_error-IsKept given.error id now writes (set_status status given now r) c named
                (is_dated-set_status status given now r dated) h)
      ]

  cleanup_each-IsKept :
      (cutoff : ℕ) (part m : Map (RunRecord V)) → IsKept m → IsKept (cleanup_each cutoff part m).0
  unfolding cleanup_each
  cleanup_each-IsKept cutoff [] m h = h
  cleanup_each-IsKept cutoff ((k, r) ∷ more) m h = elim (Bool-cases (is_old cutoff r)) [
    | inl old ↦
        rw (cleanup_each, old) (cleanup_each-IsKept cutoff more (delete k m) (delete-IsKept k m h))
    | inr kept ↦ rw (cleanup_each, kept) (cleanup_each-IsKept cutoff more m h)
  ]

  active_runs-emit_lifecycle :
      (event : LifecycleEvent V) (r : RunRecord V) (c : Coordinator V) (events : List (Emitted V))
      (ending : Ending)
      → (emit_lifecycle event r (c, events, ending)).0.active_runs ≡ c.active_runs
  active_runs-emit_lifecycle event r c events done = refl
  active_runs-emit_lifecycle event r c events no_run_id = refl
  active_runs-emit_lifecycle event r c events (run_not_found id) = refl
  active_runs-emit_lifecycle event r c events (unknown_event_type t) = refl
  active_runs-emit_lifecycle event r c events panic = refl

  load_runs-IsKept :
      (runs : List (RunRecord V)) (m : Map (RunRecord V))
      → all is_dated runs ≡ true
      → IsKept m
      → IsKept (load_runs runs m)
  load_runs-IsKept [] m dated h = h
  load_runs-IsKept (r ∷ more) m dated h =
      load_runs-IsKept more (insert r.id r m) (ground (arith, dated))
        (insert-IsKept m r.id r refl (ground (arith, dated)) h)

  abbrev runs_of : Option (Registry V) → List (RunRecord V)
  runs_of none = []
  runs_of (some registry) = registry.runs

  abbrev pub new_coordinator : Bool → Coordinator V
  new_coordinator auto_save = record { active_runs = []; auto_save = auto_save; saved = none }

  new_coordinator-IsKept : (auto_save : Bool) → IsKept (new_coordinator auto_save).active_runs
  new_coordinator-IsKept auto_save = record { is_map = tt; entries = λ id r e. ground (arith, e) }

  initialize-IsKept :
      (file : Option (Registry V)) (c : Coordinator V)
      → all is_dated (runs_of file) ≡ true
      → IsKept c.active_runs
      → IsKept (initialize file c).active_runs
  initialize-IsKept none c dated h = h
  initialize-IsKept (some registry) c dated h = load_runs-IsKept registry.runs c.active_runs dated h

  module _ (print : V → String) where
    handle_lifecycle_event-IsKept :
        (event : LifecycleEvent V) (now : ℕ) (writes : Bool) (c : Coordinator V)
        → IsKept c.active_runs
        → IsKept (handle_lifecycle_event print event now writes c).0.active_runs
    unfolding handle_lifecycle_event
    handle_lifecycle_event-IsKept event now writes c h =
        elim (Option-cases (get_run_by_child_session event.session_key c)) [
          | inl missing ↦ rw missing h
          | inr (r, found) ↦ rw found (elim (Option-cases (status_of event.event_type)) [
            | inl unknown ↦ rw unknown h
            | inr (status, known) ↦
                let given = data_of print event.event_type event.payload in
                let (c', events, ending) = update_run_status r.id status given now writes c in
                rw (known, active_runs-emit_lifecycle event r c' events ending)
                  (update_run_status-IsKept r.id status given now writes c h)
          ])
        ]

    abbrev pub perform_operation : Operation V → Coordinator V → Coordinator V
    perform_operation (registered id params now writes) c = (register_run id params now writes c).0
    perform_operation (updated id status given now writes) c =
        (update_run_status id status given now writes c).0
    perform_operation (handled event now writes) c =
        (handle_lifecycle_event print event now writes c).0
    perform_operation (cleaned retention now writes) c = (cleanup retention now writes c).0

    perform_operation-IsKept :
        (o : Operation V) (c : Coordinator V)
        → IsKept c.active_runs
        → IsKept (perform_operation o c).active_runs
    unfolding register_run cleanup
    perform_operation-IsKept (registered none params now writes) c h = h
    perform_operation-IsKept (registered (some id) params now writes) c h =
        let r = new_record id params now in
        rw
          (active_runs-save_if c.auto_save now writes
            (record c { active_runs = insert id r c.active_runs }))
          (insert-IsKept c.active_runs id r refl refl h)
    perform_operation-IsKept (updated id status given now writes) c h =
        update_run_status-IsKept id status given now writes c h
    perform_operation-IsKept (handled event now writes) c h =
        handle_lifecycle_event-IsKept event now writes c h
    perform_operation-IsKept (cleaned retention now writes) c h =
        let cutoff = now - retention_or_default retention in
        let (left, removed) = cleanup_each cutoff c.active_runs c.active_runs in
        rw
          (active_runs-save_if (c.auto_save && ltb 0 removed) now writes
            (record c { active_runs = left }))
          (cleanup_each-IsKept cutoff c.active_runs c.active_runs h)

    abbrev pub perform_operations : List (Operation V) → Coordinator V → Coordinator V
    perform_operations [] c = c
    perform_operations (o ∷ more) c = perform_operations more (perform_operation o c)

    perform_operations-IsKept :
        (ops : List (Operation V)) (c : Coordinator V)
        → IsKept c.active_runs
        → IsKept (perform_operations ops c).active_runs
    perform_operations-IsKept [] c h = h
    perform_operations-IsKept (o ∷ more) c h =
        perform_operations-IsKept more (perform_operation o c) (perform_operation-IsKept o c h)

    -- In a coordinator that is created, initialized from a registry file in which every run that
    -- has ended has a time of completion (or from none), and then used by any operations: no id is
    -- twice in the map of runs, every run is filed under its own id, and every run that is
    -- completed, failed or aborted has a time of completion.
    pub perform_initialized-IsKept :
        (auto_save : Bool) (file : Option (Registry V)) (ops : List (Operation V))
        → all is_dated (runs_of file) ≡ true
        → IsKept (perform_operations ops (initialize file (new_coordinator auto_save))).active_runs
    perform_initialized-IsKept auto_save file ops dated =
        perform_operations-IsKept ops (initialize file (new_coordinator auto_save)) (
          initialize-IsKept file (new_coordinator auto_save) dated
            (new_coordinator-IsKept auto_save))
