-- ===== src/Queue/Starts.antt =====
-- The steps that start tasks: an iteration of `processLane` starts at most one, of its own lane, and
-- no other step starts any.
use ranyaa.Base.{
  ℕ, ◌+◌, bit, ap, tally-append, extract-passes, ◌≤◌, ◌≡◌, inl, inr, String, Bool, true, false,
  some, List, [], ◌∷◌, arith, ◌==◌, str_eq, eq_iff, tally, extract, extract-tally, lookup,
  Option-cases, Bool-cases,
}
use ranyaa.Queue.{
  TaskRecord, LaneState, CommandQueue, ensure_lane, number_task, stamp_with, append_to,
}
use ranyaa.Queue.Lanes.{
  Admission, stop, cancel, start, apply_admission, admission, process_iteration, leave_with,
  send_found, collect_found, clear_with, reset_with, limit_with,
}
use ranyaa.Queue.Rules.{
  Admits, admission-Admits, begin_enqueue-rule, stamp_record-rule, append_record-rule,
  leave_lane-rule, send_result-rule, release_slot-rule, collect_result-rule, clear_lane-rule,
  reset_lane-rule, set_concurrency-rule, ensure_lane-rule,
}
use ranyaa.Queue.Running.{foreign, in_lane, IsCounted}
use ranyaa.Queue.Schedule.{
  Action, enqueue, stamp, append, iterate, finish, send, release, collect, clear, reset, limit,
  expire, step,
}

-- a step that is no iteration of `processLane`: it starts no task
abbrev starts_none : Action → Bool
starts_none (iterate lane) = false
starts_none _ = true

-- an iteration of `processLane` of the lane
abbrev pub iterates : String → Action → Bool
iterates lane (iterate l) = str_eq l lane
iterates lane _ = false

module _ (p : TaskRecord → Bool) where
  -- no more of these tasks run than before
  abbrev Fewer : CommandQueue → CommandQueue → Type 0
  Fewer s t = tally p t.executing ≤ tally p s.executing

  ensure_lane-Fewer : (lane : String) (s : CommandQueue) → Fewer s (ensure_lane lane s)
  ensure_lane-Fewer lane s = ensure_lane-rule (Fewer s) s lane (omega arith) (λ e. omega arith)

  step-Fewer : (a : Action) (s : CommandQueue) → starts_none a ≡ true → Fewer s (step a s)
  unfolding step number_task stamp_with append_to leave_with send_found collect_found clear_with
      reset_with limit_with
  step-Fewer (enqueue lane request_id now) s q =
      begin_enqueue-rule (Fewer s) s lane request_id now (omega arith) (ensure_lane-Fewer lane s)
  step-Fewer (stamp n) s q =
      stamp_record-rule (Fewer s) s n (omega arith) (λ d rest ls e found. omega arith)
  step-Fewer (append n) s q =
      append_record-rule (Fewer s) s n (omega arith) (λ r rest ls e found. omega arith)
  step-Fewer (iterate lane) s q = cc
  step-Fewer (finish n value err) s q =
      let taken =
        λ (r : TaskRecord) (rest : List TaskRecord)
            (e : extract (λ r'. r'.id.seq == n) s.executing ≡ some (r, rest)).
          extract-tally (λ (x : TaskRecord). x.id.seq == n) p s.executing r rest e in
      leave_lane-rule (Fewer s) s n value err (omega arith)
        (λ r rest e missing. omega (arith, taken r rest e))
        (λ r rest ls e found. omega (arith, taken r rest e))
  step-Fewer (send n) s q =
      send_result-rule (Fewer s) s n (omega arith) (λ reply rest e. omega arith)
  step-Fewer release s q = release_slot-rule (Fewer s) s (omega arith) (λ k e. omega arith)
  step-Fewer (collect n now) s q =
      collect_result-rule (Fewer s) s n now (omega arith) (λ reply rest e. omega arith)
  step-Fewer (clear lane) s q =
      clear_lane-rule (Fewer s) s lane (omega arith) (λ ls found. omega arith)
  step-Fewer (reset lane) s q =
      reset_lane-rule (Fewer s) s lane (omega arith) (λ ls found. omega arith)
  step-Fewer (limit lane concurrency) s q =
      set_concurrency-rule (Fewer s) s lane concurrency (ensure_lane-Fewer lane s)
        (λ ls found. ensure_lane-Fewer lane s)
  step-Fewer (expire now) s q = omega arith

module _ (lane : String) where
  -- at most n tasks of the lane are new
  abbrev pub Grows : ℕ → CommandQueue → CommandQueue → Type 0
  Grows n s t = tally (in_lane lane) t.executing ≤ n + tally (in_lane lane) s.executing

  admitted-Grows :
      (s : CommandQueue) (l : String) (others : List String) (ls : LaneState) (a : Admission)
      → IsCounted s
      → lookup l s.lanes ≡ some ls
      → Admits ls s.slots a
      → Grows (bit (str_eq l lane)) s (apply_admission a l others s)
  unfolding apply_admission
  admitted-Grows s l others ls stop h found adm = omega arith
  admitted-Grows s l others ls (cancel r after) h found adm = omega arith
  admitted-Grows s l others ls (start r after) h found adm =
      let mine : str_eq r.id.lane l ≡ true =
        ground (arith, ap (tally (foreign l)) adm.0, (h.facts l ls found).own) in
      ground (
        arith,
        tally-append (in_lane lane) s.executing (r ∷ []),
        eq_iff r.id.lane l,
        eq_iff l lane,
        mine,
      )

  iteration-Grows :
      (l : String) (s : CommandQueue)
      → IsCounted s
      → Grows (bit (str_eq l lane)) s (process_iteration l s)
  unfolding process_iteration
  iteration-Grows l s h = elim (Option-cases (extract (λ k. str_eq k l) s.wakeups)) [
    | inl e ↦ rw e omega arith
    | inr ((k, others), e) ↦
        let same : k ≡ l = (eq_iff k l).0 (extract-passes (λ i. str_eq i l) s.wakeups k others e) in
        elim (Option-cases (lookup k s.lanes)) [
          | inl missing ↦ rw (e, missing) omega arith
          | inr (ls, found) ↦
              rw (e, found)
                (rw (← ap (λ i. str_eq i lane) same) (
                  admitted-Grows s k others ls (admission ls s.slots) h found
                    (admission-Admits ls s.slots)))
        ]
  ]

  -- a step that starts a task is an iteration
  starting-Grows :
      (a : Action) (s : CommandQueue)
      → IsCounted s
      → starts_none a ≡ false
      → Grows (bit (iterates lane a)) s (step a s)
  unfolding step
  starting-Grows (iterate l) s h e = iteration-Grows l s h
  starting-Grows _ s h e = cc

  pub step-Grows :
      (a : Action) (s : CommandQueue) → IsCounted s → Grows (bit (iterates lane a)) s (step a s)
  step-Grows a s h = elim (Bool-cases (starts_none a)) [
    | inl quiet ↦ omega (arith, step-Fewer (in_lane lane) a s quiet)
    | inr e ↦ starting-Grows a s h e
  ]
