-- ===== src/Queue/Running.antt =====
-- What a lane counts as running against the tasks of the lane that run.
mod Lane
pub use Lane.*
use ranyaa.Base.{
  ℕ, suc, ◌-◌, ◌≡◌, refl, sym, ap, ◌∙◌, String, Bool, true, false, Option, some, List, [], ◌∷◌,
  ◌++◌, arith, ◌==◌, str_eq, str_eq_self, eq_iff, any, tally, tally-append, length, extract,
  extract-tally, lookup, insert,
}
use ranyaa.Queue.{
  TaskRecord, TaskResult, LaneState, CommandQueue, new, number_task, ensure_lane, stamp_with,
  append_to, append_record,
}
use ranyaa.Queue.Lanes.{
  Admission, stop, cancel, start, remove_id, apply_admission, leave_lane, leave_with, outcome,
  send_found, collect_found, clear_with, reset_with, limit_with,
}
use ranyaa.Queue.Rules.{
  Admits, begin_enqueue-rule, stamp_record-rule, append_record-rule, process_iteration-rule,
  leave_lane-rule, send_result-rule, release_slot-rule, collect_result-rule, clear_lane-rule,
  reset_lane-rule, set_concurrency-rule,
}
use ranyaa.Queue.Places.{
  IsConserved, queued-not_executing, executing_once, step-IsConserved, new-IsConserved,
}
use ranyaa.Queue.Schedule.{
  Action, enqueue, stamp, append, iterate, finish, send, release, collect, clear, reset, limit,
  expire, step, run,
}

module _ (s : CommandQueue) (c : IsConserved s) (h : IsCounted s) where
  append_record-IsCounted : (k : ℕ) → IsCounted (append_record k s)
  unfolding append_to
  append_record-IsCounted k = append_record-rule IsCounted s k h (λ r rest ls e found.
      let old = h.facts r.id.lane ls found in
      quiet-IsCounted s h r.id.lane (record ls { queue = ls.queue ++ r ∷ [] })
        (record {
          counted = old.counted;
          active = old.active;
          sized = old.sized;
          own = ground (
            arith,
            old.own,
            tally-append (foreign r.id.lane) ls.queue (r ∷ []),
            str_eq_self r.id.lane,
          );
        })
        _ refl refl)

  cancelled-IsCounted :
      (l : String) (others : List String) (ls : LaneState) (r : TaskRecord) (after : LaneState)
      → lookup l s.lanes ≡ some ls
      → Admits ls s.slots (cancel r after)
      → IsCounted (apply_admission (cancel r after) l others s)
  unfolding apply_admission
  cancelled-IsCounted l others ls r after found adm =
      let old = h.facts l ls found in
      let ids : after.active_ids ≡ ls.active_ids = ap (λ (x : LaneState). x.active_ids) adm.4 in
      let runs : after.running ≡ ls.running = ap (λ (x : LaneState). x.running) adm.4 in
      quiet-IsCounted s h l after
        (record {
          counted = runs ∙ old.counted;
          active = λ n. ap (tally (λ m. m == n)) ids ∙ old.active n;
          sized = ap length ids ∙ old.sized ∙ sym runs;
          own = omega (arith, old.own, ap (tally (foreign l)) adm.0);
        })
        _ refl refl

  started-IsCounted :
      (l : String) (others : List String) (ls : LaneState) (r : TaskRecord) (after : LaneState)
      → lookup l s.lanes ≡ some ls
      → Admits ls s.slots (start r after)
      → IsCounted (apply_admission (start r after) l others s)
  unfolding apply_admission
  started-IsCounted l others ls r after found adm =
      let old = h.facts l ls found in
      let ids = ap (λ (x : LaneState). x.active_ids) adm.4 in
      let runs = ap (λ (x : LaneState). x.running) adm.4 in
      let mine : str_eq r.id.lane l ≡ true =
        ground (arith, ap (tally (foreign l)) adm.0, old.own) in
      let idle = queued-not_executing s c l ls r after.queue found adm.0 in
      let unseen : any (λ m. m == r.id.seq) ls.active_ids ≡ false =
        any-tally (λ m. m == r.id.seq) ls.active_ids
          (omega (arith, old.active r.id.seq, is_at-le-task_is l r.id.seq s.executing, idle)) in
      update-IsCounted s h l after (s.executing ++ r ∷ [])
        (λ lane other. ground (
          arith,
          tally-append (in_lane lane) s.executing (r ∷ []),
          eq_iff r.id.lane lane,
          eq_iff r.id.lane l,
          eq_iff l lane,
        ))
        (λ lane n other. ground (
          arith,
          tally-append (is_at lane n) s.executing (r ∷ []),
          eq_iff r.id.lane lane,
          eq_iff r.id.lane l,
          eq_iff l lane,
        ))
        (record {
          counted =
              ground (arith, runs, old.counted, tally-append (in_lane l) s.executing (r ∷ []));
          active = λ n. ground (
            arith,
            ap (tally (λ m. m == n)) ids,
            old.active n,
            tally-append (is_at l n) s.executing (r ∷ []),
          );
          sized = ground (arith, ap length ids, runs, old.sized);
          own = omega (arith, old.own, ap (tally (foreign l)) adm.0);
        })
        _ refl refl

  admitted-IsCounted :
      (l : String) (others : List String) (ls : LaneState) (a : Admission)
      → lookup l s.lanes ≡ some ls
      → Admits ls s.slots a
      → IsCounted (apply_admission a l others s)
  admitted-IsCounted l others ls stop found adm =
      unfold apply_admission in record { facts = h.facts; no_lane = h.no_lane }
  admitted-IsCounted l others ls (cancel r after) found adm =
      cancelled-IsCounted l others ls r after found adm
  admitted-IsCounted l others ls (start r after) found adm =
      started-IsCounted l others ls r after found adm

  left-IsCounted :
      (k : ℕ) (result : TaskResult) (r : TaskRecord) (rest : List TaskRecord) (ls : LaneState)
      → extract (λ r'. r'.id.seq == k) s.executing ≡ some (r, rest)
      → lookup r.id.lane s.lanes ≡ some ls
      → IsCounted (leave_with (some ls) r rest result s)
  unfolding leave_with
  left-IsCounted k result r rest ls e found =
      let old = h.facts r.id.lane ls found in
      let taken = λ (p : TaskRecord → Bool).
        extract-tally (λ (x : TaskRecord). x.id.seq == k) p s.executing r rest e in
      let own_name = str_eq_self r.id.lane in
      let once : tally (is_at r.id.lane r.id.seq) s.executing ≡ 1 = ground (
        arith,
        taken (is_at r.id.lane r.id.seq),
        executing_once s c r.id.seq,
        is_at-le-task_is r.id.lane r.id.seq s.executing,
        own_name,
      ) in
      update-IsCounted s h r.id.lane
        (record ls { running = ls.running - 1; active_ids = remove_id r.id.seq ls.active_ids }) rest
        (λ lane other. ground (arith, taken (in_lane lane)))
        (λ lane n other. ground (arith, taken (is_at lane n)))
        (record {
          counted = ground (arith, old.counted, taken (in_lane r.id.lane), own_name);
          active = λ n. ground (
            arith,
            tally-remove_id r.id.seq n ls.active_ids,
            old.active n,
            old.active r.id.seq,
            taken (is_at r.id.lane n),
            once,
            own_name,
          );
          sized = omega (
            arith,
            old.sized,
            old.active r.id.seq,
            once,
            length-remove_id r.id.seq ls.active_ids,
          );
          own = old.own;
        })
        _ refl refl

  leave_lane-IsCounted : (k : ℕ) (value err : Option String) → IsCounted (leave_lane k value err s)
  leave_lane-IsCounted k value err =
      leave_lane-rule IsCounted s k value err h
        (λ r rest e missing. absurd (
          ground (
            arith,
            h.no_lane r.id.lane missing,
            extract-tally (λ (x : TaskRecord). x.id.seq == k) (in_lane r.id.lane) s.executing r rest
                e,
            str_eq_self r.id.lane,
          )))
        (λ r rest ls e found. left-IsCounted k (outcome value err) r rest ls e found)

  emptied-IsCounted :
      (lane : String) (ls : LaneState) (generation : ℕ)
      → lookup lane s.lanes ≡ some ls
      → (t : CommandQueue)
      → t.lanes ≡ insert lane (record ls { generation = generation; queue = [] }) s.lanes
      → t.executing ≡ s.executing
      → IsCounted t
  emptied-IsCounted lane ls generation found =
      let old = h.facts lane ls found in
      quiet-IsCounted s h lane (record ls { generation = generation; queue = [] })
        (record { counted = old.counted; active = old.active; sized = old.sized; own = refl })

module _ (s : CommandQueue) (h : IsCounted s) where
  limited-IsCounted :
      (lane : String) (concurrency : ℕ) (ls : LaneState)
      → lookup lane s.lanes ≡ some ls
      → IsCounted (limit_with (some ls) lane concurrency s)
  unfolding limit_with
  limited-IsCounted lane concurrency ls found =
      let old = h.facts lane ls found in
      quiet-IsCounted s h lane (record ls { concurrency = concurrency })
        (record { counted = old.counted; active = old.active; sized = old.sized; own = old.own }) _
        refl refl

  still-IsCounted : (t : CommandQueue) → t.lanes ≡ s.lanes → t.executing ≡ s.executing → IsCounted t
  still-IsCounted t lanes executing = record {
    facts = λ lane ls found. rw executing (h.facts lane ls (rw (← lanes) found));
    no_lane = λ lane missing. rw executing (h.no_lane lane (rw (← lanes) missing));
  }

pub step-IsCounted :
    (a : Action) (s : CommandQueue) → IsConserved s → IsCounted s → IsCounted (step a s)
unfolding step
step-IsCounted (enqueue lane request_id now) s c h =
    begin_enqueue-rule IsCounted s lane request_id now h (
      unfold number_task in
      still-IsCounted (ensure_lane lane s) (ensure_lane-IsCounted s h lane) _ refl refl)
step-IsCounted (stamp k) s c h =
    stamp_record-rule IsCounted s k h
      (λ d rest ls e found. unfold stamp_with in still-IsCounted s h _ refl refl)
step-IsCounted (append k) s c h = append_record-IsCounted s c h k
step-IsCounted (iterate lane) s c h =
    process_iteration-rule IsCounted s lane h (λ others. still-IsCounted s h _ refl refl)
      (λ l others ls a found adm. admitted-IsCounted s c h l others ls a found adm)
step-IsCounted (finish k value err) s c h = leave_lane-IsCounted s c h k value err
step-IsCounted (send k) s c h =
    send_result-rule IsCounted s k h
      (λ reply rest e. unfold send_found in still-IsCounted s h _ refl refl)
step-IsCounted release s c h =
    release_slot-rule IsCounted s h (λ k e. still-IsCounted s h _ refl refl)
step-IsCounted (collect k now) s c h =
    collect_result-rule IsCounted s k now h
      (λ reply rest e. unfold collect_found in still-IsCounted s h _ refl refl)
step-IsCounted (clear lane) s c h = clear_lane-rule IsCounted s lane h (λ ls found.
    unfold clear_with in emptied-IsCounted s c h lane ls ls.generation found _ refl refl)
step-IsCounted (reset lane) s c h = reset_lane-rule IsCounted s lane h (λ ls found.
    unfold reset_with in emptied-IsCounted s c h lane ls (suc ls.generation) found _ refl refl)
step-IsCounted (limit lane concurrency) s c h =
    set_concurrency-rule IsCounted s lane concurrency (ensure_lane-IsCounted s h lane) (λ ls found.
      limited-IsCounted (ensure_lane lane s) (ensure_lane-IsCounted s h lane) lane concurrency ls
        found)
step-IsCounted (expire now) s c h = still-IsCounted s h _ refl refl

run-IsCounted_from :
    (actions : List Action) (s : CommandQueue)
    → IsConserved s
    → IsCounted s
    → IsCounted (run actions s)
unfolding run
run-IsCounted_from [] s c h = h
run-IsCounted_from (a ∷ more) s c h =
    run-IsCounted_from more (step a s) (step-IsConserved a s c) (step-IsCounted a s c h)

new-IsCounted : IsCounted new
unfolding new
new-IsCounted = record {
  facts = λ lane ls found. record {
    counted = ground arith;
    active = λ n. ground arith;
    sized = ground arith;
    own = ground arith;
  };
  no_lane = λ lane missing. refl;
}

-- Whatever the schedule, `running` of a lane is the number of the lane's tasks that run, `activeIDs`
-- holds exactly their ids, each once, and the records in the lane's queue are the lane's own.
pub run-IsCounted : (actions : List Action) → IsCounted (run actions new)
run-IsCounted actions = run-IsCounted_from actions new new-IsConserved new-IsCounted
