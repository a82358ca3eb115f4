-- ===== src/Queue/Slots.antt =====
-- The global semaphore: what the tokens in it stand for.
use ranyaa.Base.{
  ℕ, ◌+◌, ◌≤◌, ◌≡◌, refl, ap, String, Bool, true, false, Option, none, some, List, [], ◌∷◌, ◌++◌,
  arith, ◌==◌, bit, tally, tally-append, length, length-append, extract-tally, extract-length,
  lookup,
}
use ranyaa.Queue.{
  TaskError, restarted, lane_cleared, lane_reset, lane_missing, TaskRecord, Reply, LaneState,
  CommandQueue, global_limit, new, number_task, ensure_lane, stamp_with, append_to,
}
use ranyaa.Queue.Lanes.{
  Admission, stop, cancel, start, apply_admission, leave_lane, leave_with, outcome, failure,
  send_result, send_found, collect_result, collect_found, clear_with, reset_with, reject_all,
  limit_with,
}
use ranyaa.Queue.Rules.{
  Admits, ensure_lane-rule, begin_enqueue-rule, stamp_record-rule, append_record-rule,
  process_iteration-rule, leave_lane-rule, send_result-rule, release_slot-rule, collect_result-rule,
  clear_lane-rule, reset_lane-rule, set_concurrency-rule,
}
use ranyaa.Queue.Schedule.{
  Action, enqueue, stamp, append, iterate, finish, send, release, collect, clear, reset, limit,
  expire, step, run,
}

abbrev pub is_restarted : Option TaskError → Bool
is_restarted (some restarted) = true
is_restarted _ = false

abbrev pub is_stale_reply : Reply → Bool
is_stale_reply reply = is_restarted reply.result.err

-- the records that `processLane` has answered with "task cancelled due to restart"
unfoldable pub cancelled : CommandQueue → ℕ
cancelled s = tally is_stale_reply s.sent + tally is_stale_reply s.answered

-- A token stands for a task that runs, for one that has ended and not given its slot back, or for a
-- stale record.
pub record IsAccounted (s : CommandQueue) : Type 0 where
  pub slots_used : s.slots ≡ length s.executing + length s.finished + s.releasing + cancelled s
  pub within_limit : s.slots ≤ global_limit
  pub finished_ran : tally is_stale_reply s.finished ≡ 0

stale-reject_all :
    (e : TaskError) (rs : List TaskRecord)
    → is_restarted (some e) ≡ false
    → tally is_stale_reply (reject_all e rs) ≡ 0
stale-reject_all e [] h = refl
stale-reject_all e (r ∷ rs) h = ground (arith, stale-reject_all e rs h)

stale-outcome : (value err : Option String) → is_restarted (outcome value err).err ≡ false
stale-outcome value none = refl
stale-outcome value (some e) = refl

module _ (s : CommandQueue) (h : IsAccounted s) where
  admitted-IsAccounted :
      (l : String) (others : List String) (ls : LaneState) (a : Admission)
      → lookup l s.lanes ≡ some ls
      → Admits ls s.slots a
      → IsAccounted (apply_admission a l others s)
  unfolding apply_admission cancelled
  admitted-IsAccounted l others ls stop found adm = omega (arith, h)
  admitted-IsAccounted l others ls (cancel r after) found adm = omega (
    arith,
    h,
    adm.3,
    tally-append is_stale_reply s.sent (record { task = r; result = failure restarted } ∷ []),
  )
  admitted-IsAccounted l others ls (start r after) found adm =
      omega (arith, h, adm.3, length-append s.executing (r ∷ []))

  leave_lane-IsAccounted :
      (k : ℕ) (value err : Option String) → IsAccounted (leave_lane k value err s)
  unfolding leave_with cancelled
  leave_lane-IsAccounted k value err =
      leave_lane-rule IsAccounted s k value err h
        (λ r rest e missing. omega (
          arith,
          h,
          extract-length (λ (x : TaskRecord). x.id.seq == k) s.executing r rest e,
          tally-append is_stale_reply s.sent
              (record { task = r; result = failure lane_missing } ∷ []),
        ))
        (λ r rest ls e found.
          let reply : Reply = record { task = r; result = outcome value err } in
          omega (
            arith,
            h,
            extract-length (λ (x : TaskRecord). x.id.seq == k) s.executing r rest e,
            length-append s.finished (reply ∷ []),
            tally-append is_stale_reply s.finished (reply ∷ []),
            ap bit (stale-outcome value err),
          ))

  send_result-IsAccounted : (k : ℕ) → IsAccounted (send_result k s)
  unfolding send_found cancelled
  send_result-IsAccounted k = send_result-rule IsAccounted s k h (λ reply rest e. omega (
    arith,
    h,
    extract-length (λ (x : Reply). x.task.id.seq == k) s.finished reply rest e,
    extract-tally (λ (x : Reply). x.task.id.seq == k) is_stale_reply s.finished reply rest e,
    tally-append is_stale_reply s.sent (reply ∷ []),
  ))

  collect_result-IsAccounted : (k now : ℕ) → IsAccounted (collect_result k now s)
  unfolding collect_found cancelled
  collect_result-IsAccounted k now = collect_result-rule IsAccounted s k now h (λ reply rest e.
      omega (
        arith,
        h,
        extract-tally (λ (x : Reply). x.task.id.seq == k) is_stale_reply s.sent reply rest e,
        tally-append is_stale_reply s.answered (reply ∷ []),
      ))

  rejected-IsAccounted :
      (e : TaskError) (rs : List TaskRecord) (t : CommandQueue)
      → is_restarted (some e) ≡ false
      → t ≡ record s { lanes = t.lanes; sent = s.sent ++ reject_all e rs }
      → IsAccounted t
  unfolding cancelled
  rejected-IsAccounted e rs t other eq = rw eq (
      omega (
        arith,
        h,
        tally-append is_stale_reply s.sent (reject_all e rs),
        stale-reject_all e rs other,
      ))

  same-IsAccounted :
      (t : CommandQueue)
      → t ≡ record s {
        lanes = t.lanes;
        task_id_seq = t.task_id_seq;
        dedup_cache = t.dedup_cache;
        numbered = t.numbered;
        stamped = t.stamped;
        wakeups = t.wakeups;
        events = t.events;
      }
      → IsAccounted t
  unfolding cancelled
  same-IsAccounted t eq = rw eq (omega (arith, h))

  ensure_lane-IsAccounted : (lane : String) → IsAccounted (ensure_lane lane s)
  ensure_lane-IsAccounted lane =
      ensure_lane-rule IsAccounted s lane h (λ missing. same-IsAccounted _ refl)

step-IsAccounted : (a : Action) (s : CommandQueue) → IsAccounted s → IsAccounted (step a s)
unfolding step cancelled
step-IsAccounted (enqueue lane request_id now) s h =
    begin_enqueue-rule IsAccounted s lane request_id now h (
      unfold number_task in
      same-IsAccounted (ensure_lane lane s) (ensure_lane-IsAccounted s h lane) _ refl)
step-IsAccounted (stamp k) s h =
    stamp_record-rule IsAccounted s k h
      (λ d rest ls e found. unfold stamp_with in same-IsAccounted s h _ refl)
step-IsAccounted (append k) s h =
    append_record-rule IsAccounted s k h
      (λ r rest ls e found. unfold append_to in same-IsAccounted s h _ refl)
step-IsAccounted (iterate lane) s h =
    process_iteration-rule IsAccounted s lane h (λ others. same-IsAccounted s h _ refl)
      (admitted-IsAccounted s h)
step-IsAccounted (finish k value err) s h = leave_lane-IsAccounted s h k value err
step-IsAccounted (send k) s h = send_result-IsAccounted s h k
step-IsAccounted release s h = release_slot-rule IsAccounted s h (λ k e. omega (arith, h, e))
step-IsAccounted (collect k now) s h = collect_result-IsAccounted s h k now
step-IsAccounted (clear lane) s h =
    clear_lane-rule IsAccounted s lane h
      (λ ls found. unfold clear_with in rejected-IsAccounted s h lane_cleared ls.queue _ refl refl)
step-IsAccounted (reset lane) s h =
    reset_lane-rule IsAccounted s lane h
      (λ ls found. unfold reset_with in rejected-IsAccounted s h lane_reset ls.queue _ refl refl)
step-IsAccounted (limit lane c) s h =
    set_concurrency-rule IsAccounted s lane c (ensure_lane-IsAccounted s h lane) (λ ls found.
      unfold limit_with in
      same-IsAccounted (ensure_lane lane s) (ensure_lane-IsAccounted s h lane) _ refl)
step-IsAccounted (expire now) s h = same-IsAccounted s h _ refl

run-IsAccounted_from :
    (actions : List Action) (s : CommandQueue) → IsAccounted s → IsAccounted (run actions s)
unfolding run
run-IsAccounted_from [] s h = h
run-IsAccounted_from (a ∷ more) s h = run-IsAccounted_from more (step a s) (step-IsAccounted a s h)

new-IsAccounted : IsAccounted new
unfolding new cancelled
new-IsAccounted = omega arith

-- Whatever the schedule, the tokens in the global semaphore are those of the tasks that run or have
-- not given their slot back, and one for every record that was answered as stale; there are 100 at
-- most. So tasks that run and records ever answered as stale are 100 together at most.
pub run-IsAccounted :
    (actions : List Action)
    → IsAccounted (run actions new)
      × (length (run actions new).executing + cancelled (run actions new) ≤ global_limit)
run-IsAccounted actions =
    let h = run-IsAccounted_from actions new new-IsAccounted in (h, omega (arith, h))
