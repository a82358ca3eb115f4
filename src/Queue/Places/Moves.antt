-- ===== src/Queue/Places/Moves.antt =====
-- What the operations of the queue do to the places of one number.
use ranyaa.Base.{
  ℕ, suc, ◌+◌, ◌-◌, ap, ◌≡◌, refl, String, Bool, Option, some, List, [], ◌∷◌, ◌++◌, arith, ◌==◌,
  bit, lookup, insert, total, total-insert, old_part, tally, tally-append, extract-tally,
}
use ranyaa.Queue.{
  TaskError, restarted, lane_cleared, lane_reset, lane_missing, new_lane, stamp_with, append_to,
  number_task, Draft, TaskRecord, Reply, LaneState, CommandQueue, stamp_record, append_record,
  ensure_lane,
}
use ranyaa.Queue.Lanes.{
  Admission, stop, cancel, start, apply_admission, leave_with, outcome, failure, remove_id,
  send_found, collect_found, clear_with, reset_with, limit_with, process_iteration, leave_lane,
  send_result, release_slot, collect_result, clear_lane, reset_lane, set_concurrency, reject_all,
}
use ranyaa.Queue.Rules.{
  Admits, ensure_lane-rule, stamp_record-rule, append_record-rule, process_iteration-rule,
  leave_lane-rule, send_result-rule, release_slot-rule, collect_result-rule, clear_lane-rule,
  reset_lane-rule, set_concurrency-rule,
}

abbrev pub draft_is : ℕ → Draft → Bool
draft_is n d = d.id.seq == n

abbrev pub task_is : ℕ → TaskRecord → Bool
task_is n r = r.id.seq == n

abbrev pub reply_is : ℕ → Reply → Bool
reply_is n r = r.task.id.seq == n

abbrev pub queued : ℕ → LaneState → ℕ
queued n ls = tally (task_is n) ls.queue

-- in how many places the number stands
unfoldable pub places : ℕ → CommandQueue → ℕ
places n s =
    tally (draft_is n) s.numbered
    + tally (task_is n) s.stamped
    + total (queued n) s.lanes
    + tally (task_is n) s.executing
    + tally (reply_is n) s.finished
    + tally (reply_is n) s.sent
    + tally (reply_is n) s.answered

-- What holds of every operation but the one that gives out a number.
pub record Keeps (n : ℕ) (s t : CommandQueue) : Type 0 where
  pub same_places : places n t ≡ places n s
  pub same_seq : t.task_id_seq ≡ s.task_id_seq

pub Keeps-refl : (n : ℕ) (s : CommandQueue) → Keeps n s s
Keeps-refl n s = record { same_places = refl; same_seq = refl }

pub tally-reject_all :
    (n : ℕ) (e : TaskError) (rs : List TaskRecord)
    → tally (reply_is n) (reject_all e rs) ≡ tally (task_is n) rs
tally-reject_all n e [] = refl
tally-reject_all n e (r ∷ rs) = omega (arith, tally-reject_all n e rs)

module _ (n : ℕ) (s : CommandQueue) where
  -- A lane's queue in the sum over all lanes.
  pub queued-insert :
      (lane : String) (ls after : LaneState)
      → lookup lane s.lanes ≡ some ls
      → total (queued n) (insert lane after s.lanes) + queued n ls
        ≡ queued n after + total (queued n) s.lanes
  queued-insert lane ls after found =
      omega (arith, total-insert (queued n) lane after s.lanes, ap (old_part (queued n)) found)

  pub ensure_lane-Keeps : (lane : String) → Keeps n s (ensure_lane lane s)
  ensure_lane-Keeps lane = ensure_lane-rule (Keeps n s) s lane (Keeps-refl n s) (λ missing. record {
    same_places =
        unfold places in
        omega (
          arith,
          total-insert (queued n) lane (new_lane 1) s.lanes,
          ap (old_part (queued n)) missing,
        );
    same_seq = refl;
  })

  pub stamp_record-Keeps : (k : ℕ) → Keeps n s (stamp_record k s)
  unfolding places stamp_with
  stamp_record-Keeps k = stamp_record-rule (Keeps n s) s k (Keeps-refl n s) (λ d rest ls e found.
      omega (
        arith,
        extract-tally (λ (x : Draft). x.id.seq == k) (draft_is n) s.numbered d rest e,
        tally-append (task_is n) s.stamped
            (record { id = d.id; request_id = d.request_id; generation = ls.generation } ∷ []),
      ))

  pub append_record-Keeps : (k : ℕ) → Keeps n s (append_record k s)
  unfolding places append_to
  append_record-Keeps k = append_record-rule (Keeps n s) s k (Keeps-refl n s) (λ r rest ls e found.
      omega (
        arith,
        extract-tally (λ (x : TaskRecord). x.id.seq == k) (task_is n) s.stamped r rest e,
        tally-append (task_is n) ls.queue (r ∷ []),
        queued-insert r.id.lane ls (record ls { queue = ls.queue ++ r ∷ [] }) found,
      ))

  pub admitted-Keeps :
      (l : String) (others : List String) (ls : LaneState) (a : Admission)
      → lookup l s.lanes ≡ some ls
      → Admits ls s.slots a
      → Keeps n s (apply_admission a l others s)
  unfolding places apply_admission
  admitted-Keeps l others ls stop found h = record { same_places = refl; same_seq = refl }
  admitted-Keeps l others ls (cancel r after) found h = omega (
    arith,
    queued-insert l ls after found,
    ap (tally (task_is n)) h.0,
    tally-append (reply_is n) s.sent (record { task = r; result = failure restarted } ∷ []),
  )
  admitted-Keeps l others ls (start r after) found h = omega (
    arith,
    queued-insert l ls after found,
    ap (tally (task_is n)) h.0,
    tally-append (task_is n) s.executing (r ∷ []),
  )

  pub process_iteration-Keeps : (lane : String) → Keeps n s (process_iteration lane s)
  unfolding places
  process_iteration-Keeps lane =
      process_iteration-rule (Keeps n s) s lane (Keeps-refl n s)
        (λ others. record { same_places = refl; same_seq = refl }) admitted-Keeps

  pub leave_lane-Keeps : (k : ℕ) (value err : Option String) → Keeps n s (leave_lane k value err s)
  unfolding places leave_with
  leave_lane-Keeps k value err =
      leave_lane-rule (Keeps n s) s k value err (Keeps-refl n s)
        (λ r rest e missing. omega (
          arith,
          extract-tally (λ (x : TaskRecord). x.id.seq == k) (task_is n) s.executing r rest e,
          tally-append (reply_is n) s.sent
              (record { task = r; result = failure lane_missing } ∷ []),
        ))
        (λ r rest ls e found. omega (
          arith,
          extract-tally (λ (x : TaskRecord). x.id.seq == k) (task_is n) s.executing r rest e,
          tally-append (reply_is n) s.finished
              (record { task = r; result = outcome value err } ∷ []),
          queued-insert r.id.lane ls
              (record ls {
                running = ls.running - 1;
                active_ids = remove_id r.id.seq ls.active_ids;
              })
              found,
        ))

  pub send_result-Keeps : (k : ℕ) → Keeps n s (send_result k s)
  unfolding places send_found
  send_result-Keeps k = send_result-rule (Keeps n s) s k (Keeps-refl n s) (λ reply rest e. omega (
    arith,
    extract-tally (λ (x : Reply). x.task.id.seq == k) (reply_is n) s.finished reply rest e,
    tally-append (reply_is n) s.sent (reply ∷ []),
  ))

  pub release_slot-Keeps : Keeps n s (release_slot s)
  unfolding places
  release_slot-Keeps =
      release_slot-rule (Keeps n s) s (Keeps-refl n s)
        (λ k e. record { same_places = refl; same_seq = refl })

  pub collect_result-Keeps : (k now : ℕ) → Keeps n s (collect_result k now s)
  unfolding places collect_found
  collect_result-Keeps k now =
      collect_result-rule (Keeps n s) s k now (Keeps-refl n s) (λ reply rest e. omega (
        arith,
        extract-tally (λ (x : Reply). x.task.id.seq == k) (reply_is n) s.sent reply rest e,
        tally-append (reply_is n) s.answered (reply ∷ []),
      ))

  pub clear_lane-Keeps : (lane : String) → Keeps n s (clear_lane lane s).0
  unfolding places clear_with
  clear_lane-Keeps lane = clear_lane-rule (Keeps n s) s lane (Keeps-refl n s) (λ ls found. omega (
    arith,
    queued-insert lane ls (record ls { queue = [] }) found,
    tally-append (reply_is n) s.sent (reject_all lane_cleared ls.queue),
    tally-reject_all n lane_cleared ls.queue,
  ))

  pub reset_lane-Keeps : (lane : String) → Keeps n s (reset_lane lane s)
  unfolding places reset_with
  reset_lane-Keeps lane = reset_lane-rule (Keeps n s) s lane (Keeps-refl n s) (λ ls found. omega (
    arith,
    queued-insert lane ls (record ls { generation = suc ls.generation; queue = [] }) found,
    tally-append (reply_is n) s.sent (reject_all lane_reset ls.queue),
    tally-reject_all n lane_reset ls.queue,
  ))

  pub limited-Keeps :
      (lane : String) (concurrency : ℕ) (ls : LaneState)
      → lookup lane s.lanes ≡ some ls
      → Keeps n s (limit_with (some ls) lane concurrency s)
  unfolding places limit_with
  limited-Keeps lane concurrency ls found =
      omega (arith, queued-insert lane ls (record ls { concurrency = concurrency }) found)

pub Keeps-trans : (n : ℕ) (s t u : CommandQueue) → Keeps n s t → Keeps n t u → Keeps n s u
Keeps-trans n s t u h k = omega (arith, h, k)

module _ (n : ℕ) (s : CommandQueue) where
  pub set_concurrency-Keeps :
      (lane : String) (concurrency : ℕ) → Keeps n s (set_concurrency lane concurrency s)
  set_concurrency-Keeps lane concurrency =
      set_concurrency-rule (Keeps n s) s lane concurrency (ensure_lane-Keeps n s lane) (λ ls found.
        Keeps-trans n s (ensure_lane lane s)
          (limit_with (some ls) lane concurrency (ensure_lane lane s)) (ensure_lane-Keeps n s lane)
          (limited-Keeps n (ensure_lane lane s) lane concurrency ls found))

  -- A new task takes the next number, and stands among the numbered ones.
  pub places-number_task :
      (lane request_id : String)
      → (places n (number_task lane request_id s) ≡ places n s + bit (suc s.task_id_seq == n))
        × ((number_task lane request_id s).task_id_seq ≡ suc s.task_id_seq)
  unfolding places number_task
  places-number_task lane request_id =
      let t = ensure_lane lane s in
      omega (
        arith,
        ensure_lane-Keeps n s lane,
        ap (λ (k : ℕ). bit (suc k == n)) (ensure_lane-Keeps n s lane).same_seq,
        tally-append (draft_is n) t.numbered (
            record { id = record { lane = lane; seq = suc t.task_id_seq }; request_id = request_id }
            ∷ []),
      )
