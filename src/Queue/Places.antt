-- ===== src/Queue/Places.antt =====
-- Where the tasks are: every number that was given out stands in exactly one place.
mod Moves
pub use Moves.*
use ranyaa.Base.{
  ℕ, ap, ◌≤◌, ◌≡◌, refl, sym, ◌∙◌, String, some, List, [], ◌∷◌, ◌&&◌, arith, leb, bit, lookup,
  total-insert, old_part, tally,
}
use ranyaa.Queue.{number_task, TaskRecord, LaneState, CommandQueue, new}
use ranyaa.Queue.Rules.{begin_enqueue-rule}
use ranyaa.Queue.Schedule.{
  Action, enqueue, stamp, append, iterate, finish, send, release, collect, clear, reset, limit,
  expire, step, run,
}

-- Each number from 1 to the last one given out stands in one place, and no other number anywhere.
pub record IsConserved (s : CommandQueue) : Type 0 where
  pub one_place : (n : ℕ) → places n s ≡ bit (leb 1 n && leb n s.task_id_seq)

-- A queued task is not running.
module _ (s : CommandQueue) (c : IsConserved s) (l : String) (ls : LaneState) where
  pub queued-not_executing :
      (r : TaskRecord) (q : List TaskRecord)
      → lookup l s.lanes ≡ some ls
      → ls.queue ≡ r ∷ q
      → tally (task_is r.id.seq) s.executing ≡ 0
  unfolding places
  queued-not_executing r q found head = ground (
    arith,
    c.one_place r.id.seq,
    total-insert (queued r.id.seq) l (record ls { queue = [] }) s.lanes,
    ap (old_part (queued r.id.seq)) found,
    ap (tally (task_is r.id.seq)) head,
  )

-- A task runs once.
module _ (s : CommandQueue) (c : IsConserved s) where
  pub executing_once : (n : ℕ) → tally (task_is n) s.executing ≤ 1
  unfolding places
  executing_once n = ground (arith, c.one_place n)

Keeps-IsConserved : (s t : CommandQueue) → IsConserved s → ((n : ℕ) → Keeps n s t) → IsConserved t
Keeps-IsConserved s t h k = record {
  one_place = λ n.
      (k n).same_places ∙ h.one_place n ∙ ap (λ q. bit (leb 1 n && leb n q)) (sym (k n).same_seq);
}

number_task-IsConserved :
    (lane request_id : String) (s : CommandQueue)
    → IsConserved s
    → IsConserved (number_task lane request_id s)
number_task-IsConserved lane request_id s h = record {
  one_place = λ n. ground (arith, h.one_place n, places-number_task n s lane request_id);
}

pub step-IsConserved : (a : Action) (s : CommandQueue) → IsConserved s → IsConserved (step a s)
unfolding step
step-IsConserved (enqueue lane request_id now) s h =
    begin_enqueue-rule IsConserved s lane request_id now h
      (number_task-IsConserved lane request_id s h)
step-IsConserved (stamp k) s h = Keeps-IsConserved s _ h (λ n. stamp_record-Keeps n s k)
step-IsConserved (append k) s h = Keeps-IsConserved s _ h (λ n. append_record-Keeps n s k)
step-IsConserved (iterate lane) s h =
    Keeps-IsConserved s _ h (λ n. process_iteration-Keeps n s lane)
step-IsConserved (finish k value err) s h =
    Keeps-IsConserved s _ h (λ n. leave_lane-Keeps n s k value err)
step-IsConserved (send k) s h = Keeps-IsConserved s _ h (λ n. send_result-Keeps n s k)
step-IsConserved release s h = Keeps-IsConserved s _ h (λ n. release_slot-Keeps n s)
step-IsConserved (collect k now) s h = Keeps-IsConserved s _ h (λ n. collect_result-Keeps n s k now)
step-IsConserved (clear lane) s h = Keeps-IsConserved s _ h (λ n. clear_lane-Keeps n s lane)
step-IsConserved (reset lane) s h = Keeps-IsConserved s _ h (λ n. reset_lane-Keeps n s lane)
step-IsConserved (limit lane c) s h =
    Keeps-IsConserved s _ h (λ n. set_concurrency-Keeps n s lane c)
step-IsConserved (expire now) s h =
    Keeps-IsConserved s _ h (λ n. record { same_places = unfold places in refl; same_seq = refl })

run-IsConserved_from :
    (actions : List Action) (s : CommandQueue) → IsConserved s → IsConserved (run actions s)
unfolding run
run-IsConserved_from [] s h = h
run-IsConserved_from (a ∷ more) s h = run-IsConserved_from more (step a s) (step-IsConserved a s h)

pub new-IsConserved : IsConserved new
unfolding new places
new-IsConserved = record { one_place = λ n. ground arith }

-- Whatever the schedule, each number that the queue has given out stands in exactly one place: with
-- its caller before the lane, in a lane's queue, running, finished, answered, or collected, and no
-- other number stands anywhere. So no task is lost and none is answered twice.
pub run-IsConserved : (actions : List Action) → IsConserved (run actions new)
run-IsConserved actions = run-IsConserved_from actions new new-IsConserved
