-- ===== src/Queue/Lanes.antt =====
-- queue.go: `processLane`, `executeTask`, and the operations on a lane.
use ranyaa.Base.{
  ℕ, zero, suc, ◌-◌, String, Bool, true, false, not, Option, none, some, List, [], ◌∷◌, ◌++◌,
  str_eq, ltb, ◌==◌, if◌then◌else◌, lookup, insert, keep, any, extract, length,
}
use ranyaa.Dedup
use ranyaa.Queue.{
  TaskError, restarted, lane_cleared, lane_reset, lane_missing, task_failed, TaskResult, TaskRecord,
  Reply, completed, LaneState, CommandQueue, global_limit, ensure_lane,
}

-- ls.activeIDs[id] = true
abbrev pub add_id : ℕ → List ℕ → List ℕ
add_id n ids = if any (λ m. m == n) ids then ids else n ∷ ids

-- delete(ls.activeIDs, id)
abbrev pub remove_id : ℕ → List ℕ → List ℕ
remove_id n ids = keep (λ m. not (m == n)) ids

abbrev pub failure : TaskError → TaskResult
failure e = record { value = none; err = some e }

-- What one iteration of the loop of `processLane` does: it leaves the loop, answers a stale record,
-- or starts the task of a record.
pub data Admission : Type 0 where
  stop : Admission
  cancel start : TaskRecord → LaneState → Admission

unfoldable pub admit_head : List TaskRecord → LaneState → ℕ → Admission
admit_head [] ls slots = stop
admit_head (r ∷ rest) ls slots =
    if ltb ls.running ls.concurrency
    then if ltb slots global_limit
      then if r.generation == ls.generation
        then start r (record ls {
          queue = rest;
          running = suc ls.running;
          active_ids = add_id r.id.seq ls.active_ids;
        })
        else cancel r (record ls { queue = rest })
      else stop
    else stop

unfoldable pub admission : LaneState → ℕ → Admission
unfolding admit_head
admission ls slots = admit_head ls.queue ls slots

-- The slot that an iteration has taken is not given back for a stale record.
unfoldable pub apply_admission : Admission → String → List String → CommandQueue → CommandQueue
apply_admission stop lane others s = record s { wakeups = others }
apply_admission (cancel r ls) lane others s = record s {
  slots = suc s.slots;
  lanes = insert lane ls s.lanes;
  sent = s.sent ++ record { task = r; result = failure restarted } ∷ [];
}
apply_admission (start r ls) lane others s = record s {
  slots = suc s.slots;
  lanes = insert lane ls s.lanes;
  executing = s.executing ++ r ∷ [];
}

process_with : Option LaneState → String → List String → CommandQueue → CommandQueue
process_with none lane others s = record s { wakeups = others }
process_with (some ls) lane others s = apply_admission (admission ls s.slots) lane others s

process_found : Option (String × List String) → CommandQueue → CommandQueue
process_found none s = s
process_found (some (lane, others)) s = process_with (lookup lane s.lanes) lane others s

-- One iteration of a goroutine that runs `processLane(lane)`, if there is one.
unfoldable pub process_iteration : String → CommandQueue → CommandQueue
unfolding process_found process_with apply_admission
process_iteration lane s = process_found (extract (λ l. str_eq l lane) s.wakeups) s

-- The loop, with fuel for its iterations.
unfoldable pub process_lane : ℕ → String → CommandQueue → CommandQueue
process_lane zero lane s = s
process_lane (suc fuel) lane s = process_lane fuel lane (process_iteration lane s)

-- The end of a task, up to `ls.mu.Unlock()`. On a missing lane the answer is sent at once, and
-- nothing else is done.
unfoldable pub leave_with :
    Option LaneState → TaskRecord → List TaskRecord → TaskResult → CommandQueue → CommandQueue
leave_with none r rest result s = record s {
  executing = rest;
  sent = s.sent ++ record { task = r; result = failure lane_missing } ∷ [];
  releasing = suc s.releasing;
}
leave_with (some ls) r rest result s = record s {
  executing = rest;
  lanes =
      insert r.id.lane
        (record ls { running = ls.running - 1; active_ids = remove_id r.id.seq ls.active_ids })
        s.lanes;
  finished = s.finished ++ record { task = r; result = result } ∷ [];
}

leave_found : Option (TaskRecord × List TaskRecord) → TaskResult → CommandQueue → CommandQueue
leave_found none result s = s
leave_found (some (r, rest)) result s = leave_with (lookup r.id.lane s.lanes) r rest result s

-- what a task returns: a value and an error text, each of which may be nil
abbrev pub outcome : Option String → Option String → TaskResult
outcome value none = record { value = value; err = none }
outcome value (some e) = record { value = value; err = some (task_failed e) }

unfoldable pub leave_lane : ℕ → Option String → Option String → CommandQueue → CommandQueue
unfolding leave_found leave_with
leave_lane n value err s =
    leave_found (extract (λ r. r.id.seq == n) s.executing) (outcome value err) s

abbrev pub is_nil : Option TaskError → Bool
is_nil none = true
is_nil (some _) = false

-- record.result <- result, the event, and `go cq.processLane(lane)`
unfoldable pub send_found : Option (Reply × List Reply) → CommandQueue → CommandQueue
send_found none s = s
send_found (some (reply, rest)) s = record s {
  finished = rest;
  sent = s.sent ++ reply ∷ [];
  events = s.events ++ completed reply.task.id (is_nil reply.result.err) ∷ [];
  wakeups = s.wakeups ++ reply.task.id.lane ∷ [];
  releasing = suc s.releasing;
}

unfoldable pub send_result : ℕ → CommandQueue → CommandQueue
unfolding send_found
send_result n s = send_found (extract (λ r. r.task.id.seq == n) s.finished) s

unfoldable pub release_from : ℕ → CommandQueue → CommandQueue
release_from zero s = s
release_from (suc k) s = record s { slots = s.slots - 1; releasing = k }

-- the deferred `<-cq.globalSemaphore`
unfoldable pub release_slot : CommandQueue → CommandQueue
unfolding release_from
release_slot s = release_from s.releasing s

unfoldable pub collect_found : Option (Reply × List Reply) → ℕ → CommandQueue → CommandQueue
collect_found none now s = s
collect_found (some (reply, rest)) now s = record s {
  sent = rest;
  answered = s.answered ++ reply ∷ [];
  dedup_cache =
      if str_eq reply.task.request_id ""
      then s.dedup_cache
      else Dedup.set reply.task.request_id reply.result now s.dedup_cache;
}

-- dedupCache.Set. A reply stands in `sent` until here, first in `record.result` and then, when the
-- caller has received it, in `result`: no other goroutine reads the caller's channel.
unfoldable pub collect_result : ℕ → ℕ → CommandQueue → CommandQueue
unfolding collect_found
collect_result n now s = collect_found (extract (λ r. r.task.id.seq == n) s.sent) now s

-- one error to every queued record
abbrev pub reject_all : TaskError → List TaskRecord → List Reply
reject_all e [] = []
reject_all e (r ∷ rs) = record { task = r; result = failure e } ∷ reject_all e rs

unfoldable pub clear_with : Option LaneState → String → CommandQueue → CommandQueue × ℕ
clear_with none lane s = (s, 0)
clear_with (some ls) lane s = (
  record s {
    lanes = insert lane (record ls { queue = [] }) s.lanes;
    sent = s.sent ++ reject_all lane_cleared ls.queue;
  },
  length ls.queue,
)

unfoldable pub clear_lane : String → CommandQueue → CommandQueue × ℕ
unfolding clear_with
clear_lane lane s = clear_with (lookup lane s.lanes) lane s

unfoldable pub reset_with : Option LaneState → String → CommandQueue → CommandQueue
reset_with none lane s = s
reset_with (some ls) lane s = record s {
  lanes = insert lane (record ls { generation = suc ls.generation; queue = [] }) s.lanes;
  sent = s.sent ++ reject_all lane_reset ls.queue;
}

unfoldable pub reset_lane : String → CommandQueue → CommandQueue
unfolding reset_with
reset_lane lane s = reset_with (lookup lane s.lanes) lane s

unfoldable pub limit_with : Option LaneState → String → ℕ → CommandQueue → CommandQueue
limit_with none lane concurrency s = s
limit_with (some ls) lane concurrency s = record s {
  lanes = insert lane (record ls { concurrency = concurrency }) s.lanes;
  wakeups = if ltb ls.concurrency concurrency then s.wakeups ++ lane ∷ [] else s.wakeups;
}

unfoldable pub set_concurrency : String → ℕ → CommandQueue → CommandQueue
unfolding limit_with
set_concurrency lane concurrency s =
    let t = ensure_lane lane s in limit_with (lookup lane t.lanes) lane concurrency t

queue_length : Option LaneState → ℕ
queue_length none = 0
queue_length (some ls) = length ls.queue

unfoldable pub get_queue_size : String → CommandQueue → ℕ
unfolding queue_length
get_queue_size lane s = queue_length (lookup lane s.lanes)

running_of : Option LaneState → ℕ
running_of none = 0
running_of (some ls) = ls.running

unfoldable pub get_running_count : String → CommandQueue → ℕ
unfolding running_of
get_running_count lane s = running_of (lookup lane s.lanes)
