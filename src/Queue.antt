-- ===== src/Queue.antt =====
-- pkg/commandqueue/queue.go: lanes of tasks under a global limit of running tasks.
-- The state is the queue's own fields and, for each goroutine, how far it has come; a function below
-- is what one goroutine does between two points at which another can run. A caller of
-- `EnqueueWithContext` passes through `numbered`, `stamped`, a lane's queue and, once its task has
-- been answered, `sent`, until it has kept the answer for its request id, and `answered`; the goroutine of a task through `executing`, `finished` and
-- `releasing`; `wakeups` holds the goroutines of `processLane`. An iteration of `processLane` is a
-- step of its own, so another goroutine may stand between two iterations, more often than the lane's
-- lock lets it. Integers are unbounded, and a negative concurrency is 0. Contexts, spans, logging,
-- metrics, the warning timer, event handlers and the waits of `Close` are not modelled.
pub mod Lanes
pub mod Schedule
pub mod Rules
pub mod Places
pub mod Slots
pub mod Running
pub mod Serial
pub mod Starts
pub mod Drain
pub mod Process
pub mod Requests
mod Examples
use ranyaa.Base.{
  ℕ, zero, suc, ◌+◌, ◌-◌, ◌*◌, String, Bool, true, false, not, Option, none, some, List, [], ◌∷◌,
  ◌++◌, map, str_eq, ltb, leb, ◌==◌, if◌then◌else◌, Map, lookup, insert, length, keep, any, all,
  has, extract,
}
use ranyaa.Dedup
use ranyaa.Dedup.{DedupCache}

-- The name of a task is fmt.Sprintf("%s-%d", lane, seq); it is kept in its two parts.
pub record TaskId : Type 0 where
  pub lane : String
  pub seq : ℕ

pub data TaskError : Type 0 where
  restarted lane_cleared lane_reset lane_missing : TaskError
  task_failed : String → TaskError

-- The value of a task is only passed on: it is opaque text, or nil.
pub record TaskResult : Type 0 where
  pub value : Option String
  pub err : Option TaskError

pub record Draft : Type 0 where
  pub id : TaskId
  pub request_id : String

pub record TaskRecord : Type 0 where
  pub id : TaskId
  pub request_id : String
  pub generation : ℕ

pub record Reply : Type 0 where
  pub task : TaskRecord
  pub result : TaskResult

pub data Event : Type 0 where
  enqueued : TaskId → ℕ → Event
  completed : TaskId → Bool → Event

-- `active_ids` are the keys of `activeIDs`; those of a lane differ by their numbers.
pub record LaneState : Type 0 where
  pub generation : ℕ
  pub concurrency : ℕ
  pub queue : List TaskRecord
  pub running : ℕ
  pub active_ids : List ℕ

-- `slots` is the number of tokens in `globalSemaphore`.
pub record CommandQueue : Type 0 where
  pub lanes : Map LaneState
  pub task_id_seq : ℕ
  pub slots : ℕ
  pub dedup_cache : DedupCache TaskResult
  pub numbered : List Draft
  pub stamped : List TaskRecord
  pub wakeups : List String
  pub executing : List TaskRecord
  pub finished : List Reply
  pub releasing : ℕ
  pub sent : List Reply
  pub answered : List Reply
  pub events : List Event

-- make(chan struct{}, 100)
abbrev pub global_limit : ℕ
global_limit = 100

abbrev pub new_lane : ℕ → LaneState
new_lane concurrency = record {
  generation = 0;
  concurrency = concurrency;
  queue = [];
  running = 0;
  active_ids = [];
}

abbrev pub put_lane : String → LaneState → CommandQueue → CommandQueue
put_lane lane ls s = record s { lanes = insert lane ls s.lanes }

unfoldable pub init_missing : String → ℕ → Option LaneState → CommandQueue → CommandQueue
init_missing lane concurrency none s = put_lane lane (new_lane concurrency) s
init_missing lane concurrency (some ls) s = s

unfoldable pub init_lane : String → ℕ → CommandQueue → CommandQueue
unfolding init_missing
init_lane lane concurrency s = init_missing lane concurrency (lookup lane s.lanes) s

unfoldable pub ensure_lane : String → CommandQueue → CommandQueue
unfolding init_lane
ensure_lane lane s = init_lane lane 1 s

abbrev blank : CommandQueue
blank = record {
  lanes = [];
  task_id_seq = 0;
  slots = 0;
  dedup_cache = Dedup.new_dedup_cache (5 * 60 * 1000000000);
  numbered = [];
  stamped = [];
  wakeups = [];
  executing = [];
  finished = [];
  releasing = 0;
  sent = [];
  answered = [];
  events = [];
}

unfoldable pub new : CommandQueue
unfolding init_lane
new = init_lane "cron" 5 (init_lane "main" 1 blank)

-- `EnqueueWithContext` up to the number of the task
unfoldable pub number_task : String → String → CommandQueue → CommandQueue
number_task lane request_id s =
    let t = ensure_lane lane s in
    let n = suc t.task_id_seq in
    record t {
      task_id_seq = n;
      numbered =
          t.numbered
          ++ record { id = record { lane = lane; seq = n }; request_id = request_id } ∷ [];
    }

unfoldable pub serve_cached :
    Option TaskResult → String → String → CommandQueue → CommandQueue × Option TaskResult
serve_cached (some r) lane request_id s = (s, some r)
serve_cached none lane request_id s = (number_task lane request_id s, none)

-- The result is the cached answer, if there is one.
unfoldable pub begin_enqueue : String → String → ℕ → CommandQueue → CommandQueue × Option TaskResult
unfolding serve_cached number_task
begin_enqueue lane request_id now s =
    if str_eq request_id ""
    then serve_cached none lane request_id s
    else serve_cached (Dedup.get request_id now s.dedup_cache) lane request_id s

-- generation := ls.generation
unfoldable pub stamp_with : Option LaneState → Draft → List Draft → CommandQueue → CommandQueue
stamp_with none d rest s = s
stamp_with (some ls) d rest s = record s {
  numbered = rest;
  stamped =
      s.stamped ++ record { id = d.id; request_id = d.request_id; generation = ls.generation } ∷ [];
}

stamp_found : Option (Draft × List Draft) → CommandQueue → CommandQueue
stamp_found none s = s
stamp_found (some (d, rest)) s = stamp_with (lookup d.id.lane s.lanes) d rest s

unfoldable pub stamp_record : ℕ → CommandQueue → CommandQueue
unfolding stamp_found stamp_with
stamp_record n s = stamp_found (extract (λ d. d.id.seq == n) s.numbered) s

-- ls.queue = append(ls.queue, record), the event, and `go cq.processLane(lane)`
unfoldable pub append_to :
    Option LaneState → TaskRecord → List TaskRecord → CommandQueue → CommandQueue
append_to none r rest s = s
append_to (some ls) r rest s =
    let queue = ls.queue ++ r ∷ [] in
    record s {
      stamped = rest;
      lanes = insert r.id.lane (record ls { queue = queue }) s.lanes;
      events = s.events ++ enqueued r.id (length queue) ∷ [];
      wakeups = s.wakeups ++ r.id.lane ∷ [];
    }

append_found : Option (TaskRecord × List TaskRecord) → CommandQueue → CommandQueue
append_found none s = s
append_found (some (r, rest)) s = append_to (lookup r.id.lane s.lanes) r rest s

unfoldable pub append_record : ℕ → CommandQueue → CommandQueue
unfolding append_found append_to
append_record n s = append_found (extract (λ r. r.id.seq == n) s.stamped) s
