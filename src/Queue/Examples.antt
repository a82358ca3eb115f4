-- ===== src/Queue/Examples.antt =====
-- Schedules of the queue, and the theorems at them.
use ranyaa.Base.{
  String, true, ℕ, zero, suc, ◌+◌, ◌≤◌, ◌≡◌, refl, none, some, List, [], ◌∷◌, ◌++◌, arith, tally,
  length, lookup, eq_iff,
}
use mathlib.Core.Bool.{false≢true}
use ranyaa.Dedup
use ranyaa.Queue.{
  Reply, LaneState, CommandQueue, new, begin_enqueue, global_limit, stamp_record, append_record,
  ensure_lane,
}
use ranyaa.Queue.Lanes.{
  admission, process_lane, process_iteration, leave_lane, send_result, release_slot, collect_result,
  clear_lane, reset_lane, set_concurrency, get_queue_size, get_running_count,
}
use ranyaa.Queue.Places.{IsConserved, run-IsConserved}
use ranyaa.Queue.Slots.{IsAccounted, cancelled, run-IsAccounted}
use ranyaa.Queue.Running.{IsCounted, in_lane, run-IsCounted}
use ranyaa.Queue.Serial.{run-serial}
use ranyaa.Queue.Drain.{scan_lanes, executing-scan_lanes}
use ranyaa.Queue.Process.{Settled, IsQuiescent, releases, process_lane-settles, stranded}
use ranyaa.Queue.Requests.{begin_enqueue-collect_result}
use ranyaa.Queue.Schedule.{
  Action, enqueue, stamp, append, iterate, finish, send, release, collect, reset, limit, expire,
  step, run,
}

-- Two tasks for the lane "main"; the second one waits until the first has ended.
abbrev two_tasks : List Action
two_tasks =
    enqueue "main" "r1" 0
    ∷ stamp 1
    ∷ enqueue "main" "" 1
    ∷ stamp 2
    ∷ append 1
    ∷ append 2
    ∷ iterate "main"
    ∷ iterate "main"
    ∷ []

-- `run` from a new queue, with all that it computes through opened
simulate : List Action → CommandQueue
unfolding run step new begin_enqueue stamp_record append_record ensure_lane process_iteration
    admission leave_lane send_result release_slot collect_result clear_lane reset_lane
    set_concurrency Dedup.get Dedup.set Dedup.new_dedup_cache Dedup.cleanup
simulate actions = run actions new

two_tasks_one_runs :
    let s = run two_tasks new in
    (get_running_count "main" s ≡ 1) × (get_queue_size "main" s ≡ 1) × (s.slots ≡ 1)
unfolding simulate get_running_count get_queue_size
two_tasks_one_runs = (refl, refl, refl)

-- The first task ends and is answered, the second one runs and ends.
abbrev both_served : List Action
both_served =
    two_tasks
    ++ finish 1 (some "done") none
      ∷ send 1
      ∷ iterate "main"
      ∷ release
      ∷ collect 1 10
      ∷ finish 2 none (some "failed")
      ∷ send 2
      ∷ release
      ∷ []

run-IsConserved_example : IsConserved (run both_served new)
run-IsConserved_example = run-IsConserved both_served

run-IsAccounted_example :
    IsAccounted (run both_served new)
    × (length (run both_served new).executing + cancelled (run both_served new) ≤ global_limit)
run-IsAccounted_example = run-IsAccounted both_served

run-IsCounted_example : IsCounted (run two_tasks new)
run-IsCounted_example = run-IsCounted two_tasks

run-serial_example : tally (in_lane "main") (run two_tasks new).executing ≤ 1
run-serial_example = run-serial two_tasks "main" refl

-- The second task is answered between the looks at the two lanes.
abbrev drained_in_between : List (String × List Action)
drained_in_between = ("cron", []) ∷ ("main", finish 2 none none ∷ send 2 ∷ []) ∷ []

abbrev second_runs : List Action
second_runs =
    two_tasks
    ++ finish 1 (some "done") none ∷ send 1 ∷ iterate "main" ∷ iterate "main" ∷ release ∷ []

second_is_running : length (run second_runs new).executing ≡ 1
unfolding simulate
second_is_running = refl

drained_at_the_end :
    let (last, drained) = scan_lanes drained_in_between (run second_runs new) in
    (drained ≡ true) × (last.executing ≡ [])
unfolding simulate scan_lanes
drained_at_the_end = (refl, refl)

-- A task runs in "cron", and one waits in "main" for the goroutine that will start it.
abbrev cron_runs : List Action
cron_runs =
    enqueue "cron" "" 0
    ∷ stamp 1
    ∷ append 1
    ∷ iterate "cron"
    ∷ iterate "cron"
    ∷ enqueue "main" "" 0
    ∷ stamp 2
    ∷ append 2
    ∷ []

abbrev overtaken : List (String × List Action)
overtaken = ("main", []) ∷ ("cron", iterate "main" ∷ finish 1 none none ∷ []) ∷ []

-- The task in "main" starts when its lane has been looked at, and then the one in "cron" ends: the
-- round finds every lane drained, though some task ran at each moment.
drained_while_running :
    let start = run cron_runs new in
    let middle = run (iterate "main" ∷ []) start in
    let (last, drained) = scan_lanes overtaken start in
    (drained ≡ true)
    × (length start.executing ≡ 1)
    × (length middle.executing ≡ 2)
    × (length last.executing ≡ 1)
unfolding simulate scan_lanes
drained_while_running = (refl, refl, refl, refl)

executing-scan_lanes_example :
    tally (in_lane "main") (scan_lanes overtaken (run cron_runs new)).0.executing ≤ 1
unfolding simulate scan_lanes
executing-scan_lanes_example = executing-scan_lanes cron_runs overtaken "main" refl refl

-- n tasks of the lane "late" whose callers read the lane's generation before a reset, and join the
-- queue after it.
abbrev late_callers : ℕ → ℕ → List Action
late_callers first zero = []
late_callers first (suc n) = enqueue "late" "" 0 ∷ stamp first ∷ late_callers (suc first) n

abbrev late_joins : ℕ → ℕ → List Action
late_joins first zero = []
late_joins first (suc n) = append first ∷ iterate "late" ∷ iterate "late" ∷ late_joins (suc first) n

abbrev late_reset : ℕ → List Action
late_reset n = late_callers 1 n ++ reset "late" ∷ late_joins 1 n

-- A hundred of them take every slot for good: no task runs, and a new one stays in its queue.
stale_records_block :
    let s =
      run
        (late_reset 100 ++ enqueue "main" "" 0 ∷ stamp 101 ∷ append 101 ∷ iterate "main" ∷ [])
        new in
    (cancelled s ≡ 100)
    × (s.slots ≡ 100)
    × (s.executing ≡ [])
    × (get_queue_size "main" s ≡ 1)
    × (s.wakeups ≡ [])
unfolding simulate cancelled get_queue_size
stale_records_block = (refl, refl, refl, refl, refl)

-- n tasks of the lane "bulk" that run at the same time
abbrev bulk_starts : ℕ → ℕ → List Action
bulk_starts first zero = []
bulk_starts first (suc n) =
    enqueue "bulk" "" 0
    ∷ stamp first
    ∷ append first
    ∷ iterate "bulk"
    ∷ iterate "bulk"
    ∷ bulk_starts (suc first) n

-- They end and send their results; the goroutines of `processLane` that they launch run before the
-- slots are given back.
abbrev bulk_ends : ℕ → ℕ → List Action
bulk_ends first zero = []
bulk_ends first (suc n) =
    finish first none none ∷ send first ∷ iterate "bulk" ∷ bulk_ends (suc first) n

abbrev full_house : CommandQueue
full_house =
    run
      (limit "bulk" 100 ∷ iterate "bulk" ∷ bulk_starts 1 100
        ++ enqueue "main" "" 0 ∷ stamp 101 ∷ append 101 ∷ bulk_ends 1 100)
      new

abbrev waiting_main : LaneState
waiting_main = record {
  generation = 0;
  concurrency = 1;
  queue = record { id = record { lane = "main"; seq = 101 }; request_id = ""; generation = 0 } ∷ [];
  running = 0;
  active_ids = [];
}

stranded_example :
    IsQuiescent (run (iterate "main" ∷ releases full_house.releasing) full_house)
    × (lookup "main" (run (iterate "main" ∷ releases full_house.releasing) full_house).lanes
        ≡ some waiting_main)
unfolding simulate
stranded_example =
    stranded full_house "main" waiting_main refl (omega arith) refl refl refl refl refl

-- The state of `two_tasks` before `processLane` has run.
abbrev two_queued : CommandQueue
two_queued =
    run
      (enqueue "main" "r1" 0
        ∷ stamp 1
        ∷ append 1
        ∷ enqueue "main" "" 1
        ∷ stamp 2
        ∷ append 2
        ∷ iterate "main"
        ∷ iterate "main"
        ∷ [])
      new

abbrev busy_main : LaneState
busy_main = record {
  generation = 0;
  concurrency = 1;
  queue = record { id = record { lane = "main"; seq = 2 }; request_id = ""; generation = 0 } ∷ [];
  running = 1;
  active_ids = 1 ∷ [];
}

process_lane-settles_example :
    Settled "main" busy_main [] two_queued (process_lane 2 "main" two_queued)
unfolding simulate
process_lane-settles_example =
    process_lane-settles "main" [] two_queued busy_main 2 refl refl refl (omega arith)

abbrev first_sent : CommandQueue
first_sent = run (two_tasks ++ finish 1 (some "done") none ∷ send 1 ∷ []) new

abbrev first_reply : Reply
first_reply = record {
  task = record { id = record { lane = "main"; seq = 1 }; request_id = "r1"; generation = 0 };
  result = record { value = some "done"; err = none };
}

-- Between the two requests the second task runs and is answered, the lane is reset and a cleanup runs.
abbrev after_answer : List Action
after_answer =
    iterate "main"
    ∷ finish 2 none none
    ∷ send 2
    ∷ collect 2 55
    ∷ enqueue "main" "r2" 56
    ∷ reset "main"
    ∷ expire 57
    ∷ []

begin_enqueue-collect_result_example :
    let t = run after_answer (collect_result 1 50 first_sent) in
    begin_enqueue "cron" "r1" 60 t ≡ (t, some first_reply.result)
unfolding simulate
begin_enqueue-collect_result_example =
    begin_enqueue-collect_result first_sent 1 50 60 "cron" first_reply [] after_answer refl
      (λ e. false≢true ((eq_iff "r1" "").1 e)) refl (omega arith)
