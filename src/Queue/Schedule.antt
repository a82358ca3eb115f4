-- ===== src/Queue/Schedule.antt =====
-- Schedules: which goroutine of the queue takes the next step, and the state after a list of steps.
use ranyaa.Base.{ℕ, String, Option, List, [], ◌∷◌}
use ranyaa.Dedup
use ranyaa.Queue.{CommandQueue, begin_enqueue, stamp_record, append_record}
use ranyaa.Queue.Lanes.{
  process_iteration, leave_lane, send_result, release_slot, collect_result, clear_lane, reset_lane,
  set_concurrency,
}

-- A task's record is named by its number. `finish` carries the value and the error that the task
-- returned, `enqueue` and `collect` the time.
pub data Action : Type 0 where
  enqueue : String → String → ℕ → Action
  stamp append : ℕ → Action
  iterate : String → Action
  finish : ℕ → Option String → Option String → Action
  send : ℕ → Action
  release : Action
  collect : ℕ → ℕ → Action
  clear reset : String → Action
  limit : String → ℕ → Action
  expire : ℕ → Action

unfoldable pub step : Action → CommandQueue → CommandQueue
step (enqueue lane request_id now) s = (begin_enqueue lane request_id now s).0
step (stamp n) s = stamp_record n s
step (append n) s = append_record n s
step (iterate lane) s = process_iteration lane s
step (finish n value err) s = leave_lane n value err s
step (send n) s = send_result n s
step release s = release_slot s
step (collect n now) s = collect_result n now s
step (clear lane) s = (clear_lane lane s).0
step (reset lane) s = reset_lane lane s
step (limit lane concurrency) s = set_concurrency lane concurrency s
step (expire now) s = record s { dedup_cache = Dedup.cleanup now s.dedup_cache }

unfoldable pub run : List Action → CommandQueue → CommandQueue
run [] s = s
run (a ∷ more) s = run more (step a s)
