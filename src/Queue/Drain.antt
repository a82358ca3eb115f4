-- ===== src/Queue/Drain.antt =====
-- queue.go: a round of `WaitForActive`, which looks at one lane after another while the goroutines of
-- the queue go on.
use ranyaa.Base.{
  ℕ, ◌+◌, ◌≤◌, ◌≡◌, inl, inr, String, Bool, true, ◌&&◌, Option, none, some, List, [], ◌∷◌, arith,
  ◌==◌, str_eq, eq_iff, any, all, tally, length, lookup, Map, Option-cases, Bool-cases,
}
use ranyaa.Queue.{LaneState, CommandQueue, new}
use ranyaa.Queue.Places.{IsConserved, step-IsConserved, run-IsConserved}
use ranyaa.Queue.Running.{in_lane, IsCounted, step-IsCounted, run-IsCounted}
use ranyaa.Queue.Starts.{iterates, Grows, step-Grows}
use ranyaa.Queue.Schedule.{Action, step, run}

-- len(ls.activeIDs) == 0
abbrev pub lane_drained : Option LaneState → Bool
lane_drained none = true
lane_drained (some ls) = length ls.active_ids == 0

-- The lanes in the order in which the loop over the map meets them, each with the steps that other
-- goroutines take before its lock is taken; and `allDrained` at the end. The read lock of the queue
-- keeps new lanes out meanwhile, on which nothing here depends.
unfoldable pub scan_lanes : List (String × List Action) → CommandQueue → CommandQueue × Bool
scan_lanes [] s = (s, true)
scan_lanes ((lane, between) ∷ more) s =
    let t = run between s in
    let (last, drained) = scan_lanes more t in (last, lane_drained (lookup lane t.lanes) && drained)

-- the iterations on a lane during the round
abbrev pub iterations : String → List (String × List Action) → ℕ
iterations lane [] = 0
iterations lane ((l, between) ∷ more) = tally (iterates lane) between + iterations lane more

-- each lane of the map is looked at
abbrev pub covers : List (String × List Action) → Map LaneState → Bool
covers visits lanes =
    all (λ ((lane, ls) : String × LaneState). any (λ v. str_eq v.0 lane) visits) lanes

IsSound : CommandQueue → Type 0
IsSound s = IsConserved s × IsCounted s

run-IsSound : (actions : List Action) (s : CommandQueue) → IsSound s → IsSound (run actions s)
unfolding run IsSound
run-IsSound [] s h = h
run-IsSound (a ∷ more) s h =
    run-IsSound more (step a s) (step-IsConserved a s h.0, step-IsCounted a s h.0 h.1)

scan_lanes-IsSound :
    (visits : List (String × List Action)) (s : CommandQueue)
    → IsSound s
    → IsSound (scan_lanes visits s).0
unfolding scan_lanes
scan_lanes-IsSound [] s h = h
scan_lanes-IsSound ((lane, between) ∷ more) s h =
    scan_lanes-IsSound more (run between s) (run-IsSound between s h)

module _ (lane : String) where
  run-Grows :
      (actions : List Action) (s : CommandQueue)
      → IsSound s
      → Grows lane (tally (iterates lane) actions) s (run actions s)
  unfolding run IsSound
  run-Grows [] s h = omega arith
  run-Grows (a ∷ more) s h =
      let next : IsSound (step a s) = (step-IsConserved a s h.0, step-IsCounted a s h.0 h.1) in
      omega (arith, step-Grows lane a s h.1, run-Grows more (step a s) next)

  scan_lanes-Grows :
      (visits : List (String × List Action)) (s : CommandQueue)
      → IsSound s
      → Grows lane (iterations lane visits) s (scan_lanes visits s).0
  unfolding scan_lanes
  scan_lanes-Grows [] s h = omega arith
  scan_lanes-Grows ((l, between) ∷ more) s h = omega (
    arith,
    run-Grows between s h,
    scan_lanes-Grows more (run between s) (run-IsSound between s h),
  )

-- A lane that holds no active id runs no task.
drained-idle :
    (lane : String) (s : CommandQueue)
    → IsCounted s
    → lane_drained (lookup lane s.lanes) ≡ true
    → tally (in_lane lane) s.executing ≡ 0
drained-idle lane s h drained = elim (Option-cases (lookup lane s.lanes)) [
  | inl missing ↦ h.no_lane lane missing
  | inr (ls, found) ↦
      let empty : length ls.active_ids ≡ 0 = ground (arith, found) in
      omega (arith, empty, (h.facts lane ls found).counted, (h.facts lane ls found).sized)
]

visited_bound :
    (lane : String) (visits : List (String × List Action)) (s : CommandQueue)
    → IsSound s
    → (scan_lanes visits s).1 ≡ true
    → any (λ v. str_eq v.0 lane) visits ≡ true
    → tally (in_lane lane) (scan_lanes visits s).0.executing ≤ iterations lane visits
unfolding scan_lanes IsSound
visited_bound lane [] s h drained visited = cc
visited_bound lane ((l, between) ∷ more) s h drained visited =
    let t = run between s in
    let sound = run-IsSound between s h in
    elim (Bool-cases (str_eq l lane)) [
      | inl e ↦
          let idle : tally (in_lane lane) t.executing ≡ 0 =
            drained-idle lane t sound.1 (rw (← (eq_iff l lane).0 e) ground (arith, drained)) in
          omega (arith, idle, scan_lanes-Grows lane more t sound)
      | inr e ↦
          let rest =
            visited_bound lane more t sound (ground (arith, drained))
              (ground (arith, visited, e)) in
          omega (arith, rest)
    ]

covered :
    (visits : List (String × List Action)) (lanes : Map LaneState) (lane : String) (ls : LaneState)
    → covers visits lanes ≡ true
    → lookup lane lanes ≡ some ls
    → any (λ v. str_eq v.0 lane) visits ≡ true
covered visits [] lane ls c found = cc
covered visits ((l, x) ∷ m) lane ls c found = elim (Bool-cases (str_eq l lane)) [
  | inl e ↦ rw (← (eq_iff l lane).0 e) ground (arith, c)
  | inr e ↦ covered visits m lane ls (ground (arith, c)) (ground (arith, found, e))
]

-- Whatever has happened before and whatever the goroutines of the queue do during it, if a round of
-- `WaitForActive` finds no active id in any lane, then at its last look no more tasks of a lane run
-- than `processLane` has made iterations on that lane during the round; so no task of the lane runs
-- if there were none. The round must look at each lane that the queue has at the end.
pub executing-scan_lanes :
    (actions : List Action) (visits : List (String × List Action)) (lane : String)
    → covers visits (scan_lanes visits (run actions new)).0.lanes ≡ true
    → (scan_lanes visits (run actions new)).1 ≡ true
    → tally (in_lane lane) (scan_lanes visits (run actions new)).0.executing
      ≤ iterations lane visits
unfolding IsSound
executing-scan_lanes actions visits lane c drained =
    let s = run actions new in
    let h : IsSound s = (run-IsConserved actions, run-IsCounted actions) in
    let last = (scan_lanes visits s).0 in
    let counted = (scan_lanes-IsSound visits s h).1 in
    elim (Option-cases (lookup lane last.lanes)) [
      | inl missing ↦ omega (arith, counted.no_lane lane missing)
      | inr (ls, found) ↦
          visited_bound lane visits s h drained (covered visits last.lanes lane ls c found)
    ]
