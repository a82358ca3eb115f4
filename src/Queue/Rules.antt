-- ===== src/Queue/Rules.antt =====
-- One rule for each operation of the queue: a property of the state holds after the operation if it
-- holds of each state that the operation can end in.
use ranyaa.Base.{
  ℕ, zero, suc, ◌-◌, ◌≤◌, ◌<◌, ◌≡◌, ◌≢◌, ◌⊎◌, refl, inl, inr, String, Option, none, some, List, [],
  ◌∷◌, arith, ltb, ◌==◌, str_eq, lookup, extract, Bool-cases, Option-cases,
}
use ranyaa.Dedup
use ranyaa.Queue.{
  Draft, TaskRecord, Reply, LaneState, CommandQueue, global_limit, put_lane, new_lane, ensure_lane,
  begin_enqueue, number_task, stamp_record, stamp_with, append_record, append_to,
}
use ranyaa.Queue.Lanes.{
  Admission, stop, cancel, start, admission, admit_head, add_id, apply_admission, process_iteration,
  leave_lane, leave_with, outcome, send_result, send_found, release_slot, release_from,
  collect_result, collect_found, clear_lane, clear_with, reset_lane, reset_with, set_concurrency,
  limit_with,
}

-- what an iteration of `processLane` finds in the lane, by what it does
abbrev pub Admits : LaneState → ℕ → Admission → Type 0
Admits ls slots stop = (ls.queue ≡ []) ⊎ (ls.concurrency ≤ ls.running) ⊎ (global_limit ≤ slots)
Admits ls slots (cancel r after) =
    (ls.queue ≡ r ∷ after.queue)
    × (r.generation ≢ ls.generation)
    × (ls.running < ls.concurrency)
    × (slots < global_limit)
    × (after ≡ record ls { queue = after.queue })
Admits ls slots (start r after) =
    (ls.queue ≡ r ∷ after.queue)
    × (r.generation ≡ ls.generation)
    × (ls.running < ls.concurrency)
    × (slots < global_limit)
    × (after ≡ record ls {
      queue = after.queue;
      running = suc ls.running;
      active_ids = add_id r.id.seq ls.active_ids;
    })

admit_head-Admits :
    (ls : LaneState) (slots : ℕ) (q : List TaskRecord)
    → ls.queue ≡ q
    → Admits ls slots (admit_head q ls slots)
unfolding admit_head
admit_head-Admits ls slots [] e = inl e
admit_head-Admits ls slots (r ∷ rest) e = elim (Bool-cases (ltb ls.running ls.concurrency)) [
  | inr full ↦ rw full (ground arith)
  | inl room ↦ elim (Bool-cases (ltb slots global_limit)) [
    | inr none_left ↦ rw (room, none_left) (ground arith)
    | inl slot ↦ elim (Bool-cases (r.generation == ls.generation)) [
      | inl same ↦ rw (room, slot, same) (e, ground arith, ground arith, ground arith, refl)
      | inr other ↦ rw (room, slot, other) (e, ground arith, ground arith, ground arith, refl)
    ]
  ]
]

pub admission-Admits : (ls : LaneState) (slots : ℕ) → Admits ls slots (admission ls slots)
unfolding admission
admission-Admits ls slots = admit_head-Admits ls slots ls.queue refl

module _ (P : CommandQueue → Type 0) (s : CommandQueue) where
  pub begin_enqueue-rule :
      (lane request_id : String) (now : ℕ)
      → P s
      → P (number_task lane request_id s)
      → P (begin_enqueue lane request_id now s).0
  unfolding begin_enqueue number_task
  begin_enqueue-rule lane request_id now same numbered = elim (Bool-cases (str_eq request_id "")) [
    | inl e ↦ rw e numbered
    | inr e ↦ elim (Option-cases (Dedup.get request_id now s.dedup_cache)) [
      | inl miss ↦ rw (e, miss) numbered
      | inr (r, hit) ↦ rw (e, hit) same
    ]
  ]

  pub stamp_record-rule :
      (k : ℕ)
      → P s
      → ((d : Draft) (rest : List Draft) (ls : LaneState)
          → extract (λ d'. d'.id.seq == k) s.numbered ≡ some (d, rest)
          → lookup d.id.lane s.lanes ≡ some ls
          → P (stamp_with (some ls) d rest s))
      → P (stamp_record k s)
  unfolding stamp_record
  stamp_record-rule k same moved = elim (Option-cases (extract (λ d. d.id.seq == k) s.numbered)) [
    | inl e ↦ rw e same
    | inr ((d, rest), e) ↦ elim (Option-cases (lookup d.id.lane s.lanes)) [
      | inl missing ↦ rw (e, missing) same
      | inr (ls, found) ↦ rw (e, found) (moved d rest ls e found)
    ]
  ]

  pub append_record-rule :
      (k : ℕ)
      → P s
      → ((r : TaskRecord) (rest : List TaskRecord) (ls : LaneState)
          → extract (λ r'. r'.id.seq == k) s.stamped ≡ some (r, rest)
          → lookup r.id.lane s.lanes ≡ some ls
          → P (append_to (some ls) r rest s))
      → P (append_record k s)
  unfolding append_record
  append_record-rule k same moved = elim (Option-cases (extract (λ r. r.id.seq == k) s.stamped)) [
    | inl e ↦ rw e same
    | inr ((r, rest), e) ↦ elim (Option-cases (lookup r.id.lane s.lanes)) [
      | inl missing ↦ rw (e, missing) same
      | inr (ls, found) ↦ rw (e, found) (moved r rest ls e found)
    ]
  ]

  pub process_iteration-rule :
      (lane : String)
      → P s
      → ((others : List String) → P (record s { wakeups = others }))
      → ((l : String) (others : List String) (ls : LaneState) (a : Admission)
          → lookup l s.lanes ≡ some ls
          → Admits ls s.slots a
          → P (apply_admission a l others s))
      → P (process_iteration lane s)
  unfolding process_iteration
  process_iteration-rule lane same exited admitted =
      elim (Option-cases (extract (λ l. str_eq l lane) s.wakeups)) [
        | inl e ↦ rw e same
        | inr ((l, others), e) ↦ elim (Option-cases (lookup l s.lanes)) [
          | inl missing ↦ rw (e, missing) (exited others)
          | inr (ls, found) ↦
              rw (e, found)
                (admitted l others ls (admission ls s.slots) found (admission-Admits ls s.slots))
        ]
      ]

  pub leave_lane-rule :
      (k : ℕ) (value err : Option String)
      → P s
      → ((r : TaskRecord) (rest : List TaskRecord)
          → extract (λ r'. r'.id.seq == k) s.executing ≡ some (r, rest)
          → lookup r.id.lane s.lanes ≡ none
          → P (leave_with none r rest (outcome value err) s))
      → ((r : TaskRecord) (rest : List TaskRecord) (ls : LaneState)
          → extract (λ r'. r'.id.seq == k) s.executing ≡ some (r, rest)
          → lookup r.id.lane s.lanes ≡ some ls
          → P (leave_with (some ls) r rest (outcome value err) s))
      → P (leave_lane k value err s)
  unfolding leave_lane
  leave_lane-rule k value err same lost moved =
      elim (Option-cases (extract (λ r. r.id.seq == k) s.executing)) [
        | inl e ↦ rw e same
        | inr ((r, rest), e) ↦ elim (Option-cases (lookup r.id.lane s.lanes)) [
          | inl missing ↦ rw (e, missing) (lost r rest e missing)
          | inr (ls, found) ↦ rw (e, found) (moved r rest ls e found)
        ]
      ]

  pub send_result-rule :
      (k : ℕ)
      → P s
      → ((reply : Reply) (rest : List Reply)
          → extract (λ r. r.task.id.seq == k) s.finished ≡ some (reply, rest)
          → P (send_found (some (reply, rest)) s))
      → P (send_result k s)
  unfolding send_result
  send_result-rule k same moved =
      elim (Option-cases (extract (λ r. r.task.id.seq == k) s.finished)) [
        | inl e ↦ rw e same
        | inr ((reply, rest), e) ↦ rw e (moved reply rest e)
      ]

  pub release_slot-rule :
      P s
      → ((k : ℕ) → s.releasing ≡ suc k → P (record s { slots = s.slots - 1; releasing = k }))
      → P (release_slot s)
  unfolding release_slot
  release_slot-rule same released = released_from s.releasing refl
    where
      released_from : (m : ℕ) → s.releasing ≡ m → P (release_from m s)
      released_from zero e = same
      released_from (suc k) e = released k e

  pub collect_result-rule :
      (k now : ℕ)
      → P s
      → ((reply : Reply) (rest : List Reply)
          → extract (λ r. r.task.id.seq == k) s.sent ≡ some (reply, rest)
          → P (collect_found (some (reply, rest)) now s))
      → P (collect_result k now s)
  unfolding collect_result
  collect_result-rule k now same moved =
      elim (Option-cases (extract (λ r. r.task.id.seq == k) s.sent)) [
        | inl e ↦ rw e same
        | inr ((reply, rest), e) ↦ rw e (moved reply rest e)
      ]

  pub clear_lane-rule :
      (lane : String)
      → P s
      → ((ls : LaneState) → lookup lane s.lanes ≡ some ls → P (clear_with (some ls) lane s).0)
      → P (clear_lane lane s).0
  unfolding clear_lane
  clear_lane-rule lane same cleared = elim (Option-cases (lookup lane s.lanes)) [
    | inl e ↦ rw e same
    | inr (ls, e) ↦ rw e (cleared ls e)
  ]

  pub reset_lane-rule :
      (lane : String)
      → P s
      → ((ls : LaneState) → lookup lane s.lanes ≡ some ls → P (reset_with (some ls) lane s))
      → P (reset_lane lane s)
  unfolding reset_lane
  reset_lane-rule lane same reset = elim (Option-cases (lookup lane s.lanes)) [
    | inl e ↦ rw e same
    | inr (ls, e) ↦ rw e (reset ls e)
  ]

  pub ensure_lane-rule :
      (lane : String)
      → P s
      → (lookup lane s.lanes ≡ none → P (put_lane lane (new_lane 1) s))
      → P (ensure_lane lane s)
  unfolding ensure_lane
  ensure_lane-rule lane same added = elim (Option-cases (lookup lane s.lanes)) [
    | inl e ↦ rw e (added e)
    | inr (ls, e) ↦ rw e same
  ]

  pub set_concurrency-rule :
      (lane : String) (concurrency : ℕ)
      → P (ensure_lane lane s)
      → ((ls : LaneState)
          → lookup lane (ensure_lane lane s).lanes ≡ some ls
          → P (limit_with (some ls) lane concurrency (ensure_lane lane s)))
      → P (set_concurrency lane concurrency s)
  unfolding set_concurrency
  set_concurrency-rule lane concurrency same limited =
      elim (Option-cases (lookup lane (ensure_lane lane s).lanes)) [
        | inl e ↦ rw e same
        | inr (ls, e) ↦ rw e (limited ls e)
      ]
