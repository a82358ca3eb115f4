-- ===== src/Queue/Process.antt =====
-- The loop of `processLane`: it ends, it takes the queue from the front, and it goes on as long as it
-- may; and what becomes of a goroutine that finds no free slot.
use ranyaa.Base.{
  ℕ, zero, suc, ◌-◌, ◌≤◌, ◌<◌, ◌≡◌, refl, sym, ap, ◌∙◌, ◌⊎◌, String, Bool, true, false, not, none,
  some, List, [], ◌∷◌, ◌++◌, arith, ◌==◌, str_eq, str_eq_self, any, keep, length, extract, lookup,
  insert, lookup-insert_self,
}
use mathlib.Core.List.{append_assoc, append-nil}
use ranyaa.Queue.{TaskRecord, LaneState, CommandQueue, restarted, global_limit}
use ranyaa.Queue.Lanes.{
  Admission, stop, cancel, start, admission, apply_admission, process_iteration, process_lane,
  reject_all, failure, release_slot,
}
use ranyaa.Queue.Rules.{Admits, admission-Admits}
use ranyaa.Queue.Schedule.{Action, iterate, release, step, run}

abbrev pub is_fresh : ℕ → TaskRecord → Bool
is_fresh generation r = r.generation == generation

abbrev pub is_outdated : ℕ → TaskRecord → Bool
is_outdated generation r = not (r.generation == generation)

-- The state `t` that a whole run of `processLane` leaves, from the state `s` with the lane `ls`.
pub record Settled (lane : String) (ls : LaneState) (others : List String) (s t : CommandQueue)
    : Type 0 where
  pub exited : t.wakeups ≡ others
  pub after : LaneState
  pub found : lookup lane t.lanes ≡ some after
  pub taken : List TaskRecord
  pub fifo : ls.queue ≡ taken ++ after.queue
  pub started : t.executing ≡ s.executing ++ keep (is_fresh ls.generation) taken
  pub rejected : t.sent ≡ s.sent ++ reject_all restarted (keep (is_outdated ls.generation) taken)
  pub maximal : (after.queue ≡ []) ⊎ (after.concurrency ≤ after.running) ⊎ (global_limit ≤ t.slots)

abbrev is_wake : String → String → Bool
is_wake lane l = str_eq l lane

extract-none :
    (lane : String) (ls : List String)
    → any (is_wake lane) ls ≡ false
    → extract (is_wake lane) ls ≡ none
extract-none lane [] h = refl
extract-none lane (l ∷ ls) h = ground (arith, extract-none lane ls)

process_lane-idle :
    (fuel : ℕ) (lane : String) (s : CommandQueue)
    → any (is_wake lane) s.wakeups ≡ false
    → process_lane fuel lane s ≡ s
unfolding process_lane process_iteration
process_lane-idle zero lane s h = refl
process_lane-idle (suc fuel) lane s h =
    rw (extract-none lane s.wakeups h) (process_lane-idle fuel lane s h)

module _ (lane : String) (others : List String) (last : any (is_wake lane) others ≡ false) where
  abbrev Settles : ℕ → Type 0
  Settles fuel =
      (s : CommandQueue) (ls : LaneState)
      → lookup lane s.lanes ≡ some ls
      → extract (is_wake lane) s.wakeups ≡ some (lane, others)
      → length ls.queue < fuel
      → Settled lane ls others s (process_lane fuel lane s)

  settle_iteration :
      (fuel : ℕ)
      → Settles fuel
      → (s : CommandQueue) (ls : LaneState) (a : Admission) → lookup lane s.lanes ≡ some ls
      → extract (is_wake lane) s.wakeups ≡ some (lane, others)
      → length ls.queue < suc fuel
      → Admits ls s.slots a
      → Settled lane ls others s (process_lane fuel lane (apply_admission a lane others s))
  unfolding apply_admission
  settle_iteration fuel ih s ls stop found e lt adm =
      rw (process_lane-idle fuel lane (record s { wakeups = others }) last) record {
        exited = refl;
        after = ls;
        found = found;
        taken = [];
        fifo = refl;
        started = sym (append-nil _);
        rejected = sym (append-nil _);
        maximal = adm;
      }
  settle_iteration fuel ih s ls (cancel r after) found e lt adm =
      let replies = s.sent ++ record { task = r; result = failure restarted } ∷ [] in
      let t = record s { slots = suc s.slots; lanes = insert lane after s.lanes; sent = replies } in
      let rest =
        ih t after (lookup-insert_self lane after s.lanes) e (omega (arith, ap length adm.0)) in
      let gen : after.generation ≡ ls.generation = ap (λ (x : LaneState). x.generation) adm.4 in
      let stale : (r.generation == ls.generation) ≡ false = ground (arith, adm.1) in
      record {
        exited = rest.exited;
        after = rest.after;
        found = rest.found;
        taken = r ∷ rest.taken;
        fifo = adm.0 ∙ ap (λ q. r ∷ q) rest.fifo;
        started =
            rest.started
            ∙ ap (λ g. s.executing ++ keep (is_fresh g) rest.taken) gen
            ∙ rw stale refl;
        rejected =
            rest.rejected
            ∙ ap (λ g. replies ++ reject_all restarted (keep (is_outdated g) rest.taken)) gen
            ∙ rw stale (
                append_assoc s.sent (record { task = r; result = failure restarted } ∷ [])
                  (reject_all restarted (keep (is_outdated ls.generation) rest.taken)));
        maximal = rest.maximal;
      }
  settle_iteration fuel ih s ls (start r after) found e lt adm =
      let runners = s.executing ++ r ∷ [] in
      let t = record s {
        slots = suc s.slots;
        lanes = insert lane after s.lanes;
        executing = runners;
      } in
      let rest =
        ih t after (lookup-insert_self lane after s.lanes) e (omega (arith, ap length adm.0)) in
      let gen : after.generation ≡ ls.generation = ap (λ (x : LaneState). x.generation) adm.4 in
      let fresh : (r.generation == ls.generation) ≡ true = ground (arith, adm.1) in
      record {
        exited = rest.exited;
        after = rest.after;
        found = rest.found;
        taken = r ∷ rest.taken;
        fifo = adm.0 ∙ ap (λ q. r ∷ q) rest.fifo;
        started =
            rest.started
            ∙ ap (λ g. runners ++ keep (is_fresh g) rest.taken) gen
            ∙ rw fresh
                (append_assoc s.executing (r ∷ []) (keep (is_fresh ls.generation) rest.taken));
        rejected =
            rest.rejected
            ∙ ap (λ g. s.sent ++ reject_all restarted (keep (is_outdated g) rest.taken)) gen
            ∙ rw fresh refl;
        maximal = rest.maximal;
      }

  settles : (fuel : ℕ) → Settles fuel
  unfolding process_lane process_iteration
  settles zero s ls found e lt = elim lt [ ]
  settles (suc fuel) s ls found e lt =
      rw (e, found)
        (settle_iteration fuel (settles fuel) s ls (admission ls s.slots) found e lt
          (admission-Admits ls s.slots))

-- A run of `processLane` of a lane ends after at most one iteration more than the lane has queued
-- records. It has taken a first part of the queue, started those of the lane's generation in their
-- order and answered the others with an error; and it ended because the queue was empty, the lane
-- full, or no slot free. (No other goroutine of the lane waits in `wakeups`.)
pub process_lane-settles :
    (lane : String) (others : List String) (s : CommandQueue) (ls : LaneState) (fuel : ℕ)
    → any (λ l. str_eq l lane) others ≡ false
    → lookup lane s.lanes ≡ some ls
    → extract (λ l. str_eq l lane) s.wakeups ≡ some (lane, others)
    → length ls.queue < fuel
    → Settled lane ls others s (process_lane fuel lane s)
process_lane-settles lane others s ls fuel last = settles lane others last fuel s ls

-- No goroutine of the queue is left that could do anything.
pub record IsQuiescent (s : CommandQueue) : Type 0 where
  pub none_numbered : s.numbered ≡ []
  pub none_stamped : s.stamped ≡ []
  pub none_waking : s.wakeups ≡ []
  pub none_executing : s.executing ≡ []
  pub none_finished : s.finished ≡ []
  pub none_releasing : s.releasing ≡ 0

abbrev pub releases : ℕ → List Action
releases zero = []
releases (suc k) = release ∷ releases k

record Freed (s t : CommandQueue) : Type 0 where
  lanes : t.lanes ≡ s.lanes
  numbered : t.numbered ≡ s.numbered
  stamped : t.stamped ≡ s.stamped
  wakeups : t.wakeups ≡ s.wakeups
  executing : t.executing ≡ s.executing
  finished : t.finished ≡ s.finished
  releasing : t.releasing ≡ 0

run-releases : (k : ℕ) (s : CommandQueue) → s.releasing ≡ k → Freed s (run (releases k) s)
unfolding run step release_slot
run-releases zero s e = record {
  lanes = refl;
  numbered = refl;
  stamped = refl;
  wakeups = refl;
  executing = refl;
  finished = refl;
  releasing = e;
}
run-releases (suc k) s e = rw e (
    let rest = run-releases k (record s { slots = s.slots - 1; releasing = k }) refl in
    record {
      lanes = rest.lanes;
      numbered = rest.numbered;
      stamped = rest.stamped;
      wakeups = rest.wakeups;
      executing = rest.executing;
      finished = rest.finished;
      releasing = rest.releasing;
    })

full-stop :
    (ls : LaneState) (slots : ℕ) (a : Admission)
    → Admits ls slots a
    → global_limit ≤ slots
    → a ≡ stop
full-stop ls slots stop adm full = refl
full-stop ls slots (cancel r after) adm full = absurd (omega (arith, adm.3))
full-stop ls slots (start r after) adm full = absurd (omega (arith, adm.3))

exit_without_slot :
    (s : CommandQueue) (lane : String) (ls : LaneState)
    → lookup lane s.lanes ≡ some ls
    → global_limit ≤ s.slots
    → s.wakeups ≡ lane ∷ []
    → step (iterate lane) s ≡ record s { wakeups = [] }
unfolding step process_iteration
exit_without_slot s lane ls found full woken =
    rw (woken, str_eq_self lane, found)
      (rw (full-stop ls s.slots (admission ls s.slots) (admission-Admits ls s.slots) full)
        (unfold apply_admission in refl))

-- If the last goroutine that could start a task runs `processLane` before the ended tasks have given
-- their slots back, it ends without starting one, and after they have given them back no goroutine
-- is left: the queued tasks of the lane are stranded.
pub stranded :
    (s : CommandQueue) (lane : String) (ls : LaneState)
    → lookup lane s.lanes ≡ some ls
    → global_limit ≤ s.slots
    → s.numbered ≡ []
    → s.stamped ≡ []
    → s.wakeups ≡ lane ∷ []
    → s.executing ≡ []
    → s.finished ≡ []
    → IsQuiescent (run (iterate lane ∷ releases s.releasing) s)
      × (lookup lane (run (iterate lane ∷ releases s.releasing) s).lanes ≡ some ls)
unfolding run
stranded s lane ls found full numbered stamped woken executing finished =
    rw (run, exit_without_slot s lane ls found full woken)
      (let freed = run-releases s.releasing (record s { wakeups = [] }) refl in
        (
          record {
            none_numbered = freed.numbered ∙ numbered;
            none_stamped = freed.stamped ∙ stamped;
            none_waking = freed.wakeups;
            none_executing = freed.executing ∙ executing;
            none_finished = freed.finished ∙ finished;
            none_releasing = freed.releasing;
          },
          rw freed.lanes found,
        ))
