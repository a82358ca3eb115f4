-- ===== src/Queue/Serial.antt =====
-- The concurrency limit of a lane, for schedules that do not call `SetConcurrency`.
use ranyaa.Base.{
  ℕ, ◌≤◌, ◌≡◌, refl, sym, ap, ◌∙◌, inl, inr, String, Bool, true, false, none, some, List, [], ◌∷◌,
  arith, str_eq, eq_iff, all, tally, lookup, insert, lookup-insert_same, lookup-insert_ne,
  lookup-insert-none, ◌≢◌, if◌then◌else◌, Bool-cases, Option-cases,
}
use mathlib.Core.Path.{subst, subst₂}
use ranyaa.Queue.{
  LaneState, CommandQueue, new, number_task, ensure_lane, new_lane, stamp_with, append_to,
}
use ranyaa.Queue.Lanes.{
  Admission, stop, cancel, start, apply_admission, leave_with, send_found, collect_found,
  clear_with, reset_with,
}
use ranyaa.Queue.Rules.{
  Admits, ensure_lane-rule, begin_enqueue-rule, stamp_record-rule, append_record-rule,
  process_iteration-rule, leave_lane-rule, send_result-rule, release_slot-rule, collect_result-rule,
  clear_lane-rule, reset_lane-rule,
}
use ranyaa.Queue.Running.{in_lane, run-IsCounted}
use ranyaa.Queue.Schedule.{
  Action, enqueue, stamp, append, iterate, finish, send, release, collect, clear, reset, limit,
  expire, step, run,
}

-- what `New` and `ensureLane` give a lane
abbrev pub default_concurrency : String → ℕ
default_concurrency lane = if str_eq lane "cron" then 5 else 1

abbrev Fits : String → LaneState → Type 0
Fits lane ls = (ls.running ≤ ls.concurrency) × (ls.concurrency ≡ default_concurrency lane)

record IsSerial (s : CommandQueue) : Type 0 where
  fits : (lane : String) (ls : LaneState) → lookup lane s.lanes ≡ some ls → Fits lane ls
  cron : lookup "cron" s.lanes ≢ none

abbrev pub keeps_limits : Action → Bool
keeps_limits (limit lane concurrency) = false
keeps_limits _ = true

module _ (s : CommandQueue) (h : IsSerial s) where
  put-IsSerial :
      (l : String) (after : LaneState)
      → Fits l after
      → (t : CommandQueue) → t.lanes ≡ insert l after s.lanes
      → IsSerial t
  put-IsSerial l after own t lanes = rw lanes record {
    fits = λ lane ls found. elim (Bool-cases (str_eq l lane)) [
      | inl e ↦
          subst₂ Fits ((eq_iff l lane).0 e) (lookup-insert_same l lane after ls s.lanes e found) own
      | inr e ↦ h.fits lane ls (sym (lookup-insert_ne l lane after s.lanes e) ∙ found)
    ];
    cron = λ gone. h.cron (lookup-insert-none l "cron" after s.lanes gone).1;
  }

  same-IsSerial : (t : CommandQueue) → t.lanes ≡ s.lanes → IsSerial t
  same-IsSerial t lanes = record {
    fits = λ lane ls found. h.fits lane ls (rw (← lanes) found);
    cron = rw lanes h.cron;
  }

  ensure_lane-IsSerial : (lane : String) → IsSerial (ensure_lane lane s)
  ensure_lane-IsSerial lane = ensure_lane-rule IsSerial s lane h (λ missing.
      put-IsSerial lane (new_lane 1)
        (elim (Bool-cases (str_eq lane "cron")) [
          | inl e ↦ absurd (h.cron (rw ((eq_iff lane "cron").0 e) at missing))
          | inr e ↦ rw e (omega arith, refl)
        ])
        _ refl)

  admitted-IsSerial :
      (l : String) (others : List String) (ls : LaneState) (a : Admission)
      → lookup l s.lanes ≡ some ls
      → Admits ls s.slots a
      → IsSerial (apply_admission a l others s)
  unfolding apply_admission
  admitted-IsSerial l others ls stop found adm = same-IsSerial _ refl
  admitted-IsSerial l others ls (cancel r after) found adm =
      put-IsSerial l after
        (omega (
          arith,
          h.fits l ls found,
          ap (λ (x : LaneState). x.running) adm.4,
          ap (λ (x : LaneState). x.concurrency) adm.4,
        ))
        _ refl
  admitted-IsSerial l others ls (start r after) found adm =
      put-IsSerial l after
        (omega (
          arith,
          h.fits l ls found,
          adm.2,
          ap (λ (x : LaneState). x.running) adm.4,
          ap (λ (x : LaneState). x.concurrency) adm.4,
        ))
        _ refl

step-IsSerial :
    (a : Action) (s : CommandQueue) → keeps_limits a ≡ true → IsSerial s → IsSerial (step a s)
unfolding step
step-IsSerial (enqueue lane request_id now) s k h =
    begin_enqueue-rule IsSerial s lane request_id now h (
      unfold number_task in
      same-IsSerial (ensure_lane lane s) (ensure_lane-IsSerial s h lane) _ refl)
step-IsSerial (stamp n) s k h =
    stamp_record-rule IsSerial s n h
      (λ d rest ls e found. unfold stamp_with in same-IsSerial s h _ refl)
step-IsSerial (append n) s k h = append_record-rule IsSerial s n h (λ r rest ls e found.
    unfold append_to in put-IsSerial s h r.id.lane _ (h.fits r.id.lane ls found) _ refl)
step-IsSerial (iterate lane) s k h =
    process_iteration-rule IsSerial s lane h (λ others. same-IsSerial s h _ refl)
      (admitted-IsSerial s h)
step-IsSerial (finish n value err) s k h =
    leave_lane-rule IsSerial s n value err h
      (λ r rest e missing. unfold leave_with in same-IsSerial s h _ refl)
      (λ r rest ls e found.
        unfold leave_with in
        put-IsSerial s h r.id.lane _ (omega (arith, h.fits r.id.lane ls found)) _ refl)
step-IsSerial (send n) s k h =
    send_result-rule IsSerial s n h (λ reply rest e. unfold send_found in same-IsSerial s h _ refl)
step-IsSerial release s k h = release_slot-rule IsSerial s h (λ m e. same-IsSerial s h _ refl)
step-IsSerial (collect n now) s k h =
    collect_result-rule IsSerial s n now h
      (λ reply rest e. unfold collect_found in same-IsSerial s h _ refl)
step-IsSerial (clear lane) s k h =
    clear_lane-rule IsSerial s lane h
      (λ ls found. unfold clear_with in put-IsSerial s h lane _ (h.fits lane ls found) _ refl)
step-IsSerial (reset lane) s k h =
    reset_lane-rule IsSerial s lane h
      (λ ls found. unfold reset_with in put-IsSerial s h lane _ (h.fits lane ls found) _ refl)
step-IsSerial (limit lane concurrency) s k h = cc
step-IsSerial (expire now) s k h = same-IsSerial s h _ refl

run-IsSerial_from :
    (actions : List Action) (s : CommandQueue)
    → all keeps_limits actions ≡ true
    → IsSerial s
    → IsSerial (run actions s)
unfolding run
run-IsSerial_from [] s k h = h
run-IsSerial_from (a ∷ more) s k h =
    run-IsSerial_from more (step a s) (ground arith) (step-IsSerial a s (ground arith) h)

new-Fits : (lane : String) (ls : LaneState) → lookup lane new.lanes ≡ some ls → Fits lane ls
unfolding new
new-Fits lane ls found =
    let at = λ (l : String). lookup l new.lanes ≡ some ls → Fits l ls in
    elim (Bool-cases (str_eq "main" lane)) [
      | inl e ↦ subst at ((eq_iff "main" lane).0 e) (λ f. ground arith) found
      | inr main ↦ elim (Bool-cases (str_eq "cron" lane)) [
        | inl e ↦ subst at ((eq_iff "cron" lane).0 e) (λ f. ground arith) found
        | inr e ↦ absurd (ground (arith, found))
      ]
    ]

new-IsSerial : IsSerial new
unfolding new
new-IsSerial = record { fits = new-Fits; cron = λ gone. cc }

-- As long as nobody calls `SetConcurrency`, whatever else happens and in whatever order, at most one
-- task of a lane runs at a time, and at most five in the lane "cron".
pub run-serial :
    (actions : List Action) (lane : String)
    → all keeps_limits actions ≡ true
    → tally (in_lane lane) (run actions new).executing ≤ default_concurrency lane
run-serial actions lane k =
    let s = run actions new in
    let counted = run-IsCounted actions in
    elim (Option-cases (lookup lane s.lanes)) [
      | inl missing ↦ omega (arith, counted.no_lane lane missing)
      | inr (ls, found) ↦ omega (
        arith,
        (counted.facts lane ls found).counted,
        (run-IsSerial_from actions new k new-IsSerial).fits lane ls found,
      )
    ]
