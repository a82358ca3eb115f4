-- ===== src/Queue/Requests.antt =====
-- Requests with an id: an answer that was collected is served again, whatever the queue does between.
use ranyaa.Base.{
  ℕ, ◌+◌, ◌≤◌, ◌≡◌, ◌≢◌, refl, ◌∙◌, inl, inr, String, Bool, true, false, not, ◌&&◌, Option, none,
  some, List, [], ◌∷◌, arith, leb, ◌==◌, str_eq, str_eq_self, eq_iff, extract, lookup,
  lookup-insert, Bool-cases,
}
use ranyaa.Dedup
use ranyaa.Dedup.{DedupEntry, lookup-cleanup}
use ranyaa.Queue.{
  TaskResult, Reply, CommandQueue, begin_enqueue, number_task, ensure_lane, stamp_with, append_to,
}
use ranyaa.Queue.Lanes.{
  Admission, stop, cancel, start, apply_admission, leave_with, send_found, collect_result,
  collect_found, clear_with, reset_with, limit_with,
}
use ranyaa.Queue.Rules.{
  ensure_lane-rule, begin_enqueue-rule, stamp_record-rule, append_record-rule,
  process_iteration-rule, leave_lane-rule, send_result-rule, release_slot-rule, collect_result-rule,
  clear_lane-rule, reset_lane-rule, set_concurrency-rule,
}
use ranyaa.Queue.Schedule.{
  Action, enqueue, stamp, append, iterate, finish, send, release, collect, clear, reset, limit,
  expire, step, run,
}

-- the answer that a caller takes is one to the request
abbrev answers : String → Option (Reply × List Reply) → Bool
answers id none = false
answers id (some (reply, rest)) = str_eq reply.task.request_id id

-- The step neither collects another answer to the request nor cleans the cache up after `deadline`.
abbrev pub spares : String → ℕ → Action → CommandQueue → Bool
spares id deadline (collect n now) s = not (answers id (extract (λ r. r.task.id.seq == n) s.sent))
spares id deadline (expire now) s = leb now deadline
spares id deadline _ s = true

-- so does each of the steps, from a state on
abbrev pub spare : String → ℕ → List Action → CommandQueue → Bool
spare id deadline [] s = true
spare id deadline (a ∷ more) s =
    let rest = spare id deadline more (step a s) in spares id deadline a s && rest

module _ (s : CommandQueue) where
  abbrev SameCache : CommandQueue → Type 0
  SameCache t = t.dedup_cache ≡ s.dedup_cache

  ensure_lane-SameCache : (lane : String) → SameCache (ensure_lane lane s)
  ensure_lane-SameCache lane = ensure_lane-rule SameCache s lane refl (λ e. refl)

  admitted-SameCache :
      (l : String) (others : List String) (a : Admission) → SameCache (apply_admission a l others s)
  unfolding apply_admission
  admitted-SameCache l others stop = refl
  admitted-SameCache l others (cancel r after) = refl
  admitted-SameCache l others (start r after) = refl

-- What the cache holds for a request, while the steps spare it.
record Holds (id : String) (entry : DedupEntry TaskResult) (ttl : ℕ) (s : CommandQueue)
    : Type 0 where
  entry_kept : lookup id s.dedup_cache.entries ≡ some entry
  ttl_kept : s.dedup_cache.ttl ≡ ttl

module _ (id : String) (entry : DedupEntry TaskResult) (ttl : ℕ) where
  same-Holds : (s t : CommandQueue) → Holds id entry ttl s → SameCache s t → Holds id entry ttl t
  same-Holds s t h same = record {
    entry_kept = rw same h.entry_kept;
    ttl_kept = rw same h.ttl_kept;
  }

  collected-Holds :
      (n now : ℕ) (s : CommandQueue)
      → spares id (entry.timestamp + ttl) (collect n now) s ≡ true
      → Holds id entry ttl s
      → Holds id entry ttl (step (collect n now) s)
  unfolding step Dedup.set
  collected-Holds n now s spared h =
      collect_result-rule (Holds id entry ttl) s n now h (λ reply rest e.
        let other : str_eq reply.task.request_id id ≡ false = ground (arith, spared, e) in
        unfold collect_found in
        elim (Bool-cases (str_eq reply.task.request_id "")) [
          | inl unnamed ↦ rw unnamed record { entry_kept = h.entry_kept; ttl_kept = h.ttl_kept }
          | inr named ↦ rw named record {
            entry_kept =
                lookup-insert reply.task.request_id id
                  (record { result = reply.result; timestamp = now }) s.dedup_cache.entries
                ∙ rw other h.entry_kept;
            ttl_kept = h.ttl_kept;
          }
        ])

  step-Holds :
      (a : Action) (s : CommandQueue)
      → spares id (entry.timestamp + ttl) a s ≡ true
      → Holds id entry ttl s
      → Holds id entry ttl (step a s)
  step-Holds (collect n now) s spared h = collected-Holds n now s spared h
  step-Holds (expire now) s spared h =
      unfold step Dedup.cleanup in
      record {
        entry_kept =
            lookup-cleanup id now entry s.dedup_cache h.entry_kept (ground (arith, h.ttl_kept));
        ttl_kept = h.ttl_kept;
      }
  step-Holds (enqueue lane request_id now) s spared h =
      unfold step number_task in
      same-Holds s _ h
        (begin_enqueue-rule (SameCache s) s lane request_id now refl (ensure_lane-SameCache s lane))
  step-Holds (stamp n) s spared h =
      unfold step in
      same-Holds s _ h
        (stamp_record-rule (SameCache s) s n refl (λ d rest ls e found. unfold stamp_with in refl))
  step-Holds (append n) s spared h =
      unfold step in
      same-Holds s _ h
        (append_record-rule (SameCache s) s n refl (λ r rest ls e found. unfold append_to in refl))
  step-Holds (iterate lane) s spared h =
      unfold step in
      same-Holds s _ h (
        process_iteration-rule (SameCache s) s lane refl (λ others. refl)
          (λ l others ls a found adm. admitted-SameCache s l others a))
  step-Holds (finish n value err) s spared h =
      unfold step in
      same-Holds s _ h (
        leave_lane-rule (SameCache s) s n value err refl
          (λ r rest e missing. unfold leave_with in refl)
          (λ r rest ls e found. unfold leave_with in refl))
  step-Holds (send n) s spared h =
      unfold step in
      same-Holds s _ h
        (send_result-rule (SameCache s) s n refl (λ reply rest e. unfold send_found in refl))
  step-Holds release s spared h =
      unfold step in same-Holds s _ h (release_slot-rule (SameCache s) s refl (λ k e. refl))
  step-Holds (clear lane) s spared h =
      unfold step in
      same-Holds s _ h
        (clear_lane-rule (SameCache s) s lane refl (λ ls found. unfold clear_with in refl))
  step-Holds (reset lane) s spared h =
      unfold step in
      same-Holds s _ h
        (reset_lane-rule (SameCache s) s lane refl (λ ls found. unfold reset_with in refl))
  step-Holds (limit lane concurrency) s spared h =
      unfold step in
      same-Holds s _ h (
        set_concurrency-rule (SameCache s) s lane concurrency (ensure_lane-SameCache s lane)
          (λ ls found. unfold limit_with in ensure_lane-SameCache s lane))

  run-Holds :
      (actions : List Action) (s : CommandQueue)
      → spare id (entry.timestamp + ttl) actions s ≡ true
      → Holds id entry ttl s
      → Holds id entry ttl (run actions s)
  unfolding run
  run-Holds [] s spared h = h
  run-Holds (a ∷ more) s spared h =
      run-Holds more (step a s) (ground (arith, spared)) (step-Holds a s (ground (arith, spared)) h)

-- The answer that a caller has just collected is in the cache.
collect_result-Holds :
    (s : CommandQueue) (n now : ℕ) (reply : Reply) (rest : List Reply)
    → extract (λ r. r.task.id.seq == n) s.sent ≡ some (reply, rest)
    → reply.task.request_id ≢ ""
    → Holds reply.task.request_id
        (record { result = reply.result; timestamp = now })
        s.dedup_cache.ttl
        (collect_result n now s)
unfolding collect_result Dedup.set
collect_result-Holds s n now reply rest e named =
    let id = reply.task.request_id in
    let unnamed : str_eq id "" ≡ false = ground (arith, named, eq_iff id "") in
    rw (e, unnamed)
      record {
        entry_kept =
            lookup-insert id id (record { result = reply.result; timestamp = now })
              s.dedup_cache.entries
            ∙ rw (str_eq_self id) refl;
        ttl_kept = refl;
      }

-- Once a caller has collected the answer of a request with an id, another request with that id gets
-- the same answer until the ttl of the cache has passed, in whichever lane, and changes nothing: no
-- task is created. Between the two the goroutines of the queue may take any steps in which nobody
-- collects another answer to a request with that id, and no cleanup runs after the ttl has passed.
pub begin_enqueue-collect_result :
    (s : CommandQueue) (n now later : ℕ) (lane : String) (reply : Reply) (rest : List Reply)
    (between : List Action)
    → extract (λ r. r.task.id.seq == n) s.sent ≡ some (reply, rest)
    → reply.task.request_id ≢ ""
    → spare reply.task.request_id (now + s.dedup_cache.ttl) between (collect_result n now s) ≡ true
    → later ≤ now + s.dedup_cache.ttl
    → let t = run between (collect_result n now s) in
      begin_enqueue lane reply.task.request_id later t ≡ (t, some reply.result)
unfolding begin_enqueue Dedup.get
begin_enqueue-collect_result s n now later lane reply rest between e named spared soon =
    let id = reply.task.request_id in
    let entry : DedupEntry TaskResult = record { result = reply.result; timestamp = now } in
    let t = run between (collect_result n now s) in
    let held =
      run-Holds id entry s.dedup_cache.ttl between (collect_result n now s) spared
        (collect_result-Holds s n now reply rest e named) in
    let unnamed : str_eq id "" ≡ false = ground (arith, named, eq_iff id "") in
    let hit : Dedup.get id later t.dedup_cache ≡ some reply.result =
      rw (held.entry_kept, held.ttl_kept) ground arith in
    rw (unnamed, hit) refl
