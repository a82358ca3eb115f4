-- ===== src/Queue/Running/Lane.antt =====
-- What a change of one lane leaves of the counts, and the lists of active ids.
use ranyaa.Base.{
  ℕ, ◌+◌, ◌≤◌, ◌≡◌, refl, sym, ◌∙◌, inl, inr, String, Bool, false, not, ◌&&◌, none, some, List, [],
  ◌∷◌, arith, ◌==◌, str_eq, eq_iff, any, tally, length, lookup, insert, lookup-insert_same,
  lookup-insert-none, lookup-insert_ne, if◌then◌else◌, Bool-cases,
}
use mathlib.Core.Path.{subst₂}
use ranyaa.Queue.{TaskRecord, LaneState, CommandQueue, ensure_lane, new_lane}
use ranyaa.Queue.Lanes.{remove_id}
use ranyaa.Queue.Rules.{ensure_lane-rule}
use ranyaa.Queue.Places.{task_is}

abbrev pub in_lane : String → TaskRecord → Bool
in_lane lane r = str_eq r.id.lane lane

abbrev pub foreign : String → TaskRecord → Bool
foreign lane r = not (str_eq r.id.lane lane)

abbrev pub is_at : String → ℕ → TaskRecord → Bool
is_at lane n r = str_eq r.id.lane lane && r.id.seq == n

-- The counter and the ids of a lane, against the list of the tasks that run; and the records in its
-- queue are its own.
pub record LaneFacts (executing : List TaskRecord) (lane : String) (ls : LaneState) : Type 0 where
  pub counted : ls.running ≡ tally (in_lane lane) executing
  pub active : (n : ℕ) → tally (λ m. m == n) ls.active_ids ≡ tally (is_at lane n) executing
  pub sized : length ls.active_ids ≡ ls.running
  pub own : tally (foreign lane) ls.queue ≡ 0

pub record IsCounted (s : CommandQueue) : Type 0 where
  pub facts :
      (lane : String) (ls : LaneState)
      → lookup lane s.lanes ≡ some ls
      → LaneFacts s.executing lane ls
  pub no_lane : (lane : String) → lookup lane s.lanes ≡ none → tally (in_lane lane) s.executing ≡ 0

pub is_at-le :
    (lane : String) (n : ℕ) (rs : List TaskRecord)
    → tally (is_at lane n) rs ≤ tally (in_lane lane) rs
is_at-le lane n [] = omega arith
is_at-le lane n (r ∷ rs) = ground (arith, is_at-le lane n rs)

pub is_at-le-task_is :
    (lane : String) (n : ℕ) (rs : List TaskRecord) → tally (is_at lane n) rs ≤ tally (task_is n) rs
is_at-le-task_is lane n [] = omega arith
is_at-le-task_is lane n (r ∷ rs) = ground (arith, is_at-le-task_is lane n rs)

-- An operation on the lane `l` leaves the other lanes' counts alone.
module _ (s : CommandQueue) (h : IsCounted s) (l : String) (after : LaneState)
    (executing : List TaskRecord) where
  pub update-IsCounted :
      ((lane : String)
        → str_eq l lane ≡ false
        → tally (in_lane lane) executing ≡ tally (in_lane lane) s.executing)
      → ((lane : String) (n : ℕ)
          → str_eq l lane ≡ false
          → tally (is_at lane n) executing ≡ tally (is_at lane n) s.executing)
      → LaneFacts executing l after
      → (t : CommandQueue) → t.lanes ≡ insert l after s.lanes
      → t.executing ≡ executing
      → IsCounted t
  update-IsCounted others at_others own t lanes exec =
      rw (lanes, exec)
        record {
          facts = λ lane ls found. elim (Bool-cases (str_eq l lane)) [
            | inl e ↦
                subst₂ (LaneFacts executing) ((eq_iff l lane).0 e)
                  (lookup-insert_same l lane after ls s.lanes e found) own
            | inr e ↦
                let old = h.facts lane ls (sym (lookup-insert_ne l lane after s.lanes e) ∙ found) in
                record {
                  counted = old.counted ∙ sym (others lane e);
                  active = λ n. old.active n ∙ sym (at_others lane n e);
                  sized = old.sized;
                  own = old.own;
                }
          ];
          no_lane = λ lane missing.
              let (e, old) = lookup-insert-none l lane after s.lanes missing in
              others lane e ∙ h.no_lane lane old;
        }

-- An operation that moves no task in or out of execution.
module _ (s : CommandQueue) (h : IsCounted s) (l : String) (after : LaneState) where
  pub quiet-IsCounted :
      LaneFacts s.executing l after
      → (t : CommandQueue) → t.lanes ≡ insert l after s.lanes
      → t.executing ≡ s.executing
      → IsCounted t
  quiet-IsCounted = update-IsCounted s h l after s.executing (λ lane e. refl) (λ lane n e. refl)

pub ensure_lane-IsCounted :
    (s : CommandQueue) → IsCounted s → (lane : String) → IsCounted (ensure_lane lane s)
ensure_lane-IsCounted s h lane = ensure_lane-rule IsCounted s lane h (λ missing.
    quiet-IsCounted s h lane (new_lane 1)
      (record {
        counted = sym (h.no_lane lane missing);
        active = λ n. ground (arith, h.no_lane lane missing, is_at-le lane n s.executing);
        sized = refl;
        own = refl;
      })
      _ refl refl)

pub any-tally : (p : ℕ → Bool) (xs : List ℕ) → tally p xs ≡ 0 → any p xs ≡ false
any-tally p [] h = refl
any-tally p (x ∷ xs) h = ground (arith, any-tally p xs)

pub length-remove_id :
    (n : ℕ) (ids : List ℕ) → length (remove_id n ids) + tally (λ m. m == n) ids ≡ length ids
length-remove_id n [] = refl
length-remove_id n (m ∷ ids) = ground (arith, length-remove_id n ids)

pub tally-remove_id :
    (n k : ℕ) (ids : List ℕ)
    → tally (λ m. m == k) (remove_id n ids) ≡ (if n == k then 0 else tally (λ m. m == k) ids)
tally-remove_id n k [] = ground arith
tally-remove_id n k (m ∷ ids) = ground (arith, tally-remove_id n k ids)
