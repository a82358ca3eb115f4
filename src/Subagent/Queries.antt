-- ===== src/Subagent/Queries.antt =====
-- The lists and the counts of runs, and the cleanup.
use ranyaa.Base.{
  ℕ, zero, suc, ◌-◌, ◌*◌, String, Bool, true, false, ◌&&◌, Option, none, some, List, [], ◌∷◌, ◌++◌,
  if◌then◌else◌, ltb, leb, Map, delete, length, str_eq, tally,
}
use ranyaa.Subagent.{
  RunStatus, pending, running, completed, failed, aborted, unlisted, is_terminal, is_active,
  RunRecord, Coordinator, Stats, values, save_if,
}

abbrev is_completed : RunStatus → Bool
is_completed pending = false
is_completed running = false
is_completed completed = true
is_completed failed = false
is_completed aborted = false
is_completed (unlisted _) = false

abbrev is_failed : RunStatus → Bool
is_failed pending = false
is_failed running = false
is_failed completed = false
is_failed failed = true
is_failed aborted = false
is_failed (unlisted _) = false

abbrev is_aborted : RunStatus → Bool
is_aborted pending = false
is_aborted running = false
is_aborted completed = false
is_aborted failed = false
is_aborted aborted = true
is_aborted (unlisted _) = false

-- record.CompletedAt != nil && *record.CompletedAt < cutoffTime
abbrev pub is_before : Option ℕ → ℕ → Bool
is_before none cutoff = false
is_before (some at) cutoff = ltb at cutoff

-- 0 stands for a retention of 0 or less
abbrev pub retention_or_default : ℕ → ℕ
retention_or_default retention = if leb retention 0 then 7 * 24 * 60 * 60 * 1000 else retention

module _ {V : Type 0} where
  unfoldable pub list_children_of : String → Map (RunRecord V) → List (RunRecord V)
  list_children_of key [] = []
  list_children_of key ((k, r) ∷ m) =
      let rest = list_children_of key m in
      if str_eq r.parent_session_key key then r ∷ rest else rest

  abbrev pub list_children : String → Coordinator V → List (RunRecord V)
  list_children key c = list_children_of key c.active_runs

  abbrev both :
      RunRecord V
      → Option (List (RunRecord V))
      → Option (List (RunRecord V))
      → Option (List (RunRecord V))
  both r none rest = none
  both r (some below) none = none
  both r (some below) (some rest) = some (r ∷ below ++ rest)

  -- one loop of addDescendants, with what its recursive calls add for a session
  abbrev pub add_children :
      (String → Option (List (RunRecord V)))
      → String
      → Map (RunRecord V)
      → Option (List (RunRecord V))
  add_children below key [] = some []
  add_children below key ((k, r) ∷ m) =
      let rest = add_children below key m in
      if str_eq r.parent_session_key key then both r (below r.child_session_key) rest else rest

  -- addDescendants, none when its recursion is deeper than the fuel
  unfoldable pub add_descendants : ℕ → Map (RunRecord V) → String → Option (List (RunRecord V))
  add_descendants zero m key = none
  add_descendants (suc depth) m key = add_children (add_descendants depth m) key m

  abbrev pub list_descendants : ℕ → String → Coordinator V → Option (List (RunRecord V))
  list_descendants depth key c = add_descendants depth c.active_runs key

  abbrev pub is_active_run : String → RunRecord V → Bool
  is_active_run key r = str_eq r.parent_session_key key && is_active r.status

  abbrev pub count_active_runs : String → Coordinator V → ℕ
  count_active_runs key c = tally (is_active_run key) (values c.active_runs)

  abbrev pub get_stats : Coordinator V → Stats
  get_stats c =
      let runs = values c.active_runs in
      record {
        total_runs = length c.active_runs;
        active = tally (λ r. is_active r.status) runs;
        completed_runs = tally (λ r. is_completed r.status) runs;
        failed_runs = tally (λ r. is_failed r.status) runs;
        aborted_runs = tally (λ r. is_aborted r.status) runs;
      }

  abbrev pub is_old : ℕ → RunRecord V → Bool
  is_old cutoff r = is_terminal r.status && is_before r.completed_at cutoff

  unfoldable pub cleanup_each : ℕ → Map (RunRecord V) → Map (RunRecord V) → Map (RunRecord V) × ℕ
  cleanup_each cutoff [] m = (m, 0)
  cleanup_each cutoff ((k, r) ∷ more) m =
      let without = cleanup_each cutoff more (delete k m) in
      let kept = cleanup_each cutoff more m in
      if is_old cutoff r then (without.0, suc without.1) else kept

  -- a cutoff before time 0 removes nothing, as one at 0
  unfoldable pub cleanup : ℕ → ℕ → Bool → Coordinator V → Coordinator V × ℕ
  unfolding cleanup_each
  cleanup retention now writes c =
      let (left, removed) =
        cleanup_each (now - retention_or_default retention) c.active_runs c.active_runs in
      (save_if (c.auto_save && ltb 0 removed) now writes (record c { active_runs = left }), removed)
