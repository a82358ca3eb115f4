-- ===== src/Subagent/Examples.antt =====
-- Concrete runs of the coordinator, and a session that is its own descendant.
use mathlib.Core.Path.{subst}
use ranyaa.Base.{
  ◌+◌, ℕ, zero, suc, String, ◌≡◌, ◌↔◌, ◌<◌, refl, true, false, Option, none, some, List, [], ◌∷◌,
  if◌then◌else◌, lookup, str_eq, has, arith, Bool-cases, inl, inr,
}
use ranyaa.Subagent.{
  text, failed, running, RunParams, RunRecord, LifecycleEvent, end_event, Coordinator, no_data,
  get_run, get_run_by_child_session, register_run, new_record,
}
use ranyaa.Subagent.Queries.{
  cleanup, list_descendants, add_descendants, get_stats, count_active_runs,
}
use ranyaa.Subagent.Updates.{update_run_status, handle_lifecycle_event}
use ranyaa.Subagent.Kept.{
  IsKept, Operation, registered, updated, perform_operations, new_coordinator,
  perform_initialized-IsKept,
}
use ranyaa.Subagent.Cleanup.{unless_old, cleanup_exact}
use ranyaa.Subagent.Events.{IsAnswered, handle_lifecycle_event_lem}
use ranyaa.Subagent.Descendants.{run_ids, IsBelow, list_descendants_total}

abbrev print_number : ℕ → String
print_number n = "number"

abbrev params_of : String → String → RunParams ℕ
params_of parent child = record {
  parent_session_key = parent;
  child_session_key = child;
  prompt = "work";
  metadata = [];
}

abbrev ended : LifecycleEvent ℕ
ended = record {
  event_type = end_event;
  session_key = "one";
  timestamp = 20;
  payload = some (text "fine");
}

-- a run with a run below it; the lower one ends
abbrev busy : List (Operation ℕ)
busy =
    registered (some "a") (params_of "main" "one") 10 true
    ∷ registered (some "b") (params_of "one" "two") 11 true
    ∷ updated "b" running no_data 12 true
    ∷ updated "b" failed no_data 13 true
    ∷ []

abbrev at_work : Coordinator ℕ
at_work = perform_operations print_number busy (new_coordinator true)

perform_initialized-IsKept_example : IsKept at_work.active_runs
perform_initialized-IsKept_example = perform_initialized-IsKept print_number true none busy refl

cleanup_exact_example :
    let (after, removed) = cleanup 5 100 true at_work in
    ((id : String) → get_run id after ≡ unless_old 95 (get_run id at_work))
    × ((get_stats after).total_runs + removed ≡ 2)
    × ((get_stats after).active ≡ 1)
    × ((key : String) → count_active_runs key after ≡ count_active_runs key at_work)
unfolding register_run update_run_status
cleanup_exact_example =
    cleanup_exact 5 100 true at_work (perform_initialized-IsKept print_number true none busy refl)

handle_lifecycle_event_lem_example :
    IsAnswered print_number ended 20 at_work
      (get_run_by_child_session "one" at_work)
      (handle_lifecycle_event print_number ended 20 true at_work)
handle_lifecycle_event_lem_example =
    handle_lifecycle_event_lem print_number ended 20 true at_work
      (perform_initialized-IsKept print_number true none busy refl)

-- "main" is above "one", which is above "two"
abbrev rank_of : String → ℕ
rank_of key = if str_eq key "main" then 2 else if str_eq key "one" then 1 else 0

abbrev Falls : Option (RunRecord ℕ) → Type 0
Falls none = Unit {0}
Falls (some r) = rank_of r.child_session_key < rank_of r.parent_session_key

all_fall : (k : String) → Falls (lookup k at_work.active_runs)
unfolding register_run update_run_status
all_fall k = elim (Bool-cases (str_eq "a" k)) [
  | inl e ↦ rw e (omega arith)
  | inr first ↦ elim (Bool-cases (str_eq "b" k)) [
    | inl e ↦ rw (first, e) (omega arith)
    | inr second ↦ rw (first, second) tt
  ]
]

falling :
    (k : String) (r : RunRecord ℕ)
    → lookup k at_work.active_runs ≡ some r
    → rank_of r.child_session_key < rank_of r.parent_session_key
falling k r e = subst Falls e (all_fall k)

list_descendants_total_example :
    (found : List (RunRecord ℕ)) × (list_descendants 3 "main" at_work ≡ some found)
    × ((id : String) → (has id (run_ids found) ≡ true) ↔ IsBelow at_work.active_runs "main" id)
list_descendants_total_example =
    list_descendants_total at_work rank_of "main"
      (perform_initialized-IsKept print_number true none busy refl) falling

abbrev looped : Coordinator ℕ
looped = record {
  active_runs = ("a", new_record "a" (params_of "main" "main") 1) ∷ [];
  auto_save = false;
  saved = none;
}

-- The search below a session that is its own child goes deeper than every fuel.
endless_descendants : (depth : ℕ) → list_descendants depth "main" looped ≡ none
unfolding add_descendants
endless_descendants zero = refl
endless_descendants (suc depth) = rw (endless_descendants depth) refl
