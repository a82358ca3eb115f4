-- ===== src/Planner/Join.antt =====
-- The join strategies "first" and "any" of executeParallel (pkg/planner/executor.go): what the
-- select of the executor sees, in the order in which it comes.
use ranyaa.Base.{Option, none, some, String, List, [], ◌∷◌, if◌then◌else◌}
use ranyaa.Planner.Executor.{FailureStrategy, is_abort, ExecutionError, context_error}

pub data Arrival : Type 0 where
  succeeded : String → Arrival
  step_failed : ExecutionError → Arrival
  context_done : Arrival

pub data Joined : Type 0 where
  returned : Option ExecutionError → Joined
  waiting_for_more : Joined

abbrev pub join_first : FailureStrategy → List Arrival → Joined
join_first strategy [] = waiting_for_more
join_first strategy (succeeded id ∷ more) = returned none
join_first strategy (step_failed err ∷ more) =
    if is_abort strategy then returned (some err) else returned none
join_first strategy (context_done ∷ more) = returned (some context_error)

-- no case of the select receives an error
abbrev pub join_any : List Arrival → Joined
join_any [] = waiting_for_more
join_any (succeeded id ∷ more) = returned none
join_any (step_failed err ∷ more) = join_any more
join_any (context_done ∷ more) = returned (some context_error)
