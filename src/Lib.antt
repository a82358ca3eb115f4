-- ===== src/Lib.antt =====
-- Ranyaa is an agent server: a daemon takes messages from channels, routes them to agents, and runs
-- their tools under policies. This library models parts of it and proves what they promise.
--
-- The files and the code that they model (paths from the repository's root):
-- - Queue, with its children, and Dedup: pkg/commandqueue (queue.go, dedup.go). Work is serialised
--   in lanes under a global limit. A state is the queue's fields with the goroutines in flight, and
--   an `Action` of Queue.Schedule lets one goroutine take its next step, so that a list of actions
--   is an interleaving: `EnqueueWithContext` is `begin_enqueue`, `stamp_record`, `append_record` and
--   `collect_result`; `processLane` is `process_iteration`, again and again; `executeTask` is
--   `leave_lane`, `send_result` and `release_slot`. A round of `WaitForActive` is `scan_lanes`,
--   with the steps of other goroutines between its looks at the lanes. Queue.Rules has one rule for each operation, by
--   which the invariants of the other children are proved.
-- - Policy, with its children: the policies of pkg/toolexecutor (policy.go, evaluator.go and
--   `ToolPolicy` of executor.go).
-- - RateLimit, with its children: pkg/gateway/ratelimiter.go as pkg/gateway/server.go uses it
--   (Client), and pkg/webhook/ratelimiter.go (PerIp). A trace is the list of what reaches a limiter;
--   the model records the accepted requests beside it, and for a client of the gateway the number
--   of requests whose goroutine runs.
-- - Node, with its children: pkg/node (registry.go, permission.go, validator.go, heartbeat.go,
--   invocation.go). Node.Operations has the operations on the registry as data, so that a history
--   is a list; `Invoke` is `begin_invoke` and, after the wait, `finish_invoke` or
--   `time_out_invoke`.
-- - Category, with Category.Rules: pkg/toolexecutor/categories.go, the registry of tools and the
--   category rules; strings.ToLower is a parameter.
-- - Allowlist, with Allowlist.Removal: pkg/toolexecutor/allowlist.go, the commands that may be
--   executed without an approval; filepath.Match is a parameter.
-- - Planner, with its children: pkg/planner (planner.go, executor.go, review.go). The loop over the
--   levels of `GetExecutionOrder` is on fuel, and the number of steps and one more are enough
--   (Planner.Levels). Planner.Generate has the validation of a plan, Planner.Executor its execution
--   with the join strategy "all", Planner.Join the other two, Planner.Review the reviewer's part.
-- - Plugin, with its children: pkg/plugin/dependency.go, the graph of plugin dependencies, with the
--   manifests and the graph of pkg/plugin/types.go. A depth-first search is on fuel, one unit for
--   each call below another; Plugin.Acyclic shows that the names of the graph and one more are
--   enough. The semver library is the record `Semver`.
-- - Pairing, with its children: pkg/pairing/manager.go, the requests of unknown peers and the
--   allowlist. What the files hold, which saves go through and which codes are drawn are arguments;
--   Pairing.Runs has the operations as data.
-- - Subagent, with its children: pkg/subagent (coordinator.go, types.go), the runs of subagents.
--   An operation gives the events that it emits; Subagent.Kept has the operations as data. The
--   recursion of `addDescendants` is on fuel, and one more than the rank of a session is enough.
-- - Base: lists, maps with text keys as association lists, and Boolean tests.
--
-- Go maps are association lists; the theorems hold for every order of their entries. Integers are
-- natural numbers: counters are not bounded, and negative limits behave as 0. Times are natural
-- numbers of a clock that does not go back. Fuel: `process_lane` takes one unit for each iteration,
-- and the length of the queue and one more are enough. Goroutines may interleave more freely in
-- the model than the locks of the code allow.
--
-- Not modelled: logging, spans and metrics, the contexts of calls, timers that only warn, and what
-- tasks do; the other packages of the repository.
mod Base
pub mod RateLimit
pub mod Node
pub mod Plugin
pub mod Pairing
pub mod Subagent
pub mod Planner
pub mod Allowlist
pub mod Category
pub mod Policy
pub mod Dedup
pub mod Queue
