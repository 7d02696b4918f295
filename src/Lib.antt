-- ===== src/Lib.antt =====
-- Model and proofs for the core of PlatformFoundry CE, an internal developer platform written in
-- Go. The files under verification/ follow the packages of the repository:
--
-- - Base: what the parts share. Base.Maps models a Go map with string keys as an association list
--   with one entry to a key. Go leaves the order of `range` over a map open: a `RangeOrder` is a
--   parameter that gives the order of the n-th range statement of a call, and `VisitsAll`, its one
--   law, is that each key is visited once. Base.Int64 has Go's int64 with its wrap-around.
-- - Dag: internal/workflow/dag/graph.go, the graph of workflow steps. Dag.Graph has AddNode,
--   RemoveNode and the readers; Dag.Search has detectCycle and HasCycle; Dag.Levels has
--   GetParallelExecutionLevels, TopologicalSort, Validate and BuildFromSteps. The recursion of
--   detectCycle and the loop over levels take fuel, the number of nodes and one more: each
--   recursive call visits a new node and each round completes one, and the theorems show that
--   the fuel is never used up. Dag.Goroutines has the order in which the goroutines of levels run.
-- - Executor: internal/workflow/dag/executor.go. Executor.Step has executeStep with its attempts, whose
--   number the step gives; Executor.Run has Execute and executeLevel over the levels of Dag. What
--   the handlers return is an argument. The goroutines of a level are taken one after the other,
--   in an order that is a `RangeOrder` too. Timeouts, delays and logs are left out, and so are
--   changes that a handler makes to the entry of its step.
-- - Quota: internal/quota/manager.go with the types of pkg/types/quota.go. Quota.Manager has the
--   manager's state, RegisterQuota, UnregisterQuota and Check; Quota.Usage has Consume, Release and
--   the other calls that change the usage, and in modules below it the proofs. Consume checks under
--   a read lock and commits under a write lock: `consume_check` and `consume_commit` are the two
--   steps, between which other calls may come. Percentages are floats: that a usage reaches a
--   percentage of a limit is a parameter of the definitions that ask it. GetStatus and
--   GenerateReport, which only read, are not modelled.
-- - Jobs: internal/jobs/job.go. Jobs.Queue has a function for each stretch of Submit, Cancel,
--   executeJob and Wait between two acquisitions of the lock; Jobs.Lifecycle has the steps that the
--   goroutines take, in any order, as a relation on queues. A job function is taken to work on its
--   job by Log, SetProgress and SetMetadata. The order and the capacity of the channel, the number
--   of workers and Stop are not modelled: the relation has more runs than the code.
-- - EdgeSearch: the search for a cycle that internal/engine/dependency_graph.go and
--   internal/orchestrator/dependency.go have in one form; EdgeSearch.Simulation relates it to that
--   of Dag. Its recursion takes as fuel the number of names and one more.
-- - Engine: internal/engine/dependency_graph.go. Engine.Graph has the graph of engines, whose
--   removal and levels are those of Dag; Engine.Resolver has the resolver of dependencies by name
--   with its outputs, and WaitFor as a function of the events that come to it. GetAllOutputs is
--   not modelled.
--   Engine.Coordinator has internal/engine/coordinator.go: the registration of engines, Apply with its
--   attempts, levels and rollback. What the methods of an engine return on each attempt is an
--   argument, and the goroutines of a level run one after the other, in an order that is a
--   `RangeOrder`. GetStatus, Plan, HealthCheck and Stop, which ask each engine, the events, the
--   timeout and the semaphore are left out.
-- - Orchestrator: internal/orchestrator/dependency.go. Orchestrator.Dependency has how dependencies
--   are read from a resource and the order of a batch; the fuel of `visit` is the number of
--   resources and one more, since each recursive call marks a new resource. Orchestrator.Apply
--   has Apply and Delete of internal/orchestrator/orchestrator.go over a store that is the map of
--   what was saved, and Orchestrator.Rollback the plans of internal/orchestrator/rollback.go. What
--   plugins answer and whether the backend takes a read or a write are arguments; the reads of a
--   plan and those of its execution fail or not on their own.
-- - Environment: internal/environment/resolver.go. Environment.Resolver has Resolve, on a heap of Go
--   maps, since the copy of a struct shares them; Environment.Chain has the check of promotions,
--   whose fuel is the number of promotions and two more.
-- - Jit: internal/rbac/jit.go, requests for access that end. Jit.Manager has the calls, each one
--   step with the time that it reads from the clock as an argument, in nanoseconds; a goroutine
--   of scheduleRevocation is a timer of the state; Jit.Cleanup has the periodic cleanup; Jit.Steps
--   has the calls and the timers in any order. The map of requests has the pointers that callers
--   gave: a request has the address of its struct, and a write shows in each entry with this
--   address (Jit.Sharing). ApproveAccess and RevokeAccess release their lock in between, which is
--   not modelled. The audit log and the notifier are left out.
-- - Rbac: internal/rbac/rbac.go. Rbac.Access has the users, the roles with their permissions, the
--   log and the calls on them; `check_permission` returns how the check ends, a panic included. The
--   audit file and the JSON export are not modelled. Rbac.Orgs has the roles in organisations of
--   internal/rbac/org_rbac.go. Rbac.Abac has the attribute policies of internal/rbac/abac.go, with
--   the matchers, the tests on the bytes of texts and the bubble sort of policies in modules below
--   it; floats, regular expressions, the clock, the store and the policy engine are arguments.
--
-- Mutexes are left out where a method holds its lock from start to end. Texts of messages are left
-- out: an error is a constructor with the values that its message shows. Commands, servers,
-- plugins and storage, which are input and output around the parts above, are not modelled.
pub mod Base
pub mod Dag
pub mod EdgeSearch
pub mod Engine
pub mod Environment
pub mod Executor
pub mod Jit
pub mod Jobs
pub mod Orchestrator
pub mod Quota
pub mod Rbac
