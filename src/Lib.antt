-- ===== src/Lib.antt =====
-- The core of Fishyume's workflow engine (wf-engine/internal): a workflow is a graph of Agent and
-- approval nodes. A run schedules the nodes in a topological order, starts Agents through backends
-- within a limit, chooses a model for each by a routing decision, and derives its own state from the
-- states of its nodes. Files on disk, shared by processes, say who controls a run and which requests
-- were applied.
--
-- Parts, with the code that each models:
--   Base       texts, Booleans, lists, maps as association lists, integers, sorting.
--   Routing    wf-engine/internal/routing: contract.go (Routing/Contract, Routing/Validation) and
--              resolver.go (Routing/Resolver, Routing/Resolve: `ResolveV1` as `resolve`).
--   Workflow   wf-engine/internal/workflow: model.go (Workflow/Model, Workflow/Graph:
--              `TopologicalOrder`, Workflow/Ancestors: `ancestors`, Workflow/Agent: `ResolveAgent`
--              and the effective policies, Workflow/Inputs: `ResolveInputs`), template.go
--              (Workflow/Reference: `referenceValue`, Workflow/Condition: `Evaluate`,
--              Workflow/Template: `ParseTemplate`, `Render`) and validate.go (Workflow/Condition:
--              `validateCondition`, Workflow/Validate: `Validate`, `ValidateContextBindings`).
--   Run        wf-engine/internal/run: lifecycle.go (Run/State: snapshots and their validation),
--              scheduler.go (Run/Facts, Run/Schedule: `PlanSchedule`, `EffectiveConcurrency`),
--              aggregation.go with parts of parallel_launch.go and service.go (Run/Aggregate:
--              `aggregateRunState`, `aggregateConclusion`), and the actions of service.go:
--              Run/Action (requests and answers), Run/Plan and Run/Apply (`applyAction`, `Resume`),
--              Run/Intent (intents, their replay and abort, `persistRun`), Run/Reset
--              (`planDownstreamReset`, `skipUnstarted`), Run/Receipts (`recordActionReceipt`),
--              Run/Event (the event log), Run/Equality (`reflect.DeepEqual`) and Run/Disk (the
--              records of store/json_store.go that they read and write).
--   Store      wf-engine/internal/store: lease.go (Store/Lease: `acquire`, `Owns`, `Bound`,
--              `Heartbeat`, `Release`), application_journal.go (Store/Journal: the begin, mark and
--              commit of a journal), cancel_request.go (Store/CancelRequest) and `validateID` of
--              json_store.go (Store/Ids).
--   Tests      concrete documents, runs, requests and files.
-- The scheduler reads the graph, evaluates conditions on the results of the nodes, and hands its
-- plan to the service; aggregation reads the same nodes. The resolver serves the service when an
-- attempt is made.
--
-- State and errors: Go's `(value, error)` is `Outcome`, with an error type of each component in
-- place of messages. String types with declared constants are data types with one more constructor
-- for any other text. A map with string keys is an association list; statements over all lists
-- cover every order of iteration. `int` is ℤ of Base/Int where the code lets it be negative, and ℕ
-- behind the guards that show it is not. Files are a slot that is empty, unreadable or holds a
-- record, and the file operations return the slot that they leave behind, also when a call of the
-- operating system fails. The actions run in a monad over the records of one run (Run/Disk): each
-- write may find that the process has stopped, so that a theorem about every number of writes left
-- is one about a stop at every write. What a write stores is what reading the file gives back: a
-- raw JSON text, of an answer, a request or a response, comes back indented as `MarshalIndent` has
-- written it, by its depth in the file (`indented`).
-- Fuel: the outer loop of `TopologicalOrder` has one round for each node of the document, and
-- Workflow/Graph/Order proves that it never runs out for a document with distinct node IDs; the search
-- of `ancestors` has two levels more than there are nodes, and Workflow/Ancestors/Reachable proves that
-- it finds every chain; the loop of `recordActionReceipt` has one round for each receipt, and
-- Run/Receipts/Bounded proves that it comes down to the limit.
--
-- Parameters: SHA-256 over canonical JSON (`digest`), the JSON encoding of compared values
-- (`marshal`) and of answers (`encode`), the indentation of raw JSON texts (`indented`), JSON
-- validity and equality of journal texts and the length of their files (`Json`), `fmt.Sprint`
-- (`print`), the functions of path/filepath, the clock (`now`), the probe of a process, and
-- `pendingRoutingTarget` (`route`), which stands on attempts that are not modelled.
-- Not modelled: the 4 MiB limit of `readJSON` on the files of a run, the times of runs, error
-- messages, `ValidateResult`, attempts, the launching of Agents and the drivers, the controller, the
-- cancelling of Agents, teams, context compilation, transport and user interfaces.
pub mod Base
pub mod Routing
pub mod Workflow
pub mod Run
pub mod Store
mod Tests
