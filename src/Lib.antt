-- ===== src/Lib.antt =====
-- A model of CodeartsBridge, the control plane that hands development tasks to worker agents
-- (the Python package src/bridge).
--
-- A task is a directory with META.json and state.json. The scheduler plans which candidate task goes
-- to which worker and guards each with a lease; a finished run is classified into a state; a review
-- sends the task back or approves it; the deletion of a record waits for a run to end. On a worker an
-- agent runs each job under two timeouts and settles what a restart left behind. The pipeline is the
-- cycle around them: the architect reviews, auto dispatch plans and starts workers, approved work is
-- integrated, and conflicts are marked. State changes are announced in an event log.
--
-- Which file models what:
-- Core.Value: JSON documents and files (src/bridge/atomic.py). An object is a list of keys and values
-- in Python's insertion order; a number with a fraction, an array or an object inside is opaque.
-- Core.Errors: the exceptions, as a result type (src/bridge/core/errors.py).
-- Core.State: states, transitions, get_state and set_state (src/bridge/core/state.py). Its children
-- hold the proofs: Table and Reviewed about the table, Update and Effect about one call, History
-- about sequences of calls.
-- Core.Models: the records (src/bridge/core/models.py); Codec and TaskCodec are their conversions from
-- and to JSON objects, whose values nest and stand in Core.Json, and RoundTrip is about both.
-- Tasks: the directory tasks/ as the loops over it read and write it.
-- Config: safe ids and the registries of src/bridge/config.py. SafeId and Defaults hold the proofs.
-- Events: the event log of src/bridge/core/events.py. Codec is one event, Sequence about the numbers,
-- Cursor about readers, Rotation about rotated files. StateEvents: src/bridge/state_events.py.
-- Legacy: the older layer over state.json, src/bridge/state.py, with Merge about its merge.
-- Scheduler.Matcher, Capacity, Affinity, Dependency and Lease: the files of those names in
-- src/bridge/scheduler. Scheduler.Clock is the interface to Python's times.
-- Scheduler.Planner: select_plan of src/bridge/scheduler/planner.py. Its loop is a recursion on the
-- sorted tasks; a round reads the clock and the generated ids at its own index. Eligible, Ranking
-- and Round describe a round, Bounds, Justified and Exclusive the whole plan.
-- Scheduler.Finish and Scheduler.Reconcile: finish_assignment and reconcile_assignments of the same
-- file, each with what is on disk as its state. Live is about what stays open; Repair,
-- Visits and Repaired are about the direct write of state.json that passes the table of transitions by.
-- Scheduler.Priority: src/bridge/scheduler/priority.py, over an interface for floats. Selection is
-- about the choice of a worker, Plan about the whole plan.
-- AutoDispatch: src/bridge/auto_dispatch.py, which calls select_plan and writes the older state layer.
-- Outcomes are the ends of one dispatch, Accounts the share of each planned assignment, Released is about
-- leases.
-- Architect: src/bridge/architect_loop.py without the planning; Judgement is the verdict, Verdicts is
-- about the review and the counts of the loop, Superseded about the dependency of a fix task.
-- Integration: src/bridge/integration.py, over an interface for git and the tests, whose failures are
-- texts; messages keep git's text only. Loop is integrate_loop. Outcomes is about one task, Serial
-- about the loop, Reverted about branches.
-- Conflict: src/bridge/conflict.py; Overlap is about the files that conflict.
-- Pipeline: one cycle of src/bridge/pipeline.py over what its calls return; Persisted is its file,
-- Totals about its counters.
-- Agent: the worker runtime's jobs (src/bridge/agent/models.py and store.py). Agent.Watchdog and
-- Agent.Recovery: the files of those names beside it. Whether a process lives, its exit code, whether
-- it could be signalled, git's report and the outbox are arguments.
-- Workspace: src/bridge/workspace/policy.py.
-- Review: review_pass of src/bridge/application/review_service.py and cancel_task of
-- src/bridge/application/task_service.py.
-- TaskService: create_task of the same file; Created is about what it leaves.
-- Classifier: src/bridge/result_classifier.py. TaskDelete: src/bridge/task_delete.py,
-- with Laws about requests and removals and Idle about when a removal happens.
-- Tests: runs on small inputs, and the theorems at inputs that meet their hypotheses.
--
-- No function takes fuel: every loop of the source that is modelled goes over a list.
-- Directories are lists in the order in which they are visited. Within one round of select_plan, one
-- visit of reconcile_assignments and one check of a job all readings of the clock are one. Limits and
-- minutes that the code only compares with a count are natural numbers, since there a negative value
-- acts like 0.
--
-- Out of the model: fields of META.json of another type than their annotation, which Python keeps
-- unchecked and the model passes over; fractions that int() would truncate; times past the year 9999.
--
-- Not modelled: the atomic replacement of files, locks, processes, HTTP, SSH and git, the web UI and
-- the command line, which are input and output around these parts.
pub mod Prelude
pub mod Core
pub mod Tasks
pub mod Config
pub mod Events
pub mod StateEvents
pub mod Legacy
pub mod Scheduler
pub mod AutoDispatch
pub mod Architect
pub mod Integration
pub mod Conflict
pub mod Pipeline
pub mod TaskService
pub mod Classifier
pub mod TaskDelete
pub mod Review
pub mod Agent
pub mod Workspace
pub mod Tests
