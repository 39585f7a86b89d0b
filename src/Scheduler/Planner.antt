-- ===== src/Scheduler/Planner.antt =====
-- `select_plan` of src/bridge/scheduler/planner.py: which candidate task goes to which worker.
-- What it reads of the outside (the clock, generated ids) is a parameter of each round of its loop.
pub mod Eligible
pub mod Ranking
pub mod Round
pub mod Bounds
pub mod Justified
pub mod Exclusive
use codearts_bridge.Prelude.{
  ℕ, suc, ◌+◌, ◌≤◌, String, Bool, true, false, not, ◌&&◌, Option, none, some, List, [], ◌∷◌, ◌++◌,
  ◌==◌, keep, length, leb, if◌then◌else◌,
}
use codearts_bridge.Prelude.Sort.{sort}
use codearts_bridge.Core.Value.{ℤ, leb_ℤ}
use codearts_bridge.Core.Errors.{Result, ok, raise, index_error, ◌>>=◌}
use codearts_bridge.Core.Models.{Worker, Task, Project, Assignment, Lease, Registry, get_project}
use codearts_bridge.Scheduler.Matcher.{
  given, is_id, filter_candidates, filter_project_candidates, score_worker,
}
use codearts_bridge.Scheduler.Capacity.{filter_with_capacity}
use codearts_bridge.Scheduler.Affinity.{apply_anti_affinity, apply_preferred}
use codearts_bridge.Scheduler.Dependency.{States, is_dependency_ready, get_blocked_dependencies}
use codearts_bridge.Scheduler.Clock.{Clock}
use codearts_bridge.Scheduler.Lease.{Leases, get_active_lease, create_lease}

-- The `reason` of a skipped task, with the other fields of its entry.
pub data Reason : Type 0 where
  dependencies_not_ready : (blocked : List String) → Reason
  active_lease : (lease_id : String) → Reason
  no_matching_worker : Reason
  explicit_worker_unavailable : (worker_id : Option String) → Reason
  project_unavailable : (project_id : String) → Reason
  explicit_worker_project_mismatch : Task → Project → Reason
  no_project_compatible_worker : Task → Project → Reason
  no_capacity : Reason
  anti_affinity_excluded_all : Reason

pub record Skipped : Type 0 where
  pub task_id : String
  pub reason : Reason

pub record ExecutionPlan : Type 0 where
  pub assignments : List Assignment
  pub skipped : List Skipped

-- A stage of the loop's body: `continue` with an entry in `skipped`, or go on.
pub data Choice {ℓ} (A : Type ℓ) : Type ℓ where
  skip : Reason → Choice A
  choose : A → Choice A

infixl 5 ◌⇒◌
abbrev pub ◌⇒◌ : {A B : Type 0} → Choice A → (A → Choice B) → Choice B
skip r ⇒ f = skip r
choose a ⇒ f = f a

-- `if not candidates: ... continue`
unfoldable pub or_skip : Reason → List Worker → Choice (List Worker)
or_skip reason [] = skip reason
or_skip reason (w ∷ ws) = choose (w ∷ ws)

unfoldable pub explicit_stage : Task → List Worker → Choice (List Worker)
explicit_stage task candidates =
    if given task.worker_id
    then or_skip (explicit_worker_unavailable task.worker_id)
        (keep (λ w. is_id task.worker_id w.id) candidates)
    else choose candidates

unfoldable pub placed_stage : Task → List Worker → Option Project → Choice (List Worker)
placed_stage task candidates none = skip (project_unavailable task.project_id)
placed_stage task candidates (some project) =
    or_skip
      (if given task.worker_id
        then explicit_worker_project_mismatch task project
        else no_project_compatible_worker task project)
      (filter_project_candidates candidates project)

unfoldable pub project_stage : Option Registry → Task → List Worker → Choice (List Worker)
project_stage none task candidates = choose candidates
project_stage (some registry) task candidates =
    placed_stage task candidates (get_project registry task.project_id)

unfoldable pub by_score : Task → Worker → Worker → Bool
by_score task v w = leb (score_worker w task) (score_worker v task)

unfoldable pub ranked : Task → List Worker → List Worker
ranked task candidates = sort (by_score task) (apply_preferred candidates task)

-- `candidates[0]`
unfoldable pub first : List Worker → Result Worker
first [] = raise index_error
first (w ∷ ws) = ok w

unfoldable pub by_priority : Task → Task → Bool
by_priority s t = leb_ℤ t.priority s.priority

-- An exception ends the loop; the leases that were created stay.
abbrev pub and_then :
    Result ExecutionPlan × Leases
    → (ExecutionPlan → Leases → Result ExecutionPlan × Leases)
    → Result ExecutionPlan × Leases
and_then (ok plan, leases) f = f plan leases
and_then (raise e, leases) f = (raise e, leases)

abbrev pub empty_plan : ExecutionPlan
empty_plan = record { assignments = []; skipped = [] }

module _ (workers : List Worker) (existing_assignments : List Assignment)
    (registry : Option Registry) where
  -- From the matching workers to those that may take the task, `planned` being planned before it.
  unfoldable pub candidates_for : Task → List Assignment → Choice (List Worker)
  candidates_for task planned =
      or_skip no_matching_worker (filter_candidates workers task)
      ⇒ explicit_stage task
      ⇒ project_stage registry task
      ⇒ (λ cs. or_skip no_capacity (filter_with_capacity cs (existing_assignments ++ planned)))
      ⇒ (λ cs.
          or_skip anti_affinity_excluded_all (apply_anti_affinity cs task existing_assignments))

  module _ (tasks_root : States) where
    -- The body of the loop up to the choice of the worker.
    unfoldable pub after_lease : Task → List Assignment → Option Lease → Choice (List Worker)
    after_lease task planned (some lease) = skip (active_lease lease.lease_id)
    after_lease task planned none = candidates_for task planned

    unfoldable pub decide :
        Clock → ℕ → Leases → Task → List Assignment → Result (Choice (List Worker))
    decide clock now leases task planned =
        if not (is_dependency_ready task.depends_on tasks_root none)
        then ok
            (skip (dependencies_not_ready (get_blocked_dependencies task.depends_on tasks_root)))
        else get_active_lease clock now leases task.task_id >>= λ lease.
            ok (after_lease task planned lease)

    module _ (clock : Clock) (now : ℕ → ℕ) (assignment_id lease_id : ℕ → String) where
      -- The assignment and the lease of the worker that is chosen in round `i`.
      unfoldable pub assign : ℕ → Task → Worker → Leases → Assignment × Leases
      assign i task chosen leases =
          let (lease, leases') =
            create_lease clock (now i) (lease_id i) leases task.task_id chosen.id
              task.execution.hard_timeout_minutes in
          (
            record {
              assignment_id = assignment_id i;
              task_id = task.task_id;
              worker_id = chosen.id;
              role = task.role;
              attempt = 1;
              lease_id = some lease.lease_id;
              created_at = clock.isoformat (now i);
              started_at = none;
              finished_at = none;
            },
            leases',
          )

      unfoldable pub dispatch :
          ℕ → Task → ExecutionPlan → Leases → Result Worker → Result ExecutionPlan × Leases
      dispatch i task plan leases (raise e) = (raise e, leases)
      dispatch i task plan leases (ok chosen) =
          let (assignment, leases') = assign i task chosen leases in
          (ok (record plan { assignments = plan.assignments ++ assignment ∷ [] }), leases')

      unfoldable pub settle :
          ℕ
          → Task
          → ExecutionPlan
          → Leases
          → Result (Choice (List Worker))
          → Result ExecutionPlan × Leases
      settle i task plan leases (raise e) = (raise e, leases)
      settle i task plan leases (ok (skip reason)) = (
        ok (record plan {
          skipped = plan.skipped ++ record { task_id = task.task_id; reason = reason } ∷ [];
        }),
        leases,
      )
      settle i task plan leases (ok (choose candidates)) =
          dispatch i task plan leases (first (ranked task candidates))

      -- The body of the loop.
      unfoldable pub round : ℕ → Task → ExecutionPlan → Leases → Result ExecutionPlan × Leases
      round i task plan leases =
          settle i task plan leases (decide clock (now i) leases task plan.assignments)

      unfoldable pub rounds :
          ℕ → ℕ → List Task → ExecutionPlan → Leases → Result ExecutionPlan × Leases
      rounds max_workers i [] plan leases = (ok plan, leases)
      rounds max_workers i (task ∷ tasks) plan leases =
          if leb max_workers (length plan.assignments)
          then (ok plan, leases)
          else and_then (round i task plan leases) (rounds max_workers (suc i) tasks)

      unfoldable pub select_plan : List Task → Leases → ℕ → Result ExecutionPlan × Leases
      select_plan tasks leases max_workers =
          rounds max_workers 0 (sort by_priority tasks) empty_plan leases
