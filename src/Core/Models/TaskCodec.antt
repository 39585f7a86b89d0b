-- ===== src/Core/Models/TaskCodec.antt =====
-- `from_dict` and `to_dict` of the tasks, assignments and leases, and the registries, of
-- src/bridge/core/models.py, with `none` as in Codec.antt.
use codearts_bridge.Prelude.{String, true, Option, none, some, List, [], ◌∷◌}
use codearts_bridge.Core.Json.{
  Json, null, bool, int, str, array, object, Items, no_items, item, Members, no_members, member,
  get, get_or, merged, as_text, as_bool, as_int, as_nat, as_object, as_optional_text, as_texts,
  of_texts, of_optional, object_or_empty, ◌>>=◌,
}
use codearts_bridge.Core.Models.{
  AgentConfig, TaskExecution, TaskReview, Task, Assignment, Lease, Registry, WorkersRegistry,
}
use codearts_bridge.Core.Models.Codec.{
  get_either, num, no_texts, agent_to_dict, project_from_dict, worker_from_dict,
}

unfoldable pub execution_from_dict : Json → Option TaskExecution
execution_from_dict v = do
  d ← object_or_empty v
  preferred_worker ← as_optional_text (get "preferredWorker" d)
  excluded_workers ← as_texts (get_or "excludedWorkers" no_texts d)
  workspace ← as_text (get_or "workspace" (str "auto") d)
  target_minutes ← as_nat (get_or "targetMinutes" (num 10) d)
  soft_timeout_minutes ← as_nat (get_or "softTimeoutMinutes" (num 25) d)
  hard_timeout_minutes ← as_nat (get_or "hardTimeoutMinutes" (num 30) d)
  some (record {
    preferred_worker = preferred_worker;
    excluded_workers = excluded_workers;
    workspace = workspace;
    target_minutes = target_minutes;
    soft_timeout_minutes = soft_timeout_minutes;
    hard_timeout_minutes = hard_timeout_minutes;
  })

unfoldable pub execution_to_dict : TaskExecution → Members
execution_to_dict e = member "preferredWorker" (of_optional e.preferred_worker) (
    member "excludedWorkers" (of_texts e.excluded_workers) (
      member "workspace" (str e.workspace) (
        member "targetMinutes" (num e.target_minutes) (
          member "softTimeoutMinutes" (num e.soft_timeout_minutes)
            (member "hardTimeoutMinutes" (num e.hard_timeout_minutes) no_members)))))

unfoldable pub review_from_dict : Json → Option TaskReview
review_from_dict v = do
  d ← object_or_empty v
  required ← as_bool (get_or "required" (bool true) d)
  independent_worker ← as_bool (get_or "independentWorker" (bool true) d)
  some (record { required = required; independent_worker = independent_worker })

unfoldable pub review_to_dict : TaskReview → Members
review_to_dict r =
    member "required" (bool r.required)
      (member "independentWorker" (bool r.independent_worker) no_members)

unfoldable pub task_from_dict : Members → Option Task
task_from_dict d = do
  task_id ← as_text (get_either "taskId" "task_id" (str "") d)
  project_id ← as_text (get_either "projectId" "project_id" (str "") d)
  worker_id ← as_optional_text (get_either "workerId" "worker_id" null d)
  title ← as_text (get_or "title" (str "") d)
  role ← as_text (get_or "role" (str "implement") d)
  required_skills ← as_texts (get_either "requiredSkills" "required_skills" no_texts d)
  depends_on ← as_texts (get_either "dependsOn" "depends_on" no_texts d)
  parent_task_id ← as_optional_text (get_either "parentTaskId" "parent_task_id" null d)
  priority ← as_int (get_or "priority" (num 50) d)
  execution ← execution_from_dict (get "execution" d)
  review ← review_from_dict (get "review" d)
  schema_version ← as_nat (get_or "schemaVersion" (num 2) d)
  some (record {
    task_id = task_id;
    project_id = project_id;
    worker_id = worker_id;
    title = title;
    role = role;
    required_skills = required_skills;
    depends_on = depends_on;
    parent_task_id = parent_task_id;
    priority = priority;
    execution = execution;
    review = review;
    schema_version = schema_version;
  })

unfoldable pub task_to_dict : Task → Members
task_to_dict t = member "schemaVersion" (num t.schema_version) (
    member "taskId" (str t.task_id) (
      member "projectId" (str t.project_id) (
        member "workerId" (of_optional t.worker_id) (
          member "title" (str t.title) (
            member "role" (str t.role) (
              member "requiredSkills" (of_texts t.required_skills) (
                member "dependsOn" (of_texts t.depends_on) (
                  member "parentTaskId" (of_optional t.parent_task_id) (
                    member "priority" (int t.priority) (
                      member "execution" (object (execution_to_dict t.execution))
                        (member "review" (object (review_to_dict t.review)) no_members)))))))))))

unfoldable pub assignment_from_dict : Members → Option Assignment
assignment_from_dict d = do
  assignment_id ← as_text (get_either "assignmentId" "assignment_id" (str "") d)
  task_id ← as_text (get_either "taskId" "task_id" (str "") d)
  worker_id ← as_text (get_either "workerId" "worker_id" (str "") d)
  role ← as_text (get_or "role" (str "implement") d)
  attempt ← as_nat (get_or "attempt" (num 1) d)
  lease_id ← as_optional_text (get_either "leaseId" "lease_id" null d)
  created_at ← as_text (get_or "createdAt" (str "") d)
  started_at ← as_optional_text (get "startedAt" d)
  finished_at ← as_optional_text (get "finishedAt" d)
  some (record {
    assignment_id = assignment_id;
    task_id = task_id;
    worker_id = worker_id;
    role = role;
    attempt = attempt;
    lease_id = lease_id;
    created_at = created_at;
    started_at = started_at;
    finished_at = finished_at;
  })

unfoldable pub assignment_to_dict : Assignment → Members
assignment_to_dict a = member "assignmentId" (str a.assignment_id) (
    member "taskId" (str a.task_id) (
      member "workerId" (str a.worker_id) (
        member "role" (str a.role) (
          member "attempt" (num a.attempt) (
            member "leaseId" (of_optional a.lease_id) (
              member "createdAt" (str a.created_at) (
                member "startedAt" (of_optional a.started_at)
                  (member "finishedAt" (of_optional a.finished_at) no_members))))))))

unfoldable pub lease_from_dict : Members → Option Lease
lease_from_dict d = do
  lease_id ← as_text (get_either "leaseId" "lease_id" (str "") d)
  task_id ← as_text (get_either "taskId" "task_id" (str "") d)
  worker_id ← as_text (get_either "workerId" "worker_id" (str "") d)
  expires_at ← as_text (get_or "expiresAt" (str "") d)
  heartbeat_at ← as_text (get_or "heartbeatAt" (str "") d)
  created_at ← as_text (get_or "createdAt" (str "") d)
  some (record {
    lease_id = lease_id;
    task_id = task_id;
    worker_id = worker_id;
    expires_at = expires_at;
    heartbeat_at = heartbeat_at;
    created_at = created_at;
  })

unfoldable pub lease_to_dict : Lease → Members
lease_to_dict l = member "leaseId" (str l.lease_id) (
    member "taskId" (str l.task_id) (
      member "workerId" (str l.worker_id) (
        member "expiresAt" (str l.expires_at) (
          member "heartbeatAt" (str l.heartbeat_at)
            (member "createdAt" (str l.created_at) no_members)))))

-- `[from_dict({**defaults, **entry}) for entry in entries]`
unfoldable pub each_from {ℓ} :
    {A : Type ℓ} → (Members → Option A) → Members → Items → Option (List A)
each_from from_dict defaults no_items = some []
each_from from_dict defaults (item v vs) = do
  entry ← as_object v
  first ← from_dict (merged defaults entry)
  rest ← each_from from_dict defaults vs
  some (first ∷ rest)

abbrev pub as_items : Json → Option Items
as_items (array vs) = some vs
as_items _ = none

unfoldable pub registry_from_dict : Members → Option Registry
registry_from_dict d = do
  defaults ← as_object (get_or "defaults" (object no_members) d)
  entries ← as_items (get_or "projects" no_texts d)
  projects ← each_from project_from_dict defaults entries
  some (record { defaults = defaults; projects = projects })

unfoldable pub workers_registry_from_dict : Members → Option WorkersRegistry
workers_registry_from_dict d = do
  defaults ← as_object (get_or "defaults" (object no_members) d)
  entries ← as_items (get_or "workers" no_texts d)
  workers ← each_from worker_from_dict defaults entries
  some (record { defaults = defaults; workers = workers })

pub record ResolvedExecutionConfig : Type 0 where
  pub task_id : String
  pub worker_id : String
  pub role : String
  pub agent : AgentConfig
  pub transport : Members
  pub workspace : Members
  pub timeouts : Members

unfoldable pub resolved_to_dict : ResolvedExecutionConfig → Members
resolved_to_dict c = member "taskId" (str c.task_id) (
    member "workerId" (str c.worker_id) (
      member "role" (str c.role) (
        member "agent" (object (agent_to_dict c.agent)) (
          member "transport" (object c.transport) (
            member "workspace" (object c.workspace)
              (member "timeouts" (object c.timeouts) no_members))))))
