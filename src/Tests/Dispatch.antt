-- ===== src/Tests/Dispatch.antt =====
-- The dispatch of src/bridge/auto_dispatch.py and a cycle of src/bridge/pipeline.py on small inputs.
use codearts_bridge.Prelude.{
  ℕ, ◌≤◌, ◌≡◌, refl, length, true, false, Option, none, some, List, [], ◌∷◌, String, All, ◌==◌,
  keep, mem, if◌then◌else◌,
}
use codearts_bridge.Core.Value.{
  str, content, missing, pos, find, get, get_or, in_states, is_text, put, put_if, truthy, ◌or◌,
}
use codearts_bridge.Legacy.{get_state, mirrored}
use codearts_bridge.Tasks.{status_of}
use codearts_bridge.Core.Json.{Json}
use codearts_bridge.Core.Errors.{ok}
use codearts_bridge.Core.Models.{
  Worker, Task, Assignment, Lease, Project, Registry, WorkersRegistry, enabled_workers,
}
use codearts_bridge.Scheduler.Lease.{Leases, write_lease, new_lease}
use codearts_bridge.Scheduler.Planner.{ExecutionPlan, select_plan}
use codearts_bridge.Tests.Scheduler.{program}
use codearts_bridge.Core.Json.{no_members}
use codearts_bridge.AutoDispatch.{World, no_result, dispatch_all, auto_dispatch}
use codearts_bridge.AutoDispatch.Outcomes.{OnOk}
use codearts_bridge.AutoDispatch.Accounts.{Accounted, auto_dispatch-Accounted}
use codearts_bridge.AutoDispatch.Released.{Placed, dispatch_all-Placed}
use codearts_bridge.Integration.{refused}
use codearts_bridge.Pipeline.{
  raised, integration_failed, Inputs, PipelineState, Status, Cycle, run_pipeline_cycle, real_cycle,
  finished, status_after, is_blocked, is_nil, conflict_step, integrate_step, integrated_ids,
  after_detect, marked, after_handle, dispatch_step, reviewed_step, with_passes, count_first_passes,
  failures, has_active_tasks, is_open,
}
use codearts_bridge.Core.Errors.{threw, returned}
use codearts_bridge.Pipeline.Totals.{Recorded, run_pipeline_cycle-Recorded}
use codearts_bridge.Tests.Samples.{sample_clock, stamp}

abbrev assignment : String → String → Assignment
assignment task_id lease_id = record {
  assignment_id = "a";
  task_id = task_id;
  worker_id = "w1";
  role = "implement";
  attempt = 1;
  lease_id = some lease_id;
  created_at = "";
  started_at = none;
  finished_at = none;
}

abbrev lease : String → String → Lease
lease lease_id task_id = record {
  lease_id = lease_id;
  task_id = task_id;
  worker_id = "w1";
  expires_at = "";
  heartbeat_at = "";
  created_at = "";
}

-- `t1` starts, `t2` is no longer a candidate, and `t3` does not start.
abbrev world : World
world = record {
  tasks =
      ("t1", content (("state", str "READY") ∷ []))
      ∷ ("t2", content (("state", str "DONE") ∷ []))
      ∷ ("t3", content (("state", str "READY") ∷ []))
      ∷ [];
  saved = [];
  leases =
      ("l1", content (lease "l1" "t1"))
      ∷ ("l2", content (lease "l2" "t2"))
      ∷ ("l3", content (lease "l3" "t3"))
      ∷ [];
}

abbrev planned : List Assignment
planned = assignment "t1" "l1" ∷ assignment "t2" "l2" ∷ assignment "t3" "l3" ∷ []

abbrev spawn : Assignment → Option String
spawn a = if a.task_id == "t3" then some "no process" else none

abbrev time : ℕ → String
time i = "now"

dispatch_all-Placed_example :
    OnOk
      (λ r w. All (λ a. Placed a r w) planned)
      (dispatch_all spawn time time 0 planned (no_result false) world)
dispatch_all-Placed_example = dispatch_all-Placed spawn time time 0 planned (no_result false) world

abbrev project : Project
project = record {
  id = "p";
  name = "p";
  enabled = true;
  transport = "local";
  project_root = "/srv";
  run_mode = "auto";
  model = "default";
  timeout_minutes = 60;
  default_workspace = "worktree";
  required_skills = [];
  policy_profile = "default";
  ssh_host = none;
  remote_workspace_root = none;
  remote_cli_path = none;
  remote_bridge_root = none;
  metadata = no_members;
}

abbrev worker : Worker
worker = record {
  id = "w1";
  enabled = true;
  transport = "local";
  host = none;
  cli_path = none;
  model = "default";
  concurrency_limit = 1;
  roles = "implement" ∷ [];
  skills = [];
  agent = record { type = "codearts"; model = "default" };
  workspace = record { supported = "existing" ∷ [] };
  capabilities = [];
}

abbrev task : Task
task = record {
  task_id = "t1";
  project_id = "p";
  worker_id = none;
  title = "";
  role = "implement";
  required_skills = [];
  depends_on = [];
  parent_task_id = none;
  priority = pos 50;
  execution = record {
    preferred_worker = none;
    excluded_workers = [];
    workspace = "auto";
    target_minutes = 10;
    soft_timeout_minutes = 25;
    hard_timeout_minutes = 30;
  };
  review = record { required = true; independent_worker = true };
  schema_version = 2;
}

abbrev registry : Registry
registry = record { defaults = no_members; projects = project ∷ [] }

abbrev registered : WorkersRegistry
registered = record { defaults = no_members; workers = worker ∷ [] }

abbrev plan : ExecutionPlan
plan = record {
  assignments =
      record {
        assignment_id = stamp 0;
        task_id = "t1";
        worker_id = "w1";
        role = "implement";
        attempt = 1;
        lease_id = some (stamp 0);
        created_at = sample_clock.isoformat 5;
        started_at = none;
        finished_at = none;
      }
      ∷ [];
  skipped = [];
}

abbrev plan_leases : Leases
plan_leases = write_lease (stamp 0) (new_lease sample_clock 5 (stamp 0) "t1" "w1" 30) []

-- The same tasks, and no lease yet.
abbrev fresh_world : World
fresh_world = record world { leases = [] }

plan_run :
    select_plan
      (worker ∷ [])
      []
      (some registry)
      fresh_world.tasks
      sample_clock
      (λ i. 5)
      stamp
      stamp
      (task ∷ [])
      fresh_world.leases
      4
    ≡ (ok plan, plan_leases)
unfolding program
plan_run = refl

auto_dispatch-Accounted_example :
    (length plan.assignments ≤ 4)
    × OnOk (Accounted spawn time time plan.assignments) (
        auto_dispatch spawn time time sample_clock
          (λ i. 5)
          stamp
          stamp
          false
          4
          []
          (some registry)
          (some registered)
          (ok (task ∷ []))
          fresh_world)
unfolding enabled_workers keep
auto_dispatch-Accounted_example =
    auto_dispatch-Accounted spawn time time sample_clock (λ i. 5) stamp stamp 4 [] registry
      registered worker [] task [] fresh_world plan plan_leases refl plan_run

-- Two tasks are integrated, of which one conflicts; the dispatch raises.
abbrev inputs : Inputs
inputs = record {
  tasks = [];
  architect =
      returned
        (record { reviewed = 1; passed = 0; fixed = 1; errors = []; planned = 0; verdicts = [] });
  dispatch = threw "auto_dispatch: no space";
  integrate = returned (
      record (refused "t1" "") { success = true }
      ∷ record (refused "t2" "") { success = true }
      ∷ refused "t3" ""
      ∷ []);
  tasks_after = [];
  detect = λ tid. returned (tid == "t2");
  handle = λ tid. returned tt;
  tasks_at_end = ("t3", content (("status", str "RUNNING") ∷ [])) ∷ ("t4", missing) ∷ [];
  time = Json.number true "0.5";
}

abbrev before : PipelineState
before = record {
  cycle_count = 7;
  status = Status.idle;
  last_cycle_time = Json.number false "0.0";
  total_dispatched = 3;
  total_reviewed = 2;
  total_integrated = 2;
  total_conflicts = 0;
  first_pass_count = 1;
  total_pass_count = 2;
}

abbrev after : Cycle
after = (
  record {
    cycle_count = 8;
    status = Status.running;
    last_cycle_time = Json.number true "0.5";
    total_dispatched = 3;
    total_reviewed = 3;
    total_integrated = 4;
    total_conflicts = 1;
    first_pass_count = 1;
    total_pass_count = 2;
  },
  record {
    cycle = 8;
    dispatched = 0;
    reviewed = 1;
    integrated = 2;
    conflicts = 1;
    errors = raised "auto_dispatch: no space" ∷ integration_failed "t3" "integration failed" ∷ [];
  },
)

run_pipeline_cycle_run : run_pipeline_cycle false inputs before ≡ ok after
unfolding run_pipeline_cycle real_cycle finished status_after is_blocked is_nil conflict_step
    integrate_step integrated_ids keep after_detect marked after_handle dispatch_step reviewed_step
    with_passes count_first_passes failures has_active_tasks is_open status_of get_state mirrored
    find get get_or in_states is_text put put_if truthy ◌or◌ mem
run_pipeline_cycle_run = refl

run_pipeline_cycle-Recorded_example : Recorded before after
run_pipeline_cycle-Recorded_example =
    run_pipeline_cycle-Recorded before inputs after run_pipeline_cycle_run
