-- ===== src/Tests/Records.antt =====
-- Records of src/bridge/core/models.py, written and read back, and a task that is created by
-- src/bridge/application/task_service.py.
use codearts_bridge.Prelude.{◌<◌, ◌≤◌, String, mem, ◌≡◌, refl, true, false, none, some, [], ◌∷◌}
use codearts_bridge.Core.Value.{
  pos, str, Value, find, get, get_or, put, update, is_text, truthy, ◌or◌, to_int, add_one,
}
use codearts_bridge.Core.Json.{Json, no_members, member}
use codearts_bridge.Core.Errors.{ok}
use codearts_bridge.Core.State.{
  set_state, ready, read_or_empty, from_state_of, with_extra, with_revision, revision_of,
  valid_from, is_valid_transition, targets,
}
use codearts_bridge.Core.Models.{Project, Worker}
use codearts_bridge.Core.Models.Codec.{
  project_from_dict, project_to_dict, worker_from_dict, worker_to_dict,
}
use codearts_bridge.Core.Models.TaskCodec.{task_from_dict}
use codearts_bridge.Core.Models.RoundTrip.{
  project_from_dict-project_to_dict, worker_from_dict-worker_to_dict,
}
use codearts_bridge.Config.{
  assert_safe_id, is_safe_id, is_alphanumeric, matches_rest, is_id_char, at_end,
}
use codearts_bridge.Workspace.{
  normalize_workspace_request, checked_request, cleaned, lower, strip_right,
}
use codearts_bridge.TaskService.{
  Request, NewTask, create_task, create_in, check_ids, check_role, check_minutes, task_content,
  new_meta, written, assert_if_given, assert_each,
}
use codearts_bridge.TaskService.Created.{task_of, create_task-Read}

abbrev project : Project
project = record {
  id = "p1";
  name = "bridge";
  enabled = true;
  transport = "ssh";
  project_root = "/srv/bridge";
  run_mode = "auto";
  model = "default";
  timeout_minutes = 60;
  default_workspace = "worktree";
  required_skills = "python" ∷ [];
  policy_profile = "default";
  ssh_host = some "build";
  remote_workspace_root = none;
  remote_cli_path = some "/usr/bin/agent";
  remote_bridge_root = none;
  metadata = member "team" (Json.str "core") no_members;
}

project_from_dict-project_to_dict_example :
    project_from_dict (project_to_dict project) ≡ some project
project_from_dict-project_to_dict_example =
    project_from_dict-project_to_dict project (λ e. cc) (λ e. cc) (λ e. cc) (λ e. cc)

abbrev worker : Worker
worker = record {
  id = "w1";
  enabled = true;
  transport = "ssh";
  host = some "build";
  cli_path = none;
  model = "default";
  concurrency_limit = 2;
  roles = "review" ∷ [];
  skills = [];
  agent = record { type = "codearts"; model = "default" };
  workspace = record { supported = "existing" ∷ [] };
  capabilities = "review" ∷ [];
}

worker_from_dict-worker_to_dict_example :
    worker_from_dict (worker_to_dict worker) ≡ some (record worker { capabilities = [] })
worker_from_dict-worker_to_dict_example = worker_from_dict-worker_to_dict worker

abbrev request : Request
request = record {
  project_id = "bridge";
  worker_id = none;
  role = "implement";
  task_id = "t1";
  required_skills = "python" ∷ [];
  depends_on = "t0" ∷ [];
  priority = pos 50;
  preferred_worker = some "w1";
  excluded_workers = [];
  review_required = true;
  independent_review = true;
  baseline = none;
  workspace = none;
  target_minutes = 10;
  soft_timeout_minutes = 25;
  hard_timeout_minutes = 30;
}

abbrev new_task : NewTask
new_task = record {
  meta = new_meta "now" "auto" request;
  task_md = "do it";
  state = ("state", str "READY") ∷ ("status", str "READY") ∷ ("revision", Value.int (pos 2)) ∷ [];
}

create_task_run : create_task "now" false (some (some "do it")) request ≡ ok new_task
unfolding create_task check_ids assert_safe_id is_safe_id is_alphanumeric matches_rest is_id_char
    at_end assert_if_given assert_each check_role mem normalize_workspace_request checked_request
    cleaned check_minutes create_in task_content written set_state read_or_empty from_state_of
    with_extra with_revision revision_of valid_from is_valid_transition targets find get get_or put
    update is_text truthy ◌or◌ to_int add_one lower strip_right
create_task_run = refl

create_task-Read_example :
    (false ≡ false)
    × ((0 < 10) × (0 < 25) × (25 ≤ 30))
    × ((workspace : String) × (normalize_workspace_request none ≡ ok workspace)
        × (task_from_dict new_task.meta ≡ some (task_of request workspace)))
    × (find "state" new_task.state ≡ some (str ready))
create_task-Read_example =
    create_task-Read "now" false (some (some "do it")) request new_task create_task_run
