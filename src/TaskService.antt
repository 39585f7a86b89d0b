-- ===== src/TaskService.antt =====
-- `create_task` of src/bridge/application/task_service.py: what a request must satisfy, and the
-- META.json, the inbox and the state.json of the new task. The arguments that the code passes through
-- `int` are integers.
pub mod Created
use codearts_bridge.Prelude.{
  ℕ, String, Bool, true, false, not, ◌||◌, Option, none, some, List, [], ◌∷◌, ◌==◌, mem, ltb, eqb,
  if◌then◌else◌,
}
use codearts_bridge.Core.Value.{ℤ, pos, Doc, File, missing, content}
use codearts_bridge.Core.Json.{Json, Members, no_members, member, of_texts, of_optional}
use codearts_bridge.Core.Errors.{Result, ok, raise, value_error, ◌>>=◌}
use codearts_bridge.Core.State.{set_state, created, ready}
use codearts_bridge.Core.Models.{TaskExecution, TaskReview}
use codearts_bridge.Core.Models.TaskCodec.{execution_to_dict, review_to_dict}
use codearts_bridge.Config.{assert_safe_id}
use codearts_bridge.Workspace.{normalize_workspace_request}

abbrev pub valid_roles : List String
valid_roles = "architect" ∷ "implement" ∷ "review" ∷ "test" ∷ []

-- The arguments; a list that is None counts as empty.
pub record Request : Type 0 where
  pub project_id : String
  pub worker_id : Option String
  pub role : String
  pub task_id : String
  pub required_skills : List String
  pub depends_on : List String
  pub priority : ℤ
  pub preferred_worker : Option String
  pub excluded_workers : List String
  pub review_required : Bool
  pub independent_review : Bool
  pub baseline : Option String
  pub workspace : Option String
  pub target_minutes : ℕ
  pub soft_timeout_minutes : ℕ
  pub hard_timeout_minutes : ℕ

-- `if value: assert_safe_id(value)`
unfoldable pub assert_if_given : Option String → Result (Unit {0})
assert_if_given none = ok tt
assert_if_given (some id) = if id == "" then ok tt else assert_safe_id id

unfoldable pub assert_each : List String → Result (Unit {0})
assert_each [] = ok tt
assert_each (id ∷ ids) = assert_safe_id id >>= λ _. assert_each ids

unfoldable pub check_ids : Request → Result (Unit {0})
check_ids r = assert_safe_id r.task_id >>= λ _. assert_safe_id r.project_id >>= λ _.
    assert_if_given r.worker_id >>= λ _. assert_if_given r.preferred_worker >>= λ _.
    assert_each r.depends_on >>= λ _. assert_each r.excluded_workers

unfoldable pub check_role : String → Result (Unit {0})
check_role role = if mem role valid_roles then ok tt else raise (value_error "Unsupported role")

unfoldable pub check_minutes : (target soft hard : ℕ) → Result (Unit {0})
check_minutes target soft hard =
    if eqb target 0 || eqb soft 0 || eqb hard 0
    then raise (value_error "Task execution timeouts must be positive")
    else if ltb hard soft
    then raise (value_error "softTimeoutMinutes cannot exceed hardTimeoutMinutes")
    else ok tt

-- `none` is a task file that is left out, `some none` one that is not there.
unfoldable pub task_content : Option (Option String) → Result String
task_content none = ok "# TASK\n\n(No task file provided)\n"
task_content (some none) = raise (value_error "Task file not found")
task_content (some (some text)) = ok text

unfoldable pub new_meta : (now_iso workspace : String) → Request → Members
new_meta now_iso workspace r = member "schemaVersion" (Json.int (pos 2)) (
    member "taskId" (Json.str r.task_id) (
      member "projectId" (Json.str r.project_id) (
        member "workerId" (of_optional r.worker_id) (
          member "role" (Json.str r.role) (
            member "requiredSkills" (of_texts r.required_skills) (
              member "dependsOn" (of_texts r.depends_on) (
                member "priority" (Json.int r.priority) (
                  member "createdAt" (Json.str now_iso) (
                    member "baseline" (of_optional r.baseline) (
                      member "execution"
                        (Json.object (
                          execution_to_dict (record {
                            preferred_worker = r.preferred_worker;
                            excluded_workers = r.excluded_workers;
                            workspace = workspace;
                            target_minutes = r.target_minutes;
                            soft_timeout_minutes = r.soft_timeout_minutes;
                            hard_timeout_minutes = r.hard_timeout_minutes;
                          })))
                        (member "review"
                          (Json.object (
                            review_to_dict (record {
                              required = r.review_required;
                              independent_worker = r.independent_review;
                            })))
                          no_members)))))))))))

-- META.json, inbox/001-TASK.md and state.json of the new directory.
pub record NewTask : Type 0 where
  pub meta : Members
  pub task_md : String
  pub state : Doc

unfoldable pub written : Members → String → Result NewTask
written meta text = set_state missing created [] >>= λ first.
    set_state (content first) ready [] >>= λ d.
    ok (record { meta = meta; task_md = text; state = d })

-- After the checks of the arguments, by whether the directory is there.
unfoldable pub create_in :
    Bool → (now_iso workspace : String) → Option (Option String) → Request → Result NewTask
create_in true now_iso workspace task_file r = raise (value_error "Task already exists")
create_in false now_iso workspace task_file r =
    task_content task_file >>= λ text. written (new_meta now_iso workspace r) text

unfoldable pub create_task :
    (now_iso : String) → (exists : Bool) → Option (Option String) → Request → Result NewTask
create_task now_iso exists task_file r = check_ids r >>= λ _. check_role r.role >>= λ _.
    normalize_workspace_request r.workspace >>= λ workspace.
    check_minutes r.target_minutes r.soft_timeout_minutes r.hard_timeout_minutes >>= λ _.
    create_in exists now_iso workspace task_file r
