-- ===== src/Core/Models.antt =====
-- src/bridge/core/models.py: the records that the scheduler works on, as they are after `from_dict`.
-- Fields annotated `int` that the code only compares with a count are natural numbers: a negative
-- limit or bound behaves there like 0.
pub mod Codec
pub mod TaskCodec
pub mod RoundTrip
use codearts_bridge.Prelude.{
  ℕ, String, Bool, ◌&&◌, Option, none, some, List, [], ◌∷◌, ◌==◌, mem, all, keep, if◌then◌else◌,
}
use codearts_bridge.Core.Value.{ℤ}
use codearts_bridge.Core.Json.{Members}

pub record AgentConfig : Type 0 where
  pub type : String
  pub model : String

pub record WorkspaceConfig : Type 0 where
  pub supported : List String

pub record Project : Type 0 where
  pub id : String
  pub name : String
  pub enabled : Bool
  pub transport : String
  pub project_root : String
  pub run_mode : String
  pub model : String
  pub timeout_minutes : ℕ
  pub default_workspace : String
  pub required_skills : List String
  pub policy_profile : String
  pub ssh_host : Option String
  pub remote_workspace_root : Option String
  pub remote_cli_path : Option String
  pub remote_bridge_root : Option String
  pub metadata : Members

pub record Worker : Type 0 where
  pub id : String
  pub enabled : Bool
  pub transport : String
  pub host : Option String
  pub cli_path : Option String
  pub model : String
  pub concurrency_limit : ℕ
  pub roles : List String
  pub skills : List String
  pub agent : AgentConfig
  pub workspace : WorkspaceConfig
  pub capabilities : List String

pub record TaskExecution : Type 0 where
  pub preferred_worker : Option String
  pub excluded_workers : List String
  pub workspace : String
  pub target_minutes : ℕ
  pub soft_timeout_minutes : ℕ
  pub hard_timeout_minutes : ℕ

pub record TaskReview : Type 0 where
  pub required : Bool
  pub independent_worker : Bool

pub record Task : Type 0 where
  pub task_id : String
  pub project_id : String
  pub worker_id : Option String
  pub title : String
  pub role : String
  pub required_skills : List String
  pub depends_on : List String
  pub parent_task_id : Option String
  pub priority : ℤ
  pub execution : TaskExecution
  pub review : TaskReview
  pub schema_version : ℕ

pub record Assignment : Type 0 where
  pub assignment_id : String
  pub task_id : String
  pub worker_id : String
  pub role : String
  pub attempt : ℕ
  pub lease_id : Option String
  pub created_at : String
  pub started_at : Option String
  pub finished_at : Option String

pub record Lease : Type 0 where
  pub lease_id : String
  pub task_id : String
  pub worker_id : String
  pub expires_at : String
  pub heartbeat_at : String
  pub created_at : String

pub record Registry : Type 0 where
  pub defaults : Members
  pub projects : List Project

pub record WorkersRegistry : Type 0 where
  pub defaults : Members
  pub workers : List Worker

unfoldable pub supports_role : Worker → String → Bool
supports_role w role = mem role w.roles

unfoldable pub supports_skill : Worker → String → Bool
supports_skill w skill = mem skill w.skills

unfoldable pub supports_all_skills : Worker → List String → Bool
supports_all_skills w skills = all (λ s. mem s w.skills) skills

unfoldable pub supports_workspace : Worker → String → Bool
supports_workspace w ws_type = mem ws_type w.workspace.supported

-- The first enabled entry of that id.
find_project : String → List Project → Option Project
find_project project_id [] = none
find_project project_id (p ∷ ps) =
    if p.id == project_id && p.enabled then some p else find_project project_id ps

unfoldable pub get_project : Registry → String → Option Project
unfolding find_project
get_project registry project_id = find_project project_id registry.projects

find_worker : String → List Worker → Option Worker
find_worker worker_id [] = none
find_worker worker_id (w ∷ ws) =
    if w.id == worker_id && w.enabled then some w else find_worker worker_id ws

unfoldable pub get_worker : WorkersRegistry → String → Option Worker
unfolding find_worker
get_worker registry worker_id = find_worker worker_id registry.workers

unfoldable pub enabled_workers : WorkersRegistry → List Worker
enabled_workers registry = keep (λ w. w.enabled) registry.workers
