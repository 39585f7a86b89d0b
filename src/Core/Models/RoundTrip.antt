-- ===== src/Core/Models/RoundTrip.antt =====
-- What a record of src/bridge/core/models.py is after it has been written and read back.
use codearts_bridge.Prelude.{
  String, ◌≡◌, ◌≢◌, refl, Option, none, some, [], ◌==◌, eq_iff, if◌then◌else◌, Bool-cases, inl, inr,
}
use codearts_bridge.Core.Json.{
  as_texts, null, object, Members, no_members, member, find, get, get_or, or_default, find-put_if,
  as_text, as_bool, as_int, as_nat, as_object, as_optional_text, of_texts, of_optional,
  object_or_empty, as_texts-of_texts, as_optional_text-of_optional, ◌>>=◌,
}
use codearts_bridge.Core.Models.{
  AgentConfig, WorkspaceConfig, Project, Worker, TaskExecution, TaskReview, Task, Assignment, Lease,
}
use codearts_bridge.Core.Models.Codec.{
  agent_from_dict, agent_to_dict, workspace_from_dict, workspace_to_dict, is_given, has_members,
  project_from_dict, project_to_dict, roles_of, worker_from_dict, worker_to_dict,
}
use codearts_bridge.Core.Models.TaskCodec.{
  execution_from_dict, execution_to_dict, review_from_dict, review_to_dict, task_from_dict,
  task_to_dict, assignment_from_dict, assignment_to_dict, lease_from_dict, lease_to_dict,
}

agent_from_dict-agent_to_dict :
    (a : AgentConfig) → agent_from_dict (object (agent_to_dict a)) ≡ some a
unfolding agent_from_dict agent_to_dict object_or_empty get_or find as_text ◌>>=◌
agent_from_dict-agent_to_dict a = refl

workspace_from_dict-workspace_to_dict :
    (w : WorkspaceConfig) → workspace_from_dict (object (workspace_to_dict w)) ≡ some w
unfolding workspace_from_dict workspace_to_dict object_or_empty get_or find ◌>>=◌
workspace_from_dict-workspace_to_dict w = rw (as_texts-of_texts w.supported) refl

pub execution_from_dict-execution_to_dict :
    (e : TaskExecution) → execution_from_dict (object (execution_to_dict e)) ≡ some e
unfolding execution_from_dict execution_to_dict object_or_empty get get_or find as_text as_nat ◌>>=◌
execution_from_dict-execution_to_dict e = simp (as_texts-of_texts, as_optional_text-of_optional)

pub review_from_dict-review_to_dict :
    (r : TaskReview) → review_from_dict (object (review_to_dict r)) ≡ some r
unfolding review_from_dict review_to_dict object_or_empty get_or find as_bool ◌>>=◌
review_from_dict-review_to_dict r = refl

-- A task is read back as it was written.
pub task_from_dict-task_to_dict : (t : Task) → task_from_dict (task_to_dict t) ≡ some t
unfolding task_from_dict task_to_dict get get_or find as_text as_int as_nat ◌>>=◌
task_from_dict-task_to_dict t = simp (
  as_texts-of_texts, as_optional_text-of_optional, execution_from_dict-execution_to_dict,
  review_from_dict-review_to_dict,
)

pub assignment_from_dict-assignment_to_dict :
    (a : Assignment) → assignment_from_dict (assignment_to_dict a) ≡ some a
unfolding assignment_from_dict assignment_to_dict get get_or find as_text as_nat ◌>>=◌
assignment_from_dict-assignment_to_dict a = simp (as_optional_text-of_optional)

pub lease_from_dict-lease_to_dict : (l : Lease) → lease_from_dict (lease_to_dict l) ≡ some l
unfolding lease_from_dict lease_to_dict get_or find as_text ◌>>=◌
lease_from_dict-lease_to_dict l = refl

-- A worker is read back as it was written, but for `capabilities`, which is not written.
pub worker_from_dict-worker_to_dict :
    (w : Worker) → worker_from_dict (worker_to_dict w) ≡ some (record w { capabilities = [] })
unfolding worker_from_dict worker_to_dict roles_of get get_or find as_text as_bool as_nat as_texts
    of_texts ◌>>=◌
worker_from_dict-worker_to_dict w = simp (
  as_texts-of_texts, as_optional_text-of_optional, agent_from_dict-agent_to_dict,
  workspace_from_dict-workspace_to_dict,
)

-- None, or a text that is not empty.
abbrev pub NotBlank : Option String → Type 0
NotBlank o = o ≢ some ""

optional_default :
    (o : Option String)
    → NotBlank o
    → as_optional_text (or_default null (if is_given o then some (of_optional o) else none))
      ≡ some o
unfolding is_given as_optional_text of_optional
optional_default none h = refl
optional_default (some s) h = elim (Bool-cases (s == "")) [
  | inl e ↦ let same : s ≡ "" = (eq_iff s "").0 e in absurd (h (rw same refl))
  | inr e ↦ rw e refl
]

metadata_default :
    (d : Members)
    → as_object (or_default (object no_members) (if has_members d then some (object d) else none))
      ≡ some d
unfolding has_members as_object
metadata_default no_members = refl
metadata_default (member k v d) = refl

-- A project of which no optional text is empty is read back as it was written.
pub project_from_dict-project_to_dict :
    (p : Project)
    → NotBlank p.ssh_host
    → NotBlank p.remote_workspace_root
    → NotBlank p.remote_cli_path
    → NotBlank p.remote_bridge_root
    → project_from_dict (project_to_dict p) ≡ some p
unfolding project_from_dict project_to_dict get get_or find as_text as_bool as_nat ◌>>=◌
project_from_dict-project_to_dict p ssh root cli bridge = simp (
  find-put_if,
  as_texts-of_texts,
  optional_default p.ssh_host ssh,
  optional_default p.remote_workspace_root root,
  optional_default p.remote_cli_path cli,
  optional_default p.remote_bridge_root bridge,
  metadata_default p.metadata,
)
