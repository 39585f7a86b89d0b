-- ===== src/Core/Models/Codec.antt =====
-- `from_dict` and `to_dict` of the classes of src/bridge/core/models.py. Python does not check the
-- annotations of a field: `none` is the KeyError of a missing id, or a value of another type.
use codearts_bridge.Prelude.{ℕ, String, Bool, true, false, not, ◌==◌, Option, none, some}
use codearts_bridge.Core.Value.{pos}
use codearts_bridge.Core.Json.{
  Json, null, bool, int, str, array, object, no_items, item, Members, no_members, member, find, get,
  get_or, put_if, as_text, as_bool, as_nat, as_object, as_optional_text, as_texts, of_texts,
  of_optional, object_or_empty, ◌>>=◌,
}
use codearts_bridge.Core.Models.{AgentConfig, WorkspaceConfig, Project, Worker}

-- `d.get(key, default)` of two keys, the older one after
abbrev pub get_either : String → String → Json → Members → Json
get_either key old default d = get_or key (get_or old default d) d

abbrev pub num : ℕ → Json
num n = int (pos n)

-- `[]`
abbrev pub no_texts : Json
no_texts = array no_items

unfoldable pub agent_from_dict : Json → Option AgentConfig
agent_from_dict v = do
  d ← object_or_empty v
  type ← as_text (get_or "type" (str "codearts") d)
  model ← as_text (get_or "model" (str "default") d)
  some (record { type = type; model = model })

unfoldable pub agent_to_dict : AgentConfig → Members
agent_to_dict a = member "type" (str a.type) (member "model" (str a.model) no_members)

pub record RuntimeConfig : Type 0 where
  pub transport : String
  pub host : Option String
  pub cli_path : Option String

unfoldable pub runtime_from_dict : Json → Option RuntimeConfig
runtime_from_dict v = do
  d ← object_or_empty v
  transport ← as_text (get_or "transport" (str "local") d)
  host ← as_optional_text (get "host" d)
  cli_path ← as_optional_text (get "cliPath" d)
  some (record { transport = transport; host = host; cli_path = cli_path })

-- `if text:`
unfoldable pub is_given : Option String → Bool
is_given none = false
is_given (some s) = not (s == "")

unfoldable pub runtime_to_dict : RuntimeConfig → Members
runtime_to_dict r = put_if (is_given r.cli_path) "cliPath" (of_optional r.cli_path) (
    put_if (is_given r.host) "host" (of_optional r.host)
      (member "transport" (str r.transport) no_members))

unfoldable pub workspace_from_dict : Json → Option WorkspaceConfig
workspace_from_dict v = do
  d ← object_or_empty v
  supported ← as_texts (get_or "supported" (array (item (str "existing") no_items)) d)
  some (record { supported = supported })

unfoldable pub workspace_to_dict : WorkspaceConfig → Members
workspace_to_dict w = member "supported" (of_texts w.supported) no_members

unfoldable pub project_from_dict : Members → Option Project
project_from_dict d = do
  id_value ← find "id" d
  id ← as_text id_value
  name ← as_text (get_or "name" id_value d)
  enabled ← as_bool (get_or "enabled" (bool true) d)
  transport ← as_text (get_or "transport" (str "local") d)
  project_root ← as_text (get_or "projectRoot" (str "") d)
  run_mode ← as_text (get_or "runMode" (str "auto") d)
  model ← as_text (get_or "model" (str "default") d)
  timeout_minutes ← as_nat (get_or "timeoutMinutes" (num 60) d)
  default_workspace ← as_text (get_or "defaultWorkspace" (str "worktree") d)
  required_skills ← as_texts (get_or "requiredSkills" no_texts d)
  policy_profile ← as_text (get_or "policyProfile" (str "default") d)
  ssh_host ← as_optional_text (get "sshHost" d)
  remote_workspace_root ← as_optional_text (get "remoteWorkspaceRoot" d)
  remote_cli_path ← as_optional_text (get "remoteCliPath" d)
  remote_bridge_root ← as_optional_text (get "remoteBridgeRoot" d)
  metadata ← as_object (get_or "metadata" (object no_members) d)
  some (record {
    id = id;
    name = name;
    enabled = enabled;
    transport = transport;
    project_root = project_root;
    run_mode = run_mode;
    model = model;
    timeout_minutes = timeout_minutes;
    default_workspace = default_workspace;
    required_skills = required_skills;
    policy_profile = policy_profile;
    ssh_host = ssh_host;
    remote_workspace_root = remote_workspace_root;
    remote_cli_path = remote_cli_path;
    remote_bridge_root = remote_bridge_root;
    metadata = metadata;
  })

-- `if metadata:`
unfoldable pub has_members : Members → Bool
has_members no_members = false
has_members (member k v d) = true

unfoldable pub project_to_dict : Project → Members
project_to_dict p = put_if (has_members p.metadata) "metadata" (object p.metadata) (
    put_if (is_given p.remote_bridge_root) "remoteBridgeRoot" (of_optional p.remote_bridge_root) (
      put_if (is_given p.remote_cli_path) "remoteCliPath" (of_optional p.remote_cli_path) (
        put_if (is_given p.remote_workspace_root) "remoteWorkspaceRoot"
          (of_optional p.remote_workspace_root)
          (put_if (is_given p.ssh_host) "sshHost" (of_optional p.ssh_host) (
            member "id" (str p.id) (
              member "name" (str p.name) (
                member "enabled" (bool p.enabled) (
                  member "transport" (str p.transport) (
                    member "projectRoot" (str p.project_root) (
                      member "runMode" (str p.run_mode) (
                        member "model" (str p.model) (
                          member "timeoutMinutes" (num p.timeout_minutes) (
                            member "defaultWorkspace" (str p.default_workspace) (
                              member "requiredSkills" (of_texts p.required_skills) (
                                member "policyProfile" (str p.policy_profile)
                                  no_members)))))))))))))))

-- `None` is taken for the older name's list, of `["implement"]` where that is missing too.
unfoldable pub roles_of : Members → Json
roles_of d = elim (get "roles" d) [
  | null ↦ get_or "capabilities" (array (item (str "implement") no_items)) d
  | v ↦ v
]

unfoldable pub worker_from_dict : Members → Option Worker
worker_from_dict d = do
  id_value ← find "id" d
  id ← as_text id_value
  enabled ← as_bool (get_or "enabled" (bool true) d)
  transport ← as_text (get_or "transport" (str "ssh") d)
  host ← as_optional_text (get "host" d)
  cli_path ← as_optional_text (get "cliPath" d)
  model ← as_text (get_or "model" (str "default") d)
  concurrency_limit ← as_nat (get_or "concurrencyLimit" (num 1) d)
  roles ← as_texts (roles_of d)
  skills ← as_texts (get_or "skills" no_texts d)
  agent ← agent_from_dict (get "agent" d)
  workspace ← workspace_from_dict (get "workspace" d)
  capabilities ← as_texts (get_or "capabilities" no_texts d)
  some (record {
    id = id;
    enabled = enabled;
    transport = transport;
    host = host;
    cli_path = cli_path;
    model = model;
    concurrency_limit = concurrency_limit;
    roles = roles;
    skills = skills;
    agent = agent;
    workspace = workspace;
    capabilities = capabilities;
  })

unfoldable pub worker_to_dict : Worker → Members
worker_to_dict w = member "id" (str w.id) (
    member "enabled" (bool w.enabled) (
      member "transport" (str w.transport) (
        member "host" (of_optional w.host) (
          member "cliPath" (of_optional w.cli_path) (
            member "model" (str w.model) (
              member "concurrencyLimit" (num w.concurrency_limit) (
                member "roles" (of_texts w.roles) (
                  member "skills" (of_texts w.skills) (
                    member "agent" (object (agent_to_dict w.agent)) (
                      member "workspace" (object (workspace_to_dict w.workspace))
                        no_members))))))))))
