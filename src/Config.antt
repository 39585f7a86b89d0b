-- ===== src/Config.antt =====
-- src/bridge/config.py: the ids that may become parts of paths, and the registries of projects and
-- workers. Fields hold what the file holds: Python does not check their types.
pub mod SafeId
pub mod Defaults
use Prim.Native.Char.{code}
use codearts_bridge.Prelude.{
  ℕ, String, Bool, true, false, not, ◌&&◌, ◌||◌, Option, none, some, List, [], ◌∷◌, ◌==◌, eqb, leb,
  keep, map, if◌then◌else◌,
}
use codearts_bridge.Core.Value.{
  Value, null, str, int, bool, pos, compound, truthy, is_text, Doc, find, get, get_or, update,
  or_default,
}
use codearts_bridge.Core.Errors.{Result, ok, raise, value_error, key_error, ◌>>=◌}

unfoldable pub is_alphanumeric : ℕ → Bool
is_alphanumeric c = leb b'A' c && leb c b'Z' || leb b'a' c && leb c b'z' || leb b'0' c && leb c b'9'

-- `[A-Za-z0-9._-]`
unfoldable pub is_id_char : ℕ → Bool
is_id_char c = is_alphanumeric c || eqb c b'.' || eqb c b'_' || eqb c b'-'

-- `[A-Za-z0-9_-]`
unfoldable pub is_session_char : ℕ → Bool
is_session_char c = is_alphanumeric c || eqb c b'_' || eqb c b'-'

-- `$` of Python's `re`: the end of the text, or a line feed that ends it.
unfoldable pub at_end : String → Bool
at_end String.[] = true
at_end (String.◌∷◌ c String.[]) = eqb (code c) 10
at_end (String.◌∷◌ c (String.◌∷◌ d s)) = false

-- `[...]*$`: where a class has no line feed, there is no need to go back.
unfoldable pub matches_rest : (ℕ → Bool) → String → Bool
matches_rest class String.[] = true
matches_rest class (String.◌∷◌ c s) =
    class (code c) && matches_rest class s || at_end (String.◌∷◌ c s)

unfoldable pub is_safe_id : String → Bool
is_safe_id String.[] = false
is_safe_id (String.◌∷◌ c s) = is_alphanumeric (code c) && matches_rest is_id_char s

unfoldable pub is_safe_session_id : String → Bool
is_safe_session_id String.[] = false
is_safe_session_id (String.◌∷◌ c s) = is_session_char (code c) && matches_rest is_session_char s

unfoldable pub assert_safe_id : String → Result (Unit {0})
assert_safe_id value = if is_safe_id value then ok tt else raise (value_error value)

unfoldable pub assert_safe_session_id : String → Result (Unit {0})
assert_safe_session_id value = if is_safe_session_id value then ok tt else raise (value_error value)

pub record ProjectConfig : Type 0 where
  pub id : Value
  pub transport : Value
  pub project_root : Value
  pub run_mode : Value
  pub model : Value
  pub timeout_minutes : Value
  pub ssh_host : Value
  pub remote_bridge_root : Value
  pub remote_workspace_root : Value
  pub remote_cli_path : Value

-- `d[key]`
unfoldable pub item : String → Doc → Result Value
item key d = elim (find key d) [ none ↦ raise (key_error key) | some v ↦ ok v ]

unfoldable pub project_config : Doc → Result ProjectConfig
project_config d = item "id" d >>= λ id. ok (record {
  id = id;
  transport = get_or "transport" (str "local") d;
  project_root = get_or "projectRoot" (str "") d;
  run_mode = get_or "runMode" (str "auto") d;
  model = get_or "model" (str "huaweicloud-maas/GLM-5.2") d;
  timeout_minutes = get_or "timeoutMinutes" (int (pos 60)) d;
  ssh_host = get "sshHost" d;
  remote_bridge_root = get "remoteBridgeRoot" d;
  remote_workspace_root = get "remoteWorkspaceRoot" d;
  remote_cli_path = get "remoteCliPath" d;
})

pub record WorkerConfig : Type 0 where
  pub id : Value
  pub transport : Value
  pub host : Value
  pub cli_path : Value
  pub model : Value
  pub concurrency_limit : Value
  pub enabled : Value
  pub capabilities : Value
  pub endpoint : Value
  pub agent_token_env : Value
  pub agent_token : Value

-- `["implement", "review", "test"]`
abbrev pub default_capabilities : Value
default_capabilities = compound true "[\"implement\", \"review\", \"test\"]"

unfoldable pub default_transport : Value → Value
default_transport endpoint = str (if truthy endpoint then "agent" else "ssh")

unfoldable pub worker_config : Doc → Result WorkerConfig
worker_config d = item "id" d >>= λ id. ok (record {
  id = id;
  transport = get_or "transport" (default_transport (get "endpoint" d)) d;
  host = get "host" d;
  cli_path = get "cliPath" d;
  model = get_or "model" (str "huaweicloud-maas/GLM-5.2") d;
  concurrency_limit = get_or "concurrencyLimit" (int (pos 1)) d;
  enabled = get_or "enabled" (bool true) d;
  capabilities = get_or "capabilities" default_capabilities d;
  endpoint = get "endpoint" d;
  agent_token_env = get "agentTokenEnv" d;
  agent_token = get "agentToken" d;
})

-- The object of a registry's file by its parts: the entries stand under `projects` or `workers`.
pub record RegistryFile : Type 0 where
  pub schema_version : Option Value
  pub defaults : Doc
  pub entries : List Doc

pub record Registry {ℓ} (A : Type ℓ) : Type ℓ where
  pub schema_version : Value
  pub defaults : Doc
  pub entries : List A

-- `[... for p in entries]`, where one exception ends the comprehension
unfoldable pub each {ℓ} : {A : Type ℓ} → (Doc → Result A) → List Doc → Result (List A)
each convert [] = ok []
each convert (d ∷ ds) = convert d >>= λ a. each convert ds >>= λ rest. ok (a ∷ rest)

-- `{**defaults, **entry}`
unfoldable pub merged : Doc → Doc → Doc
merged defaults entry = update entry defaults

unfoldable pub registry_of {ℓ} :
    {A : Type ℓ} → (Doc → Result A) → RegistryFile → Result (Registry A)
registry_of convert file = each (λ d. convert (merged file.defaults d)) file.entries >>= λ entries.
    ok (record {
      schema_version = or_default (int (pos 1)) file.schema_version;
      defaults = file.defaults;
      entries = entries;
    })

unfoldable pub projects_registry : RegistryFile → Result (Registry ProjectConfig)
projects_registry file = registry_of project_config file

unfoldable pub workers_registry : RegistryFile → Result (Registry WorkerConfig)
workers_registry file = registry_of worker_config file

-- `if len(matches) != 1: raise ...`
unfoldable pub only {ℓ} : {A : Type ℓ} → String → List A → Result A
only id (a ∷ []) = ok a
only id [] = raise (value_error id)
only id (a ∷ b ∷ rest) = raise (value_error id)

unfoldable pub get_project_config : Registry ProjectConfig → String → Result ProjectConfig
get_project_config registry project_id =
    only project_id (keep (λ p. is_text p.id project_id) registry.entries)

unfoldable pub get_worker_config : Registry WorkerConfig → String → Result WorkerConfig
get_worker_config registry worker_id =
    only worker_id (keep (λ w. is_text w.id worker_id) registry.entries)
