-- ===== src/Scheduler/Matcher.antt =====
-- src/bridge/scheduler/matcher.py: which workers fit a task and a project, and how well.
use codearts_bridge.Prelude.{
  ℕ, ◌+◌, ◌*◌, ◌-◌, String, Bool, true, false, not, ◌&&◌, Option, none, some, List, [], ◌∷◌, ◌==◌,
  mem, keep, length, if◌then◌else◌,
}
use codearts_bridge.Core.Models.{Worker, Task, Project, supports_role, supports_all_skills}

-- `bool(text)` of a text that may be None.
unfoldable pub given : Option String → Bool
given none = false
given (some s) = not (s == "")

-- `text == id`
unfoldable pub is_id : Option String → String → Bool
is_id none t = false
is_id (some s) t = s == t

unfoldable pub same_text : Option String → Option String → Bool
same_text none none = true
same_text (some s) (some t) = s == t
same_text _ _ = false

unfoldable pub role_matches : Worker → String → Bool
role_matches worker role = supports_role worker role

unfoldable pub skills_match : Worker → List String → Bool
skills_match worker [] = true
skills_match worker (s ∷ ss) = supports_all_skills worker (s ∷ ss)

unfoldable pub is_candidate : Worker → Task → Bool
is_candidate worker task =
    if not worker.enabled
    then false
    else if not (role_matches worker task.role)
    then false
    else if not (skills_match worker task.required_skills)
    then false
    else true

unfoldable pub filter_candidates : List Worker → Task → List Worker
filter_candidates workers task = keep (λ w. is_candidate w task) workers

unfoldable pub transport_matches_project : Worker → Project → Bool
transport_matches_project worker project =
    if worker.transport == project.transport
    then true
    else project.transport == "remote-worktree" && worker.transport == "ssh"

unfoldable pub host_matches_project : Worker → Project → Bool
host_matches_project worker project =
    if project.transport == "local"
    then true
    else if not (given project.ssh_host)
    then true
    else given worker.host && same_text worker.host project.ssh_host

unfoldable pub project_matches : Worker → Project → Bool
project_matches worker project =
    transport_matches_project worker project && host_matches_project worker project

unfoldable pub filter_project_candidates : List Worker → Project → List Worker
filter_project_candidates workers project = keep (λ w. project_matches w project) workers

-- `set(texts)`, as the list without what stands again further on.
unfoldable pub distinct : List String → List String
distinct [] = []
distinct (s ∷ ss) = let rest = distinct ss in if mem s ss then rest else s ∷ rest

-- `max(0, 10 - n)` is the subtraction that stops at 0.
unfoldable pub score_worker : Worker → Task → ℕ
score_worker worker task =
    (if is_id task.execution.preferred_worker worker.id then 1000 else 0)
    + length (keep (λ s. mem s worker.skills) (distinct task.required_skills)) * 10
    + (10 - length worker.roles)
