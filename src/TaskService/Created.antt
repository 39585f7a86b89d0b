-- ===== src/TaskService/Created.antt =====
-- What `create_task` of src/bridge/application/task_service.py leaves, where it returns.
use codearts_bridge.Prelude.{
  ℕ, ◌≤◌, ◌<◌, String, ◌≡◌, refl, sym, ap, ◌∙◌, inl, inr, Bool, true, false, ◌||◌, Option, none,
  some, [], ltb, eqb, arith, Bool-cases,
}
use codearts_bridge.Core.Value.{str, find, content, missing}
use codearts_bridge.Core.Json.{
  as_optional_text, Members, find as find_member, get as get_member, get_or as get_member_or,
  as_text, as_int, as_nat, as_texts-of_texts, as_optional_text-of_optional, ◌>>=◌ as then_read,
}
use codearts_bridge.Core.Errors.{ok, >>=-eq-ok, ok-injective}
use codearts_bridge.Core.State.{set_state, created, ready}
use codearts_bridge.Core.Models.{Task}
use codearts_bridge.Core.Models.TaskCodec.{task_from_dict}
use codearts_bridge.Core.Models.RoundTrip.{
  execution_from_dict-execution_to_dict, review_from_dict-review_to_dict,
}
use codearts_bridge.Workspace.{normalize_workspace_request}
use codearts_bridge.TaskService.{
  Request, NewTask, check_ids, check_role, check_minutes, task_content, new_meta, written,
  create_task, create_in,
}
use codearts_bridge.Core.State.Effect.{set_state-aliases}

-- The task that the scheduler reads.
abbrev pub task_of : Request → String → Task
task_of r workspace = record {
  task_id = r.task_id;
  project_id = r.project_id;
  worker_id = r.worker_id;
  title = "";
  role = r.role;
  required_skills = r.required_skills;
  depends_on = r.depends_on;
  parent_task_id = none;
  priority = r.priority;
  execution = record {
    preferred_worker = r.preferred_worker;
    excluded_workers = r.excluded_workers;
    workspace = workspace;
    target_minutes = r.target_minutes;
    soft_timeout_minutes = r.soft_timeout_minutes;
    hard_timeout_minutes = r.hard_timeout_minutes;
  };
  review = record { required = r.review_required; independent_worker = r.independent_review };
  schema_version = 2;
}

task_from_dict-new_meta :
    (now_iso workspace : String) (r : Request)
    → task_from_dict (new_meta now_iso workspace r) ≡ some (task_of r workspace)
unfolding task_from_dict new_meta get_member get_member_or find_member as_text as_int as_nat
    as_optional_text then_read
task_from_dict-new_meta now_iso workspace r = simp (
  as_texts-of_texts, as_optional_text-of_optional, execution_from_dict-execution_to_dict,
  review_from_dict-review_to_dict,
)

check_minutes_lem :
    (target soft hard : ℕ)
    → check_minutes target soft hard ≡ ok tt
    → (0 < target) × (0 < soft) × (soft ≤ hard)
unfolding check_minutes
check_minutes_lem target soft hard h =
    elim (Bool-cases (eqb target 0 || eqb soft 0 || eqb hard 0)) [
      | inl e ↦ absurd (let bad = rw e at h in cc)
      | inr e ↦ elim (Bool-cases (ltb hard soft)) [
        | inl f ↦ absurd (let bad = rw (e, f) at h in cc)
        | inr f ↦ (ground arith, ground arith, ground arith)
      ]
    ]

written_lem :
    (meta : Members) (text : String) (t : NewTask)
    → written meta text ≡ ok t
    → (t.meta ≡ meta) × (t.task_md ≡ text) × (find "state" t.state ≡ some (str ready))
unfolding written
written_lem meta text t h =
    let (first, made, h₁) = >>=-eq-ok (set_state missing created []) _ h in
    let (d, moved, h₂) = >>=-eq-ok (set_state (content first) ready []) _ h₁ in
    let same = ok-injective h₂ in
    (
      ap (λ x. x.meta) (sym same),
      ap (λ x. x.task_md) (sym same),
      ap (λ x. find "state" x.state) (sym same)
          ∙ (set_state-aliases (content first) ready [] d moved).0,
    )

create_in_lem :
    (exists : Bool) (now_iso workspace : String) (task_file : Option (Option String)) (r : Request)
    (t : NewTask)
    → create_in exists now_iso workspace task_file r ≡ ok t
    → (exists ≡ false)
      × (t.meta ≡ new_meta now_iso workspace r)
      × (find "state" t.state ≡ some (str ready))
unfolding create_in
create_in_lem true now_iso workspace task_file r t h = absurd (cc)
create_in_lem false now_iso workspace task_file r t h =
    let (text, read, made) = >>=-eq-ok (task_content task_file) _ h in
    let all = written_lem (new_meta now_iso workspace r) text t made in (refl, all.0, all.2)

-- Where the creation returns, the directory was not there, the timeouts are positive and in order,
-- the scheduler reads the task of the request from META.json, and its state is READY.
pub create_task-Read :
    (now_iso : String) (exists : Bool) (task_file : Option (Option String)) (r : Request)
    (t : NewTask)
    → create_task now_iso exists task_file r ≡ ok t
    → (exists ≡ false)
      × ((0 < r.target_minutes)
          × (0 < r.soft_timeout_minutes)
          × (r.soft_timeout_minutes ≤ r.hard_timeout_minutes))
      × ((workspace : String) × (normalize_workspace_request r.workspace ≡ ok workspace)
          × (task_from_dict t.meta ≡ some (task_of r workspace)))
      × (find "state" t.state ≡ some (str ready))
unfolding create_task
create_task-Read now_iso exists task_file r t h =
    let (u₁, ids, h₁) = >>=-eq-ok (check_ids r) _ h in
    let (u₂, role, h₂) = >>=-eq-ok (check_role r.role) _ h₁ in
    let (workspace, resolved, h₃) = >>=-eq-ok (normalize_workspace_request r.workspace) _ h₂ in
    let (u₄, minutes, h₄) =
      >>=-eq-ok (check_minutes r.target_minutes r.soft_timeout_minutes r.hard_timeout_minutes) _
        h₃ in
    let (new, meta, state) = create_in_lem exists now_iso workspace task_file r t h₄ in
    (
      new,
      check_minutes_lem r.target_minutes r.soft_timeout_minutes r.hard_timeout_minutes minutes,
      (workspace, resolved, ap task_from_dict meta ∙ task_from_dict-new_meta now_iso workspace r),
      state,
    )
