-- ===== src/Integration.antt =====
-- src/bridge/integration.py: the integration of approved tasks into the main branch. Git, the
-- focused tests and the removal of a worktree are an interface; a call of git that times out is not
-- modelled. META.json and outbox/COMMIT.sha are read by the name of the task.
pub mod Loop
pub mod Outcomes
pub mod Serial
pub mod Reverted
use codearts_bridge.Prelude.{
  ℕ, suc, ◌+◌, ◌*◌, String, Bool, true, false, not, ◌&&◌, ◌||◌, Option, none, some, List, [], ◌∷◌,
  ◌==◌, if◌then◌else◌,
}
use codearts_bridge.Prelude.Sort.{sort}
use codearts_bridge.Core.Value.{
  Value, str, ◌or◌, truthy, is_text, strip_left, Doc, get, get_or, put, File, missing, broken,
  content,
}
use codearts_bridge.Core.Errors.{Result, ok, raise, ◌>>=◌}
use codearts_bridge.Core.State.{read_or_empty, text_of}
use codearts_bridge.Legacy.{Update, no_update, get_state, set_state}
use codearts_bridge.Scheduler.Dependency.{States}
use codearts_bridge.Tasks.{TaskEntry, by_entry_name, status_of, state_json, write_state}

-- A command of git returns the text of its failure, if it fails; `remove_worktree` leaves what is
-- checked out in the repository itself.
pub record Git : Type 1 where
  pub Repo : Type 0
  pub head_sha : Repo → String
  pub checkout : String → Repo → Option String × Repo
  pub cherry_pick : String → Repo → Option String × Repo
  pub abort_pick : Repo → Repo
  pub reset_hard : String → Repo → Repo
  pub conflict_files : Repo → List String
  pub tests_pass : Repo → Bool
  pub remove_worktree : (task_id workspace_path : String) → Option String

pub record IntegrationResult : Type 0 where
  pub task_id : String
  pub success : Bool
  pub merged_sha : String
  pub reverted : Bool
  pub baseline_updated : Bool
  pub verification_passed : Bool
  pub error : String
  pub conflict_files : List String
  pub dry_run : Bool
  pub commit_sha : String

abbrev pub refused : (task_id error : String) → IntegrationResult
refused task_id error = record {
  task_id = task_id;
  success = false;
  merged_sha = "";
  reverted = false;
  baseline_updated = false;
  verification_passed = false;
  error = error;
  conflict_files = [];
  dry_run = false;
  commit_sha = "";
}

-- `text.strip()` is empty
unfoldable pub is_blank : String → Bool
is_blank s = strip_left s == ""

-- The first of four fields that is set, or else the text of outbox/COMMIT.sha.
unfoldable pub resolve_task_commit : Option String → Doc → Doc → String
resolve_task_commit commit_file state meta =
    let sha =
      ◌or◌ (◌or◌ (◌or◌ (get "commitSha" state) (get "headSha" state)) (get "commitSha" meta))
        (get "headSha" meta) in
    if truthy sha then text_of sha else elim commit_file [ none ↦ "" | some text ↦ text ]

abbrev pub message : String → Update
message text = record no_update { message = str text }

-- `state.pop(key, None)`
unfoldable pub remove : String → Doc → Doc
remove key [] = []
remove key ((k, v) ∷ d) = let rest = remove key d in if k == key then rest else (k, v) ∷ rest

module _ (git : Git) where
  open git use {
    Repo, head_sha, checkout, cherry_pick, abort_pick, reset_hard, conflict_files, tests_pass,
    remove_worktree,
  }

  -- The repository, the state files and runtime/integration/baselines.json.
  pub record Site : Type 0 where
    pub repo : Repo
    pub tasks : States
    pub baselines : File Doc

  abbrev pub Answer : Type 0
  Answer = Result IntegrationResult × Site

  -- After a write of state.json, or its exception.
  abbrev pub after_write : String → Site → (Site → Answer) → Result Doc → Answer
  after_write task_id w next (raise e) = (raise e, w)
  after_write task_id w next (ok d) = next (record w { tasks = write_state task_id d w.tasks })

  unfoldable pub change_state :
      (task_id now_iso status : String) → Update → Site → (Site → Answer) → Answer
  change_state task_id now_iso status u w next =
      after_write task_id w next (set_state task_id now_iso (state_json task_id w.tasks) status u)

  unfoldable pub reread : String → Site → (Doc → Site → Answer) → Result Doc → Answer
  reread task_id w next (raise e) = (raise e, w)
  reread task_id w next (ok d) = next d w

  unfoldable pub fail : (task_id now_iso text : String) → IntegrationResult → Site → Answer
  fail task_id now_iso text r w =
      change_state task_id now_iso "INTEGRATION_FAILED" (message text) w (λ w'. (ok r, w'))

  unfoldable pub cleanup_error : (task_id : String) → Doc → Option String
  cleanup_error task_id state =
      if not (is_text (get "workspaceMode" state) "local-worktree")
      then none
      else if is_blank (text_of (get "workspacePath" state))
      then some "local-worktree state is missing workspacePath"
      else remove_worktree task_id (text_of (get "workspacePath" state))

  unfoldable pub cleaned : (now_iso : String) → Option String → Doc → Doc
  cleaned now_iso (some e) state = put "workspaceCleanupError" (str e) state
  cleaned now_iso none state =
      if is_text (get "workspaceMode" state) "local-worktree"
      then remove "workspaceCleanupError" (put "workspaceCleanedAt" (str now_iso) state)
      else state

  abbrev pub integrated_result : (task_id commit_sha merged_sha : String) → IntegrationResult
  integrated_result task_id commit_sha merged_sha = record (refused task_id "") {
    success = true;
    merged_sha = merged_sha;
    verification_passed = true;
    baseline_updated = true;
    commit_sha = commit_sha;
  }

  module _ (now : ℕ → String) (target_branch task_id : String) where
    -- After DONE: the worktree is removed and state.json written once more.
    unfoldable pub clean_step : (commit_sha merged_sha : String) → Site → Answer
    clean_step commit_sha merged_sha w =
        reread task_id w
          (λ state w'. (
            ok (integrated_result task_id commit_sha merged_sha),
            record w' {
              tasks =
                  write_state task_id (cleaned (now 7) (cleanup_error task_id state) state)
                    w'.tasks;
            },
          ))
          (get_state (state_json task_id w.tasks))

    -- From INTEGRATED to DONE, the facts of the integration being written in between.
    unfoldable pub done_step : (commit_sha merged_sha : String) → Site → Answer
    done_step commit_sha merged_sha w =
        reread task_id w
          (λ state w'.
            change_state task_id (now 6) "DONE" no_update
              (record w' {
                tasks =
                    write_state task_id
                      (put "integratedAt" (str (now 5))
                        (put "integratedSha" (str merged_sha) state))
                      w'.tasks;
              })
              (clean_step commit_sha merged_sha))
          (get_state (state_json task_id w.tasks))

    unfoldable pub baseline_step :
        Value → (commit_sha merged_sha : String) → Site → Result Doc → Answer
    baseline_step project_id commit_sha merged_sha w (raise e) = (raise e, w)
    baseline_step project_id commit_sha merged_sha w (ok registry) =
        change_state task_id (now 4) "INTEGRATED" no_update
          (record w { baselines = content (put (text_of project_id) (str merged_sha) registry) })
          (done_step commit_sha merged_sha)

    unfoldable pub tests_step : Value → (pre_merge_sha commit_sha : String) → Site → Bool → Answer
    tests_step project_id pre_merge_sha commit_sha w true =
        baseline_step project_id commit_sha (head_sha w.repo) w (read_or_empty w.baselines)
    tests_step project_id pre_merge_sha commit_sha w false =
        fail task_id (now 3) "post-merge tests failed, merge reverted"
          (record (refused task_id "Post-merge focused tests failed") {
            reverted = true;
            merged_sha = head_sha w.repo;
            commit_sha = commit_sha;
          })
          (record w { repo = reset_hard pre_merge_sha w.repo })

    unfoldable pub pick_step :
        Value → (pre_merge_sha commit_sha : String) → Site → Option String × Repo → Answer
    pick_step project_id pre_merge_sha commit_sha w (none, repo) =
        tests_step project_id pre_merge_sha commit_sha (record w { repo = repo }) (tests_pass repo)
    pick_step project_id pre_merge_sha commit_sha w (some e, repo) =
        fail task_id (now 2) e
          (record (refused task_id e) {
            conflict_files = conflict_files repo;
            reverted = true;
            commit_sha = commit_sha;
          })
          (record w { repo = abort_pick repo })

    unfoldable pub checkout_step :
        Value → (pre_merge_sha commit_sha : String) → Site → Option String × Repo → Answer
    checkout_step project_id pre_merge_sha commit_sha w (none, repo) =
        pick_step project_id pre_merge_sha commit_sha (record w { repo = repo })
          (cherry_pick commit_sha repo)
    checkout_step project_id pre_merge_sha commit_sha w (some e, repo) =
        fail task_id (now 1) e (record (refused task_id e) { commit_sha = commit_sha })
          (record w { repo = repo })

    unfoldable pub start_step : Value → (commit_sha : String) → Site → Answer
    start_step project_id commit_sha w =
        change_state task_id (now 0) "INTEGRATING" no_update w (λ w'.
          checkout_step project_id (head_sha w.repo) commit_sha w' (checkout target_branch w'.repo))

    -- The gates before the integration starts.
    unfoldable pub gated : Bool → Option String → Doc → Doc → Site → Answer
    gated dry_run commit_file state meta w =
        let commit = resolve_task_commit commit_file state meta in
        if not (is_text (status_of state) "APPROVED")
        then (ok (refused task_id "must be APPROVED to integrate"), w)
        else if commit == ""
        then (ok (refused task_id "No result commit SHA found for task"), w)
        else if dry_run
        then (
          ok (record (refused task_id "") {
            success = true;
            dry_run = true;
            commit_sha = commit;
            merged_sha = head_sha w.repo;
          }),
          w,
        )
        else start_step (get_or "projectId" (str "default") meta) commit w

    -- By state.json and META.json, or the exception of reading them.
    unfoldable pub integrate_read : Bool → Option String → Site → Result Doc → Result Doc → Answer
    integrate_read dry_run commit_file w (raise e) meta = (raise e, w)
    integrate_read dry_run commit_file w (ok state) (raise e) = (raise e, w)
    integrate_read dry_run commit_file w (ok state) (ok meta) =
        gated dry_run commit_file state meta w

    unfoldable pub integrate_task : Bool → Bool → Option String → File Doc → Site → Answer
    integrate_task dry_run is_dir commit_file meta w =
        if not is_dir
        then (ok (refused task_id "Task directory not found"), w)
        else integrate_read dry_run commit_file w (get_state (state_json task_id w.tasks))
            (read_or_empty meta)
