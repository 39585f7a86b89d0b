-- ===== src/Integration/Outcomes.antt =====
-- The outcomes of `integrate_task` of src/bridge/integration.py.
use codearts_bridge.Prelude.{
  ℕ, String, ◌≡◌, refl, ◌⊎◌, inl, inr, Bool, true, false, Option, none, some, ◌==◌, Bool-cases,
}
use codearts_bridge.Core.Value.{Value, Doc, File, str, get_or, is_text}
use codearts_bridge.Core.Errors.{Result, ok, raise}
use codearts_bridge.Core.State.{read_or_empty}
use codearts_bridge.Legacy.{Update, get_state}
use codearts_bridge.Tasks.{status_of, state_json, write_state}
use codearts_bridge.Integration.{
  Git, IntegrationResult, Site, Answer, after_write, change_state, reread, fail, clean_step,
  done_step, baseline_step, tests_step, pick_step, checkout_step, start_step, gated, integrate_read,
  integrate_task, resolve_task_commit,
}

module _ (git : Git) where
  abbrev pub OnOk : (IntegrationResult → Site git → Type 0) → Answer git → Type 0
  OnOk P (raise e, w) = Unit
  OnOk P (ok r, w) = P r w

  module _ (P : IntegrationResult → Site git → Type 0) where
    pub written :
        (task_id : String) (w : Site git) (next : Site git → Answer git) (o : Result Doc)
        → ((d : Doc) → OnOk P (next (record w { tasks = write_state task_id d w.tasks })))
        → OnOk P (after_write git task_id w next o)
    written task_id w next (raise e) h = tt
    written task_id w next (ok d) h = h d

    pub changed :
        (task_id now_iso status : String) (u : Update) (w : Site git) (next : Site git → Answer git)
        → ((d : Doc) → OnOk P (next (record w { tasks = write_state task_id d w.tasks })))
        → OnOk P (change_state git task_id now_iso status u w next)
    unfolding change_state
    changed task_id now_iso status u w next h = written task_id w next _ h

    pub read_again :
        (task_id : String) (w : Site git) (next : Doc → Site git → Answer git) (o : Result Doc)
        → ((d : Doc) → OnOk P (next d w))
        → OnOk P (reread git task_id w next o)
    unfolding reread
    read_again task_id w next (raise e) h = tt
    read_again task_id w next (ok d) h = h d

    pub failed :
        (task_id now_iso text : String) (r : IntegrationResult) (w : Site git)
        → ((d : Doc) → P r (record w { tasks = write_state task_id d w.tasks }))
        → OnOk P (fail git task_id now_iso text r w)
    unfolding fail
    failed task_id now_iso text r w h = changed task_id now_iso "INTEGRATION_FAILED" _ w _ h

  -- Integrated: the merged head passed the tests. Not integrated: the baselines are as before.
  abbrev pub Verified : Site git → IntegrationResult → Site git → Type 0
  Verified w₀ r w =
      ((r.success ≡ true) × (git.tests_pass w.repo ≡ true) × (git.head_sha w.repo ≡ r.merged_sha))
      ⊎ ((r.success ≡ false) × (w.baselines ≡ w₀.baselines))

  module _ (now : ℕ → String) (target_branch task_id : String) (w₀ : Site git) where
    clean_step-Verified :
        (commit : String) (w : Site git)
        → git.tests_pass w.repo ≡ true
        → OnOk
            (Verified w₀)
            (clean_step git now target_branch task_id commit (git.head_sha w.repo) w)
    unfolding clean_step
    clean_step-Verified commit w pass =
        read_again (Verified w₀) task_id w _ _ (λ d. inl (refl, pass, refl))

    done_step-Verified :
        (commit : String) (w : Site git)
        → git.tests_pass w.repo ≡ true
        → OnOk
            (Verified w₀)
            (done_step git now target_branch task_id commit (git.head_sha w.repo) w)
    unfolding done_step
    done_step-Verified commit w pass = read_again (Verified w₀) task_id w _ _ (λ d.
        changed (Verified w₀) task_id (now 6) "DONE" _ _ _
          (λ d'. clean_step-Verified commit _ pass))

    baseline_step-Verified :
        (pid : Value) (commit : String) (w : Site git) (o : Result Doc)
        → git.tests_pass w.repo ≡ true
        → OnOk
            (Verified w₀)
            (baseline_step git now target_branch task_id pid commit (git.head_sha w.repo) w o)
    unfolding baseline_step
    baseline_step-Verified pid commit w (raise e) pass = tt
    baseline_step-Verified pid commit w (ok registry) pass =
        changed (Verified w₀) task_id (now 4) "INTEGRATED" _ _ _
          (λ d. done_step-Verified commit _ pass)

    tests_step-Verified :
        (pid : Value) (pre commit : String) (w : Site git) (b : Bool)
        → git.tests_pass w.repo ≡ b
        → w.baselines ≡ w₀.baselines
        → OnOk (Verified w₀) (tests_step git now target_branch task_id pid pre commit w b)
    unfolding tests_step
    tests_step-Verified pid pre commit w true pass same =
        baseline_step-Verified pid commit w (read_or_empty w.baselines) pass
    tests_step-Verified pid pre commit w false pass same =
        failed (Verified w₀) task_id (now 3) _ _ _ (λ d. inr (refl, same))

    pick_step-Verified :
        (pid : Value) (pre commit : String) (w : Site git) (o : Option String × git.Repo)
        → w.baselines ≡ w₀.baselines
        → OnOk (Verified w₀) (pick_step git now target_branch task_id pid pre commit w o)
    unfolding pick_step
    pick_step-Verified pid pre commit w (none, repo) same =
        tests_step-Verified pid pre commit _ (git.tests_pass repo) refl same
    pick_step-Verified pid pre commit w (some e, repo) same =
        failed (Verified w₀) task_id (now 2) e _ _ (λ d. inr (refl, same))

    checkout_step-Verified :
        (pid : Value) (pre commit : String) (w : Site git) (o : Option String × git.Repo)
        → w.baselines ≡ w₀.baselines
        → OnOk (Verified w₀) (checkout_step git now target_branch task_id pid pre commit w o)
    unfolding checkout_step
    checkout_step-Verified pid pre commit w (none, repo) same =
        pick_step-Verified pid pre commit _ (git.cherry_pick commit repo) same
    checkout_step-Verified pid pre commit w (some e, repo) same =
        failed (Verified w₀) task_id (now 1) e _ _ (λ d. inr (refl, same))

    start_step-Verified :
        (pid : Value) (commit : String)
        → OnOk (Verified w₀) (start_step git now target_branch task_id pid commit w₀)
    unfolding start_step
    start_step-Verified pid commit =
        changed (Verified w₀) task_id (now 0) "INTEGRATING" _ w₀ _
          (λ d. checkout_step-Verified pid (git.head_sha w₀.repo) commit _ _ refl)

    gated-Verified :
        (commit_file : Option String) (state meta : Doc)
        → OnOk (Verified w₀) (gated git now target_branch task_id false commit_file state meta w₀)
    unfolding gated
    gated-Verified commit_file state meta =
        elim (Bool-cases (is_text (status_of state) "APPROVED")) [
          | inr e ↦ rw e (inr (refl, refl))
          | inl e ↦ elim (Bool-cases (resolve_task_commit commit_file state meta == "")) [
            | inl f ↦ rw (e, f) (inr (refl, refl))
            | inr f ↦
                rw (e, f)
                  (start_step-Verified (get_or "projectId" (str "default") meta)
                    (resolve_task_commit commit_file state meta))
          ]
        ]

    -- An integration that is no dry run and raises nothing either succeeds, and then the focused
    -- tests pass on the repository that it leaves, whose head is the SHA that it reports, or it
    -- fails, and then the baselines are as before.
    pub integrate_task-Verified :
        (is_dir : Bool) (commit_file : Option String) (meta : File Doc)
        → OnOk
            (Verified w₀)
            (integrate_task git now target_branch task_id false is_dir commit_file meta w₀)
    unfolding integrate_task
    integrate_task-Verified false commit_file meta = inr (refl, refl)
    integrate_task-Verified true commit_file meta =
        read_files (get_state (state_json task_id w₀.tasks)) (read_or_empty meta)
      where
        read_files :
            (s m : Result Doc)
            → OnOk
                (Verified w₀)
                (integrate_read git now target_branch task_id false commit_file w₀ s m)
        read_files (raise e) m = unfold integrate_read in tt
        read_files (ok s) (raise e) = unfold integrate_read in tt
        read_files (ok s) (ok m) = unfold integrate_read in gated-Verified commit_file s m

    gated-dry :
        (commit_file : Option String) (state meta : Doc)
        → (gated git now target_branch task_id true commit_file state meta w₀).1 ≡ w₀
    unfolding gated
    gated-dry commit_file state meta = elim (Bool-cases (is_text (status_of state) "APPROVED")) [
      | inr e ↦ rw e refl
      | inl e ↦ elim (Bool-cases (resolve_task_commit commit_file state meta == "")) [
        | inl f ↦ rw (e, f) refl
        | inr f ↦ rw (e, f) refl
      ]
    ]

    -- A dry run changes neither the repository nor any file.
    pub integrate_task-dry_run :
        (is_dir : Bool) (commit_file : Option String) (meta : File Doc)
        → (integrate_task git now target_branch task_id true is_dir commit_file meta w₀).1 ≡ w₀
    unfolding integrate_task
    integrate_task-dry_run false commit_file meta = refl
    integrate_task-dry_run true commit_file meta =
        read_files (get_state (state_json task_id w₀.tasks)) (read_or_empty meta)
      where
        read_files :
            (s m : Result Doc)
            → (integrate_read git now target_branch task_id true commit_file w₀ s m).1 ≡ w₀
        read_files (raise e) m = unfold integrate_read in refl
        read_files (ok s) (raise e) = unfold integrate_read in refl
        read_files (ok s) (ok m) = unfold integrate_read in gated-dry commit_file s m
