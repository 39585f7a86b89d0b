-- ===== src/Scheduler/Reconcile/Repaired.antt =====
-- What reconcile_assignments of src/bridge/scheduler/planner.py makes of a task that is RUNNING and
-- whose assignment has no live lease.
use codearts_bridge.Prelude.{
  ℕ, suc, ◌≡◌, ◌⊎◌, inl, inr, refl, sym, ◌∙◌, ap, subst, String, true, false, ◌||◌, some, [], ◌∷◌,
  ◌++◌, mem, Bool-cases, arith,
}
use codearts_bridge.Core.Value.{Doc, missing, content, str, get, get_or, truthy, is_text, in_states}
use codearts_bridge.Core.Errors.{Result, ok, raise, >>=-eq-ok}
use codearts_bridge.Core.State.{text_of}
use codearts_bridge.Core.Models.{Lease}
use codearts_bridge.Scheduler.Clock.{Clock}
use codearts_bridge.Scheduler.Lease.{Leases, lease_file, is_expired}
use codearts_bridge.Scheduler.Finish.{Files, is_empty, release_of, Kept}
use codearts_bridge.Scheduler.Reconcile.{
  Folder, Folders, repair_found, repair, state_file, state_of, task_of, task_state, live_file,
  lease_lives, close_file, settle_open, settle_file, read_file, visit, reconcile_files,
  reconcile_assignments,
}
use codearts_bridge.Scheduler.Reconcile.Repair.{
  IsRepaired, Tracked, repair-keeps, repair_found-IsRepaired,
}
use codearts_bridge.Scheduler.Reconcile.Visits.{files-Step}

module _ (clock : Clock) (now : ℕ → ℕ) where
  -- The assignment names no lease, or one that is not there, or one that has expired at each visit.
  abbrev pub IsDead : Leases → Doc → Type 0
  IsDead leases d =
      (truthy (get "leaseId" d) ≡ false)
      ⊎ ((lease_file (text_of (get "leaseId" d)) leases ≡ missing)
          ⊎ ((lease : Lease) × (lease_file (text_of (get "leaseId" d)) leases ≡ content lease)
              × ((i : ℕ) → is_expired clock (now i) lease ≡ true)))

  IsDead-Kept :
      (before after : Leases) (d : Doc) → Kept before after → IsDead before d → IsDead after d
  IsDead-Kept before after d kept (inl e) = inl e
  IsDead-Kept before after d kept (inr (inl e)) = elim (kept (text_of (get "leaseId" d))) [
    | inl same ↦ inr (inl (same ∙ e))
    | inr gone ↦ inr (inl gone)
  ]
  IsDead-Kept before after d kept (inr (inr (lease, e, late))) =
      elim (kept (text_of (get "leaseId" d))) [
        | inl same ↦ inr (inr (lease, same ∙ e, late))
        | inr gone ↦ inr (inl gone)
      ]

  lease_lives-false :
      (i : ℕ) (leases : Leases) (d : Doc)
      → IsDead leases d
      → lease_lives clock now i leases d ≡ ok false
  unfolding lease_lives live_file
  lease_lives-false i leases d (inl e) = rw e refl
  lease_lives-false i leases d (inr (inl e)) = elim (Bool-cases (truthy (get "leaseId" d))) [
    | inl f ↦ rw (f, e) refl
    | inr f ↦ rw f refl
  ]
  lease_lives-false i leases d (inr (inr (lease, e, late))) =
      elim (Bool-cases (truthy (get "leaseId" d))) [
        | inl f ↦ let g = late i in rw (f, e, g) refl
        | inr f ↦ rw f refl
      ]

  -- The rest of the loop keeps a repaired folder.
  reconcile_files-IsRepaired :
      (i : ℕ) (task_id : String) (folder : Folder) (dir : Files) (leases : Leases) (tasks : Folders)
      (n : ℕ)
      → (reconcile_files clock now i dir leases tasks).count ≡ ok n
      → IsRepaired folder (tasks task_id)
      → IsRepaired folder ((reconcile_files clock now i dir leases tasks).tasks task_id)
  reconcile_files-IsRepaired i task_id folder [] leases tasks n h p = unfold reconcile_files in p
  reconcile_files-IsRepaired i task_id folder ((name, file) ∷ dir) leases tasks n h p =
      let s = files-Step clock now i name file dir leases tasks n h in
      let kept : IsRepaired folder (s.tasks' task_id) = elim s.how [
        | inl e ↦ subst (λ t. IsRepaired folder (t task_id)) (sym e) p
        | inr (state, other, repairs) ↦
            repair-keeps (clock.isoformat (now i)) task_id other state folder (IsRepaired folder)
              tasks s.tasks' (λ o q. inr q) (λ o q. q) repairs p
      ] in
      subst (λ t. IsRepaired folder (t task_id)) (sym s.same)
        (reconcile_files-IsRepaired (suc i) task_id folder dir s.leases' s.tasks' s.count s.counts
          kept)

  module _ (d : Doc) (folder : Folder) where
    -- The visit goes on to close the assignment.
    visit_closes :
        (i : ℕ) (name : String) (dir : Files) (leases : Leases) (tasks : Folders)
        → (is_empty d || truthy (get "finishedAt" d)) ≡ false
        → truthy (get_or "taskId" (str "") d) ≡ true
        → state_of folder.state ≡ ok (str "RUNNING")
        → lease_lives clock now i leases d ≡ ok false
        → tasks (task_of d) ≡ some folder
        → reconcile_files clock now i ((name, content d) ∷ dir) leases tasks
          ≡ close_file clock now i name d
              (release_of d leases)
              tasks
              dir
              (reconcile_files clock now (suc i) dir (release_of d leases))
              (repair (clock.isoformat (now i)) (str "RUNNING") (task_of d) tasks)
    unfolding reconcile_files visit settle_file read_file task_state settle_open state_file
        in_states mem
    visit_closes i name dir leases tasks open' named runs dead e =
        rw (open', named, e, runs, dead) refl

    close_file-IsRepaired :
        (i : ℕ) (name : String) (dir : Files) (leases : Leases) (tasks : Folders)
        (r : Result Folders) (n : ℕ)
        → repair (clock.isoformat (now i)) (str "RUNNING") (task_of d) tasks ≡ r
        → tasks (task_of d) ≡ some folder
        → (close_file clock now i name d leases tasks dir
            (reconcile_files clock now (suc i) dir leases)
            r).count
          ≡ ok n
        → IsRepaired folder (
            (close_file clock now i name d leases tasks dir
                (reconcile_files clock now (suc i) dir leases)
                r).tasks
              (task_of d))
    unfolding close_file repair is_text
    close_file-IsRepaired i name dir leases tasks (raise x) n repairs e h = absurd (ground arith)
    close_file-IsRepaired i name dir leases tasks (ok tasks') n repairs e h =
        let (m, counts, last) =
          >>=-eq-ok (reconcile_files clock now (suc i) dir leases tasks').count _ h in
        reconcile_files-IsRepaired (suc i) (task_of d) folder dir leases tasks' m counts (
          repair_found-IsRepaired (clock.isoformat (now i)) (task_of d) folder folder.state tasks
            tasks'
            (subst (λ o. repair_found (clock.isoformat (now i)) (task_of d) o tasks ≡ ok tasks') e
              repairs))

    -- The visit of the assignment, its task being tracked.
    visit-IsRepaired :
        (i : ℕ) (name : String) (dir : Files) (leases : Leases) (tasks : Folders) (n : ℕ)
        → (is_empty d || truthy (get "finishedAt" d)) ≡ false
        → truthy (get_or "taskId" (str "") d) ≡ true
        → state_of folder.state ≡ ok (str "RUNNING")
        → IsDead leases d
        → (reconcile_files clock now i ((name, content d) ∷ dir) leases tasks).count ≡ ok n
        → Tracked folder (tasks (task_of d))
        → IsRepaired folder
            ((reconcile_files clock now i ((name, content d) ∷ dir) leases tasks).tasks (task_of d))
    visit-IsRepaired i name dir leases tasks n open' named runs dead h (inr p) =
        reconcile_files-IsRepaired i (task_of d) folder ((name, content d) ∷ dir) leases tasks n h p
    visit-IsRepaired i name dir leases tasks n open' named runs dead h (inl e) =
        let closes =
          visit_closes i name dir leases tasks open' named runs (lease_lives-false i leases d dead)
            e in
        subst (λ o. IsRepaired folder (o.tasks (task_of d))) (sym closes)
          (close_file-IsRepaired i name dir (release_of d leases) tasks _ n refl e
            (ap (λ o. o.count) (sym closes) ∙ h))

    run-IsRepaired :
        (i : ℕ) (before after : Files) (name : String) (leases : Leases) (tasks : Folders) (n : ℕ)
        → (is_empty d || truthy (get "finishedAt" d)) ≡ false
        → truthy (get_or "taskId" (str "") d) ≡ true
        → state_of folder.state ≡ ok (str "RUNNING")
        → IsDead leases d
        → (reconcile_files clock now i (before ++ (name, content d) ∷ after) leases tasks).count
          ≡ ok n
        → Tracked folder (tasks (task_of d))
        → IsRepaired folder (
            (reconcile_files clock now i (before ++ (name, content d) ∷ after) leases tasks).tasks
              (task_of d))
    run-IsRepaired i [] after name leases tasks n open' named runs dead h p =
        visit-IsRepaired i name after leases tasks n open' named runs dead h p
    run-IsRepaired i ((other, file) ∷ before) after name leases tasks n open' named runs dead h p =
        let s =
          files-Step clock now i other file (before ++ (name, content d) ∷ after) leases tasks n
            h in
        let tracked : Tracked folder (s.tasks' (task_of d)) = elim s.how [
          | inl e ↦ subst (λ t. Tracked folder (t (task_of d))) (sym e) p
          | inr (state, id, repairs) ↦
              repair-keeps (clock.isoformat (now i)) (task_of d) id state folder (Tracked folder)
                tasks s.tasks' (λ o q. q) (λ o q. inr q) repairs p
        ] in
        subst (λ t. IsRepaired folder (t (task_of d))) (sym s.same)
          (run-IsRepaired (suc i) before after name s.leases' s.tasks' s.count open' named runs
            (IsDead-Kept leases s.leases' d s.kept dead) s.counts tracked)

    -- Take an assignment among the files that is not finished, that names a task, and whose lease is
    -- not there or has expired; and let the task have a directory whose stored state is RUNNING.
    -- Where the call returns, state.json of the task has the state REVIEW_REQUIRED under both keys
    -- if RESULT.md and TESTS.md are in its outbox, else FAILED, whatever the other assignments are.
    pub reconcile_assignments-IsRepaired :
        (before after : Files) (name : String) (leases : Leases) (tasks : Folders) (n : ℕ)
        → (is_empty d || truthy (get "finishedAt" d)) ≡ false
        → truthy (get_or "taskId" (str "") d) ≡ true
        → IsDead leases d
        → tasks (task_of d) ≡ some folder
        → state_of folder.state ≡ ok (str "RUNNING")
        → (reconcile_assignments clock now (before ++ (name, content d) ∷ after) leases tasks).count
          ≡ ok n
        → IsRepaired folder (
            (reconcile_assignments clock now
                (before ++ (name, content d) ∷ after)
                leases
                tasks).tasks
              (task_of d))
    unfolding reconcile_assignments
    reconcile_assignments-IsRepaired before after name leases tasks n open' named dead found runs
          h =
        run-IsRepaired 0 before after name leases tasks n open' named runs dead h (inl found)
