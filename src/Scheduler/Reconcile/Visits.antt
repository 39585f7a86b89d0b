-- ===== src/Scheduler/Reconcile/Visits.antt =====
-- One visit of the loop of reconcile_assignments in src/bridge/scheduler/planner.py, as the rest of
-- the loop sees it.
use codearts_bridge.Prelude.{
  ℕ, suc, ◌≡◌, ◌⊎◌, inl, inr, refl, ◌∙◌, String, Bool, true, false, ◌∷◌, arith,
}
use codearts_bridge.Core.Value.{Value, Doc, File, missing, broken, content}
use codearts_bridge.Core.Errors.{Result, ok, raise, >>=-eq-ok}
use codearts_bridge.Scheduler.Clock.{Clock}
use codearts_bridge.Scheduler.Lease.{Leases}
use codearts_bridge.Scheduler.Finish.{Files, release_of, Kept, release_of-Kept}
use codearts_bridge.Scheduler.Reconcile.{
  Folders, Outcome, repair, task_of, close_file, settle_open, settle_file, visit, reconcile_files,
}

module _ (clock : Clock) (now : ℕ → ℕ) where
  -- A visit that the whole run passes: what the rest of the loop goes on with.
  pub record Step (i : ℕ) (dir : Files) (leases : Leases) (tasks : Folders) (o : Outcome)
      : Type 0 where
    pub leases' : Leases
    pub tasks' : Folders
    pub count : ℕ
    pub kept : Kept leases leases'
    pub same : o.tasks ≡ (reconcile_files clock now (suc i) dir leases' tasks').tasks
    pub counts : (reconcile_files clock now (suc i) dir leases' tasks').count ≡ ok count
    pub how :
        (tasks' ≡ tasks)
        ⊎ ((state : Value) × (name : String) × (repair (clock.isoformat (now i)) state name tasks
              ≡ ok tasks'))

  close_file-Step :
      (i : ℕ) (name : String) (d : Doc) (leases : Leases) (tasks : Folders) (dir : Files)
      (state : Value) (r : Result Folders) (n : ℕ)
      → repair (clock.isoformat (now i)) state (task_of d) tasks ≡ r
      → (close_file clock now i name d
          (release_of d leases)
          tasks
          dir
          (reconcile_files clock now (suc i) dir (release_of d leases))
          r).count
        ≡ ok n
      → Step i dir leases tasks (
          close_file clock now i name d
            (release_of d leases)
            tasks
            dir
            (reconcile_files clock now (suc i) dir (release_of d leases))
            r)
  unfolding close_file
  close_file-Step i name d leases tasks dir state (raise e) n repairs h = absurd (ground arith)
  close_file-Step i name d leases tasks dir state (ok tasks') n repairs h =
      let (m, counts, last) =
        >>=-eq-ok (reconcile_files clock now (suc i) dir (release_of d leases) tasks').count _ h in
      record {
        leases' = release_of d leases;
        tasks' = tasks';
        count = m;
        kept = release_of-Kept d leases;
        same = refl;
        counts = counts;
        how = inr (state, task_of d, repairs);
      }

  goes_on :
      (i : ℕ) (dir : Files) (leases : Leases) (tasks : Folders) (n : ℕ)
      → (reconcile_files clock now (suc i) dir leases tasks).count ≡ ok n
      → Step i dir leases tasks (reconcile_files clock now (suc i) dir leases tasks)
  goes_on i dir leases tasks n h = record {
    leases' = leases;
    tasks' = tasks;
    count = n;
    kept = λ j. inl refl;
    same = refl;
    counts = h;
    how = inl refl;
  }

  renamed :
      (i : ℕ) (dir : Files) (leases : Leases) (tasks : Folders) (o o' : Outcome)
      → o'.tasks ≡ o.tasks
      → Step i dir leases tasks o
      → Step i dir leases tasks o'
  renamed i dir leases tasks o o' e s = record {
    leases' = s.leases';
    tasks' = s.tasks';
    count = s.count;
    kept = s.kept;
    same = e ∙ s.same;
    counts = s.counts;
    how = s.how;
  }

  settle_open-Step :
      (i : ℕ) (name : String) (d : Doc) (leases : Leases) (tasks : Folders) (dir : Files)
      (state : Value) (b : Bool) (n : ℕ)
      → (settle_open clock now i name d leases tasks dir
          (reconcile_files clock now (suc i) dir)
          state
          b).count
        ≡ ok n
      → Step i dir leases tasks (
          settle_open clock now i name d leases tasks dir
            (reconcile_files clock now (suc i) dir)
            state
            b)
  unfolding settle_open
  settle_open-Step i name d leases tasks dir state true n h =
      renamed i dir leases tasks _ _ refl (goes_on i dir leases tasks n h)
  settle_open-Step i name d leases tasks dir state false n h =
      close_file-Step i name d leases tasks dir state _ n refl h

  settle_file-Step :
      (i : ℕ) (name : String) (d : Doc) (leases : Leases) (tasks : Folders) (dir : Files)
      (r : Result (Value × Bool)) (n : ℕ)
      → (settle_file clock now i name d leases tasks dir
          (reconcile_files clock now (suc i) dir)
          r).count
        ≡ ok n
      → Step i dir leases tasks (
          settle_file clock now i name d leases tasks dir (reconcile_files clock now (suc i) dir) r)
  unfolding settle_file
  settle_file-Step i name d leases tasks dir (raise e) n h = absurd (ground arith)
  settle_file-Step i name d leases tasks dir (ok (state, lives)) n h =
      settle_open-Step i name d leases tasks dir state _ n h

  visit-Step :
      (i : ℕ) (name : String) (d : Doc) (leases : Leases) (tasks : Folders) (dir : Files) (b : Bool)
      (n : ℕ)
      → (visit clock now i name d leases tasks dir (reconcile_files clock now (suc i) dir) b).count
        ≡ ok n
      → Step i dir leases tasks
          (visit clock now i name d leases tasks dir (reconcile_files clock now (suc i) dir) b)
  unfolding visit
  visit-Step i name d leases tasks dir true n h =
      renamed i dir leases tasks _ _ refl (goes_on i dir leases tasks n h)
  visit-Step i name d leases tasks dir false n h = settle_file-Step i name d leases tasks dir _ n h

  pub files-Step :
      (i : ℕ) (name : String) (file : File Doc) (dir : Files) (leases : Leases) (tasks : Folders)
      (n : ℕ)
      → (reconcile_files clock now i ((name, file) ∷ dir) leases tasks).count ≡ ok n
      → Step i dir leases tasks (reconcile_files clock now i ((name, file) ∷ dir) leases tasks)
  unfolding reconcile_files
  files-Step i name missing dir leases tasks n h =
      renamed i dir leases tasks _ _ refl (goes_on i dir leases tasks n h)
  files-Step i name broken dir leases tasks n h = absurd (ground arith)
  files-Step i name (content d) dir leases tasks n h = visit-Step i name d leases tasks dir _ n h
