-- ===== src/TaskDelete/Idle.antt =====
-- When src/bridge/task_delete.py removes the record of a task.
use codearts_bridge.Prelude.{
  String, ◌≡◌, sym, ◌∙◌, ap, inl, inr, ◌⊎◌, Bool, true, false, some, List, [], ◌∷◌, ◌==◌, All,
  Bool-cases, arith,
}
use codearts_bridge.Core.Value.{
  str, Doc, get, get_or, find, is_text, in_states, File, missing, broken, content,
}
use codearts_bridge.Core.Errors.{Result, ok, >>=-eq-ok}
use codearts_bridge.Core.State.{get_state}
use codearts_bridge.TaskDelete.{
  TaskDir, AssignmentDir, Root, find_task, active_for, or_else, has_active_assignment,
  is_value_terminal, is_dir_active, is_task_active, is_found_active, remove_task,
  active_execution_states, finalize_task_delete_if_safe,
}
use codearts_bridge.TaskDelete.Laws.{finalize-Removed, finalize-keeps}

-- The file assignment.json can be read, and does not name the task as one that it is active for.
abbrev pub IsFree : String → File Doc → Type 0
IsFree task_id missing = Unit
IsFree task_id broken = ⊥
IsFree task_id (content d) =
    is_text (get "taskId" d) task_id ≡ true
    → is_text (get_or "status" (str "active") d) "active" ≡ false

-- The state is none of the four in which a task runs; and it is terminal, or there is no
-- inflight.json and no directory of assignments has an active assignment of the task.
abbrev pub IsIdle : TaskDir → List AssignmentDir → Type 0
IsIdle t assignments =
    (d : Doc) × (get_state t.state ≡ ok d)
    × (in_states (get_or "state" (str "") d)
          ("STARTING" ∷ "RUNNING" ∷ "VERIFYING" ∷ "INTEGRATING" ∷ [])
        ≡ false)
    × ((is_value_terminal (get_or "state" (str "") d) ≡ true)
        ⊎ ((t.inflight ≡ false) × All (λ a. IsFree t.name a.assignment) assignments))

active_for-IsFree :
    (task_id : String) (d : Doc) → active_for task_id d ≡ false → IsFree task_id (content d)
unfolding active_for get get_or find is_text
active_for-IsFree task_id [] h named = cc
active_for-IsFree task_id (entry ∷ d) h named = ground arith

or_else-IsFree :
    (task_id : String) (file : File Doc) (rest : Result Bool)
    → or_else task_id file rest ≡ ok false
    → IsFree task_id file × (rest ≡ ok false)
unfolding or_else
or_else-IsFree task_id missing rest h = (tt, h)
or_else-IsFree task_id broken rest h = absurd (ground arith)
or_else-IsFree task_id (content d) rest h = elim (Bool-cases (active_for task_id d)) [
  | inl e ↦ absurd (ground arith)
  | inr e ↦ (active_for-IsFree task_id d e, rw e at h)
]

has_active_assignment-IsFree :
    (task_id : String) (dirs : List AssignmentDir)
    → has_active_assignment task_id dirs ≡ ok false
    → All (λ a. IsFree task_id a.assignment) dirs
unfolding has_active_assignment
has_active_assignment-IsFree task_id [] h = tt
has_active_assignment-IsFree task_id (a ∷ dirs) h =
    let (free, rest) = or_else-IsFree task_id a.assignment _ h in
    (free, has_active_assignment-IsFree task_id dirs rest)

is_dir_active-IsIdle :
    (t : TaskDir) (assignments : List AssignmentDir)
    → is_dir_active t assignments ≡ ok false
    → IsIdle t assignments
unfolding is_dir_active
is_dir_active-IsIdle t assignments h =
    let (d, read, rest) = >>=-eq-ok (get_state t.state) _ h in
    let s = get_or "state" (str "") d in
    elim (Bool-cases (in_states s active_execution_states)) [
      | inl e ↦ absurd (ground arith)
      | inr e ↦ (
        d,
        read,
        e,
        elim (Bool-cases (is_value_terminal s)) [
          | inl f ↦ inl f
          | inr f ↦ elim (Bool-cases t.inflight) [
            | inl g ↦ absurd (ground arith)
            | inr g ↦
                inr (g, has_active_assignment-IsFree t.name assignments (rw (e, f, g) at rest))
          ]
        ],
      )
    ]

module _ (rmtree_task rmtree_assignment : String → Bool) where
  -- What a removal shows of the task, and what it leaves.
  pub record IdleRemoved (root : Root) (task_id : String) (root' : Root) : Type 0 where
    pub task : TaskDir
    pub found : find_task task_id root.tasks ≡ some task
    pub marked : task.delete_requested ≡ true
    pub idle : IsIdle task root.assignments
    pub gone : root'.tasks ≡ remove_task task_id root.tasks
    pub others :
        (j : String) → (task_id == j) ≡ false → find_task j root'.tasks ≡ find_task j root.tasks

  -- Where the call answers that it removed a task, the task had its marker; its state was none of
  -- STARTING, RUNNING, VERIFYING and INTEGRATING; it was terminal, or there was no inflight.json and
  -- no assignment.json in a directory of runtime/assignments named the task as active; the entry of
  -- the task is gone, and every other task is as it was.
  pub finalize-IdleRemoved :
      (root : Root) (task_id : String) (root' : Root)
      → finalize_task_delete_if_safe rmtree_task rmtree_assignment root task_id ≡ ok (true, root')
      → IdleRemoved root task_id root'
  unfolding is_task_active is_found_active
  finalize-IdleRemoved root task_id root' h =
      let r = finalize-Removed rmtree_task rmtree_assignment root task_id root' h in
      record {
        task = r.task;
        found = r.found;
        marked = r.marked;
        idle =
            is_dir_active-IsIdle r.task root.assignments
              (sym (ap (λ o. is_found_active o root.assignments) r.found) ∙ r.inactive);
        gone = r.gone;
        others = λ j other.
            finalize-keeps rmtree_task rmtree_assignment root task_id j true root' h other;
      }
