-- ===== src/Scheduler/Affinity.antt =====
-- src/bridge/scheduler/affinity.py: who may not take a task, and who is tried first.
use codearts_bridge.Prelude.{
  String, ◌≡◌, sym, inl, inr, true, not, ◌&&◌, none, some, List, [], ◌∷◌, ◌++◌, ◌==◌, eq_iff, mem,
  keep, keep-append-perm, if◌then◌else◌, Some, Bool-cases, Member, mem_of_Member, Some-append-right,
}
use mathlib.Core.List.{Perm}
use mathlib.Core.List.Perm
use codearts_bridge.Core.Models.{Worker, Task, Assignment}
use codearts_bridge.Scheduler.Matcher.{given, is_id}

-- `task.parent_task_id or task.task_id`
unfoldable pub parent_id : Task → String
parent_id task = elim task.parent_task_id [
  | none ↦ task.task_id
  | some p ↦ if p == "" then task.task_id else p
]

-- The loop over the assignments, which adds each implementer.
unfoldable pub implementers : String → List Assignment → List String
implementers parent [] = []
implementers parent (a ∷ more) =
    let rest = implementers parent more in
    if a.task_id == parent && a.role == "implement" then a.worker_id ∷ rest else rest

-- The set is a list that may hold a worker twice: it is only asked for membership.
unfoldable pub get_excluded_workers : Task → List Assignment → List String
get_excluded_workers task assignments =
    if task.role == "review" && task.review.independent_worker
    then task.execution.excluded_workers ++ implementers (parent_id task) assignments
    else task.execution.excluded_workers

unfoldable pub apply_anti_affinity : List Worker → Task → List Assignment → List Worker
apply_anti_affinity workers task assignments =
    keep (λ w. not (mem w.id (get_excluded_workers task assignments))) workers

unfoldable pub apply_preferred : List Worker → Task → List Worker
apply_preferred workers task =
    if not (given task.execution.preferred_worker)
    then workers
    else keep (λ w. is_id task.execution.preferred_worker w.id) workers
      ++ keep (λ w. not (is_id task.execution.preferred_worker w.id)) workers

-- Moving the preferred worker to the front loses and adds nobody.
pub apply_preferred-perm :
    (workers : List Worker) (task : Task) → Perm (apply_preferred workers task) workers
unfolding apply_preferred
apply_preferred-perm workers task = elim (Bool-cases (given task.execution.preferred_worker)) [
  | inl e ↦ rw e (keep-append-perm (λ w. is_id task.execution.preferred_worker w.id) workers)
  | inr e ↦ rw e (Perm.refl workers)
]

implementers-Member :
    (parent worker : String) (found : List Assignment)
    → Some (λ a. (a.task_id ≡ parent) × (a.role ≡ "implement") × (a.worker_id ≡ worker)) found
    → Member worker (implementers parent found)
unfolding implementers
implementers-Member parent worker [] h = elim h [ ]
implementers-Member parent worker (a ∷ more) (inl (p, r, w)) =
    rw ((eq_iff a.task_id parent).1 p, (eq_iff a.role "implement").1 r) (inl (sym w))
implementers-Member parent worker (a ∷ more) (inr h) =
    let ih = implementers-Member parent worker more h in
    elim (Bool-cases (a.task_id == parent && a.role == "implement")) [
      | inl e ↦ rw e (inr ih)
      | inr e ↦ rw e ih
    ]

-- A review that asks for independence excludes whoever implemented the reviewed task.
pub implementer_excluded :
    (task : Task) (assignments : List Assignment) (worker : String)
    → task.role ≡ "review"
    → task.review.independent_worker ≡ true
    → Some
        (λ a. (a.task_id ≡ parent_id task) × (a.role ≡ "implement") × (a.worker_id ≡ worker))
        assignments
    → mem worker (get_excluded_workers task assignments) ≡ true
unfolding get_excluded_workers parent_id
implementer_excluded task assignments worker r i h =
    rw ((eq_iff task.role "review").1 r, i)
      (mem_of_Member worker _ (
        Some-append-right _ task.execution.excluded_workers _
          (implementers-Member (parent_id task) worker assignments h)))
