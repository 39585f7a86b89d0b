-- ===== src/Scheduler/Planner/Exclusive.antt =====
-- No task is dispatched twice by `select_plan` of src/bridge/scheduler/planner.py.
use codearts_bridge.Prelude.{
  ℕ, suc, ◌+◌, ◌≤◌, ◌<◌, String, ◌≡◌, refl, sym, ◌∙◌, subst, inl, inr, ◌⊎◌, false, Option, none,
  List, [], ◌∷◌, ◌++◌, ◌==◌, eq_refl, eq_iff, All, All-mono, All-append, Bool-cases, arith, leb,
  length,
}
use codearts_bridge.Prelude.Sort.{sort, All-sort}
use codearts_bridge.Core.Value.{content}
use codearts_bridge.Core.Errors.{ok}
use codearts_bridge.Core.Models.{Worker, Task, Assignment, Registry, Lease}
use codearts_bridge.Scheduler.Dependency.{States}
use codearts_bridge.Scheduler.Clock.{Clock, minutes}
use codearts_bridge.Scheduler.Lease.{
  Leases, lease_file, write_lease, is_expired, get_active_lease, create_lease, new_lease,
}
use codearts_bridge.Scheduler.Lease.Laws.{
  lease_file-write_lease, get_active_lease_complete, not_late,
}
use codearts_bridge.Scheduler.Planner.{ExecutionPlan, assign, select_plan, by_priority, empty_plan}
use codearts_bridge.Scheduler.Planner.Round.{Passed, Assigned, rounds-Ended}

-- No two assignments are of one task.
abbrev pub Once : List Assignment → Type 0
Once [] = Unit
Once (a ∷ rest) = All (λ b. (a.task_id == b.task_id) ≡ false) rest × Once rest

Once-snoc :
    (found : List Assignment) (a : Assignment)
    → Once found
    → All (λ b. (b.task_id == a.task_id) ≡ false) found
    → Once (found ++ a ∷ [])
Once-snoc [] a o h = (tt, tt)
Once-snoc (b ∷ found) a o h = (
  All-append (λ c. (b.task_id == c.task_id) ≡ false) found (a ∷ []) o.0 (h.0, tt),
  Once-snoc found a o.1 h.1,
)

module _ (workers : List Worker) (existing : List Assignment) (registry : Option Registry)
    (root : States) (clock : Clock) (now : ℕ → ℕ) (assignment_id lease_id : ℕ → String) where
  -- `a` holds a lease of its task that lives through the run and that no later round overwrites.
  record Held (i : ℕ) (leases : Leases) (a : Assignment) : Type 0 where
    file : String
    lease : Lease
    written : lease_file file leases ≡ content lease
    of_task : lease.task_id ≡ a.task_id
    lives : (j : ℕ) → is_expired clock (now j) lease ≡ false
    kept : (j : ℕ) → i ≤ j → (lease_id j == file) ≡ false

  -- A task without an active lease is none that holds one.
  Held-other :
      (i : ℕ) (leases : Leases) (task_id : String) (a : Assignment)
      → get_active_lease clock (now i) leases task_id ≡ ok none
      → Held i leases a
      → (a.task_id == task_id) ≡ false
  Held-other i leases task_id a free h = elim (Bool-cases (a.task_id == task_id)) [
    | inr other ↦ other
    | inl same ↦ absurd (
        get_active_lease_complete clock (now i) leases task_id h.file h.lease h.written
          (h.of_task ∙ (eq_iff a.task_id task_id).0 same) (h.lives i) free)
  ]

  Held-later : (i : ℕ) (leases : Leases) (a : Assignment) → Held i leases a → Held (suc i) leases a
  Held-later i leases a h = record {
    file = h.file;
    lease = h.lease;
    written = h.written;
    of_task = h.of_task;
    lives = h.lives;
    kept = λ j le. h.kept j (omega arith);
  }

  Held-write :
      (i : ℕ) (leases : Leases) (lease : Lease) (a : Assignment)
      → Held i leases a
      → Held (suc i) (write_lease (lease_id i) lease leases) a
  Held-write i leases lease a h = record {
    file = h.file;
    lease = h.lease;
    written =
        lease_file-write_lease (lease_id i) h.file lease leases
        ∙ rw (h.kept i (omega arith)) h.written;
    of_task = h.of_task;
    lives = h.lives;
    kept = λ j le. h.kept j (omega arith);
  }

  -- In a run shorter than a minute that generates different lease ids, with positive timeouts, no
  -- task is assigned twice, even if the candidates list it twice.
  pub select_plan-Once :
      (tasks : List Task) (leases : Leases) (max_workers : ℕ) (plan : ExecutionPlan)
      (leases' : Leases)
      → select_plan workers existing registry root clock now assignment_id lease_id tasks leases
          max_workers
        ≡ (ok plan, leases')
      → ((i j : ℕ) → now j ≤ now i + minutes 1)
      → ((i j : ℕ) → i < j → (lease_id j == lease_id i) ≡ false)
      → All (λ t. 1 ≤ t.execution.hard_timeout_minutes) tasks
      → Once plan.assignments
  unfolding select_plan
  select_plan-Once tasks leases max_workers plan leases' h short fresh timeouts =
      (rounds-Ended workers existing registry root clock now assignment_id lease_id max_workers
        (λ i left plan leases.
          All Timed left × All (Held i leases) plan.assignments × Once plan.assignments)
        step (sort by_priority tasks) 0 empty_plan leases plan leases' h
        (All-sort by_priority Timed tasks timeouts, tt, tt)).holds.2
    where
      Timed : Task → Type 0
      Timed t = 1 ≤ t.execution.hard_timeout_minutes

      Kept : ℕ → List Task → ExecutionPlan → Leases → Type 0
      Kept i left plan leases =
          All Timed left × All (Held i leases) plan.assignments × Once plan.assignments

      held_new :
          (i : ℕ) (task : Task) (w : Worker) (l : Leases)
          → Timed task
          → Held
              (suc i)
              (assign workers existing registry root clock now assignment_id lease_id i task w l).1
              (assign workers existing registry root clock now assignment_id lease_id i task w l).0
      held_new i task w l timed =
          unfold assign create_lease in
          record {
            file = lease_id i;
            lease =
                new_lease clock (now i) (lease_id i) task.task_id w.id
                  task.execution.hard_timeout_minutes;
            written = lease_file-write_lease (lease_id i) (lease_id i) _ l ∙ simp eq_refl;
            of_task = unfold new_lease in refl;
            lives = λ j.
                not_late clock (now i) (now j) task.execution.hard_timeout_minutes (lease_id i)
                  task.task_id w.id (omega (arith, short i j));
            kept = λ j le. fresh i j le;
          }

      step :
          (i : ℕ) (task : Task) (left : List Task) (p p' : ExecutionPlan) (l l' : Leases)
          → leb max_workers (length p.assignments) ≡ false
          → Kept i (task ∷ left) p l
          → Passed workers existing registry root clock now assignment_id lease_id task p l p' l'
            ⊎ Assigned workers existing registry root clock now assignment_id lease_id i task p l p'
                l'
          → Kept (suc i) left p' l'
      step i task left p p' l l' room (timed, held, once) (inl o) =
          subst (λ x. Kept (suc i) left x l') (sym o.planned)
            (subst
              (λ x.
                Kept (suc i) left
                  (record p {
                    skipped =
                        p.skipped ++ record { task_id = task.task_id; reason = o.reason } ∷ [];
                  })
                  x)
              (sym o.leased) (timed.1, All-mono _ _ (Held-later i l) p.assignments held, once))
      step i task left p p' l l' room (timed, held, once) (inr o) =
          let entry =
            assign workers existing registry root clock now assignment_id lease_id i task o.worker
              l in
          let old : All (Held (suc i) entry.1) p.assignments =
            unfold assign create_lease in
            All-mono (Held i l) _ (Held-write i l _) p.assignments held in
          let others : All (λ b. (b.task_id == entry.0.task_id) ≡ false) p.assignments =
            unfold assign in
            All-mono (Held i l) _ (λ b. Held-other i l task.task_id b o.before.free) p.assignments
              held in
          subst (λ x. Kept (suc i) left x l') (sym o.planned)
            (subst
              (λ x. Kept (suc i) left (record p { assignments = p.assignments ++ entry.0 ∷ [] }) x)
              (sym o.leased)
              (
                timed.1,
                All-append (Held (suc i) entry.1) p.assignments (entry.0 ∷ []) old
                    (held_new i task o.worker l timed.0, tt),
                Once-snoc p.assignments entry.0 once others,
              ))
