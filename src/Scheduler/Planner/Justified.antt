-- ===== src/Scheduler/Planner/Justified.antt =====
-- Why `select_plan` of src/bridge/scheduler/planner.py plans an assignment, and the lease it writes.
use codearts_bridge.Prelude.{
  ℕ, suc, ◌≤◌, ◌<◌, String, ◌≡◌, refl, sym, ◌∙◌, subst, inl, inr, ◌⊎◌, true, false, Option, none,
  some, List, [], ◌∷◌, ◌++◌, ◌==◌, eq_refl, All, All-mono, All-append, Listed, arith, leb, length,
}
use mathlib.Core.List.{append-nil, append_assoc}
use codearts_bridge.Prelude.Sort.{sort, All-sort}
use codearts_bridge.Core.Value.{content}
use codearts_bridge.Core.Errors.{ok}
use codearts_bridge.Core.Models.{Worker, Task, Assignment, Registry, Lease}
use codearts_bridge.Scheduler.Dependency.{States, is_dependency_ready}
use codearts_bridge.Scheduler.Clock.{Clock}
use codearts_bridge.Scheduler.Lease.{Leases, lease_file, write_lease, create_lease, new_lease}
use codearts_bridge.Scheduler.Lease.Laws.{lease_file-write_lease}
use codearts_bridge.Scheduler.Planner.{ExecutionPlan, assign, select_plan, by_priority, empty_plan}
use codearts_bridge.Scheduler.Planner.Eligible.{Eligible}
use codearts_bridge.Scheduler.Planner.Round.{Passed, Assigned, rounds-Ended}

Listed-All : {A : Type 0} (xs : List A) → All (Listed xs) xs
Listed-All [] = tt
Listed-All (x ∷ xs) =
    (inl refl, All-mono (Listed xs) (Listed (x ∷ xs)) (λ v h. inr h) xs (Listed-All xs))

-- The lease that an assignment names is on disk, of its task and for its worker.
pub record Leased (leases : Leases) (a : Assignment) : Type 0 where
  pub id : String
  pub lease : Lease
  pub named : a.lease_id ≡ some id
  pub on_disk : lease_file id leases ≡ content lease
  pub of_task : lease.task_id ≡ a.task_id
  pub to_worker : lease.worker_id ≡ a.worker_id

module _ (workers : List Worker) (existing : List Assignment) (registry : Option Registry)
    (root : States) (clock : Clock) (now : ℕ → ℕ) (assignment_id lease_id : ℕ → String) where
  -- Why an assignment was planned after those in `before`: it is of a candidate task whose
  -- dependencies are ready, and goes to a worker that was eligible with `before` counted.
  pub record Justified (tasks : List Task) (before : List Assignment) (a : Assignment)
      : Type 0 where
    pub task : Task
    pub worker : Worker
    pub candidate : Listed tasks task
    pub ready : is_dependency_ready task.depends_on root none ≡ true
    pub eligible : Eligible workers existing (existing ++ before) registry task worker
    pub of_task : a.task_id ≡ task.task_id
    pub to_worker : a.worker_id ≡ worker.id
    pub in_role : a.role ≡ task.role

  -- Each assignment of a list is justified after `before` and those that precede it in the list.
  abbrev pub AllJustified : List Task → List Assignment → List Assignment → Type 0
  AllJustified tasks before [] = Unit
  AllJustified tasks before (a ∷ rest) =
      Justified tasks before a × AllJustified tasks (before ++ a ∷ []) rest

  AllJustified-snoc :
      (tasks : List Task) (before found : List Assignment) (a : Assignment)
      → AllJustified tasks before found
      → Justified tasks (before ++ found) a
      → AllJustified tasks before (found ++ a ∷ [])
  AllJustified-snoc tasks before [] a h j =
      (subst (λ l. Justified tasks l a) (append-nil before) j, tt)
  AllJustified-snoc tasks before (b ∷ found) a (first, rest) j = (
    first,
    AllJustified-snoc tasks (before ++ b ∷ []) found a rest
        (subst (λ l. Justified tasks l a) (sym (append_assoc before (b ∷ []) found)) j),
  )

  planned-AllJustified :
      (tasks : List Task) (leases : Leases) (max_workers : ℕ) (plan : ExecutionPlan)
      (leases' : Leases)
      → select_plan workers existing registry root clock now assignment_id lease_id tasks leases
          max_workers
        ≡ (ok plan, leases')
      → AllJustified tasks [] plan.assignments
  unfolding select_plan
  planned-AllJustified tasks leases max_workers plan leases' h =
      (rounds-Ended workers existing registry root clock now assignment_id lease_id max_workers
        (λ i left plan leases. All (Listed tasks) left × AllJustified tasks [] plan.assignments)
        step (sort by_priority tasks) 0 empty_plan leases plan leases' h
        (All-sort by_priority (Listed tasks) tasks (Listed-All tasks), tt)).holds.1
    where
      step :
          (i : ℕ) (task : Task) (left : List Task) (p p' : ExecutionPlan) (l l' : Leases)
          → leb max_workers (length p.assignments) ≡ false
          → All (Listed tasks) (task ∷ left) × AllJustified tasks [] p.assignments
          → Passed workers existing registry root clock now assignment_id lease_id task p l p' l'
            ⊎ Assigned workers existing registry root clock now assignment_id lease_id i task p l p'
                l'
          → All (Listed tasks) left × AllJustified tasks [] p'.assignments
      step i task left p p' l l' room (here, fits) (inl o) =
          (here.1, subst (λ x. AllJustified tasks [] x.assignments) (sym o.planned) fits)
      step i task left p p' l l' room (here, fits) (inr o) = (
        here.1,
        subst (λ x. AllJustified tasks [] x.assignments) (sym o.planned)
            (AllJustified-snoc tasks [] p.assignments _ fits (record {
              task = task;
              worker = o.worker;
              candidate = here.0;
              ready = o.before.ready;
              eligible = o.eligible;
              of_task = unfold assign in refl;
              to_worker = unfold assign in refl;
              in_role = unfold assign in refl;
            })),
      )

  -- A lease on disk that no later round overwrites.
  abbrev Kept : ℕ → Leases → Assignment → Type 0
  Kept i leases a = (l : Leased leases a) × ((j : ℕ) → i ≤ j → (lease_id j == l.id) ≡ false)

  Kept-later : (i : ℕ) (leases : Leases) (a : Assignment) → Kept i leases a → Kept (suc i) leases a
  Kept-later i leases a (l, kept) = (l, λ j le. kept j (omega arith))

  Kept-write :
      (i : ℕ) (leases : Leases) (lease : Lease) (a : Assignment)
      → Kept i leases a
      → Kept (suc i) (write_lease (lease_id i) lease leases) a
  Kept-write i leases lease a (l, kept) = (
    record {
      id = l.id;
      lease = l.lease;
      named = l.named;
      of_task = l.of_task;
      to_worker = l.to_worker;
      on_disk =
          lease_file-write_lease (lease_id i) l.id lease leases
          ∙ rw (kept i (omega arith)) l.on_disk;
    },
    λ j le. kept j (omega arith),
  )

  planned-Leased :
      (tasks : List Task) (leases : Leases) (max_workers : ℕ) (plan : ExecutionPlan)
      (leases' : Leases)
      → select_plan workers existing registry root clock now assignment_id lease_id tasks leases
          max_workers
        ≡ (ok plan, leases')
      → ((i j : ℕ) → i < j → (lease_id j == lease_id i) ≡ false)
      → All (Leased leases') plan.assignments
  unfolding select_plan
  planned-Leased tasks leases max_workers plan leases' h fresh =
      let end =
        rounds-Ended workers existing registry root clock now assignment_id lease_id max_workers
          (λ i left plan leases. All (Kept i leases) plan.assignments) step (sort by_priority tasks)
          0 empty_plan leases plan leases' h tt in
      All-mono (Kept end.count leases') (Leased leases') (λ a k. k.0) plan.assignments end.holds
    where
      new_Kept :
          (i : ℕ) (task : Task) (w : Worker) (l : Leases)
          → Kept
              (suc i)
              (assign workers existing registry root clock now assignment_id lease_id i task w l).1
              (assign workers existing registry root clock now assignment_id lease_id i task w l).0
      new_Kept i task w l =
          unfold assign create_lease new_lease in
          (
            record {
              id = lease_id i;
              lease =
                  new_lease clock (now i) (lease_id i) task.task_id w.id
                    task.execution.hard_timeout_minutes;
              named = refl;
              on_disk = lease_file-write_lease (lease_id i) (lease_id i) _ l ∙ simp eq_refl;
              of_task = refl;
              to_worker = refl;
            },
            λ j le. fresh i j le,
          )

      step :
          (i : ℕ) (task : Task) (left : List Task) (p p' : ExecutionPlan) (l l' : Leases)
          → leb max_workers (length p.assignments) ≡ false
          → All (Kept i l) p.assignments
          → Passed workers existing registry root clock now assignment_id lease_id task p l p' l'
            ⊎ Assigned workers existing registry root clock now assignment_id lease_id i task p l p'
                l'
          → All (Kept (suc i) l') p'.assignments
      step i task left p p' l l' room held (inl o) =
          subst (λ x. All (Kept (suc i) l') x.assignments) (sym o.planned)
            (subst (λ x. All (Kept (suc i) x) p.assignments) (sym o.leased)
              (All-mono (Kept i l) (Kept (suc i) l) (Kept-later i l) p.assignments held))
      step i task left p p' l l' room held (inr o) =
          let entry =
            assign workers existing registry root clock now assignment_id lease_id i task o.worker
              l in
          let old : All (Kept (suc i) entry.1) p.assignments =
            unfold assign create_lease in
            All-mono (Kept i l) _ (Kept-write i l _) p.assignments held in
          subst (λ x. All (Kept (suc i) l') x.assignments) (sym o.planned)
            (subst (λ x. All (Kept (suc i) x) (p.assignments ++ entry.0 ∷ [])) (sym o.leased)
              (All-append (Kept (suc i) entry.1) p.assignments (entry.0 ∷ []) old
                (new_Kept i task o.worker l, tt)))

  -- Where the generated lease ids differ, every assignment of a plan that the call returns is of a
  -- listed task whose dependencies are ready, and names a listed, enabled worker with the role and
  -- the skills, the one asked for if one is, that fits the registered project, has room beside the
  -- existing assignments and those planned before it, and is not excluded; and its lease is on disk
  -- after the call, of its task and for its worker.
  pub select_plan-Justified :
      (tasks : List Task) (leases : Leases) (max_workers : ℕ) (plan : ExecutionPlan)
      (leases' : Leases)
      → select_plan workers existing registry root clock now assignment_id lease_id tasks leases
          max_workers
        ≡ (ok plan, leases')
      → ((i j : ℕ) → i < j → (lease_id j == lease_id i) ≡ false)
      → AllJustified tasks [] plan.assignments × All (Leased leases') plan.assignments
  select_plan-Justified tasks leases max_workers plan leases' h fresh = (
    planned-AllJustified tasks leases max_workers plan leases' h,
    planned-Leased tasks leases max_workers plan leases' h fresh,
  )
