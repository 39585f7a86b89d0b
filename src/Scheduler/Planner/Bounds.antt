-- ===== src/Scheduler/Planner/Bounds.antt =====
-- How much `select_plan` of src/bridge/scheduler/planner.py plans: the limit on the plan, the limits
-- of the workers, and the account of the tasks.
use codearts_bridge.Prelude.{
  ℕ, ◌+◌, ◌≤◌, ◌<◌, String, ◌≡◌, refl, sym, ap, subst, inl, inr, ◌⊎◌, true, false, Option, none,
  List, [], ◌∷◌, ◌++◌, ◌==◌, eq_iff, Listed, Bool-cases, arith, leb, length, length-snoc,
  leb_false→lt, leb→le, keep, length-keep-le,
}
use mathlib.Core.List.{append-nil, append_assoc}
use codearts_bridge.Prelude.Sort.{sort, length-sort}
use codearts_bridge.Core.Errors.{ok}
use codearts_bridge.Core.Models.{Worker, Task, Assignment, Registry}
use codearts_bridge.Scheduler.Capacity.{load, load-append, has_capacity, get_active_assignments}
use codearts_bridge.Scheduler.Dependency.{States}
use codearts_bridge.Scheduler.Clock.{Clock}
use codearts_bridge.Scheduler.Lease.{Leases}
use codearts_bridge.Scheduler.Planner.{ExecutionPlan, assign, select_plan, by_priority, empty_plan}
use codearts_bridge.Scheduler.Planner.Round.{Passed, Assigned, rounds-Ended}

load_one-le : (a : Assignment) (v : String) → load (a ∷ []) v ≤ 1
unfolding get_active_assignments
load_one-le a v = length-keep-le _ (a ∷ [])

load_other : (a : Assignment) (v : String) → (a.worker_id == v) ≡ false → load (a ∷ []) v ≡ 0
unfolding get_active_assignments keep
load_other a v e = rw e

-- One more assignment, to a worker that has room.
load_snoc :
    (v w : Worker) (found : List Assignment) (a : Assignment)
    → a.worker_id ≡ w.id
    → a.finished_at ≡ none
    → load found v.id ≤ v.concurrency_limit
    → has_capacity w found ≡ true
    → (w.id ≡ v.id → w.concurrency_limit ≡ v.concurrency_limit)
    → load (found ++ a ∷ []) v.id ≤ v.concurrency_limit
load_snoc v w found a to_w unfinished fits room unique = elim (Bool-cases (w.id == v.id)) [
  | inl e ↦
      let same : w.id ≡ v.id = (eq_iff w.id v.id).0 e in
      let counted = load-append found (a ∷ []) v.id in
      let one = load_one-le a v.id in
      let below : load found w.id < w.concurrency_limit = unfold has_capacity in ground arith in
      let limit = unique same in
      let below_v : load found v.id < v.concurrency_limit =
        subst (λ x. load found x < v.concurrency_limit) same (rw limit at below) in
      omega arith
  | inr e ↦
      let counted = load-append found (a ∷ []) v.id in
      let zero_more = load_other a v.id (rw to_w e) in omega arith
]

module _ (workers : List Worker) (existing : List Assignment) (registry : Option Registry)
    (root : States) (clock : Clock) (now : ℕ → ℕ) (assignment_id lease_id : ℕ → String) where
  -- The plan never holds more assignments than `max_workers`.
  pub select_plan-le_max_workers :
      (tasks : List Task) (leases : Leases) (max_workers : ℕ) (plan : ExecutionPlan)
      (leases' : Leases)
      → select_plan workers existing registry root clock now assignment_id lease_id tasks leases
          max_workers
        ≡ (ok plan, leases')
      → length plan.assignments ≤ max_workers
  unfolding select_plan
  select_plan-le_max_workers tasks leases max_workers plan leases' h =
      (rounds-Ended workers existing registry root clock now assignment_id lease_id max_workers
        (λ i left plan leases. length plan.assignments ≤ max_workers) step (sort by_priority tasks)
        0 empty_plan leases plan leases' h (omega arith)).holds
    where
      step :
          (i : ℕ) (task : Task) (left : List Task) (p p' : ExecutionPlan) (l l' : Leases)
          → leb max_workers (length p.assignments) ≡ false
          → length p.assignments ≤ max_workers
          → Passed workers existing registry root clock now assignment_id lease_id task p l p' l'
            ⊎ Assigned workers existing registry root clock now assignment_id lease_id i task p l p'
                l'
          → length p'.assignments ≤ max_workers
      step i task left p p' l l' room fits (inl o) =
          subst (λ x. length x.assignments ≤ max_workers) (sym o.planned) fits
      step i task left p p' l l' room fits (inr o) =
          subst (λ x. length x.assignments ≤ max_workers) (sym o.planned)
            (rw length-snoc (leb_false→lt max_workers (length p.assignments) room))

  -- Where the call returns, there are at most as many assignments and skipped entries as candidate
  -- tasks, and exactly as many unless the plan holds `max_workers` assignments.
  pub select_plan-accounts :
      (tasks : List Task) (leases : Leases) (max_workers : ℕ) (plan : ExecutionPlan)
      (leases' : Leases)
      → select_plan workers existing registry root clock now assignment_id lease_id tasks leases
          max_workers
        ≡ (ok plan, leases')
      → (length plan.assignments + length plan.skipped ≤ length tasks)
        × ((max_workers ≤ length plan.assignments)
            ⊎ (length plan.assignments + length plan.skipped ≡ length tasks))
  unfolding select_plan
  select_plan-accounts tasks leases max_workers plan leases' h =
      let e =
        rounds-Ended workers existing registry root clock now assignment_id lease_id max_workers
          (λ i left plan leases.
            length plan.assignments + length plan.skipped + length left ≡ length tasks)
          step (sort by_priority tasks) 0 empty_plan leases plan leases' h
          (omega (arith, length-sort by_priority tasks)) in
      let total = e.holds in
      elim e.why [
        | inl nothing_left ↦ (omega arith, inr (omega (arith, ap length nothing_left)))
        | inr full ↦ (omega arith, inl (leb→le max_workers (length plan.assignments) full))
      ]
    where
      step :
          (i : ℕ) (task : Task) (left : List Task) (p p' : ExecutionPlan) (l l' : Leases)
          → leb max_workers (length p.assignments) ≡ false
          → length p.assignments + length p.skipped + length (task ∷ left) ≡ length tasks
          → Passed workers existing registry root clock now assignment_id lease_id task p l p' l'
            ⊎ Assigned workers existing registry root clock now assignment_id lease_id i task p l p'
                l'
          → length p'.assignments + length p'.skipped + length left ≡ length tasks
      step i task left p p' l l' room fits (inl o) =
          subst (λ x. length x.assignments + length x.skipped + length left ≡ length tasks)
            (sym o.planned) (rw length-snoc (omega arith))
      step i task left p p' l l' room fits (inr o) =
          subst (λ x. length x.assignments + length x.skipped + length left ≡ length tasks)
            (sym o.planned) (rw length-snoc (omega arith))

  -- A worker that starts within its limit stays within it, the new assignments counted, where no
  -- other entry for its id has another limit.
  pub select_plan-within_limit :
      (tasks : List Task) (leases : Leases) (max_workers : ℕ) (plan : ExecutionPlan)
      (leases' : Leases) (v : Worker)
      → select_plan workers existing registry root clock now assignment_id lease_id tasks leases
          max_workers
        ≡ (ok plan, leases')
      → load existing v.id ≤ v.concurrency_limit
      → ((w : Worker) → Listed workers w → w.id ≡ v.id → w.concurrency_limit ≡ v.concurrency_limit)
      → load (existing ++ plan.assignments) v.id ≤ v.concurrency_limit
  unfolding select_plan
  select_plan-within_limit tasks leases max_workers plan leases' v h start unique =
      (rounds-Ended workers existing registry root clock now assignment_id lease_id max_workers
        (λ i left plan leases. load (existing ++ plan.assignments) v.id ≤ v.concurrency_limit) step
        (sort by_priority tasks) 0 empty_plan leases plan leases' h (rw append-nil start)).holds
    where
      step :
          (i : ℕ) (task : Task) (left : List Task) (p p' : ExecutionPlan) (l l' : Leases)
          → leb max_workers (length p.assignments) ≡ false
          → load (existing ++ p.assignments) v.id ≤ v.concurrency_limit
          → Passed workers existing registry root clock now assignment_id lease_id task p l p' l'
            ⊎ Assigned workers existing registry root clock now assignment_id lease_id i task p l p'
                l'
          → load (existing ++ p'.assignments) v.id ≤ v.concurrency_limit
      step i task left p p' l l' room fits (inl o) =
          subst (λ x. load (existing ++ x.assignments) v.id ≤ v.concurrency_limit) (sym o.planned)
            fits
      step i task left p p' l l' room fits (inr o) =
          subst (λ x. load (existing ++ x.assignments) v.id ≤ v.concurrency_limit) (sym o.planned)
            (rw (← append_assoc) (
              load_snoc v o.worker (existing ++ p.assignments)
                (assign workers existing registry root clock now assignment_id lease_id i task
                  o.worker l).0
                (unfold assign in refl) (unfold assign in refl) fits o.eligible.has_room
                (unique o.worker o.eligible.listed)))
