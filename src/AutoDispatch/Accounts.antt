-- ===== src/AutoDispatch/Accounts.antt =====
-- Every planned assignment is accounted for in src/bridge/auto_dispatch.py.
use codearts_bridge.Prelude.{
  ℕ, suc, ◌+◌, ◌≤◌, ◌≡◌, refl, sym, ◌∙◌, ap, subst, String, false, Option, some, List, [], ◌∷◌,
  ◌++◌, length, arith, inl, inr, ◌⊎◌,
}
use mathlib.Core.List.{append-nil, append_assoc}
use codearts_bridge.Core.Errors.{ok}
use codearts_bridge.Core.Models.{
  Assignment, Registry, Worker, WorkersRegistry, Task, enabled_workers,
}
use codearts_bridge.Scheduler.Clock.{Clock}
use codearts_bridge.Scheduler.Lease.{Leases}
use codearts_bridge.Scheduler.Planner.{ExecutionPlan, select_plan}
use codearts_bridge.Scheduler.Planner.Bounds.{select_plan-le_max_workers}
use codearts_bridge.AutoDispatch.{
  AutoDispatchResult, World, Dispatched, Failure, not_found, no_enabled_workers,
  no_longer_candidate, spawn_failed, entry_of, dispatch_one, dispatch_all, plan_counts, after_plan,
  with_workers, auto_dispatch,
}
use codearts_bridge.AutoDispatch.Outcomes.{OnOk, OnOk-mono, OnOk-next, dispatch_one-OnOk}

-- The error is about the assignment: it names its task.
abbrev pub IsAbout : Assignment → Failure → Type 0
IsAbout a (not_found file) = ⊥
IsAbout a no_enabled_workers = ⊥
IsAbout a (no_longer_candidate task_id status) = task_id ≡ a.task_id
IsAbout a (spawn_failed task_id e) = task_id ≡ a.task_id

-- Each assignment has its own entry or its own error, in the order of the plan, and there are no
-- other entries or errors.
pub data Shared : List Assignment → List Dispatched → List Failure → Type 0 where
  all_shared : Shared [] [] []
  started :
      {a : Assignment} {plan : List Assignment} {entries : List Dispatched} {errors : List Failure}
      → Shared plan entries errors
      → Shared (a ∷ plan) (entry_of a ∷ entries) errors
  reported :
      {a : Assignment} {e : Failure} {plan : List Assignment} {entries : List Dispatched}
      {errors : List Failure}
      → IsAbout a e
      → Shared plan entries errors
      → Shared (a ∷ plan) entries (e ∷ errors)

-- What the dispatch of `plan` adds to a result.
record Added (plan : List Assignment) (r s : AutoDispatchResult) : Type 0 where
  entries : List Dispatched
  errors : List Failure
  with_entries : s.assignments ≡ r.assignments ++ entries
  with_errors : s.errors ≡ r.errors ++ errors
  counted : s.dispatched ≡ r.dispatched + length entries
  same_plan : s.planned ≡ r.planned
  shared : Shared plan entries errors

Added-nil : (r : AutoDispatchResult) → Added [] r r
Added-nil r = record {
  entries = [];
  errors = [];
  with_entries = sym (append-nil r.assignments);
  with_errors = sym (append-nil r.errors);
  counted = omega arith;
  same_plan = refl;
  shared = all_shared;
}

-- The result after one assignment: an entry and the count, or an error.
Started : Assignment → AutoDispatchResult → AutoDispatchResult → Type 0
Started a r s =
    (s.assignments ≡ r.assignments ++ entry_of a ∷ [])
    × (s.errors ≡ r.errors)
    × (s.dispatched ≡ suc r.dispatched)
    × (s.planned ≡ r.planned)

Reported : Assignment → AutoDispatchResult → AutoDispatchResult → Type 0
Reported a r s =
    (e : Failure) × IsAbout a e
    × (s.assignments ≡ r.assignments)
    × (s.errors ≡ r.errors ++ e ∷ [])
    × (s.dispatched ≡ r.dispatched)
    × (s.planned ≡ r.planned)

Added-Started :
    (a : Assignment) (plan : List Assignment) (r s u : AutoDispatchResult)
    → Started a r s
    → Added plan s u
    → Added (a ∷ plan) r u
unfolding Started
Added-Started a plan r s u (entry, same, count, planned) more = record {
  entries = entry_of a ∷ more.entries;
  errors = more.errors;
  with_entries =
      more.with_entries
      ∙ ap (λ l. l ++ more.entries) entry
      ∙ append_assoc r.assignments (entry_of a ∷ []) more.entries;
  with_errors = more.with_errors ∙ ap (λ l. l ++ more.errors) same;
  counted = omega (arith, more.counted, count);
  same_plan = more.same_plan ∙ planned;
  shared = started more.shared;
}

Added-Reported :
    (a : Assignment) (plan : List Assignment) (r s u : AutoDispatchResult)
    → Reported a r s
    → Added plan s u
    → Added (a ∷ plan) r u
unfolding Reported
Added-Reported a plan r s u (e, about, same, error, count, planned) more = record {
  entries = more.entries;
  errors = e ∷ more.errors;
  with_entries = more.with_entries ∙ ap (λ l. l ++ more.entries) same;
  with_errors =
      more.with_errors
      ∙ ap (λ l. l ++ more.errors) error
      ∙ append_assoc r.errors (e ∷ []) more.errors;
  counted = omega (arith, more.counted, count);
  same_plan = more.same_plan ∙ planned;
  shared = reported about more.shared;
}

module _ (spawn : Assignment → Option String) (queued_at reverted_at : ℕ → String) where
  dispatch_one-Started :
      (i : ℕ) (a : Assignment) (r : AutoDispatchResult) (w : World)
      → OnOk
          (λ s v. Started a r s ⊎ Reported a r s)
          (dispatch_one spawn queued_at reverted_at i a r w)
  unfolding Started Reported
  dispatch_one-Started i a r w =
      dispatch_one-OnOk spawn queued_at reverted_at (λ s v. Started a r s ⊎ Reported a r s) a r i w
        (λ v same. inl (refl, refl, refl, refl))
        (λ status. inr (no_longer_candidate a.task_id status, refl, refl, refl, refl, refl))
        (λ e v same. inr (spawn_failed a.task_id e, refl, refl, refl, refl, refl))

  dispatch_all-Added :
      (i : ℕ) (plan : List Assignment) (r : AutoDispatchResult) (w : World)
      → OnOk (λ s v. Added plan r s) (dispatch_all spawn queued_at reverted_at i plan r w)
  unfolding dispatch_all
  dispatch_all-Added i [] r w = Added-nil r
  dispatch_all-Added i (a ∷ plan) r w =
      OnOk-next (λ s v. Started a r s ⊎ Reported a r s) (λ s v. Added (a ∷ plan) r s)
        (dispatch_one spawn queued_at reverted_at i a r w) _ (dispatch_one-Started i a r w)
        (λ s v h.
          OnOk-mono (λ u v'. Added plan s u) (λ u v'. Added (a ∷ plan) r u) _
            (λ u v' more. elim h [
              | inl one ↦ Added-Started a plan r s u one more
              | inr one ↦ Added-Reported a plan r s u one more
            ])
            (dispatch_all-Added (suc i) plan s v))

  -- The plan is counted and shared between the entries, which are counted, and the errors.
  abbrev pub Accounted : List Assignment → AutoDispatchResult → World → Type 0
  Accounted plan r w =
      (r.planned ≡ length plan)
      × (r.dispatched ≡ length r.assignments)
      × Shared plan r.assignments r.errors

  after_plan-Accounted :
      (plan : ExecutionPlan) (leases : Leases) (w : World)
      → OnOk
          (Accounted plan.assignments)
          (after_plan spawn queued_at reverted_at false w (ok plan, leases))
  unfolding after_plan
  after_plan-Accounted plan leases w =
      OnOk-mono _ (Accounted plan.assignments) _
        (λ s v h. (
          h.same_plan,
          omega (arith, h.counted, ap length h.with_entries),
          subst (λ es. Shared plan.assignments s.assignments es) (sym h.with_errors)
              (subst (λ ds. Shared plan.assignments ds h.errors) (sym h.with_entries) h.shared),
        ))
        (dispatch_all-Added 0 plan.assignments (plan_counts spawn queued_at reverted_at false plan)
          (record w { leases = leases }))

  module _ (clock : Clock) (now : ℕ → ℕ) (assignment_id lease_id : ℕ → String) where
    -- Where there is a candidate and an enabled worker, and the planner returns a plan, the plan has
    -- at most `max_workers` assignments, and a cycle that is no dry run and raises no exception
    -- counts them and has, in the order of the plan, for each assignment either an entry for its
    -- start, which is counted, or an error that names its task, and no other entry or error.
    pub auto_dispatch-Accounted :
        (max_workers : ℕ) (existing : List Assignment) (registry : Registry)
        (workers : WorkersRegistry) (v : Worker) (vs : List Worker) (t : Task) (ts : List Task)
        (w : World) (plan : ExecutionPlan) (leases : Leases)
        → enabled_workers workers ≡ v ∷ vs
        → select_plan
            (v ∷ vs)
            existing
            (some registry)
            w.tasks
            clock
            now
            assignment_id
            lease_id
            (t ∷ ts)
            w.leases
            max_workers
          ≡ (ok plan, leases)
        → (length plan.assignments ≤ max_workers)
          × OnOk (Accounted plan.assignments) (
              auto_dispatch spawn queued_at reverted_at clock now assignment_id lease_id false
                max_workers existing
                (some registry)
                (some workers)
                (ok (t ∷ ts))
                w)
    unfolding auto_dispatch with_workers
    auto_dispatch-Accounted max_workers existing registry workers v vs t ts w plan leases e h = (
      select_plan-le_max_workers (v ∷ vs) existing (some registry) w.tasks clock now assignment_id
          lease_id (t ∷ ts) w.leases max_workers plan leases h,
      rw (e, h) (after_plan-Accounted plan leases w),
    )
