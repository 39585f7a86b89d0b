-- ===== src/Scheduler/Planner/Round.antt =====
-- One round of the loop of src/bridge/scheduler/planner.py, and a rule for the loop.
use codearts_bridge.Prelude.{
  ℕ, suc, ◌≤◌, String, ◌≡◌, refl, sym, ap, subst, inl, inr, ◌⊎◌, true, false, Option, none, some,
  List, [], ◌∷◌, ◌++◌, All, Bool-cases, arith, leb, length,
}
use codearts_bridge.Core.Errors.{Result, ok, raise, ok-injective, >>=-eq-ok}
use codearts_bridge.Core.Models.{Worker, Task, Assignment, Lease, Registry}
use codearts_bridge.Scheduler.Matcher.{score_worker}
use codearts_bridge.Scheduler.Dependency.{States, is_dependency_ready}
use codearts_bridge.Scheduler.Clock.{Clock}
use codearts_bridge.Scheduler.Lease.{Leases, get_active_lease}
use codearts_bridge.Scheduler.Planner.{
  Reason, Choice, skip, choose, ExecutionPlan, candidates_for, after_lease, decide, ranked, first,
  assign, dispatch, settle, round, rounds, and_then,
}
use codearts_bridge.Scheduler.Planner.Eligible.{Eligible, candidates_for-Eligible}
use codearts_bridge.Scheduler.Planner.Ranking.{first-ranked, first-ranked_best}

and_then-eq-ok :
    (m : Result ExecutionPlan × Leases) (f : ExecutionPlan → Leases → Result ExecutionPlan × Leases)
    {plan : ExecutionPlan} {leases : Leases}
    → and_then m f ≡ (ok plan, leases)
    → (next : ExecutionPlan) × (leases₁ : Leases) × (m ≡ (ok next, leases₁))
      × (f next leases₁ ≡ (ok plan, leases))
and_then-eq-ok (ok next, leases₁) f h = (next, leases₁, refl, h)
and_then-eq-ok (raise e, leases₁) f h = absurd (ground arith)

module _ (workers : List Worker) (existing : List Assignment) (registry : Option Registry)
    (root : States) where
  -- What was found out before the candidates of a task are ranked.
  pub record Open (clock : Clock) (now : ℕ) (leases : Leases) (task : Task)
      (planned : List Assignment) (cs : List Worker) : Type 0 where
    pub ready : is_dependency_ready task.depends_on root none ≡ true
    pub free : get_active_lease clock now leases task.task_id ≡ ok none
    pub candidates : candidates_for workers existing registry task planned ≡ choose cs

  choose-injective : {a b : List Worker} → choose a ≡ choose b → a ≡ b
  choose-injective h = cc

  decide-Open :
      (clock : Clock) (now : ℕ) (leases : Leases) (task : Task) (planned : List Assignment)
      (cs : List Worker)
      → decide workers existing registry root clock now leases task planned ≡ ok (choose cs)
      → Open clock now leases task planned cs
  unfolding decide after_lease
  decide-Open clock now leases task planned cs h =
      elim (Bool-cases (is_dependency_ready task.depends_on root none)) [
        | inl ready ↦
            let (found, searched, rest) =
              >>=-eq-ok (get_active_lease clock now leases task.task_id) _ (rw ready at h) in
            go found ready searched (ok-injective rest)
        | inr blocked ↦ absurd (ground arith)
      ]
    where
      go :
          (found : Option Lease)
          → is_dependency_ready task.depends_on root none ≡ true
          → get_active_lease clock now leases task.task_id ≡ ok found
          → after_lease workers existing registry root task planned found ≡ choose cs
          → Open clock now leases task planned cs
      go none ready searched e = record { ready = ready; free = searched; candidates = e }
      go (some lease) ready searched e = absurd (ground arith)

  module _ (clock : Clock) (now : ℕ → ℕ) (assignment_id lease_id : ℕ → String) where
    -- A round that adds the task to `skipped`.
    pub record Passed (task : Task) (plan : ExecutionPlan) (leases : Leases) (plan' : ExecutionPlan)
        (leases' : Leases) : Type 0 where
      pub reason : Reason
      pub planned : plan' ≡ record plan {
        skipped = plan.skipped ++ record { task_id = task.task_id; reason = reason } ∷ [];
      }
      pub leased : leases' ≡ leases

    -- A round that assigns the task: to whom, why, and what is added.
    pub record Assigned (i : ℕ) (task : Task) (plan : ExecutionPlan) (leases : Leases)
        (plan' : ExecutionPlan) (leases' : Leases) : Type 0 where
      pub candidates : List Worker
      pub worker : Worker
      pub before : Open clock (now i) leases task plan.assignments candidates
      pub eligible : Eligible workers existing (existing ++ plan.assignments) registry task worker
      pub best : All (λ v. score_worker v task ≤ score_worker worker task) candidates
      pub planned : plan' ≡ record plan {
        assignments =
            plan.assignments
            ++ (assign workers existing registry root clock now assignment_id lease_id i task worker
                leases).0
              ∷ [];
      }
      pub leased :
          leases'
          ≡ (assign workers existing registry root clock now assignment_id lease_id i task worker
              leases).1

    dispatch-Assigned :
        (i : ℕ) (task : Task) (plan : ExecutionPlan) (leases : Leases) (cs : List Worker)
        (o : Result Worker) (plan' : ExecutionPlan) (leases' : Leases)
        → Open clock (now i) leases task plan.assignments cs
        → first (ranked task cs) ≡ o
        → dispatch workers existing registry root clock now assignment_id lease_id i task plan
            leases o
          ≡ (ok plan', leases')
        → Assigned i task plan leases plan' leases'
    unfolding dispatch
    dispatch-Assigned i task plan leases cs (raise e) plan' leases' b c h = absurd (ground arith)
    dispatch-Assigned i task plan leases cs (ok w) plan' leases' b c h = record {
      candidates = cs;
      worker = w;
      before = b;
      eligible =
          first-ranked (Eligible workers existing (existing ++ plan.assignments) registry task) task
            cs w c
            (candidates_for-Eligible workers existing registry task plan.assignments cs
              b.candidates);
      best = first-ranked_best task cs w c;
      planned = ok-injective (sym (ap (λ x. x.0) h));
      leased = sym (ap (λ x. x.1) h);
    }

    settle_cases :
        (i : ℕ) (task : Task) (plan : ExecutionPlan) (leases : Leases)
        (d : Result (Choice (List Worker))) (plan' : ExecutionPlan) (leases' : Leases)
        → decide workers existing registry root clock (now i) leases task plan.assignments ≡ d
        → settle workers existing registry root clock now assignment_id lease_id i task plan leases
            d
          ≡ (ok plan', leases')
        → Passed task plan leases plan' leases' ⊎ Assigned i task plan leases plan' leases'
    unfolding settle
    settle_cases i task plan leases (raise e) plan' leases' d h = absurd (ground arith)
    settle_cases i task plan leases (ok (skip reason)) plan' leases' d h = inl (record {
      reason = reason;
      planned = ok-injective (sym (ap (λ x. x.0) h));
      leased = sym (ap (λ x. x.1) h);
    })
    settle_cases i task plan leases (ok (choose cs)) plan' leases' d h = inr (
        dispatch-Assigned i task plan leases cs _ plan' leases'
          (decide-Open clock (now i) leases task plan.assignments cs d) refl h)

    pub round_cases :
        (i : ℕ) (task : Task) (plan : ExecutionPlan) (leases : Leases) (plan' : ExecutionPlan)
        (leases' : Leases)
        → round workers existing registry root clock now assignment_id lease_id i task plan leases
          ≡ (ok plan', leases')
        → Passed task plan leases plan' leases' ⊎ Assigned i task plan leases plan' leases'
    unfolding round
    round_cases i task plan leases plan' leases' h =
        settle_cases i task plan leases _ plan' leases' refl h

    -- What each round keeps, with the tasks that are left, holds where the loop ends: at the end of
    -- the list or at the limit.
    module _ (max_workers : ℕ) (P : ℕ → List Task → ExecutionPlan → Leases → Type 0)
        (keep_P : (i : ℕ) (task : Task) (tasks : List Task) (plan plan' : ExecutionPlan)
            (leases leases' : Leases)
          → leb max_workers (length plan.assignments) ≡ false
          → P i (task ∷ tasks) plan leases
          → Passed task plan leases plan' leases' ⊎ Assigned i task plan leases plan' leases'
          → P (suc i) tasks plan' leases') where
      -- Where the loop ended.
      pub record Ended (plan : ExecutionPlan) (leases : Leases) : Type 0 where
        pub count : ℕ
        pub left : List Task
        pub holds : P count left plan leases
        pub why : (left ≡ []) ⊎ (leb max_workers (length plan.assignments) ≡ true)

      Ended-move :
          (plan : ExecutionPlan) (leases : Leases) (plan' : ExecutionPlan) (leases' : Leases)
          → ◌≡◌ {A = Result ExecutionPlan × Leases} (ok plan, leases) (ok plan', leases')
          → Ended plan leases
          → Ended plan' leases'
      Ended-move plan leases plan' leases' h e =
          subst (λ l. Ended plan' l) (ap (λ x. x.1) h)
            (subst (λ x. Ended x leases) (ok-injective (ap (λ x. x.0) h)) e)

      pub rounds-Ended :
          (tasks : List Task) (i : ℕ) (plan : ExecutionPlan) (leases : Leases)
          (plan' : ExecutionPlan) (leases' : Leases)
          → rounds workers existing registry root clock now assignment_id lease_id max_workers i
              tasks plan leases
            ≡ (ok plan', leases')
          → P i tasks plan leases
          → Ended plan' leases'
      unfolding rounds
      rounds-Ended [] i plan leases plan' leases' h p =
          Ended-move plan leases plan' leases' h
            (record { count = i; left = []; holds = p; why = inl refl })
      rounds-Ended (task ∷ tasks) i plan leases plan' leases' h p =
          elim (Bool-cases (leb max_workers (length plan.assignments))) [
            | inl full ↦
                Ended-move plan leases plan' leases' (rw full at h)
                  (record { count = i; left = task ∷ tasks; holds = p; why = inr full })
            | inr room ↦
                let (next, leases₁, stepped, rest) =
                  and_then-eq-ok
                    (round workers existing registry root clock now assignment_id lease_id i task
                      plan leases)
                    _ (rw room at h) in
                rounds-Ended tasks (suc i) next leases₁ plan' leases' rest (
                  keep_P i task tasks plan next leases leases₁ room p
                    (round_cases i task plan leases next leases₁ stepped))
          ]
