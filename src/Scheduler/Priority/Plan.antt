-- ===== src/Scheduler/Priority/Plan.antt =====
-- The plan of src/bridge/scheduler/priority.py: whom it may load, and when it is not empty.
use codearts_bridge.Prelude.{
  ℕ, ◌+◌, ◌≤◌, ◌<◌, String, ◌≡◌, ◌≢◌, refl, inl, inr, true, false, not, ◌&&◌, ◌||◌, Option, none,
  some, List, [], ◌∷◌, ◌==◌, eq_iff, if◌then◌else◌, arith, Bool-cases, All, Some, Some-append-left,
  Some-keep, ap,
}
use codearts_bridge.Prelude.Sort.{Some-sort}
use codearts_bridge.Scheduler.Priority.{
  Candidate, Usage, used, take_slot, is_free, FloatOps, ScheduledTask, deps_done, can_retry,
  by_score, sort_by_critical_path, select_worker, planned, plan_tasks, plan_dispatch,
}
use codearts_bridge.Scheduler.Priority.Selection.{
  used-take_slot, select_worker_holds, select_worker-ne-none,
}

-- How many entries of a plan go to a worker.
abbrev pub entries : String → List (String × Candidate) → ℕ
entries id [] = 0
entries id ((task_id, w) ∷ plan) = (if w.id == id then 1 else 0) + entries id plan

module _ (floats : FloatOps) (workers : List Candidate) where
  module _ (id : String) (limit : ℕ) where
    -- Every listed worker of the id has the limit.
    abbrev pub HasLimit : Candidate → Type 0
    HasLimit w = (w.id == id) ≡ true → w.concurrency_limit ≡ limit

    slot_within :
        (c : String) (usage : Usage) (w : Candidate)
        → HasLimit w
        → is_free c usage w ≡ true
        → used id usage ≤ limit
        → used id (take_slot w.id usage) ≤ limit
    unfolding is_free
    slot_within c usage w of_limit free within = elim (Bool-cases (w.id == id)) [
      | inl e ↦
          let same : w.id ≡ id = (eq_iff w.id id).0 e in
          let room : used w.id usage < w.concurrency_limit = ground arith in
          let top = of_limit e in
          let step = used-take_slot w.id id usage in
          let mine : used w.id usage ≡ used id usage = ap (λ j. used j usage) same in ground arith
      | inr e ↦ let step = used-take_slot w.id id usage in ground arith
    ]

    plan_tasks-within :
        (tasks : List (ScheduledTask floats)) (usage : Usage)
        → All HasLimit workers
        → used id usage ≤ limit
        → used id usage + entries id (plan_tasks floats workers tasks usage) ≤ limit
    unfolding plan_tasks
    plan_tasks-within [] usage h within = omega arith
    plan_tasks-within (t ∷ ts) usage h within =
        elim (Bool-cases (not (deps_done floats t) || not (can_retry floats t))) [
          | inl e ↦ rw e (plan_tasks-within ts usage h within)
          | inr e ↦ rw e (
              planned_within (select_worker floats t workers usage)
                (λ w s. select_worker_holds HasLimit floats t workers usage w h s)
                (plan_tasks-within ts usage h within)
                (λ w. plan_tasks-within ts (take_slot w.id usage) h))
        ]
      where
        planned_within :
            (o : Option Candidate)
            → ((w : Candidate)
                → o ≡ some w
                → HasLimit w × (is_free t.resource_class usage w ≡ true))
            → used id usage + entries id (plan_tasks floats workers ts usage) ≤ limit
            → ((w : Candidate)
                → used id (take_slot w.id usage) ≤ limit
                → used id (take_slot w.id usage)
                    + entries id (plan_tasks floats workers ts (take_slot w.id usage))
                  ≤ limit)
            → used id usage + entries id (planned floats t usage (plan_tasks floats workers ts) o)
              ≤ limit
        planned_within none sel idle busy = unfold planned in idle
        planned_within (some w) sel idle busy =
            let chosen = sel w refl in
            let step = used-take_slot w.id id usage in
            let rest = busy w (slot_within t.resource_class usage w chosen.0 chosen.1 within) in
            unfold planned in omega arith

    -- A worker that starts within its limit stays within it, the plan's tasks counted, where every
    -- listing of its id has that limit.
    pub plan_dispatch-within :
        (tasks : List (ScheduledTask floats)) (usage : Usage)
        → All HasLimit workers
        → used id usage ≤ limit
        → used id usage + entries id (plan_dispatch floats tasks workers usage) ≤ limit
    unfolding plan_dispatch
    plan_dispatch-within tasks usage h within =
        plan_tasks-within (sort_by_critical_path floats tasks) usage h within

  -- A task that may run, for which some worker is free.
  abbrev pub CanStart : Usage → ScheduledTask floats → Type 0
  CanStart usage t =
      (deps_done floats t ≡ true)
      × ((can_retry floats t ≡ true) × Some (λ w. is_free t.resource_class usage w ≡ true) workers)

  planned-ne-nil :
      (t : ScheduledTask floats) (usage : Usage) (rest : Usage → List (String × Candidate))
      (o : Option Candidate)
      → (o ≡ none → rest usage ≢ [])
      → planned floats t usage rest o ≢ []
  unfolding planned
  planned-ne-nil t usage rest none more e = more refl e
  planned-ne-nil t usage rest (some w) more e = absurd (cc)

  plan_tasks-ne-nil :
      (ts : List (ScheduledTask floats)) (usage : Usage)
      → Some (CanStart usage) ts
      → plan_tasks floats workers ts usage ≢ []
  unfolding plan_tasks
  plan_tasks-ne-nil [] usage h = elim h [ ]
  plan_tasks-ne-nil (t ∷ ts) usage (inl (done, (retry, free))) =
      let open_task : (not (deps_done floats t) || not (can_retry floats t)) ≡ false =
        rw (done, retry) refl in
      rw open_task (
        planned-ne-nil t usage (plan_tasks floats workers ts) (select_worker floats t workers usage)
          (λ n. absurd (select_worker-ne-none floats t workers usage free n)))
  plan_tasks-ne-nil (t ∷ ts) usage (inr later) =
      elim (Bool-cases (not (deps_done floats t) || not (can_retry floats t))) [
        | inl e ↦ rw e (plan_tasks-ne-nil ts usage later)
        | inr e ↦ rw e (
            planned-ne-nil t usage (plan_tasks floats workers ts)
              (select_worker floats t workers usage) (λ n. plan_tasks-ne-nil ts usage later))
      ]

  -- Where a task may run and some worker is free for it, the plan is not empty.
  pub plan_dispatch-ne-nil :
      (tasks : List (ScheduledTask floats)) (usage : Usage)
      → Some (CanStart usage) tasks
      → plan_dispatch floats tasks workers usage ≢ []
  unfolding plan_dispatch sort_by_critical_path
  plan_dispatch-ne-nil tasks usage h =
      plan_tasks-ne-nil (sort_by_critical_path floats tasks) usage (
        Some-append-left (CanStart usage) _ _ (
          Some-sort (by_score floats) (CanStart usage) _ (
            Some-keep (λ t. deps_done floats t && can_retry floats t) (CanStart usage) tasks
              (λ t c. rw (c.0, c.1.0) refl) h)))
