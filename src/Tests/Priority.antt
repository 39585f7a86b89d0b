-- ===== src/Tests/Priority.antt =====
-- The dispatch plan of src/bridge/scheduler/priority.py, with whole numbers in the place of floats.
use Prim.Native.Nat.{◌/◌}
use codearts_bridge.Prelude.{
  ℕ, suc, ◌+◌, ◌-◌, ◌≤◌, ◌≢◌, ◌≡◌, refl, inl, true, List, [], ◌∷◌, String, arith, leb,
  if◌then◌else◌, not, keep, mem,
}
use codearts_bridge.Prelude.Sort.{sort, insert}
use codearts_bridge.Core.Value.{ℤ, pos, negsuc, leb_ℤ}
use codearts_bridge.Scheduler.Priority.{
  FloatOps, Candidate, used, is_free, ScheduledTask, deps_done, can_retry, plan_dispatch,
  plan_tasks, sort_by_critical_path, by_score, scheduling_score, deps_pending, planned,
  select_worker, or_free, preferred, first_of, by_id, is_empty, take_slot,
}
use codearts_bridge.Scheduler.Priority.Plan.{entries, plan_dispatch-within, plan_dispatch-ne-nil}

abbrev difference : ℕ → ℕ → ℤ
difference m n = if leb n m then pos (m - n) else negsuc (n - m - 1)

abbrev positive : ℤ → ℕ
positive (pos n) = n
positive (negsuc n) = 0

abbrev negative : ℤ → ℕ
negative (pos n) = 0
negative (negsuc n) = suc n

abbrev whole_numbers : FloatOps
whole_numbers = record {
  Float = ℤ;
  of_int = λ n. n;
  plus = λ a b. difference (positive a + positive b) (negative a + negative b);
  minus = λ a b. difference (positive a + negative b) (negative a + positive b);
  divided = λ a b. pos (positive a / positive b);
  negated = λ a. difference (negative a) (positive a);
  less = λ a b. not (leb_ℤ b a);
}

abbrev worker : String → ℕ → Candidate
worker id limit = record { id = id; enabled = true; concurrency_limit = limit; capabilities = [] }

abbrev workers : List Candidate
workers = worker "w2" 1 ∷ worker "w1" 2 ∷ []

abbrev task : String → ℕ → ℕ → List (String × String) → ScheduledTask whole_numbers
task id priority minutes states = record {
  task_id = id;
  priority = pos priority;
  estimated_minutes = pos minutes;
  attempt = pos 1;
  max_retries = pos 1;
  preferred_workers = [];
  resource_class = "implementation";
  dependencies = [];
  dependency_states = states;
}

abbrev tasks : List (ScheduledTask whole_numbers)
tasks =
    task "low" 10 0 []
    ∷ task "waiting" 90 0 (("low", "READY") ∷ [])
    ∷ task "high" 50 0 (("old", "DONE") ∷ [])
    ∷ task "short" 50 2 []
    ∷ []

-- `w1` has one task already: it takes the shortest of the urgent ones, and `w2` the other.
plan_dispatch_run :
    plan_dispatch whole_numbers tasks workers (("w1", 1) ∷ [])
    ≡ ("short", worker "w1" 2) ∷ ("high", worker "w2" 1) ∷ []
unfolding plan_dispatch plan_tasks sort_by_critical_path sort insert keep deps_done can_retry leb_ℤ
    by_score scheduling_score deps_pending planned select_worker or_free preferred first_of by_id
    is_free mem is_empty take_slot used
plan_dispatch_run = refl

plan_dispatch-within_example :
    used "w1" (("w1", 1) ∷ [])
      + entries "w1" (plan_dispatch whole_numbers tasks workers (("w1", 1) ∷ []))
    ≤ 2
unfolding used
plan_dispatch-within_example =
    plan_dispatch-within whole_numbers workers "w1" 2 tasks (("w1", 1) ∷ [])
      (λ e. cc, (λ e. refl, tt)) (omega arith)

plan_dispatch-ne-nil_example : plan_dispatch whole_numbers tasks workers (("w1", 1) ∷ []) ≢ []
unfolding used is_free deps_done can_retry leb_ℤ is_empty
plan_dispatch-ne-nil_example =
    plan_dispatch-ne-nil whole_numbers workers tasks (("w1", 1) ∷ []) (inl (refl, (refl, inl refl)))
