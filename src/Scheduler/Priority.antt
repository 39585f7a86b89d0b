-- ===== src/Scheduler/Priority.antt =====
-- src/bridge/scheduler/priority.py: scheduling by priority, duration and dependencies. Python's
-- floats are an interface; a worker is what the code reads of one, its defaults filled in. States
-- of dependencies come with the name of the task that they are of.
pub mod Selection
pub mod Plan
use Prim.Native.String.{compare}
use Prim.Native.Nat.{Ordering}
use codearts_bridge.Prelude.{
  ℕ, suc, ◌+◌, ◌*◌, String, Bool, true, false, not, ◌&&◌, ◌||◌, Option, none, some, List, [], ◌∷◌,
  ◌++◌, ◌==◌, all, keep, length, leb, ltb, mem, if◌then◌else◌,
}
use codearts_bridge.Prelude.Sort.{sort}
use codearts_bridge.Core.Value.{ℤ, pos, leb_ℤ}

-- The operations of `float` that the score uses.
pub record FloatOps : Type 1 where
  pub Float : Type 0
  pub of_int : ℤ → Float
  pub plus : Float → Float → Float
  pub minus : Float → Float → Float
  pub divided : Float → Float → Float
  pub negated : Float → Float
  pub less : Float → Float → Bool

-- A worker, as far as `getattr` reads it.
pub record Candidate : Type 0 where
  pub id : String
  pub enabled : Bool
  pub concurrency_limit : ℕ
  pub capabilities : List String

-- The number of running tasks by worker.
abbrev pub Usage : Type 0
Usage = List (String × ℕ)

-- `usage.get(id, 0)`
unfoldable pub used : String → Usage → ℕ
used id [] = 0
used id ((name, n) ∷ usage) = if name == id then n else used id usage

-- `usage[id] = usage.get(id, 0) + 1`
unfoldable pub take_slot : String → Usage → Usage
take_slot id [] = (id, 1) ∷ []
take_slot id ((name, n) ∷ usage) =
    if name == id then (name, n + 1) ∷ usage else (name, n) ∷ take_slot id usage

unfoldable pub is_empty : List String → Bool
is_empty [] = true
is_empty (s ∷ ss) = false

-- The tests that pass a worker over, for a class of resources.
unfoldable pub is_free : String → Usage → Candidate → Bool
is_free resource_class usage w =
    w.enabled
    && ltb (used w.id usage) w.concurrency_limit
    && (is_empty w.capabilities || mem resource_class w.capabilities)

abbrev pub if_passes : Bool → Candidate → Option Candidate → Option Candidate
if_passes true w rest = some w
if_passes false w rest = rest

unfoldable pub first_of : (Candidate → Bool) → List Candidate → Option Candidate
first_of test [] = none
first_of test (w ∷ ws) = if_passes (test w) w (first_of test ws)

abbrev pub or_later : Option Candidate → Option Candidate → Option Candidate
or_later none later = later
or_later (some w) later = some w

-- The first preferred worker, in the order of preference, that is free.
unfoldable pub preferred : String → Usage → List Candidate → List String → Option Candidate
preferred resource_class usage workers [] = none
preferred resource_class usage workers (wid ∷ wids) =
    or_later (first_of (λ w. w.id == wid && is_free resource_class usage w) workers)
      (preferred resource_class usage workers wids)

unfoldable pub by_id : Candidate → Candidate → Bool
by_id v w = elim (compare v.id w.id) [ Ordering.gt ↦ false | _ ↦ true ]

unfoldable pub or_free : String → Usage → List Candidate → Option Candidate → Option Candidate
or_free resource_class usage workers (some w) = some w
or_free resource_class usage workers none =
    first_of (is_free resource_class usage) (sort by_id workers)

module _ (floats : FloatOps) where
  open floats use {Float, of_int, plus, minus, divided, negated, less}

  pub record ScheduledTask : Type 0 where
    pub task_id : String
    pub priority : ℤ
    pub estimated_minutes : Float
    pub attempt : ℤ
    pub max_retries : ℤ
    pub preferred_workers : List String
    pub resource_class : String
    pub dependencies : List String
    pub dependency_states : List (String × String)

  unfoldable pub deps_done : ScheduledTask → Bool
  deps_done t = all (λ (dep, s). s == "DONE") t.dependency_states

  unfoldable pub deps_pending : ScheduledTask → ℕ
  deps_pending t = length (keep (λ (dep, s). not (s == "DONE")) t.dependency_states)

  unfoldable pub can_retry : ScheduledTask → Bool
  can_retry t = leb_ℤ t.attempt t.max_retries

  unfoldable pub scheduling_score : ScheduledTask → Float
  scheduling_score t =
      let score = minus (of_int t.priority) (of_int (pos (deps_pending t * 100))) in
      if less (of_int (pos 0)) t.estimated_minutes
      then plus score (divided (of_int (pos 10)) t.estimated_minutes)
      else score

  -- The order of a stable sort by the negated score.
  unfoldable pub by_score : ScheduledTask → ScheduledTask → Bool
  by_score t u = not (less (negated (scheduling_score u)) (negated (scheduling_score t)))

  unfoldable pub sort_by_critical_path : List ScheduledTask → List ScheduledTask
  sort_by_critical_path tasks =
      sort by_score (keep (λ t. deps_done t && can_retry t) tasks)
      ++ (sort by_score (keep (λ t. not (deps_done t)) tasks)
          ++ keep (λ t. deps_done t && not (can_retry t)) tasks)

  unfoldable pub select_worker : ScheduledTask → List Candidate → Usage → Option Candidate
  select_worker t workers usage =
      or_free t.resource_class usage workers
        (preferred t.resource_class usage workers t.preferred_workers)

  -- What the choice for one task adds to the plan of the tasks behind it.
  unfoldable pub planned :
      ScheduledTask
      → Usage
      → (Usage → List (String × Candidate))
      → Option Candidate
      → List (String × Candidate)
  planned t usage rest none = rest usage
  planned t usage rest (some w) = (t.task_id, w) ∷ rest (take_slot w.id usage)

  unfoldable pub plan_tasks :
      List Candidate → List ScheduledTask → Usage → List (String × Candidate)
  plan_tasks workers [] usage = []
  plan_tasks workers (t ∷ ts) usage =
      let rest = plan_tasks workers ts in
      if not (deps_done t) || not (can_retry t)
      then rest usage
      else planned t usage rest (select_worker t workers usage)

  unfoldable pub plan_dispatch :
      List ScheduledTask → List Candidate → Usage → List (String × Candidate)
  plan_dispatch tasks workers usage = plan_tasks workers (sort_by_critical_path tasks) usage
