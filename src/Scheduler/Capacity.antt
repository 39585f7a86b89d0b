-- ===== src/Scheduler/Capacity.antt =====
-- src/bridge/scheduler/capacity.py: how many assignments a worker may still take.
use codearts_bridge.Prelude.{
  ℕ, ◌+◌, ◌-◌, ◌<◌, String, ◌≡◌, Bool, true, false, ◌&&◌, ◌↔◌, Option, none, some, List, ◌∷◌, ◌++◌,
  ◌==◌, keep, keep-append, length, length-append, ltb, arith, if◌then◌else◌,
}
use codearts_bridge.Core.Models.{Worker, Assignment}

unfoldable pub is_none {ℓ} : {A : Type ℓ} → Option A → Bool
is_none none = true
is_none (some _) = false

unfoldable pub get_active_assignments : List Assignment → String → List Assignment
get_active_assignments assignments worker_id =
    keep (λ a. a.worker_id == worker_id && is_none a.finished_at) assignments

unfoldable pub has_capacity : Worker → List Assignment → Bool
has_capacity worker assignments =
    ltb (length (get_active_assignments assignments worker.id)) worker.concurrency_limit

-- `max(0, limit - n)` is the subtraction that stops at 0.
unfoldable pub available_capacity : Worker → List Assignment → ℕ
available_capacity worker assignments =
    worker.concurrency_limit - length (get_active_assignments assignments worker.id)

unfoldable pub filter_with_capacity : List Worker → List Assignment → List Worker
filter_with_capacity workers assignments = keep (λ w. has_capacity w assignments) workers

-- The load of a worker: its assignments that are not finished.
abbrev pub load : List Assignment → String → ℕ
load assignments worker_id = length (get_active_assignments assignments worker_id)

pub load-append : (xs ys : List Assignment) (w : String) → load (xs ++ ys) w ≡ load xs w + load ys w
unfolding get_active_assignments
load-append xs ys w = rw keep-append (length-append _ _)

-- A worker has capacity exactly where the remaining capacity is not 0.
pub has_capacity_iff :
    (worker : Worker) (assignments : List Assignment)
    → (has_capacity worker assignments ≡ true) ↔ (0 < available_capacity worker assignments)
unfolding has_capacity available_capacity
has_capacity_iff worker assignments = (λ h. ground arith, λ h. ground arith)

-- A new assignment of the worker itself takes one slot of a worker that has capacity; one of
-- another worker takes none.
pub available_capacity-cons :
    (worker : Worker) (a : Assignment) (assignments : List Assignment)
    → a.finished_at ≡ none
    → available_capacity worker (a ∷ assignments)
      ≡ available_capacity worker assignments - (if a.worker_id == worker.id then 1 else 0)
unfolding available_capacity get_active_assignments keep is_none
available_capacity-cons worker a assignments h = ground arith
