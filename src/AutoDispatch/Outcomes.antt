-- ===== src/AutoDispatch/Outcomes.antt =====
-- The ways in which the dispatch of one assignment ends in src/bridge/auto_dispatch.py.
use codearts_bridge.Prelude.{ℕ, suc, ◌≡◌, refl, String, Option, none, some, inl, inr, Bool-cases}
use codearts_bridge.Core.Value.{Value, Doc, in_states}
use codearts_bridge.Core.Errors.{Result, ok, raise}
use codearts_bridge.Core.Models.{Assignment}
use codearts_bridge.Legacy.{candidate_statuses}
use codearts_bridge.AutoDispatch.{
  AutoDispatchResult, World, released, with_entry, with_error, with_state, no_longer_candidate,
  spawn_failed, save_assignment, next, after_revert, after_spawn, after_queue, enqueue,
  if_candidate, dispatch_one,
}
use codearts_bridge.Tasks.{status_of}

-- No exception, and `P` of the result.
abbrev pub OnOk : (AutoDispatchResult → World → Type 0) → Result AutoDispatchResult × World → Type 0
OnOk P (raise e, w) = Unit
OnOk P (ok r, w) = P r w

pub OnOk-mono :
    (P Q : AutoDispatchResult → World → Type 0) (end : Result AutoDispatchResult × World)
    → ((r : AutoDispatchResult) (w : World) → P r w → Q r w)
    → OnOk P end
    → OnOk Q end
OnOk-mono P Q (raise e, w) f h = tt
OnOk-mono P Q (ok r, w) f h = f r w h

pub OnOk-both :
    (P Q : AutoDispatchResult → World → Type 0) (end : Result AutoDispatchResult × World)
    → OnOk P end
    → OnOk Q end
    → OnOk (λ r w. P r w × Q r w) end
OnOk-both P Q (raise e, w) p q = tt
OnOk-both P Q (ok r, w) p q = (p, q)

pub OnOk-next :
    (P Q : AutoDispatchResult → World → Type 0) (first : Result AutoDispatchResult × World)
    (f : AutoDispatchResult → World → Result AutoDispatchResult × World)
    → OnOk P first
    → ((r : AutoDispatchResult) (w : World) → P r w → OnOk Q (f r w))
    → OnOk Q (next first f)
OnOk-next P Q (raise e, w) f h then' = tt
OnOk-next P Q (ok r, w) f h then' = then' r w h

-- The world after a dispatch: the leases are those before, or without the assignment's.
module _ (spawn : Assignment → Option String) (queued_at reverted_at : ℕ → String)
    (P : AutoDispatchResult → World → Type 0) (a : Assignment) (r : AutoDispatchResult) where
  revert_ends :
      (e : String) (w : World) (o : Result Doc)
      → ((v : World)
          → v.leases ≡ w.leases
          → P (with_error (spawn_failed a.task_id e) r) (released a v))
      → OnOk P (after_revert spawn queued_at reverted_at a e r w o)
  unfolding after_revert
  revert_ends e w (raise error) h = tt
  revert_ends e w (ok d) h = h (with_state a.task_id d w) refl

  spawn_ends :
      (i : ℕ) (w : World) (o : Option String)
      → ((v : World)
          → v.leases ≡ w.leases
          → P (with_entry a (record r { dispatched = suc r.dispatched })) v)
      → ((e : String) (v : World)
          → v.leases ≡ w.leases
          → P (with_error (spawn_failed a.task_id e) r) (released a v))
      → OnOk P (after_spawn spawn queued_at reverted_at i a r w o)
  unfolding after_spawn
  spawn_ends i w none started failed = started w refl
  spawn_ends i w (some e) started failed = revert_ends e w _ (failed e)

  queue_ends :
      (i : ℕ) (w : World) (o : Result Doc)
      → ((v : World)
          → v.leases ≡ w.leases
          → P (with_entry a (record r { dispatched = suc r.dispatched })) v)
      → ((e : String) (v : World)
          → v.leases ≡ w.leases
          → P (with_error (spawn_failed a.task_id e) r) (released a v))
      → OnOk P (after_queue spawn queued_at reverted_at i a r w o)
  unfolding after_queue
  queue_ends i w (raise error) started failed = tt
  queue_ends i w (ok d) started failed =
      spawn_ends i (with_state a.task_id d w) (spawn a) started failed

  candidate_ends :
      (i : ℕ) (w : World) (o : Result Doc)
      → ((v : World)
          → v.leases ≡ w.leases
          → P (with_entry a (record r { dispatched = suc r.dispatched })) v)
      → ((status : Value)
          → P
              (with_error
                (no_longer_candidate a.task_id status)
                (record r { skipped = suc r.skipped }))
              (released a w))
      → ((e : String) (v : World)
          → v.leases ≡ w.leases
          → P (with_error (spawn_failed a.task_id e) r) (released a v))
      → OnOk P (if_candidate spawn queued_at reverted_at i a r w o)
  unfolding if_candidate enqueue save_assignment
  candidate_ends i w (raise error) started refused failed = tt
  candidate_ends i w (ok current) started refused failed =
      elim (Bool-cases (in_states (status_of current) candidate_statuses)) [
        | inl e ↦ rw e (queue_ends i (save_assignment a w) _ started failed)
        | inr e ↦ rw e (refused (status_of current))
      ]

  -- What holds after a start, a refusal and a failed start holds after each dispatch.
  pub dispatch_one-OnOk :
      (i : ℕ) (w : World)
      → ((v : World)
          → v.leases ≡ w.leases
          → P (with_entry a (record r { dispatched = suc r.dispatched })) v)
      → ((status : Value)
          → P
              (with_error
                (no_longer_candidate a.task_id status)
                (record r { skipped = suc r.skipped }))
              (released a w))
      → ((e : String) (v : World)
          → v.leases ≡ w.leases
          → P (with_error (spawn_failed a.task_id e) r) (released a v))
      → OnOk P (dispatch_one spawn queued_at reverted_at i a r w)
  unfolding dispatch_one
  dispatch_one-OnOk i w started refused failed = candidate_ends i w _ started refused failed
