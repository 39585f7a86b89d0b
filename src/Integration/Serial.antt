-- ===== src/Integration/Serial.antt =====
-- The order of the integrations of src/bridge/integration.py.
use codearts_bridge.Prelude.{
  String, ◌≡◌, inl, inr, true, false, not, ◌&&◌, ◌||◌, List, [], ◌∷◌, Bool-cases, arith,
}
use codearts_bridge.Core.Errors.{Result, ok, raise, ◌>>=◌}
use codearts_bridge.Integration.{Git, IntegrationResult, Site, Answer}
use codearts_bridge.Integration.Loop.{after_task, integrate_all}

-- Every result but the last is a success, or was reverted.
abbrev pub Serial : List IntegrationResult → Type 0
Serial [] = Unit
Serial (r ∷ []) = Unit
Serial (r ∷ s ∷ rs) = ((r.success || r.reverted) ≡ true) × Serial (s ∷ rs)

abbrev pub OnResults : (List IntegrationResult → Type 0) → Result (List IntegrationResult) → Type 0
OnResults P (raise e) = Unit
OnResults P (ok rs) = P rs

clean_result :
    (r : IntegrationResult)
    → (not r.success && not r.reverted) ≡ false
    → (r.success || r.reverted) ≡ true
clean_result r h = ground arith

Serial-results :
    (r : IntegrationResult) (o : Result (List IntegrationResult))
    → (r.success || r.reverted) ≡ true
    → OnResults Serial o
    → OnResults Serial (o >>= λ rs. ok (r ∷ rs))
Serial-results r (raise e) clean h = tt
Serial-results r (ok []) clean h = tt
Serial-results r (ok (s ∷ rs)) clean h = (clean, h)

module _ (git : Git) (integrate : String → Site git → Answer git) where
  after_task-Serial :
      (rest : Site git → Result (List IntegrationResult) × Site git) (o : Answer git)
      → ((w : Site git) → OnResults Serial (rest w).0)
      → OnResults Serial (after_task git integrate rest o).0
  unfolding after_task
  after_task-Serial rest (raise e, w) more = tt
  after_task-Serial rest (ok r, w) more = elim (Bool-cases (not r.success && not r.reverted)) [
    | inl e ↦ rw e tt
    | inr e ↦ rw e (Serial-results r (rest w).0 (clean_result r e) (more w))
  ]

  -- Where the loop returns, each of its results but the last one is a success, or was reverted.
  pub integrate_all-Serial :
      (ids : List String) (w : Site git) → OnResults Serial (integrate_all git integrate ids w).0
  unfolding integrate_all
  integrate_all-Serial [] w = tt
  integrate_all-Serial (id ∷ ids) w =
      after_task-Serial (integrate_all git integrate ids) (integrate id w)
        (integrate_all-Serial ids)
