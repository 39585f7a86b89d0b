-- ===== src/Pipeline/Totals.antt =====
-- The totals that src/bridge/pipeline.py keeps from cycle to cycle.
use codearts_bridge.Prelude.{
  ℕ, suc, ◌+◌, ◌≤◌, ◌≡◌, refl, String, Bool, true, false, subst, ◌∷◌, List, [], length, arith,
}
use codearts_bridge.Core.Errors.{Result, ok, raise, >>=-eq-ok, ok-injective}
use codearts_bridge.Scheduler.Dependency.{States}
use codearts_bridge.Core.Json.{Json}
use codearts_bridge.Pipeline.{
  Cycle, PipelineState, Inputs, fresh, with_passes, reviewed_step, count_first_passes,
  dispatch_step, integrate_step, after_handle, marked, after_detect, conflict_step, status_after,
  finished, real_cycle, run_pipeline_cycle,
}
use codearts_bridge.Core.Errors.{Call, threw, returned}
use codearts_bridge.Architect.{ArchitectResult}
use codearts_bridge.AutoDispatch.{AutoDispatchResult}
use codearts_bridge.Integration.{IntegrationResult}

-- The totals are those of `s₀` with the counts of the cycle added.
abbrev pub Adds : PipelineState → Cycle → Type 0
Adds s₀ (s, r) =
    (s.total_dispatched ≡ s₀.total_dispatched + r.dispatched)
    × (s.total_reviewed ≡ s₀.total_reviewed + r.reviewed)
    × (s.total_integrated ≡ s₀.total_integrated + r.integrated)
    × (s.total_conflicts ≡ s₀.total_conflicts + r.conflicts)
    × (s.cycle_count ≡ s₀.cycle_count)
    × (r.cycle ≡ suc s₀.cycle_count)

-- The cycle is counted, the totals have its counts added, and each conflict is of a task that was
-- integrated.
abbrev pub Recorded : PipelineState → Cycle → Type 0
Recorded s₀ (s, r) =
    (s.total_dispatched ≡ s₀.total_dispatched + r.dispatched)
    × (s.total_reviewed ≡ s₀.total_reviewed + r.reviewed)
    × (s.total_integrated ≡ s₀.total_integrated + r.integrated)
    × (s.total_conflicts ≡ s₀.total_conflicts + r.conflicts)
    × (s.cycle_count ≡ suc s₀.cycle_count)
    × (r.cycle ≡ suc s₀.cycle_count)
    × (r.conflicts ≤ r.integrated)

module _ (s₀ : PipelineState) where
  abbrev Reviewed : Cycle → Type 0
  Reviewed (s, r) = Adds s₀ (s, r) × (r.dispatched ≡ 0) × (r.integrated ≡ 0) × (r.conflicts ≡ 0)

  abbrev Sent : Cycle → Type 0
  Sent (s, r) = Adds s₀ (s, r) × (r.integrated ≡ 0) × (r.conflicts ≡ 0)

  -- The conflicts are among the `n` tasks that are integrated, of which `left` are to come.
  abbrev Merged : ℕ → Cycle → Type 0
  Merged left (s, r) = Adds s₀ (s, r) × (r.conflicts + left ≤ r.integrated)

  passes_add :
      (ar : ArchitectResult) (o : Result ℕ) (c : Cycle) → Reviewed c → Reviewed (with_passes ar c o)
  unfolding with_passes
  passes_add ar (raise e) (s, r) h = h
  passes_add ar (ok n) (s, r) h = h

  review_adds :
      (tasks : States) (call : Call ArchitectResult)
      → Reviewed (reviewed_step tasks call (s₀, fresh s₀))
  unfolding reviewed_step
  review_adds tasks (threw e) =
      ((omega arith, omega arith, omega arith, omega arith, refl, refl), refl, refl, refl)
  review_adds tasks (returned ar) =
      passes_add ar (count_first_passes tasks ar.verdicts) _
        ((omega arith, refl, omega arith, omega arith, refl, refl), refl, refl, refl)

  dispatch_adds :
      (call : Call AutoDispatchResult) (c : Cycle) → Reviewed c → Sent (dispatch_step call c)
  unfolding dispatch_step
  dispatch_adds (threw e) (s, r) ((d, rv, i, cf, n, cy), dz, iz, cz) =
      ((d, rv, i, cf, n, cy), iz, cz)
  dispatch_adds (returned dr) (s, r) ((d, rv, i, cf, n, cy), dz, iz, cz) =
      ((omega arith, rv, i, cf, n, cy), iz, cz)

  integrate_adds :
      (call : Call (List IntegrationResult)) (c : Cycle)
      → Sent c
      → Merged (length (integrate_step call c).1) (integrate_step call c).0
  unfolding integrate_step
  integrate_adds (threw e) (s, r) (a, iz, cz) = (a, omega arith)
  integrate_adds (returned results) (s, r) ((d, rv, i, cf, n, cy), iz, cz) =
      ((d, rv, omega arith, cf, n, cy), omega arith)

  module _ (detect : String → Call Bool) (handle : String → Call (Unit {0})) where
    handle_adds :
        (left : ℕ) (o : Call (Unit {0})) (c : Cycle) (rest : Cycle → Cycle)
        → Merged left c
        → ((c' : Cycle) → Merged left c' → Merged 0 (rest c'))
        → Merged 0 (after_handle detect handle c rest o)
    unfolding after_handle
    handle_adds left (threw e) (s, r) rest (a, h) more = (a, omega arith)
    handle_adds left (returned u) (s, r) rest h more = more (s, r) h

    detect_adds :
        (left : ℕ) (tid : String) (o : Call Bool) (c : Cycle) (rest : Cycle → Cycle)
        → Merged (suc left) c
        → ((c' : Cycle) → Merged left c' → Merged 0 (rest c'))
        → Merged 0 (after_detect detect handle false tid c rest o)
    unfolding after_detect marked
    detect_adds left tid (threw e) (s, r) rest (a, h) more = (a, omega arith)
    detect_adds left tid (returned false) (s, r) rest (a, h) more = more (s, r) (a, omega arith)
    detect_adds left tid (returned true) (s, r) rest ((d, rv, i, cf, n, cy), h) more =
        handle_adds left (handle tid) _ rest ((d, rv, i, omega arith, n, cy), omega arith) more

    conflicts_add :
        (ids : List String) (c : Cycle)
        → Merged (length ids) c
        → Merged 0 (conflict_step detect handle false ids c)
    unfolding conflict_step
    conflicts_add [] c h = h
    conflicts_add (tid ∷ ids) c h =
        detect_adds (length ids) tid (detect tid) c _ h (conflicts_add ids)

  finished_adds :
      (tasks : States) (time : Json) (c c' : Cycle)
      → Merged 0 c
      → finished tasks time c ≡ ok c'
      → Recorded s₀ c'
  unfolding finished
  finished_adds tasks time (s, r) c' ((d, rv, i, cf, n, cy), h) e =
      let (status, read, same) = >>=-eq-ok (status_after r tasks) _ e in
      subst (Recorded s₀) (ok-injective same) (d, rv, i, cf, omega arith, cy, omega arith)

  -- A cycle that is no dry run and returns has one number more, adds each of its counts to the
  -- total of the same name, and counts no more conflicts than integrated tasks.
  pub run_pipeline_cycle-Recorded :
      (inputs : Inputs) (c : Cycle) → run_pipeline_cycle false inputs s₀ ≡ ok c → Recorded s₀ c
  unfolding run_pipeline_cycle real_cycle
  run_pipeline_cycle-Recorded inputs c e =
      finished_adds inputs.tasks_at_end inputs.time _ c
        (conflicts_add inputs.detect inputs.handle _ _ (
          integrate_adds inputs.integrate _
            (dispatch_adds inputs.dispatch _ (review_adds inputs.tasks inputs.architect))))
        e
