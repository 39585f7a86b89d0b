-- ===== src/Pipeline.antt =====
-- src/bridge/pipeline.py: one cycle of the pipeline. What the calls of the other parts return, or
-- the text of the exception that they raise, are arguments; times are JSON numbers.
pub mod Persisted
pub mod Totals
use codearts_bridge.Prelude.{
  ℕ, suc, ◌+◌, String, Bool, true, false, not, ◌&&◌, ◌||◌, Option, none, some, List, [], ◌∷◌, ◌++◌,
  ◌==◌, length, eqb, keep, map, if◌then◌else◌,
}
use codearts_bridge.Core.Value.{
  ℤ, pos, Value, str, int, ◌or◌, truthy, is_text, in_states, to_int, Doc, get, get_or, File,
}
use codearts_bridge.Core.Json.{Json}
use codearts_bridge.Core.State.{read_or_empty}
use codearts_bridge.Legacy.{candidate_statuses, active_statuses, get_state}
use codearts_bridge.Scheduler.Dependency.{States}
use codearts_bridge.Core.Errors.{Result, ok, raise, ◌>>=◌, Error, Call, threw, returned}
use codearts_bridge.AutoDispatch.{AutoDispatchResult, Failure}
use codearts_bridge.Architect.{ArchitectResult}
use codearts_bridge.Architect.Judgement.{ReviewVerdict, Decision, pass, fix}
use codearts_bridge.Integration.{IntegrationResult}
use codearts_bridge.Tasks.{status_of, state_json}

-- The texts of `errors`, by the step that they come from; `raised` is an exception with its step.
pub data Problem : Type 0 where
  raised : (message : String) → Problem
  review_failed : (task_id : String) → Error → Problem
  dispatch_problem : Failure → Problem
  integration_failed : (task_id detail : String) → Problem

pub record CycleResult : Type 0 where
  pub cycle : ℕ
  pub dispatched : ℕ
  pub reviewed : ℕ
  pub integrated : ℕ
  pub conflicts : ℕ
  pub errors : List Problem

pub data Status : Type 0 where
  running idle stopped blocked : Status

pub record PipelineState : Type 0 where
  pub cycle_count : ℕ
  pub status : Status
  pub last_cycle_time : Json
  pub total_dispatched : ℕ
  pub total_reviewed : ℕ
  pub total_integrated : ℕ
  pub total_conflicts : ℕ
  pub first_pass_count : ℕ
  pub total_pass_count : ℕ

-- `verdict.decision != "PASS"` is its negation.
unfoldable pub is_pass : Decision → Bool
is_pass pass = true
is_pass fix = false

-- `int(...)`, or 0 where it raises
abbrev pub or_zero : Option ℤ → ℤ
or_zero none = pos 0
or_zero (some n) = n

-- `attempt == 1`, of a state file
unfoldable pub is_first_attempt : Doc → Bool
is_first_attempt d =
    elim (or_zero (to_int (◌or◌ (get_or "attempt" (int (pos 0)) d) (int (pos 0))))) [
      | pos n ↦ eqb n 1
      | ℤ.negsuc n ↦ false
    ]

unfoldable pub count_first_passes : States → List ReviewVerdict → Result ℕ
count_first_passes tasks [] = ok 0
count_first_passes tasks (v ∷ verdicts) =
    let rest = count_first_passes tasks verdicts in
    if not (is_pass v.decision)
    then rest
    else read_or_empty (state_json v.task_id tasks) >>= λ d.
        rest >>= λ n. ok (if is_first_attempt d then suc n else n)

unfoldable pub is_open : Value → Bool
is_open status =
    in_states status candidate_statuses
    || in_states status active_statuses
    || is_text status "REVIEW_REQUIRED"

unfoldable pub has_active_tasks : States → Result Bool
has_active_tasks [] = ok false
has_active_tasks ((name, file) ∷ tasks) =
    get_state file >>= λ d. if is_open (status_of d) then ok true else has_active_tasks tasks

-- The tasks of a directory that a dry run counts.
unfoldable pub tasks_where : (Doc → Bool) → States → Result (List String)
tasks_where test [] = ok []
tasks_where test ((name, file) ∷ tasks) = get_state file >>= λ d.
    tasks_where test tasks >>= λ names. ok (if test d then name ∷ names else names)

unfoldable pub awaits_review : Doc → Bool
awaits_review d = is_text (status_of d) "REVIEW_REQUIRED"

unfoldable pub awaits_integration : Doc → Bool
awaits_integration d = is_text (status_of d) "DONE" && not (truthy (get "integratedSha" d))

abbrev pub Cycle : Type 0
Cycle = PipelineState × CycleResult

abbrev pub with_errors : List Problem → CycleResult → CycleResult
with_errors es r = record r { errors = r.errors ++ es }

-- The total of the reviews is counted before the first passes, which may raise.
unfoldable pub with_passes : ArchitectResult → Cycle → Result ℕ → Cycle
with_passes ar (s, r) (raise e) =
    (s, with_errors (raised "architect_loop: invalid state.json" ∷ []) r)
with_passes ar (s, r) (ok n) = (
  record s {
    first_pass_count = s.first_pass_count + n;
    total_pass_count = s.total_pass_count + ar.passed;
  },
  with_errors (map (λ (id, e). review_failed id e) ar.errors) r,
)

unfoldable pub reviewed_step : States → Call ArchitectResult → Cycle → Cycle
reviewed_step tasks (threw e) (s, r) = (s, with_errors (raised e ∷ []) r)
reviewed_step tasks (returned ar) (s, r) =
    with_passes ar
      (
        record s { total_reviewed = s.total_reviewed + ar.reviewed },
        record r { reviewed = ar.reviewed },
      )
      (count_first_passes tasks ar.verdicts)

unfoldable pub dispatch_step : Call AutoDispatchResult → Cycle → Cycle
dispatch_step (threw e) (s, r) = (s, with_errors (raised e ∷ []) r)
dispatch_step (returned dr) (s, r) = (
  record s { total_dispatched = s.total_dispatched + dr.dispatched },
  with_errors (map dispatch_problem dr.errors) (record r { dispatched = dr.dispatched }),
)

-- The tasks that were integrated, and the messages of those that were not.
unfoldable pub integrated_ids : List IntegrationResult → List String
integrated_ids results = map (λ r. r.task_id) (keep (λ r. r.success) results)

-- `r.error or "integration failed"`
abbrev pub detail_of : String → String
detail_of error = if error == "" then "integration failed" else error

unfoldable pub failures : List IntegrationResult → List Problem
failures results =
    map (λ r. integration_failed r.task_id (detail_of r.error)) (keep (λ r. not r.success) results)

unfoldable pub integrate_step : Call (List IntegrationResult) → Cycle → Cycle × List String
integrate_step (threw e) (s, r) = ((s, with_errors (raised e ∷ []) r), [])
integrate_step (returned results) (s, r) =
    let ids = integrated_ids results in
    (
      (
        record s { total_integrated = s.total_integrated + length ids },
        with_errors (failures results) (record r { integrated = length ids }),
      ),
      ids,
    )

-- `detect` is whether a task conflicts; `handle` is the marking of one that does.
module _ (detect : String → Call Bool) (handle : String → Call (Unit {0})) where
  unfoldable pub after_handle : Cycle → (Cycle → Cycle) → Call (Unit {0}) → Cycle
  after_handle (s, r) rest (threw e) = (s, with_errors (raised e ∷ []) r)
  after_handle (s, r) rest (returned u) = rest (s, r)

  -- A dry run counts the conflict and leaves the total and the task.
  unfoldable pub marked : Bool → String → Cycle → (Cycle → Cycle) → Cycle
  marked true tid (s, r) rest = rest (s, record r { conflicts = suc r.conflicts })
  marked false tid (s, r) rest =
      after_handle
        (
          record s { total_conflicts = suc s.total_conflicts },
          record r { conflicts = suc r.conflicts },
        )
        rest (handle tid)

  unfoldable pub after_detect : Bool → String → Cycle → (Cycle → Cycle) → Call Bool → Cycle
  after_detect dry_run tid (s, r) rest (threw e) = (s, with_errors (raised e ∷ []) r)
  after_detect dry_run tid c rest (returned false) = rest c
  after_detect dry_run tid c rest (returned true) = marked dry_run tid c rest

  unfoldable pub conflict_step : Bool → List String → Cycle → Cycle
  conflict_step dry_run [] c = c
  conflict_step dry_run (tid ∷ tids) c =
      after_detect dry_run tid c (conflict_step dry_run tids) (detect tid)

unfoldable pub is_nil : List Problem → Bool
is_nil [] = true
is_nil (e ∷ es) = false

-- `result.errors and not result.dispatched and not result.reviewed and not result.integrated`
unfoldable pub is_blocked : CycleResult → Bool
is_blocked r = not (is_nil r.errors) && eqb r.dispatched 0 && eqb r.reviewed 0 && eqb r.integrated 0

unfoldable pub status_after : CycleResult → States → Result Status
status_after r tasks =
    if is_blocked r
    then ok blocked
    else has_active_tasks tasks >>= λ active. ok (if active then running else idle)

unfoldable pub finished : States → Json → Cycle → Result Cycle
finished tasks time (s, r) = status_after r tasks >>= λ status.
    ok (record s { cycle_count = suc s.cycle_count; last_cycle_time = time; status = status }, r)

abbrev pub fresh : PipelineState → CycleResult
fresh s = record {
  cycle = suc s.cycle_count;
  dispatched = 0;
  reviewed = 0;
  integrated = 0;
  conflicts = 0;
  errors = [];
}

-- What the calls of a cycle return, the files of the tasks when they are read, and the time.
pub record Inputs : Type 0 where
  pub tasks : States
  pub architect : Call ArchitectResult
  pub dispatch : Call AutoDispatchResult
  pub integrate : Call (List IntegrationResult)
  pub tasks_after : States
  pub detect : String → Call Bool
  pub handle : String → Call (Unit {0})
  pub tasks_at_end : States
  pub time : Json

unfoldable pub real_cycle : Inputs → PipelineState → Result Cycle
real_cycle i s =
    let (c, ids) =
      integrate_step i.integrate
        (dispatch_step i.dispatch (reviewed_step i.tasks i.architect (s, fresh s))) in
    finished i.tasks_at_end i.time (conflict_step i.detect i.handle false ids c)

unfoldable pub dry_cycle : Inputs → PipelineState → Result Cycle
dry_cycle i s = tasks_where awaits_review i.tasks >>= λ reviews.
    let (s', r) = dispatch_step i.dispatch (s, record (fresh s) { reviewed = length reviews }) in
    tasks_where awaits_integration i.tasks_after >>= λ ids.
    finished i.tasks_at_end i.time
      (conflict_step i.detect i.handle true ids (s', record r { integrated = length ids }))

unfoldable pub run_pipeline_cycle : Bool → Inputs → PipelineState → Result Cycle
run_pipeline_cycle true i s = dry_cycle i s
run_pipeline_cycle false i s = real_cycle i s
