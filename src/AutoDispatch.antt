-- ===== src/AutoDispatch.antt =====
-- src/bridge/auto_dispatch.py: the scan for candidate tasks, and the dispatch of a plan. The
-- directory of the tasks, `world.tasks`, and the existing assignments are as they stand after
-- `reconcile_assignments`; whether a worker process starts is a parameter.
pub mod Outcomes
pub mod Accounts
pub mod Released
use codearts_bridge.Tasks.{TaskEntry, by_entry_name, joined, status_of, state_json, write_state}
use codearts_bridge.Prelude.{
  ℕ, suc, ◌+◌, String, Bool, true, false, not, ◌||◌, Option, none, some, List, [], ◌∷◌, ◌++◌, ◌==◌,
  length, if◌then◌else◌,
}
use codearts_bridge.Prelude.Sort.{sort}
use codearts_bridge.Core.Value.{
  Value, str, ◌or◌, in_states, Doc, get, get_or, File, missing, broken, content,
}
use codearts_bridge.Core.Json.{Members}
use codearts_bridge.Core.Errors.{Result, ok, raise, json_decode, ◌>>=◌}
use codearts_bridge.Core.Models.{
  Task, Worker, Assignment, Registry, WorkersRegistry, enabled_workers,
}
use codearts_bridge.Core.Models.TaskCodec.{task_from_dict}
use codearts_bridge.Legacy.{Update, no_update, candidate_statuses, get_state, set_state}
use codearts_bridge.Scheduler.Matcher.{given}
use codearts_bridge.Scheduler.Dependency.{States}
use codearts_bridge.Scheduler.Clock.{Clock}
use codearts_bridge.Scheduler.Lease.{Leases, release_lease}
use codearts_bridge.Scheduler.Planner.{ExecutionPlan, Skipped, select_plan}

-- A META.json from which no task can be made is passed over. So is here one with a field of another
-- type than its annotation, or with negative minutes, which Python keeps unchecked.
unfoldable pub with_task : Option Task → Result (List Task) → Result (List Task)
with_task none rest = rest
with_task (some task) rest = rest >>= λ tasks. ok (task ∷ tasks)

unfoldable pub with_meta : File Members → Result (List Task) → Result (List Task)
with_meta missing rest = rest
with_meta broken rest = raise json_decode
with_meta (content meta) rest = with_task (task_from_dict meta) rest

unfoldable pub scan_entries : List TaskEntry → Result (List Task)
scan_entries [] = ok []
scan_entries (entry ∷ entries) =
    let rest = scan_entries entries in
    if not entry.is_dir || entry.delete_requested
    then rest
    else get_state entry.state >>= λ state.
        if in_states (status_of state) candidate_statuses then with_meta entry.meta rest else rest

-- `none` where tasks/ does not exist.
unfoldable pub scan_candidate_tasks : Option (List TaskEntry) → Result (List Task)
scan_candidate_tasks none = ok []
scan_candidate_tasks (some entries) = scan_entries (sort by_entry_name entries)

-- The texts of `errors`.
pub data Failure : Type 0 where
  not_found : (file : String) → Failure
  no_enabled_workers : Failure
  no_longer_candidate : (task_id : String) (status : Value) → Failure
  spawn_failed : (task_id exception : String) → Failure

pub record Dispatched : Type 0 where
  pub task_id : String
  pub worker_id : String
  pub role : String

pub record AutoDispatchResult : Type 0 where
  pub planned : ℕ
  pub dispatched : ℕ
  pub skipped : ℕ
  pub errors : List Failure
  pub assignments : List Dispatched
  pub skipped_details : List Skipped
  pub dry_run : Bool

abbrev pub no_result : Bool → AutoDispatchResult
no_result dry_run = record {
  planned = 0;
  dispatched = 0;
  skipped = 0;
  errors = [];
  assignments = [];
  skipped_details = [];
  dry_run = dry_run;
}

-- What the dispatch changes: the state files, the saved assignments and the leases.
pub record World : Type 0 where
  pub tasks : States
  pub saved : List (String × Assignment)
  pub leases : Leases

abbrev pub with_state : String → Doc → World → World
with_state task_id d w = record w { tasks = write_state task_id d w.tasks }

unfoldable pub save_assignment : Assignment → World → World
save_assignment a w = record w { saved = (a.assignment_id, a) ∷ w.saved }

-- `if assignment.lease_id: release_lease(...)`
unfoldable pub release_leases : Option String → Leases → Leases
release_leases none leases = leases
release_leases (some lease_id) leases =
    if lease_id == "" then leases else (release_lease lease_id leases).1

abbrev pub released : Assignment → World → World
released a w = record w { leases = release_leases a.lease_id w.leases }

abbrev pub entry_of : Assignment → Dispatched
entry_of a = record { task_id = a.task_id; worker_id = a.worker_id; role = a.role }

abbrev pub with_entry : Assignment → AutoDispatchResult → AutoDispatchResult
with_entry a r = record r { assignments = r.assignments ++ entry_of a ∷ [] }

abbrev pub with_error : Failure → AutoDispatchResult → AutoDispatchResult
with_error e r = record r { errors = r.errors ++ e ∷ [] }

abbrev pub queued_update : Assignment → Update
queued_update a = record no_update {
  message = str (joined "auto-dispatched to " a.worker_id);
  assigned_worker_id = str a.worker_id;
}

abbrev pub failed_update : String → Update
failed_update e = record no_update {
  message = str (joined "spawn failed: " e);
  assigned_worker_id = str "";
}

unfoldable pub preview : List Assignment → AutoDispatchResult → World → AutoDispatchResult × World
preview [] r w = (r, w)
preview (a ∷ plan) r w = preview plan (with_entry a r) (released a w)

-- An exception ends the loop; what was written stays.
abbrev pub next :
    Result AutoDispatchResult × World
    → (AutoDispatchResult → World → Result AutoDispatchResult × World)
    → Result AutoDispatchResult × World
next (ok r, w) f = f r w
next (raise e, w) f = (raise e, w)

-- `spawn a` is the text of the exception that starting the process of `a` raises, if it does; the
-- states of round `i` are written at the times `queued_at i` and `reverted_at i`.
module _ (spawn : Assignment → Option String) (queued_at reverted_at : ℕ → String) where
  unfoldable pub after_revert :
      Assignment
      → String
      → AutoDispatchResult
      → World
      → Result Doc
      → Result AutoDispatchResult × World
  after_revert a e r w (raise error) = (raise error, w)
  after_revert a e r w (ok d) =
      (ok (with_error (spawn_failed a.task_id e) r), released a (with_state a.task_id d w))

  unfoldable pub after_spawn :
      ℕ
      → Assignment
      → AutoDispatchResult
      → World
      → Option String
      → Result AutoDispatchResult × World
  after_spawn i a r w none = (ok (with_entry a (record r { dispatched = suc r.dispatched })), w)
  after_spawn i a r w (some e) =
      after_revert a e r w (
        set_state a.task_id (reverted_at i) (state_json a.task_id w.tasks) "READY"
          (failed_update e))

  unfoldable pub after_queue :
      ℕ → Assignment → AutoDispatchResult → World → Result Doc → Result AutoDispatchResult × World
  after_queue i a r w (raise error) = (raise error, w)
  after_queue i a r w (ok d) = after_spawn i a r (with_state a.task_id d w) (spawn a)

  unfoldable pub enqueue :
      ℕ → Assignment → AutoDispatchResult → World → Result AutoDispatchResult × World
  enqueue i a r w =
      after_queue i a r w (
        set_state a.task_id (queued_at i) (state_json a.task_id w.tasks) "QUEUED" (queued_update a))

  -- Race protection, by the state that is read at the time of the dispatch.
  unfoldable pub if_candidate :
      ℕ → Assignment → AutoDispatchResult → World → Result Doc → Result AutoDispatchResult × World
  if_candidate i a r w (raise error) = (raise error, w)
  if_candidate i a r w (ok current) =
      if in_states (status_of current) candidate_statuses
      then enqueue i a r (save_assignment a w)
      else (
        ok (
            with_error (no_longer_candidate a.task_id (status_of current))
              (record r { skipped = suc r.skipped })),
        released a w,
      )

  unfoldable pub dispatch_one :
      ℕ → Assignment → AutoDispatchResult → World → Result AutoDispatchResult × World
  dispatch_one i a r w = if_candidate i a r w (get_state (state_json a.task_id w.tasks))

  unfoldable pub dispatch_all :
      ℕ → List Assignment → AutoDispatchResult → World → Result AutoDispatchResult × World
  dispatch_all i [] r w = (ok r, w)
  dispatch_all i (a ∷ plan) r w = next (dispatch_one i a r w) (dispatch_all (suc i) plan)

  abbrev pub plan_counts : Bool → ExecutionPlan → AutoDispatchResult
  plan_counts dry_run plan = record (no_result dry_run) {
    planned = length plan.assignments;
    skipped = length plan.skipped;
    skipped_details = plan.skipped;
  }

  unfoldable pub after_plan :
      Bool → World → Result ExecutionPlan × Leases → Result AutoDispatchResult × World
  after_plan dry_run w (raise error, leases) = (raise error, record w { leases = leases })
  after_plan true w (ok plan, leases) =
      let (r, w') =
        preview plan.assignments (plan_counts true plan) (record w { leases = leases }) in
      (ok r, w')
  after_plan false w (ok plan, leases) =
      dispatch_all 0 plan.assignments (plan_counts false plan) (record w { leases = leases })

  module _ (clock : Clock) (now : ℕ → ℕ) (assignment_id lease_id : ℕ → String) where
    unfoldable pub with_workers :
        Bool
        → ℕ
        → List Assignment
        → List Task
        → Registry
        → List Worker
        → World
        → Result AutoDispatchResult × World
    with_workers dry_run max_workers existing tasks registry [] w =
        (ok (with_error no_enabled_workers (no_result dry_run)), w)
    with_workers dry_run max_workers existing tasks registry (v ∷ workers) w =
        after_plan dry_run w (
          select_plan (v ∷ workers) existing (some registry) w.tasks clock now assignment_id
            lease_id tasks w.leases max_workers)

    -- The rest of the function by what was read; `none` is a file that is missing.
    unfoldable pub auto_dispatch :
        Bool
        → ℕ
        → List Assignment
        → Option Registry
        → Option WorkersRegistry
        → Result (List Task)
        → World
        → Result AutoDispatchResult × World
    auto_dispatch dry_run max_workers existing registry workers (raise error) w = (raise error, w)
    auto_dispatch dry_run max_workers existing registry workers (ok []) w =
        (ok (no_result dry_run), w)
    auto_dispatch dry_run max_workers existing none workers (ok (t ∷ ts)) w =
        (ok (with_error (not_found "projects.json") (no_result dry_run)), w)
    auto_dispatch dry_run max_workers existing (some registry) none (ok (t ∷ ts)) w =
        (ok (with_error (not_found "workers.json") (no_result dry_run)), w)
    auto_dispatch dry_run max_workers existing (some registry) (some workers) (ok (t ∷ ts)) w =
        with_workers dry_run max_workers existing (t ∷ ts) registry (enabled_workers workers) w
