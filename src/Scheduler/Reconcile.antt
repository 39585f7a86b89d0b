-- ===== src/Scheduler/Reconcile.antt =====
-- `reconcile_assignments` of src/bridge/scheduler/planner.py: closing the assignments that a crash
-- or a restart left behind, and repairing the state of their tasks.
pub mod Live
pub mod Repair
pub mod Visits
pub mod Repaired
use codearts_bridge.Prelude.{
  ℕ, suc, String, Bool, true, false, not, ◌&&◌, ◌||◌, Option, none, some, List, [], ◌∷◌, ◌==◌, mem,
  if◌then◌else◌,
}
use codearts_bridge.Core.Value.{
  Value, str, Doc, File, missing, broken, content, get, get_or, put, truthy, is_text, in_states,
}
use codearts_bridge.Core.Errors.{Result, ok, raise, json_decode, ◌>>=◌}
use codearts_bridge.Core.State.{get_state, read_or_empty, text_of}
use codearts_bridge.Scheduler.Clock.{Clock}
use codearts_bridge.Scheduler.Lease.{Leases, lease_file, is_expired}
use codearts_bridge.Core.Models.{Lease}
use codearts_bridge.Scheduler.Finish.{Files, is_empty, closed, release_of}

-- The directory of a task: its state.json and the names of the files in its outbox.
pub record Folder : Type 0 where
  pub state : File Doc
  pub outbox : List String

-- The directories of the tasks by name; `none` where there is none.
abbrev pub Folders : Type 0
Folders = String → Option Folder

unfoldable pub set_folder : String → Folder → Folders → Folders
set_folder name folder tasks j = if name == j then some folder else tasks j

pub record Outcome : Type 0 where
  pub count : Result ℕ
  pub files : Files
  pub leases : Leases
  pub tasks : Folders

abbrev with_file : String → File Doc → Outcome → Outcome
with_file name file o = record o { files = (name, file) ∷ o.files }

abbrev counted : Outcome → Outcome
counted o = record o { count = o.count >>= λ n. ok (suc n) }

abbrev pub worker_active_states : List String
worker_active_states = "QUEUED" ∷ "STARTING" ∷ "RUNNING" ∷ []

-- A directory that is missing reads like one without a state.json.
unfoldable pub state_file : Option Folder → File Doc
state_file none = missing
state_file (some folder) = folder.state

-- `get_state(task_dir).get("state", "")`
unfoldable pub state_of : File Doc → Result Value
state_of file = get_state file >>= λ s. ok (get_or "state" (str "") s)

abbrev pub task_of : Doc → String
task_of d = text_of (get_or "taskId" (str "") d)

unfoldable pub task_state : Folders → Doc → Result Value
task_state tasks d =
    if truthy (get_or "taskId" (str "") d)
    then state_of (state_file (tasks (task_of d)))
    else ok (str "")

unfoldable pub has_deliverables : List String → Bool
has_deliverables outbox = mem "RESULT.md" outbox && mem "TESTS.md" outbox

unfoldable pub repair_state : List String → String
repair_state outbox = if has_deliverables outbox then "REVIEW_REQUIRED" else "FAILED"

unfoldable pub repair_message : List String → String
repair_message outbox =
    if has_deliverables outbox
    then "auto-repaired: RUNNING with expired lease, outbox has deliverables"
    else "auto-repaired: RUNNING with expired lease, no deliverables"

unfoldable pub repaired : String → List String → Doc → Doc
repaired now_iso outbox current = put "updatedAt" (str now_iso) (
    put "message" (str (repair_message outbox))
      (put "state" (str (repair_state outbox)) (put "status" (str (repair_state outbox)) current)))

unfoldable pub repair_found : String → String → Option Folder → Folders → Result Folders
repair_found now_iso task_id none tasks = ok tasks
repair_found now_iso task_id (some folder) tasks = read_or_empty folder.state >>= λ current. ok (
    set_folder task_id (record folder { state = content (repaired now_iso folder.outbox current) })
      tasks)

-- `if task_state == "RUNNING" and task_dir and task_dir.is_dir():`
unfoldable pub repair : String → Value → String → Folders → Result Folders
repair now_iso state task_id tasks =
    if is_text state "RUNNING" then repair_found now_iso task_id (tasks task_id) tasks else ok tasks

module _ (clock : Clock) (now : ℕ → ℕ) where
  unfoldable pub live_file : ℕ → File Lease → Result Bool
  live_file i missing = ok false
  live_file i broken = raise json_decode
  live_file i (content lease) = ok (not (is_expired clock (now i) lease))

  -- Not (`not lease_data or lease_expired`), at the time of the visit `i`.
  unfoldable pub lease_lives : ℕ → Leases → Doc → Result Bool
  lease_lives i leases d =
      if truthy (get "leaseId" d)
      then live_file i (lease_file (text_of (get "leaseId" d)) leases)
      else ok false

  -- After the assignment is closed and its lease released: how the repair went.
  unfoldable pub close_file :
      ℕ → String → Doc → Leases → Folders → Files → (Folders → Outcome) → Result Folders → Outcome
  close_file i name d leases tasks dir rest (raise e) = record {
    count = raise e;
    files = (name, content (closed (clock.isoformat (now i)) d)) ∷ dir;
    leases = leases;
    tasks = tasks;
  }
  close_file i name d leases tasks dir rest (ok tasks') =
      counted (with_file name (content (closed (clock.isoformat (now i)) d)) (rest tasks'))

  -- The assignment stays open if its task is active and its lease lives.
  unfoldable pub settle_open :
      ℕ
      → String
      → Doc
      → Leases
      → Folders
      → Files
      → (Leases → Folders → Outcome)
      → Value
      → Bool
      → Outcome
  settle_open i name d leases tasks dir rest state true =
      with_file name (content d) (rest leases tasks)
  settle_open i name d leases tasks dir rest state false =
      close_file i name d (release_of d leases) tasks dir (rest (release_of d leases))
        (repair (clock.isoformat (now i)) state (task_of d) tasks)

  -- The rest of the body, by what was read: the state of the task and whether the lease lives.
  unfoldable pub settle_file :
      ℕ
      → String
      → Doc
      → Leases
      → Folders
      → Files
      → (Leases → Folders → Outcome)
      → Result (Value × Bool)
      → Outcome
  settle_file i name d leases tasks dir rest (raise e) = record {
    count = raise e;
    files = (name, content d) ∷ dir;
    leases = leases;
    tasks = tasks;
  }
  settle_file i name d leases tasks dir rest (ok (state, lives)) =
      settle_open i name d leases tasks dir rest state
        (in_states state worker_active_states && lives)

  unfoldable pub read_file : ℕ → Leases → Folders → Doc → Result (Value × Bool)
  read_file i leases tasks d =
      task_state tasks d >>= λ state. lease_lives i leases d >>= λ lives. ok (state, lives)

  unfoldable pub visit :
      ℕ → String → Doc → Leases → Folders → Files → (Leases → Folders → Outcome) → Bool → Outcome
  visit i name d leases tasks dir rest true = with_file name (content d) (rest leases tasks)
  visit i name d leases tasks dir rest false =
      settle_file i name d leases tasks dir rest (read_file i leases tasks d)

  unfoldable pub reconcile_files : ℕ → Files → Leases → Folders → Outcome
  reconcile_files i [] leases tasks = record {
    count = ok 0;
    files = [];
    leases = leases;
    tasks = tasks;
  }
  reconcile_files i ((name, missing) ∷ dir) leases tasks =
      with_file name missing (reconcile_files (suc i) dir leases tasks)
  reconcile_files i ((name, broken) ∷ dir) leases tasks = record {
    count = raise json_decode;
    files = (name, broken) ∷ dir;
    leases = leases;
    tasks = tasks;
  }
  reconcile_files i ((name, content d) ∷ dir) leases tasks =
      visit i name d leases tasks dir (reconcile_files (suc i) dir)
        (is_empty d || truthy (get "finishedAt" d))

  unfoldable pub reconcile_assignments : Files → Leases → Folders → Outcome
  reconcile_assignments dir leases tasks = reconcile_files 0 dir leases tasks
