-- ===== src/Agent.antt =====
-- src/bridge/agent/models.py: jobs of the worker runtime, their states and their events. The
-- directory of a job is its state.json and the lines of its events.jsonl (agent/store.py).
-- Times are whole microseconds. Timeouts are natural numbers: one that is not positive is off.
pub mod Watchdog
pub mod Recovery
use codearts_bridge.Prelude.{
  ℕ, String, Bool, true, false, Option, none, some, List, [], ◌∷◌, ◌++◌, ◌==◌, ltb, if◌then◌else◌,
  ◌-◌,
}
use Prim.Native.Nat.{◌/◌}
use codearts_bridge.Core.Value.{ℤ}
use codearts_bridge.Core.Errors.{Result, ok, raise, value_error, ◌>>=◌}

pub data JobState : Type 0 where
  starting : JobState
  running : JobState
  soft_limit : JobState
  completed : JobState
  completed_with_timeout : JobState
  assistance_required : JobState
  timed_out : JobState
  cancelled : JobState

-- `.value`
abbrev pub value : JobState → String
value starting = "STARTING"
value running = "RUNNING"
value soft_limit = "SOFT_LIMIT"
value completed = "COMPLETED"
value completed_with_timeout = "COMPLETED_WITH_TIMEOUT"
value assistance_required = "ASSISTANCE_REQUIRED"
value timed_out = "TIMED_OUT"
value cancelled = "CANCELLED"

-- `JobState(text)`
unfoldable pub job_state : String → Result JobState
job_state text =
    if text == "STARTING"
    then ok starting
    else if text == "RUNNING"
    then ok running
    else if text == "SOFT_LIMIT"
    then ok soft_limit
    else if text == "COMPLETED"
    then ok completed
    else if text == "COMPLETED_WITH_TIMEOUT"
    then ok completed_with_timeout
    else if text == "ASSISTANCE_REQUIRED"
    then ok assistance_required
    else if text == "TIMED_OUT"
    then ok timed_out
    else if text == "CANCELLED"
    then ok cancelled
    else raise (value_error text)

abbrev pub is_job_terminal : JobState → Bool
is_job_terminal starting = false
is_job_terminal running = false
is_job_terminal soft_limit = false
is_job_terminal completed = true
is_job_terminal completed_with_timeout = true
is_job_terminal assistance_required = true
is_job_terminal timed_out = true
is_job_terminal cancelled = true

pub record JobInfo : Type 0 where
  pub job_id : String
  pub task_id : String
  pub state : String
  pub pid : Option ℕ
  pub started_at : ℕ
  pub last_event_at : ℕ
  pub elapsed_seconds : ℕ
  pub soft_limit_reached : Bool
  pub exit_code : Option ℤ
  pub attempt : ℕ
  pub project_root : String
  pub cli_path : String
  pub model : String
  pub mode : String
  pub soft_timeout_seconds : ℕ
  pub hard_timeout_seconds : ℕ
  pub session_id : Option String
  pub prompt : String

-- The text of an event, with the values that the code formats into it.
pub data EventText : Type 0 where
  soft_limit_reached_at : (seconds : ℕ) → EventText
  hard_timeout_at : (seconds : ℕ) (state : String) → EventText
  converged_to : (state : String) → EventText
  plain : String → EventText

pub record LogEvent : Type 0 where
  pub time : ℕ
  pub type : String
  pub text : EventText
  pub status : String

pub record JobDir : Type 0 where
  pub job : JobInfo
  pub events : List LogEvent

unfoldable pub save_job : JobInfo → JobDir → JobDir
save_job job dir = record dir { job = job }

unfoldable pub append_event : LogEvent → JobDir → JobDir
append_event event dir = record dir { events = dir.events ++ event ∷ [] }

-- `int(time.time() - job.startedAt) if job.startedAt > 0 else 0`
unfoldable pub elapsed : ℕ → JobInfo → ℕ
elapsed now job = if ltb 0 job.started_at then (now - job.started_at) / 1000000 else 0

unfoldable pub update_elapsed : ℕ → JobInfo → JobInfo
update_elapsed now job =
    if ltb 0 job.started_at
    then record job { elapsed_seconds = (now - job.started_at) / 1000000 }
    else job

unfoldable pub active_jobs : List JobDir → Result (List JobDir)
active_jobs [] = ok []
active_jobs (dir ∷ dirs) = job_state dir.job.state >>= λ state.
    active_jobs dirs >>= λ rest. ok (if is_job_terminal state then rest else dir ∷ rest)
