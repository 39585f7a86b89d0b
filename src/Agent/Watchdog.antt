-- ===== src/Agent/Watchdog.antt =====
-- src/bridge/agent/watchdog.py: the soft and the hard timeout of a job. What it asks of the outside
-- is a parameter: whether the process group could be signalled, whether git reports a difference,
-- and the files in the outbox. The salvage copies are not modelled.
pub mod Deadline
use codearts_bridge.Prelude.{
  ℕ, suc, String, ◌≡◌, ◌≢◌, ◌≤◌, ◌<◌, refl, Bool, true, false, not, ◌&&◌, Option, none, some, List,
  [], ◌∷◌, ltb, leb, if◌then◌else◌, arith, Bool-cases,
}
use codearts_bridge.Core.Value.{ℤ, negsuc}
use codearts_bridge.Core.Errors.{Result, ok, raise, ◌>>=◌}
use codearts_bridge.Agent.{
  JobState, soft_limit, completed_with_timeout, assistance_required, timed_out, value, job_state,
  is_job_terminal, JobInfo, LogEvent, JobDir, save_job, append_event, elapsed,
  soft_limit_reached_at, hard_timeout_at, plain,
}

-- `any(outbox.iterdir())`, false where the outbox does not exist
unfoldable pub check_deliverables : Option (List String) → Bool
check_deliverables none = false
check_deliverables (some []) = false
check_deliverables (some (name ∷ names)) = true

-- The event that the runner appends where it could signal the process.
unfoldable pub terminate : Bool → ℕ → JobDir → JobDir
terminate signalled now dir =
    if signalled
    then append_event
        (record {
          time = now;
          type = "cancelled";
          text = plain "Process terminated";
          status = "cancelled";
        })
        dir
    else dir

unfoldable pub handle_soft_timeout : ℕ → JobDir → JobDir
handle_soft_timeout now dir =
    append_event
      (record {
        time = now;
        type = "soft_timeout";
        text = soft_limit_reached_at dir.job.soft_timeout_seconds;
        status = "soft_limit";
      })
      (save_job
        (record dir.job {
          soft_limit_reached = true;
          state = value soft_limit;
          last_event_at = now;
        })
        dir)

unfoldable pub hard_state : Bool → Bool → JobState
hard_state has_deliverables has_diff =
    if has_deliverables
    then completed_with_timeout
    else if has_diff
    then assistance_required
    else timed_out

unfoldable pub converge : JobState → ℕ → JobDir → JobDir
converge new_state now dir =
    append_event
      (record {
        time = now;
        type = "hard_timeout";
        text = hard_timeout_at dir.job.hard_timeout_seconds (value new_state);
        status = "timed_out";
      })
      (save_job
        (record dir.job {
          state = value new_state;
          last_event_at = now;
          exit_code = some (negsuc 0);
        })
        dir)

module _ (signalled : JobInfo → Bool) (outbox : JobInfo → Option (List String))
    (git_diff : JobInfo → Bool) where
  unfoldable pub handle_hard_timeout : ℕ → JobDir → Option JobState × JobDir
  handle_hard_timeout now dir =
      let new_state = hard_state (check_deliverables (outbox dir.job)) (git_diff dir.job) in
      (some new_state, converge new_state now (terminate (signalled dir.job) now dir))

  unfoldable pub due : ℕ → JobDir → Option JobState × JobDir
  due now dir =
      if leb dir.job.hard_timeout_seconds (elapsed now dir.job)
        && ltb 0 dir.job.hard_timeout_seconds
      then handle_hard_timeout now dir
      else if leb dir.job.soft_timeout_seconds (elapsed now dir.job)
          && not dir.job.soft_limit_reached
          && ltb 0 dir.job.soft_timeout_seconds
      then (some soft_limit, handle_soft_timeout now dir)
      else (none, dir)

  unfoldable pub check_timeouts : ℕ → JobDir → Result (Option JobState × JobDir)
  check_timeouts now dir = job_state dir.job.state >>= λ state.
      ok (if is_job_terminal state then (none, dir) else due now dir)
