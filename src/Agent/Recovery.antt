-- ===== src/Agent/Recovery.antt =====
-- src/bridge/agent/recovery.py: after a restart of the agent every job that was running converges.
-- Whether the process lives and its exit code are parameters; an agent that has just started holds
-- no process, so `release` changes nothing here.
pub mod Settled
use codearts_bridge.Prelude.{
  ℕ, String, Bool, true, false, Option, none, some, List, [], ◌∷◌, if◌then◌else◌,
}
use codearts_bridge.Core.Value.{ℤ, negsuc, is_zero}
use codearts_bridge.Core.Errors.{Result, ok, raise, ◌>>=◌}
use codearts_bridge.Agent.{
  JobState, completed, assistance_required, value, job_state, is_job_terminal, JobInfo, LogEvent,
  JobDir, save_job, append_event, converged_to, plain,
}
use codearts_bridge.Agent.Watchdog.{terminate}

unfoldable pub reconciled_event : ℕ → JobDir → JobDir
reconciled_event now dir =
    append_event
      (record {
        time = now;
        type = "reconciled";
        text = converged_to dir.job.state;
        status = "converged";
      })
      dir

unfoldable pub orphan_event : ℕ → JobDir → JobDir
orphan_event now dir =
    append_event
      (record {
        time = now;
        type = "reconciled";
        text =
            plain
              "Agent restarted while CodeArts was still alive; terminated orphan because its output stream cannot be re-attached";
        status = "converged";
      })
      dir

-- The state of a job whose process is gone, by the exit code if there is one.
unfoldable pub gone_state : Option ℤ → JobState
gone_state none = assistance_required
gone_state (some n) = if is_zero n then completed else assistance_required

module _ (check_process : JobInfo → Bool) (get_exit_code : JobInfo → Option ℤ)
    (signalled : JobInfo → Bool) where
  unfoldable pub converge_alive : ℕ → JobDir → JobDir
  converge_alive now dir = orphan_event now (
      save_job
        (record dir.job {
          state = value assistance_required;
          exit_code = some (negsuc 0);
          last_event_at = now;
        })
        (terminate (signalled dir.job) now dir))

  unfoldable pub converge_gone : ℕ → JobDir → JobDir
  converge_gone now dir = reconciled_event now (
      save_job
        (record dir.job {
          state = value (gone_state (get_exit_code dir.job));
          exit_code = get_exit_code dir.job;
          last_event_at = now;
        })
        dir)

  unfoldable pub converge_job : ℕ → JobDir → JobDir
  converge_job now dir =
      if check_process dir.job then converge_alive now dir else converge_gone now dir

  -- By whether the state of the job is terminal.
  unfoldable pub visit_job :
      ℕ → JobDir → Result (List JobInfo) × List JobDir → Bool → Result (List JobInfo) × List JobDir
  visit_job now dir (jobs, dirs) true = (jobs, dir ∷ dirs)
  visit_job now dir (jobs, dirs) false =
      (jobs >>= λ js. ok ((converge_job now dir).job ∷ js), converge_job now dir ∷ dirs)

  unfoldable pub visit :
      ℕ
      → JobDir
      → List JobDir
      → Result (List JobInfo) × List JobDir
      → Result JobState
      → Result (List JobInfo) × List JobDir
  visit now dir dirs rest (raise e) = (raise e, dir ∷ dirs)
  visit now dir dirs rest (ok state) = visit_job now dir rest (is_job_terminal state)

  -- The jobs that were reconciled, and the directories of all. A state that is none of the enum
  -- ends the loop, with the directories behind it as they were.
  unfoldable pub reconcile : ℕ → List JobDir → Result (List JobInfo) × List JobDir
  reconcile now [] = (ok [], [])
  reconcile now (dir ∷ dirs) = visit now dir dirs (reconcile now dirs) (job_state dir.job.state)
