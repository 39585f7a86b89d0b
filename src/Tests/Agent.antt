-- ===== src/Tests/Agent.antt =====
-- A job of src/bridge/agent that runs into its timeouts, and a restart of the agent.
use codearts_bridge.Prelude.{
  String, ◌≡◌, ◌≢◌, refl, Bool, true, false, Option, none, some, List, [], ◌∷◌, All, arith,
}
use codearts_bridge.Core.Value.{ℤ, is_zero}
use codearts_bridge.Core.Errors.{ok}
use codearts_bridge.Agent.{
  soft_limit, job_state, JobInfo, JobDir, save_job, append_event, elapsed, soft_limit_reached_at,
}
use codearts_bridge.Agent.Watchdog.{
  check_deliverables, terminate, handle_soft_timeout, hard_state, converge, handle_hard_timeout,
  due, check_timeouts,
}
use codearts_bridge.Agent.Watchdog.Deadline.{Ended, check_timeouts-Ended, soft_timeout_once}
use codearts_bridge.Agent.Recovery.{
  reconciled_event, orphan_event, gone_state, converge_alive, converge_gone, converge_job,
  visit_job, visit, reconcile,
}
use codearts_bridge.Agent.Recovery.Settled.{Settled, reconcile_once}

abbrev job : String → String → JobInfo
job id state = record {
  job_id = id;
  task_id = "t";
  state = state;
  pid = some 7;
  started_at = 1000000;
  last_event_at = 0;
  elapsed_seconds = 0;
  soft_limit_reached = false;
  exit_code = none;
  attempt = 1;
  project_root = "/p";
  cli_path = "codearts";
  model = "";
  mode = "auto";
  soft_timeout_seconds = 10;
  hard_timeout_seconds = 20;
  session_id = none;
  prompt = "";
}

abbrev dir : String → String → JobDir
dir id state = record { job = job id state; events = [] }

abbrev never : JobInfo → Bool
never j = false

abbrev no_outbox : JobInfo → Option (List String)
no_outbox j = none

abbrev no_code : JobInfo → Option ℤ
no_code j = none

program : Unit {0}
unfolding check_deliverables terminate handle_soft_timeout hard_state converge handle_hard_timeout
    due check_timeouts job_state save_job append_event elapsed reconciled_event orphan_event
    gone_state converge_alive converge_gone converge_job visit_job visit reconcile is_zero
program = tt

abbrev softened : JobDir
softened = record {
  job = record (job "j" "RUNNING") {
    state = "SOFT_LIMIT";
    soft_limit_reached = true;
    last_event_at = 12000000;
  };
  events =
      record {
        time = 12000000;
        type = "soft_timeout";
        text = soft_limit_reached_at 10;
        status = "soft_limit";
      }
      ∷ [];
}

soft_run :
    check_timeouts never no_outbox never 12000000 (dir "j" "RUNNING")
    ≡ ok (some soft_limit, softened)
unfolding program
soft_run = refl

soft_timeout_once_example :
    check_timeouts never no_outbox never 15000000 softened ≢ ok (some soft_limit, softened)
soft_timeout_once_example =
    soft_timeout_once never no_outbox never 12000000 15000000 (dir "j" "RUNNING") softened softened
      soft_run

check_timeouts-Ended_example : Ended never no_outbox never 21000000 softened
check_timeouts-Ended_example =
    check_timeouts-Ended never no_outbox never 21000000 softened soft_limit (unfold program in refl)
      refl (omega arith) (unfold program in omega arith)

abbrev jobs : List JobDir
jobs = dir "j" "RUNNING" ∷ dir "k" "COMPLETED" ∷ []

abbrev lost : JobInfo
lost = record (job "j" "RUNNING") { state = "ASSISTANCE_REQUIRED"; last_event_at = 5 }

reconcile_run : (reconcile never no_code never 5 jobs).0 ≡ ok (lost ∷ [])
unfolding program
reconcile_run = refl

reconcile_once_example :
    All Settled (reconcile never no_code never 5 jobs).1
    × (reconcile never no_code never 9 (reconcile never no_code never 5 jobs).1
        ≡ (ok [], (reconcile never no_code never 5 jobs).1))
reconcile_once_example = reconcile_once never no_code never 5 9 jobs (lost ∷ []) reconcile_run
