-- ===== src/Tests/Scheduler.antt =====
-- The scheduler of src/bridge/scheduler on two workers and four tasks.
use codearts_bridge.Prelude.{
  ℕ, ◌≤◌, ◌<◌, ◌+◌, String, ◌≡◌, ◌≢◌, ◌↔◌, refl, sym, ap, ◌⊎◌, true, Option, none, some, List, [],
  ◌∷◌, ◌++◌, ◌==◌, eq_iff, mem, keep, length, arith, All, Listed, inl, inr, if◌then◌else◌,
}
use codearts_bridge.Prelude.Sort.{sort}
use codearts_bridge.Core.Value.{pos, str, get, get_or, find, content, missing, leb_ℤ, in_states}
use codearts_bridge.Core.Errors.{ok}
use codearts_bridge.Core.Models.{
  Worker, Task, Assignment, Lease, supports_role, supports_all_skills, get_project,
}
use codearts_bridge.Scheduler.Matcher.{
  given, is_id, role_matches, skills_match, is_candidate, filter_candidates, distinct, score_worker,
  same_text, transport_matches_project, host_matches_project, project_matches,
  filter_project_candidates,
}
use codearts_bridge.Scheduler.Capacity.{
  is_none, get_active_assignments, has_capacity, filter_with_capacity, load, available_capacity,
  has_capacity_iff,
}
use codearts_bridge.Scheduler.Affinity.{
  parent_id, implementers, get_excluded_workers, apply_anti_affinity, apply_preferred,
  implementer_excluded,
}
use codearts_bridge.Scheduler.Dependency.{
  States, task_dir, get_task_state, no_value, is_blocking, dependency_done, all_done,
  is_dependency_ready, get_blocked_dependencies, AllSatisfied, is_dependency_ready_iff,
}
use codearts_bridge.Scheduler.Lease.{
  Leases, lease_file, write_lease, unlink, exists, is_late, release_lease, new_lease, create_lease,
  is_expired, get_active_lease,
}
use codearts_bridge.Scheduler.Lease.Laws.{get_active_lease-create_lease, lease_file-release_lease}
use codearts_bridge.Scheduler.Planner.{
  ExecutionPlan, dependencies_not_ready, active_lease, or_skip, explicit_stage, placed_stage,
  project_stage, by_score, ranked, first, by_priority, candidates_for, after_lease, decide, assign,
  dispatch, settle, round, rounds, select_plan,
}
use codearts_bridge.Scheduler.Planner.Bounds.{
  select_plan-le_max_workers, select_plan-accounts, select_plan-within_limit,
}
use codearts_bridge.Scheduler.Planner.Exclusive.{select_plan-Once, Once}
use codearts_bridge.Scheduler.Planner.Justified.{select_plan-Justified, AllJustified, Leased}
use codearts_bridge.Scheduler.Planner.Ranking.{first-ranked_best}
use codearts_bridge.Tests.Samples.{sample_clock, stamp, stamp-fresh}

abbrev worker : String → List String → ℕ → Worker
worker id skills limit = record {
  id = id;
  enabled = true;
  transport = "agent";
  host = none;
  cli_path = none;
  model = "default";
  concurrency_limit = limit;
  roles = "implement" ∷ "review" ∷ [];
  skills = skills;
  agent = record { type = "codearts"; model = "default" };
  workspace = record { supported = "existing" ∷ [] };
  capabilities = [];
}

abbrev task : String → String → List String → Option String → ℕ → Task
task id role deps preferred priority = record {
  task_id = id;
  project_id = "bridge";
  worker_id = none;
  title = "";
  role = role;
  required_skills = [];
  depends_on = deps;
  parent_task_id = some "t0";
  priority = pos priority;
  execution = record {
    preferred_worker = preferred;
    excluded_workers = [];
    workspace = "auto";
    target_minutes = 10;
    soft_timeout_minutes = 25;
    hard_timeout_minutes = 30;
  };
  review = record { required = true; independent_worker = true };
  schema_version = 2;
}

abbrev w1 : Worker
w1 = worker "w1" [] 2

abbrev w2 : Worker
w2 = worker "w2" ("python" ∷ []) 1

abbrev workers : List Worker
workers = w1 ∷ w2 ∷ []

abbrev t1 : Task
t1 = task "t1" "implement" [] (some "w2") 10

abbrev t2 : Task
t2 = task "t2" "review" [] none 90

abbrev t3 : Task
t3 = task "t3" "implement" ("t1" ∷ []) none 50

-- The same task is listed twice.
abbrev tasks : List Task
tasks = t1 ∷ t2 ∷ t3 ∷ t1 ∷ []

abbrev root : States
root = ("t1", content (("state", str "READY") ∷ [])) ∷ []

-- `w1` implemented the task that `t2` reviews, and is busy with another.
abbrev past : List Assignment
past =
    record {
      assignment_id = "a0";
      task_id = "t0";
      worker_id = "w1";
      role = "implement";
      attempt = 1;
      lease_id = none;
      created_at = "";
      started_at = none;
      finished_at = none;
    }
    ∷ []

abbrev now : ℕ → ℕ
now i = 1000

unfoldable pub program : Unit {0}
unfolding select_plan rounds round settle dispatch assign decide after_lease candidates_for
    by_priority first ranked by_score project_stage placed_stage explicit_stage or_skip sort
    sample_clock stamp create_lease new_lease get_active_lease is_expired is_late write_lease
    lease_file unlink exists release_lease get_blocked_dependencies is_dependency_ready all_done
    dependency_done is_blocking no_value get_task_state task_dir apply_preferred apply_anti_affinity
    get_excluded_workers implementers parent_id filter_with_capacity has_capacity
    get_active_assignments is_none filter_candidates is_candidate skills_match role_matches is_id
    given same_text distinct score_worker transport_matches_project host_matches_project
    project_matches filter_project_candidates supports_role supports_all_skills get_project leb_ℤ
    get get_or find mem keep in_states
program = tt

abbrev planned : ExecutionPlan
planned = record {
  assignments =
      record {
        assignment_id = "";
        task_id = "t2";
        worker_id = "w2";
        role = "review";
        attempt = 1;
        lease_id = some "";
        created_at = "0001011111";
        started_at = none;
        finished_at = none;
      }
      ∷ record {
        assignment_id = "01";
        task_id = "t1";
        worker_id = "w1";
        role = "implement";
        attempt = 1;
        lease_id = some "01";
        created_at = "0001011111";
        started_at = none;
        finished_at = none;
      }
      ∷ [];
  skipped =
      record { task_id = "t3"; reason = dependencies_not_ready ("t1" ∷ []) }
      ∷ record { task_id = "t1"; reason = active_lease "01" }
      ∷ [];
}

abbrev lease : String → String → String → Lease
lease id task_id worker_id = record {
  lease_id = id;
  task_id = task_id;
  worker_id = worker_id;
  expires_at = "0001011110101011100100101101011";
  heartbeat_at = "0001011111";
  created_at = "0001011111";
}

abbrev leased : Leases
leased = ("", content (lease "" "t2" "w2")) ∷ ("01", content (lease "01" "t1" "w1")) ∷ []

-- The review avoids its implementer, the first listing of `t1` takes the lease that stops the
-- second, and `t3` waits for `t1`.
select_plan_run :
    select_plan workers past none root sample_clock now stamp stamp tasks [] 4
    ≡ (ok planned, leased)
unfolding program
select_plan_run = refl

select_plan-le_max_workers_example : length planned.assignments ≤ 4
select_plan-le_max_workers_example =
    select_plan-le_max_workers workers past none root sample_clock now stamp stamp tasks [] 4
      planned leased select_plan_run

select_plan-accounts_example :
    (length planned.assignments + length planned.skipped ≤ 4)
    × ((4 ≤ length planned.assignments) ⊎ (length planned.assignments + length planned.skipped ≡ 4))
select_plan-accounts_example =
    select_plan-accounts workers past none root sample_clock now stamp stamp tasks [] 4 planned
      leased select_plan_run

same_limit :
    (w : Worker) → Listed workers w → w.id ≡ w1.id → w.concurrency_limit ≡ w1.concurrency_limit
same_limit w (inl e) same = ap (λ x. x.concurrency_limit) (sym e)
same_limit w (inr (inl e)) same = absurd (ground (arith, eq_iff "w2" "w1", ap (λ x. x.id) e))
same_limit w (inr (inr none_left)) same = elim none_left [ ]

select_plan-within_limit_example : load (past ++ planned.assignments) "w1" ≤ 2
select_plan-within_limit_example =
    select_plan-within_limit workers past none root sample_clock now stamp stamp tasks [] 4 planned
      leased w1 select_plan_run (unfold program in omega arith) same_limit

select_plan-Justified_example :
    AllJustified workers past none root sample_clock now stamp stamp tasks [] planned.assignments
    × All (Leased leased) planned.assignments
select_plan-Justified_example =
    select_plan-Justified workers past none root sample_clock now stamp stamp tasks [] 4 planned
      leased select_plan_run stamp-fresh

select_plan-Once_example : Once planned.assignments
select_plan-Once_example =
    select_plan-Once workers past none root sample_clock now stamp stamp tasks [] 4 planned leased
      select_plan_run (omega arith) stamp-fresh (omega arith)

implementer_excluded_example : mem "w1" (get_excluded_workers t2 past) ≡ true
implementer_excluded_example =
    implementer_excluded t2 past "w1" refl refl (inl (unfold program in refl, refl, refl))

first-ranked_best_example : All (λ v. score_worker v t1 ≤ score_worker w2 t1) workers
first-ranked_best_example = first-ranked_best t1 workers w2 (unfold program in refl)

is_dependency_ready_iff_example :
    ((is_dependency_ready ("t1" ∷ []) root none ≡ true) ↔ AllSatisfied ("t1" ∷ []) root)
    × ((get_blocked_dependencies ("t1" ∷ []) root ≡ []) ↔ AllSatisfied ("t1" ∷ []) root)
is_dependency_ready_iff_example = is_dependency_ready_iff ("t1" ∷ []) root

get_active_lease-create_lease_example :
    get_active_lease sample_clock 50 (create_lease sample_clock 5 "l" leased "t9" "w1" 1).1 "t9"
    ≢ ok none
get_active_lease-create_lease_example =
    get_active_lease-create_lease sample_clock 5 50 1 "l" "t9" "w1" leased (omega arith)

lease_file-release_lease_example :
    lease_file "01" (release_lease "" leased).1
    ≡ (if "" == "01" then missing else lease_file "01" leased)
lease_file-release_lease_example = lease_file-release_lease "" "01" leased

has_capacity_iff_example : (has_capacity w1 past ≡ true) ↔ (0 < available_capacity w1 past)
has_capacity_iff_example = has_capacity_iff w1 past
