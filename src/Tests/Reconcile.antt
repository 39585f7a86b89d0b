-- ===== src/Tests/Reconcile.antt =====
-- Two assignments of src/bridge/scheduler/planner.py: one has its lease, the other has lost it.
use codearts_bridge.Prelude.{
  ℕ, ◌≡◌, refl, String, none, some, List, [], ◌∷◌, ◌==◌, mem, All, inr, if◌then◌else◌,
}
use codearts_bridge.Core.Value.{
  Doc, content, str, get, get_or, find, put, truthy, is_text, in_states,
}
use codearts_bridge.Core.Errors.{ok}
use codearts_bridge.Core.State.{get_state, normalize, read_or_empty}
use codearts_bridge.Core.Models.{Lease}
use codearts_bridge.Scheduler.Lease.{
  Leases, lease_file, is_expired, is_late, release_lease, unlink, exists,
}
use codearts_bridge.Scheduler.Finish.{
  Files, Holds, Closed, is_empty, closed, release_of, finish_assignment, passes_over, finish_file,
  finish_files, finished_or_now, finish_assignment-Closed,
}
use codearts_bridge.Scheduler.Reconcile.{
  Folder, Folders, set_folder, state_file, state_of, task_state, has_deliverables, repair_state,
  repair_message, repaired, repair_found, repair, live_file, lease_lives, close_file, settle_open,
  settle_file, read_file, visit, reconcile_files, reconcile_assignments,
}
use codearts_bridge.Scheduler.Reconcile.Live.{Settled, reconcile_assignments-Settled}
use codearts_bridge.Scheduler.Reconcile.Repair.{IsRepaired}
use codearts_bridge.Scheduler.Reconcile.Repaired.{reconcile_assignments-IsRepaired}
use codearts_bridge.Tests.Samples.{marked_clock, marked_clock-written}

abbrev now : ℕ → ℕ
now i = 8

abbrev lease : String → ℕ → Lease
lease id expires = record {
  lease_id = id;
  task_id = "t";
  worker_id = "w";
  expires_at = marked_clock.isoformat expires;
  heartbeat_at = marked_clock.isoformat 1;
  created_at = marked_clock.isoformat 1;
}

abbrev assignment : String → String → Doc
assignment task_id lease_id = ("taskId", str task_id) ∷ ("leaseId", str lease_id) ∷ []

abbrev files : Files
files = ("1", content (assignment "a" "l1")) ∷ ("2", content (assignment "b" "l2")) ∷ []

abbrev leases : Leases
leases = ("l1", content (lease "l1" 20)) ∷ ("l2", content (lease "l2" 4)) ∷ []

abbrev folder : List String → Folder
folder outbox = record { state = content (("state", str "RUNNING") ∷ []); outbox = outbox }

abbrev tasks : Folders
tasks id =
    if id == "a"
    then some (folder [])
    else if id == "b"
    then some (folder ("RESULT.md" ∷ "TESTS.md" ∷ []))
    else none

program : Unit {0}
unfolding is_empty closed release_of finish_assignment passes_over finish_file finish_files
    finished_or_now set_folder state_file state_of task_state has_deliverables repair_state
    repair_message repaired repair_found repair live_file lease_lives close_file settle_open
    settle_file read_file visit reconcile_files reconcile_assignments get_state normalize
    read_or_empty get get_or find put truthy is_text in_states lease_file is_expired is_late
    release_lease unlink exists marked_clock mem
program = tt

reconcile_count : (reconcile_assignments marked_clock now files leases tasks).count ≡ ok 1
unfolding program
reconcile_count = refl

-- The lease that is late is gone, the other is there.
reconcile_leases :
    (reconcile_assignments marked_clock now files leases tasks).leases
    ≡ ("l1", content (lease "l1" 20)) ∷ []
unfolding program
reconcile_leases = refl

reconcile_assignments-Settled_example :
    All
      (Holds (Settled marked_clock now marked_clock-written leases))
      (reconcile_assignments marked_clock now files leases tasks).files
reconcile_assignments-Settled_example =
    reconcile_assignments-Settled marked_clock now marked_clock-written files leases tasks 1
      reconcile_count

finish_count : (finish_assignment files leases "b" none "now").count ≡ ok 1
unfolding program
finish_count = refl

finish_assignment-Closed_example :
    All (Holds (Closed "b")) (finish_assignment files leases "b" none "now").files
finish_assignment-Closed_example =
    finish_assignment-Closed files leases "b" none "now" 1 refl finish_count

reconcile_assignments-IsRepaired_example :
    IsRepaired
      (folder ("RESULT.md" ∷ "TESTS.md" ∷ []))
      ((reconcile_assignments marked_clock now files leases tasks).tasks "b")
unfolding program
reconcile_assignments-IsRepaired_example =
    reconcile_assignments-IsRepaired marked_clock now (assignment "b" "l2")
      (folder ("RESULT.md" ∷ "TESTS.md" ∷ [])) (("1", content (assignment "a" "l1")) ∷ []) [] "2"
      leases tasks 1 refl refl (inr (inr (lease "l2" 4, refl, λ i. refl))) refl refl reconcile_count
