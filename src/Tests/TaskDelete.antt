-- ===== src/Tests/TaskDelete.antt =====
-- Deletions of src/bridge/task_delete.py on three tasks.
use codearts_bridge.Prelude.{String, ◌≡◌, refl, Bool, true, false, [], ◌∷◌, mem}
use codearts_bridge.Core.Value.{in_states, str, get, get_or, find, put, truthy, is_text, content}
use codearts_bridge.Core.Errors.{ok}
use codearts_bridge.Core.State.{get_state, normalize, is_terminal}
use codearts_bridge.TaskDelete.{
  TaskDir, Root, find_task, active_for, or_else, has_active_assignment, is_value_terminal,
  is_dir_active, is_found_active, is_task_active, touch_marker, remove_task, remove_assignment,
  rmtree, remove_if, finalize_dir, finalize_found, finalize_task_delete_if_safe, deleted, pending,
  answer_of, finish_request, request_marked, request_found, request_task_delete, finalize_all,
  finalize_pending_deletes,
}
use codearts_bridge.TaskDelete.Idle.{IdleRemoved, finalize-IdleRemoved}
use codearts_bridge.TaskDelete.Laws.{finalize-keeps, request-inactive, request-active}

abbrev task : String → String → Bool → TaskDir
task name state marked = record {
  name = name;
  state = content (("state", str state) ∷ []);
  inflight = false;
  delete_requested = marked;
}

abbrev root : Root
root = record {
  tasks = task "a" "DONE" true ∷ task "b" "RUNNING" true ∷ task "c" "READY" false ∷ [];
  assignments = record { dir_name = "a"; assignment = content (("taskId", str "a") ∷ []) } ∷ [];
}

abbrev always : String → Bool
always name = true

abbrev without_a : Root
without_a = record {
  tasks = task "b" "RUNNING" true ∷ task "c" "READY" false ∷ [];
  assignments = [];
}

program : Unit {0}
unfolding find_task active_for or_else has_active_assignment in_states is_value_terminal
    is_dir_active is_found_active is_task_active touch_marker remove_task remove_assignment rmtree
    remove_if finalize_dir finalize_found finalize_task_delete_if_safe answer_of finish_request
    request_marked request_found request_task_delete finalize_all finalize_pending_deletes get_state
    normalize is_terminal get get_or find put truthy is_text mem
program = tt

finalize_a : finalize_task_delete_if_safe always always root "a" ≡ ok (true, without_a)
unfolding program
finalize_a = refl

-- The scan removes the finished task and leaves the running one for later.
finalize_pending_run : finalize_pending_deletes always always root ≡ (ok 1, without_a)
unfolding program
finalize_pending_run = refl

finalize-IdleRemoved_example : IdleRemoved always always root "a" without_a
finalize-IdleRemoved_example = finalize-IdleRemoved always always root "a" without_a finalize_a

finalize-keeps_example : find_task "b" without_a.tasks ≡ find_task "b" root.tasks
finalize-keeps_example = finalize-keeps always always root "a" "b" true without_a finalize_a refl

request-inactive_example :
    ((request_task_delete always always root "c").0 ≡ ok deleted)
    × ((request_task_delete always always root "c").1.tasks
        ≡ remove_task "c" (touch_marker "c" root.tasks))
request-inactive_example =
    request-inactive always always root "c" (task "c" "READY" false) (unfold program in refl)
      (unfold program in refl) refl

request-active_example :
    request_task_delete always always root "b"
    ≡ (ok pending, record root { tasks = touch_marker "b" root.tasks })
request-active_example =
    request-active always always root "b" (task "b" "RUNNING" true) (unfold program in refl)
      (unfold program in refl)
