-- ===== src/TaskDelete.antt =====
-- src/bridge/task_delete.py: the deletion of a task's record. The directory of the tasks is a list of
-- entries, and so is that of the assignments; whether the file system removes a directory is a
-- parameter.
pub mod Laws
pub mod Idle
use codearts_bridge.Prelude.{
  ℕ, suc, String, Bool, true, false, not, ◌&&◌, ◌||◌, Option, none, some, List, [], ◌∷◌, ◌==◌, mem,
  map, if◌then◌else◌,
}
use codearts_bridge.Core.Value.{
  in_states, Value, str, Doc, get, get_or, is_text, File, missing, broken, content,
}
use codearts_bridge.Core.Errors.{Result, ok, raise, json_decode, ◌>>=◌}
use codearts_bridge.Core.State.{get_state, is_terminal, starting, running, verifying, integrating}

-- tasks/<name>: state.json, inflight.json and the marker .delete-requested
pub record TaskDir : Type 0 where
  pub name : String
  pub state : File Doc
  pub inflight : Bool
  pub delete_requested : Bool

-- runtime/assignments/<name>/assignment.json
pub record AssignmentDir : Type 0 where
  pub dir_name : String
  pub assignment : File Doc

pub record Root : Type 0 where
  pub tasks : List TaskDir
  pub assignments : List AssignmentDir

abbrev pub active_execution_states : List String
active_execution_states = starting ∷ running ∷ verifying ∷ integrating ∷ []

unfoldable pub find_task : String → List TaskDir → Option TaskDir
find_task task_id [] = none
find_task task_id (t ∷ ts) = if t.name == task_id then some t else find_task task_id ts

-- One file: whether it is an active assignment of the task; an empty object is none.
unfoldable pub active_for : String → Doc → Bool
active_for task_id [] = false
active_for task_id ((k, v) ∷ d) =
    is_text (get "taskId" ((k, v) ∷ d)) task_id
    && is_text (get_or "status" (str "active") ((k, v) ∷ d)) "active"

-- The answer for one file, before the rest of the loop.
unfoldable pub or_else : String → File Doc → Result Bool → Result Bool
or_else task_id missing rest = rest
or_else task_id broken rest = raise json_decode
or_else task_id (content d) rest = if active_for task_id d then ok true else rest

unfoldable pub has_active_assignment : String → List AssignmentDir → Result Bool
has_active_assignment task_id [] = ok false
has_active_assignment task_id (a ∷ dirs) =
    or_else task_id a.assignment (has_active_assignment task_id dirs)

unfoldable pub is_value_terminal : Value → Bool
is_value_terminal (str s) = is_terminal s
is_value_terminal _ = false

-- `is_task_active` of a task whose directory is there.
unfoldable pub is_dir_active : TaskDir → List AssignmentDir → Result Bool
is_dir_active t assignments = get_state t.state >>= λ d.
    if in_states (get_or "state" (str "") d) active_execution_states
    then ok true
    else if is_value_terminal (get_or "state" (str "") d)
    then ok false
    else if t.inflight
    then ok true
    else has_active_assignment t.name assignments

unfoldable pub is_found_active : Option TaskDir → List AssignmentDir → Result Bool
is_found_active none assignments = ok false
is_found_active (some t) assignments = is_dir_active t assignments

unfoldable pub is_task_active : Root → String → Result Bool
is_task_active root task_id = is_found_active (find_task task_id root.tasks) root.assignments

-- `marker.touch()`
unfoldable pub touch_marker : String → List TaskDir → List TaskDir
touch_marker task_id [] = []
touch_marker task_id (t ∷ ts) =
    if t.name == task_id
    then record t { delete_requested = true } ∷ ts
    else t ∷ touch_marker task_id ts

unfoldable pub remove_task : String → List TaskDir → List TaskDir
remove_task task_id [] = []
remove_task task_id (t ∷ ts) = if t.name == task_id then ts else t ∷ remove_task task_id ts

unfoldable pub remove_assignment : String → List AssignmentDir → List AssignmentDir
remove_assignment task_id [] = []
remove_assignment task_id (a ∷ dirs) =
    if a.dir_name == task_id then dirs else a ∷ remove_assignment task_id dirs

-- `{"deleted": ..., "pending": ...}`, or the error.
pub data Answer : Type 0 where
  deleted : Answer
  pending : Answer
  not_found : Answer

-- `task_dir.exists()` after the removal was tried
unfoldable pub answer_of : Bool → Answer
answer_of true = deleted
answer_of false = pending

module _ (rmtree_task rmtree_assignment : String → Bool) where
  -- The removals: a failure of the first stops, a failure of the second is passed over.
  unfoldable pub rmtree : Root → String → Bool × Root
  rmtree root task_id = if not (rmtree_task task_id) then (false, root) else (
    true,
    record {
      tasks = remove_task task_id root.tasks;
      assignments =
          if rmtree_assignment task_id
          then remove_assignment task_id root.assignments
          else root.assignments;
    },
  )

  unfoldable pub remove_if : Root → String → Bool → Bool × Root
  remove_if root task_id true = (false, root)
  remove_if root task_id false = rmtree root task_id

  unfoldable pub finalize_dir : Root → String → TaskDir → Result (Bool × Root)
  finalize_dir root task_id t =
      if not t.delete_requested
      then ok (false, root)
      else is_dir_active t root.assignments >>= λ active. ok (remove_if root task_id active)

  unfoldable pub finalize_found : Root → String → Option TaskDir → Result (Bool × Root)
  finalize_found root task_id none = ok (false, root)
  finalize_found root task_id (some t) = finalize_dir root task_id t

  unfoldable pub finalize_task_delete_if_safe : Root → String → Result (Bool × Root)
  finalize_task_delete_if_safe root task_id =
      finalize_found root task_id (find_task task_id root.tasks)

  -- The marker stays, whatever happens after it was written.
  unfoldable pub finish_request : Root → Result (Bool × Root) → Result Answer × Root
  finish_request marked (raise e) = (raise e, marked)
  finish_request marked (ok (removed, root)) = (ok (answer_of removed), root)

  unfoldable pub request_marked : Root → String → Result Bool → Result Answer × Root
  request_marked marked task_id (raise e) = (raise e, marked)
  request_marked marked task_id (ok true) = (ok pending, marked)
  request_marked marked task_id (ok false) =
      finish_request marked (finalize_task_delete_if_safe marked task_id)

  unfoldable pub request_found : Root → String → Option TaskDir → Result Answer × Root
  request_found root task_id none = (ok not_found, root)
  request_found root task_id (some t) =
      let marked = record root { tasks = touch_marker task_id root.tasks } in
      request_marked marked task_id (is_task_active marked task_id)

  unfoldable pub request_task_delete : Root → String → Result Answer × Root
  request_task_delete root task_id = request_found root task_id (find_task task_id root.tasks)

  -- The scan, over the names that were listed at its start: the count and what is left.
  unfoldable pub finalize_all : List String → ℕ → Root → Result ℕ × Root
  finalize_all [] count root = (ok count, root)
  finalize_all (task_id ∷ names) count root =
      let continue = finalize_all names in
      elim (finalize_task_delete_if_safe root task_id) [
        | raise e ↦ (raise e, root)
        | ok (removed, root') ↦ continue (if removed then suc count else count) root'
      ]

  unfoldable pub finalize_pending_deletes : Root → Result ℕ × Root
  finalize_pending_deletes root = finalize_all (map (λ t. t.name) root.tasks) 0 root
