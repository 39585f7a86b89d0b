-- ===== src/StateEvents.antt =====
-- src/bridge/state_events.py: the type of the event that a change of state is announced by, and the
-- event itself. How an object stands inside another as a value is an argument.
pub mod Announced
use codearts_bridge.Prelude.{
  String, Bool, true, false, ◌&&◌, ◌||◌, Option, none, some, List, [], ◌∷◌, ◌==◌, mem,
  if◌then◌else◌,
}
use codearts_bridge.Core.Value.{ℤ, pos, Value, null, str, int, is_text, Doc, get_or}
use codearts_bridge.Events.{int_of}
use codearts_bridge.Events.Codec.{Event}

unfoldable pub map_event_type : Value → String → String
map_event_type old_state new_state =
    if is_text old_state "RUNNING" && new_state == "REVIEW_REQUIRED"
    then "review.required"
    else if is_text old_state "RUNNING" && new_state == "ASSISTANCE_REQUIRED"
    then "assistance.required"
    else if is_text old_state "RUNNING" && new_state == "FAILED"
    then "task.failed"
    else if is_text old_state "REVIEW_REQUIRED" && new_state == "APPROVED"
    then "review.completed"
    else if mem new_state ("FIX_REQUIRED" ∷ "READY" ∷ [])
    then "task.dispatchable"
    else if new_state == "DONE"
    then "task.done"
    else "task.state_changed"

-- `if not isinstance(revision, int): revision = 0`
unfoldable pub event_revision : Doc → ℤ
event_revision state = elim (int_of (get_or "revision" (int (pos 0)) state)) [
  | none ↦ pos 0
  | some n ↦ n
]

unfoldable pub state_event :
    (nested : Doc → Value) → (now_iso dir_name : String) → Value → String → Doc → Event
state_event nested now_iso dir_name old_state new_state state = record {
  event_id = str "";
  type = str (map_event_type old_state new_state);
  timestamp = str now_iso;
  task_id = get_or "taskId" (str dir_name) state;
  assignment_id = null;
  worker_id = null;
  payload = nested (
      ("oldState", old_state)
      ∷ ("newState", str new_state)
      ∷ ("revision", int (event_revision state))
      ∷ []);
  seq = null;
}
