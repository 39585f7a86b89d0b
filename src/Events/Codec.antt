-- ===== src/Events/Codec.antt =====
-- The class `Event` of src/bridge/core/events.py. Python does not check its fields: each holds any
-- value, `None` as null.
use codearts_bridge.Prelude.{
  String, ◌≡◌, ◌⊎◌, refl, inl, inr, true, false, not, none, some, [], ◌∷◌, if◌then◌else◌,
}
use codearts_bridge.Core.Value.{
  Value, null, str, truthy, Doc, find, get, get_or, compound, or_default, put_if, is_null,
  find-put_if,
}

pub record Event : Type 0 where
  pub event_id : Value
  pub type : Value
  pub timestamp : Value
  pub task_id : Value
  pub assignment_id : Value
  pub worker_id : Value
  pub payload : Value
  pub seq : Value

-- `{}`
abbrev pub empty_object : Value
empty_object = compound false "{}"

unfoldable pub from_dict : (now_iso : String) → Doc → Event
from_dict now_iso d = record {
  event_id = get_or "eventId" (str "") d;
  type = get_or "type" (str "") d;
  timestamp = get_or "timestamp" (str now_iso) d;
  task_id = get "taskId" d;
  assignment_id = get "assignmentId" d;
  worker_id = get "workerId" d;
  payload = get_or "payload" empty_object d;
  seq = get "seq" d;
}

unfoldable pub to_dict : Event → Doc
to_dict e = put_if (not (is_null e.seq)) "seq" e.seq (
    put_if (truthy e.worker_id) "workerId" e.worker_id (
      put_if (truthy e.assignment_id) "assignmentId" e.assignment_id (
        put_if (truthy e.task_id) "taskId" e.task_id (
          ("eventId", e.event_id)
          ∷ ("type", e.type)
          ∷ ("timestamp", e.timestamp)
          ∷ ("payload", e.payload)
          ∷ []))))

-- None, or a value that `if` takes for true.
abbrev pub Optional : Value → Type 0
Optional v = (v ≡ null) ⊎ (truthy v ≡ true)

Optional-default :
    (v : Value) → Optional v → or_default null (if truthy v then some v else none) ≡ v
unfolding truthy
Optional-default v (inl e) = rw e refl
Optional-default v (inr e) = rw e refl

null_default : (v : Value) → or_default null (if not (is_null v) then some v else none) ≡ v
unfolding is_null
null_default null = refl
null_default (Value.bool b) = refl
null_default (Value.int n) = refl
null_default (str s) = refl
null_default (compound b s) = refl

-- An event whose task, assignment and worker are each None or a text that is not empty is read back
-- from its line as it was, at whatever time.
pub from_dict-to_dict :
    (now_iso : String) (e : Event)
    → Optional e.task_id
    → Optional e.assignment_id
    → Optional e.worker_id
    → from_dict now_iso (to_dict e) ≡ e
unfolding from_dict to_dict get get_or find
from_dict-to_dict now_iso e task assignment worker = simp (
  find-put_if,
  Optional-default e.task_id task,
  Optional-default e.assignment_id assignment,
  Optional-default e.worker_id worker,
  null_default e.seq,
)
