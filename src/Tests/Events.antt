-- ===== src/Tests/Events.antt =====
-- The log of src/bridge/core/events.py on a few events, and what becomes of its numbers.
use codearts_bridge.Prelude.{
  ◌≡◌, ◌≢◌, refl, inl, inr, true, some, List, [], ◌∷◌, length, arith, mem,
}
use codearts_bridge.Prelude.Sort.{sort, insert}
use codearts_bridge.Core.Value.{
  pos, null, str, int, truthy, get, get_or, find, put, put_if, is_null, is_text,
}
use codearts_bridge.Core.State.{is_valid_transition, targets}
use codearts_bridge.Events.{
  Line, blank, broken, object, int_of, exceeds, magnitude, max_seq, read_max_seq, EventStore,
  Limits, open_store, lines_of, numbered, write, by_name, without, drop_oldest, rotate_lines,
  rotate_log, rotate_if_needed, append, after_seq, recent_after, newest, recent,
}
use codearts_bridge.Events.Codec.{Event, from_dict, to_dict, empty_object, from_dict-to_dict}
use codearts_bridge.Events.Sequence.{Numbered, appends, appends-Numbered}
use codearts_bridge.Events.Cursor.{recent_after-append}
use codearts_bridge.Events.Rotation.{Rotated, rotate_if_needed-Rotated, recent_after-reopened}
use codearts_bridge.StateEvents.{map_event_type}
use codearts_bridge.StateEvents.Announced.{map_event_type-ne-review_required}

abbrev event : Event
event = record {
  event_id = str "e";
  type = str "task.done";
  timestamp = str "now";
  task_id = str "t";
  assignment_id = null;
  worker_id = null;
  payload = empty_object;
  seq = null;
}

program : Unit {0}
unfolding int_of exceeds magnitude max_seq read_max_seq open_store lines_of numbered write by_name
    without drop_oldest rotate_lines rotate_log rotate_if_needed append after_seq recent_after
    newest recent from_dict to_dict put_if is_null put find get get_or truthy sort insert
    map_event_type is_text mem is_valid_transition targets
program = tt

from_dict-to_dict_example : from_dict "later" (to_dict event) ≡ event
from_dict-to_dict_example =
    from_dict-to_dict "later" event (inr (unfold truthy in refl)) (inl refl) (inl refl)

-- The number of lines stands for the size: three lines are too many.
abbrev limits : Limits
limits = record { max_size_bytes = 3; keep_files = 2 }

abbrev lines : List Line
lines = object (("seq", int (pos 7)) ∷ []) ∷ broken ∷ []

abbrev store : EventStore
store = record { log = some lines; rotated = []; next_seq = 8 }

opened : open_store (some lines) [] ≡ store
unfolding program
opened = refl

appends-Numbered_example :
    Numbered (appends length limits (("1", "x", event) ∷ []) (open_store (some lines) []))
appends-Numbered_example = appends-Numbered length limits (some lines) [] (("1", "x", event) ∷ [])

abbrev one : EventStore
one = record { log = some (object (("seq", int (pos 7)) ∷ []) ∷ []); rotated = []; next_seq = 8 }

recent_after-append_example :
    (recent_after 7 one ≡ [])
    × (recent_after 7 (append length limits "1" "x" event one)
        ≡ to_dict (numbered "x" 8 event) ∷ [])
recent_after-append_example =
    recent_after-append length limits "1" "x" event one 7 (unfold program in (omega arith, tt)) refl
      (unfold program in refl)

abbrev full : EventStore
full = record {
  log = some (object (("seq", int (pos 7)) ∷ []) ∷ blank ∷ broken ∷ []);
  rotated = ("20260101", []) ∷ ("20260102", []) ∷ [];
  next_seq = 8;
}

rotates : (rotate_if_needed length limits "20260103" full).0 ≡ true
unfolding program
rotates = refl

rotate_if_needed-Rotated_example :
    Rotated length limits (rotate_if_needed length limits "20260103" full).1
rotate_if_needed-Rotated_example = rotate_if_needed-Rotated length limits "20260103" full rotates

abbrev reopened : EventStore
reopened =
    open_store (rotate_if_needed length limits "20260103" full).1.log
      (rotate_if_needed length limits "20260103" full).1.rotated

recent_after-reopened_example :
    recent_after 7 (append length limits "20260103" "x" event reopened) ≡ []
recent_after-reopened_example =
    recent_after-reopened length limits "20260103" "20260103" "x" full event 7 rotates (omega arith)
      (unfold program in refl)

newest_two : length (recent "now" 1 store) ≡ 1
unfolding program
newest_two = refl

map_event_type-ne-review_required_example :
    map_event_type (str "VERIFYING") "REVIEW_REQUIRED" ≢ "review.required"
map_event_type-ne-review_required_example =
    map_event_type-ne-review_required "VERIFYING" "REVIEW_REQUIRED" (unfold program in refl)
