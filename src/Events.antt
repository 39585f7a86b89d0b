-- ===== src/Events.antt =====
-- src/bridge/core/events.py: the log of events, one JSON object on each line of events.jsonl, and
-- its rotation. A line that parses to something other than an object is not modelled: nothing writes
-- one. The size of a file in bytes, the clock and the generated ids are arguments.
pub mod Codec
pub mod Sequence
pub mod Cursor
pub mod Rotation
use Prim.Native.String.{compare}
use Prim.Native.Nat.{Ordering}
use mathlib.Core.List.{reverse}
use codearts_bridge.Prelude.{
  ℕ, suc, ◌+◌, ◌*◌, String, Bool, true, false, not, Option, none, some, List, [], ◌∷◌, ◌++◌, ltb,
  leb, length, ◌==◌, if◌then◌else◌,
}
use codearts_bridge.Prelude.Sort.{sort}
use codearts_bridge.Core.Value.{ℤ, pos, negsuc, Value, str, bool, int, truthy, Doc, get}
use codearts_bridge.Events.Codec.{Event, from_dict, to_dict}

pub data Line : Type 0 where
  blank : Line
  broken : Line
  object : Doc → Line

-- `events.jsonl`, where it exists
abbrev pub Log : Type 0
Log = Option (List Line)

-- `seq if isinstance(seq, int)`: Python's booleans are integers.
unfoldable pub int_of : Value → Option ℤ
int_of (int n) = some n
int_of (bool b) = some (pos (if b then 1 else 0))
int_of _ = none

-- `isinstance(seq, int) and seq > bound`
unfoldable pub exceeds : ℕ → Option ℤ → Bool
exceeds bound (some (pos n)) = ltb bound n
exceeds bound _ = false

unfoldable pub magnitude : Option ℤ → ℕ
magnitude (some (pos n)) = n
magnitude _ = 0

-- `if isinstance(seq, int) and seq > max_seq: max_seq = seq`; `max_seq` is never negative.
abbrev pub better : ℕ → Option ℤ → ℕ
better best seq = if exceeds best seq then magnitude seq else best

-- The loop of `_read_max_seq`.
unfoldable pub max_seq : ℕ → List Line → ℕ
max_seq best [] = best
max_seq best (object d ∷ lines) = max_seq (better best (int_of (get "seq" d))) lines
max_seq best (blank ∷ lines) = max_seq best lines
max_seq best (broken ∷ lines) = max_seq best lines

unfoldable pub read_max_seq : Log → ℕ
read_max_seq none = 0
read_max_seq (some lines) = max_seq 0 lines

-- The rotated files by their date, beside the log and the counter of the store.
pub record EventStore : Type 0 where
  pub log : Log
  pub rotated : List (String × List Line)
  pub next_seq : ℕ

pub record Limits : Type 0 where
  pub max_size_bytes : ℕ
  pub keep_files : ℕ

-- `EventStore(events_dir)` on what is there
unfoldable pub open_store : Log → List (String × List Line) → EventStore
open_store log rotated = record { log = log; rotated = rotated; next_seq = suc (read_max_seq log) }

unfoldable pub lines_of : Log → List Line
lines_of none = []
lines_of (some lines) = lines

-- `if not event.event_id`, and the number of the store
unfoldable pub numbered : String → ℕ → Event → Event
numbered new_id seq event = record event {
  event_id = if truthy event.event_id then event.event_id else str new_id;
  seq = int (pos seq);
}

-- The line is written once, on whichever attempt gets the lock.
unfoldable pub write : String → Event → EventStore → EventStore
write new_id event store = record store {
  log = some (lines_of store.log ++ object (to_dict (numbered new_id store.next_seq event)) ∷ []);
  next_seq = suc store.next_seq;
}

unfoldable pub by_name : String × List Line → String × List Line → Bool
by_name (s, _) (t, _) = elim (compare s t) [ Ordering.gt ↦ false | _ ↦ true ]

unfoldable pub without : String → List (String × List Line) → List (String × List Line)
without date [] = []
without date ((name, lines) ∷ files) =
    let rest = without date files in if name == date then rest else (name, lines) ∷ rest

-- `while len(rotated_files) > keep: rotated_files.pop(0).unlink()`
unfoldable pub drop_oldest : ℕ → List (String × List Line) → List (String × List Line)
drop_oldest limit [] = []
drop_oldest limit (file ∷ files) =
    let rest = drop_oldest limit files in
    if leb (length (file ∷ files)) limit then file ∷ files else rest

module _ (size : List Line → ℕ) (limits : Limits) where
  unfoldable pub rotate_lines : String → EventStore → List Line → Bool → Bool × EventStore
  rotate_lines date store lines true = (false, store)
  rotate_lines date store lines false = (
    true,
    record store {
      log = none;
      rotated =
          drop_oldest limits.keep_files (sort by_name ((date, lines) ∷ without date store.rotated));
    },
  )

  unfoldable pub rotate_log : String → EventStore → Log → Bool × EventStore
  rotate_log date store none = (false, store)
  rotate_log date store (some lines) =
      rotate_lines date store lines (ltb (size lines) limits.max_size_bytes)

  unfoldable pub rotate_if_needed : String → EventStore → Bool × EventStore
  rotate_if_needed date store = rotate_log date store store.log

  unfoldable pub append : (date new_id : String) → Event → EventStore → EventStore
  append date new_id event store = (rotate_if_needed date (write new_id event store)).1

unfoldable pub after_seq : ℕ → List Line → List Doc
after_seq seq [] = []
after_seq seq (object d ∷ lines) =
    let rest = after_seq seq lines in if exceeds seq (int_of (get "seq" d)) then d ∷ rest else rest
after_seq seq (blank ∷ lines) = after_seq seq lines
after_seq seq (broken ∷ lines) = after_seq seq lines

unfoldable pub recent_after : ℕ → EventStore → List Doc
recent_after seq store = after_seq seq (lines_of store.log)

-- The loop over the reversed lines, which stops after the event that reaches the limit.
unfoldable pub newest : (now_iso : String) → ℕ → ℕ → List Line → List Event
newest now_iso limit count [] = []
newest now_iso limit count (object d ∷ lines) =
    let rest = newest now_iso limit (suc count) lines in
    from_dict now_iso d ∷ (if leb limit (suc count) then [] else rest)
newest now_iso limit count (blank ∷ lines) = newest now_iso limit count lines
newest now_iso limit count (broken ∷ lines) = newest now_iso limit count lines

unfoldable pub recent : (now_iso : String) → ℕ → EventStore → List Event
recent now_iso limit store = reverse (newest now_iso limit 0 (reverse (lines_of store.log)))
