-- ===== src/Events/Sequence.antt =====
-- The numbers of the events in the log of src/bridge/core/events.py.
use codearts_bridge.Prelude.{
  ℕ, suc, ◌≤◌, ◌<◌, String, ◌≡◌, Bool, true, false, Option, none, some, List, [], ◌∷◌, arith, All,
  All-mono, All-append,
}
use codearts_bridge.Core.Value.{ℤ, pos, negsuc, int, get, get_or, find-put_if, is_null}
use codearts_bridge.Events.{
  Line, blank, broken, object, Log, int_of, exceeds, magnitude, better, max_seq, read_max_seq,
  EventStore, Limits, open_store, lines_of, numbered, write, rotate_lines, rotate_log,
  rotate_if_needed, append,
}
use codearts_bridge.Events.Codec.{Event, to_dict}

abbrev pub Below : ℕ → Line → Type 0
Below n blank = Unit
Below n broken = Unit
Below n (object d) = magnitude (int_of (get "seq" d)) < n

Below-mono : (m n : ℕ) → m ≤ n → (l : Line) → Below m l → Below n l
Below-mono m n h blank b = tt
Below-mono m n h broken b = tt
Below-mono m n h (object d) b = omega arith

-- Every number in the log is smaller than the one that comes next.
abbrev pub Numbered : EventStore → Type 0
Numbered store = All (Below store.next_seq) (lines_of store.log)

better-le : (best : ℕ) (o : Option ℤ) → (best ≤ better best o) × (magnitude o ≤ better best o)
unfolding exceeds magnitude
better-le best none = omega arith
better-le best (some (pos n)) = ground arith
better-le best (some (negsuc n)) = omega arith

max_seq-le : (best : ℕ) (lines : List Line) → best ≤ max_seq best lines
unfolding max_seq
max_seq-le best [] = omega arith
max_seq-le best (blank ∷ lines) = max_seq-le best lines
max_seq-le best (broken ∷ lines) = max_seq-le best lines
max_seq-le best (object d ∷ lines) =
    let b = better-le best (int_of (get "seq" d)) in
    omega (arith, b.0, max_seq-le (better best (int_of (get "seq" d))) lines)

max_seq-Below : (best : ℕ) (lines : List Line) → All (Below (suc (max_seq best lines))) lines
unfolding max_seq
max_seq-Below best [] = tt
max_seq-Below best (blank ∷ lines) = (tt, max_seq-Below best lines)
max_seq-Below best (broken ∷ lines) = (tt, max_seq-Below best lines)
max_seq-Below best (object d ∷ lines) =
    let b = better-le best (int_of (get "seq" d)) in
    (
      omega (arith, b.1, max_seq-le (better best (int_of (get "seq" d))) lines),
      max_seq-Below (better best (int_of (get "seq" d))) lines,
    )

pub open_store-Numbered :
    (log : Log) (rotated : List (String × List Line)) → Numbered (open_store log rotated)
unfolding open_store read_max_seq lines_of
open_store-Numbered none rotated = tt
open_store-Numbered (some lines) rotated = max_seq-Below 0 lines

pub seq-numbered :
    (new_id : String) (n : ℕ) (e : Event) → get "seq" (to_dict (numbered new_id n e)) ≡ int (pos n)
unfolding get get_or to_dict numbered is_null
seq-numbered new_id n e = simp find-put_if

write-Numbered :
    (new_id : String) (e : Event) (store : EventStore)
    → Numbered store
    → Numbered (write new_id e store)
unfolding write lines_of
write-Numbered new_id e store h =
    All-append (Below (suc store.next_seq)) (lines_of store.log) _
      (All-mono (Below store.next_seq) _ (Below-mono _ _ (omega arith)) (lines_of store.log) h)
      (rw (seq-numbered new_id store.next_seq e) (unfold int_of magnitude in omega arith), tt)

module _ (size : List Line → ℕ) (limits : Limits) where
  rotate_lines-Numbered :
      (date : String) (store : EventStore) (lines : List Line) (b : Bool)
      → Numbered store
      → Numbered (rotate_lines size limits date store lines b).1
  unfolding rotate_lines lines_of
  rotate_lines-Numbered date store lines true h = h
  rotate_lines-Numbered date store lines false h = tt

  rotate_log-Numbered :
      (date : String) (store : EventStore) (log : Log)
      → Numbered store
      → Numbered (rotate_log size limits date store log).1
  unfolding rotate_log
  rotate_log-Numbered date store none h = h
  rotate_log-Numbered date store (some lines) h = rotate_lines-Numbered date store lines _ h

  append-Numbered :
      (date new_id : String) (e : Event) (store : EventStore)
      → Numbered store
      → Numbered (append size limits date new_id e store)
  unfolding append rotate_if_needed
  append-Numbered date new_id e store h =
      rotate_log-Numbered date _ _ (write-Numbered new_id e store h)

  -- Calls of `append`, each with the date and the id of its moment.
  pub appends : List (String × String × Event) → EventStore → EventStore
  appends [] store = store
  appends ((date, new_id, e) ∷ calls) store = appends calls (append size limits date new_id e store)

  appends_keep :
      (calls : List (String × String × Event)) (store : EventStore)
      → Numbered store
      → Numbered (appends calls store)
  unfolding appends
  appends_keep [] store h = h
  appends_keep ((date, new_id, e) ∷ calls) store h =
      appends_keep calls _ (append-Numbered date new_id e store h)

  -- A store that is opened on any log, and appended to any number of times, with rotations or not,
  -- gives the next event a number above every number in its log.
  pub appends-Numbered :
      (log : Log) (rotated : List (String × List Line)) (calls : List (String × String × Event))
      → Numbered (appends calls (open_store log rotated))
  appends-Numbered log rotated calls =
      appends_keep calls (open_store log rotated) (open_store-Numbered log rotated)
