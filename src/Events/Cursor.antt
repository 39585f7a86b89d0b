-- ===== src/Events/Cursor.antt =====
-- What a reader that keeps the number of the last event sees of the log of
-- src/bridge/core/events.py.
use codearts_bridge.Prelude.{
  ℕ, suc, ◌≤◌, ◌<◌, String, ◌≡◌, refl, ◌∙◌, ap, inl, inr, true, false, Option, none, some, List, [],
  ◌∷◌, ◌++◌, ltb, arith, All, Bool-cases,
}
use codearts_bridge.Core.Value.{ℤ, pos, negsuc, get}
use codearts_bridge.Events.{
  Line, blank, broken, object, int_of, exceeds, magnitude, EventStore, Limits, lines_of, numbered,
  write, rotate_lines, rotate_log, rotate_if_needed, append, after_seq, recent_after,
}
use codearts_bridge.Events.Codec.{Event, to_dict}
use codearts_bridge.Events.Sequence.{Below, Numbered, seq-numbered}

after_seq-append :
    (c : ℕ) (xs ys : List Line) → after_seq c (xs ++ ys) ≡ after_seq c xs ++ after_seq c ys
unfolding after_seq
after_seq-append c [] ys = refl
after_seq-append c (blank ∷ xs) ys = after_seq-append c xs ys
after_seq-append c (broken ∷ xs) ys = after_seq-append c xs ys
after_seq-append c (object d ∷ xs) ys = elim (Bool-cases (exceeds c (int_of (get "seq" d)))) [
  | inl e ↦ rw e (ap (λ ds. d ∷ ds) (after_seq-append c xs ys))
  | inr e ↦ rw e (after_seq-append c xs ys)
]

not_exceeds : (c : ℕ) (o : Option ℤ) → magnitude o ≤ c → exceeds c o ≡ false
unfolding exceeds magnitude
not_exceeds c none h = refl
not_exceeds c (some (pos n)) h = ground arith
not_exceeds c (some (negsuc n)) h = refl

-- Nothing that a reader has seen comes again.
after_seq_old : (c : ℕ) (lines : List Line) → All (Below (suc c)) lines → after_seq c lines ≡ []
unfolding after_seq
after_seq_old c [] h = refl
after_seq_old c (blank ∷ lines) h = after_seq_old c lines h.1
after_seq_old c (broken ∷ lines) h = after_seq_old c lines h.1
after_seq_old c (object d ∷ lines) h =
    rw (not_exceeds c (int_of (get "seq" d)) (omega (arith, h.0))) (after_seq_old c lines h.1)

after_seq-numbered :
    (c n : ℕ) (new_id : String) (e : Event)
    → c < n
    → after_seq c (object (to_dict (numbered new_id n e)) ∷ []) ≡ to_dict (numbered new_id n e) ∷ []
unfolding after_seq
after_seq-numbered c n new_id e h =
    rw (seq-numbered new_id n e) (unfold int_of exceeds in ground arith)

module _ (size : List Line → ℕ) (limits : Limits) where
  -- An `append` after which the log is still below the size at which it is rotated.
  abbrev pub Stays : String → Event → EventStore → Type 0
  Stays new_id e store =
      ltb (size (lines_of (write new_id e store).log)) limits.max_size_bytes ≡ true

  pub append-Stays :
      (date new_id : String) (e : Event) (store : EventStore)
      → Stays new_id e store
      → append size limits date new_id e store ≡ write new_id e store
  unfolding append rotate_if_needed rotate_log rotate_lines write lines_of
  append-Stays date new_id e store h =
      ap
        (λ b.
          (rotate_lines size limits date (write new_id e store)
            (lines_of (write new_id e store).log) b).1)
        h

  -- Where the log is not rotated, a reader that has seen every number so far, up to `c`, and finds
  -- nothing new, finds exactly the event that is appended next, with its number.
  pub recent_after-append :
      (date new_id : String) (e : Event) (store : EventStore) (c : ℕ)
      → Numbered store
      → store.next_seq ≡ suc c
      → Stays new_id e store
      → (recent_after c store ≡ [])
        × (recent_after c (append size limits date new_id e store)
            ≡ to_dict (numbered new_id (suc c) e) ∷ [])
  unfolding recent_after write lines_of
  recent_after-append date new_id e store c below next stays =
      let old : after_seq c (lines_of store.log) ≡ [] =
        after_seq_old c (lines_of store.log) (rw (← next) below) in
      (
        old,
        rw (append-Stays date new_id e store stays) (
            after_seq-append c (lines_of store.log) _
            ∙ rw old (rw next (after_seq-numbered c (suc c) new_id e (omega arith)))),
      )
