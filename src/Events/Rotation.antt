-- ===== src/Events/Rotation.antt =====
-- The rotation of the log in src/bridge/core/events.py: how many files it keeps, and what it does to
-- the numbers.
use codearts_bridge.Prelude.{
  ℕ, ◌≤◌, String, ◌≡◌, refl, ◌∙◌, ap, inl, inr, Bool, true, false, none, some, List, [], ◌∷◌, leb,
  length, arith, Bool-cases, leb→le,
}
use codearts_bridge.Events.{
  Line, object, Log, int_of, exceeds, EventStore, Limits, open_store, read_max_seq, lines_of,
  numbered, write, rotate_lines, rotate_log, rotate_if_needed, append, after_seq, recent_after,
  drop_oldest,
}
use codearts_bridge.Events.Codec.{Event, to_dict}
use codearts_bridge.Events.Sequence.{seq-numbered}
use codearts_bridge.Events.Cursor.{Stays, append-Stays}

drop_oldest-le :
    (limit : ℕ) (files : List (String × List Line)) → length (drop_oldest limit files) ≤ limit
unfolding drop_oldest
drop_oldest-le limit [] = omega arith
drop_oldest-le limit (file ∷ files) = elim (Bool-cases (leb (length (file ∷ files)) limit)) [
  | inl e ↦ rw e (leb→le _ _ e)
  | inr e ↦ rw e (drop_oldest-le limit files)
]

module _ (size : List Line → ℕ) (limits : Limits) where
  -- What is on disk once a log was rotated.
  pub record Rotated (store' : EventStore) : Type 0 where
    pub gone : store'.log ≡ none
    pub kept : length store'.rotated ≤ limits.keep_files

  rotate_lines-Rotated :
      (date : String) (store : EventStore) (lines : List Line) (b : Bool)
      → (rotate_lines size limits date store lines b).0 ≡ true
      → Rotated (rotate_lines size limits date store lines b).1
  unfolding rotate_lines
  rotate_lines-Rotated date store lines true h = cc
  rotate_lines-Rotated date store lines false h = record {
    gone = refl;
    kept = drop_oldest-le limits.keep_files _;
  }

  rotate_log-Rotated :
      (date : String) (store : EventStore) (log : Log)
      → (rotate_log size limits date store log).0 ≡ true
      → Rotated (rotate_log size limits date store log).1
  unfolding rotate_log
  rotate_log-Rotated date store none h = cc
  rotate_log-Rotated date store (some lines) h = rotate_lines-Rotated date store lines _ h

  -- A rotation leaves no events.jsonl and at most as many rotated files as are to be kept.
  pub rotate_if_needed-Rotated :
      (date : String) (store : EventStore)
      → (rotate_if_needed size limits date store).0 ≡ true
      → Rotated (rotate_if_needed size limits date store).1
  unfolding rotate_if_needed
  rotate_if_needed-Rotated date store h = rotate_log-Rotated date store store.log h

  restarted :
      (store : EventStore)
      → store.log ≡ none
      → open_store store.log store.rotated
        ≡ record { log = none; rotated = store.rotated; next_seq = 1 }
  unfolding open_store read_max_seq
  restarted store h = rw h refl

  unseen :
      (c : ℕ) (new_id : String) (e : Event)
      → 1 ≤ c
      → after_seq c (object (to_dict (numbered new_id 1 e)) ∷ []) ≡ []
  unfolding after_seq
  unseen c new_id e h = rw (seq-numbered new_id 1 e) (unfold int_of exceeds in ground arith)

  -- A store that is opened after a rotation numbers from 1 again: its first event, where the log
  -- stays, is not found by any reader that has seen an event before.
  pub recent_after-reopened :
      (date date' new_id : String) (store : EventStore) (e : Event) (c : ℕ)
      → (rotate_if_needed size limits date store).0 ≡ true
      → 1 ≤ c
      → Stays size limits new_id e (
          open_store
            (rotate_if_needed size limits date store).1.log
            (rotate_if_needed size limits date store).1.rotated)
      → recent_after c (
          append size limits date' new_id e (
            open_store
              (rotate_if_needed size limits date store).1.log
              (rotate_if_needed size limits date store).1.rotated))
        ≡ []
  recent_after-reopened date date' new_id store e c rotated seen stays =
      let disk = (rotate_if_needed size limits date store).1 in
      let start = restarted disk (rotate_if_needed-Rotated date store rotated).gone in
      ap (recent_after c) (append-Stays size limits date' new_id e _ stays)
      ∙ (ap (λ s. recent_after c (write new_id e s)) start
          ∙ unfold recent_after write lines_of in unseen c new_id e seen)
