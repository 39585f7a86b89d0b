-- ===== src/Core/State/History.antt =====
-- A sequence of calls of set_state of src/bridge/core/state.py on one task: the states that
-- state.json goes through form a way through the table of transitions.
use codearts_bridge.Prelude.{
  String, ◌≡◌, refl, sym, ◌∙◌, ap, subst, inl, inr, Bool, true, List, [], ◌∷◌, eq_iff, Bool-cases,
}
use codearts_bridge.Core.Value.{
  Value, str, Doc, get, get_or, truthy, is_text, File, content, ◌or◌, null, int, bool, compound,
  or_default,
}
use codearts_bridge.Core.Errors.{Result, ok, raise, ok-injective}
use codearts_bridge.Core.State.{
  set_state, read_or_empty, from_state_of, valid_from, is_valid_transition, transitions, created,
}
use codearts_bridge.Core.State.Table.{check, valid_transition_check}
use codearts_bridge.Core.State.Update.{set_state-Written}
use codearts_bridge.Core.State.Effect.{set_state-aliases}

-- A call that raises leaves the file as it was.
pub after : File Doc → Result Doc → File Doc
after file (ok d) = content d
after file (raise e) = file

pub run : File Doc → List (String × Doc) → File Doc
run file [] = file
run file ((state, extra) ∷ calls) = run (after file (set_state file state extra)) calls

-- The state of a task by its file. A file that does not parse has none.
abbrev pub HasState : File Doc → String → Type 0
HasState file s =
    (current : Doc) × (read_or_empty file ≡ ok current) × (from_state_of current ≡ str s)

-- Zero or more valid transitions.
pub data Reach (s : String) : String → Type 0 where
  here : Reach s s
  next : {t u : String} → Reach s t → is_valid_transition t u ≡ true → Reach s u

is_text-eq : (v : Value) (s : String) → is_text v s ≡ true → v ≡ str s
unfolding is_text
is_text-eq (str t) s h = ap str ((eq_iff t s).0 h)
is_text-eq null s h = cc
is_text-eq (bool b) s h = cc
is_text-eq (int n) s h = cc
is_text-eq (compound b t) s h = cc

truthy-or : (a b : Value) → truthy b ≡ true → truthy (◌or◌ a b) ≡ true
unfolding ◌or◌
truthy-or a b h = elim (Bool-cases (truthy a)) [ inl e ↦ rw e e | inr e ↦ rw e h ]

from_state_of-truthy : (d : Doc) → truthy (from_state_of d) ≡ true
unfolding from_state_of
from_state_of-truthy d = truthy-or _ (str created) (unfold truthy in refl)

named_target : String → String → Bool
unfolding truthy
named_target s t = truthy (str t)

named_target_table : check named_target transitions ≡ true
unfolding check named_target
named_target_table = refl

state_of_target : (s t : String) → is_valid_transition s t ≡ true → truthy (str t) ≡ true
unfolding named_target
state_of_target s t v = valid_transition_check named_target s t named_target_table v

from_state-written :
    (d : Doc) (s : String) → get "state" d ≡ str s → truthy (str s) ≡ true → from_state_of d ≡ str s
unfolding from_state_of ◌or◌
from_state-written d s e p = rw (e, p) (rw p)

valid_from-text :
    (v : Value) (t : String)
    → valid_from v t ≡ true
    → (s : String) × (v ≡ str s) × (is_valid_transition s t ≡ true)
unfolding valid_from
valid_from-text (str s) t h = (s, refl, h)
valid_from-text null t h = cc
valid_from-text (bool b) t h = cc
valid_from-text (int n) t h = cc
valid_from-text (compound b x) t h = cc

str-injective : {s t : String} → str s ≡ str t → s ≡ t
str-injective h = cc

-- One call: the state after it is the one before, or one valid transition on.
call-Reach :
    (file : File Doc) (s state : String) (extra : Doc) (r : Result Doc)
    → set_state file state extra ≡ r
    → HasState file s
    → (t : String) × HasState (after file r) t × Reach s t
unfolding after
call-Reach file s state extra (raise e) h b = (s, b, here)
call-Reach file s state extra (ok d) h (current, reads, has_s) =
    let w = set_state-Written file state extra d h in
    let same : w.current ≡ current = ok-injective (sym w.reads ∙ reads) in
    let from : from_state_of w.current ≡ str s = ap from_state_of same ∙ has_s in
    let written : get "state" d ≡ str state =
      unfold get get_or in ap (or_default null) (set_state-aliases file state extra d h).0 in
    elim w.allowed [
      | inl e ↦
          let stays : s ≡ state = str-injective (sym from ∙ is_text-eq _ state e) in
          (
            state,
            (
              d,
              unfold read_or_empty in refl,
              from_state-written d state written (
                  subst (λ x. truthy x ≡ true) (is_text-eq _ state e)
                    (from_state_of-truthy w.current)),
            ),
            subst (Reach s) stays here,
          )
      | inr e ↦
          let (s', is_s', v) = valid_from-text _ state e in
          let same_s : s' ≡ s = str-injective (sym is_s' ∙ from) in
          (
            state,
            (
              d,
              unfold read_or_empty in refl,
              from_state-written d state written (state_of_target s' state v),
            ),
            next here (subst (λ x. is_valid_transition x state ≡ true) same_s v),
          )
    ]

pub Reach-trans : {s t u : String} → Reach s t → Reach t u → Reach s u
Reach-trans p here = p
Reach-trans p (next q v) = next (Reach-trans p q) v

-- After any sequence of calls of this set_state alone, with whatever payloads, the state that a task
-- ends in can be reached from the one that it began in by the table of transitions. Other writers of
-- state.json, which do not look at the table, are not among the calls.
pub run-Reach :
    (file : File Doc) (s : String) (calls : List (String × Doc))
    → HasState file s
    → (t : String) × HasState (run file calls) t × Reach s t
unfolding run
run-Reach file s [] h = (s, h, here)
run-Reach file s ((state, extra) ∷ calls) h =
    let (t, has_t, reach) = call-Reach file s state extra _ refl h in
    let (u, has_u, on) = run-Reach (after file (set_state file state extra)) t calls has_t in
    (u, has_u, Reach-trans reach on)
