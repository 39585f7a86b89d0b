-- ===== src/Core/State.antt =====
-- src/bridge/core/state.py: the states of a task, the table of transitions, and the reading and
-- writing of state.json. A state is the text that the file holds.
pub mod Table
pub mod Reviewed
pub mod Update
pub mod Effect
pub mod History
use Prim.Native.Char.{code}
use codearts_bridge.Prelude.{
  String, Bool, true, false, not, ◌&&◌, ◌||◌, Option, none, some, List, [], ◌∷◌, ◌++◌, ◌==◌, mem,
  eqb, if◌then◌else◌,
}
use codearts_bridge.Core.Value.{
  ℤ, pos, add_one, Value, str, compound, truthy, ◌or◌, is_text, to_int, Doc, get, get_or, put,
  update, File, missing, broken, content,
}
use codearts_bridge.Core.Errors.{
  Error, type_error, Result, ok, raise, state_transition, json_decode, int_conversion, ◌>>=◌,
}

abbrev pub created : String
created = "CREATED"

abbrev pub ready : String
ready = "READY"

abbrev pub queued : String
queued = "QUEUED"

abbrev pub starting : String
starting = "STARTING"

abbrev pub running : String
running = "RUNNING"

abbrev pub verifying : String
verifying = "VERIFYING"

abbrev pub review_required : String
review_required = "REVIEW_REQUIRED"

abbrev pub approved : String
approved = "APPROVED"

abbrev pub integrating : String
integrating = "INTEGRATING"

abbrev pub integrated : String
integrated = "INTEGRATED"

abbrev pub done : String
done = "DONE"

abbrev pub assistance_required : String
assistance_required = "ASSISTANCE_REQUIRED"

abbrev pub retryable : String
retryable = "RETRYABLE"

abbrev pub auth_required : String
auth_required = "AUTH_REQUIRED"

abbrev pub cancelled : String
cancelled = "CANCELLED"

abbrev pub failed : String
failed = "FAILED"

abbrev pub fix_required : String
fix_required = "FIX_REQUIRED"

abbrev pub conflict : String
conflict = "CONFLICT"

abbrev pub stale : String
stale = "STALE"

abbrev pub blocked : String
blocked = "BLOCKED"

abbrev pub integration_failed : String
integration_failed = "INTEGRATION_FAILED"

abbrev pub candidate_states : List String
candidate_states = ready ∷ fix_required ∷ retryable ∷ []

abbrev pub active_states : List String
active_states =
    queued ∷ starting ∷ running ∷ verifying ∷ review_required ∷ approved ∷ integrating ∷ integrated
    ∷ []

abbrev pub terminal_states : List String
terminal_states = done ∷ failed ∷ cancelled ∷ blocked ∷ auth_required ∷ integration_failed ∷ []

abbrev pub all_states : List String
all_states =
    candidate_states
    ++ (active_states
        ++ (terminal_states ++ (created ∷ assistance_required ∷ conflict ∷ stale ∷ [])))

abbrev pub Table : Type 0
Table = List (String × List String)

abbrev pub transitions : Table
transitions =
    (created, ready ∷ [])
    ∷ (ready, queued ∷ cancelled ∷ [])
    ∷ (queued, starting ∷ cancelled ∷ blocked ∷ [])
    ∷ (starting, running ∷ failed ∷ auth_required ∷ cancelled ∷ [])
    ∷ (
      running,
      verifying ∷ assistance_required ∷ retryable ∷ auth_required ∷ cancelled ∷ failed ∷ stale ∷ [],
    )
    ∷ (stale, running ∷ retryable ∷ failed ∷ cancelled ∷ [])
    ∷ (verifying, review_required ∷ fix_required ∷ failed ∷ [])
    ∷ (review_required, fix_required ∷ approved ∷ cancelled ∷ [])
    ∷ (fix_required, queued ∷ cancelled ∷ [])
    ∷ (approved, integrating ∷ cancelled ∷ [])
    ∷ (integrating, integrated ∷ conflict ∷ failed ∷ cancelled ∷ integration_failed ∷ [])
    ∷ (conflict, integrating ∷ fix_required ∷ failed ∷ cancelled ∷ [])
    ∷ (integrated, done ∷ failed ∷ [])
    ∷ (retryable, queued ∷ cancelled ∷ failed ∷ [])
    ∷ (assistance_required, running ∷ cancelled ∷ failed ∷ [])
    ∷ (auth_required, queued ∷ cancelled ∷ failed ∷ [])
    ∷ (done, [])
    ∷ (failed, [])
    ∷ (cancelled, [])
    ∷ (blocked, [])
    ∷ (integration_failed, [])
    ∷ []

-- `table.get(from_state, set())`
unfoldable pub targets : Table → String → List String
targets [] s = []
targets ((from, to) ∷ table) s = if s == from then to else targets table s

unfoldable pub is_valid_transition : String → String → Bool
unfolding mem targets
is_valid_transition from_state to_state = mem to_state (targets transitions from_state)

unfoldable pub is_candidate : String → Bool
unfolding mem
is_candidate state = mem state candidate_states

unfoldable pub is_active : String → Bool
unfolding mem
is_active state = mem state active_states

unfoldable pub is_terminal : String → Bool
unfolding mem
is_terminal state = mem state terminal_states

-- The aliases `state` and `status` of a document that was read.
unfoldable pub normalize : Doc → Doc
normalize document =
    if truthy (get "state" document)
    then put "status" (get "state" document) document
    else if truthy (get "status" document)
    then put "state" (get "status" document) document
    else put "status" (str created) (put "state" (str created) document)

unfoldable pub get_state : File Doc → Result Doc
get_state missing = ok (("state", str created) ∷ ("status", str created) ∷ [])
get_state broken = raise json_decode
get_state (content document) = ok (normalize document)

-- `read_json_or_none(path) or {}`
unfoldable pub read_or_empty : File Doc → Result Doc
read_or_empty missing = ok []
read_or_empty broken = raise json_decode
read_or_empty (content document) = ok document

-- `current.get("state") or current.get("status") or CREATED`
unfoldable pub from_state_of : Doc → Value
from_state_of current = ◌or◌ (◌or◌ (get "state" current) (get "status" current)) (str created)

-- `_TRANSITIONS.get(from_state, set())`; only texts are keys.
unfoldable pub valid_from : Value → String → Bool
valid_from (str from_state) state = is_valid_transition from_state state
valid_from _ state = false

-- An array or an object, which begins with its bracket.
unfoldable pub is_container : String → Bool
is_container String.[] = false
is_container (String.◌∷◌ c s) = eqb (code c) 91 || eqb (code c) 123

-- The exception of the guard: the look-up of an array or an object in the table is a TypeError.
unfoldable pub refusal : Value → String → Error
refusal (compound b text) state =
    if is_container text then type_error else state_transition (compound b text) state
refusal from_state state = state_transition from_state state

abbrev pub text_of : Value → String
text_of (str s) = s
text_of _ = ""

-- The payload before the revision is set, whose `revision` is converted.
unfoldable pub with_extra : Doc → String → Doc → Doc
with_extra current state extra = put "status" (str state) (
    put "state" (str state)
      (update extra (put "status" (str state) (put "state" (str state) current))))

-- `int(...) + 1`, or the exception of the conversion.
unfoldable pub with_revision : Doc → Option ℤ → Result Doc
with_revision current none = raise int_conversion
with_revision current (some n) = ok (put "revision" (Value.int (add_one n)) current)

unfoldable pub revision_of : Doc → Option ℤ
revision_of current = to_int (get_or "revision" (Value.int (pos 0)) current)

-- The new content of state.json, which is also what the function returns. The event that it emits
-- afterwards is best-effort and changes nothing here.
unfoldable pub set_state : File Doc → String → Doc → Result Doc
set_state file state extra = do
  current ← read_or_empty file
  if not (is_text (from_state_of current) state) && not (valid_from (from_state_of current) state)
      then raise (refusal (from_state_of current) state)
      else let next = with_extra current state extra in with_revision next (revision_of next)
