-- ===== src/Review.antt =====
-- src/bridge/application/review_service.py: the decision of a reviewer; and cancel_task of
-- src/bridge/application/task_service.py. Of the directory of a task they write state.json, a record
-- of the review and a record of the cancellation.
pub mod Decision
use codearts_bridge.Prelude.{
  String, Bool, true, false, not, Option, none, some, List, [], ◌∷◌, ◌==◌, if◌then◌else◌, mem,
}
use codearts_bridge.Core.Value.{Value, str, Doc, get_or, File, content, is_text, in_states}
use codearts_bridge.Core.Errors.{Result, ok, raise, ◌>>=◌, task_not_found}
use codearts_bridge.Core.State.{
  get_state, set_state, created, review_required, approved, cancelled, done,
}

pub record TaskDir : Type 0 where
  pub state : File Doc
  pub review : Option Doc
  pub cancellation : Option Doc

-- A refused review names the state that the task is in.
pub data ReviewResult : Type 0 where
  success : (task_id new_state : String) → ReviewResult
  cannot_pass : (task_id : String) (current : Value) → ReviewResult

-- The answer, or the exception, and the directory then.
abbrev pub Outcome : Type 0 → Type 0
Outcome A = Result A × TaskDir

-- `set_state(task_dir, state)`, and the rest of the body behind it
unfoldable pub with_state : {A : Type 0} → TaskDir → (TaskDir → Outcome A) → Result Doc → Outcome A
with_state dir rest (raise e) = (raise e, dir)
with_state dir rest (ok d) = rest (record dir { state = content d })

unfoldable pub review_record : (task_id reviewer_id comment : String) → Doc
review_record task_id reviewer_id comment =
    ("taskId", str task_id)
    ∷ ("reviewerId", str reviewer_id)
    ∷ ("decision", str "pass")
    ∷ ("comment", str comment)
    ∷ []

unfoldable pub pass_checked :
    TaskDir → (task_id reviewer_id comment : String) → Value → Bool → Outcome ReviewResult
pass_checked dir task_id reviewer_id comment current false = (ok (cannot_pass task_id current), dir)
pass_checked dir task_id reviewer_id comment current true =
    let reviewed = record dir { review = some (review_record task_id reviewer_id comment) } in
    with_state reviewed (λ after. (ok (success task_id approved), after))
      (set_state dir.state approved [])

unfoldable pub pass_read :
    TaskDir → (task_id reviewer_id comment : String) → Result Doc → Outcome ReviewResult
pass_read dir task_id reviewer_id comment (raise e) = (raise e, dir)
pass_read dir task_id reviewer_id comment (ok d) =
    pass_checked dir task_id reviewer_id comment (get_or "state" (str created) d)
      (is_text (get_or "state" (str created) d) review_required)

unfoldable pub review_pass : TaskDir → (task_id reviewer_id comment : String) → Outcome ReviewResult
review_pass dir task_id reviewer_id comment =
    pass_read dir task_id reviewer_id comment (get_state dir.state)

unfoldable pub check_review_independence :
    (implementer_worker_id reviewer_worker_id : String) → Bool
check_review_independence implementer_worker_id reviewer_worker_id =
    not (implementer_worker_id == reviewer_worker_id)

pub data Cancelled : Type 0 where
  already_terminal : (task_id : String) (state : Value) → Cancelled
  now_cancelled : (task_id reason : String) → Cancelled

unfoldable pub cancel_record : (task_id reason now_iso : String) → Doc
cancel_record task_id reason now_iso =
    ("taskId", str task_id) ∷ ("reason", str reason) ∷ ("cancelledAt", str now_iso) ∷ []

unfoldable pub cancel_checked :
    TaskDir → (task_id reason now_iso : String) → Value → Bool → Outcome Cancelled
cancel_checked dir task_id reason now_iso current true =
    (ok (already_terminal task_id current), dir)
cancel_checked dir task_id reason now_iso current false =
    with_state dir
      (λ after. (
        ok (now_cancelled task_id reason),
        record after { cancellation = some (cancel_record task_id reason now_iso) },
      ))
      (set_state dir.state cancelled [])

unfoldable pub cancel_read :
    TaskDir → (task_id reason now_iso : String) → Result Doc → Outcome Cancelled
cancel_read dir task_id reason now_iso (raise e) = (raise e, dir)
cancel_read dir task_id reason now_iso (ok d) =
    cancel_checked dir task_id reason now_iso (get_or "state" (str created) d)
      (in_states (get_or "state" (str created) d) (done ∷ cancelled ∷ []))

-- The directory is there; without it the call raises TaskNotFoundError.
unfoldable pub cancel_task : TaskDir → (task_id reason now_iso : String) → Outcome Cancelled
cancel_task dir task_id reason now_iso =
    cancel_read dir task_id reason now_iso (get_state dir.state)
