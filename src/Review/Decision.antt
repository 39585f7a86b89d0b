-- ===== src/Review/Decision.antt =====
-- Which tasks a review of src/bridge/application/review_service.py approves.
use codearts_bridge.Prelude.{String, ◌≡◌, refl, Bool, true, false, some, [], ap, sym}
use codearts_bridge.Core.Value.{str, Doc, get, get_or, content, is_text}
use codearts_bridge.Core.Errors.{Result, ok, raise}
use codearts_bridge.Core.State.{get_state, set_state, created, review_required, approved}
use codearts_bridge.Core.State.Effect.{set_state-aliases}
use codearts_bridge.Review.{
  TaskDir, success, with_state, review_record, pass_checked, pass_read, review_pass,
}

pub record Passed (dir dir' : TaskDir) (task_id reviewer_id comment : String) : Type 0 where
  pub before : Doc
  pub read : get_state dir.state ≡ ok before
  pub was_required : is_text (get_or "state" (str created) before) review_required ≡ true
  pub after : Doc
  pub written : dir'.state ≡ content after
  pub now_approved : get "state" after ≡ str approved
  pub recorded : dir'.review ≡ some (review_record task_id reviewer_id comment)

with_state-Passed :
    (dir dir' : TaskDir) (task_id reviewer_id comment : String) (before : Doc) (r : Result Doc)
    → get_state dir.state ≡ ok before
    → is_text (get_or "state" (str created) before) review_required ≡ true
    → set_state dir.state approved [] ≡ r
    → with_state
        (record dir { review = some (review_record task_id reviewer_id comment) })
        (λ after. (ok (success task_id approved), after))
        r
      ≡ (ok (success task_id approved), dir')
    → Passed dir dir' task_id reviewer_id comment
unfolding with_state get get_or
with_state-Passed dir dir' task_id reviewer_id comment before (raise e) read required set h = cc
with_state-Passed dir dir' task_id reviewer_id comment before (ok d) read required set h = record {
  before = before;
  read = read;
  was_required = required;
  after = d;
  written = sym (ap (λ o. o.1.state) h);
  now_approved = rw (set_state-aliases dir.state approved [] d set).0 refl;
  recorded = sym (ap (λ o. o.1.review) h);
}

pass_checked-Passed :
    (dir dir' : TaskDir) (task_id reviewer_id comment : String) (before : Doc) (b : Bool)
    → get_state dir.state ≡ ok before
    → is_text (get_or "state" (str created) before) review_required ≡ b
    → pass_checked dir task_id reviewer_id comment (get_or "state" (str created) before) b
      ≡ (ok (success task_id approved), dir')
    → Passed dir dir' task_id reviewer_id comment
unfolding pass_checked
pass_checked-Passed dir dir' task_id reviewer_id comment before false read required h = cc
pass_checked-Passed dir dir' task_id reviewer_id comment before true read required h =
    with_state-Passed dir dir' task_id reviewer_id comment before _ read required refl h

pass_read-Passed :
    (dir dir' : TaskDir) (task_id reviewer_id comment : String) (r : Result Doc)
    → get_state dir.state ≡ r
    → pass_read dir task_id reviewer_id comment r ≡ (ok (success task_id approved), dir')
    → Passed dir dir' task_id reviewer_id comment
unfolding pass_read
pass_read-Passed dir dir' task_id reviewer_id comment (raise e) read h = cc
pass_read-Passed dir dir' task_id reviewer_id comment (ok d) read h =
    pass_checked-Passed dir dir' task_id reviewer_id comment d _ read refl h

-- A review that succeeds found the task in REVIEW_REQUIRED, leaves it in APPROVED, and leaves the
-- record with the reviewer, the decision and the comment.
pub review_pass-Passed :
    (dir dir' : TaskDir) (task_id reviewer_id comment : String)
    → review_pass dir task_id reviewer_id comment ≡ (ok (success task_id approved), dir')
    → Passed dir dir' task_id reviewer_id comment
unfolding review_pass
review_pass-Passed dir dir' task_id reviewer_id comment h =
    pass_read-Passed dir dir' task_id reviewer_id comment _ refl h
