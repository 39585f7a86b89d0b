-- ===== src/Tests/Review.antt =====
-- A review of src/bridge/application/review_service.py that approves a task.
use codearts_bridge.Prelude.{◌≡◌, refl, none, some, [], ◌∷◌, mem}
use codearts_bridge.Core.Value.{
  pos, str, int, content, get, get_or, find, put, update, truthy, ◌or◌, is_text, to_int, add_one,
  in_states,
}
use codearts_bridge.Core.Errors.{ok}
use codearts_bridge.Core.State.{
  get_state, set_state, normalize, read_or_empty, from_state_of, valid_from, is_valid_transition,
  targets, with_extra, with_revision, revision_of, approved,
}
use codearts_bridge.Review.{
  TaskDir, success, with_state, review_record, pass_checked, pass_read, review_pass, cancel_record,
  now_cancelled, cancel_checked, cancel_read, cancel_task,
}
use codearts_bridge.Review.Decision.{Passed, review_pass-Passed}

abbrev waiting : TaskDir
waiting = record {
  state = content (("state", str "REVIEW_REQUIRED") ∷ []);
  review = none;
  cancellation = none;
}

abbrev approved_dir : TaskDir
approved_dir = record {
  state =
      content
        (("state", str "APPROVED") ∷ ("status", str "APPROVED") ∷ ("revision", int (pos 1)) ∷ []);
  review = some (
      ("taskId", str "t")
      ∷ ("reviewerId", str "w")
      ∷ ("decision", str "pass")
      ∷ ("comment", str "good")
      ∷ []);
  cancellation = none;
}

program : Unit {0}
unfolding get_state set_state normalize read_or_empty from_state_of valid_from is_valid_transition
    targets with_extra with_revision revision_of with_state review_record pass_checked pass_read
    review_pass cancel_record cancel_checked cancel_read cancel_task get get_or find put update
    truthy ◌or◌ is_text to_int add_one in_states mem
program = tt

review_run : review_pass waiting "t" "w" "good" ≡ (ok (success "t" approved), approved_dir)
unfolding program
review_run = refl

cancel_run : (cancel_task waiting "t" "late" "now").0 ≡ ok (now_cancelled "t" "late")
unfolding program
cancel_run = refl

review_pass-Passed_example : Passed waiting approved_dir "t" "w" "good"
review_pass-Passed_example = review_pass-Passed waiting approved_dir "t" "w" "good" review_run
