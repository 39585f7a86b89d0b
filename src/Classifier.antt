-- ===== src/Classifier.antt =====
-- src/bridge/result_classifier.py: the state that a finished run of a worker leads to.
-- A reason keeps the parts of its message; the joined text is not built.
pub mod Priority
use codearts_bridge.Prelude.{
  ℕ, String, Bool, true, false, not, ◌&&◌, ◌||◌, List, [], ◌∷◌, ◌++◌, mem, if◌then◌else◌,
}
use codearts_bridge.Core.Value.{ℤ, pos, is_zero}

pub record WorkerResult : Type 0 where
  pub exit_code : ℤ
  pub cancelled : Bool
  pub timed_out : Bool
  pub auth_error : Bool
  pub quota_error : Bool
  pub transport_error : Bool
  pub has_result : Bool
  pub has_tests : Bool
  pub has_diff : Bool
  pub has_blocker : Bool
  pub has_checkpoint : Bool
  pub has_assistance_request : Bool

pub data Reason : Type 0 where
  text : String → Reason
  missing_deliverables : List String → Reason
  exit_code_reason : ℤ → Reason

pub record ClassificationResult : Type 0 where
  pub state : String
  pub reason : Reason

unfoldable pub missing_files : WorkerResult → List String
missing_files r =
    (if not r.has_result then "RESULT.md" ∷ [] else [])
    ++ ((if not r.has_tests then "TESTS.md" ∷ [] else [])
        ++ (if not r.has_diff then "DIFF.stat" ∷ [] else []))

abbrev classified : String → Reason → ClassificationResult
classified state reason = record { state = state; reason = reason }

unfoldable pub classify_result : WorkerResult → ClassificationResult
classify_result r =
    if r.cancelled
    then classified "CANCELLED" (text "task cancelled by user")
    else if r.auth_error
    then classified "AUTH_REQUIRED" (text "authorization error")
    else if r.quota_error
    then classified "RETRYABLE" (text "quota exceeded, retry later")
    else if r.transport_error
    then classified "FAILED" (text "transport/protocol failure")
    else if r.timed_out
    then classified "RETRYABLE" (text "timed out")
    else if r.has_blocker
    then classified "BLOCKED" (text "BLOCKER.md found")
    else if r.has_checkpoint && r.has_assistance_request
    then classified "ASSISTANCE_REQUIRED" (text "checkpoint + assistance request")
    else if is_zero r.exit_code
    then (if not (r.has_result && r.has_tests && r.has_diff)
        then classified "FAILED" (missing_deliverables (missing_files r))
        else classified "REVIEW_REQUIRED" (text "RESULT + TESTS + DIFF present"))
    else classified "FAILED" (exit_code_reason r.exit_code)

-- The outbox is the list of the names of its files.
unfoldable pub classify_from_outbox :
    ℤ
    → List String
    → (cancelled timed_out auth_error quota_error transport_error : Bool) → ClassificationResult
classify_from_outbox exit_code outbox cancelled timed_out auth_error quota_error transport_error =
    classify_result (record {
      exit_code = exit_code;
      cancelled = cancelled;
      timed_out = timed_out;
      auth_error = auth_error;
      quota_error = quota_error;
      transport_error = transport_error;
      has_result = mem "RESULT.md" outbox;
      has_tests = mem "TESTS.md" outbox;
      has_diff = mem "DIFF.stat" outbox || mem "DIFF.patch" outbox;
      has_blocker = mem "BLOCKER.md" outbox;
      has_checkpoint = mem "CHECKPOINT.md" outbox;
      has_assistance_request = mem "ASSISTANCE_REQUEST.md" outbox;
    })
