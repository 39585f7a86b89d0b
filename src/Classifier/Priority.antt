-- ===== src/Classifier/Priority.antt =====
-- The order of the rules of src/bridge/result_classifier.py, against a description by exclusive
-- conditions.
use codearts_bridge.Prelude.{◌≡◌, ◌↔◌, ◌⊎◌, true, false, ◌&&◌, arith, eq_iff}
use codearts_bridge.Core.Value.{is_zero}
use codearts_bridge.Classifier.{WorkerResult, classify_result}

-- Nothing before the check of the exit code stops the run.
pub record Undisturbed (r : WorkerResult) : Type 0 where
  pub not_cancelled : r.cancelled ≡ false
  pub authorized : r.auth_error ≡ false
  pub in_quota : r.quota_error ≡ false
  pub transported : r.transport_error ≡ false
  pub in_time : r.timed_out ≡ false
  pub unblocked : r.has_blocker ≡ false
  pub unassisted : (r.has_checkpoint && r.has_assistance_request) ≡ false

-- The run ended well and left all three deliverables.
pub record Delivered (r : WorkerResult) : Type 0 where
  pub undisturbed : Undisturbed r
  pub exit_zero : is_zero r.exit_code ≡ true
  pub with_result : r.has_result ≡ true
  pub with_tests : r.has_tests ≡ true
  pub with_diff : r.has_diff ≡ true

-- A result goes to review exactly where nothing disturbed the run, the exit code is 0, and RESULT,
-- TESTS and DIFF are all there.
pub review_required_iff :
    (r : WorkerResult) → ((classify_result r).state ≡ "REVIEW_REQUIRED") ↔ Delivered r
unfolding classify_result
review_required_iff r = (
  λ h. ground (
    arith,
    eq_iff "CANCELLED" "REVIEW_REQUIRED",
    eq_iff "AUTH_REQUIRED" "REVIEW_REQUIRED",
    eq_iff "RETRYABLE" "REVIEW_REQUIRED",
    eq_iff "FAILED" "REVIEW_REQUIRED",
    eq_iff "BLOCKED" "REVIEW_REQUIRED",
    eq_iff "ASSISTANCE_REQUIRED" "REVIEW_REQUIRED",
  ),
  λ d. ground arith,
)

-- A result is retried exactly where, with no cancellation and no authorization error, the quota is
-- exceeded, or the transport did not fail and the time is up.
pub retryable_iff :
    (r : WorkerResult)
    → ((classify_result r).state ≡ "RETRYABLE")
      ↔ (r.cancelled ≡ false)
        × (r.auth_error ≡ false)
        × ((r.quota_error ≡ true) ⊎ ((r.transport_error ≡ false) × (r.timed_out ≡ true)))
unfolding classify_result
retryable_iff r = (
  λ h. ground (
    arith,
    eq_iff "CANCELLED" "RETRYABLE",
    eq_iff "AUTH_REQUIRED" "RETRYABLE",
    eq_iff "FAILED" "RETRYABLE",
    eq_iff "BLOCKED" "RETRYABLE",
    eq_iff "ASSISTANCE_REQUIRED" "RETRYABLE",
    eq_iff "REVIEW_REQUIRED" "RETRYABLE",
  ),
  λ d. ground arith,
)
