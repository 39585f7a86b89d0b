-- ===== src/Tests/Classifier.antt =====
-- The classification of src/bridge/result_classifier.py at single results.
use codearts_bridge.Prelude.{◌≡◌, refl, ◌↔◌, ◌⊎◌, true, false, [], ◌∷◌, mem}
use codearts_bridge.Core.Value.{pos, is_zero}
use codearts_bridge.Classifier.{WorkerResult, classify_result, classify_from_outbox, missing_files}
use codearts_bridge.Classifier.Priority.{Delivered, review_required_iff, retryable_iff}

abbrev finished : WorkerResult
finished = record {
  exit_code = pos 0;
  cancelled = false;
  timed_out = false;
  auth_error = false;
  quota_error = false;
  transport_error = false;
  has_result = true;
  has_tests = true;
  has_diff = true;
  has_blocker = false;
  has_checkpoint = false;
  has_assistance_request = false;
}

review_required_iff_example :
    ((classify_result finished).state ≡ "REVIEW_REQUIRED") ↔ Delivered finished
review_required_iff_example = review_required_iff finished

retryable_iff_example :
    ((classify_result finished).state ≡ "RETRYABLE")
    ↔ (false ≡ false) × (false ≡ false) × ((false ≡ true) ⊎ ((false ≡ false) × (false ≡ true)))
retryable_iff_example = retryable_iff finished

patch_counts :
    (classify_from_outbox
      (pos 0)
      ("RESULT.md" ∷ "TESTS.md" ∷ "DIFF.patch" ∷ [])
      false
      false
      false
      false
      false).state
    ≡ "REVIEW_REQUIRED"
unfolding classify_from_outbox classify_result missing_files mem is_zero
patch_counts = refl
