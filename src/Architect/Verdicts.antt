-- ===== src/Architect/Verdicts.antt =====
-- When src/bridge/architect_loop.py passes a task, and what its loop counts.
use codearts_bridge.Prelude.{
  ℕ, suc, ◌+◌, String, ◌≡◌, refl, inl, inr, Bool, true, false, not, ◌||◌, Option, none, some, List,
  [], ◌∷◌, eqb, length, length-append, arith, Bool-cases,
}
use codearts_bridge.Core.Errors.{ok, raise}
use codearts_bridge.Core.Errors.{Call}
use codearts_bridge.Architect.{
  Desk, Answer, ArchitectResult, count_verdict, after_review, review_all,
}
use codearts_bridge.Architect.Judgement.{
  Decision, pass, fix, ReviewVerdict, Outbox, by_tests, deterministic_review, verdict, failed_tests,
  result_missing, or_asked, judged,
}

abbrev has_failures : Option (ℕ × ℕ) → Bool
has_failures none = false
has_failures (some (passed, failed)) = not (eqb failed 0)

-- RESULT.md is missing, or TESTS.md counts a failure.
abbrev pub is_defective : Outbox → Bool
is_defective o = not o.has_result || has_failures o.tests

by_tests_fix :
    (task_id : String) (tests : Option (ℕ × ℕ))
    → has_failures tests ≡ true
    → (v : ReviewVerdict) × (by_tests task_id tests ≡ some v) × (v.decision ≡ fix)
unfolding by_tests
by_tests_fix task_id none h = absurd (cc)
by_tests_fix task_id (some (passed, failed)) h =
    let failing : not (eqb failed 0) ≡ true = h in
    (verdict task_id fix (failed_tests failed), rw failing refl, refl)

deterministic_review_fix :
    (task_id : String) (o : Outbox)
    → is_defective o ≡ true
    → (v : ReviewVerdict) × (deterministic_review task_id o ≡ some v) × (v.decision ≡ fix)
unfolding deterministic_review
deterministic_review_fix task_id o h = elim (Bool-cases o.has_result) [
  | inr e ↦ (verdict task_id fix result_missing, rw e refl, refl)
  | inl e ↦
      let failing : has_failures o.tests ≡ true = rw e at h in
      let (v, found, d) = by_tests_fix task_id o.tests failing in (v, rw e found, d)
]

-- A task without RESULT.md, or whose TESTS.md counts a failure, is sent to be fixed, whatever the
-- model would answer.
pub judged-defective :
    (task_id : String) (o : Outbox) (answer : Call String)
    → is_defective o ≡ true
    → (judged task_id o answer).decision ≡ fix
unfolding judged or_asked
judged-defective task_id o answer h =
    let (v, found, d) = deterministic_review_fix task_id o h in rw found d

-- A cycle counts each verdict once, as passed or as fixed.
abbrev pub Balanced : ArchitectResult → Type 0
Balanced r = (r.reviewed ≡ r.passed + r.fixed) × (r.reviewed ≡ length r.verdicts)

module _ (review : String → Desk → Answer) where
  abbrev Counts : ℕ → ArchitectResult → Type 0
  Counts n r = Balanced r × (r.reviewed + length r.errors ≡ n)

  counted_verdict :
      (v : ReviewVerdict) (d : Decision) (r : ArchitectResult) (n : ℕ)
      → Counts n r
      → Counts (suc n) (count_verdict v d r)
  unfolding count_verdict
  counted_verdict v pass r n ((b, l), t) =
      let more = length-append r.verdicts (v ∷ []) in ((omega arith, omega arith), omega arith)
  counted_verdict v fix r n ((b, l), t) =
      let more = length-append r.verdicts (v ∷ []) in ((omega arith, omega arith), omega arith)

  after_review-Counts :
      (task_id : String) (r : ArchitectResult)
      (rest : ArchitectResult → Desk → ArchitectResult × Desk) (n left : ℕ) (o : Answer)
      → Counts n r
      → ((r' : ArchitectResult) (w : Desk)
          → Counts (suc n) r'
          → Counts (suc n + left) (rest r' w).0)
      → Counts (suc n + left) (after_review review task_id r rest o).0
  unfolding after_review
  after_review-Counts task_id r rest n left (raise e, w) ((b, l), t) more =
      let longer = length-append r.errors ((task_id, e) ∷ []) in more _ w ((b, l), omega arith)
  after_review-Counts task_id r rest n left (ok v, w) c more =
      more _ w (counted_verdict v v.decision r n c)

  -- Whatever its reviews return or raise, the loop ends with a verdict or an error for each task,
  -- and has counted each verdict as passed or as fixed.
  pub review_all_counts :
      (ids : List String) (r : ArchitectResult) (w : Desk) (n : ℕ)
      → Balanced r
      → r.reviewed + length r.errors ≡ n
      → Balanced (review_all review ids r w).0
        × ((review_all review ids r w).0.reviewed + length (review_all review ids r w).0.errors
            ≡ n + length ids)
  unfolding review_all
  review_all_counts [] r w n b t = (b, omega arith)
  review_all_counts (id ∷ ids) r w n b t =
      let all =
        after_review-Counts id r (review_all review ids) n (length ids) (review id w) (b, t)
          (λ r' w' c. review_all_counts ids r' w' (suc n) c.0 c.1) in
      (all.0, omega arith)
