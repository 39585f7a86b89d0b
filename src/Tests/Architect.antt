-- ===== src/Tests/Architect.antt =====
-- Reviews of src/bridge/architect_loop.py on small inputs.
use codearts_bridge.Prelude.{
  ℕ, ◌+◌, String, ◌≡◌, refl, true, some, List, [], ◌∷◌, length, arith, ◌==◌, if◌then◌else◌,
}
use codearts_bridge.Core.Value.{
  str, content, missing, find, get, get_or, is_text, put, put_if, truthy,
}
use codearts_bridge.Core.Errors.{ok, raise, file_exists}
use codearts_bridge.Legacy.{get_state, mirrored}
use codearts_bridge.Tasks.{state_json}
use codearts_bridge.Core.Errors.{returned}
use codearts_bridge.Architect.{Desk, Answer, ArchitectResult, supersede, review_all}
use codearts_bridge.Architect.Judgement.{Outbox, fix, pass, passed_tests, verdict, judged}
use codearts_bridge.Architect.Verdicts.{judged-defective, Balanced, review_all_counts}
use codearts_bridge.Architect.Superseded.{Ready, supersede-Ready}

abbrev failing : Outbox
failing = record { has_result = true; tests = some (5, 1) }

judged-defective_example : (judged "t1" failing (returned "PASS")).decision ≡ fix
judged-defective_example = judged-defective "t1" failing (returned "PASS") refl

abbrev desk : Desk
desk = record {
  tasks = ("t1", content (("state", str "REVIEW_REQUIRED") ∷ [])) ∷ [];
  metas = λ j. missing;
}

abbrev now : ℕ → String
now i = "now"

supersede-Ready_example :
    Ready "t1" (supersede now "t1" "t1-fix" (verdict "t1" fix (passed_tests 0)) desk)
unfolding state_json get_state mirrored find get get_or is_text put put_if truthy
supersede-Ready_example =
    supersede-Ready now "t1" "t1-fix" (verdict "t1" fix (passed_tests 0)) desk
      (("state", str "REVIEW_REQUIRED") ∷ ("status", str "REVIEW_REQUIRED") ∷ []) refl refl

abbrev nothing : ArchitectResult
nothing = record { reviewed = 0; passed = 0; fixed = 0; errors = []; planned = 0; verdicts = [] }

-- "t2" cannot be reviewed.
abbrev review : String → Desk → Answer
review id w =
    if id == "t2" then (raise (file_exists id), w) else (ok (verdict id pass (passed_tests 3)), w)

abbrev task_ids : List String
task_ids = "t1" ∷ "t2" ∷ []

review_all_counts_example :
    Balanced (review_all review task_ids nothing desk).0
    × ((review_all review task_ids nothing desk).0.reviewed
          + length (review_all review task_ids nothing desk).0.errors
        ≡ 0 + length task_ids)
review_all_counts_example =
    review_all_counts review task_ids nothing desk 0 (omega arith, refl) (omega arith)
