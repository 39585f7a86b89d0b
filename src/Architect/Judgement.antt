-- ===== src/Architect/Judgement.antt =====
-- The verdict of src/bridge/architect_loop.py on what a worker left in its outbox.
use Prim.Native.Char.{code}
use codearts_bridge.Prelude.{
  ℕ, ◌+◌, String, Bool, false, not, ◌&&◌, ◌||◌, Option, none, some, eqb, if◌then◌else◌,
}
use codearts_bridge.Core.Value.{strip_left}
use codearts_bridge.Core.Errors.{Call, threw, returned}

pub data Decision : Type 0 where
  pass fix : Decision

pub data Cause : Type 0 where
  directory_not_found : Cause
  result_missing : Cause
  failed_tests : ℕ → Cause
  passed_tests : ℕ → Cause
  ai_review : Cause
  ai_unavailable : (exception : String) → Cause

pub record ReviewVerdict : Type 0 where
  pub task_id : String
  pub decision : Decision
  pub reason : Cause
  pub fix_task_id : Option String

abbrev pub verdict : String → Decision → Cause → ReviewVerdict
verdict task_id decision reason = record {
  task_id = task_id;
  decision = decision;
  reason = reason;
  fix_task_id = none;
}

-- Whether RESULT.md is there, and the passed and failed tests of TESTS.md, if that is.
pub record Outbox : Type 0 where
  pub has_result : Bool
  pub tests : Option (ℕ × ℕ)

unfoldable pub by_tests : String → Option (ℕ × ℕ) → Option ReviewVerdict
by_tests task_id none = none
by_tests task_id (some (passed, failed)) =
    if not (eqb failed 0)
    then some (verdict task_id fix (failed_tests failed))
    else if not (eqb passed 0)
    then some (verdict task_id pass (passed_tests passed))
    else none

unfoldable pub deterministic_review : String → Outbox → Option ReviewVerdict
deterministic_review task_id outbox =
    if outbox.has_result
    then by_tests task_id outbox.tests
    else some (verdict task_id fix result_missing)

-- The letter, in upper or lower case
abbrev pub is_letter : ℕ → ℕ → Bool
is_letter c upper = eqb c upper || eqb c (upper + 32)

-- `text.upper().startswith("PASS")`, of ASCII letters
unfoldable pub starts_pass : String → Bool
starts_pass (String.◌∷◌ p (String.◌∷◌ a (String.◌∷◌ s (String.◌∷◌ t rest)))) =
    is_letter (code p) 80 && is_letter (code a) 65 && is_letter (code s) 83 && is_letter (code t) 83
starts_pass _ = false

unfoldable pub answered : String → Call String → ReviewVerdict
answered task_id (threw e) = verdict task_id fix (ai_unavailable e)
answered task_id (returned response) =
    verdict task_id (if starts_pass (strip_left response) then pass else fix) ai_review

unfoldable pub or_asked : String → Call String → Option ReviewVerdict → ReviewVerdict
or_asked task_id answer none = answered task_id answer
or_asked task_id answer (some v) = v

unfoldable pub judged : String → Outbox → Call String → ReviewVerdict
judged task_id outbox answer = or_asked task_id answer (deterministic_review task_id outbox)
