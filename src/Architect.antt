-- ===== src/Architect.antt =====
-- src/bridge/architect_loop.py: the review of a finished task, the task that fixes what the review
-- found, and the loop. The counts that _parse_tests_summary finds in TESTS.md, the answer of the
-- model and the time in a new id are arguments.
pub mod Judgement
pub mod Verdicts
pub mod Superseded
use Prim.Native.Char.{code}
use Prim.Native.String as Text
use codearts_bridge.Prelude.{
  ℕ, suc, ◌+◌, String, Bool, true, false, not, ◌&&◌, ◌||◌, Option, none, some, List, [], ◌∷◌, ◌++◌,
  ◌==◌, eqb, if◌then◌else◌,
}
use codearts_bridge.Prelude.Sort.{sort}
use codearts_bridge.Core.Value.{
  ℤ, pos, Value, str, is_text, strip_left, to_int, Doc, get_or, File, missing, broken, content,
}
use codearts_bridge.Core.Json.{
  Json, Items, Members, no_members, member, no_items, item, get as member_of, get_or as member_or,
}
use codearts_bridge.Core.Errors.{
  Result, ok, raise, int_conversion, type_error, json_decode, file_exists, ◌>>=◌, Error,
}
use codearts_bridge.Architect.Judgement.{
  pass, fix, Decision, ReviewVerdict, Outbox, verdict, judged, directory_not_found,
}
use codearts_bridge.Config.{assert_safe_id}
use codearts_bridge.Legacy.{Update, no_update, get_state, set_state}
use codearts_bridge.Scheduler.Dependency.{States, task_dir}
use codearts_bridge.Tasks.{TaskEntry, by_entry_name, status_of, state_json, write_state, joined}
use codearts_bridge.Core.Errors.{Call, threw, returned}

-- The directories of the tasks with their state.json, and their META.json.
pub record Desk : Type 0 where
  pub tasks : States
  pub metas : String → File Members

unfoldable pub int_or_error : Option ℤ → Result Json
int_or_error none = raise int_conversion
int_or_error (some n) = ok (Json.int n)

-- `int(value)`. A number with a fraction, which Python truncates, is outside of the model.
unfoldable pub int_value : Json → Result Json
int_value (Json.int n) = ok (Json.int n)
int_value (Json.bool b) = ok (Json.int (pos (if b then 1 else 0)))
int_value (Json.str s) = int_or_error (to_int (Value.str s))
int_value _ = raise int_conversion

unfoldable pub characters : String → Items
characters String.[] = no_items
characters (String.◌∷◌ c s) = item (Json.str (String.◌∷◌ c String.[])) (characters s)

unfoldable pub keys : Members → Items
keys no_members = no_items
keys (member k v d) = item (Json.str k) (keys d)

-- `list(value)`: of a text its characters, and of an object its keys.
unfoldable pub list_value : Json → Result Json
list_value (Json.array vs) = ok (Json.array vs)
list_value (Json.str s) = ok (Json.array (characters s))
list_value (Json.object d) = ok (Json.array (keys d))
list_value _ = raise type_error

abbrev pub object_or_none : Json → Members
object_or_none (Json.object d) = d
object_or_none _ = no_members

abbrev pub num : ℕ → Json
num n = Json.int (pos n)

-- META.json of the fix task, from that of the original one.
unfoldable pub fix_meta :
    (created_at fix_task_id original_task_id : String) → Members → Result Members
fix_meta created_at fix_task_id original_task_id original =
    let execution = object_or_none (member_of "execution" original) in
    list_value (member_or "requiredSkills" (Json.array no_items) original) >>= λ skills.
    int_value (member_or "priority" (num 50) original) >>= λ priority.
    list_value (member_or "excludedWorkers" (Json.array no_items) execution) >>= λ excluded.
    int_value (member_or "targetMinutes" (num 10) execution) >>= λ target.
    int_value (member_or "softTimeoutMinutes" (num 25) execution) >>= λ soft.
    int_value (member_or "hardTimeoutMinutes" (num 30) execution) >>= λ hard. ok (
      member "schemaVersion" (num 2) (
        member "taskId" (Json.str fix_task_id) (
          member "projectId" (member_or "projectId" (Json.str "bridge-dev") original) (
            member "workerId" Json.null (
              member "role" (Json.str "implement") (
                member "requiredSkills" skills (
                  member "dependsOn" (Json.array (item (Json.str original_task_id) no_items)) (
                    member "priority" priority (
                      member "parentTaskId" (Json.str original_task_id) (
                        member "createdAt" (Json.str created_at) (
                          member "baseline" (member_of "baseline" original) (
                            member "execution"
                              (Json.object (
                                member "preferredWorker" Json.null (
                                  member "excludedWorkers" excluded (
                                    member "workspace"
                                      (member_or "workspace" (Json.str "auto") execution)
                                      (member "targetMinutes" target (
                                        member "softTimeoutMinutes" soft
                                          (member "hardTimeoutMinutes" hard no_members)))))))
                              (member "review"
                                (Json.object (
                                  member "required" (Json.bool true)
                                    (member "independentWorker" (Json.bool true) no_members)))
                                no_members)))))))))))))

abbrev pub Answer : Type 0
Answer = Result ReviewVerdict × Desk

abbrev pub after_write : String → Desk → (Desk → Answer) → Result Doc → Answer
after_write task_id w next (raise e) = (raise e, w)
after_write task_id w next (ok d) = next (record w { tasks = write_state task_id d w.tasks })

unfoldable pub change_state :
    (task_id now_iso status : String) → Update → Desk → (Desk → Answer) → Answer
change_state task_id now_iso status u w next =
    after_write task_id w next (set_state task_id now_iso (state_json task_id w.tasks) status u)

-- What the state is set to, if the review is still due.
unfoldable pub if_due :
    (task_id now_iso status : String) → Update → ReviewVerdict → Desk → Result Doc → Answer
if_due task_id now_iso status u v w (raise e) = (raise e, w)
if_due task_id now_iso status u v w (ok state) =
    if is_text (get_or "state" (str "") state) "REVIEW_REQUIRED"
    then change_state task_id now_iso status u w (λ w'. (ok v, w'))
    else (ok v, w)

abbrev pub with_meta : String → Members → Desk → Desk
with_meta task_id meta w = record w {
  metas = λ j. if task_id == j then content meta else w.metas j;
}

module _ (now_iso : ℕ → String) where
  abbrev pub superseded_by : String → Update
  superseded_by fix_task_id = record no_update {
    message = str (joined "superseded by fix task " fix_task_id);
  }

  -- The original is cancelled, after the fix task is ready.
  unfoldable pub supersede : String → String → ReviewVerdict → Desk → Answer
  supersede task_id fix_task_id v w =
      if_due task_id (now_iso 3) "CANCELLED" (superseded_by fix_task_id)
        (record v { fix_task_id = some fix_task_id }) w (get_state (state_json task_id w.tasks))

  unfoldable pub with_fix_meta : String → String → ReviewVerdict → Desk → Result Members → Answer
  with_fix_meta task_id fix_task_id v w (raise e) = (raise e, w)
  with_fix_meta task_id fix_task_id v w (ok meta) =
      change_state fix_task_id (now_iso 1) "CREATED" no_update (with_meta fix_task_id meta w) (λ w₁.
        change_state fix_task_id (now_iso 2) "READY" no_update w₁ (supersede task_id fix_task_id v))

  -- The directories are made, unless they are there.
  unfoldable pub make_fix_dir : String → String → ReviewVerdict → Members → Desk → Answer
  make_fix_dir task_id fix_task_id v original w = elim (task_dir fix_task_id w.tasks) [
    | some file ↦ (raise (file_exists fix_task_id), w)
    | none ↦
        with_fix_meta task_id fix_task_id v
          (record w { tasks = w.tasks ++ (fix_task_id, missing) ∷ [] })
          (fix_meta (now_iso 0) fix_task_id task_id original)
  ]

  unfoldable pub read_original : String → String → ReviewVerdict → Desk → File Members → Answer
  read_original task_id fix_task_id v w missing = make_fix_dir task_id fix_task_id v no_members w
  read_original task_id fix_task_id v w broken = (raise json_decode, w)
  read_original task_id fix_task_id v w (content meta) = make_fix_dir task_id fix_task_id v meta w

  unfoldable pub checked_id : String → String → ReviewVerdict → Desk → Result (Unit {0}) → Answer
  checked_id task_id fix_task_id v w (raise e) = (raise e, w)
  checked_id task_id fix_task_id v w (ok u) =
      read_original task_id fix_task_id v w (w.metas task_id)

  unfoldable pub create_fix_task : String → String → ReviewVerdict → Desk → Answer
  create_fix_task task_id timestamp v w =
      let fix_task_id = joined task_id (joined "-fix-" timestamp) in
      checked_id task_id fix_task_id v w (assert_safe_id fix_task_id)

  unfoldable pub settled : String → String → ReviewVerdict → Desk → Decision → Answer
  settled task_id timestamp v w pass =
      if_due task_id (now_iso 0) "APPROVED" no_update v w (get_state (state_json task_id w.tasks))
  settled task_id timestamp v w fix = create_fix_task task_id timestamp v w

  unfoldable pub review_task : (task_id timestamp : String) → Outbox → Call String → Desk → Answer
  review_task task_id timestamp outbox answer w = elim (task_dir task_id w.tasks) [
    | none ↦ (ok (verdict task_id fix directory_not_found), w)
    | some file ↦ let v = judged task_id outbox answer in settled task_id timestamp v w v.decision
  ]

unfoldable pub review_entries : List TaskEntry → Result (List String)
review_entries [] = ok []
review_entries (entry ∷ entries) =
    let rest = review_entries entries in
    if not entry.is_dir || entry.delete_requested
    then rest
    else get_state entry.state >>= λ state.
        if is_text (status_of state) "REVIEW_REQUIRED"
        then (rest >>= λ names. ok (entry.name ∷ names))
        else rest

unfoldable pub scan_review_required_tasks : Option (List TaskEntry) → Result (List String)
scan_review_required_tasks none = ok []
scan_review_required_tasks (some entries) = review_entries (sort by_entry_name entries)

-- An error is the task and the exception of its review.
pub record ArchitectResult : Type 0 where
  pub reviewed : ℕ
  pub passed : ℕ
  pub fixed : ℕ
  pub errors : List (String × Error)
  pub planned : ℕ
  pub verdicts : List ReviewVerdict

unfoldable pub count_verdict : ReviewVerdict → Decision → ArchitectResult → ArchitectResult
count_verdict v pass r = record r {
  reviewed = suc r.reviewed;
  verdicts = r.verdicts ++ v ∷ [];
  passed = suc r.passed;
}
count_verdict v fix r = record r {
  reviewed = suc r.reviewed;
  verdicts = r.verdicts ++ v ∷ [];
  fixed = suc r.fixed;
}

-- The loop over the tasks that were scanned; `review` is `review_task` of the task's name.
module _ (review : String → Desk → Answer) where
  unfoldable pub after_review :
      String
      → ArchitectResult
      → (ArchitectResult → Desk → ArchitectResult × Desk)
      → Answer
      → ArchitectResult × Desk
  after_review task_id r rest (raise e, w) =
      rest (record r { errors = r.errors ++ (task_id, e) ∷ [] }) w
  after_review task_id r rest (ok v, w) = rest (count_verdict v v.decision r) w

  unfoldable pub review_all : List String → ArchitectResult → Desk → ArchitectResult × Desk
  review_all [] r w = (r, w)
  review_all (task_id ∷ ids) r w = after_review task_id r (review_all ids) (review task_id w)
