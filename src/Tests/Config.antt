-- ===== src/Tests/Config.antt =====
-- Ids and settings of src/bridge/config.py, and the merge of src/bridge/state.py.
use codearts_bridge.Prelude.{String, ◌≡◌, ◌≢◌, refl, true, some, [], ◌∷◌, keep}
use codearts_bridge.Core.Value.{
  pos, add_one, null, str, int, truthy, to_int, Doc, find, get, get_or, has, put, put_if, is_null,
  update, content, is_text,
}
use codearts_bridge.Core.Errors.{ok, raise, value_error}
use codearts_bridge.Core.State.{read_or_empty}
use codearts_bridge.Config.{
  is_alphanumeric, is_id_char, is_session_char, at_end, matches_rest, is_safe_id,
  is_safe_session_id, assert_safe_id, assert_safe_session_id, item, project_config,
  default_transport, worker_config, each, merged, registry_of, projects_registry, only,
  get_project_config,
}
use codearts_bridge.Config.SafeId.{
  every, harmless, with_newline, assert_safe_id-harmless, assert_safe_id-with_newline,
}
use codearts_bridge.Config.Defaults.{get_or-merged}
use codearts_bridge.Legacy.{
  no_update, converted, next_revision, next_attempt, check_session, with_required, with_session,
  with_given, stamp, set_state,
}
use codearts_bridge.Legacy.Merge.{
  all-Apart, required_keys, session_keys, given_keys, merge_keeps, merge_sets,
}

program : Unit {0}
unfolding is_alphanumeric is_id_char is_session_char at_end matches_rest is_safe_id
    is_safe_session_id assert_safe_id assert_safe_session_id item project_config default_transport
    worker_config each merged registry_of projects_registry only get_project_config keep is_text
    truthy to_int find get get_or has put put_if is_null update add_one read_or_empty converted
    next_revision next_attempt check_session with_required with_session with_given stamp set_state
    with_newline
program = tt

abbrev id : String
id = "task-1.b"

safe_run : assert_safe_id id ≡ ok tt
unfolding program
safe_run = refl

escape_run : assert_safe_id "../b" ≡ raise (value_error "../b")
unfolding program
escape_run = refl

assert_safe_id-harmless_example : (every harmless id ≡ true) × (id ≢ "") × (id ≢ ".") × (id ≢ "..")
assert_safe_id-harmless_example = assert_safe_id-harmless id safe_run

assert_safe_id-with_newline_example : assert_safe_id (with_newline "t1") ≡ ok tt
assert_safe_id-with_newline_example =
    assert_safe_id-with_newline "t1" (unfold program in refl) (unfold program in refl)

abbrev defaults : Doc
defaults = ("model", str "m") ∷ []

abbrev entry : Doc
entry = ("id", str "p") ∷ []

get_or-merged_example :
    get_or "model" (str "x") (merged defaults entry)
    ≡ get_or "model" (get_or "model" (str "x") defaults) entry
get_or-merged_example =
    get_or-merged "model" (str "x") defaults entry (unfold program in (refl, tt))

abbrev old : Doc
old = ("state", str "QUEUED") ∷ ("queuedAt", str "then") ∷ ("revision", int (pos 4)) ∷ []

abbrev written : Doc
written =
    ("state", str "QUEUED")
    ∷ ("queuedAt", str "then")
    ∷ ("revision", int (pos 5))
    ∷ ("schemaVersion", int (pos 1))
    ∷ ("taskId", str "t")
    ∷ ("status", str "QUEUED")
    ∷ ("attempt", int (pos 0))
    ∷ ("updatedAt", str "now")
    ∷ ("message", null)
    ∷ ("processId", null)
    ∷ ("exitCode", null)
    ∷ []

merge_run : set_state "t" "now" (content old) "QUEUED" no_update ≡ ok written
unfolding program
merge_run = refl

merge_keeps_example : find "queuedAt" written ≡ find "queuedAt" old
merge_keeps_example =
    merge_keeps "t" "now" (content old) "QUEUED" no_update old written "queuedAt"
      (unfold program in refl) merge_run (unfold program in refl)
      (all-Apart required_keys "queuedAt" refl) (all-Apart session_keys "queuedAt" refl)
      (all-Apart given_keys "queuedAt" refl)

merge_sets_example :
    (find "status" written ≡ some (str "QUEUED"))
    × (find "state" written ≡ some (str "QUEUED"))
    × (find "revision" written ≡ some (int (pos 5)))
merge_sets_example =
    merge_sets "t" "now" (content old) "QUEUED" no_update old written (pos 5)
      (unfold program in refl) (unfold program in refl) merge_run
