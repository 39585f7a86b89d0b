-- ===== src/Tests/Core.antt =====
-- state.json and the table of transitions of src/bridge/core/state.py on small inputs.
use codearts_bridge.Prelude.{String, ◌≡◌, refl, true, some, List, [], ◌∷◌, mem, Member}
use codearts_bridge.Core.Value.{
  ℤ, pos, add_one, Value, str, int, truthy, Doc, find, get, get_or, has, put, update, is_text,
  to_int, ◌or◌, File, content,
}
use codearts_bridge.Core.Errors.{ok}
use codearts_bridge.Core.State.{
  created, ready, queued, done, review_required, approved, auth_required, targets,
  is_valid_transition, is_terminal, normalize, get_state, set_state, read_or_empty, from_state_of,
  valid_from, with_extra, revision_of, with_revision,
}
use codearts_bridge.Core.State.Table.{Trail, stop, go, terminal_outgoing}
use codearts_bridge.Core.State.Reviewed.{created-done-Member}
use codearts_bridge.Core.State.Update.{get_state-aliases}
use codearts_bridge.Core.State.Effect.{set_state-aliases, set_state-keeps, set_state-revision}
use codearts_bridge.Core.State.History.{run, HasState, Reach, run-Reach}

abbrev task_file : File Doc
task_file = content (("state", str "READY") ∷ ("revision", int (pos 4)) ∷ ("note", str "keep") ∷ [])

abbrev task_doc : Doc
task_doc = ("state", str "READY") ∷ ("revision", int (pos 4)) ∷ ("note", str "keep") ∷ []

abbrev payload : Doc
payload = ("message", str "go") ∷ ("state", str "DONE") ∷ []

abbrev queued_doc : Doc
queued_doc =
    ("state", str "QUEUED")
    ∷ ("revision", int (pos 5))
    ∷ ("note", str "keep")
    ∷ ("status", str "QUEUED")
    ∷ ("message", str "go")
    ∷ []

program : Unit {0}
unfolding set_state get_state normalize read_or_empty from_state_of valid_from with_extra
    revision_of with_revision is_valid_transition is_terminal targets mem truthy find get get_or has
    put update is_text to_int ◌or◌ add_one
program = tt

set_state-queued : set_state task_file queued payload ≡ ok queued_doc
unfolding program
set_state-queued = refl

get_state-aliases_example :
    (get "state" queued_doc ≡ get "status" queued_doc) × (truthy (get "state" queued_doc) ≡ true)
get_state-aliases_example =
    get_state-aliases (content queued_doc) queued_doc (unfold program in refl)

set_state-aliases_example :
    (find "state" queued_doc ≡ some (str queued)) × (find "status" queued_doc ≡ some (str queued))
set_state-aliases_example = set_state-aliases task_file queued payload queued_doc set_state-queued

set_state-keeps_example : find "note" queued_doc ≡ find "note" task_doc
set_state-keeps_example =
    set_state-keeps task_file queued payload task_doc queued_doc "note" (unfold program in refl)
      set_state-queued refl refl refl (unfold program in refl)

set_state-revision_example :
    (n : ℤ) × (revision_of task_doc ≡ some n)
    × (find "revision" queued_doc ≡ some (Value.int (add_one n)))
set_state-revision_example =
    set_state-revision task_file queued payload task_doc queued_doc (unfold program in refl)
      set_state-queued (unfold program in refl)

terminal_outgoing_example : ◌≡◌ {A = String} auth_required auth_required
terminal_outgoing_example =
    terminal_outgoing auth_required queued (unfold program in refl) (unfold program in refl)

abbrev whole_way : List String
whole_way =
    "READY" ∷ "QUEUED" ∷ "STARTING" ∷ "RUNNING" ∷ "VERIFYING" ∷ "REVIEW_REQUIRED" ∷ "APPROVED"
    ∷ "INTEGRATING" ∷ "INTEGRATED" ∷ "DONE" ∷ []

whole-Trail : Trail created whole_way done
unfolding program
whole-Trail = go refl (
    go refl
      (go refl (go refl (go refl (go refl (go refl (go refl (go refl (go refl (stop done))))))))))

created-done-Member_example : Member review_required whole_way × Member approved whole_way
created-done-Member_example = created-done-Member whole_way whole-Trail

run-Reach_example :
    (t : String) × HasState (run task_file ((queued, payload) ∷ (done, []) ∷ [])) t × Reach ready t
run-Reach_example =
    run-Reach task_file ready ((queued, payload) ∷ (done, []) ∷ [])
      (task_doc, unfold program in refl, unfold program in refl)
