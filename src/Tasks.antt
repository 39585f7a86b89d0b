-- ===== src/Tasks.antt =====
-- The directory tasks/ as the loops over it read it: its entries, the status of a state.json and its
-- replacement (src/bridge/auto_dispatch.py, pipeline.py, integration.py, architect_loop.py).
use Prim.Native.String.{compare}
use Prim.Native.String as Text
use Prim.Native.Nat.{Ordering}
use codearts_bridge.Prelude.{String, Bool, true, false, [], ◌∷◌, ◌==◌, if◌then◌else◌}
use codearts_bridge.Core.Value.{Value, str, ◌or◌, Doc, get, get_or, File, missing, content}
use codearts_bridge.Core.Json.{Members}
use codearts_bridge.Scheduler.Dependency.{States}

-- An entry of tasks/: its marker .delete-requested, state.json and META.json.
pub record TaskEntry : Type 0 where
  pub name : String
  pub is_dir : Bool
  pub delete_requested : Bool
  pub state : File Doc
  pub meta : File Members

unfoldable pub by_entry_name : TaskEntry → TaskEntry → Bool
by_entry_name a b = elim (compare a.name b.name) [ Ordering.gt ↦ false | _ ↦ true ]

abbrev pub joined : String → String → String
joined s t = Text.◌++◌ s t

-- `state.get("status") or state.get("state", "")`
unfoldable pub status_of : Doc → Value
status_of d = ◌or◌ (get "status" d) (get_or "state" (str "") d)

unfoldable pub state_json : String → States → File Doc
state_json task_id [] = missing
state_json task_id ((name, file) ∷ dir) = if name == task_id then file else state_json task_id dir

unfoldable pub write_state : String → Doc → States → States
write_state task_id d [] = (task_id, content d) ∷ []
write_state task_id d ((name, file) ∷ dir) =
    if name == task_id then (task_id, content d) ∷ dir else (name, file) ∷ write_state task_id d dir
