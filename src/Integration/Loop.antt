-- ===== src/Integration/Loop.antt =====
-- `integrate_loop` of src/bridge/integration.py: which tasks are integrated, one after another.
use codearts_bridge.Prelude.{String, not, ◌&&◌, ◌||◌, List, [], ◌∷◌, if◌then◌else◌}
use codearts_bridge.Prelude.Sort.{sort}
use codearts_bridge.Core.Value.{is_text}
use codearts_bridge.Core.Errors.{Result, ok, raise, ◌>>=◌}
use codearts_bridge.Legacy.{get_state}
use codearts_bridge.Tasks.{TaskEntry, by_entry_name, status_of}
use codearts_bridge.Integration.{Git, IntegrationResult, Site, Answer}

unfoldable pub eligible_entries : List TaskEntry → Result (List String)
eligible_entries [] = ok []
eligible_entries (entry ∷ entries) =
    let rest = eligible_entries entries in
    if not entry.is_dir || entry.delete_requested
    then rest
    else get_state entry.state >>= λ state.
        if is_text (status_of state) "APPROVED"
        then (rest >>= λ names. ok (entry.name ∷ names))
        else rest

unfoldable pub eligible : List TaskEntry → Result (List String)
eligible entries = eligible_entries (sort by_entry_name entries)

module _ (git : Git) where
  -- One task after another; `integrate` is `integrate_task` of the task's name.
  module _ (integrate : String → Site git → Answer git) where
    unfoldable pub after_task :
        (Site git → Result (List IntegrationResult) × Site git)
        → Answer git
        → Result (List IntegrationResult) × Site git
    after_task rest (raise e, w) = (raise e, w)
    after_task rest (ok r, w) =
        let (results, w') = rest w in
        if not r.success && not r.reverted
        then (ok (r ∷ []), w)
        else (results >>= λ rs. ok (r ∷ rs), w')

    unfoldable pub integrate_all :
        List String → Site git → Result (List IntegrationResult) × Site git
    integrate_all [] w = (ok [], w)
    integrate_all (task_id ∷ ids) w = after_task (integrate_all ids) (integrate task_id w)
