-- ===== src/Architect/Superseded.antt =====
-- A task that src/bridge/architect_loop.py supersedes does not block the task that fixes it.
use codearts_bridge.Prelude.{
  ℕ, String, ◌≡◌, refl, inl, inr, true, none, some, [], ◌∷◌, ◌==◌, eq_refl, Bool-cases, mem,
}
use codearts_bridge.Core.Value.{str, Doc, find, get, get_or, is_text, in_states, content}
use codearts_bridge.Core.Errors.{Result, ok, raise}
use codearts_bridge.Legacy.{Update, get_state, set_state}
use codearts_bridge.Legacy.Merge.{find-set_state}
use codearts_bridge.Scheduler.Dependency.{
  States, task_dir, get_task_state, no_value, dependency_done, all_done, is_dependency_ready,
}
use codearts_bridge.Tasks.{state_json, write_state}
use codearts_bridge.Architect.{
  Desk, Answer, after_write, change_state, if_due, superseded_by, supersede,
}
use codearts_bridge.Architect.Judgement.{ReviewVerdict}

task_dir-write_state :
    (task_id : String) (d : Doc) (tasks : States)
    → task_dir task_id (write_state task_id d tasks) ≡ some (content d)
unfolding task_dir write_state
task_dir-write_state task_id d [] = let e = eq_refl task_id in rw e refl
task_dir-write_state task_id d ((name, file) ∷ tasks) = elim (Bool-cases (name == task_id)) [
  | inl e ↦ let f = eq_refl task_id in rw (e, f) refl
  | inr e ↦ rw (e, e) (task_dir-write_state task_id d tasks)
]

-- The dependency on the task is satisfied.
abbrev pub Ready : String → Answer → Type 0
Ready task_id (raise e, w) = Unit
Ready task_id (ok v, w) = is_dependency_ready (task_id ∷ []) w.tasks none ≡ true

ready_lem :
    (task_id : String) (d : Doc) (tasks : States)
    → find "state" d ≡ some (str "CANCELLED")
    → is_dependency_ready (task_id ∷ []) (write_state task_id d tasks) none ≡ true
unfolding is_dependency_ready all_done dependency_done get_task_state no_value in_states get get_or
    mem
ready_lem task_id d tasks h = rw (task_dir-write_state task_id d tasks, h) refl

cancelled_lem :
    (now_iso task_id : String) (u : Update) (v : ReviewVerdict) (w : Desk) (o : Result Doc)
    → set_state task_id now_iso (state_json task_id w.tasks) "CANCELLED" u ≡ o
    → Ready task_id (after_write task_id w (λ w'. (ok v, w')) o)
cancelled_lem now_iso task_id u v w (raise e) h = tt
cancelled_lem now_iso task_id u v w (ok d) h =
    ready_lem task_id d w.tasks (find-set_state task_id now_iso _ "CANCELLED" u d h)

-- Where a task whose review is due is superseded and nothing raises, the dependency of the fix task
-- on it is satisfied.
pub supersede-Ready :
    (now_iso : ℕ → String) (task_id fix_task_id : String) (v : ReviewVerdict) (w : Desk)
    (state : Doc)
    → get_state (state_json task_id w.tasks) ≡ ok state
    → is_text (get_or "state" (str "") state) "REVIEW_REQUIRED" ≡ true
    → Ready task_id (supersede now_iso task_id fix_task_id v w)
unfolding supersede if_due change_state
supersede-Ready now_iso task_id fix_task_id v w state read due =
    rw (read, due)
      (cancelled_lem (now_iso 3) task_id (superseded_by now_iso fix_task_id)
        (record v { fix_task_id = some fix_task_id }) w _ refl)
