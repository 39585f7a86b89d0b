-- ===== src/Scheduler/Reconcile/Repair.antt =====
-- The repair of src/bridge/scheduler/planner.py: what becomes of a task that is RUNNING when its
-- assignment is closed.
use codearts_bridge.Prelude.{
  ◌≡◌, ◌⊎◌, inl, inr, refl, sym, ◌∙◌, ap, subst, String, true, false, Option, none, some, List,
  ◌==◌, eq_iff, eq_refl, mem, Bool-cases,
}
use codearts_bridge.Core.Value.{Value, Doc, File, content, str, get, get_or, find-put, is_text}
use codearts_bridge.Core.Errors.{ok, >>=-eq-ok, ok-injective}
use codearts_bridge.Core.State.{read_or_empty}
use codearts_bridge.Scheduler.Reconcile.{
  Folder, Folders, set_folder, has_deliverables, repair_state, repaired, repair_found, repair,
}

-- With RESULT.md and TESTS.md in the outbox the state is REVIEW_REQUIRED, else FAILED.
abbrev pub IsDue : List String → String → Type 0
IsDue outbox state =
    ((mem "RESULT.md" outbox ≡ true) × (mem "TESTS.md" outbox ≡ true) × (state ≡ "REVIEW_REQUIRED"))
    ⊎ (((mem "RESULT.md" outbox ≡ false) ⊎ (mem "TESTS.md" outbox ≡ false)) × (state ≡ "FAILED"))

-- The folder is there with its outbox, and state.json has the state that is due under both keys.
abbrev pub IsRepaired : Folder → Option Folder → Type 0
IsRepaired folder o =
    (d : Doc) × (state : String) × (o ≡ some (record folder { state = content d }))
    × IsDue folder.outbox state
    × (get "state" d ≡ str state)
    × (get "status" d ≡ str state)

repair_state-IsDue : (outbox : List String) → IsDue outbox (repair_state outbox)
unfolding repair_state has_deliverables
repair_state-IsDue outbox = elim (Bool-cases (mem "RESULT.md" outbox)) [
  | inl e ↦ elim (Bool-cases (mem "TESTS.md" outbox)) [
    | inl f ↦ inl (e, f, rw (e, f) refl)
    | inr f ↦ inr (inr f, rw (e, f) refl)
  ]
  | inr e ↦ inr (inl e, rw e refl)
]

repaired-state :
    (now_iso : String) (outbox : List String) (current : Doc)
    → (get "state" (repaired now_iso outbox current) ≡ str (repair_state outbox))
      × (get "status" (repaired now_iso outbox current) ≡ str (repair_state outbox))
unfolding get get_or repaired
repaired-state now_iso outbox current = (simp find-put, simp find-put)

-- A folder as it was, or repaired.
abbrev pub Tracked : Folder → Option Folder → Type 0
Tracked folder o = (o ≡ some folder) ⊎ IsRepaired folder o

set_folder-same :
    (name : String) (folder : Folder) (tasks : Folders)
    → set_folder name folder tasks name ≡ some folder
unfolding set_folder
set_folder-same name folder tasks = simp eq_refl

set_folder-other :
    (name j : String) (folder : Folder) (tasks : Folders)
    → (name == j) ≡ false
    → set_folder name folder tasks j ≡ tasks j
unfolding set_folder
set_folder-other name j folder tasks h = rw h

-- A repair of the task whose folder is there as it was but for state.json.
pub repair_found-IsRepaired :
    (now_iso task_id : String) (folder : Folder) (file : File Doc) (tasks tasks' : Folders)
    → repair_found now_iso task_id (some (record folder { state = file })) tasks ≡ ok tasks'
    → IsRepaired folder (tasks' task_id)
unfolding repair_found
repair_found-IsRepaired now_iso task_id folder file tasks tasks' h =
    let (current, read, same) = >>=-eq-ok (read_or_empty file) _ h in
    let (state, status) = repaired-state now_iso folder.outbox current in
    (
      repaired now_iso folder.outbox current,
      repair_state folder.outbox,
      ap (λ t. t task_id) (sym (ok-injective same)) ∙ set_folder-same task_id _ tasks,
      repair_state-IsDue folder.outbox,
      state,
      status,
    )

repair_found-other :
    (now_iso name j : String) (o : Option Folder) (tasks tasks' : Folders)
    → (name == j) ≡ false
    → repair_found now_iso name o tasks ≡ ok tasks'
    → tasks' j ≡ tasks j
unfolding repair_found
repair_found-other now_iso name j none tasks tasks' other h = ap (λ t. t j) (sym (ok-injective h))
repair_found-other now_iso name j (some f) tasks tasks' other h =
    let (current, read, same) = >>=-eq-ok (read_or_empty f.state) _ h in
    ap (λ t. t j) (sym (ok-injective same)) ∙ set_folder-other name j _ tasks other

-- What the repair of a task makes of a folder that is tracked.
repair_found-Tracked :
    (now_iso task_id : String) (folder : Folder) (o : Option Folder) (tasks tasks' : Folders)
    → Tracked folder o
    → repair_found now_iso task_id o tasks ≡ ok tasks'
    → IsRepaired folder (tasks' task_id)
repair_found-Tracked now_iso task_id folder o tasks tasks' (inl e) h =
    repair_found-IsRepaired now_iso task_id folder folder.state tasks tasks'
      (subst (λ x. repair_found now_iso task_id x tasks ≡ ok tasks') e h)
repair_found-Tracked now_iso task_id folder o tasks tasks' (inr (d, state, e, due, st, status)) h =
    repair_found-IsRepaired now_iso task_id folder (content d) tasks tasks'
      (subst (λ x. repair_found now_iso task_id x tasks ≡ ok tasks') e h)

-- A repair of any task keeps what is tracked.
pub repair-keeps :
    (now_iso task_id name : String) (state : Value) (folder : Folder) (P : Option Folder → Type 0)
    (tasks tasks' : Folders)
    → ((o : Option Folder) → P o → Tracked folder o)
    → ((o : Option Folder) → IsRepaired folder o → P o)
    → repair now_iso state name tasks ≡ ok tasks'
    → P (tasks task_id)
    → P (tasks' task_id)
unfolding repair
repair-keeps now_iso task_id name state folder P tasks tasks' weaker stronger h p =
    elim (Bool-cases (is_text state "RUNNING")) [
      | inl running ↦
          let found : repair_found now_iso name (tasks name) tasks ≡ ok tasks' = rw running at h in
          elim (Bool-cases (name == task_id)) [
            | inl e ↦
                let same = (eq_iff name task_id).0 e in
                subst (λ n. P (tasks' n)) same
                  (stronger (tasks' name) (
                    repair_found-Tracked now_iso name folder (tasks name) tasks tasks'
                      (weaker (tasks name) (subst (λ n. P (tasks n)) (sym same) p)) found))
            | inr e ↦
                subst P (sym (repair_found-other now_iso name task_id _ tasks tasks' e found)) p
          ]
      | inr still ↦ subst (λ t. P (t task_id)) (ok-injective (rw still at h)) p
    ]
