-- ===== src/Scheduler/Finish.antt =====
-- `finish_assignment` of src/bridge/scheduler/planner.py: closing the assignments of a task. The
-- directory of the assignments is the list of its files in the order in which they are visited.
-- An id in a file that is not a text counts as an empty one.
use codearts_bridge.Prelude.{
  ℕ, suc, ◌≡◌, ◌⊎◌, inl, inr, refl, String, Bool, true, false, not, ◌||◌, Option, none, some, List,
  [], ◌∷◌, ◌==◌, if◌then◌else◌, Bool-cases, All, arith, ◌∙◌,
}
use codearts_bridge.Core.Value.{
  Doc, File, missing, broken, content, get, get_or, find, find-put, put, str, truthy, is_text,
}
use codearts_bridge.Core.Errors.{Result, ok, raise, json_decode, ◌>>=◌, >>=-eq-ok}
use codearts_bridge.Core.State.{text_of}
use codearts_bridge.Scheduler.Lease.{Leases, release_lease, lease_file}
use codearts_bridge.Scheduler.Lease.Laws.{lease_file-release_lease}

abbrev pub Files : Type 0
Files = List (String × File Doc)

-- The result of a loop: the count or the exception, and what is on disk then.
pub record Outcome : Type 0 where
  pub count : Result ℕ
  pub files : Files
  pub leases : Leases

abbrev pub with_file : String → File Doc → Outcome → Outcome
with_file name file o = record o { files = (name, file) ∷ o.files }

abbrev pub counted : Outcome → Outcome
counted o = record o { count = o.count >>= λ n. ok (suc n) }

-- `not data`, of an object
unfoldable pub is_empty : Doc → Bool
is_empty [] = true
is_empty (entry ∷ d) = false

-- `data["finishedAt"] = finished`
unfoldable pub closed : String → Doc → Doc
closed finished d = put "finishedAt" (str finished) d

-- `if lease_id: release_lease(leases_dir, lease_id)`
unfoldable pub release_of : Doc → Leases → Leases
release_of d leases =
    if truthy (get "leaseId" d)
    then (release_lease (text_of (get "leaseId" d)) leases).1
    else leases

unfoldable pub passes_over : String → Doc → Bool
passes_over task_id d =
    is_empty d || not (is_text (get "taskId" d) task_id) || truthy (get "finishedAt" d)

-- The body of the loop for an object, and whether it is passed over.
unfoldable pub finish_file : String → String → Doc → Leases → (Leases → Outcome) → Bool → Outcome
finish_file finished name d leases rest true = with_file name (content d) (rest leases)
finish_file finished name d leases rest false =
    counted (with_file name (content (closed finished d)) (rest (release_of d leases)))

unfoldable pub finish_files : String → String → Files → Leases → Outcome
finish_files finished task_id [] leases = record { count = ok 0; files = []; leases = leases }
finish_files finished task_id ((name, missing) ∷ dir) leases =
    with_file name missing (finish_files finished task_id dir leases)
finish_files finished task_id ((name, broken) ∷ dir) leases = record {
  count = raise json_decode;
  files = (name, broken) ∷ dir;
  leases = leases;
}
finish_files finished task_id ((name, content d) ∷ dir) leases =
    finish_file finished name d leases (finish_files finished task_id dir) (passes_over task_id d)

-- `finished_at or _now_iso()`
unfoldable pub finished_or_now : Option String → String → String
finished_or_now none now_iso = now_iso
finished_or_now (some finished) now_iso = if finished == "" then now_iso else finished

unfoldable pub finish_assignment : Files → Leases → String → Option String → String → Outcome
finish_assignment dir leases task_id finished_at now_iso =
    finish_files (finished_or_now finished_at now_iso) task_id dir leases

-- What holds of each file of an object.
abbrev pub Holds : (Doc → Type 0) → String × File Doc → Type 0
Holds P (name, missing) = Unit
Holds P (name, broken) = Unit
Holds P (name, content d) = P d

abbrev pub Closed : String → Doc → Type 0
Closed task_id d = is_text (get "taskId" d) task_id ≡ true → truthy (get "finishedAt" d) ≡ true

pub closed-truthy :
    (finished : String) (d : Doc)
    → (finished == "") ≡ false
    → truthy (get "finishedAt" (closed finished d)) ≡ true
unfolding closed get get_or truthy
closed-truthy finished d h = rw find-put (ground arith)

passes_over-Closed : (task_id : String) (d : Doc) → passes_over task_id d ≡ true → Closed task_id d
unfolding passes_over is_empty get get_or find is_text
passes_over-Closed task_id [] h t = cc
passes_over-Closed task_id (entry ∷ d) h t = ground arith

finish_file-Closed :
    (finished task_id name : String) (d : Doc) (leases : Leases) (rest : Leases → Outcome)
    (b : Bool) {n : ℕ}
    → (finished == "") ≡ false
    → passes_over task_id d ≡ b
    → ((ls : Leases) (m : ℕ)
        → (rest ls).count ≡ ok m
        → All (Holds (Closed task_id)) (rest ls).files)
    → (finish_file finished name d leases rest b).count ≡ ok n
    → All (Holds (Closed task_id)) (finish_file finished name d leases rest b).files
unfolding finish_file
finish_file-Closed finished task_id name d leases rest true {n} f e ih h =
    (passes_over-Closed task_id d e, ih leases n h)
finish_file-Closed finished task_id name d leases rest false f e ih h =
    let (m, counts, last) = >>=-eq-ok (rest (release_of d leases)).count _ h in
    (λ of_task. closed-truthy finished d f, ih (release_of d leases) m counts)

finish_files-Closed :
    (finished task_id : String) (dir : Files) (leases : Leases) (n : ℕ)
    → (finished == "") ≡ false
    → (finish_files finished task_id dir leases).count ≡ ok n
    → All (Holds (Closed task_id)) (finish_files finished task_id dir leases).files
unfolding finish_files
finish_files-Closed finished task_id [] leases n f h = tt
finish_files-Closed finished task_id ((name, missing) ∷ dir) leases n f h =
    (tt, finish_files-Closed finished task_id dir leases n f h)
finish_files-Closed finished task_id ((name, broken) ∷ dir) leases n f h = cc
finish_files-Closed finished task_id ((name, content d) ∷ dir) leases n f h =
    finish_file-Closed finished task_id name d leases (finish_files finished task_id dir) _ f refl
      (λ ls m. finish_files-Closed finished task_id dir ls m f) h

finished_or_now-given :
    (finished_at : Option String) (now_iso : String)
    → (now_iso == "") ≡ false
    → (finished_or_now finished_at now_iso == "") ≡ false
unfolding finished_or_now
finished_or_now-given none now_iso h = h
finished_or_now-given (some finished) now_iso h = ground arith

-- Where the call returns, and the clock gives a text that is not empty, every assignment of the
-- task has a time at which it finished.
pub finish_assignment-Closed :
    (dir : Files) (leases : Leases) (task_id : String) (finished_at : Option String)
    (now_iso : String) (n : ℕ)
    → (now_iso == "") ≡ false
    → (finish_assignment dir leases task_id finished_at now_iso).count ≡ ok n
    → All (Holds (Closed task_id)) (finish_assignment dir leases task_id finished_at now_iso).files
unfolding finish_assignment
finish_assignment-Closed dir leases task_id finished_at now_iso n f h =
    finish_files-Closed _ task_id dir leases n (finished_or_now-given finished_at now_iso f) h

-- The lease files `after` a loop: each is what it was, or gone.
abbrev pub Kept : Leases → Leases → Type 0
Kept before after =
    (j : String) → (lease_file j after ≡ lease_file j before) ⊎ (lease_file j after ≡ missing)

pub Kept-trans : (a b c : Leases) → Kept a b → Kept b c → Kept a c
Kept-trans a b c h k j = elim (k j) [
  | inl e ↦ elim (h j) [ inl f ↦ inl (e ∙ f) | inr f ↦ inr (e ∙ f) ]
  | inr e ↦ inr e
]

pub release_of-Kept : (d : Doc) (leases : Leases) → Kept leases (release_of d leases)
unfolding release_of
release_of-Kept d leases j = elim (Bool-cases (truthy (get "leaseId" d))) [
  | inl e ↦ rw e (elim (Bool-cases (text_of (get "leaseId" d) == j)) [
    | inl f ↦ inr (lease_file-release_lease (text_of (get "leaseId" d)) j leases ∙ rw f)
    | inr f ↦ inl (lease_file-release_lease (text_of (get "leaseId" d)) j leases ∙ rw f)
  ])
  | inr e ↦ rw e (inl refl)
]
