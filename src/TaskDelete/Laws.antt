-- ===== src/TaskDelete/Laws.antt =====
-- What a deletion of src/bridge/task_delete.py may remove.
use codearts_bridge.Prelude.{
  String, ◌≡◌, refl, sym, ◌∙◌, ap, subst, inl, inr, Bool, true, false, Option, none, some, List, [],
  ◌∷◌, ◌==◌, eq_iff, eq_refl, arith, if◌then◌else◌, Bool-cases,
}
use codearts_bridge.Core.Errors.{Result, ok, raise, ok-injective, ◌>>=◌, >>=-eq-ok}
use codearts_bridge.TaskDelete.{
  TaskDir, Root, find_task, is_dir_active, is_task_active, touch_marker, remove_task,
  remove_assignment, rmtree, remove_if, finalize_dir, finalize_found, is_found_active,
  finalize_task_delete_if_safe, deleted, pending, answer_of, finish_request, request_marked,
  request_found, request_task_delete,
}

find_task-remove_task :
    (k j : String) (ts : List TaskDir)
    → (k == j) ≡ false
    → find_task j (remove_task k ts) ≡ find_task j ts
unfolding find_task remove_task
find_task-remove_task k j [] h = refl
find_task-remove_task k j (t ∷ ts) h =
    ground (arith, eq_iff k j, eq_iff t.name k, eq_iff t.name j, find_task-remove_task k j ts)

mark : TaskDir → TaskDir
mark t = record t { delete_requested = true }

mark_if : Bool → Option TaskDir → Option TaskDir
unfolding mark
mark_if b none = none
mark_if b (some t) = some (if b then mark t else t)

find_task-touch_marker :
    (k j : String) (ts : List TaskDir)
    → find_task j (touch_marker k ts) ≡ mark_if (k == j) (find_task j ts)
unfolding find_task touch_marker mark_if
find_task-touch_marker k j [] = refl
find_task-touch_marker k j (t ∷ ts) =
    ground (arith, eq_iff k j, eq_iff t.name k, eq_iff t.name j, find_task-touch_marker k j ts)

module _ (rmtree_task rmtree_assignment : String → Bool) where
  -- What a removal shows: the task was there, marked and not active, and its directory is removed.
  pub record Removed (root : Root) (task_id : String) (root' : Root) : Type 0 where
    pub task : TaskDir
    pub found : find_task task_id root.tasks ≡ some task
    pub marked : task.delete_requested ≡ true
    pub inactive : is_task_active root task_id ≡ ok false
    pub gone : root'.tasks ≡ remove_task task_id root.tasks

  rmtree-true :
      (root : Root) (task_id : String) (root' : Root)
      → ◌≡◌ {A = Result (Bool × Root)}
          (ok (rmtree rmtree_task rmtree_assignment root task_id))
          (ok (true, root'))
      → root'.tasks ≡ remove_task task_id root.tasks
  unfolding rmtree
  rmtree-true root task_id root' h = elim (Bool-cases (rmtree_task task_id)) [
    | inl e ↦ sym (ap (λ x. x.1.tasks) (ok-injective (rw e at h)))
    | inr e ↦ absurd (ground arith)
  ]

  remove_if-true :
      (root : Root) (task_id : String) (active : Bool) (root' : Root)
      → ◌≡◌ {A = Result (Bool × Root)}
          (ok (remove_if rmtree_task rmtree_assignment root task_id active))
          (ok (true, root'))
      → (active ≡ false) × (root'.tasks ≡ remove_task task_id root.tasks)
  unfolding remove_if
  remove_if-true root task_id true root' h = absurd (ground arith)
  remove_if-true root task_id false root' h = (refl, rmtree-true root task_id root' h)

  finalize_dir-true :
      (root : Root) (task_id : String) (t : TaskDir) (root' : Root)
      → finalize_dir rmtree_task rmtree_assignment root task_id t ≡ ok (true, root')
      → (t.delete_requested ≡ true)
        × (is_dir_active t root.assignments ≡ ok false)
        × (root'.tasks ≡ remove_task task_id root.tasks)
  unfolding finalize_dir is_dir_active
  finalize_dir-true root task_id t root' h = elim (Bool-cases t.delete_requested) [
    | inr e ↦ absurd (ground arith)
    | inl e ↦
        let (active, answered, rest) = >>=-eq-ok (is_dir_active t root.assignments) _ (rw e at h) in
        let (inactive, gone) = remove_if-true root task_id active root' rest in
        (e, rw inactive at answered, gone)
  ]

  finalize_found-Removed :
      (root : Root) (task_id : String) (root' : Root) (o : Option TaskDir)
      → find_task task_id root.tasks ≡ o
      → finalize_found rmtree_task rmtree_assignment root task_id o ≡ ok (true, root')
      → Removed root task_id root'
  unfolding finalize_found is_task_active is_found_active
  finalize_found-Removed root task_id root' none e h = absurd (ground arith)
  finalize_found-Removed root task_id root' (some t) e h =
      let (m, i, g) = finalize_dir-true root task_id t root' h in
      record {
        task = t;
        found = e;
        marked = m;
        inactive = ap (λ o. is_found_active o root.assignments) e ∙ i;
        gone = g;
      }

  -- Where the call answers that it removed a task, the task had its marker and was not active, and
  -- what is left is the list without its entry.
  pub finalize-Removed :
      (root : Root) (task_id : String) (root' : Root)
      → finalize_task_delete_if_safe rmtree_task rmtree_assignment root task_id ≡ ok (true, root')
      → Removed root task_id root'
  unfolding finalize_task_delete_if_safe
  finalize-Removed root task_id root' h = finalize_found-Removed root task_id root' _ refl h

  -- Whatever the call does, the records of the other tasks stay as they are.
  tasks-rmtree :
      (root : Root) (k j : String)
      → (k == j) ≡ false
      → find_task j (rmtree rmtree_task rmtree_assignment root k).1.tasks ≡ find_task j root.tasks
  unfolding rmtree
  tasks-rmtree root k j h = elim (Bool-cases (rmtree_task k)) [
    | inl e ↦ rw e (find_task-remove_task k j root.tasks h)
    | inr e ↦ rw e
  ]

  Others : (root : Root) (k j : String) → Result (Bool × Root) → Type 0
  Others root k j (raise e) = Unit
  Others root k j (ok (removed, root')) = find_task j root'.tasks ≡ find_task j root.tasks

  remove_if-Others :
      (root : Root) (k j : String) (active : Bool)
      → (k == j) ≡ false
      → find_task j (remove_if rmtree_task rmtree_assignment root k active).1.tasks
        ≡ find_task j root.tasks
  unfolding remove_if
  remove_if-Others root k j true h = refl
  remove_if-Others root k j false h = tasks-rmtree root k j h

  Others-bind :
      (root : Root) (k j : String) (r : Result Bool)
      → (k == j) ≡ false
      → Others root k j (r >>= λ active. ok (remove_if rmtree_task rmtree_assignment root k active))
  unfolding Others
  Others-bind root k j (raise e) h = tt
  Others-bind root k j (ok active) h = remove_if-Others root k j active h

  finalize_dir-Others :
      (root : Root) (k j : String) (t : TaskDir)
      → (k == j) ≡ false
      → Others root k j (finalize_dir rmtree_task rmtree_assignment root k t)
  unfolding finalize_dir is_dir_active
  finalize_dir-Others root k j t h = elim (Bool-cases t.delete_requested) [
    | inl e ↦ rw e (Others-bind root k j (is_dir_active t root.assignments) h)
    | inr e ↦ rw e (unfold Others in refl)
  ]

  finalize_found-Others :
      (root : Root) (k j : String) (o : Option TaskDir)
      → (k == j) ≡ false
      → Others root k j (finalize_found rmtree_task rmtree_assignment root k o)
  unfolding finalize_found
  finalize_found-Others root k j none h = unfold Others in refl
  finalize_found-Others root k j (some t) h = finalize_dir-Others root k j t h

  -- Whatever the call answers, the record of every other task stays as it was.
  pub finalize-keeps :
      (root : Root) (k j : String) (removed : Bool) (root' : Root)
      → finalize_task_delete_if_safe rmtree_task rmtree_assignment root k ≡ ok (removed, root')
      → (k == j) ≡ false
      → find_task j root'.tasks ≡ find_task j root.tasks
  unfolding finalize_task_delete_if_safe Others
  finalize-keeps root k j removed root' h other =
      let kept = finalize_found-Others root k j (find_task k root.tasks) other in
      subst (Others root k j) h kept

  -- A request for an active task only leaves the marker: the answer is pending and nothing else
  -- changes.
  pub request-active :
      (root : Root) (task_id : String) (t : TaskDir)
      → find_task task_id root.tasks ≡ some t
      → is_task_active (record root { tasks = touch_marker task_id root.tasks }) task_id ≡ ok true
      → request_task_delete rmtree_task rmtree_assignment root task_id
        ≡ (ok pending, record root { tasks = touch_marker task_id root.tasks })
  unfolding request_task_delete request_found request_marked
  request-active root task_id t found active = rw (found, active)

  finalize_found-inactive :
      (root : Root) (task_id : String) (t : TaskDir)
      → t.delete_requested ≡ true
      → is_dir_active t root.assignments ≡ ok false
      → rmtree_task task_id ≡ true
      → finalize_found rmtree_task rmtree_assignment root task_id (some t)
        ≡ ok (
          true,
          record {
            tasks = remove_task task_id root.tasks;
            assignments =
                if rmtree_assignment task_id
                then remove_assignment task_id root.assignments
                else root.assignments;
          },
        )
  unfolding finalize_found finalize_dir remove_if rmtree
  finalize_found-inactive root task_id t m i r = simp (m, i, r)

  -- A request for a task that is not active, and whose directory can be removed, deletes it.
  pub request-inactive :
      (root : Root) (task_id : String) (t : TaskDir)
      → find_task task_id root.tasks ≡ some t
      → is_task_active (record root { tasks = touch_marker task_id root.tasks }) task_id ≡ ok false
      → rmtree_task task_id ≡ true
      → ((request_task_delete rmtree_task rmtree_assignment root task_id).0 ≡ ok deleted)
        × ((request_task_delete rmtree_task rmtree_assignment root task_id).1.tasks
            ≡ remove_task task_id (touch_marker task_id root.tasks))
  unfolding request_task_delete request_found request_marked finalize_task_delete_if_safe
      finish_request answer_of is_task_active is_found_active mark mark_if
  request-inactive root task_id t found inactive removable =
      let marked : Root = record root { tasks = touch_marker task_id root.tasks } in
      let here : find_task task_id marked.tasks ≡ some (mark t) =
        find_task-touch_marker task_id task_id root.tasks ∙ rw (found, eq_refl) in
      let idle : is_dir_active (mark t) marked.assignments ≡ ok false =
        sym (ap (λ o. is_found_active o marked.assignments) here) ∙ inactive in
      let removal =
        ap (finalize_found rmtree_task rmtree_assignment marked task_id) here
        ∙ finalize_found-inactive marked task_id (mark t) refl idle removable in
      rw (found, inactive, removal) (refl, refl)
