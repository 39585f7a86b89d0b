-- ===== src/Scheduler/Planner/Eligible.antt =====
-- Which workers the planner of src/bridge/scheduler/planner.py considers for a task.
use codearts_bridge.Prelude.{
  ◌≡◌, refl, subst, inl, inr, ◌⊎◌, true, false, not, Option, none, some, List, [], ◌∷◌, ◌++◌, mem,
  keep, all, String, All, All-mono, All-keep_test, Listed, Bool-cases, arith,
}
use codearts_bridge.Core.Models.{
  Worker, Task, Project, Assignment, Registry, get_project, supports_role, supports_all_skills,
}
use codearts_bridge.Scheduler.Matcher.{
  given, is_id, is_candidate, skills_match, role_matches, filter_candidates, project_matches,
  filter_project_candidates,
}
use codearts_bridge.Scheduler.Capacity.{has_capacity, filter_with_capacity}
use codearts_bridge.Scheduler.Affinity.{get_excluded_workers, apply_anti_affinity}
use codearts_bridge.Scheduler.Planner.{
  Reason, Choice, skip, choose, ◌⇒◌, or_skip, explicit_stage, placed_stage, project_stage,
  candidates_for,
}

-- With a registry, the project of the task is registered and enabled, and the worker fits it.
abbrev pub Placed : Option Registry → Task → Worker → Type 0
Placed none task w = Unit
Placed (some registry) task w =
    (p : Project) × (get_project registry task.project_id ≡ some p) × (project_matches w p ≡ true)

-- What a worker has to meet to be given a task, where `load` are the assignments so far.
pub record Eligible (workers : List Worker) (existing load : List Assignment)
    (registry : Option Registry) (task : Task) (w : Worker) : Type 0 where
  pub listed : Listed workers w
  pub enabled : w.enabled ≡ true
  pub has_role : mem task.role w.roles ≡ true
  pub has_skills : all (λ skill. mem skill w.skills) task.required_skills ≡ true
  pub asked_for : (given task.worker_id ≡ false) ⊎ (is_id task.worker_id w.id ≡ true)
  pub placed : Placed registry task w
  pub has_room : has_capacity w load ≡ true
  pub not_excluded : mem w.id (get_excluded_workers task existing) ≡ false

skills_match-all :
    (w : Worker) (skills : List String)
    → skills_match w skills ≡ true
    → all (λ skill. mem skill w.skills) skills ≡ true
unfolding skills_match supports_all_skills
skills_match-all w [] h = refl
skills_match-all w (s ∷ ss) h = h

is_candidate-parts :
    (w : Worker) (task : Task)
    → is_candidate w task ≡ true
    → (w.enabled ≡ true)
      × (mem task.role w.roles ≡ true)
      × (all (λ skill. mem skill w.skills) task.required_skills ≡ true)
unfolding is_candidate role_matches supports_role
is_candidate-parts w task h =
    (ground arith, ground arith, skills_match-all w task.required_skills (ground arith))

-- What holds of the workers that a stage goes on with.
abbrev OnChoice : (Worker → Type 0) → Choice (List Worker) → Type 0
OnChoice P (skip r) = Unit
OnChoice P (choose ws) = All P ws

OnChoice-bind :
    (P Q : Worker → Type 0) (m : Choice (List Worker)) (f : List Worker → Choice (List Worker))
    → OnChoice P m
    → ((ws : List Worker) → All P ws → OnChoice Q (f ws))
    → OnChoice Q (m ⇒ f)
OnChoice-bind P Q (skip r) f h k = tt
OnChoice-bind P Q (choose ws) f h k = k ws h

OnChoice-or_skip :
    (P : Worker → Type 0) (r : Reason) (ws : List Worker) → All P ws → OnChoice P (or_skip r ws)
unfolding or_skip
OnChoice-or_skip P r [] h = tt
OnChoice-or_skip P r (w ∷ ws) h = h

Listed-All : (ws : List Worker) → All (Listed ws) ws
Listed-All [] = tt
Listed-All (w ∷ ws) =
    (inl refl, All-mono (Listed ws) (Listed (w ∷ ws)) (λ v h. inr h) ws (Listed-All ws))

explicit_stage-OnChoice :
    (P : Worker → Type 0) (task : Task) (ws : List Worker)
    → All P ws
    → OnChoice
        (λ w. P w × ((given task.worker_id ≡ false) ⊎ (is_id task.worker_id w.id ≡ true)))
        (explicit_stage task ws)
unfolding explicit_stage
explicit_stage-OnChoice P task ws h = elim (Bool-cases (given task.worker_id)) [
  | inl e ↦ rw e (
      OnChoice-or_skip _ _ _ (
        All-mono _ _ (λ w (p, t). (p, inr t)) (keep (λ w. is_id task.worker_id w.id) ws)
          (All-keep_test P (λ w. is_id task.worker_id w.id) ws h)))
  | inr e ↦ rw e (All-mono _ _ (λ w p. (p, inl refl)) ws h)
]

placed_stage-OnChoice :
    (P : Worker → Type 0) (task : Task) (ws : List Worker) (registry : Registry)
    (o : Option Project)
    → get_project registry task.project_id ≡ o
    → All P ws
    → OnChoice (λ w. P w × Placed (some registry) task w) (placed_stage task ws o)
unfolding placed_stage filter_project_candidates
placed_stage-OnChoice P task ws registry none e h = tt
placed_stage-OnChoice P task ws registry (some p) e h = OnChoice-or_skip _ _ _ (
    All-mono _ _ (λ w (q, t). (q, (p, e, t))) (keep (λ w. project_matches w p) ws)
      (All-keep_test P (λ w. project_matches w p) ws h))

project_stage-OnChoice :
    (P : Worker → Type 0) (registry : Option Registry) (task : Task) (ws : List Worker)
    → All P ws
    → OnChoice (λ w. P w × Placed registry task w) (project_stage registry task ws)
unfolding project_stage
project_stage-OnChoice P none task ws h = All-mono _ _ (λ w p. (p, tt)) ws h
project_stage-OnChoice P (some registry) task ws h =
    placed_stage-OnChoice P task ws registry (get_project registry task.project_id) refl h

module _ (workers : List Worker) (existing : List Assignment) (registry : Option Registry) where
  candidates_for-OnChoice :
      (task : Task) (planned : List Assignment)
      → OnChoice
          (Eligible workers existing (existing ++ planned) registry task)
          (candidates_for workers existing registry task planned)
  unfolding candidates_for filter_candidates filter_with_capacity apply_anti_affinity
  candidates_for-OnChoice task planned =
      let listed : All (Listed workers) workers = Listed-All workers in
      OnChoice-bind P₄ _ _ _
        (OnChoice-bind P₃ _ _ _
          (OnChoice-bind P₂ _ _ _
            (OnChoice-bind P₁ _ _ _
              (OnChoice-or_skip P₁ _ _ (All-keep_test (Listed workers) _ workers listed))
              (explicit_stage-OnChoice P₁ task))
            (project_stage-OnChoice P₂ registry task))
          (λ cs h. OnChoice-or_skip P₄ _ _ (All-keep_test P₃ _ cs h)))
        (λ cs h.
          OnChoice-or_skip _ _ _ (All-mono _ _ eligible (keep _ cs) (All-keep_test P₄ _ cs h)))
    where
      P₁ : Worker → Type 0
      P₁ w = Listed workers w × (is_candidate w task ≡ true)

      P₂ : Worker → Type 0
      P₂ w = P₁ w × ((given task.worker_id ≡ false) ⊎ (is_id task.worker_id w.id ≡ true))

      P₃ : Worker → Type 0
      P₃ w = P₂ w × Placed registry task w

      P₄ : Worker → Type 0
      P₄ w = P₃ w × (has_capacity w (existing ++ planned) ≡ true)

      eligible :
          (w : Worker)
          → P₄ w × (not (mem w.id (get_excluded_workers task existing)) ≡ true)
          → Eligible workers existing (existing ++ planned) registry task w
      eligible w (((((l, c), e), p), r), n) =
          let (en, ro, sk) = is_candidate-parts w task c in
          record {
            listed = l;
            enabled = en;
            has_role = ro;
            has_skills = sk;
            asked_for = e;
            placed = p;
            has_room = r;
            not_excluded = ground arith;
          }

  -- Every candidate for a task meets what the planner asks of a worker.
  pub candidates_for-Eligible :
      (task : Task) (planned : List Assignment) (cs : List Worker)
      → candidates_for workers existing registry task planned ≡ choose cs
      → All (Eligible workers existing (existing ++ planned) registry task) cs
  candidates_for-Eligible task planned cs e =
      subst (OnChoice (Eligible workers existing (existing ++ planned) registry task)) e
        (candidates_for-OnChoice task planned)
