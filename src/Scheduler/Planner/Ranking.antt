-- ===== src/Scheduler/Planner/Ranking.antt =====
-- The ranking of the candidates in src/bridge/scheduler/planner.py: nobody is lost, and the first has
-- the highest score.
use codearts_bridge.Prelude.{
  ◌≤◌, ◌≡◌, refl, sym, subst, inl, inr, true, false, List, [], ◌∷◌, All, All-mono, All-keep,
  All-append, All-keep_back, Bool-cases, arith,
}
use codearts_bridge.Prelude.Sort.{All-sort, All-sort_back, sort-IsSorted, IsSorted}
use codearts_bridge.Core.Errors.{ok, ok-injective}
use codearts_bridge.Core.Models.{Worker, Task}
use codearts_bridge.Scheduler.Matcher.{given, is_id, score_worker}
use codearts_bridge.Scheduler.Affinity.{apply_preferred}
use codearts_bridge.Scheduler.Planner.{by_score, ranked, first}

module _ {κ} (P : Worker → Type κ) (task : Task) where
  All-apply_preferred : (ws : List Worker) → All P ws → All P (apply_preferred ws task)
  unfolding apply_preferred
  All-apply_preferred ws h = elim (Bool-cases (given task.execution.preferred_worker)) [
    | inl e ↦ rw e (All-append P _ _ (All-keep P _ ws h) (All-keep P _ ws h))
    | inr e ↦ rw e h
  ]

  All-apply_preferred_back : (ws : List Worker) → All P (apply_preferred ws task) → All P ws
  unfolding apply_preferred
  All-apply_preferred_back ws h = elim (Bool-cases (given task.execution.preferred_worker)) [
    | inl e ↦ All-keep_back P (λ w. is_id task.execution.preferred_worker w.id) ws (rw e at h)
    | inr e ↦ rw e at h
  ]

  pub All-ranked : (ws : List Worker) → All P ws → All P (ranked task ws)
  unfolding ranked
  All-ranked ws h = All-sort (by_score task) P _ (All-apply_preferred ws h)

  pub All-ranked_back : (ws : List Worker) → All P (ranked task ws) → All P ws
  unfolding ranked
  All-ranked_back ws h = All-apply_preferred_back ws (All-sort_back (by_score task) P _ h)

  first-All : (ws : List Worker) (w : Worker) → first ws ≡ ok w → All P ws → P w
  unfolding first
  first-All [] w e h = cc
  first-All (v ∷ ws) w e h = subst P (ok-injective e) h.0

  -- Whoever is chosen is one of the candidates.
  pub first-ranked :
      (ws : List Worker) (w : Worker) → first (ranked task ws) ≡ ok w → All P ws → P w
  first-ranked ws w e h = first-All (ranked task ws) w e (All-ranked ws h)

module _ (task : Task) where
  by_score-total : (v w : Worker) → by_score task v w ≡ false → by_score task w v ≡ true
  unfolding by_score
  by_score-total v w h = ground arith

  by_score-trans :
      (u v w : Worker)
      → by_score task u v ≡ true
      → by_score task v w ≡ true
      → by_score task u w ≡ true
  unfolding by_score
  by_score-trans u v w h k = ground arith

  ranked-IsSorted :
      (ws : List Worker) → IsSorted (by_score task) by_score-total by_score-trans (ranked task ws)
  unfolding ranked
  ranked-IsSorted ws = sort-IsSorted (by_score task) by_score-total by_score-trans _

  first-best :
      (ws : List Worker) (w : Worker)
      → first ws ≡ ok w
      → IsSorted (by_score task) by_score-total by_score-trans ws
      → All (λ v. score_worker v task ≤ score_worker w task) ws
  unfolding first by_score
  first-best [] w e s = tt
  first-best (v ∷ ws) w e s =
      subst (λ x. All (λ v. score_worker v task ≤ score_worker x task) (v ∷ ws)) (ok-injective e)
        (omega arith, All-mono _ _ (λ u h. ground arith) ws s.0)

  -- Where a worker is chosen from the candidates of a task, no candidate has a higher score.
  pub first-ranked_best :
      (ws : List Worker) (w : Worker)
      → first (ranked task ws) ≡ ok w
      → All (λ v. score_worker v task ≤ score_worker w task) ws
  first-ranked_best ws w e =
      All-ranked_back _ task ws (first-best (ranked task ws) w e (ranked-IsSorted ws))

  first_cases : (ws : List Worker) → (ws ≡ [] → ⊥) → (w : Worker) × (first ws ≡ ok w)
  unfolding first
  first_cases [] h = absurd (h refl)
  first_cases (w ∷ ws) h = (w, refl)

  -- Where there is a candidate, the choice of the first does not fail.
  pub first-ranked_total :
      (v : Worker) (ws : List Worker) → (w : Worker) × (first (ranked task (v ∷ ws)) ≡ ok w)
  first-ranked_total v ws =
      first_cases (ranked task (v ∷ ws))
        (λ e. (All-ranked_back (λ _. ⊥) task (v ∷ ws) (subst (All (λ _. ⊥)) (sym e) tt)).0)
