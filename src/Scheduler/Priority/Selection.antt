-- ===== src/Scheduler/Priority/Selection.antt =====
-- The choice of a worker in src/bridge/scheduler/priority.py.
use codearts_bridge.Prelude.{
  ◌+◌, String, ◌≡◌, ◌≢◌, refl, inl, inr, Bool, true, false, ◌&&◌, Option, none, some, List, [], ◌∷◌,
  ◌==◌, eq_iff, if◌then◌else◌, arith, All, Some, and_true, subst,
}
use codearts_bridge.Prelude.Sort.{sort, All-sort, Some-sort}
use codearts_bridge.Scheduler.Priority.{
  Candidate, Usage, used, take_slot, is_free, if_passes, first_of, or_later, preferred, by_id,
  or_free, FloatOps, ScheduledTask, select_worker,
}

pub used-take_slot :
    (id j : String) (usage : Usage)
    → used j (take_slot id usage) ≡ used j usage + (if id == j then 1 else 0)
unfolding used take_slot
used-take_slot id j [] = ground arith
used-take_slot id j ((name, n) ∷ usage) =
    ground (arith, eq_iff name id, eq_iff name j, eq_iff id j, used-take_slot id j usage)

some-injective {ℓ} : {A : Type ℓ} {a b : A} → some a ≡ some b → a ≡ b
some-injective h = cc

module _ (P : Candidate → Type 0) where
  if_passes_holds :
      (test : Candidate → Bool) (b : Bool) (v w : Candidate) (rest : Option Candidate)
      → test v ≡ b
      → P v
      → (rest ≡ some w → P w × (test w ≡ true))
      → if_passes b v rest ≡ some w
      → P w × (test w ≡ true)
  if_passes_holds test true v w rest t h ih e =
      let same : v ≡ w = some-injective e in subst (λ x. P x × (test x ≡ true)) same (h, t)
  if_passes_holds test false v w rest t h ih e = ih e

  first_of_holds :
      (test : Candidate → Bool) (ws : List Candidate) (w : Candidate)
      → All P ws
      → first_of test ws ≡ some w
      → P w × (test w ≡ true)
  unfolding first_of
  first_of_holds test [] w h e = absurd (cc)
  first_of_holds test (v ∷ ws) w h e =
      if_passes_holds test (test v) v w (first_of test ws) refl h.0 (first_of_holds test ws w h.1) e

  preferred_holds :
      (c : String) (usage : Usage) (workers : List Candidate) (wids : List String) (w : Candidate)
      → All P workers
      → preferred c usage workers wids ≡ some w
      → P w × (is_free c usage w ≡ true)
  unfolding preferred
  preferred_holds c usage workers [] w h e = absurd (cc)
  preferred_holds c usage workers (wid ∷ wids) w h e =
      later_holds (first_of (λ v. v.id == wid && is_free c usage v) workers) _ e
        (λ f.
          let both = first_of_holds (λ v. v.id == wid && is_free c usage v) workers w h f in
          (both.0, (and_true both.1).1))
        (preferred_holds c usage workers wids w h)
    where
      later_holds :
          (o later : Option Candidate)
          → or_later o later ≡ some w
          → (o ≡ some w → P w × (is_free c usage w ≡ true))
          → (later ≡ some w → P w × (is_free c usage w ≡ true))
          → P w × (is_free c usage w ≡ true)
      later_holds none later e' now then' = then' e'
      later_holds (some v) later e' now then' = now e'

  or_free_holds :
      (c : String) (usage : Usage) (workers : List Candidate) (o : Option Candidate) (w : Candidate)
      → All P workers
      → (o ≡ some w → P w × (is_free c usage w ≡ true))
      → or_free c usage workers o ≡ some w
      → P w × (is_free c usage w ≡ true)
  unfolding or_free
  or_free_holds c usage workers (some v) w h given e = given e
  or_free_holds c usage workers none w h given e =
      first_of_holds (is_free c usage) (sort by_id workers) w (All-sort by_id P workers h) e

  -- The worker that is selected is one of the workers, and free.
  pub select_worker_holds :
      (floats : FloatOps) (t : ScheduledTask floats) (workers : List Candidate) (usage : Usage)
      (w : Candidate)
      → All P workers
      → select_worker floats t workers usage ≡ some w
      → P w × (is_free t.resource_class usage w ≡ true)
  unfolding select_worker
  select_worker_holds floats t workers usage w h e =
      or_free_holds t.resource_class usage workers _ w h
        (preferred_holds t.resource_class usage workers t.preferred_workers w h) e

-- Some worker passes a test, so the first one is found.
first_of-ne-none :
    (test : Candidate → Bool) (ws : List Candidate)
    → Some (λ w. test w ≡ true) ws
    → first_of test ws ≢ none
unfolding first_of
first_of-ne-none test [] h e = elim h [ ]
first_of-ne-none test (w ∷ ws) (inl h) e =
    let passes : if_passes true w (first_of test ws) ≡ none = rw h at e in cc
first_of-ne-none test (w ∷ ws) (inr h) e =
    first_of-ne-none test ws h (passed (test w) w (first_of test ws) e)
  where
    passed :
        (b : Bool) (v : Candidate) (rest : Option Candidate)
        → if_passes b v rest ≡ none
        → rest ≡ none
    passed true v rest p = absurd (cc)
    passed false v rest p = p

or_free-ne-none :
    (c : String) (usage : Usage) (workers : List Candidate) (o : Option Candidate)
    → Some (λ w. is_free c usage w ≡ true) workers
    → or_free c usage workers o ≢ none
unfolding or_free
or_free-ne-none c usage workers (some w) h e = absurd (cc)
or_free-ne-none c usage workers none h e =
    first_of-ne-none (is_free c usage) (sort by_id workers)
      (Some-sort by_id (λ w. is_free c usage w ≡ true) workers h) e

-- Where some worker is free for the task, one is selected.
pub select_worker-ne-none :
    (floats : FloatOps) (t : ScheduledTask floats) (workers : List Candidate) (usage : Usage)
    → Some (λ w. is_free t.resource_class usage w ≡ true) workers
    → select_worker floats t workers usage ≢ none
unfolding select_worker
select_worker-ne-none floats t workers usage h = or_free-ne-none t.resource_class usage workers _ h
