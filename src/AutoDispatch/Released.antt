-- ===== src/AutoDispatch/Released.antt =====
-- The leases that src/bridge/auto_dispatch.py leaves behind.
use codearts_bridge.Prelude.{
  ℕ, suc, ◌≡◌, refl, String, ◌⊎◌, inl, inr, Option, none, some, List, [], ◌∷◌, ◌==◌, if◌then◌else◌,
  Bool-cases, All, Some, Some-append-left, Some-append-right, eq_refl,
}
use codearts_bridge.Core.Value.{File, missing}
use codearts_bridge.Core.Models.{Assignment, Lease}
use codearts_bridge.Scheduler.Lease.{Leases, lease_file}
use codearts_bridge.Scheduler.Lease.Laws.{lease_file-release_lease}
use codearts_bridge.AutoDispatch.{
  AutoDispatchResult, World, release_leases, released, entry_of, with_entry, preview, dispatch_one,
  dispatch_all,
}
use codearts_bridge.AutoDispatch.Outcomes.{OnOk, OnOk-both, OnOk-next, dispatch_one-OnOk}

-- The lease file of an assignment that names one.
abbrev pub lease_of : Option String → Leases → File Lease
lease_of none leases = missing
lease_of (some lease_id) leases = if lease_id == "" then missing else lease_file lease_id leases

-- A release leaves no file of the assignment's.
lease_of-release_leases :
    (o : Option String) (leases : Leases) → lease_of o (release_leases o leases) ≡ missing
unfolding release_leases
lease_of-release_leases none leases = refl
lease_of-release_leases (some l) leases = elim (Bool-cases (l == "")) [
  | inl e ↦ rw e refl
  | inr e ↦ rw (e, lease_file-release_lease l l leases, eq_refl l) refl
]

-- A file that is gone stays gone.
lease_file_gone :
    (j : String) (o : Option String) (leases : Leases)
    → lease_file j leases ≡ missing
    → lease_file j (release_leases o leases) ≡ missing
unfolding release_leases
lease_file_gone j none leases h = h
lease_file_gone j (some l) leases h = elim (Bool-cases (l == "")) [
  | inl e ↦ rw e h
  | inr e ↦
      rw (e, lease_file-release_lease l j leases)
        (elim (Bool-cases (l == j)) [ inl f ↦ rw f refl | inr f ↦ rw f h ])
]

lease_of_gone :
    (o p : Option String) (leases : Leases)
    → lease_of o leases ≡ missing
    → lease_of o (release_leases p leases) ≡ missing
lease_of_gone none p leases h = refl
lease_of_gone (some l) p leases h = elim (Bool-cases (l == "")) [
  | inl e ↦ rw e refl
  | inr e ↦
      let file : lease_file l leases ≡ missing = rw e at h in rw e (lease_file_gone l p leases file)
]

preview_gone :
    (o : Option String) (plan : List Assignment) (r : AutoDispatchResult) (w : World)
    → lease_of o w.leases ≡ missing
    → lease_of o (preview plan r w).1.leases ≡ missing
unfolding preview
preview_gone o [] r w h = h
preview_gone o (a ∷ plan) r w h =
    preview_gone o plan (with_entry a r) (released a w) (lease_of_gone o a.lease_id w.leases h)

-- A dry run starts nothing and writes nothing, and no lease of a planned assignment is left.
pub preview-releases :
    (plan : List Assignment) (r : AutoDispatchResult) (w : World)
    → ((preview plan r w).0.dispatched ≡ r.dispatched)
      × ((preview plan r w).1.tasks ≡ w.tasks)
      × ((preview plan r w).1.saved ≡ w.saved)
      × All (λ a. lease_of a.lease_id (preview plan r w).1.leases ≡ missing) plan
unfolding preview
preview-releases [] r w = (refl, refl, refl, tt)
preview-releases (a ∷ plan) r w =
    let ih = preview-releases plan (with_entry a r) (released a w) in
    (
      ih.0,
      ih.1,
      ih.2,
      (
        preview_gone a.lease_id plan (with_entry a r) (released a w)
            (lease_of-release_leases a.lease_id w.leases),
        ih.3,
      ),
    )

-- The assignment is reported as started, or has no lease file.
abbrev pub Placed : Assignment → AutoDispatchResult → World → Type 0
Placed a r w = Some (λ e. entry_of a ≡ e) r.assignments ⊎ (lease_of a.lease_id w.leases ≡ missing)

module _ (spawn : Assignment → Option String) (queued_at reverted_at : ℕ → String) where
  dispatch_one-Placed :
      (i : ℕ) (a : Assignment) (r : AutoDispatchResult) (w : World)
      → OnOk (Placed a) (dispatch_one spawn queued_at reverted_at i a r w)
  dispatch_one-Placed i a r w =
      dispatch_one-OnOk spawn queued_at reverted_at (Placed a) a r i w
        (λ v same. inl (Some-append-right _ r.assignments _ (inl refl)))
        (λ status. inr (lease_of-release_leases a.lease_id w.leases))
        (λ e v same. inr (lease_of-release_leases a.lease_id v.leases))

  dispatch_one_keeps :
      (i : ℕ) (b a : Assignment) (r : AutoDispatchResult) (w : World)
      → Placed b r w
      → OnOk (Placed b) (dispatch_one spawn queued_at reverted_at i a r w)
  dispatch_one_keeps i b a r w (inl h) =
      dispatch_one-OnOk spawn queued_at reverted_at (Placed b) a r i w
        (λ v same. inl (Some-append-left _ r.assignments _ h)) (λ status. inl h) (λ e v same. inl h)
  dispatch_one_keeps i b a r w (inr h) =
      dispatch_one-OnOk spawn queued_at reverted_at (Placed b) a r i w (λ v same. inr (rw same h))
        (λ status. inr (lease_of_gone b.lease_id a.lease_id w.leases h))
        (λ e v same. inr (lease_of_gone b.lease_id a.lease_id v.leases (rw same h)))

  dispatch_all_keeps :
      (i : ℕ) (b : Assignment) (plan : List Assignment) (r : AutoDispatchResult) (w : World)
      → Placed b r w
      → OnOk (Placed b) (dispatch_all spawn queued_at reverted_at i plan r w)
  unfolding dispatch_all
  dispatch_all_keeps i b [] r w h = h
  dispatch_all_keeps i b (a ∷ plan) r w h =
      OnOk-next (Placed b) (Placed b) _ _ (dispatch_one_keeps i b a r w h)
        (dispatch_all_keeps (suc i) b plan)

  -- Where no exception ends the loop, each planned assignment is reported as started, or has no
  -- lease file any more.
  pub dispatch_all-Placed :
      (i : ℕ) (plan : List Assignment) (r : AutoDispatchResult) (w : World)
      → OnOk
          (λ s v. All (λ a. Placed a s v) plan)
          (dispatch_all spawn queued_at reverted_at i plan r w)
  unfolding dispatch_all
  dispatch_all-Placed i [] r w = tt
  dispatch_all-Placed i (a ∷ plan) r w =
      OnOk-next (Placed a) (λ s v. Placed a s v × All (λ b. Placed b s v) plan) _ _
        (dispatch_one-Placed i a r w)
        (λ s v h.
          OnOk-both (Placed a) (λ s' v'. All (λ b. Placed b s' v') plan) _
            (dispatch_all_keeps (suc i) a plan s v h) (dispatch_all-Placed (suc i) plan s v))
