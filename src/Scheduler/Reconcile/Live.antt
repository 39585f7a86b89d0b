-- ===== src/Scheduler/Reconcile/Live.antt =====
-- What src/bridge/scheduler/planner.py leaves open when reconcile_assignments returns.
use codearts_bridge.Prelude.{
  ℕ, suc, ◌≡◌, ◌⊎◌, inl, inr, refl, String, Bool, true, false, ◌||◌, [], ◌∷◌, ◌==◌, Bool-cases, All,
  arith, sym, ◌∙◌, ap,
}
use codearts_bridge.Core.Value.{Value, Doc, File, missing, broken, content, get, truthy}
use codearts_bridge.Core.Errors.{Result, ok, raise, >>=-eq-ok, ok-injective}
use codearts_bridge.Core.State.{text_of}
use codearts_bridge.Core.Models.{Lease}
use codearts_bridge.Scheduler.Clock.{Clock}
use codearts_bridge.Scheduler.Lease.{Leases, lease_file, is_expired}
use codearts_bridge.Scheduler.Finish.{
  Files, Holds, is_empty, closed-truthy, release_of, Kept, Kept-trans, release_of-Kept,
}
use codearts_bridge.Scheduler.Reconcile.{
  Folders, Outcome, task_state, live_file, lease_lives, close_file, settle_open, settle_file,
  read_file, visit, reconcile_files, reconcile_assignments,
}

module _ (clock : Clock) (now : ℕ → ℕ) (written : (t : ℕ) → (clock.isoformat t == "") ≡ false) where
  -- The lease of the assignment was there at the start, and had not expired at some visit.
  abbrev pub Lives : Leases → Doc → Type 0
  Lives start d =
      (i : ℕ) × (lease : Lease) × (lease_file (text_of (get "leaseId" d)) start ≡ content lease)
      × (is_expired clock (now i) lease ≡ false)

  abbrev pub Settled : Leases → Doc → Type 0
  Settled start d = (is_empty d ≡ true) ⊎ ((truthy (get "finishedAt" d) ≡ true) ⊎ Lives start d)

  live_file-true :
      (i : ℕ) (file : File Lease)
      → live_file clock now i file ≡ ok true
      → (lease : Lease) × (file ≡ content lease) × (is_expired clock (now i) lease ≡ false)
  unfolding live_file
  live_file-true i missing h = cc
  live_file-true i broken h = cc
  live_file-true i (content lease) h = (lease, refl, ground arith)

  lease_lives-true :
      (i : ℕ) (leases : Leases) (d : Doc)
      → lease_lives clock now i leases d ≡ ok true
      → (lease : Lease) × (lease_file (text_of (get "leaseId" d)) leases ≡ content lease)
        × (is_expired clock (now i) lease ≡ false)
  unfolding lease_lives
  lease_lives-true i leases d h = elim (Bool-cases (truthy (get "leaseId" d))) [
    | inl e ↦ live_file-true i _ (sym (rw e) ∙ h)
    | inr e ↦ absurd (ground arith)
  ]

  -- A lease that is there after some releases was there before.
  lease_file_before :
      (start leases : Leases) (j : String) (lease : Lease)
      → Kept start leases
      → lease_file j leases ≡ content lease
      → lease_file j start ≡ content lease
  lease_file_before start leases j lease k h = elim (k j) [ inl e ↦ sym e ∙ h | inr e ↦ cc ]

  module _ (start : Leases) where
    Good : (Leases → Folders → Outcome) → Type 0
    Good rest =
        (ls : Leases) (ts : Folders) (m : ℕ)
        → Kept start ls
        → (rest ls ts).count ≡ ok m
        → All (Holds (Settled start)) (rest ls ts).files

    close_file-Settled :
        (i : ℕ) (name : String) (d : Doc) (leases : Leases) (tasks : Folders) (dir : Files)
        (rest : Leases → Folders → Outcome) (r : Result Folders) (n : ℕ)
        → Kept start leases
        → Good rest
        → (close_file clock now i name d leases tasks dir (rest leases) r).count ≡ ok n
        → All
            (Holds (Settled start))
            (close_file clock now i name d leases tasks dir (rest leases) r).files
    unfolding close_file Good
    close_file-Settled i name d leases tasks dir rest (raise e) n k good h = cc
    close_file-Settled i name d leases tasks dir rest (ok ts) n k good h =
        let (m, counts, last) = >>=-eq-ok (rest leases ts).count _ h in
        (
          inr (inl (closed-truthy (clock.isoformat (now i)) d (written (now i)))),
          good leases ts m k counts,
        )

    settle_open-Settled :
        (i : ℕ) (name : String) (d : Doc) (leases : Leases) (tasks : Folders) (dir : Files)
        (rest : Leases → Folders → Outcome) (state : Value) (b : Bool) (n : ℕ)
        → Kept start leases
        → Good rest
        → (b ≡ true → lease_lives clock now i leases d ≡ ok true)
        → (settle_open clock now i name d leases tasks dir rest state b).count ≡ ok n
        → All
            (Holds (Settled start))
            (settle_open clock now i name d leases tasks dir rest state b).files
    unfolding settle_open Good
    settle_open-Settled i name d leases tasks dir rest state true n k good live h =
        let (lease, found, fresh) = lease_lives-true i leases d (live refl) in
        (
          inr (inr (i, lease, lease_file_before start leases _ lease k found, fresh)),
          good leases tasks n k h,
        )
    settle_open-Settled i name d leases tasks dir rest state false n k good live h =
        close_file-Settled i name d (release_of d leases) tasks dir rest _ n
          (Kept-trans start leases (release_of d leases) k (release_of-Kept d leases)) good h

    settle_file-Settled :
        (i : ℕ) (name : String) (d : Doc) (leases : Leases) (tasks : Folders) (dir : Files)
        (rest : Leases → Folders → Outcome) (r : Result (Value × Bool)) (n : ℕ)
        → Kept start leases
        → Good rest
        → ((state : Value) (lives : Bool)
            → r ≡ ok (state, lives)
            → lease_lives clock now i leases d ≡ ok lives)
        → (settle_file clock now i name d leases tasks dir rest r).count ≡ ok n
        → All (Holds (Settled start)) (settle_file clock now i name d leases tasks dir rest r).files
    unfolding settle_file
    settle_file-Settled i name d leases tasks dir rest (raise e) n k good read h = cc
    settle_file-Settled i name d leases tasks dir rest (ok (state, lives)) n k good read h =
        settle_open-Settled i name d leases tasks dir rest state _ n k good
          (λ both. read state lives refl ∙ ap ok (ground arith)) h

    read_file-lives :
        (i : ℕ) (leases : Leases) (tasks : Folders) (d : Doc) (state : Value) (lives : Bool)
        → read_file clock now i leases tasks d ≡ ok (state, lives)
        → lease_lives clock now i leases d ≡ ok lives
    unfolding read_file
    read_file-lives i leases tasks d state lives h =
        let (s, task_read, more) = >>=-eq-ok (task_state tasks d) _ h in
        let (b, lease_read, same) = >>=-eq-ok (lease_lives clock now i leases d) _ more in
        lease_read ∙ ap ok (ap (λ x. x.1) (ok-injective same))

    visit-Settled :
        (i : ℕ) (name : String) (d : Doc) (leases : Leases) (tasks : Folders) (dir : Files)
        (rest : Leases → Folders → Outcome) (b : Bool) (n : ℕ)
        → Kept start leases
        → Good rest
        → (is_empty d || truthy (get "finishedAt" d)) ≡ b
        → (visit clock now i name d leases tasks dir rest b).count ≡ ok n
        → All (Holds (Settled start)) (visit clock now i name d leases tasks dir rest b).files
    unfolding visit Good
    visit-Settled i name d leases tasks dir rest true n k good e h = (
      elim (Bool-cases (is_empty d)) [ inl f ↦ inl f | inr f ↦ inr (inl (ground arith)) ],
      good leases tasks n k h,
    )
    visit-Settled i name d leases tasks dir rest false n k good e h =
        settle_file-Settled i name d leases tasks dir rest _ n k good
          (read_file-lives i leases tasks d) h

    reconcile_files-Settled : (i : ℕ) (dir : Files) → Good (reconcile_files clock now i dir)
    unfolding reconcile_files Good
    reconcile_files-Settled i [] ls ts m k h = tt
    reconcile_files-Settled i ((name, missing) ∷ dir) ls ts m k h =
        (tt, reconcile_files-Settled (suc i) dir ls ts m k h)
    reconcile_files-Settled i ((name, broken) ∷ dir) ls ts m k h = cc
    reconcile_files-Settled i ((name, content d) ∷ dir) ls ts m k h =
        visit-Settled i name d ls ts dir (reconcile_files clock now (suc i) dir) _ m k
          (reconcile_files-Settled (suc i) dir) refl h

  -- Where the call returns, and the clock gives texts that are not empty, every assignment is
  -- empty, has a time at which it finished, or has a lease that was there at the start and that had
  -- not expired when one of the files was visited.
  pub reconcile_assignments-Settled :
      (dir : Files) (leases : Leases) (tasks : Folders) (n : ℕ)
      → (reconcile_assignments clock now dir leases tasks).count ≡ ok n
      → All (Holds (Settled leases)) (reconcile_assignments clock now dir leases tasks).files
  unfolding reconcile_assignments Good
  reconcile_assignments-Settled dir leases tasks n h =
      reconcile_files-Settled leases 0 dir leases tasks n (λ j. inl refl) h
