-- ===== src/Agent/Recovery/Settled.antt =====
-- What src/bridge/agent/recovery.py leaves behind: no job that is not terminal.
use codearts_bridge.Prelude.{
  ℕ, ◌≡◌, refl, Bool, true, false, Option, none, some, List, [], ◌∷◌, All, Bool-cases, inl, inr,
}
use codearts_bridge.Core.Value.{ℤ, is_zero}
use codearts_bridge.Core.Errors.{Result, ok, raise, >>=-eq-ok}
use codearts_bridge.Agent.{
  JobState, assistance_required, job_state, is_job_terminal, JobInfo, JobDir, save_job,
  append_event,
}
use codearts_bridge.Agent.Watchdog.Deadline.{job_state-value}
use codearts_bridge.Agent.Recovery.{
  gone_state, reconciled_event, orphan_event, converge_alive, converge_gone, converge_job,
  visit_job, visit, reconcile,
}

abbrev pub Settled : JobDir → Type 0
Settled dir = (s : JobState) × (job_state dir.job.state ≡ ok s) × (is_job_terminal s ≡ true)

gone_state-terminal : (code : Option ℤ) → is_job_terminal (gone_state code) ≡ true
unfolding gone_state
gone_state-terminal none = refl
gone_state-terminal (some n) = elim (Bool-cases (is_zero n)) [
  | inl e ↦ rw e refl
  | inr e ↦ rw e refl
]

module _ (check_process : JobInfo → Bool) (get_exit_code : JobInfo → Option ℤ)
    (signalled : JobInfo → Bool) where
  converge_job-Settled :
      (now : ℕ) (dir : JobDir)
      → Settled (converge_job check_process get_exit_code signalled now dir)
  unfolding converge_job converge_alive converge_gone reconciled_event orphan_event append_event
      save_job
  converge_job-Settled now dir = elim (Bool-cases (check_process dir.job)) [
    | inl e ↦ rw e (assistance_required, job_state-value assistance_required, refl)
    | inr e ↦ rw e (
      gone_state (get_exit_code dir.job),
      job_state-value _,
      gone_state-terminal (get_exit_code dir.job),
    )
  ]

  visit_job-Settled :
      (now : ℕ) (dir : JobDir) (rest : Result (List JobInfo) × List JobDir) (b : Bool)
      (js : List JobInfo)
      → (b ≡ true → Settled dir)
      → ((ks : List JobInfo) → rest.0 ≡ ok ks → All Settled rest.1)
      → (visit_job check_process get_exit_code signalled now dir rest b).0 ≡ ok js
      → All Settled (visit_job check_process get_exit_code signalled now dir rest b).1
  unfolding visit_job
  visit_job-Settled now dir (jobs, dirs) true js done ih h = (done refl, ih js h)
  visit_job-Settled now dir (jobs, dirs) false js done ih h =
      let (ks, counts, last) = >>=-eq-ok jobs _ h in (converge_job-Settled now dir, ih ks counts)

  visit-Settled :
      (now : ℕ) (dir : JobDir) (dirs : List JobDir) (rest : Result (List JobInfo) × List JobDir)
      (r : Result JobState) (js : List JobInfo)
      → job_state dir.job.state ≡ r
      → ((ks : List JobInfo) → rest.0 ≡ ok ks → All Settled rest.1)
      → (visit check_process get_exit_code signalled now dir dirs rest r).0 ≡ ok js
      → All Settled (visit check_process get_exit_code signalled now dir dirs rest r).1
  unfolding visit
  visit-Settled now dir dirs rest (raise e) js read ih h = cc
  visit-Settled now dir dirs rest (ok state) js read ih h =
      visit_job-Settled now dir rest (is_job_terminal state) js (λ e. (state, read, e)) ih h

  -- Where the call returns, every job is in a terminal state.
  pub reconcile-Settled :
      (now : ℕ) (dirs : List JobDir) (js : List JobInfo)
      → (reconcile check_process get_exit_code signalled now dirs).0 ≡ ok js
      → All Settled (reconcile check_process get_exit_code signalled now dirs).1
  unfolding reconcile
  reconcile-Settled now [] js h = tt
  reconcile-Settled now (dir ∷ dirs) js h =
      visit-Settled now dir dirs _ (job_state dir.job.state) js refl (reconcile-Settled now dirs) h

  -- Jobs that are all terminal are left as they are.
  reconcile_idle :
      (now : ℕ) (dirs : List JobDir)
      → All Settled dirs
      → reconcile check_process get_exit_code signalled now dirs ≡ (ok [], dirs)
  unfolding reconcile visit visit_job
  reconcile_idle now [] h = refl
  reconcile_idle now (dir ∷ dirs) ((s, read, e), rest) =
      rw read (rw e (rw (reconcile_idle now dirs rest) refl))

  -- After a reconciliation that returns, every job is terminal, also one whose process was alive,
  -- and a second one reports nothing and changes nothing.
  pub reconcile_once :
      (now later : ℕ) (dirs : List JobDir) (js : List JobInfo)
      → (reconcile check_process get_exit_code signalled now dirs).0 ≡ ok js
      → All Settled (reconcile check_process get_exit_code signalled now dirs).1
        × (reconcile check_process get_exit_code signalled later
              (reconcile check_process get_exit_code signalled now dirs).1
            ≡ (ok [], (reconcile check_process get_exit_code signalled now dirs).1))
  reconcile_once now later dirs js h =
      let settled = reconcile-Settled now dirs js h in (settled, reconcile_idle later _ settled)
