-- ===== src/Agent/Watchdog/Deadline.antt =====
-- When the timeouts of src/bridge/agent/watchdog.py strike, and what they leave.
use codearts_bridge.Prelude.{
  ℕ, String, ◌≡◌, ◌≢◌, ◌≤◌, ◌<◌, refl, Bool, true, false, not, ◌&&◌, Option, none, some, List, ltb,
  leb, if◌then◌else◌, arith, Bool-cases, inl, inr, sym, ◌∙◌, ap,
}
use codearts_bridge.Core.Errors.{ok, ok-injective, >>=-eq-ok}
use codearts_bridge.Agent.{
  JobState, starting, running, soft_limit, completed, completed_with_timeout, assistance_required,
  timed_out, cancelled, value, job_state, is_job_terminal, JobInfo, JobDir, save_job, append_event,
  elapsed,
}
use codearts_bridge.Agent.Watchdog.{
  check_deliverables, handle_soft_timeout, hard_state, converge, handle_hard_timeout, due,
  check_timeouts,
}

-- The texts of the states are read back.
pub job_state-value : (s : JobState) → job_state (value s) ≡ ok s
unfolding job_state
job_state-value starting = refl
job_state-value running = refl
job_state-value soft_limit = refl
job_state-value completed = refl
job_state-value completed_with_timeout = refl
job_state-value assistance_required = refl
job_state-value timed_out = refl
job_state-value cancelled = refl

hard_state-terminal : (a b : Bool) → is_job_terminal (hard_state a b) ≡ true
unfolding hard_state
hard_state-terminal true b = refl
hard_state-terminal false true = refl
hard_state-terminal false false = refl

from_some : Option JobState → JobState
from_some none = cancelled
from_some (some s) = s

not_idle :
    (b : Bool) (r : Option JobState × JobDir) (dir dir' : JobDir)
    → (if b then (none, dir) else r) ≡ (some soft_limit, dir')
    → r ≡ (some soft_limit, dir')
not_idle true r dir dir' h = cc
not_idle false r dir dir' h = h

module _ (signalled : JobInfo → Bool) (outbox : JobInfo → Option (List String))
    (git_diff : JobInfo → Bool) where
  -- A job that ended by its hard timeout.
  pub record Ended (now : ℕ) (dir : JobDir) : Type 0 where
    pub new_state : JobState
    pub after : JobDir
    pub answer : check_timeouts signalled outbox git_diff now dir ≡ ok (some new_state, after)
    pub terminal : is_job_terminal new_state ≡ true
    pub saved : job_state after.job.state ≡ ok new_state

  check_timeouts-due :
      (now : ℕ) (dir : JobDir) (s : JobState)
      → job_state dir.job.state ≡ ok s
      → is_job_terminal s ≡ false
      → check_timeouts signalled outbox git_diff now dir
        ≡ ok (due signalled outbox git_diff now dir)
  unfolding check_timeouts
  check_timeouts-due now dir s read alive = rw read (rw alive refl)

  due-hard :
      (now : ℕ) (dir : JobDir)
      → 0 < dir.job.hard_timeout_seconds
      → dir.job.hard_timeout_seconds ≤ elapsed now dir.job
      → due signalled outbox git_diff now dir
        ≡ handle_hard_timeout signalled outbox git_diff now dir
  unfolding due
  due-hard now dir on passed = ground arith

  -- A job that is not terminal ends at the first check at or after a hard timeout that is on: the
  -- answer is a terminal state, and the saved job is in it.
  pub check_timeouts-Ended :
      (now : ℕ) (dir : JobDir) (s : JobState)
      → job_state dir.job.state ≡ ok s
      → is_job_terminal s ≡ false
      → 0 < dir.job.hard_timeout_seconds
      → dir.job.hard_timeout_seconds ≤ elapsed now dir.job
      → Ended now dir
  unfolding handle_hard_timeout converge append_event save_job
  check_timeouts-Ended now dir s read alive on passed = record {
    new_state = hard_state (check_deliverables (outbox dir.job)) (git_diff dir.job);
    after = (handle_hard_timeout signalled outbox git_diff now dir).1;
    answer = check_timeouts-due now dir s read alive ∙ ap ok (due-hard now dir on passed);
    terminal = hard_state-terminal _ _;
    saved = job_state-value _;
  }

  hard_test : ℕ → JobInfo → Bool
  hard_test now job =
      leb job.hard_timeout_seconds (elapsed now job) && ltb 0 job.hard_timeout_seconds

  soft_test : ℕ → JobInfo → Bool
  soft_test now job =
      leb job.soft_timeout_seconds (elapsed now job)
      && not job.soft_limit_reached
      && ltb 0 job.soft_timeout_seconds

  data Due (now : ℕ) (dir : JobDir) : Option JobState × JobDir → Type 0 where
    hard : (s : JobState) (after : JobDir) → is_job_terminal s ≡ true → Due now dir (some s, after)
    soft :
        dir.job.soft_limit_reached ≡ false
        → Due now dir (some soft_limit, handle_soft_timeout now dir)
    idle : Due now dir (none, dir)

  due-Due : (now : ℕ) (dir : JobDir) → Due now dir (due signalled outbox git_diff now dir)
  unfolding due handle_hard_timeout hard_test soft_test
  due-Due now dir = elim (Bool-cases (hard_test now dir.job)) [
    | inl e ↦ rw e (hard _ _ (hard_state-terminal _ _))
    | inr e ↦ rw e (elim (Bool-cases (soft_test now dir.job)) [
      | inl f ↦ rw f (soft (ground arith))
      | inr f ↦ rw f idle
    ])
  ]

  Due-reached :
      (now : ℕ) (dir dir' : JobDir) (r : Option JobState × JobDir)
      → Due now dir r
      → r ≡ (some soft_limit, dir')
      → (dir.job.soft_limit_reached ≡ false) × (dir'.job.soft_limit_reached ≡ true)
  unfolding handle_soft_timeout append_event save_job from_some
  Due-reached now dir dir' _ (hard s after terminal) e = absurd (
      let same : s ≡ soft_limit = ap (λ r. from_some r.0) e in
      let wrong : false ≡ true = sym (ap is_job_terminal same) ∙ terminal in cc)
  Due-reached now dir dir' _ (soft fresh) e = (fresh, sym (ap (λ r. r.1.job.soft_limit_reached) e))
  Due-reached now dir dir' _ idle e = cc

  soft_answer :
      (now : ℕ) (dir dir' : JobDir)
      → check_timeouts signalled outbox git_diff now dir ≡ ok (some soft_limit, dir')
      → (dir.job.soft_limit_reached ≡ false) × (dir'.job.soft_limit_reached ≡ true)
  unfolding check_timeouts
  soft_answer now dir dir' h =
      let (s, read, more) = >>=-eq-ok (job_state dir.job.state) _ h in
      Due-reached now dir dir' _ (due-Due now dir)
        (not_idle (is_job_terminal s) _ dir dir' (ok-injective more))

  -- The soft timeout of a job is reported once: after it, no later check reports it again.
  pub soft_timeout_once :
      (now later : ℕ) (dir dir' dir'' : JobDir)
      → check_timeouts signalled outbox git_diff now dir ≡ ok (some soft_limit, dir')
      → check_timeouts signalled outbox git_diff later dir' ≢ ok (some soft_limit, dir'')
  soft_timeout_once now later dir dir' dir'' first second =
      let reached = (soft_answer now dir dir' first).1 in
      let fresh = (soft_answer later dir' dir'' second).0 in cc
