-- ===== src/Integration/Reverted.antt =====
-- Where a reverted integration of src/bridge/integration.py leaves the repository.
use codearts_bridge.Prelude.{
  ℕ, String, ◌≡◌, refl, ◌∙◌, inl, inr, ◌⊎◌, Bool, true, false, Option, none, some, ◌==◌,
}
use codearts_bridge.Core.Value.{Value, Doc}
use codearts_bridge.Core.Errors.{Result, ok, raise}
use codearts_bridge.Integration.{
  Git, IntegrationResult, Site, clean_step, done_step, baseline_step, tests_step, pick_step,
  checkout_step, start_step,
}
use codearts_bridge.Integration.Outcomes.{OnOk, changed, read_again, failed}

-- What git documents: `Has sha r` says that `sha` is the full name of a commit of the repository,
-- as the name that rev-parse gives of its head is. A checkout and a pick delete no commit. A
-- checkout switches to the branch; a pick, its abort and a reset stay on it. A reset moves it to a
-- commit that is there, and an abort takes it back to where the pick began.
pub record GitLaws (git : Git) : Type 1 where
  pub branch : git.Repo → String
  pub Has : String → git.Repo → Type 0
  pub head_sha-Has : (r : git.Repo) → (git.head_sha r == "") ≡ false → Has (git.head_sha r) r
  pub checkout-Has :
      (sha b : String) (r r' : git.Repo) → git.checkout b r ≡ (none, r') → Has sha r → Has sha r'
  pub cherry_pick-Has :
      (sha c : String) (r r' : git.Repo) → git.cherry_pick c r ≡ (none, r') → Has sha r → Has sha r'
  pub branch-checkout :
      (b : String) (r r' : git.Repo) → git.checkout b r ≡ (none, r') → branch r' ≡ b
  pub branch-cherry_pick :
      (sha : String) (r r' : git.Repo) → git.cherry_pick sha r ≡ (none, r') → branch r' ≡ branch r
  pub branch-reset_hard : (sha : String) (r : git.Repo) → branch (git.reset_hard sha r) ≡ branch r
  pub head_sha-reset_hard :
      (sha : String) (r : git.Repo) → Has sha r → git.head_sha (git.reset_hard sha r) ≡ sha
  pub branch-abort_pick :
      (sha e : String) (r r' : git.Repo)
      → git.cherry_pick sha r ≡ (some e, r')
      → branch (git.abort_pick r') ≡ branch r
  pub head_sha-abort_pick :
      (sha e : String) (r r' : git.Repo)
      → git.cherry_pick sha r ≡ (some e, r')
      → git.head_sha (git.abort_pick r') ≡ git.head_sha r

module _ (git : Git) (laws : GitLaws git) (now : ℕ → String) (target_branch task_id : String)
    (commit : String) (w₀ : Site git) where
  -- After a pick that succeeded, and tests that failed, the target branch stands where the head of
  -- `w₀` was; after a pick that failed, where it stood when it was checked out.
  abbrev pub Returned : git.Repo → Site git → Type 0
  Returned main w =
      ((merged : git.Repo) × (git.cherry_pick commit main ≡ (none, merged))
        × (git.tests_pass merged ≡ false)
        × (git.head_sha w.repo ≡ git.head_sha w₀.repo))
      ⊎ ((e : String) × (merged : git.Repo) × (git.cherry_pick commit main ≡ (some e, merged))
          × (git.head_sha w.repo ≡ git.head_sha main))

  -- A reverted integration had checked the target branch out, and leaves it checked out.
  abbrev pub Reverted : IntegrationResult → Site git → Type 0
  Reverted r w =
      r.reverted ≡ true
      → (laws.branch w.repo ≡ target_branch)
        × (main : git.Repo) × (git.checkout target_branch w₀.repo ≡ (none, main))
        × Returned main w

  clean_step-Reverted :
      (merged_sha : String) (w : Site git)
      → OnOk git Reverted (clean_step git now target_branch task_id commit merged_sha w)
  unfolding clean_step
  clean_step-Reverted merged_sha w = read_again git Reverted task_id w _ _ (λ d h. absurd cc)

  done_step-Reverted :
      (merged_sha : String) (w : Site git)
      → OnOk git Reverted (done_step git now target_branch task_id commit merged_sha w)
  unfolding done_step
  done_step-Reverted merged_sha w = read_again git Reverted task_id w _ _ (λ d.
      changed git Reverted task_id (now 6) "DONE" _ _ _ (λ d'. clean_step-Reverted merged_sha _))

  baseline_step-Reverted :
      (pid : Value) (merged_sha : String) (w : Site git) (o : Result Doc)
      → OnOk git Reverted (baseline_step git now target_branch task_id pid commit merged_sha w o)
  unfolding baseline_step
  baseline_step-Reverted pid merged_sha w (raise e) = tt
  baseline_step-Reverted pid merged_sha w (ok registry) =
      changed git Reverted task_id (now 4) "INTEGRATED" _ _ _ (λ d. done_step-Reverted merged_sha _)

  module _ (named : (git.head_sha w₀.repo == "") ≡ false) (main : git.Repo)
      (out : git.checkout target_branch w₀.repo ≡ (none, main)) where
    tests_step-Reverted :
        (pid : Value) (w : Site git) (b : Bool)
        → git.cherry_pick commit main ≡ (none, w.repo)
        → git.tests_pass w.repo ≡ b
        → OnOk git Reverted
            (tests_step git now target_branch task_id pid (git.head_sha w₀.repo) commit w b)
    unfolding tests_step
    tests_step-Reverted pid w true picked pass = baseline_step-Reverted pid _ w _
    tests_step-Reverted pid w false picked fails = failed git Reverted task_id (now 3) _ _ _ (λ d h.
        (
          laws.branch-reset_hard (git.head_sha w₀.repo) w.repo
              ∙ (laws.branch-cherry_pick commit main w.repo picked
                  ∙ laws.branch-checkout target_branch w₀.repo main out),
          main,
          out,
          inl (
            w.repo,
            picked,
            fails,
            laws.head_sha-reset_hard (git.head_sha w₀.repo) w.repo (
                laws.cherry_pick-Has (git.head_sha w₀.repo) commit main w.repo picked (
                  laws.checkout-Has (git.head_sha w₀.repo) target_branch w₀.repo main out
                    (laws.head_sha-Has w₀.repo named))),
          ),
        ))

    pick_step-Reverted :
        (pid : Value) (w : Site git) (o : Option String × git.Repo)
        → git.cherry_pick commit main ≡ o
        → OnOk git Reverted
            (pick_step git now target_branch task_id pid (git.head_sha w₀.repo) commit w o)
    unfolding pick_step
    pick_step-Reverted pid w (none, repo) picked = tests_step-Reverted pid _ _ picked refl
    pick_step-Reverted pid w (some e, repo) refused =
        failed git Reverted task_id (now 2) e _ _ (λ d h. (
          laws.branch-abort_pick commit e main repo refused
              ∙ laws.branch-checkout target_branch w₀.repo main out,
          main,
          out,
          inr (e, repo, refused, laws.head_sha-abort_pick commit e main repo refused),
        ))

  checkout_step-Reverted :
      (pid : Value) (w : Site git) (o : Option String × git.Repo)
      → (git.head_sha w₀.repo == "") ≡ false
      → git.checkout target_branch w₀.repo ≡ o
      → OnOk git Reverted
          (checkout_step git now target_branch task_id pid (git.head_sha w₀.repo) commit w o)
  unfolding checkout_step
  checkout_step-Reverted pid w (none, repo) named out =
      pick_step-Reverted named repo out pid _ _ refl
  checkout_step-Reverted pid w (some e, repo) named out =
      failed git Reverted task_id (now 1) e _ _ (λ d h. absurd cc)

  -- Where git keeps its laws and can name its head at the start, an integration whose result says
  -- that it was reverted had checked the target branch out, and leaves it checked out. If the pick
  -- failed, the branch stands where it stood before the pick; if the tests failed, it stands at the
  -- commit that was checked out before the integration, of whatever branch that was.
  pub start_step-Reverted :
      (pid : Value)
      → (git.head_sha w₀.repo == "") ≡ false
      → OnOk git Reverted (start_step git now target_branch task_id pid commit w₀)
  unfolding start_step
  start_step-Reverted pid named =
      changed git Reverted task_id (now 0) "INTEGRATING" _ w₀ _
        (λ d. checkout_step-Reverted pid _ _ named refl)
