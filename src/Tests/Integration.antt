-- ===== src/Tests/Integration.antt =====
-- Integrations of src/bridge/integration.py in a small repository, and conflicts of
-- src/bridge/conflict.py. The repository is the branch that is checked out and the tip of each.
use codearts_bridge.Prelude.{
  ℕ, String, ◌≡◌, ◌↔◌, refl, sym, ap, true, false, ◌&&◌, not, Option, none, some, [], ◌∷◌, ◌==◌,
  mem, eq_refl, if◌then◌else◌,
}
use codearts_bridge.Core.Value.{str, content, missing}
use codearts_bridge.Integration.{Git, Site, integrate_task, start_step}
use codearts_bridge.Integration.Loop.{integrate_all}
use codearts_bridge.Integration.Outcomes.{
  OnOk, Verified, integrate_task-Verified, integrate_task-dry_run,
}
use codearts_bridge.Integration.Serial.{Serial, OnResults, integrate_all-Serial}
use codearts_bridge.Integration.Reverted.{GitLaws, Reverted, start_step-Reverted}
use codearts_bridge.Conflict.{compare_files}
use codearts_bridge.Conflict.Overlap.{compare_files_exact}

abbrev Tips : Type 0
Tips = String × (String → String)

abbrev move : String → Tips → Tips
move sha (branch, tips) = (branch, λ b. if b == branch then sha else tips b)

-- The tests fail on the commit "bad".
abbrev small_git : Git
small_git = record {
  Repo = Tips;
  head_sha = λ (branch, tips). tips branch;
  checkout = λ b (branch, tips). (none, (b, tips));
  cherry_pick = λ sha r. (none, move sha r);
  abort_pick = λ r. r;
  reset_hard = move;
  conflict_files = λ r. [];
  tests_pass = λ (branch, tips). not (tips branch == "bad");
  remove_worktree = λ task_id path. none;
}

-- Every commit of this repository is the tip of a branch, or was.
abbrev HasName : String → Type 0
HasName sha = (sha == "") ≡ false

moved : (sha : String) (r : Tips) → small_git.head_sha (move sha r) ≡ sha
moved sha (branch, tips) = let e = eq_refl branch in rw e refl

kept : (sha : String) (r : Tips) → (move sha r).0 ≡ r.0
kept sha (branch, tips) = refl

not_some : {e : String} {r r' : Tips} → ◌≡◌ {A = Option String × Tips} (none, r) (some e, r') → ⊥
not_some h = let f = ap (λ x. x.0) h in cc

abbrev small_laws : GitLaws small_git
small_laws = record {
  branch = λ r. r.0;
  branch-checkout =
      λ b r r' h. let same : (b, r.1) ≡ r' = ap (λ x. x.1) h in ap (λ x. x.0) (sym same);
  branch-cherry_pick =
      λ sha r r' h. let same : move sha r ≡ r' = ap (λ x. x.1) h in ap (λ x. x.0) (sym same);
  Has = λ sha r. HasName sha;
  head_sha-Has = λ r h. h;
  checkout-Has = λ sha b r r' h has. has;
  cherry_pick-Has = λ sha c r r' h has. has;
  branch-reset_hard = kept;
  head_sha-reset_hard = λ sha r has. moved sha r;
  branch-abort_pick = λ sha e r r' h. absurd (not_some h);
  head_sha-abort_pick = λ sha e r r' h. absurd (not_some h);
}

-- "feature" is checked out, and the task's commit fails the tests.
abbrev tips : Tips
tips = ("feature", λ b. if b == "main" then "m1" else "f1")

abbrev site : String → Site small_git
site sha = record {
  repo = tips;
  tasks = ("t1", content (("state", str "APPROVED") ∷ ("commitSha", str sha) ∷ [])) ∷ [];
  baselines = missing;
}

abbrev now : ℕ → String
now i = "now"

integrate_task-Verified_example :
    OnOk small_git
      (Verified small_git (site "c1"))
      (integrate_task small_git now "main" "t1" false true none missing (site "c1"))
integrate_task-Verified_example =
    integrate_task-Verified small_git now "main" "t1" (site "c1") true none missing

integrate_task-dry_run_example :
    (integrate_task small_git now "main" "t1" true true none missing (site "c1")).1 ≡ site "c1"
integrate_task-dry_run_example =
    integrate_task-dry_run small_git now "main" "t1" (site "c1") true none missing

start_step-Reverted_example :
    OnOk small_git
      (Reverted small_git small_laws now "main" "t1" "bad" (site "bad"))
      (start_step small_git now "main" "t1" (str "p") "bad" (site "bad"))
start_step-Reverted_example =
    start_step-Reverted small_git small_laws now "main" "t1" "bad" (site "bad") (str "p") refl

integrate_all-Serial_example :
    OnResults Serial
      (integrate_all small_git
        (λ id. integrate_task small_git now "main" id false true none missing)
        ("t1" ∷ "t2" ∷ [])
        (site "bad")).0
integrate_all-Serial_example =
    integrate_all-Serial small_git
      (λ id. integrate_task small_git now "main" id false true none missing) ("t1" ∷ "t2" ∷ [])
      (site "bad")

compare_files_exact_example :
    ((f : String)
      → mem f (compare_files "t" ("a" ∷ "b" ∷ []) ("b" ∷ "c" ∷ [])).conflicting_files
        ≡ (mem f ("a" ∷ "b" ∷ []) && mem f ("b" ∷ "c" ∷ [])))
    × (((compare_files "t" ("a" ∷ "b" ∷ []) ("b" ∷ "c" ∷ [])).conflict ≡ true)
        ↔ ((f : String) × ((mem f ("a" ∷ "b" ∷ []) && mem f ("b" ∷ "c" ∷ [])) ≡ true)))
compare_files_exact_example = compare_files_exact "t" ("a" ∷ "b" ∷ []) ("b" ∷ "c" ∷ [])
