-- ===== src/Core/State/Reviewed.antt =====
-- Which states the ways through the table of src/bridge/core/state.py have to pass.
use codearts_bridge.Prelude.{
  String, ◌≡◌, refl, sym, inl, inr, Bool, true, false, not, ◌&&◌, ◌||◌, List, [], ◌∷◌, arith, ◌==◌,
  eq_iff, mem, subst, Member, Bool-cases, and_true,
}
use codearts_bridge.Core.State.{
  transitions, is_valid_transition, ready, queued, created, done, approved, cancelled, failed,
  starting, running, stale, verifying, review_required, fix_required, retryable,
  assistance_required, auth_required, blocked,
}
use codearts_bridge.Core.State.Table.{check, valid_transition_check, Trail, stop, go}

-- The states in which no review has passed yet.
abbrev unreviewed : List String
unreviewed =
    created ∷ ready ∷ queued ∷ starting ∷ running ∷ stale ∷ verifying ∷ review_required
    ∷ fix_required ∷ retryable ∷ assistance_required ∷ auth_required ∷ cancelled ∷ failed ∷ blocked
    ∷ []

-- An unreviewed state is left only to another, or from REVIEW_REQUIRED to APPROVED.
gated : String → String → Bool
unfolding mem
gated s t = not (mem s unreviewed) || (mem t unreviewed || (s == review_required && t == approved))

gated_table : check gated transitions ≡ true
unfolding check gated
gated_table = refl

gated_step :
    (s t : String)
    → is_valid_transition s t ≡ true
    → mem s unreviewed ≡ true
    → mem t unreviewed ≡ false
    → (s == review_required && t == approved) ≡ true
unfolding gated
gated_step s t v m n = let e = valid_transition_check gated s t gated_table v in rw (m, n) at e

not_done : (s : String) → mem s unreviewed ≡ true → s ≡ done → ⊥
not_done s m e =
    let f : mem done unreviewed ≡ true = subst (λ x. mem x unreviewed ≡ true) e m in
    unfold mem in cc f

-- From an unreviewed state every way to DONE enters APPROVED directly from REVIEW_REQUIRED:
-- REVIEW_REQUIRED is the start or is entered, and APPROVED is entered.
pub done-Member :
    (s u : String) (visited : List String)
    → mem s unreviewed ≡ true
    → Trail s visited u
    → u ≡ done
    → Member review_required (s ∷ visited) × Member approved visited
done-Member s u [] m (stop _) e = absurd (not_done s m e)
done-Member s u (t ∷ visited) m (go v trail) e = elim (Bool-cases (mem t unreviewed)) [
  | inl k ↦ let (review, pass) = done-Member t u visited k trail e in (inr review, inr pass)
  | inr k ↦
      let (at_review, at_approved) = and_true (gated_step s t v m k) in
      (
        inl (sym ((eq_iff s review_required).0 at_review)),
        inl (sym ((eq_iff t approved).0 at_approved)),
      )
]

-- Every way from CREATED to DONE by the transitions that the table lists enters REVIEW_REQUIRED and
-- APPROVED. Writes of state.json that do not look at the table are no such way.
pub created-done-Member :
    (visited : List String)
    → Trail created visited done
    → Member review_required visited × Member approved visited
created-done-Member visited trail =
    let (first, pass) = done-Member created done visited (unfold mem in refl) trail refl in
    (tail first, pass)
  where
    tail : Member review_required (created ∷ visited) → Member review_required visited
    tail (inl e) = absurd (ground (arith, eq_iff review_required created))
    tail (inr h) = h
