-- ===== src/Prelude/Membership.antt =====
-- Membership of a text in a list of texts: `x in xs`.
use Prim.Native.String.{String}
use mathlib.Core.Path.{◌≡◌, sym, subst}
use mathlib.Core.Logic.{inl, inr}
use mathlib.Core.Bool.{Bool, true, false, ◌||◌}
use mathlib.Core.List.{List, [], ◌∷◌}
use native.Mathlib.Omega.{arith}
use text.Mathlib.Text.{◌==◌}
use text.Mathlib.TextEquality.{eq_iff}
use codearts_bridge.Prelude.Tests.{Bool-cases}
use codearts_bridge.Prelude.Lists.{Some, All}

unfoldable pub mem : String → List String → Bool
mem s [] = false
mem s (x ∷ xs) = (s == x) || mem s xs

abbrev pub Member : String → List String → Type 0
Member s = Some (λ x. s ≡ x)

pub Member-of_mem : (s : String) (xs : List String) → mem s xs ≡ true → Member s xs
unfolding mem
Member-of_mem s [] h = cc
Member-of_mem s (x ∷ xs) h = elim (Bool-cases (s == x)) [
  | inl e ↦ inl ((eq_iff s x).0 e)
  | inr e ↦ inr (Member-of_mem s xs (rw e at h))
]

pub mem_of_Member : (s : String) (xs : List String) → Member s xs → mem s xs ≡ true
unfolding mem
mem_of_Member s [] h = elim h [ ]
mem_of_Member s (x ∷ xs) (inl e) = ground (arith, eq_iff s x)
mem_of_Member s (x ∷ xs) (inr h) = ground (arith, mem_of_Member s xs h)

-- A fact about every listed text holds of a member.
pub All-at {κ} :
    (P : String → Type κ) (s : String) (xs : List String) → All P xs → mem s xs ≡ true → P s
unfolding mem
All-at P s [] h m = absurd (cc)
All-at P s (x ∷ xs) h m = elim (Bool-cases (s == x)) [
  | inl e ↦ subst P (sym ((eq_iff s x).0 e)) h.0
  | inr e ↦ All-at P s xs h.1 (rw e at m)
]
