-- ===== src/Config/Defaults.antt =====
-- Where a setting of a project or a worker in src/bridge/config.py comes from.
use codearts_bridge.Prelude.{
  String, ◌≡◌, refl, ◌∙◌, ap, inl, inr, false, Option, none, some, [], ◌∷◌, ◌==◌, eq_iff,
  Bool-cases, subst,
}
use codearts_bridge.Core.Value.{Value, Doc, find, find-put, get_or, put, update, has, or_default}
use codearts_bridge.Core.State.Update.{find-update}
use codearts_bridge.Config.{merged}

-- A dictionary has each key once.
abbrev pub Unique : Doc → Type 0
Unique [] = Unit
Unique ((k, v) ∷ d) = (has k d ≡ false) × Unique d

either : Option Value → Option Value → Option Value
either none other = other
either (some v) other = some v

or_default-either :
    (built_in : Value) (o other : Option Value)
    → or_default built_in (either o other) ≡ or_default (or_default built_in other) o
unfolding either
or_default-either built_in none other = refl
or_default-either built_in (some v) other = refl

find-update-Unique :
    (j : String) (extra d : Doc)
    → Unique extra
    → find j (update extra d) ≡ either (find j extra) (find j d)
unfolding find update either
find-update-Unique j [] d u = refl
find-update-Unique j ((k, v) ∷ extra) d (fresh, u) = elim (Bool-cases (k == j)) [
  | inl e ↦
      let gone : has j extra ≡ false = subst (λ x. has x extra ≡ false) ((eq_iff k j).0 e) fresh in
      rw e (find-update j extra (put k v d) gone ∙ (find-put k j v d ∙ rw e refl))
  | inr e ↦ rw e (
      find-update-Unique j extra (put k v d) u
      ∙ ap (either (find j extra)) (find-put k j v d ∙ rw e refl))
]

-- A setting of a project or a worker is the one of its entry, else the one of the defaults, else the
-- one that is built in, where the entry names each key once.
pub get_or-merged :
    (key : String) (built_in : Value) (defaults entry : Doc)
    → Unique entry
    → get_or key built_in (merged defaults entry) ≡ get_or key (get_or key built_in defaults) entry
unfolding merged get_or either
get_or-merged key built_in defaults entry u =
    ap (or_default built_in) (find-update-Unique key entry defaults u)
    ∙ or_default-either built_in (find key entry) (find key defaults)
