-- ===== src/Core/State/Table.antt =====
-- What the table of transitions in src/bridge/core/state.py allows.
use codearts_bridge.Prelude.{
  String, ◌≡◌, refl, sym, inl, inr, Bool, true, false, not, ◌&&◌, ◌||◌, List, [], ◌∷◌, arith, ◌==◌,
  eq_iff, mem, all, subst, Bool-cases, and_true,
}
use codearts_bridge.Core.State.{
  Table, transitions, targets, is_valid_transition, is_terminal, all_states, auth_required, created,
}

-- A test of every pair of the table, by evaluation.
unfoldable pub check : (String → String → Bool) → Table → Bool
check test [] = true
check test ((from, to) ∷ table) = all (test from) to && check test table

pub all-at :
    (test : String → Bool) (t : String) (xs : List String)
    → all test xs ≡ true
    → mem t xs ≡ true
    → test t ≡ true
unfolding mem
all-at test t [] h m = cc
all-at test t (x ∷ xs) h m = elim (Bool-cases (t == x)) [
  | inl e ↦ subst (λ y. test y ≡ true) (sym ((eq_iff t x).0 e)) (and_true h).0
  | inr e ↦ all-at test t xs (and_true h).1 (rw e at m)
]

check_sound :
    (test : String → String → Bool) (table : Table) (s t : String)
    → check test table ≡ true
    → mem t (targets table s) ≡ true
    → test s t ≡ true
unfolding check targets mem
check_sound test [] s t h m = cc
check_sound test ((from, to) ∷ table) s t h m = elim (Bool-cases (s == from)) [
  | inl e ↦
      subst (λ y. test y t ≡ true) (sym ((eq_iff s from).0 e))
        (all-at (test from) t to (and_true h).0 (rw e at m))
  | inr e ↦ check_sound test table s t (and_true h).1 (rw e at m)
]

-- A test that every pair of the table passes holds of every valid transition.
pub valid_transition_check :
    (test : String → String → Bool) (s t : String)
    → check test transitions ≡ true
    → is_valid_transition s t ≡ true
    → test s t ≡ true
unfolding is_valid_transition
valid_transition_check test s t h v = check_sound test transitions s t h v

terminal_or_auth : String → String → Bool
unfolding is_terminal
terminal_or_auth s t = not (is_terminal s) || s == auth_required

terminal_or_auth_table : check terminal_or_auth transitions ≡ true
unfolding check terminal_or_auth
terminal_or_auth_table = refl

-- A terminal state that has a valid transition is AUTH_REQUIRED.
pub terminal_outgoing :
    (s t : String) → is_terminal s ≡ true → is_valid_transition s t ≡ true → s ≡ auth_required
unfolding terminal_or_auth
terminal_outgoing s t h v = ground (
  arith,
  valid_transition_check terminal_or_auth s t terminal_or_auth_table v,
  eq_iff s auth_required,
)

known_target : String → String → Bool
unfolding mem
known_target s t = mem s all_states && (mem t all_states && not (t == created))

known_target_table : check known_target transitions ≡ true
unfolding check known_target
known_target_table = refl

-- Both ends of a valid transition are states of ALL_STATES, and none leads back to CREATED.
pub valid_transition-known :
    (s t : String)
    → is_valid_transition s t ≡ true
    → (mem s all_states ≡ true) × (mem t all_states ≡ true) × ((t == created) ≡ false)
unfolding known_target
valid_transition-known s t v =
    let (from, rest) = and_true (valid_transition_check known_target s t known_target_table v) in
    let (to, new) = and_true rest in (from, to, ground arith)

-- Steps along valid transitions, with the states that are entered.
pub data Trail : String → List String → String → Type 0 where
  stop : (s : String) → Trail s [] s
  go :
      {s t u : String} {visited : List String}
      → is_valid_transition s t ≡ true
      → Trail t visited u
      → Trail s (t ∷ visited) u
