-- ===== src/Config/SafeId.antt =====
-- What the ids that src/bridge/config.py accepts look like.
use Prim.Native.Char.{code}
use codearts_bridge.Prelude.{
  ℕ, String, ◌≡◌, ◌≢◌, refl, ap, inl, inr, Bool, true, false, not, ◌&&◌, eqb, arith, if◌then◌else◌,
  Bool-cases,
}
use codearts_bridge.Core.Errors.{Result, ok}
use codearts_bridge.Config.{
  is_alphanumeric, is_id_char, at_end, matches_rest, is_safe_id, assert_safe_id,
}

-- Every character of a text passes a test.
abbrev pub every : (ℕ → Bool) → String → Bool
every test String.[] = true
every test (String.◌∷◌ c s) = test (code c) && every test s

-- What may become part of a path: no separator, and no NUL.
abbrev pub harmless : ℕ → Bool
harmless c = not (eqb c b'/') && not (eqb c 92) && not (eqb c 0)

id_char-harmless : (c : ℕ) → is_id_char c ≡ true → harmless c ≡ true
unfolding is_id_char is_alphanumeric
id_char-harmless c h = ground arith

id_of_alphanumeric : (c : ℕ) → is_alphanumeric c ≡ true → is_id_char c ≡ true
unfolding is_id_char
id_of_alphanumeric c h = ground arith

safe_of :
    (b : Bool) (e : Result (Unit {0})) → (if b then ok tt else e) ≡ ok tt → e ≢ ok tt → b ≡ true
safe_of true e h n = refl
safe_of false e h n = absurd (n h)

end-harmless : (s : String) → at_end s ≡ true → every harmless s ≡ true
unfolding at_end
end-harmless String.[] h = refl
end-harmless (String.◌∷◌ c String.[]) h = ground arith
end-harmless (String.◌∷◌ c (String.◌∷◌ d s)) h = cc

rest-harmless : (s : String) → matches_rest is_id_char s ≡ true → every harmless s ≡ true
unfolding matches_rest
rest-harmless String.[] h = refl
rest-harmless (String.◌∷◌ c s) h = elim (Bool-cases (at_end (String.◌∷◌ c s))) [
  | inl e ↦ end-harmless (String.◌∷◌ c s) e
  | inr e ↦ ground (arith, id_char-harmless (code c), rest-harmless s)
]

abbrev pub first_code : String → ℕ
first_code String.[] = 0
first_code (String.◌∷◌ c s) = code c

starts_alphanumeric :
    (value : String) → is_safe_id value ≡ true → is_alphanumeric (first_code value) ≡ true
unfolding is_safe_id
starts_alphanumeric String.[] h = cc
starts_alphanumeric (String.◌∷◌ c s) h = ground arith

not_dotted :
    (value other : String)
    → is_alphanumeric (first_code other) ≡ false
    → is_safe_id value ≡ true
    → value ≢ other
not_dotted value other h safe e =
    let same = ap (λ v. is_alphanumeric (first_code v)) e in
    let starts = starts_alphanumeric value safe in cc

-- An id that is accepted has no slash, no backslash and no NUL in it, is not empty, and is neither
-- of the names of a directory and its parent.
pub assert_safe_id-harmless :
    (value : String)
    → assert_safe_id value ≡ ok tt
    → (every harmless value ≡ true) × (value ≢ "") × (value ≢ ".") × (value ≢ "..")
unfolding assert_safe_id is_safe_id
assert_safe_id-harmless String.[] h = absurd (cc)
assert_safe_id-harmless (String.◌∷◌ c s) h =
    let safe : is_safe_id (String.◌∷◌ c s) ≡ true =
      safe_of (is_safe_id (String.◌∷◌ c s)) _ h (λ e. cc) in
    (
      ground (arith, rest-harmless s, id_char-harmless (code c), id_of_alphanumeric (code c)),
      not_dotted (String.◌∷◌ c s) "" (unfold is_alphanumeric in refl) safe,
      not_dotted (String.◌∷◌ c s) "." (unfold is_alphanumeric in refl) safe,
      not_dotted (String.◌∷◌ c s) ".." (unfold is_alphanumeric in refl) safe,
    )

-- A text with a line feed at its end.
unfoldable pub with_newline : String → String
with_newline String.[] = "\n"
with_newline (String.◌∷◌ c s) = String.◌∷◌ c (with_newline s)

newline-matches :
    (s : String) → every is_id_char s ≡ true → matches_rest is_id_char (with_newline s) ≡ true
unfolding matches_rest with_newline at_end is_id_char is_alphanumeric
newline-matches String.[] h = refl
newline-matches (String.◌∷◌ c s) h = ground (arith, newline-matches s)

-- A text of the letters, digits, dots, underscores and hyphens that an id allows, the first of them a
-- letter or a digit, is accepted with a line feed behind it, too.
pub assert_safe_id-with_newline :
    (value : String)
    → is_alphanumeric (first_code value) ≡ true
    → every is_id_char value ≡ true
    → assert_safe_id (with_newline value) ≡ ok tt
unfolding assert_safe_id is_safe_id with_newline
assert_safe_id-with_newline String.[] a h = absurd (unfold is_alphanumeric in cc)
assert_safe_id-with_newline (String.◌∷◌ c s) a h = ground (arith, newline-matches s)
