-- ===== src/Core/Value.antt =====
-- JSON documents as the bridge reads and writes them (src/bridge/atomic.py): values, files, and
-- objects as Python dictionaries in insertion order.
use Prim.Native.Char.{code}
use codearts_bridge.Prelude.{
  ℕ, zero, suc, ◌+◌, ◌-◌, ◌*◌, String, ◌≡◌, refl, Bool, true, false, not, ◌&&◌, ◌||◌, Option, none,
  some, List, [], ◌∷◌, arith, ◌==◌, eq_iff, eqb, leb, if◌then◌else◌, mem, Bool-cases, ◌∙◌, inl, inr,
}

-- `negsuc n` is -(n + 1).
pub data ℤ : Type 0 where
  pos : ℕ → ℤ
  negsuc : ℕ → ℤ

unfoldable pub add_one : ℤ → ℤ
add_one (pos n) = pos (n + 1)
add_one (negsuc zero) = pos 0
add_one (negsuc (suc n)) = negsuc n

pos_part : ℤ → ℕ
pos_part (pos n) = n
pos_part (negsuc n) = 0

neg_part : ℤ → ℕ
neg_part (pos n) = 0
neg_part (negsuc n) = suc n

unfoldable pub leb_ℤ : ℤ → ℤ → Bool
unfolding pos_part neg_part
leb_ℤ a b = leb (pos_part a + neg_part b) (pos_part b + neg_part a)

-- `compound` is a number with a fraction, an array or an object, with its truth value and its text:
-- the code only passes it on.
pub data Value : Type 0 where
  null : Value
  bool : Bool → Value
  int : ℤ → Value
  str : String → Value
  compound : Bool → String → Value

-- `if value:`
unfoldable pub truthy : Value → Bool
truthy null = false
truthy (bool b) = b
truthy (int (pos n)) = not (eqb n 0)
truthy (int (negsuc n)) = true
truthy (str s) = not (s == "")
truthy (compound b _) = b

-- `a or b`
unfoldable pub ◌or◌ : Value → Value → Value
unfolding truthy
◌or◌ a b = if truthy a then a else b

-- `value == text`
unfoldable pub is_text : Value → String → Bool
is_text (str s) t = s == t
is_text _ t = false

is_digit : ℕ → Bool
is_digit c = leb b'0' c && leb c b'9'

unfoldable pub is_space : ℕ → Bool
is_space c = eqb c 32 || leb 9 c && leb c 13

-- `value in states`, of a set of texts
unfoldable pub in_states : Value → List String → Bool
in_states (str s) states = mem s states
in_states _ states = false

-- The digits of `int(text)`: after a digit, a digit, one underscore and a digit, or white space up
-- to the end.
only_space : String → Bool
unfolding is_space
only_space String.[] = true
only_space (String.◌∷◌ c s) = is_space (code c) && only_space s

digits : ℕ → Bool → String → Option ℕ
unfolding is_digit only_space
digits n after_digit String.[] = if after_digit then some n else none
digits n after_digit (String.◌∷◌ c s) =
    let more =
      digits (if is_digit (code c) then n * 10 + (code c - b'0') else n) (is_digit (code c)) s in
    if is_digit (code c) || after_digit && eqb (code c) b'_'
    then more
    else if after_digit && is_space (code c) && only_space s
    then some n
    else none

negate : ℕ → ℤ
negate zero = pos 0
negate (suc n) = negsuc n

signed : String → Option ℤ
unfolding digits negate
signed String.[] = none
signed (String.◌∷◌ c s) =
    if eqb (code c) b'-'
    then elim (digits 0 false s) [ none ↦ none | some n ↦ some (negate n) ]
    else elim (digits 0 false (if eqb (code c) b'+' then s else String.◌∷◌ c s)) [
      | none ↦ none
      | some n ↦ some (pos n)
    ]

unfoldable pub strip_left : String → String
unfolding is_space
strip_left String.[] = String.[]
strip_left (String.◌∷◌ c s) =
    let rest = strip_left s in if is_space (code c) then rest else String.◌∷◌ c s

-- `int(value)`; `none` is the TypeError or ValueError. Of `compound` values it takes the numbers
-- with a fraction, which no field that the code converts holds: they count as an error here.
unfoldable pub to_int : Value → Option ℤ
unfolding signed strip_left
to_int null = none
to_int (bool b) = some (pos (if b then 1 else 0))
to_int (int n) = some n
to_int (str s) = signed (strip_left s)
to_int (compound _ _) = none

abbrev pub Doc : Type 0
Doc = List (String × Value)

-- `d.get(key)`; a missing key and a null are told apart by `has`.
unfoldable pub find : String → Doc → Option Value
find k [] = none
find k ((j, v) ∷ d) = if j == k then some v else find k d

abbrev pub or_default : Value → Option Value → Value
or_default default none = default
or_default default (some v) = v

-- `d.get(key, default)`
unfoldable pub get_or : String → Value → Doc → Value
get_or k default d = or_default default (find k d)

-- `d.get(key)`
unfoldable pub get : String → Doc → Value
get k d = get_or k null d

-- `key in d`
unfoldable pub has : String → Doc → Bool
has k d = elim (find k d) [ none ↦ false | some _ ↦ true ]

-- `d[key] = value`
unfoldable pub put : String → Value → Doc → Doc
put k v [] = (k, v) ∷ []
put k v ((j, w) ∷ d) = if j == k then (k, v) ∷ d else (j, w) ∷ put k v d

-- `d.update(extra)`
unfoldable pub update : Doc → Doc → Doc
update [] d = d
update ((k, v) ∷ extra) d = update extra (put k v d)

pub find-put :
    (k j : String) (v : Value) (d : Doc)
    → find j (put k v d) ≡ (if k == j then some v else find j d)
unfolding find put
find-put k j v [] = refl
find-put k j v ((i, w) ∷ d) = ground (arith, eq_iff k j, eq_iff i k, eq_iff i j, find-put k j v d)

-- `if test: d[key] = value`
unfoldable pub put_if : Bool → String → Value → Doc → Doc
put_if test key value d = if test then put key value d else d

unfoldable pub is_null : Value → Bool
is_null null = true
is_null _ = false

pub find-put_if :
    (test : Bool) (k j : String) (v : Value) (d : Doc)
    → find j (put_if test k v d) ≡ (if k == j && test then some v else find j d)
unfolding put_if
find-put_if true k j v d =
    find-put k j v d ∙ elim (Bool-cases (k == j)) [ inl e ↦ rw e refl | inr e ↦ rw e refl ]
find-put_if false k j v d = elim (Bool-cases (k == j)) [ inl e ↦ rw e refl | inr e ↦ rw e refl ]

-- The file of a JSON object. `broken` does not parse.
pub data File {ℓ} (A : Type ℓ) : Type ℓ where
  missing : File A
  broken : File A
  content : A → File A

-- `n == 0`
unfoldable pub is_zero : ℤ → Bool
is_zero (pos n) = eqb n 0
is_zero (negsuc n) = false
