-- ===== src/Core/Json.antt =====
-- JSON values as `json.loads` returns them, for the parts of a document that nest
-- (src/bridge/core/models.py), with the reading of a field at the type that its annotation names.
use codearts_bridge.Prelude.{
  ℕ, String, ◌≡◌, refl, ◌∙◌, inl, inr, Bool, true, false, ◌&&◌, Option, none, some, List, [], ◌∷◌,
  ◌==◌, arith, eq_iff, eqb, if◌then◌else◌, Bool-cases,
}
use codearts_bridge.Core.Value.{ℤ, pos, negsuc}

-- `number` is a number with a fraction, with its truth value and its text.
mutual
  pub data Json : Type 0 where
    null : Json
    bool : Bool → Json
    int : ℤ → Json
    number : Bool → String → Json
    str : String → Json
    array : Items → Json
    object : Members → Json

  pub data Items : Type 0 where
    no_items : Items
    item : Json → Items → Items

  -- A dictionary, in insertion order.
  pub data Members : Type 0 where
    no_members : Members
    member : String → Json → Members → Members

unfoldable pub find : String → Members → Option Json
find k no_members = none
find k (member j v d) = if j == k then some v else find k d

abbrev pub or_default : Json → Option Json → Json
or_default default none = default
or_default default (some v) = v

-- `d.get(key, default)`
unfoldable pub get_or : String → Json → Members → Json
get_or k default d = or_default default (find k d)

-- `d.get(key)`
unfoldable pub get : String → Members → Json
get k d = get_or k null d

-- `d[key] = value`
unfoldable pub put : String → Json → Members → Members
put k v no_members = member k v no_members
put k v (member j w d) = if j == k then member k v d else member j w (put k v d)

-- `if test: d[key] = value`
unfoldable pub put_if : Bool → String → Json → Members → Members
put_if test key value d = if test then put key value d else d

-- `{**d, **extra}`
unfoldable pub merged : Members → Members → Members
merged d no_members = d
merged d (member k v extra) = merged (put k v d) extra

find-put :
    (k j : String) (v : Json) (d : Members)
    → find j (put k v d) ≡ (if k == j then some v else find j d)
unfolding find put
find-put k j v no_members = refl
find-put k j v (member i w d) = ground (arith, eq_iff k j, eq_iff i k, eq_iff i j, find-put k j v d)

pub find-put_if :
    (test : Bool) (k j : String) (v : Json) (d : Members)
    → find j (put_if test k v d) ≡ (if k == j && test then some v else find j d)
unfolding put_if
find-put_if true k j v d =
    find-put k j v d ∙ elim (Bool-cases (k == j)) [ inl e ↦ rw e refl | inr e ↦ rw e refl ]
find-put_if false k j v d = elim (Bool-cases (k == j)) [ inl e ↦ rw e refl | inr e ↦ rw e refl ]

infixl 1 ◌>>=◌
unfoldable pub ◌>>=◌ {ℓ κ} : {A : Type ℓ} {B : Type κ} → Option A → (A → Option B) → Option B
none >>= f = none
some a >>= f = f a

-- A field read at its type: `none` where the value is of another one, which the code would store.
unfoldable pub as_text : Json → Option String
as_text (str s) = some s
as_text _ = none

unfoldable pub as_bool : Json → Option Bool
as_bool (bool b) = some b
as_bool _ = none

unfoldable pub as_int : Json → Option ℤ
as_int (int n) = some n
as_int _ = none

unfoldable pub as_nat : Json → Option ℕ
as_nat (int (pos n)) = some n
as_nat _ = none

unfoldable pub as_object : Json → Option Members
as_object (object d) = some d
as_object _ = none

-- `str | None`
unfoldable pub as_optional_text : Json → Option (Option String)
as_optional_text null = some none
as_optional_text (str s) = some (some s)
as_optional_text _ = none

texts_of : Items → Option (List String)
unfolding as_text
texts_of no_items = some []
texts_of (item v vs) = do s ← as_text v; rest ← texts_of vs; some (s ∷ rest)

-- `list[str]`
unfoldable pub as_texts : Json → Option (List String)
unfolding texts_of
as_texts (array vs) = texts_of vs
as_texts _ = none

items_of : List String → Items
items_of [] = no_items
items_of (s ∷ ss) = item (str s) (items_of ss)

unfoldable pub of_texts : List String → Json
unfolding items_of
of_texts ss = array (items_of ss)

-- `None`, or a text
unfoldable pub of_optional : Option String → Json
of_optional none = null
of_optional (some s) = str s

-- `d or {}`, of what is an object, or counts as false
unfoldable pub object_or_empty : Json → Option Members
object_or_empty (object d) = some d
object_or_empty null = some no_members
object_or_empty (bool b) = if b then none else some no_members
object_or_empty (int (pos n)) = if eqb n 0 then some no_members else none
object_or_empty (int (negsuc n)) = none
object_or_empty (number b s) = if b then none else some no_members
object_or_empty (str s) = if s == "" then some no_members else none
object_or_empty (array no_items) = some no_members
object_or_empty (array (item v vs)) = none

pub as_texts-of_texts : (ss : List String) → as_texts (of_texts ss) ≡ some ss
unfolding as_texts of_texts texts_of items_of as_text ◌>>=◌
as_texts-of_texts [] = refl
as_texts-of_texts (s ∷ ss) =
    let rest : texts_of (items_of ss) ≡ some ss = as_texts-of_texts ss in rw rest refl

pub as_optional_text-of_optional : (o : Option String) → as_optional_text (of_optional o) ≡ some o
unfolding as_optional_text of_optional
as_optional_text-of_optional none = refl
as_optional_text-of_optional (some s) = refl
