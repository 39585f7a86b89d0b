-- ===== src/Core/State/Update.antt =====
-- What set_state and get_state of src/bridge/core/state.py make of state.json.
use codearts_bridge.Prelude.{
  String, ◌≡◌, refl, ◌∙◌, subst, inl, inr, ◌⊎◌, Bool, true, false, not, ◌&&◌, Option, some, none,
  [], ◌∷◌, arith, ◌==◌, Bool-cases, if◌then◌else◌,
}
use codearts_bridge.Core.Value.{
  ℤ, add_one, Value, str, truthy, Doc, find, get, get_or, has, put, update, find-put, is_text, File,
  content, missing, broken,
}
use codearts_bridge.Core.Errors.{Result, ok, raise, >>=-eq-ok, ok-injective, Error}
use codearts_bridge.Core.State.{
  get_state, set_state, normalize, read_or_empty, from_state_of, valid_from, with_extra,
  with_revision, revision_of, created,
}

pub find-update :
    (j : String) (extra d : Doc) → has j extra ≡ false → find j (update extra d) ≡ find j d
unfolding update has find
find-update j [] d h = refl
find-update j ((k, v) ∷ extra) d h = elim (Bool-cases (k == j)) [
  | inl e ↦ absurd (ground arith)
  | inr e ↦ find-update j extra (put k v d) (ground arith) ∙ (find-put k j v d ∙ rw e)
]

pub get-put :
    (k j : String) (v : Value) (d : Doc) → get j (put k v d) ≡ (if k == j then v else get j d)
unfolding get get_or
get-put k j v d = ground (arith, find-put k j v d)

normalize-aliases :
    (d : Doc)
    → (get "state" (normalize d) ≡ get "status" (normalize d))
      × (truthy (get "state" (normalize d)) ≡ true)
unfolding normalize
normalize-aliases d = elim (Bool-cases (truthy (get "state" d))) [
  | inl e ↦ rw e (simp get-put, simp get-put e)
  | inr e ↦ elim (Bool-cases (truthy (get "status" d))) [
    | inl f ↦ rw (e, f) (simp get-put, simp get-put f)
    | inr f ↦ rw (e, f) (simp get-put, simp get-put (unfold truthy in refl))
  ]
]

abbrev Agree : Doc → Type 0
Agree d = (get "state" d ≡ get "status" d) × (truthy (get "state" d) ≡ true)

normalize-empty : normalize [] ≡ ("state", str created) ∷ ("status", str created) ∷ []
unfolding normalize get get_or find truthy put
normalize-empty = refl

-- Reading makes the two aliases agree, and gives a state to every file that parses.
pub get_state-aliases :
    (file : File Doc) (d : Doc)
    → get_state file ≡ ok d
    → (get "state" d ≡ get "status" d) × (truthy (get "state" d) ≡ true)
unfolding get_state
get_state-aliases missing d e =
    subst Agree (normalize-empty ∙ ok-injective e) (normalize-aliases [])
get_state-aliases broken d e = cc
get_state-aliases (content document) d e = subst Agree (ok-injective e) (normalize-aliases document)

with_revision-eq-ok :
    (c d : Doc) (o : Option ℤ)
    → with_revision c o ≡ ok d
    → (n : ℤ) × (o ≡ some n) × (put "revision" (Value.int (add_one n)) c ≡ d)
unfolding with_revision
with_revision-eq-ok c d none h = cc
with_revision-eq-ok c d (some n) h = (n, refl, ok-injective h)

-- The transition that a successful write makes is the identity or one of the table.
abbrev pub Allowed : Value → String → Type 0
Allowed from state = (is_text from state ≡ true) ⊎ (valid_from from state ≡ true)

-- A write that succeeds: what it read, that the transition was allowed, and what it wrote.
pub record Written (file : File Doc) (state : String) (extra d : Doc) : Type 0 where
  pub current : Doc
  pub reads : read_or_empty file ≡ ok current
  pub allowed : Allowed (from_state_of current) state
  pub revision : ℤ
  pub converts : revision_of (with_extra current state extra) ≡ some revision
  pub writes : put "revision" (Value.int (add_one revision)) (with_extra current state extra) ≡ d

allowed_cases :
    (a b : Bool) (r : Result Doc) (e : Error) {d : Doc}
    → (if not a && not b then raise e else r) ≡ ok d
    → ((a ≡ true) ⊎ (b ≡ true)) × (r ≡ ok d)
allowed_cases true b r e h = (inl refl, h)
allowed_cases false true r e h = (inr refl, h)
allowed_cases false false r e h = cc

pub set_state-Written :
    (file : File Doc) (state : String) (extra d : Doc)
    → set_state file state extra ≡ ok d
    → Written file state extra d
unfolding set_state
set_state-Written file state extra d h =
    let (current, reads, rest) = >>=-eq-ok (read_or_empty file) _ h in
    let next = with_extra current state extra in
    let (allowed, written) =
      allowed_cases (is_text (from_state_of current) state)
        (valid_from (from_state_of current) state) (with_revision next (revision_of next)) _ rest in
    let (n, converts, writes) = with_revision-eq-ok next d (revision_of next) written in
    record {
      current = current;
      reads = reads;
      allowed = allowed;
      revision = n;
      converts = converts;
      writes = writes;
    }
