-- ===== src/Core/State/Effect.antt =====
-- What a call of set_state of src/bridge/core/state.py changes in state.json.
use codearts_bridge.Prelude.{String, ◌≡◌, refl, sym, ◌∙◌, ap, subst, false, some, ◌==◌}
use codearts_bridge.Core.Value.{
  ℤ, add_one, Value, str, Doc, find, get_or, has, put, find-put, File, to_int, or_default, pos,
}
use codearts_bridge.Core.Errors.{ok, ok-injective}
use codearts_bridge.Core.State.{set_state, read_or_empty, with_extra, revision_of}
use codearts_bridge.Core.State.Update.{find-update, set_state-Written}

find-with_extra :
    (j : String) (c extra : Doc) (s : String)
    → ("state" == j) ≡ false
    → ("status" == j) ≡ false
    → has j extra ≡ false
    → find j (with_extra c s extra) ≡ find j c
unfolding with_extra
find-with_extra j c extra s p q h =
    simp (find-put, p, q) (find-update j extra _ h ∙ simp (find-put, p, q))

-- A successful write stores the new state under both aliases, whatever the payload holds.
pub set_state-aliases :
    (file : File Doc) (state : String) (extra d : Doc)
    → set_state file state extra ≡ ok d
    → (find "state" d ≡ some (str state)) × (find "status" d ≡ some (str state))
unfolding with_extra
set_state-aliases file state extra d h =
    let w = set_state-Written file state extra d h in
    (
      subst (λ x. find "state" x ≡ some (str state)) w.writes (simp find-put),
      subst (λ x. find "status" x ≡ some (str state)) w.writes (simp find-put),
    )

same_current :
    (file : File Doc) {a b : Doc} → read_or_empty file ≡ ok a → read_or_empty file ≡ ok b → a ≡ b
same_current file p q = ok-injective (sym p ∙ q)

-- A successful write keeps every key but the aliases, the revision and those of the payload.
pub set_state-keeps :
    (file : File Doc) (state : String) (extra current d : Doc) (j : String)
    → read_or_empty file ≡ ok current
    → set_state file state extra ≡ ok d
    → ("state" == j) ≡ false
    → ("status" == j) ≡ false
    → ("revision" == j) ≡ false
    → has j extra ≡ false
    → find j d ≡ find j current
set_state-keeps file state extra current d j r h p q v x =
    let w = set_state-Written file state extra d h in
    let kept : find j
          (put "revision" (Value.int (add_one w.revision)) (with_extra w.current state extra))
        ≡ find j w.current =
      find-put "revision" j _ _ ∙ rw v (find-with_extra j w.current extra state p q x) in
    subst (λ y. find j y ≡ find j w.current) w.writes kept
    ∙ ap (find j) (same_current file w.reads r)

revision_of-eq : (a b : Doc) → find "revision" a ≡ find "revision" b → revision_of a ≡ revision_of b
unfolding revision_of get_or
revision_of-eq a b e = ap (λ o. to_int (or_default (Value.int (pos 0)) o)) e

-- Where the payload names no revision, a successful write counts the stored one up, from 0 if the
-- file has none.
pub set_state-revision :
    (file : File Doc) (state : String) (extra current d : Doc)
    → read_or_empty file ≡ ok current
    → set_state file state extra ≡ ok d
    → has "revision" extra ≡ false
    → (n : ℤ) × (revision_of current ≡ some n) × (find "revision" d ≡ some (Value.int (add_one n)))
set_state-revision file state extra current d r h x =
    let w = set_state-Written file state extra d h in
    let same : find "revision" (with_extra w.current state extra) ≡ find "revision" current =
      find-with_extra "revision" w.current extra state refl refl x
      ∙ ap (find "revision") (same_current file w.reads r) in
    (
      w.revision,
      sym (revision_of-eq _ current same) ∙ w.converts,
      subst (λ y. find "revision" y ≡ some (Value.int (add_one w.revision))) w.writes
          (simp find-put),
    )
