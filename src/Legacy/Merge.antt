-- ===== src/Legacy/Merge.antt =====
-- What the merge of src/bridge/state.py keeps and what it sets.
use codearts_bridge.Prelude.{
  String, ◌≡◌, refl, ◌∙◌, ap, sym, subst, inl, inr, Bool, true, false, not, ◌&&◌, Option, none,
  some, List, [], ◌∷◌, ◌==◌, arith, eq_iff, Bool-cases, all,
}
use codearts_bridge.Core.Value.{
  ℤ, Value, str, int, Doc, find, find-put, find-put_if, get, has, put, put_if, File, truthy,
}
use codearts_bridge.Core.Errors.{ok, >>=-eq-ok, ok-injective}
use codearts_bridge.Core.State.{read_or_empty, text_of}
use codearts_bridge.Legacy.{
  Update, state_timestamps, next_revision, next_attempt, check_session, with_required, with_session,
  with_given, stamp, set_state,
}

-- The pieces of a call that returns.
pub record Written (dir_name now_iso : String) (file : File Doc) (status : String) (u : Update)
    (d : Doc) : Type 0 where
  pub old : Doc
  pub revision : ℤ
  pub attempt : Value
  pub read : read_or_empty file ≡ ok old
  pub counted : next_revision old ≡ ok revision
  pub tried : next_attempt u.attempt old ≡ ok attempt
  pub safe : check_session u.session_id ≡ ok tt
  pub writes :
      stamp now_iso (get status state_timestamps) (
        with_given u
          (with_session u (with_required dir_name status now_iso revision attempt u old)))
      ≡ d

set_state-Written :
    (dir_name now_iso : String) (file : File Doc) (status : String) (u : Update) (d : Doc)
    → set_state dir_name now_iso file status u ≡ ok d
    → Written dir_name now_iso file status u d
unfolding set_state
set_state-Written dir_name now_iso file status u d h =
    let (old, read, h₁) = >>=-eq-ok (read_or_empty file) _ h in
    let (revision, counted, h₂) = >>=-eq-ok (next_revision old) _ h₁ in
    let (attempt, tried, h₃) = >>=-eq-ok (next_attempt u.attempt old) _ h₂ in
    let (unit, safe, h₄) = >>=-eq-ok (check_session u.session_id) _ h₃ in
    record {
      old = old;
      revision = revision;
      attempt = attempt;
      read = read;
      counted = counted;
      tried = tried;
      safe = safe;
      writes = ok-injective h₄;
    }

stamp-has :
    (now_iso : String) (field : Value) (j : String) (d : Doc)
    → has j d ≡ true
    → find j (stamp now_iso field d) ≡ find j d
unfolding stamp
stamp-has now_iso field j d h =
    find-put_if (truthy field && not (has (text_of field) d)) (text_of field) j (str now_iso) d
    ∙ elim (Bool-cases (text_of field == j)) [
      | inl e ↦
          let there : has (text_of field) d ≡ true =
            subst (λ k. has k d ≡ true) (sym ((eq_iff (text_of field) j).0 e)) h in
          ground arith
      | inr e ↦ rw e refl
    ]

-- None of some keys is `j`.
abbrev pub Apart : String → List String → Type 0
Apart j [] = Unit
Apart j (k ∷ ks) = ((k == j) ≡ false) × Apart j ks

abbrev pub required_keys : List String
required_keys =
    "exitCode" ∷ "processId" ∷ "message" ∷ "updatedAt" ∷ "attempt" ∷ "state" ∷ "status" ∷ "taskId"
    ∷ "schemaVersion" ∷ "revision" ∷ []

abbrev pub session_keys : List String
session_keys =
    "heartbeatSummary" ∷ "lastHeartbeat" ∷ "lastEventAt" ∷ "sessionMode" ∷ "sessionId" ∷ []

abbrev pub given_keys : List String
given_keys =
    "commitSha" ∷ "workspacePath" ∷ "workspaceMode" ∷ "assignedWorkerId" ∷ "tokens"
    ∷ "heartbeatTool" ∷ "heartbeatThink" ∷ "heartbeatEvents" ∷ []

put_other : (k j : String) (v : Value) (d : Doc) → (k == j) ≡ false → find j (put k v d) ≡ find j d
put_other k j v d h = find-put k j v d ∙ rw h refl

put_if_other :
    (b : Bool) (k j : String) (v : Value) (d : Doc)
    → (k == j) ≡ false
    → find j (put_if b k v d) ≡ find j d
put_if_other b k j v d h = find-put_if b k j v d ∙ rw h refl

find-with_required :
    (dir_name status now_iso : String) (n : ℤ) (a : Value) (u : Update) (old : Doc) (j : String)
    → Apart j required_keys
    → find j (with_required dir_name status now_iso n a u old) ≡ find j old
unfolding with_required
find-with_required dir_name status now_iso n a u old j
      (e, (p, (m, (t, (a', (s, (st, (ti, (sc, (r, last)))))))))) =
    simp (find-put, e, p, m, t, a', s, st, ti, sc, r)

find-with_session :
    (u : Update) (d : Doc) (j : String)
    → Apart j session_keys
    → find j (with_session u d) ≡ find j d
unfolding with_session
find-with_session u d j (a, (b, (c, (e, (f, last))))) = simp (find-put_if, a, b, c, e, f)

find-with_given :
    (u : Update) (d : Doc) (j : String) → Apart j given_keys → find j (with_given u d) ≡ find j d
unfolding with_given
find-with_given u d j (a, (b, (c, (e, (f, (g, (h, (i, last)))))))) =
    simp (find-put_if, a, b, c, e, f, g, h, i)

present : Option Value → Bool
present none = false
present (some v) = true

has-find : (j : String) (c d : Doc) → find j c ≡ find j d → has j d ≡ true → has j c ≡ true
unfolding has present
has-find j c d e h = subst (λ o. present o ≡ true) (sym e) h

-- A key that the file has and that no argument stands for keeps its value: the time at which a status
-- was set first is never overwritten.
pub merge_keeps :
    (dir_name now_iso : String) (file : File Doc) (status : String) (u : Update) (old d : Doc)
    (j : String)
    → read_or_empty file ≡ ok old
    → set_state dir_name now_iso file status u ≡ ok d
    → has j old ≡ true
    → Apart j required_keys
    → Apart j session_keys
    → Apart j given_keys
    → find j d ≡ find j old
merge_keeps dir_name now_iso file status u old d j read h there required session given =
    let w = set_state-Written dir_name now_iso file status u d h in
    let same : w.old ≡ old = ok-injective (sym w.read ∙ read) in
    let merged : find j (
          with_given u
            (with_session u (with_required dir_name status now_iso w.revision w.attempt u w.old)))
        ≡ find j old =
      find-with_given u _ j given
      ∙ (find-with_session u _ j session
          ∙ (find-with_required dir_name status now_iso w.revision w.attempt u w.old j required
              ∙ ap (find j) same)) in
    ap (find j) (sym w.writes) ∙ (stamp-has now_iso _ j _ (has-find j _ old merged there) ∙ merged)

required_sets :
    (dir_name status now_iso : String) (n : ℤ) (a : Value) (u : Update) (old : Doc)
    → (find "status" (with_required dir_name status now_iso n a u old) ≡ some (str status))
      × (find "state" (with_required dir_name status now_iso n a u old) ≡ some (str status))
      × (find "revision" (with_required dir_name status now_iso n a u old) ≡ some (int n))
unfolding with_required
required_sets dir_name status now_iso n a u old = (simp find-put, simp find-put, simp find-put)

pub all-Apart : (ks : List String) (j : String) → all (λ k. not (k == j)) ks ≡ true → Apart j ks
all-Apart [] j h = tt
all-Apart (k ∷ ks) j h = (ground arith, all-Apart ks j (ground arith))

-- What the required fields set, the rest of the call leaves.
survives :
    (now_iso : String) (field : Value) (j : String) (u : Update) (d : Doc) (v : Value)
    → find j d ≡ some v
    → Apart j session_keys
    → Apart j given_keys
    → find j (stamp now_iso field (with_given u (with_session u d))) ≡ some v
unfolding has present
survives now_iso field j u d v h session given =
    let merged : find j (with_given u (with_session u d)) ≡ some v =
      find-with_given u _ j given ∙ (find-with_session u d j session ∙ h) in
    stamp-has now_iso field j _ (ap present merged) ∙ merged

-- A call that returns stores the status under both keys, and counts the revision up by one.
pub merge_sets :
    (dir_name now_iso : String) (file : File Doc) (status : String) (u : Update) (old d : Doc)
    (n : ℤ)
    → read_or_empty file ≡ ok old
    → next_revision old ≡ ok n
    → set_state dir_name now_iso file status u ≡ ok d
    → (find "status" d ≡ some (str status))
      × (find "state" d ≡ some (str status))
      × (find "revision" d ≡ some (int n))
merge_sets dir_name now_iso file status u old d n read next h =
    let w = set_state-Written dir_name now_iso file status u d h in
    let same : w.old ≡ old = ok-injective (sym w.read ∙ read) in
    let number : w.revision ≡ n = ok-injective (sym w.counted ∙ (ap next_revision same ∙ next)) in
    let required = with_required dir_name status now_iso w.revision w.attempt u w.old in
    let sets = required_sets dir_name status now_iso w.revision w.attempt u w.old in
    (
      ap (find "status") (sym w.writes)
          ∙ survives now_iso _ "status" u required _ sets.0 (all-Apart session_keys "status" refl)
              (all-Apart given_keys "status" refl),
      ap (find "state") (sym w.writes)
          ∙ survives now_iso _ "state" u required _ sets.1 (all-Apart session_keys "state" refl)
              (all-Apart given_keys "state" refl),
      ap (find "revision") (sym w.writes)
          ∙ (survives now_iso _ "revision" u required _ sets.2
                (all-Apart session_keys "revision" refl) (all-Apart given_keys "revision" refl)
              ∙ ap (λ m. some (int m)) number),
    )

-- A call that returns has written the state that it was given.
pub find-set_state :
    (dir_name now_iso : String) (file : File Doc) (status : String) (u : Update) (d : Doc)
    → set_state dir_name now_iso file status u ≡ ok d
    → find "state" d ≡ some (str status)
find-set_state dir_name now_iso file status u d h =
    let w = set_state-Written dir_name now_iso file status u d h in
    (merge_sets dir_name now_iso file status u w.old d w.revision w.read w.counted h).1
