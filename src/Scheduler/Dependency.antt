-- ===== src/Scheduler/Dependency.antt =====
-- src/bridge/scheduler/dependency.py: whether the dependencies of a task are satisfied.
-- The directory of the tasks is a list of names, each with its state.json.
use codearts_bridge.Prelude.{
  String, ◌≡◌, refl, ap, inl, inr, ◌⊎◌, ◌↔◌, Bool, true, false, not, ◌||◌, Option, none, some, List,
  [], ◌∷◌, ◌==◌, eq_iff, mem, if◌then◌else◌, Bool-cases, All, arith,
}
use codearts_bridge.Core.Value.{
  Value, null, bool, int, str, compound, in_states, Doc, get, File, missing, broken, content,
}

abbrev pub States : Type 0
States = List (String × File Doc)

-- `none` where the directory does not exist.
unfoldable pub task_dir : String → States → Option (File Doc)
task_dir task_id [] = none
task_dir task_id ((name, file) ∷ root) =
    if name == task_id then some file else task_dir task_id root

-- `None` stands for itself as null; a file that does not parse counts as no state.
unfoldable pub get_task_state : File Doc → Value
get_task_state missing = null
get_task_state broken = null
get_task_state (content d) = get "state" d

-- `state is None`
unfoldable pub no_value : Value → Bool
no_value null = true
no_value _ = false

abbrev pub default_done_states : List String
default_done_states = "DONE" ∷ "INTEGRATED" ∷ "CANCELLED" ∷ []

-- The body of the loop of `is_dependency_ready`: whether it goes on.
unfoldable pub dependency_done : Option (File Doc) → List String → Bool
dependency_done none done_states = true
dependency_done (some file) done_states =
    if no_value (get_task_state file) then false else in_states (get_task_state file) done_states

unfoldable pub all_done : List String → List String → States → Bool
all_done done_states [] root = true
all_done done_states (dep ∷ deps) root =
    let rest = all_done done_states deps root in
    if dependency_done (task_dir dep root) done_states then rest else false

-- `done_states or {...}`
unfoldable pub is_dependency_ready : List String → States → Option (List String) → Bool
is_dependency_ready depends_on root none = all_done default_done_states depends_on root
is_dependency_ready depends_on root (some []) = all_done default_done_states depends_on root
is_dependency_ready depends_on root (some (s ∷ ss)) = all_done (s ∷ ss) depends_on root

-- The body of the loop of `get_blocked_dependencies`, which names the states itself.
unfoldable pub is_blocking : Option (File Doc) → Bool
is_blocking none = false
is_blocking (some file) =
    no_value (get_task_state file)
    || not (in_states (get_task_state file) ("DONE" ∷ "INTEGRATED" ∷ "CANCELLED" ∷ []))

unfoldable pub get_blocked_dependencies : List String → States → List String
get_blocked_dependencies [] root = []
get_blocked_dependencies (dep ∷ deps) root =
    let rest = get_blocked_dependencies deps root in
    if is_blocking (task_dir dep root) then dep ∷ rest else rest

-- The states in which a dependency no longer holds a task up.
abbrev pub IsOver : Value → Type 0
IsOver state = (state ≡ str "DONE") ⊎ ((state ≡ str "INTEGRATED") ⊎ (state ≡ str "CANCELLED"))

-- There is no directory, or a state.json that parses and names such a state.
abbrev pub IsSatisfied : Option (File Doc) → Type 0
IsSatisfied dir = (dir ≡ none) ⊎ ((d : Doc) × (dir ≡ some (content d)) × IsOver (get "state" d))

in_states-IsOver : (state : Value) → in_states state default_done_states ≡ true → IsOver state
unfolding in_states mem
in_states-IsOver null h = cc
in_states-IsOver (bool b) h = cc
in_states-IsOver (int n) h = cc
in_states-IsOver (compound b t) h = cc
in_states-IsOver (str s) h = elim (Bool-cases (s == "DONE")) [
  | inl e ↦ inl (ap str ((eq_iff s "DONE").0 e))
  | inr e ↦ elim (Bool-cases (s == "INTEGRATED")) [
    | inl f ↦ inr (inl (ap str ((eq_iff s "INTEGRATED").0 f)))
    | inr f ↦ elim (Bool-cases (s == "CANCELLED")) [
      | inl g ↦ inr (inr (ap str ((eq_iff s "CANCELLED").0 g)))
      | inr g ↦ absurd (ground arith)
    ]
  ]
]

dependency_done-IsSatisfied :
    (dir : Option (File Doc)) → dependency_done dir default_done_states ≡ true → IsSatisfied dir
unfolding dependency_done get_task_state no_value
dependency_done-IsSatisfied none h = inl refl
dependency_done-IsSatisfied (some missing) h = cc
dependency_done-IsSatisfied (some broken) h = cc
dependency_done-IsSatisfied (some (content d)) h = elim (Bool-cases (no_value (get "state" d))) [
  | inl e ↦ absurd (ground arith)
  | inr e ↦ inr (d, refl, in_states-IsOver (get "state" d) (rw e at h))
]

is_blocking-IsSatisfied : (dir : Option (File Doc)) → is_blocking dir ≡ false → IsSatisfied dir
unfolding is_blocking get_task_state no_value
is_blocking-IsSatisfied none h = inl refl
is_blocking-IsSatisfied (some missing) h = cc
is_blocking-IsSatisfied (some broken) h = cc
is_blocking-IsSatisfied (some (content d)) h =
    inr (d, refl, in_states-IsOver (get "state" d) (ground arith))

-- A satisfied dependency lets both loops go on.
IsSatisfied-passes :
    (dir : Option (File Doc))
    → IsSatisfied dir
    → (dependency_done dir default_done_states ≡ true) × (is_blocking dir ≡ false)
unfolding dependency_done is_blocking get_task_state no_value in_states mem
IsSatisfied-passes dir (inl e) = rw e (refl, refl)
IsSatisfied-passes dir (inr (d, e, inl over)) = rw (e, over) (refl, refl)
IsSatisfied-passes dir (inr (d, e, inr (inl over))) = rw (e, over) (refl, refl)
IsSatisfied-passes dir (inr (d, e, inr (inr over))) = rw (e, over) (refl, refl)

abbrev pub AllSatisfied : List String → States → Type 0
AllSatisfied deps root = All (λ dep. IsSatisfied (task_dir dep root)) deps

all_done-AllSatisfied :
    (deps : List String) (root : States)
    → all_done default_done_states deps root ≡ true
    → AllSatisfied deps root
unfolding all_done
all_done-AllSatisfied [] root h = tt
all_done-AllSatisfied (dep ∷ deps) root h =
    elim (Bool-cases (dependency_done (task_dir dep root) default_done_states)) [
      | inl e ↦ (
        dependency_done-IsSatisfied (task_dir dep root) e,
        all_done-AllSatisfied deps root (rw e at h),
      )
      | inr e ↦ absurd (ground arith)
    ]

unblocked-AllSatisfied :
    (deps : List String) (root : States)
    → get_blocked_dependencies deps root ≡ []
    → AllSatisfied deps root
unfolding get_blocked_dependencies
unblocked-AllSatisfied [] root h = tt
unblocked-AllSatisfied (dep ∷ deps) root h = elim (Bool-cases (is_blocking (task_dir dep root))) [
  | inl e ↦ let listed = rw e at h in absurd cc
  | inr e ↦
      (is_blocking-IsSatisfied (task_dir dep root) e, unblocked-AllSatisfied deps root (rw e at h))
]

AllSatisfied-passes :
    (deps : List String) (root : States)
    → AllSatisfied deps root
    → (all_done default_done_states deps root ≡ true) × (get_blocked_dependencies deps root ≡ [])
unfolding all_done get_blocked_dependencies
AllSatisfied-passes [] root h = (refl, refl)
AllSatisfied-passes (dep ∷ deps) root (satisfied, rest) =
    let (done, free) = IsSatisfied-passes (task_dir dep root) satisfied in
    rw (done, free) (AllSatisfied-passes deps root rest)

-- With the default states, a task is ready, and likewise no dependency of it is reported as blocked,
-- exactly where each dependency has no directory, or a state.json that parses and whose state is
-- DONE, INTEGRATED or CANCELLED.
pub is_dependency_ready_iff :
    (depends_on : List String) (root : States)
    → ((is_dependency_ready depends_on root none ≡ true) ↔ AllSatisfied depends_on root)
      × ((get_blocked_dependencies depends_on root ≡ []) ↔ AllSatisfied depends_on root)
unfolding is_dependency_ready
is_dependency_ready_iff depends_on root = (
  (all_done-AllSatisfied depends_on root, λ h. (AllSatisfied-passes depends_on root h).0),
  (unblocked-AllSatisfied depends_on root, λ h. (AllSatisfied-passes depends_on root h).1),
)

-- What a blocked dependency is: its directory exists, and it is in no done state.
abbrev IsBlocked : States → String → Type 0
IsBlocked root dep =
    (file : File Doc) × (task_dir dep root ≡ some file)
    × (in_states (get_task_state file) default_done_states ≡ false)

no_state :
    (v : Value)
    → (no_value v || not (in_states v default_done_states)) ≡ true
    → in_states v default_done_states ≡ false
unfolding no_value in_states
no_state null h = refl
no_state (bool b) h = refl
no_state (int n) h = refl
no_state (compound b t) h = refl
no_state (str s) h = ground arith

blocked_dir :
    (o : Option (File Doc))
    → is_blocking o ≡ true
    → (file : File Doc) × (o ≡ some file)
      × (in_states (get_task_state file) default_done_states ≡ false)
unfolding is_blocking
blocked_dir none h = cc
blocked_dir (some file) h = (file, refl, no_state (get_task_state file) h)

-- Each dependency reported as blocked has a directory, and a state outside the done states or none.
pub get_blocked_dependencies-IsBlocked :
    (deps : List String) (root : States) → All (IsBlocked root) (get_blocked_dependencies deps root)
unfolding get_blocked_dependencies
get_blocked_dependencies-IsBlocked [] root = tt
get_blocked_dependencies-IsBlocked (dep ∷ deps) root =
    let ih = get_blocked_dependencies-IsBlocked deps root in
    elim (Bool-cases (is_blocking (task_dir dep root))) [
      | inl e ↦ rw e (blocked_dir (task_dir dep root) e, ih)
      | inr e ↦ rw e ih
    ]
