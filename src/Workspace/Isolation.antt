-- ===== src/Workspace/Isolation.antt =====
-- The modes that src/bridge/workspace/policy.py gives: isolation that was asked for, and what the
-- transport can do.
use codearts_bridge.Prelude.{
  String, ◌≡◌, ◌⊎◌, inl, inr, refl, Bool, true, false, not, ◌||◌, Option, some, List, [], ◌∷◌, ◌==◌,
  eq_iff, mem, if◌then◌else◌, Bool-cases, arith, sym, subst,
}
use codearts_bridge.Core.Errors.{Result, ok, >>=-eq-ok, ok-injective}
use codearts_bridge.Workspace.{
  cleaned, valid_workspace_requests, checked_request, normalize_workspace_request, auto_mode,
  isolated_mode, remote_mode, existing_mode, mode_of, resolve_workspace_mode,
}

-- A mode that the transport provides.
abbrev pub Provided : String → String → Type 0
Provided transport mode =
    ((mode ≡ "local-worktree") × (transport == "local" ≡ true))
    ⊎ (((mode ≡ "remote-worktree") × (transport == "remote-worktree" ≡ true))
        ⊎ ((mode ≡ "existing") × (mem transport ("local" ∷ "ssh" ∷ "ssh-shell" ∷ []) ≡ true)))

if_cases :
    (b : Bool) (x y : Result String) {m : String}
    → (if b then x else y) ≡ ok m
    → ((b ≡ true) × (x ≡ ok m)) ⊎ ((b ≡ false) × (y ≡ ok m))
if_cases true x y h = inl (refl, h)
if_cases false x y h = inr (refl, h)

abbrev shells : List String
shells = "ssh" ∷ "ssh-shell" ∷ []

mem-shells :
    (transport : String)
    → mem transport shells ≡ true
    → mem transport ("local" ∷ "ssh" ∷ "ssh-shell" ∷ []) ≡ true
unfolding mem
mem-shells transport h = ground arith

auto_mode-Provided :
    (transport mode : String) → auto_mode transport ≡ ok mode → Provided transport mode
unfolding auto_mode
auto_mode-Provided transport mode h = elim (if_cases (transport == "local") _ _ h) [
  | inl (e, m) ↦ inl (sym (ok-injective m), e)
  | inr (e, h₁) ↦ elim (if_cases (transport == "remote-worktree") _ _ h₁) [
    | inl (f, m) ↦ inr (inl (sym (ok-injective m), f))
    | inr (f, h₂) ↦ elim (if_cases (mem transport shells) _ _ h₂) [
      | inl (g, m) ↦ inr (inr (sym (ok-injective m), mem-shells transport g))
      | inr (g, m) ↦ cc
    ]
  ]
]

-- A mode that isolates the task, provided by the transport.
abbrev pub Isolated : String → String → Type 0
Isolated transport mode =
    ((mode ≡ "local-worktree") × (transport == "local" ≡ true))
    ⊎ ((mode ≡ "remote-worktree") × (transport == "remote-worktree" ≡ true))

Isolated-Provided : (transport mode : String) → Isolated transport mode → Provided transport mode
Isolated-Provided transport mode (inl h) = inl h
Isolated-Provided transport mode (inr h) = inr (inl h)

isolated_mode-Isolated :
    (transport mode : String) → isolated_mode transport ≡ ok mode → Isolated transport mode
unfolding isolated_mode
isolated_mode-Isolated transport mode h = elim (if_cases (transport == "local") _ _ h) [
  | inl (e, m) ↦ inl (sym (ok-injective m), e)
  | inr (e, h₁) ↦ elim (if_cases (transport == "remote-worktree") _ _ h₁) [
    | inl (f, m) ↦ inr (sym (ok-injective m), f)
    | inr (f, m) ↦ cc
  ]
]

remote_mode-Isolated :
    (transport mode : String) → remote_mode transport ≡ ok mode → Isolated transport mode
unfolding remote_mode
remote_mode-Isolated transport mode h =
    elim (if_cases (not (transport == "remote-worktree")) _ _ h) [
      | inl (e, m) ↦ cc
      | inr (e, m) ↦ inr (sym (ok-injective m), ground arith)
    ]

existing_mode-Provided :
    (transport mode : String) → existing_mode transport ≡ ok mode → Provided transport mode
unfolding existing_mode
existing_mode-Provided transport mode h = elim (if_cases (transport == "remote-worktree") _ _ h) [
  | inl (e, m) ↦ inr (inl (sym (ok-injective m), e))
  | inr (e, h₁) ↦
      elim (if_cases (not (mem transport ("local" ∷ "ssh" ∷ "ssh-shell" ∷ []))) _ _ h₁) [
        | inl (f, m) ↦ cc
        | inr (f, m) ↦ inr (inr (sym (ok-injective m), ground arith))
      ]
]

abbrev pub isolating : List String
isolating = "isolated" ∷ "worktree" ∷ "local-worktree" ∷ []

mode_of-Provided :
    (request transport mode : String)
    → mode_of request transport ≡ ok mode
    → Provided transport mode
unfolding mode_of
mode_of-Provided request transport mode h = elim (if_cases (request == "auto") _ _ h) [
  | inl (e, m) ↦ auto_mode-Provided transport mode m
  | inr (e, h₁) ↦ elim (if_cases (mem request isolating) _ _ h₁) [
    | inl (f, m) ↦ Isolated-Provided transport mode (isolated_mode-Isolated transport mode m)
    | inr (f, h₂) ↦ elim (if_cases (request == "remote-worktree") _ _ h₂) [
      | inl (g, m) ↦ Isolated-Provided transport mode (remote_mode-Isolated transport mode m)
      | inr (g, h₃) ↦ elim (if_cases (request == "existing") _ _ h₃) [
        | inl (k, m) ↦ existing_mode-Provided transport mode m
        | inr (k, m) ↦ cc
      ]
    ]
  ]
]

not_auto :
    (request : String)
    → (mem request isolating || request == "remote-worktree") ≡ true
    → (request == "auto") ≡ false
unfolding mem
not_auto request h = elim (Bool-cases (request == "auto")) [
  | inr e ↦ e
  | inl e ↦ absurd (
      let wrong : false ≡ true =
        subst (λ r. (mem r isolating || r == "remote-worktree") ≡ true)
          ((eq_iff request "auto").0 e) h in
      cc)
]

mode_of-Isolated :
    (request transport mode : String)
    → (mem request isolating || request == "remote-worktree") ≡ true
    → mode_of request transport ≡ ok mode
    → Isolated transport mode
unfolding mode_of
mode_of-Isolated request transport mode asked h = elim (if_cases (request == "auto") _ _ h) [
  | inl (e, m) ↦ absurd (let no = not_auto request asked in cc)
  | inr (e, h₁) ↦ elim (if_cases (mem request isolating) _ _ h₁) [
    | inl (f, m) ↦ isolated_mode-Isolated transport mode m
    | inr (f, h₂) ↦ elim (if_cases (request == "remote-worktree") _ _ h₂) [
      | inl (g, m) ↦ remote_mode-Isolated transport mode m
      | inr (g, h₃) ↦ absurd (ground arith)
    ]
  ]
]

normalize-cleaned :
    (requested : Option String) (request : String)
    → normalize_workspace_request requested ≡ ok request
    → cleaned "auto" requested ≡ request
unfolding normalize_workspace_request checked_request
normalize-cleaned requested request h =
    elim (if_cases (not (mem (cleaned "auto" requested) valid_workspace_requests)) _ _ h) [
      | inl (e, m) ↦ cc
      | inr (e, m) ↦ ok-injective m
    ]

-- A request that resolves gets a mode that the transport of the project provides: a local worktree
-- on a local project, a remote worktree on one of those, or the existing directory on a local, ssh
-- or ssh-shell project.
pub resolve_workspace_mode-Provided :
    (requested : Option String) (project_transport mode : String)
    → resolve_workspace_mode requested project_transport ≡ ok mode
    → Provided (cleaned "local" (some project_transport)) mode
unfolding resolve_workspace_mode
resolve_workspace_mode-Provided requested project_transport mode h =
    let (request, valid, resolved) = >>=-eq-ok (normalize_workspace_request requested) _ h in
    mode_of-Provided request _ mode resolved

-- A request for isolation, after trimming and lower-casing one of isolated, worktree,
-- local-worktree and remote-worktree, is never downgraded: where it resolves, the mode is a
-- worktree of the kind that the transport of the project provides.
pub resolve_workspace_mode-Isolated :
    (requested : Option String) (project_transport mode : String)
    → (mem (cleaned "auto" requested) isolating || cleaned "auto" requested == "remote-worktree")
      ≡ true
    → resolve_workspace_mode requested project_transport ≡ ok mode
    → Isolated (cleaned "local" (some project_transport)) mode
unfolding resolve_workspace_mode
resolve_workspace_mode-Isolated requested project_transport mode asked h =
    let (request, valid, resolved) = >>=-eq-ok (normalize_workspace_request requested) _ h in
    mode_of-Isolated request _ mode
      (subst (λ r. (mem r isolating || r == "remote-worktree") ≡ true)
        (normalize-cleaned requested request valid) asked)
      resolved
