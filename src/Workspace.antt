-- ===== src/Workspace.antt =====
-- src/bridge/workspace/policy.py: the workspace mode of a task on a transport of its project.
pub mod Isolation
use Prim.Native.Char.{Char, code}
use codearts_bridge.Prelude.{
  String, Bool, true, false, not, ◌&&◌, Option, none, some, List, [], ◌∷◌, ◌==◌, eqb, mem,
  if◌then◌else◌,
}
use codearts_bridge.Core.Value.{is_space, strip_left}
use codearts_bridge.Core.Errors.{Result, ok, raise, value_error, ◌>>=◌}

-- `str.lower` where it gives a letter of ASCII: of the letters of ASCII and of the Kelvin sign. The
-- other characters are left as they are; whatever Python makes of them, it is no part of a mode.
abbrev letters : List (Char × Char)
letters =
    ("A", "a")
    ∷ ("B", "b")
    ∷ ("C", "c")
    ∷ ("D", "d")
    ∷ ("E", "e")
    ∷ ("F", "f")
    ∷ ("G", "g")
    ∷ ("H", "h")
    ∷ ("I", "i")
    ∷ ("J", "j")
    ∷ ("K", "k")
    ∷ ("L", "l")
    ∷ ("M", "m")
    ∷ ("N", "n")
    ∷ ("O", "o")
    ∷ ("P", "p")
    ∷ ("Q", "q")
    ∷ ("R", "r")
    ∷ ("S", "s")
    ∷ ("T", "t")
    ∷ ("U", "u")
    ∷ ("V", "v")
    ∷ ("W", "w")
    ∷ ("X", "x")
    ∷ ("Y", "y")
    ∷ ("Z", "z")
    ∷ ("K", "k")
    ∷ []

unfoldable pub lower_in : List (Char × Char) → Char → Char
lower_in [] c = c
lower_in ((upper, lower) ∷ table) c =
    let rest = lower_in table c in if eqb (code upper) (code c) then lower else rest

unfoldable pub lower : String → String
unfolding lower_in
lower String.[] = String.[]
lower (String.◌∷◌ c s) = String.◌∷◌ (lower_in letters c) (lower s)

unfoldable pub strip_right : String → String
strip_right String.[] = String.[]
strip_right (String.◌∷◌ c s) =
    let rest = strip_right s in if is_space (code c) && rest == "" then "" else String.◌∷◌ c rest

-- `str(value or default).strip().lower()`
unfoldable pub cleaned : String → Option String → String
cleaned default none = lower (strip_right (strip_left default))
cleaned default (some s) = lower (strip_right (strip_left (if s == "" then default else s)))

abbrev pub valid_workspace_requests : List String
valid_workspace_requests =
    "auto" ∷ "isolated" ∷ "existing" ∷ "worktree" ∷ "local-worktree" ∷ "remote-worktree"
    ∷ "shared-readonly" ∷ []

unfoldable pub checked_request : String → Result String
checked_request request =
    if not (mem request valid_workspace_requests) then raise (value_error request) else ok request

unfoldable pub normalize_workspace_request : Option String → Result String
normalize_workspace_request value = checked_request (cleaned "auto" value)

-- The exceptions name the mode or the transport that does not fit.
unfoldable pub auto_mode : String → Result String
auto_mode transport =
    if transport == "local"
    then ok "local-worktree"
    else if transport == "remote-worktree"
    then ok "remote-worktree"
    else if mem transport ("ssh" ∷ "ssh-shell" ∷ [])
    then ok "existing"
    else raise (value_error transport)

unfoldable pub isolated_mode : String → Result String
isolated_mode transport =
    if transport == "local"
    then ok "local-worktree"
    else if transport == "remote-worktree"
    then ok "remote-worktree"
    else raise (value_error transport)

unfoldable pub remote_mode : String → Result String
remote_mode transport =
    if not (transport == "remote-worktree")
    then raise (value_error transport)
    else ok "remote-worktree"

unfoldable pub existing_mode : String → Result String
existing_mode transport =
    if transport == "remote-worktree"
    then ok "remote-worktree"
    else if not (mem transport ("local" ∷ "ssh" ∷ "ssh-shell" ∷ []))
    then raise (value_error transport)
    else ok "existing"

unfoldable pub mode_of : String → String → Result String
mode_of request transport =
    if request == "auto"
    then auto_mode transport
    else if mem request ("isolated" ∷ "worktree" ∷ "local-worktree" ∷ [])
    then isolated_mode transport
    else if request == "remote-worktree"
    then remote_mode transport
    else if request == "existing"
    then existing_mode transport
    else raise (value_error request)

unfoldable pub resolve_workspace_mode : Option String → String → Result String
resolve_workspace_mode requested project_transport =
    normalize_workspace_request requested >>= λ request.
    mode_of request (cleaned "local" (some project_transport))
