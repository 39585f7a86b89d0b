-- ===== src/Tests/Workspace.antt =====
-- Workspace requests of src/bridge/workspace/policy.py.
use codearts_bridge.Prelude.{◌≡◌, refl, none, some, mem}
use codearts_bridge.Core.Value.{is_space, strip_left}
use codearts_bridge.Core.Errors.{ok, raise, value_error}
use codearts_bridge.Workspace.{
  lower_in, lower, strip_right, cleaned, checked_request, normalize_workspace_request, auto_mode,
  isolated_mode, remote_mode, existing_mode, mode_of, resolve_workspace_mode,
}
use codearts_bridge.Workspace.Isolation.{
  Provided, Isolated, resolve_workspace_mode-Provided, resolve_workspace_mode-Isolated,
}

program : Unit {0}
unfolding lower_in lower strip_right cleaned checked_request normalize_workspace_request auto_mode
    isolated_mode remote_mode existing_mode mode_of resolve_workspace_mode is_space strip_left mem
program = tt

worktree_run : resolve_workspace_mode (some " WorkTree ") "Remote-Worktree" ≡ ok "remote-worktree"
unfolding program
worktree_run = refl

ssh_auto : resolve_workspace_mode none "ssh" ≡ ok "existing"
unfolding program
ssh_auto = refl

ssh_isolated : resolve_workspace_mode (some "isolated") "ssh" ≡ raise (value_error "ssh")
unfolding program
ssh_isolated = refl

resolve_workspace_mode-Isolated_example :
    Isolated (cleaned "local" (some "Remote-Worktree")) "remote-worktree"
resolve_workspace_mode-Isolated_example =
    resolve_workspace_mode-Isolated (some " WorkTree ") "Remote-Worktree" "remote-worktree"
      (unfold program in refl) worktree_run

resolve_workspace_mode-Provided_example : Provided (cleaned "local" (some "ssh")) "existing"
resolve_workspace_mode-Provided_example =
    resolve_workspace_mode-Provided none "ssh" "existing" ssh_auto
