-- ===== src/StateEvents/Announced.antt =====
-- How src/bridge/state_events.py announces the transitions that src/bridge/core/state.py allows.
use codearts_bridge.Prelude.{String, ◌≡◌, ◌≢◌, refl, Bool, true, not, ◌==◌, arith, eq_iff, mem}
use codearts_bridge.Core.Value.{str, is_text}
use codearts_bridge.Core.State.{transitions, is_valid_transition}
use codearts_bridge.Core.State.Table.{check, valid_transition_check}
use codearts_bridge.StateEvents.{map_event_type}

is_quiet : String → String → Bool
unfolding map_event_type is_text mem
is_quiet s t = not (map_event_type (str s) t == "review.required")

quiet_table : check is_quiet transitions ≡ true
unfolding check is_quiet
quiet_table = refl

-- No transition of the table is announced as "review.required".
pub map_event_type-ne-review_required :
    (s t : String) → is_valid_transition s t ≡ true → map_event_type (str s) t ≢ "review.required"
unfolding is_quiet
map_event_type-ne-review_required s t valid e =
    let quiet = valid_transition_check is_quiet s t quiet_table valid in
    let same = (eq_iff (map_event_type (str s) t) "review.required").1 e in absurd (ground arith)
