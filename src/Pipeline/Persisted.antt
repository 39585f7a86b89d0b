-- ===== src/Pipeline/Persisted.antt =====
-- `PipelineState.to_dict` and `from_dict` of src/bridge/pipeline.py, for runtime/pipeline-state.json.
use codearts_bridge.Prelude.{ℕ, String, ◌≡◌, refl, Option, none, some, ◌==◌, if◌then◌else◌, false}
use codearts_bridge.Core.Value.{pos}
use codearts_bridge.Core.Json.{
  Json, str, int, Members, no_members, member, find, get_or, as_nat, ◌>>=◌,
}
use codearts_bridge.Pipeline.{PipelineState, Status, running, idle, stopped, blocked}

unfoldable pub status_text : Status → String
status_text running = "RUNNING"
status_text idle = "IDLE"
status_text stopped = "STOPPED"
status_text blocked = "BLOCKED"

unfoldable pub status_of_text : String → Option Status
status_of_text s =
    if s == "RUNNING"
    then some running
    else if s == "IDLE"
    then some idle
    else if s == "STOPPED"
    then some stopped
    else if s == "BLOCKED"
    then some blocked
    else none

unfoldable pub as_status : Json → Option Status
as_status (str s) = status_of_text s
as_status _ = none

-- `rate` is the quotient of the first passes and all passes, as JSON.
unfoldable pub state_to_dict : (rate : ℕ → ℕ → Json) → PipelineState → Members
state_to_dict rate s = member "cycleCount" (int (pos s.cycle_count)) (
    member "status" (str (status_text s.status)) (
      member "lastCycleTime" s.last_cycle_time (
        member "totalDispatched" (int (pos s.total_dispatched)) (
          member "totalReviewed" (int (pos s.total_reviewed)) (
            member "totalIntegrated" (int (pos s.total_integrated)) (
              member "totalConflicts" (int (pos s.total_conflicts)) (
                member "firstPassCount" (int (pos s.first_pass_count)) (
                  member "totalPassCount" (int (pos s.total_pass_count)) (
                    member "firstPassRate" (rate s.first_pass_count s.total_pass_count)
                      no_members)))))))))

abbrev zero_time : Json
zero_time = Json.number false "0.0"

-- `none` where a value is of another type, or a status that the code never writes.
unfoldable pub state_from_dict : Members → Option PipelineState
state_from_dict d = do
  cycle_count ← as_nat (get_or "cycleCount" (int (pos 0)) d)
  status ← as_status (get_or "status" (str "IDLE") d)
  total_dispatched ← as_nat (get_or "totalDispatched" (int (pos 0)) d)
  total_reviewed ← as_nat (get_or "totalReviewed" (int (pos 0)) d)
  total_integrated ← as_nat (get_or "totalIntegrated" (int (pos 0)) d)
  total_conflicts ← as_nat (get_or "totalConflicts" (int (pos 0)) d)
  first_pass_count ← as_nat (get_or "firstPassCount" (int (pos 0)) d)
  total_pass_count ← as_nat (get_or "totalPassCount" (int (pos 0)) d)
  some (record {
    cycle_count = cycle_count;
    status = status;
    last_cycle_time = get_or "lastCycleTime" zero_time d;
    total_dispatched = total_dispatched;
    total_reviewed = total_reviewed;
    total_integrated = total_integrated;
    total_conflicts = total_conflicts;
    first_pass_count = first_pass_count;
    total_pass_count = total_pass_count;
  })

as_status-status_text : (status : Status) → as_status (str (status_text status)) ≡ some status
unfolding as_status status_text status_of_text
as_status-status_text running = refl
as_status-status_text idle = refl
as_status-status_text stopped = refl
as_status-status_text blocked = refl

-- The state of the pipeline is recovered from the file that it wrote, whatever the rate says.
pub state_from_dict-state_to_dict :
    (rate : ℕ → ℕ → Json) (s : PipelineState) → state_from_dict (state_to_dict rate s) ≡ some s
unfolding state_from_dict state_to_dict get_or find as_nat ◌>>=◌
state_from_dict-state_to_dict rate s = rw (as_status-status_text s.status) refl
