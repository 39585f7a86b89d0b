-- ===== src/Legacy.antt =====
-- src/bridge/state.py: the older layer over state.json, which merges what it is given into what the
-- file holds. An argument that is left out is None, as null.
pub mod Merge
use codearts_bridge.Prelude.{
  String, Bool, true, false, not, ◌&&◌, Option, none, some, List, [], ◌∷◌, ◌==◌, mem, if◌then◌else◌,
}
use codearts_bridge.Core.Value.{
  ℤ, pos, add_one, Value, null, str, int, truthy, to_int, Doc, find, get, get_or, has, put, put_if,
  is_null, File, missing, broken, content,
}
use codearts_bridge.Core.Errors.{Result, ok, raise, json_decode, int_conversion, ◌>>=◌}
use codearts_bridge.Core.State.{read_or_empty, text_of}
use codearts_bridge.Config.{assert_safe_session_id}

abbrev pub candidate_statuses : List String
candidate_statuses = "READY" ∷ "FIX_REQUIRED" ∷ "RETRYABLE" ∷ []

abbrev pub active_statuses : List String
active_statuses = "QUEUED" ∷ "STARTING" ∷ "RUNNING" ∷ []

abbrev pub terminal_statuses : List String
terminal_statuses =
    "DONE" ∷ "FAILED" ∷ "BLOCKED" ∷ "AUTH_REQUIRED" ∷ "CANCELLED" ∷ "INTEGRATION_FAILED" ∷ []

unfoldable pub is_candidate : String → Bool
is_candidate status = mem status candidate_statuses

unfoldable pub is_active : String → Bool
is_active status = mem status active_statuses

unfoldable pub is_terminal : String → Bool
is_terminal status = mem status terminal_statuses

-- `_STATE_TIMESTAMPS`
abbrev pub state_timestamps : Doc
state_timestamps =
    ("QUEUED", str "queuedAt")
    ∷ ("STARTING", str "startedAt")
    ∷ ("RUNNING", str "runningAt")
    ∷ ("REVIEW_REQUIRED", str "finishedAt")
    ∷ ("DONE", str "doneAt")
    ∷ ("FIX_REQUIRED", str "reviewedAt")
    ∷ ("CANCELLED", str "cancelledAt")
    ∷ ("FAILED", str "failedAt")
    ∷ ("BLOCKED", str "blockedAt")
    ∷ ("ASSISTANCE_REQUIRED", str "assistanceAt")
    ∷ ("AUTH_REQUIRED", str "authAt")
    ∷ ("RETRYABLE", str "retryableAt")
    ∷ []

unfoldable pub mirrored : Doc → Doc
mirrored d =
    if truthy (get "state" d)
    then put "status" (get "state" d) d
    else put_if (truthy (get "status" d)) "state" (get "status" d) d

unfoldable pub get_state : File Doc → Result Doc
get_state missing = ok []
get_state broken = raise json_decode
get_state (content d) = ok (mirrored d)

-- The keyword arguments of `set_state`.
pub record Update : Type 0 where
  pub message : Value
  pub exit_code : Value
  pub process_id : Value
  pub session_id : Value
  pub session_mode : Value
  pub last_event_at : Value
  pub last_heartbeat : Value
  pub heartbeat_summary : Value
  pub heartbeat_events : Value
  pub heartbeat_think : Value
  pub heartbeat_tool : Value
  pub tokens : Value
  pub attempt : Value
  pub assigned_worker_id : Value
  pub workspace_mode : Value
  pub workspace_path : Value
  pub commit_sha : Value

abbrev pub no_update : Update
no_update = record {
  message = null;
  exit_code = null;
  process_id = null;
  session_id = null;
  session_mode = null;
  last_event_at = null;
  last_heartbeat = null;
  heartbeat_summary = null;
  heartbeat_events = null;
  heartbeat_think = null;
  heartbeat_tool = null;
  tokens = null;
  attempt = null;
  assigned_worker_id = null;
  workspace_mode = null;
  workspace_path = null;
  commit_sha = null;
}

-- `int(...)`, or its exception
unfoldable pub converted : Option ℤ → Result ℤ
converted none = raise int_conversion
converted (some n) = ok n

unfoldable pub next_revision : Doc → Result ℤ
next_revision old = converted (to_int (get_or "revision" (int (pos 0)) old)) >>= λ n. ok (add_one n)

unfoldable pub next_attempt : Value → Doc → Result Value
next_attempt attempt old =
    if not (is_null attempt)
    then ok attempt
    else if has "attempt" old
    then (converted (to_int (get "attempt" old)) >>= λ n. ok (int n))
    else ok (int (pos 0))

unfoldable pub check_session : Value → Result (Unit {0})
check_session session_id =
    if truthy session_id then assert_safe_session_id (text_of session_id) else ok tt

-- The required fields, over a copy of the old object.
unfoldable pub with_required : (dir_name status now_iso : String) → ℤ → Value → Update → Doc → Doc
with_required dir_name status now_iso revision attempt u old = put "exitCode" u.exit_code (
    put "processId" u.process_id (
      put "message" u.message (
        put "updatedAt" (str now_iso) (
          put "attempt" attempt (
            put "state" (str status) (
              put "status" (str status) (
                put "taskId" (get_or "taskId" (str dir_name) old)
                  (put "schemaVersion" (int (pos 1)) (put "revision" (int revision) old)))))))))

unfoldable pub with_session : Update → Doc → Doc
with_session u d = put_if (truthy u.heartbeat_summary) "heartbeatSummary" u.heartbeat_summary (
    put_if (truthy u.last_heartbeat) "lastHeartbeat" u.last_heartbeat (
      put_if (truthy u.last_event_at) "lastEventAt" u.last_event_at (
        put_if (truthy u.session_mode) "sessionMode" u.session_mode
          (put_if (truthy u.session_id) "sessionId" u.session_id d))))

unfoldable pub with_given : Update → Doc → Doc
with_given u d = put_if (not (is_null u.commit_sha)) "commitSha" u.commit_sha (
    put_if (not (is_null u.workspace_path)) "workspacePath" u.workspace_path (
      put_if (not (is_null u.workspace_mode)) "workspaceMode" u.workspace_mode (
        put_if (not (is_null u.assigned_worker_id)) "assignedWorkerId" u.assigned_worker_id (
          put_if (not (is_null u.tokens)) "tokens" u.tokens (
            put_if (not (is_null u.heartbeat_tool)) "heartbeatTool" u.heartbeat_tool (
              put_if (not (is_null u.heartbeat_think)) "heartbeatThink" u.heartbeat_think (
                put_if (not (is_null u.heartbeat_events)) "heartbeatEvents" u.heartbeat_events
                  d)))))))

-- The time at which a status is set for the first time.
unfoldable pub stamp : String → Value → Doc → Doc
stamp now_iso field d =
    put_if (truthy field && not (has (text_of field) d)) (text_of field) (str now_iso) d

-- The new object, which is written and returned. The event that follows changes nothing here.
unfoldable pub set_state : (dir_name now_iso : String) → File Doc → String → Update → Result Doc
set_state dir_name now_iso file status u = read_or_empty file >>= λ old.
    next_revision old >>= λ revision. next_attempt u.attempt old >>= λ attempt.
    check_session u.session_id >>= λ _. ok (
      stamp now_iso (get status state_timestamps) (
        with_given u
          (with_session u (with_required dir_name status now_iso revision attempt u old))))
