-- ===== src/Conflict.antt =====
-- src/bridge/conflict.py: the conflict of a task's commit with what the main branch has since. What
-- git prints is an argument: the changed files, with none where the command fails, and the diff.
pub mod Overlap
use Prim.Native.String.{compare}
use Prim.Native.Nat.{Ordering}
use codearts_bridge.Prelude.{
  ℕ, suc, String, Bool, true, false, not, Option, none, some, List, [], ◌∷◌, ◌++◌, ◌==◌, keep, mem,
  map, if◌then◌else◌,
}
use codearts_bridge.Prelude.Sort.{sort}
use codearts_bridge.Core.Value.{
  Value, str, int, pos, ◌or◌, truthy, Doc, get, get_or, File, missing, broken, content,
}
use codearts_bridge.Core.Errors.{Result, ok, raise, json_decode, ◌>>=◌}
use codearts_bridge.Core.State.{read_or_empty, text_of}
use codearts_bridge.Config.{Registry, ProjectConfig, get_project_config}
use codearts_bridge.Legacy.{no_update, get_state, set_state}
use codearts_bridge.Events.{Log, Line, max_seq, lines_of}
use codearts_bridge.Scheduler.Matcher.{distinct}

-- `context`, with what it names
pub data Context : Type 0 where
  no_meta : Context
  no_commit : Context
  no_project_root : Context
  overlap : List String → Context
  disjoint : Context

pub record ConflictResult : Type 0 where
  pub task_id : String
  pub conflict : Bool
  pub conflicting_files : List String
  pub task_files : List String
  pub main_files : List String
  pub context : Context

abbrev pub no_conflict : String → Context → ConflictResult
no_conflict task_id context = record {
  task_id = task_id;
  conflict = false;
  conflicting_files = [];
  task_files = [];
  main_files = [];
  context = context;
}

unfoldable pub by_text : String → String → Bool
by_text s t = elim (compare s t) [ Ordering.gt ↦ false | _ ↦ true ]

-- `sorted(set(files))`
unfoldable pub sorted_set : List String → List String
sorted_set files = sort by_text (distinct files)

unfoldable pub overlapping : List String → List String → List String
overlapping task_files main_files = keep (λ f. mem f main_files) (distinct task_files)

abbrev pub context_of : List String → Context
context_of [] = disjoint
context_of (f ∷ fs) = overlap (sort by_text (f ∷ fs))

abbrev pub is_some_file : List String → Bool
is_some_file [] = false
is_some_file (f ∷ fs) = true

unfoldable pub compare_files : String → List String → List String → ConflictResult
compare_files task_id task_files main_files =
    let both = overlapping task_files main_files in
    record {
      task_id = task_id;
      conflict = is_some_file both;
      conflicting_files = sort by_text both;
      task_files = sorted_set task_files;
      main_files = sorted_set main_files;
      context = context_of both;
    }

-- `none` is a registry that is missing or does not load.
unfoldable pub resolve_project_root : Option (Registry ProjectConfig) → Doc → Option String
resolve_project_root none meta = none
resolve_project_root (some registry) meta =
    elim (get_project_config registry (text_of (get_or "projectId" (str "") meta))) [
      | raise e ↦ none
      | ok project ↦ some (text_of project.project_root)
    ]

-- The files that the commit changed, and those that main has changed since, at a project's root.
module _ (changed_files main_files : (commit root : String) → List String)
    (registry : Option (Registry ProjectConfig)) where
  unfoldable pub detect_at : String → String → Option String → ConflictResult
  detect_at task_id commit none = no_conflict task_id no_project_root
  detect_at task_id commit (some root) =
      compare_files task_id (changed_files commit root) (main_files commit root)

  unfoldable pub detect_read : String → Doc → Doc → ConflictResult
  detect_read task_id meta state =
      let commit = ◌or◌ (get "commitSha" state) (get "commitSha" meta) in
      if truthy commit
      then detect_at task_id (text_of commit) (resolve_project_root registry meta)
      else no_conflict task_id no_commit

  unfoldable pub detect_meta : String → File Doc → Doc → Result ConflictResult
  detect_meta task_id state [] = ok (no_conflict task_id no_meta)
  detect_meta task_id state (entry ∷ meta) =
      get_state state >>= λ s. ok (detect_read task_id (entry ∷ meta) s)

  unfoldable pub detect_conflict : String → File Doc → File Doc → Result ConflictResult
  detect_conflict task_id meta state = read_or_empty meta >>= detect_meta task_id state

  -- The state, the texts written to the outbox under the names of the files, the last one counting,
  -- and runtime/events.jsonl.
  pub record TaskFiles : Type 0 where
    pub state : File Doc
    pub outbox : List (String × String)
    pub events : Log

  pub record ConflictResolution : Type 0 where
    pub task_id : String
    pub marked_conflict : Bool
    pub conflict_diff_written : Bool
    pub event_written : Bool

  abbrev pub nothing_done : String → ConflictResolution
  nothing_done task_id = record {
    task_id = task_id;
    marked_conflict = false;
    conflict_diff_written = false;
    event_written = false;
  }

  -- One more than the highest number; lines that do not parse, or have none, are passed over.
  unfoldable pub next_event_seq : Log → ℕ
  next_event_seq none = 1
  next_event_seq (some lines) = suc (max_seq 0 lines)

  -- `diff` is what git prints for a commit at a root, `none` where it fails; `report` is the text of
  -- CONFLICT.md, and `files_value` the array of the conflicting files.
  module _ (diff : (commit root : String) → Option String) (report : ConflictResult → String)
      (files_value : List String → Value) where
    unfoldable pub conflict_event : String → ℕ → ConflictResult → Doc
    conflict_event now_iso seq cr =
        ("seq", int (pos seq))
        ∷ ("timestamp", str now_iso)
        ∷ ("type", str "CONFLICT")
        ∷ ("taskId", str cr.task_id)
        ∷ ("conflictingFiles", files_value cr.conflicting_files)
        ∷ []

    abbrev pub with_diff : Option String → TaskFiles → TaskFiles
    with_diff none t = t
    with_diff (some text) t = record t { outbox = t.outbox ++ ("conflict.diff", text) ∷ [] }

    abbrev pub is_written : Option String → Bool
    is_written none = false
    is_written (some text) = true

    -- The diff, where there is a commit and a root.
    unfoldable pub diff_of : Value → Option String → Option String
    diff_of commit none = none
    diff_of commit (some root) = if truthy commit then diff (text_of commit) root else none

    unfoldable pub recorded :
        String → ConflictResult → Option String → TaskFiles → ConflictResolution × TaskFiles
    recorded now_iso cr text t = (
      record {
        task_id = cr.task_id;
        marked_conflict = true;
        conflict_diff_written = is_written text;
        event_written = true;
      },
      record (with_diff text t) {
        outbox = (with_diff text t).outbox ++ ("CONFLICT.md", report cr) ∷ [];
        events = some (
            lines_of t.events
            ++ Line.object (conflict_event now_iso (next_event_seq t.events) cr) ∷ []);
      },
    )

    -- After the state is CONFLICT: the state and META.json are read again.
    unfoldable pub after_mark :
        String
        → ConflictResult
        → File Doc
        → TaskFiles
        → Result Doc
        → Result (ConflictResolution × TaskFiles)
    after_mark now_iso cr meta t (raise e) = raise e
    after_mark now_iso cr meta t (ok d) = read_or_empty meta >>= λ m. get_state (content d) >>= λ s.
        ok (
          recorded now_iso cr
            (diff_of (◌or◌ (get "commitSha" s) (get "commitSha" m))
              (resolve_project_root registry m))
            (record t { state = content d }))

    unfoldable pub handle_detected :
        String → File Doc → TaskFiles → ConflictResult → Result (ConflictResolution × TaskFiles)
    handle_detected now_iso meta t cr =
        if cr.conflict
        then after_mark now_iso cr meta t
            (set_state cr.task_id now_iso t.state "CONFLICT" no_update)
        else ok (nothing_done cr.task_id, t)

    -- What an exception leaves behind is not modelled here.
    unfoldable pub handle_conflict :
        String → String → File Doc → TaskFiles → Result (ConflictResolution × TaskFiles)
    handle_conflict now_iso task_id meta t =
        detect_conflict task_id meta t.state >>= handle_detected now_iso meta t
