-- ===== src/Workflow.antt =====
-- src/core/workflows: the loop of a workflow run. `loopManager.ts` reads the tracker, the second half
-- of `sessionPlan.ts` says when to stop, and `createWorkflowRunner` of `workflowRunner.ts` runs the
-- turns. The harness's turns, the tracker file after each and the calls of `cancel` are a list of
-- rounds, the environment of the run.
pub mod Bounds
pub mod Runner
pub mod Unresolved
pub mod Marked
pub mod Tests
use athena_flow_cli.Common.{
  ℕ, suc, ◌+◌, ◌≤◌, String, Option, none, some, List, [], ◌∷◌, ◌++◌, map, if◌then◌else◌, ◌==◌,
  nat_eq, Bool, true, false, ◌&&◌, ◌||◌, not, ltb, leb, or_else, is_some, keep,
}
use athena_flow_cli.Common.Text.{
  Text, codes, same_text, text_starts_with, includes, trim_start, trim_end, lines, last,
}

pub record LoopConfig : Type 0 where
  pub enabled : Bool
  pub completion_marker : Option Text
  pub max_iterations : ℕ
  pub blocked_marker : Option Text
  pub tracker_path : Option Text

pub record LoopState : Type 0 where
  pub iteration : ℕ
  pub completed : Bool
  pub blocked : Bool
  pub terminal_line : Option Text
  pub skeleton_not_replaced : Bool

pub record LoopManager : Type 0 where
  pub config : LoopConfig
  pub iteration : ℕ

abbrev pub default_completion_marker : Text
default_completion_marker = codes "<!-- WORKFLOW_COMPLETE -->"

abbrev pub default_blocked_marker : Text
default_blocked_marker = codes "<!-- WORKFLOW_BLOCKED"

abbrev pub default_tracker_path : Text
default_tracker_path = codes ".athena/{sessionId}/tracker.md"

abbrev pub tracker_skeleton_marker : Text
tracker_skeleton_marker = codes "<!-- TRACKER_SKELETON -->"

abbrev pub is_empty : Text → Bool
is_empty [] = true
is_empty (c ∷ s) = false

unfoldable pub get_terminal_line : Text → Option Text
get_terminal_line content =
    last
      (keep (λ l. not (is_empty l)) (map (λ l. trim_end (trim_start l)) (lines (trim_end content))))

abbrev pub is_completed : Text → Option Text → Bool
is_completed marker none = false
is_completed marker (some line) = same_text line marker

abbrev pub is_blocked : Text → Option Text → Bool
is_blocked marker none = false
is_blocked marker (some line) =
    same_text line (marker ++ codes " -->") || text_starts_with line (marker ++ codes ":")

unfoldable pub get_state : LoopManager → Text → LoopState
unfolding get_terminal_line
get_state m content =
    let line = get_terminal_line content in
    record {
      iteration = m.iteration;
      completed = is_completed (or_else m.config.completion_marker default_completion_marker) line;
      blocked = is_blocked (or_else m.config.blocked_marker default_blocked_marker) line;
      terminal_line = line;
      skeleton_not_replaced = includes content tracker_skeleton_marker;
    }

-- `blocked` keeps the terminal line, from which the source cuts the reason.
pub data LoopStop : Type 0 where
  completed max_iterations missing_tracker skeleton_not_replaced : LoopStop
  blocked : (line : Option Text) → LoopStop

-- The last test of `shouldContinueWorkflowRun`, and the step to the next iteration.
unfoldable pub stop_at : LoopManager → LoopState → Option LoopStop × Option LoopManager
stop_at m s =
    if s.skeleton_not_replaced
    then (some skeleton_not_replaced, none)
    else if s.completed
    then (some completed, none)
    else if s.blocked
    then (some (blocked s.terminal_line), none)
    else if leb m.config.max_iterations (s.iteration + 1)
    then (some max_iterations, none)
    else (none, some (record m { iteration = m.iteration + 1 }))

-- The manager is there when a loop is enabled and its tracker path resolves; the file is `none` when
-- it does not exist.
unfoldable pub should_continue_workflow_run :
    Option LoopManager → Option Text → Option LoopStop × Option LoopManager
unfolding stop_at get_state
should_continue_workflow_run none file = (none, none)
should_continue_workflow_run (some m) none = (some missing_tracker, none)
should_continue_workflow_run (some m) (some content) = stop_at m (get_state m content)
