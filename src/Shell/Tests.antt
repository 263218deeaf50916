-- ===== src/Shell/Tests.antt =====
-- The theorems at sample layouts.
use athena_flow_cli.Common.{
  some, [], ◌∷◌, true, false, pos, arith, ◌≡◌, refl, string_discrete, option_discrete,
}
use native.Mathlib.Decide.{ℕ_discrete}
use athena_flow_cli.Shell.UiState.{
  SessionUiState, SessionUiContext, initial_session_ui_state, FocusMode, FocusMode-discrete,
  move_feed_cursor, toggle_todo_visible,
}
use athena_flow_cli.Shell.Scroll.{
  compute_feed_state, resolve_id_to_index, scroll_to, index_of, resolve_index_to_id,
}
use athena_flow_cli.Shell.Resolve.{
  resolve_focus, resolve_match, index_or_last, resolve_session_ui_state,
}
use athena_flow_cli.Shell.Resolve.Shows.{Shows, resolve-Shows}
use athena_flow_cli.Shell.Resolve.Settled.{resolve_twice}
use athena_flow_cli.Shell.Reduce.{reduce_session_ui_state}
use athena_flow_cli.Shell.Reduce.Bounds.{InBounds}
use athena_flow_cli.Shell.Reduce.Actions.{reduce-InBounds}

abbrev layout : SessionUiContext
layout = record {
  feed_entry_count = 4;
  feed_content_rows = 2;
  feed_entries = "a" ∷ "b" ∷ "c" ∷ "d" ∷ [];
  search_match_count = 0;
  todo_visible_count = 3;
  todo_list_height = 2;
  todo_focusable = true;
  todo_anchor_index = some 2;
  static_floor = some 1;
  message_entry_count = 5;
  message_entry_length = 2;
  message_entry_line_offsets = 0 ∷ 3 ∷ [];
  message_content_rows = 2;
}

abbrev at_top : SessionUiState
at_top = record initial_session_ui_state {
  focus_mode = FocusMode.todo;
  feed_cursor_id = some "b";
  tail_follow = false;
}

moved : (reduce_session_ui_state at_top (move_feed_cursor (pos 2)) layout).feed_cursor_id ≡ some "d"
unfolding reduce_session_ui_state string_discrete option_discrete FocusMode-discrete ℕ_discrete
    compute_feed_state resolve_index_to_id resolve_id_to_index resolve_focus resolve_match
    index_or_last index_of scroll_to
moved = refl

resolve-Shows_example : Shows (resolve_session_ui_state at_top layout) layout
resolve-Shows_example =
    resolve-Shows at_top layout (omega arith) (omega arith) (omega arith) (omega arith)

resolve_twice_example :
    resolve_session_ui_state (resolve_session_ui_state at_top layout) layout
    ≡ resolve_session_ui_state at_top layout
unfolding index_of string_discrete
resolve_twice_example =
    resolve_twice at_top layout (refl, (refl, (refl, (refl, tt)))) refl (omega arith)

reduce-InBounds_example :
    InBounds (reduce_session_ui_state at_top toggle_todo_visible layout) layout
reduce-InBounds_example = reduce-InBounds at_top toggle_todo_visible layout
