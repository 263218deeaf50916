-- ===== src/Shell/Reduce.antt =====
-- src/app/shell/sessionUiState.ts: `reduceSessionUiState`, every action.
pub mod Bounds
pub mod Actions
use Prim.Native.Nat.{◌-◌, ◌%◌}
use athena_flow_cli.Common.{
  ℕ, ◌+◌, ℤ, pos, negsuc, String, Option, none, some, List, [], ◌∷◌, Bool, true, false, not, ◌&&◌,
  ◌||◌, if◌then◌else◌, ltb, leb, ◌==◌, nat_eq, string_eq, length, get_or,
}
use athena_flow_cli.Shell.UiState.{
  SessionUiState, SessionUiContext, FocusMode, focus_mode_eq, InputMode, input_mode_eq, MessageTab,
  message_tab_eq, auto, manual, todo_cursor_mode_eq, Direction, forward, backward, SessionUiAction,
  cycle_focus, set_focus_mode, open_command_input, open_search_input, open_normal_input,
  cancel_input, cycle_hints_forced, set_input_mode, set_show_run_overlay, set_search_query,
  submit_search_query, step_search_match, clear_search_and_jump_tail, move_feed_cursor,
  jump_feed_tail, jump_feed_top, set_feed_cursor, set_tail_follow, toggle_todo_visible,
  set_todo_visible, set_todo_show_done, move_todo_cursor, set_todo_cursor, reveal_feed_entry,
  set_search_match_pos, set_message_tab, scroll_message_viewport, move_message_cursor,
  jump_message_tail, jump_message_top,
}
use athena_flow_cli.Shell.Scroll.{
  FeedState, MessageState, clamp, shift, floor_of, max_feed_cursor, max_feed_viewport_start,
  max_message_cursor, max_message_viewport_start, resolve_id_to_index, resolve_index_to_id,
  compute_feed_state, compute_message_state,
}
use athena_flow_cli.Shell.Resolve.{
  bool_eq, put_feed, same_feed, with_feed_change, with_message_change, resolve_session_ui_state,
}

unfoldable pub next_hints : Option Bool → Option Bool
next_hints none = some true
next_hints (some true) = some false
next_hints (some false) = none

-- Where the focus goes from the todo pane.
abbrev pub after_todo : SessionUiContext → FocusMode
after_todo ctx = if ltb 0 ctx.message_entry_count then FocusMode.messages else FocusMode.feed

unfoldable pub next_focus : FocusMode → SessionUiState → SessionUiContext → SessionUiState
next_focus FocusMode.input current ctx =
    if current.todo_visible && ctx.todo_focusable
    then record current { focus_mode = FocusMode.todo; todo_cursor_mode = auto }
    else record current { focus_mode = after_todo ctx }
next_focus FocusMode.todo current ctx = record current { focus_mode = after_todo ctx }
next_focus FocusMode.messages current ctx = record current { focus_mode = FocusMode.feed }
next_focus FocusMode.feed current ctx = record current { focus_mode = FocusMode.input }

unfoldable pub focus_on : FocusMode → SessionUiState → SessionUiContext → SessionUiState
focus_on focus current ctx = record current {
  focus_mode =
      if (focus == FocusMode.todo) && (not current.todo_visible || not ctx.todo_focusable)
      then FocusMode.feed
      else focus;
  todo_cursor_mode = if focus == FocusMode.todo then auto else current.todo_cursor_mode;
}

-- `action.query.length === 0`
abbrev pub is_empty : String → Bool
is_empty query = query == ""

unfoldable pub search_for : String → SessionUiState → SessionUiState
search_for query current =
    if (current.search_query == query) && (not (is_empty query) || (current.search_match_pos == 0))
    then current
    else record current {
      search_query = query;
      search_match_pos = if is_empty query then 0 else current.search_match_pos;
    }

abbrev pub submitted : String → SessionUiState → SessionUiState
submitted query current = record current {
  focus_mode = FocusMode.feed;
  input_mode = InputMode.normal;
  search_query = query;
  search_match_pos = 0;
}

-- The feed with the cursor put at an index, which is no longer at the tail.
abbrev pub feed_at : ℕ → SessionUiState → SessionUiContext → FeedState
feed_at cursor current ctx = compute_feed_state cursor current.feed_viewport_start false ctx

unfoldable pub submit_query : String → Option ℕ → SessionUiState → SessionUiContext → SessionUiState
submit_query query none current ctx = submitted query current
submit_query query (some first) current ctx =
    put_feed (submitted query current) (feed_at first current ctx)

unfoldable pub next_match : Direction → ℕ → ℕ → ℕ
next_match forward position count = (position + 1 + count) % count
next_match backward position count = (position + count - 1) % count

unfoldable pub step_match : Direction → List ℕ → SessionUiState → SessionUiContext → SessionUiState
unfolding next_match
step_match direction [] current ctx = current
step_match direction (m ∷ matches) current ctx =
    let next = next_match direction current.search_match_pos (length (m ∷ matches)) in
    put_feed (record current { search_match_pos = next })
      (feed_at (get_or (m ∷ matches) next 0) current ctx)

-- The feed at its tail.
unfoldable pub feed_tail : SessionUiContext → FeedState
feed_tail ctx = record {
  feed_cursor_id = resolve_index_to_id ctx.feed_entries (max_feed_cursor ctx);
  feed_viewport_start = max_feed_viewport_start ctx;
  tail_follow = true;
}

unfoldable pub feed_top : SessionUiContext → FeedState
feed_top ctx = record {
  feed_cursor_id = resolve_index_to_id ctx.feed_entries (floor_of ctx);
  feed_viewport_start = floor_of ctx;
  tail_follow = false;
}

-- `curIdx < 0 ? 0 : curIdx`
abbrev pub index_or_zero : Option ℕ → ℕ
index_or_zero none = 0
index_or_zero (some i) = i

unfoldable pub move_feed : ℤ → SessionUiState → SessionUiContext → SessionUiState
unfolding with_feed_change shift
move_feed delta current ctx =
    let index = index_or_zero (resolve_id_to_index ctx.feed_entries current.feed_cursor_id) in
    with_feed_change current (feed_at (shift index delta) current ctx)

unfoldable pub follow_tail : Bool → SessionUiState → SessionUiContext → SessionUiState
unfolding with_feed_change feed_tail
follow_tail true current ctx = with_feed_change current (feed_tail ctx)
follow_tail false current ctx =
    if not current.tail_follow then current else record current { tail_follow = false }

unfoldable pub show_todo : Bool → SessionUiState → SessionUiState
show_todo visible current = record current {
  todo_visible = visible;
  focus_mode =
      if (current.focus_mode == FocusMode.todo) && not visible
      then FocusMode.feed
      else current.focus_mode;
  todo_cursor_mode = if visible then auto else current.todo_cursor_mode;
}

unfoldable pub put_todo_cursor : ℕ → SessionUiState → SessionUiContext → SessionUiState
unfolding clamp
put_todo_cursor cursor current ctx =
    let next =
      if leb ctx.todo_visible_count 0 then 0 else clamp cursor 0 (ctx.todo_visible_count - 1) in
    if (next == current.todo_cursor) && (current.todo_cursor_mode == manual)
    then current
    else record current { todo_cursor = next; todo_cursor_mode = manual }

unfoldable pub reveal : ℕ → SessionUiState → SessionUiContext → SessionUiState
reveal cursor current ctx =
    let feed = feed_at cursor current ctx in
    if (current.focus_mode == FocusMode.feed) && same_feed current feed
    then current
    else put_feed (record current { focus_mode = FocusMode.feed }) feed

-- The message cursor kept within the entries.
unfoldable pub message_cursor : ℕ → SessionUiContext → ℕ
unfolding clamp max_message_cursor
message_cursor cursor ctx =
    if ltb 0 ctx.message_entry_length then clamp cursor 0 (max_message_cursor ctx) else 0

unfoldable pub scroll_messages : ℤ → ℕ → SessionUiState → SessionUiContext → SessionUiState
unfolding with_message_change clamp shift max_message_viewport_start
scroll_messages delta cursor current ctx = with_message_change current (record {
  message_tail_follow = false;
  message_viewport_start =
      clamp (shift current.message_viewport_start delta) 0 (max_message_viewport_start ctx);
  message_cursor_index = cursor;
})

-- `delta !== 0`
abbrev pub moves : ℤ → Bool
moves (pos d) = ltb 0 d
moves (negsuc d) = true

-- At its boundary the cursor stays, and the viewport scrolls.
unfoldable pub move_message : ℤ → SessionUiState → SessionUiContext → SessionUiState
unfolding with_message_change scroll_messages message_cursor shift
move_message delta current ctx =
    let actual = message_cursor (shift current.message_cursor_index delta) ctx in
    if (actual == current.message_cursor_index) && moves delta
    then scroll_messages delta actual current ctx
    else with_message_change current
        (compute_message_state current.message_viewport_start false actual ctx)

-- The switch of `reduceSessionUiState`.
unfoldable pub act : SessionUiAction → SessionUiState → SessionUiContext → SessionUiState
unfolding next_hints next_focus focus_on search_for submit_query step_match feed_tail feed_top
    move_feed follow_tail show_todo put_todo_cursor reveal scroll_messages message_cursor
    move_message with_feed_change with_message_change shift
act cycle_focus current ctx = next_focus current.focus_mode current ctx
act (set_focus_mode focus) current ctx = focus_on focus current ctx
act open_command_input current ctx = record current {
  focus_mode = FocusMode.input;
  input_mode = InputMode.command;
}
act open_search_input current ctx = record current {
  focus_mode = FocusMode.input;
  input_mode = InputMode.search;
}
act open_normal_input current ctx = record current {
  focus_mode = FocusMode.input;
  input_mode = InputMode.normal;
}
act cancel_input current ctx = record current {
  focus_mode = FocusMode.feed;
  input_mode = InputMode.normal;
}
act cycle_hints_forced current ctx = record current {
  hints_forced = next_hints current.hints_forced;
}
act (set_input_mode mode) current ctx =
    if current.input_mode == mode then current else record current { input_mode = mode }
act (set_show_run_overlay shown) current ctx =
    if current.show_run_overlay == shown
    then current
    else record current { show_run_overlay = shown }
act (set_search_query query) current ctx = search_for query current
act (submit_search_query query first) current ctx = submit_query query first current ctx
act (step_search_match direction matches) current ctx = step_match direction matches current ctx
act clear_search_and_jump_tail current ctx =
    put_feed (record current { search_query = ""; search_match_pos = 0; show_run_overlay = false })
      (feed_tail ctx)
act (move_feed_cursor delta) current ctx = move_feed delta current ctx
act jump_feed_tail current ctx = with_feed_change current (feed_tail ctx)
act jump_feed_top current ctx = with_feed_change current (feed_top ctx)
act (set_feed_cursor cursor) current ctx = with_feed_change current (feed_at cursor current ctx)
act (set_tail_follow tail) current ctx = follow_tail tail current ctx
act toggle_todo_visible current ctx = show_todo (not current.todo_visible) current
act (set_todo_visible visible) current ctx = show_todo visible current
act (set_todo_show_done show) current ctx =
    if current.todo_show_done == show then current else record current { todo_show_done = show }
act (move_todo_cursor delta) current ctx =
    put_todo_cursor (shift current.todo_cursor delta) current ctx
act (set_todo_cursor cursor) current ctx = put_todo_cursor cursor current ctx
act (reveal_feed_entry cursor) current ctx = reveal cursor current ctx
act (set_search_match_pos position) current ctx =
    if current.search_match_pos == position
    then current
    else record current { search_match_pos = position }
act (set_message_tab tab) current ctx =
    if current.message_panel_tab == tab then current else record current { message_panel_tab = tab }
act (scroll_message_viewport delta) current ctx =
    scroll_messages delta (message_cursor current.message_cursor_index ctx) current ctx
act (move_message_cursor delta) current ctx = move_message delta current ctx
act jump_message_tail current ctx =
    with_message_change current
      (compute_message_state current.message_viewport_start true current.message_cursor_index ctx)
act jump_message_top current ctx =
    with_message_change current
      (record { message_viewport_start = 0; message_cursor_index = 0; message_tail_follow = false })

unfoldable pub reduce_session_ui_state :
    SessionUiState → SessionUiAction → SessionUiContext → SessionUiState
unfolding resolve_session_ui_state act
reduce_session_ui_state state action ctx = act action (resolve_session_ui_state state ctx) ctx
