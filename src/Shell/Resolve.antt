-- ===== src/Shell/Resolve.antt =====
-- src/app/shell/sessionUiState.ts: `resolveSessionUiState`, which fits the state to the layout, and the
-- two updates that keep the state when nothing changes.
pub mod Kept
pub mod Shows
pub mod Settled
use Prim.Native.Nat.{◌-◌}
use athena_flow_cli.Common.{
  ℕ, String, Option, none, some, Bool, not, ◌&&◌, ◌||◌, if◌then◌else◌, leb, ◌==◌, nat_eq, string_eq,
  option_eq, Eq,
}
use athena_flow_cli.Shell.UiState.{
  SessionUiState, SessionUiContext, FocusMode, focus_mode_eq, TodoCursorMode, auto, manual,
}
use athena_flow_cli.Shell.Scroll.{
  FeedState, MessageState, clamp, compute_feed_state, compute_message_state, resolve_id_to_index,
  resolve_todo_scroll,
}

-- `===` on booleans
unfoldable pub Bool-discrete : Discrete Bool
Bool-discrete = hlevel

instance abbrev pub bool_eq : Eq Bool
bool_eq = record { dec = Bool-discrete }

abbrev pub put_feed : SessionUiState → FeedState → SessionUiState
put_feed current feed = record current {
  feed_cursor_id = feed.feed_cursor_id;
  feed_viewport_start = feed.feed_viewport_start;
  tail_follow = feed.tail_follow;
}

abbrev pub same_feed : SessionUiState → FeedState → Bool
same_feed current feed =
    (feed.feed_cursor_id == current.feed_cursor_id)
    && ((feed.feed_viewport_start == current.feed_viewport_start)
        && (feed.tail_follow == current.tail_follow))

unfoldable pub with_feed_change : SessionUiState → FeedState → SessionUiState
with_feed_change current feed = if same_feed current feed then current else put_feed current feed

abbrev pub put_message : SessionUiState → MessageState → SessionUiState
put_message current msg = record current {
  message_viewport_start = msg.message_viewport_start;
  message_cursor_index = msg.message_cursor_index;
  message_tail_follow = msg.message_tail_follow;
}

abbrev pub same_message : SessionUiState → MessageState → Bool
same_message current msg =
    (msg.message_viewport_start == current.message_viewport_start)
    && ((msg.message_cursor_index == current.message_cursor_index)
        && (msg.message_tail_follow == current.message_tail_follow))

unfoldable pub with_message_change : SessionUiState → MessageState → SessionUiState
with_message_change current msg =
    if same_message current msg then current else put_message current msg

unfoldable pub preferred_todo : TodoCursorMode → Option ℕ → ℕ → ℕ
preferred_todo auto (some anchor) cursor = anchor
preferred_todo auto none cursor = cursor
preferred_todo manual anchor cursor = cursor

unfoldable pub resolve_todo_cursor : SessionUiState → SessionUiContext → ℕ
unfolding clamp
resolve_todo_cursor state ctx =
    if leb ctx.todo_visible_count 0
    then 0
    else clamp (preferred_todo state.todo_cursor_mode ctx.todo_anchor_index state.todo_cursor) 0
        (ctx.todo_visible_count - 1)

-- The entry of the cursor, else the last one.
unfoldable pub index_or_last : Option String → SessionUiContext → ℕ
index_or_last id ctx = elim (resolve_id_to_index ctx.feed_entries id) [
  | some i ↦ i
  | none ↦ ctx.feed_entry_count - 1
]

abbrev pub cursor_index : SessionUiState → SessionUiContext → ℕ
cursor_index state ctx = index_or_last state.feed_cursor_id ctx

unfoldable pub resolve_focus : SessionUiState → SessionUiContext → FocusMode
resolve_focus state ctx =
    let focus =
      if (state.focus_mode == FocusMode.todo) && (not state.todo_visible || not ctx.todo_focusable)
      then FocusMode.feed
      else state.focus_mode in
    if (focus == FocusMode.messages) && leb ctx.message_entry_count 0 then FocusMode.feed else focus

unfoldable pub resolve_match : SessionUiState → SessionUiContext → ℕ
unfolding clamp
resolve_match state ctx =
    if leb ctx.search_match_count 0
    then 0
    else clamp state.search_match_pos 0 (ctx.search_match_count - 1)

-- What `resolveSessionUiState` computes before it compares.
pub record Resolved : Type 0 where
  pub focus_mode : FocusMode
  pub search_match_pos : ℕ
  pub feed : FeedState
  pub todo_cursor : ℕ
  pub todo_scroll : ℕ
  pub message : MessageState

unfoldable pub resolve_parts : SessionUiState → SessionUiContext → Resolved
resolve_parts state ctx =
    let todo = resolve_todo_cursor state ctx in
    record {
      focus_mode = resolve_focus state ctx;
      search_match_pos = resolve_match state ctx;
      feed =
          compute_feed_state (cursor_index state ctx) state.feed_viewport_start state.tail_follow
            ctx;
      todo_cursor = todo;
      todo_scroll = resolve_todo_scroll todo state.todo_scroll ctx;
      message =
          compute_message_state state.message_viewport_start state.message_tail_follow
            state.message_cursor_index ctx;
    }

abbrev pub unchanged : SessionUiState → Resolved → Bool
unchanged state r =
    (r.focus_mode == state.focus_mode)
    && ((r.search_match_pos == state.search_match_pos)
        && (same_feed state r.feed
            && ((r.todo_cursor == state.todo_cursor)
                && ((r.todo_scroll == state.todo_scroll) && same_message state r.message))))

abbrev pub put_resolved : SessionUiState → Resolved → SessionUiState
put_resolved state r = record state {
  focus_mode = r.focus_mode;
  search_match_pos = r.search_match_pos;
  feed_cursor_id = r.feed.feed_cursor_id;
  feed_viewport_start = r.feed.feed_viewport_start;
  tail_follow = r.feed.tail_follow;
  todo_cursor = r.todo_cursor;
  todo_scroll = r.todo_scroll;
  message_viewport_start = r.message.message_viewport_start;
  message_cursor_index = r.message.message_cursor_index;
  message_tail_follow = r.message.message_tail_follow;
}

unfoldable pub resolve_session_ui_state : SessionUiState → SessionUiContext → SessionUiState
unfolding resolve_parts
resolve_session_ui_state state ctx =
    let r = resolve_parts state ctx in if unchanged state r then state else put_resolved state r
