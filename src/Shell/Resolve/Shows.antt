-- ===== src/Shell/Resolve/Shows.antt =====
-- The cursors and the panes after `resolveSessionUiState`.
use Prim.Native.Nat.{◌-◌}
use athena_flow_cli.Common.{ℕ, ◌+◌, ◌≤◌, ◌<◌, some, Bool, true, false, arith, ◌≡◌, refl}
use athena_flow_cli.Shell.UiState.{SessionUiState, SessionUiContext}
use athena_flow_cli.Shell.Scroll.{
  max, clamp, scroll_to, max_start, compute_scroll_state, compute_feed_state, floor_of,
  resolve_index_to_id, max_message_viewport_start, message_start, compute_message_state, offset_at,
  resolve_todo_scroll,
}
use athena_flow_cli.Shell.Resolve.{
  resolve_parts, resolve_todo_cursor, cursor_index, resolve_session_ui_state,
}
use athena_flow_cli.Shell.Resolve.Kept.{resolve_session_ui_state_lem}

-- The viewport contains the cursor.
abbrev pub Within : ℕ → ℕ → ℕ → Type 0
Within cursor start rows = (start ≤ cursor) × (cursor < start + rows)

pub scroll_to-Within :
    (cursor start rows : ℕ) → 0 < rows → Within cursor (scroll_to cursor start rows) rows
unfolding scroll_to
scroll_to-Within cursor start rows h = ground arith

pub clamp_range :
    (v low high : ℕ) → low ≤ high → (low ≤ clamp v low high) × (clamp v low high ≤ high)
unfolding clamp
clamp_range v low high h = ground arith

-- A start that shows the cursor shows it when it is kept between the floor and the last start.
pub clamp-Within :
    (cursor start rows floor count : ℕ)
    → Within cursor start rows
    → floor ≤ cursor
    → cursor < count
    → Within cursor (clamp start floor (max_start count rows)) rows
unfolding clamp
clamp-Within cursor start rows floor count h k l = ground arith

pub compute_scroll_state-Within :
    (cursor start count rows floor : ℕ) (tail : Bool)
    → 0 < rows
    → floor < count
    → let s = compute_scroll_state cursor start tail count rows floor in
      Within s.cursor s.viewport_start rows × (s.cursor < count)
unfolding compute_scroll_state
compute_scroll_state-Within cursor start count rows floor true h k = ground arith
compute_scroll_state-Within cursor start count rows floor false h k =
    let last : ℕ = max floor (count - 1) in
    let c : ℕ = clamp cursor floor last in
    let range : (floor ≤ c) × (c ≤ last) = clamp_range cursor floor last (ground arith) in
    let below : c < count = ground arith in
    (
      clamp-Within c (scroll_to c (clamp start floor (max_start count rows)) rows) rows floor count
          (scroll_to-Within c (clamp start floor (max_start count rows)) rows h) range.0 below,
      below,
    )

pub resolve_todo_scroll-Within :
    (cursor scroll : ℕ) (ctx : SessionUiContext)
    → 0 < ctx.todo_list_height
    → cursor < ctx.todo_visible_count
    → Within cursor (resolve_todo_scroll cursor scroll ctx) ctx.todo_list_height
unfolding resolve_todo_scroll
resolve_todo_scroll-Within cursor scroll ctx h k = ground arith

pub message_start-Within :
    (line start rows last_start : ℕ)
    → 0 < rows
    → start ≤ last_start
    → line < last_start + rows
    → Within line (message_start (some line) start rows last_start) rows
unfolding message_start
message_start-Within line start rows last_start h k l = ground arith

pub resolve_todo_cursor-lt :
    (s : SessionUiState) (ctx : SessionUiContext)
    → 0 < ctx.todo_visible_count
    → resolve_todo_cursor s ctx < ctx.todo_visible_count
unfolding resolve_todo_cursor clamp
resolve_todo_cursor-lt s ctx h = ground arith

-- The cursor of the feed is on an entry that the feed shows, and the cursor of the todo list on an item
-- that its list shows.
pub record Shows (s : SessionUiState) (ctx : SessionUiContext) : Type 0 where
  pub entry : ℕ
  pub at_entry : s.feed_cursor_id ≡ resolve_index_to_id ctx.feed_entries entry
  pub is_entry : entry < ctx.feed_entry_count
  pub entry_shown : Within entry s.feed_viewport_start ctx.feed_content_rows
  pub is_item : s.todo_cursor < ctx.todo_visible_count
  pub item_shown : Within s.todo_cursor s.todo_scroll ctx.todo_list_height

-- Fitted to a layout with room in both panes, with an item in the todo list and an entry of the feed
-- past its static floor, any state has its feed cursor on an entry that is in the feed's viewport, and
-- its todo cursor on an item that is in the list's window.
pub resolve-Shows :
    (s : SessionUiState) (ctx : SessionUiContext)
    → 0 < ctx.feed_content_rows
    → floor_of ctx < ctx.feed_entry_count
    → 0 < ctx.todo_list_height
    → 0 < ctx.todo_visible_count
    → Shows (resolve_session_ui_state s ctx) ctx
unfolding resolve_parts compute_feed_state
resolve-Shows s ctx rows floor height items =
    let feed =
      compute_scroll_state-Within (cursor_index s ctx) s.feed_viewport_start ctx.feed_entry_count
        ctx.feed_content_rows (floor_of ctx) s.tail_follow rows floor in
    let item = resolve_todo_cursor-lt s ctx items in
    rw resolve_session_ui_state_lem (record {
      entry =
          (compute_scroll_state (cursor_index s ctx) s.feed_viewport_start s.tail_follow
            ctx.feed_entry_count ctx.feed_content_rows (floor_of ctx)).cursor;
      at_entry = refl;
      is_entry = feed.1;
      entry_shown = feed.0;
      is_item = item;
      item_shown =
          resolve_todo_scroll-Within (resolve_todo_cursor s ctx) s.todo_scroll ctx height item;
    })

compute_message_state-Within :
    (start cursor : ℕ) (ctx : SessionUiContext) (line : ℕ)
    → 0 < ctx.message_content_rows
    → offset_at ctx.message_entry_line_offsets
        (compute_message_state start false cursor ctx).message_cursor_index
      ≡ some line
    → line < ctx.message_entry_count
    → Within line
        (compute_message_state start false cursor ctx).message_viewport_start
        ctx.message_content_rows
unfolding compute_message_state max_message_viewport_start
compute_message_state-Within start cursor ctx line rows offset shown =
    let last : ℕ = max_start ctx.message_entry_count ctx.message_content_rows in
    rw offset (
      message_start-Within line (clamp start 0 last) ctx.message_content_rows last rows
        (clamp_range start 0 last (omega arith)).1 (ground arith))

-- The line of the message cursor is shown, unless the pane follows the tail.
pub resolve-message_shown :
    (s : SessionUiState) (ctx : SessionUiContext) (line : ℕ)
    → 0 < ctx.message_content_rows
    → s.message_tail_follow ≡ false
    → offset_at ctx.message_entry_line_offsets (resolve_session_ui_state s ctx).message_cursor_index
      ≡ some line
    → line < ctx.message_entry_count
    → Within line (resolve_session_ui_state s ctx).message_viewport_start ctx.message_content_rows
unfolding resolve_parts
resolve-message_shown s ctx line rows still offset shown =
    rw (resolve_session_ui_state_lem, still)
      (compute_message_state-Within s.message_viewport_start s.message_cursor_index ctx line rows
        (rw (resolve_session_ui_state_lem, still) at offset) shown)
