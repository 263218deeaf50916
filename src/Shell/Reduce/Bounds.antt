-- ===== src/Shell/Reduce/Bounds.antt =====
-- The bounds of cursors, viewports and focus, and `resolveSessionUiState`.
use Prim.Native.Nat.{◌-◌}
use athena_flow_cli.Common.{
  ℕ, ◌≤◌, Option, none, some, Bool, true, false, nat_eq, string_eq, option_eq, arith, ◌≡◌, refl,
  String,
}
use athena_flow_cli.Shell.UiState.{SessionUiState, SessionUiContext, FocusMode, focus_mode_eq}
use athena_flow_cli.Shell.Scroll.{
  max, clamp, max_start, floor_of, max_feed_viewport_start, max_message_cursor,
  max_message_viewport_start, compute_scroll_state, message_start, compute_feed_state,
  compute_message_state, resolve_todo_scroll, resolve_index_to_id,
}
use athena_flow_cli.Shell.Resolve.{
  bool_eq, resolve_session_ui_state, resolve_parts, resolve_focus, resolve_todo_cursor,
  cursor_index,
}
use athena_flow_cli.Shell.Resolve.Shows.{clamp_range}
use athena_flow_cli.Shell.Resolve.Kept.{resolve_session_ui_state_lem}
use athena_flow_cli.Shell.Reduce.{message_cursor}

-- The feed's viewport starts no later than the last start (or the floor), and its cursor names the entry
-- at an index between the floor and the last entry (or the floor), or none where there is no such entry.
abbrev pub FeedFits : ℕ → Option String → SessionUiContext → Type 0
FeedFits start id ctx =
    (start ≤ max (floor_of ctx) (max_feed_viewport_start ctx))
    × ((i : ℕ) × (floor_of ctx ≤ i)
        × (i ≤ max (floor_of ctx) (ctx.feed_entry_count - 1))
        × (id ≡ resolve_index_to_id ctx.feed_entries i))

-- The message pane.
abbrev pub MessagesFit : ℕ → ℕ → SessionUiContext → Type 0
MessagesFit start cursor ctx =
    (start ≤ max_message_viewport_start ctx) × (cursor ≤ max_message_cursor ctx)

-- The todo pane has the focus only while it is there.
abbrev pub FocusFits : FocusMode → Bool → SessionUiContext → Type 0
FocusFits focus visible ctx =
    focus ≡ FocusMode.todo → (visible ≡ true) × (ctx.todo_focusable ≡ true)

pub record InBounds (s : SessionUiState) (ctx : SessionUiContext) : Type 0 where
  pub feed : FeedFits s.feed_viewport_start s.feed_cursor_id ctx
  pub messages : MessagesFit s.message_viewport_start s.message_cursor_index ctx
  pub todo_cursor : s.todo_cursor ≤ ctx.todo_visible_count - 1
  pub todo_scroll : s.todo_scroll ≤ ctx.todo_visible_count - ctx.todo_list_height
  pub focus : FocusFits s.focus_mode s.todo_visible ctx

clamp_le : (v low high : ℕ) → clamp v low high ≤ max low high
unfolding clamp
clamp_le v low high = ground arith

pub compute_feed_state-fits :
    (cursor start : ℕ) (tail : Bool) (ctx : SessionUiContext)
    → let f = compute_feed_state cursor start tail ctx in
      FeedFits f.feed_viewport_start f.feed_cursor_id ctx
unfolding compute_feed_state compute_scroll_state max_feed_viewport_start
compute_feed_state-fits cursor start true ctx =
    (ground arith, (_, ground arith, ground arith, refl))
compute_feed_state-fits cursor start false ctx =
    let (low, high) =
      clamp_range cursor (floor_of ctx) (max (floor_of ctx) (ctx.feed_entry_count - 1))
        (ground arith) in
    (clamp_le _ _ _, (_, low, high, refl))

message_start_le :
    (o : Option ℕ) (start rows last : ℕ) → start ≤ last → message_start o start rows last ≤ last
unfolding message_start
message_start_le none start rows last h = h
message_start_le (some line) start rows last h = (clamp_range _ 0 last (omega arith)).1

pub message_cursor_le :
    (cursor : ℕ) (ctx : SessionUiContext) → message_cursor cursor ctx ≤ max_message_cursor ctx
unfolding message_cursor clamp
message_cursor_le cursor ctx = ground arith

pub compute_message_state-fits :
    (start cursor : ℕ) (tail : Bool) (ctx : SessionUiContext)
    → let m = compute_message_state start tail cursor ctx in
      MessagesFit m.message_viewport_start m.message_cursor_index ctx
unfolding compute_message_state max_message_viewport_start
compute_message_state-fits start cursor true ctx = ground arith
compute_message_state-fits start cursor false ctx =
    let last : ℕ = max_start ctx.message_entry_count ctx.message_content_rows in
    (
      message_start_le _ (clamp start 0 last) ctx.message_content_rows last
          (clamp_range start 0 last (omega arith)).1,
      unfold message_cursor in message_cursor_le cursor ctx,
    )

pub resolve-InBounds :
    (s : SessionUiState) (ctx : SessionUiContext) → InBounds (resolve_session_ui_state s ctx) ctx
unfolding resolve_parts
resolve-InBounds s ctx = rw resolve_session_ui_state_lem (record {
  feed = compute_feed_state-fits (cursor_index s ctx) s.feed_viewport_start s.tail_follow ctx;
  messages =
      compute_message_state-fits s.message_viewport_start s.message_cursor_index
        s.message_tail_follow ctx;
  todo_cursor = unfold resolve_todo_cursor clamp in ground arith;
  todo_scroll = unfold resolve_todo_scroll clamp in ground arith;
  focus = unfold resolve_focus in ground arith;
})
