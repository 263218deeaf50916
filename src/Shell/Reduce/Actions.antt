-- ===== src/Shell/Reduce/Actions.antt =====
-- The bounds of the panes under every action.
use athena_flow_cli.Common.{
  ℕ, ◌≤◌, ℤ, String, Option, none, some, List, [], ◌∷◌, Bool, true, false, ◌==◌, nat_eq, string_eq,
  option_eq, arith, ◌≡◌, refl, not, ◌&&◌, Bool-cases, inl, inr,
}
use athena_flow_cli.Shell.UiState.{
  SessionUiState, SessionUiContext, FocusMode, focus_mode_eq, SessionUiAction, Direction,
  cycle_focus, set_focus_mode, open_command_input, open_search_input, open_normal_input,
  cancel_input, cycle_hints_forced, set_input_mode, set_show_run_overlay, set_search_query,
  submit_search_query, step_search_match, clear_search_and_jump_tail, move_feed_cursor,
  jump_feed_tail, jump_feed_top, set_feed_cursor, set_tail_follow, toggle_todo_visible,
  set_todo_visible, set_todo_show_done, move_todo_cursor, set_todo_cursor, reveal_feed_entry,
  set_search_match_pos, set_message_tab, scroll_message_viewport, move_message_cursor,
  jump_message_tail, jump_message_top,
}
use athena_flow_cli.Shell.Scroll.{
  FeedState, MessageState, clamp, shift, max_feed_cursor, max_message_cursor, floor_of,
}
use athena_flow_cli.Shell.Resolve.{
  bool_eq, same_feed, put_feed, with_feed_change, with_message_change, resolve_session_ui_state,
}
use athena_flow_cli.Shell.Resolve.Shows.{clamp_range}
use athena_flow_cli.Shell.Resolve.Kept.{with_feed_change_lem, with_message_change_lem}
use athena_flow_cli.Shell.Reduce.{
  next_focus, focus_on, search_for, submit_query, step_match, feed_tail, feed_top, move_feed,
  follow_tail, show_todo, put_todo_cursor, reveal, scroll_messages, message_cursor, move_message,
  act, feed_at, reduce_session_ui_state, moves,
}
use athena_flow_cli.Shell.Reduce.Bounds.{
  FeedFits, MessagesFit, FocusFits, InBounds, compute_feed_state-fits, message_cursor_le,
  compute_message_state-fits, resolve-InBounds,
}

module _ (s : SessionUiState) (ctx : SessionUiContext) (v : InBounds s ctx) where
  put_feed-InBounds :
      (f : FeedState)
      → FeedFits f.feed_viewport_start f.feed_cursor_id ctx
      → InBounds (put_feed s f) ctx
  put_feed-InBounds f h = record {
    feed = h;
    messages = v.messages;
    todo_cursor = v.todo_cursor;
    todo_scroll = v.todo_scroll;
    focus = v.focus;
  }

  with_feed_change-InBounds :
      (f : FeedState)
      → FeedFits f.feed_viewport_start f.feed_cursor_id ctx
      → InBounds (with_feed_change s f) ctx
  with_feed_change-InBounds f h = rw with_feed_change_lem (put_feed-InBounds f h)

  with_message_change-InBounds :
      (m : MessageState)
      → MessagesFit m.message_viewport_start m.message_cursor_index ctx
      → InBounds (with_message_change s m) ctx
  with_message_change-InBounds m h = rw with_message_change_lem (record {
    feed = v.feed;
    messages = h;
    todo_cursor = v.todo_cursor;
    todo_scroll = v.todo_scroll;
    focus = v.focus;
  })

  feed_at-InBounds : (cursor : ℕ) → InBounds (with_feed_change s (feed_at cursor s ctx)) ctx
  feed_at-InBounds cursor =
      with_feed_change-InBounds (feed_at cursor s ctx)
        (compute_feed_state-fits cursor s.feed_viewport_start false ctx)

  -- A change of the focus and of what no bound speaks of.
  focus-InBounds :
      (t : SessionUiState)
      → t.feed_viewport_start ≡ s.feed_viewport_start
      → t.feed_cursor_id ≡ s.feed_cursor_id
      → t.message_viewport_start ≡ s.message_viewport_start
      → t.message_cursor_index ≡ s.message_cursor_index
      → t.todo_cursor ≡ s.todo_cursor
      → t.todo_scroll ≡ s.todo_scroll
      → FocusFits t.focus_mode t.todo_visible ctx
      → InBounds t ctx
  focus-InBounds t a i b c d e f = record {
    feed = rw (a, i) v.feed;
    messages = rw (b, c) v.messages;
    todo_cursor = rw d v.todo_cursor;
    todo_scroll = rw e v.todo_scroll;
    focus = f;
  }

  next_focus-InBounds : (f : FocusMode) → s.focus_mode ≡ f → InBounds (next_focus f s ctx) ctx
  unfolding next_focus
  next_focus-InBounds FocusMode.input e = elim (Bool-cases (s.todo_visible && ctx.todo_focusable)) [
    | inl h ↦ rw h (focus-InBounds _ refl refl refl refl refl refl (λ _. ground arith))
    | inr h ↦ rw h (focus-InBounds _ refl refl refl refl refl refl (λ h. ground arith))
  ]
  next_focus-InBounds FocusMode.todo e =
      focus-InBounds _ refl refl refl refl refl refl (λ h. ground arith)
  next_focus-InBounds FocusMode.messages e =
      focus-InBounds _ refl refl refl refl refl refl (λ h. cc)
  next_focus-InBounds FocusMode.feed e = focus-InBounds _ refl refl refl refl refl refl (λ h. cc)

  show_todo-InBounds : (visible : Bool) → InBounds (show_todo visible s) ctx
  unfolding show_todo
  show_todo-InBounds true = focus-InBounds _ refl refl refl refl refl refl (ground arith)
  show_todo-InBounds false = focus-InBounds _ refl refl refl refl refl refl (ground arith)

  focus_on-InBounds : (f : FocusMode) → InBounds (focus_on f s ctx) ctx
  unfolding focus_on
  focus_on-InBounds f = focus-InBounds _ refl refl refl refl refl refl (ground arith)

  search_for-InBounds : (q : String) → InBounds (search_for q s) ctx
  unfolding search_for
  search_for-InBounds q = ground (arith, v)

  put_todo_cursor-InBounds : (c : ℕ) → InBounds (put_todo_cursor c s ctx) ctx
  unfolding put_todo_cursor clamp
  put_todo_cursor-InBounds c = ground (arith, v)

  feed_tail-fits : FeedFits (feed_tail ctx).feed_viewport_start (feed_tail ctx).feed_cursor_id ctx
  unfolding feed_tail max_feed_cursor
  feed_tail-fits = (ground arith, (_, ground arith, ground arith, refl))

  follow_tail-InBounds : (b : Bool) → InBounds (follow_tail b s ctx) ctx
  unfolding follow_tail
  follow_tail-InBounds true = with_feed_change-InBounds (feed_tail ctx) feed_tail-fits
  follow_tail-InBounds false = ground (arith, v)

  jump_feed_top-InBounds : InBounds (with_feed_change s (feed_top ctx)) ctx
  jump_feed_top-InBounds =
      with_feed_change-InBounds (feed_top ctx)
        (unfold feed_top in (ground arith, (floor_of ctx, ground arith, ground arith, refl)))

  reveal-InBounds : (c : ℕ) → InBounds (reveal c s ctx) ctx
  unfolding reveal
  reveal-InBounds c =
      let f = feed_at c s ctx in
      elim (Bool-cases ((s.focus_mode == FocusMode.feed) && same_feed s f)) [
        | inl e ↦ rw e v
        | inr e ↦ rw e (record {
          feed = compute_feed_state-fits c s.feed_viewport_start false ctx;
          messages = v.messages;
          todo_cursor = v.todo_cursor;
          todo_scroll = v.todo_scroll;
          focus = λ h. cc;
        })
      ]

  submit_query-InBounds :
      (q : String) (first : Option ℕ) → InBounds (submit_query q first s ctx) ctx
  unfolding submit_query
  submit_query-InBounds q none = focus-InBounds _ refl refl refl refl refl refl (λ h. cc)
  submit_query-InBounds q (some first) = record {
    feed = compute_feed_state-fits first s.feed_viewport_start false ctx;
    messages = v.messages;
    todo_cursor = v.todo_cursor;
    todo_scroll = v.todo_scroll;
    focus = λ h. cc;
  }

  step_match-InBounds : (d : Direction) (ms : List ℕ) → InBounds (step_match d ms s ctx) ctx
  unfolding step_match
  step_match-InBounds d [] = v
  step_match-InBounds d (m ∷ ms) = record {
    feed = compute_feed_state-fits _ s.feed_viewport_start false ctx;
    messages = v.messages;
    todo_cursor = v.todo_cursor;
    todo_scroll = v.todo_scroll;
    focus = v.focus;
  }

  scroll_messages-InBounds :
      (d : ℤ) (c : ℕ) → c ≤ max_message_cursor ctx → InBounds (scroll_messages d c s ctx) ctx
  unfolding scroll_messages
  scroll_messages-InBounds d c h =
      with_message_change-InBounds _ ((clamp_range _ 0 _ (omega arith)).1, h)

  move_message-InBounds : (d : ℤ) → InBounds (move_message d s ctx) ctx
  unfolding move_message
  move_message-InBounds d =
      let actual : ℕ = message_cursor (shift s.message_cursor_index d) ctx in
      elim (Bool-cases ((actual == s.message_cursor_index) && moves d)) [
        | inl e ↦ rw e (scroll_messages-InBounds d actual (message_cursor_le _ ctx))
        | inr e ↦ rw e (
            with_message_change-InBounds _
              (compute_message_state-fits s.message_viewport_start actual false ctx))
      ]

act-InBounds :
    (a : SessionUiAction) (s : SessionUiState) (ctx : SessionUiContext)
    → InBounds s ctx
    → InBounds (act a s ctx) ctx
unfolding act
act-InBounds cycle_focus s ctx v = next_focus-InBounds s ctx v s.focus_mode refl
act-InBounds (set_focus_mode f) s ctx v = focus_on-InBounds s ctx v f
act-InBounds open_command_input s ctx v =
    focus-InBounds s ctx v _ refl refl refl refl refl refl (λ h. cc)
act-InBounds open_search_input s ctx v =
    focus-InBounds s ctx v _ refl refl refl refl refl refl (λ h. cc)
act-InBounds open_normal_input s ctx v =
    focus-InBounds s ctx v _ refl refl refl refl refl refl (λ h. cc)
act-InBounds cancel_input s ctx v = focus-InBounds s ctx v _ refl refl refl refl refl refl (λ h. cc)
act-InBounds cycle_hints_forced s ctx v =
    focus-InBounds s ctx v _ refl refl refl refl refl refl v.focus
act-InBounds (set_input_mode m) s ctx v = ground (arith, v)
act-InBounds (set_show_run_overlay b) s ctx v = ground (arith, v)
act-InBounds (set_search_query q) s ctx v = search_for-InBounds s ctx v q
act-InBounds (submit_search_query q first) s ctx v = submit_query-InBounds s ctx v q first
act-InBounds (step_search_match d ms) s ctx v = step_match-InBounds s ctx v d ms
act-InBounds clear_search_and_jump_tail s ctx v = record {
  feed = feed_tail-fits s ctx v;
  messages = v.messages;
  todo_cursor = v.todo_cursor;
  todo_scroll = v.todo_scroll;
  focus = v.focus;
}
act-InBounds (move_feed_cursor d) s ctx v = unfold move_feed in feed_at-InBounds s ctx v _
act-InBounds jump_feed_tail s ctx v =
    with_feed_change-InBounds s ctx v (feed_tail ctx) (feed_tail-fits s ctx v)
act-InBounds jump_feed_top s ctx v = jump_feed_top-InBounds s ctx v
act-InBounds (set_feed_cursor c) s ctx v = feed_at-InBounds s ctx v c
act-InBounds (set_tail_follow b) s ctx v = follow_tail-InBounds s ctx v b
act-InBounds toggle_todo_visible s ctx v = show_todo-InBounds s ctx v (not s.todo_visible)
act-InBounds (set_todo_visible b) s ctx v = show_todo-InBounds s ctx v b
act-InBounds (set_todo_show_done b) s ctx v = ground (arith, v)
act-InBounds (move_todo_cursor d) s ctx v = put_todo_cursor-InBounds s ctx v _
act-InBounds (set_todo_cursor c) s ctx v = put_todo_cursor-InBounds s ctx v c
act-InBounds (reveal_feed_entry c) s ctx v = reveal-InBounds s ctx v c
act-InBounds (set_search_match_pos p) s ctx v = ground (arith, v)
act-InBounds (set_message_tab t) s ctx v = ground (arith, v)
act-InBounds (scroll_message_viewport d) s ctx v =
    scroll_messages-InBounds s ctx v d _ (message_cursor_le s.message_cursor_index ctx)
act-InBounds (move_message_cursor d) s ctx v = move_message-InBounds s ctx v d
act-InBounds jump_message_tail s ctx v =
    with_message_change-InBounds s ctx v _
      (compute_message_state-fits s.message_viewport_start s.message_cursor_index true ctx)
act-InBounds jump_message_top s ctx v =
    with_message_change-InBounds s ctx v _ (omega arith, omega arith)

-- Whatever the state was and whatever action comes, for any layout: afterwards the feed's viewport
-- starts no later than its last page (or its static floor), and its cursor names the entry at an index
-- between the floor and the last entry (or none where there is none at it); the message pane and the
-- todo list start no later than their last pages; the cursors of messages and todos are within their
-- lists; and the todo pane has the focus only while it is visible and can take it.
pub reduce-InBounds :
    (s : SessionUiState) (a : SessionUiAction) (ctx : SessionUiContext)
    → InBounds (reduce_session_ui_state s a ctx) ctx
unfolding reduce_session_ui_state
reduce-InBounds s a ctx =
    act-InBounds a (resolve_session_ui_state s ctx) ctx (resolve-InBounds s ctx)
