-- ===== src/Shell/UiState.antt =====
-- src/app/shell/sessionUiState.ts, the types: the state of the panes, what the layout supplies, and the
-- actions. Counts, rows and indices are natural numbers, a shift is an integer, and an index that the
-- source marks as absent by -1 or `null` is an `Option`.
use athena_flow_cli.Common.{ℕ, ℤ, String, Option, none, List, Bool, true, false, Eq}

pub data FocusMode : Type 0 where
  feed input todo messages : FocusMode

pub data InputMode : Type 0 where
  normal command search : InputMode

pub data MessageTab : Type 0 where
  user agent both : MessageTab

pub data TodoCursorMode : Type 0 where
  auto manual : TodoCursorMode

unfoldable pub FocusMode-discrete : Discrete FocusMode
FocusMode-discrete = hlevel

instance abbrev pub focus_mode_eq : Eq FocusMode
focus_mode_eq = record { dec = FocusMode-discrete }

unfoldable pub InputMode-discrete : Discrete InputMode
InputMode-discrete = hlevel

instance abbrev pub input_mode_eq : Eq InputMode
input_mode_eq = record { dec = InputMode-discrete }

unfoldable pub MessageTab-discrete : Discrete MessageTab
MessageTab-discrete = hlevel

instance abbrev pub message_tab_eq : Eq MessageTab
message_tab_eq = record { dec = MessageTab-discrete }

unfoldable pub TodoCursorMode-discrete : Discrete TodoCursorMode
TodoCursorMode-discrete = hlevel

instance abbrev pub todo_cursor_mode_eq : Eq TodoCursorMode
todo_cursor_mode_eq = record { dec = TodoCursorMode-discrete }

pub record SessionUiState : Type 0 where
  pub focus_mode : FocusMode
  pub input_mode : InputMode
  pub hints_forced : Option Bool
  pub show_run_overlay : Bool
  pub search_query : String
  pub search_match_pos : ℕ
  pub feed_cursor_id : Option String
  pub feed_viewport_start : ℕ
  pub tail_follow : Bool
  pub todo_visible : Bool
  pub todo_show_done : Bool
  pub todo_cursor : ℕ
  pub todo_scroll : ℕ
  pub todo_cursor_mode : TodoCursorMode
  pub message_panel_tab : MessageTab
  pub message_viewport_start : ℕ
  pub message_cursor_index : ℕ
  pub message_tail_follow : Bool

-- `initialSessionUiState`
abbrev pub initial_session_ui_state : SessionUiState
initial_session_ui_state = record {
  focus_mode = FocusMode.input;
  input_mode = normal;
  hints_forced = none;
  show_run_overlay = false;
  search_query = "";
  search_match_pos = 0;
  feed_cursor_id = none;
  feed_viewport_start = 0;
  tail_follow = true;
  todo_visible = true;
  todo_show_done = true;
  todo_cursor = 0;
  todo_scroll = 0;
  todo_cursor_mode = auto;
  message_panel_tab = both;
  message_viewport_start = 0;
  message_cursor_index = 0;
  message_tail_follow = true;
}

pub record SessionUiContext : Type 0 where
  pub feed_entry_count : ℕ
  pub feed_content_rows : ℕ
  pub feed_entries : List String
  pub search_match_count : ℕ
  pub todo_visible_count : ℕ
  pub todo_list_height : ℕ
  pub todo_focusable : Bool
  pub todo_anchor_index : Option ℕ
  pub static_floor : Option ℕ
  pub message_entry_count : ℕ
  pub message_entry_length : ℕ
  pub message_entry_line_offsets : List ℕ
  pub message_content_rows : ℕ

-- The direction of a step is 1 or -1.
pub data Direction : Type 0 where
  forward backward : Direction

pub data SessionUiAction : Type 0 where
  cycle_focus : SessionUiAction
  set_focus_mode : (focus_mode : FocusMode) → SessionUiAction
  open_command_input : SessionUiAction
  open_search_input : SessionUiAction
  open_normal_input : SessionUiAction
  cancel_input : SessionUiAction
  cycle_hints_forced : SessionUiAction
  set_input_mode : (input_mode : InputMode) → SessionUiAction
  set_show_run_overlay : (shown : Bool) → SessionUiAction
  set_search_query : (query : String) → SessionUiAction
  submit_search_query : (query : String) (first_match_index : Option ℕ) → SessionUiAction
  step_search_match : (direction : Direction) (matches : List ℕ) → SessionUiAction
  clear_search_and_jump_tail : SessionUiAction
  move_feed_cursor : (delta : ℤ) → SessionUiAction
  jump_feed_tail : SessionUiAction
  jump_feed_top : SessionUiAction
  set_feed_cursor : (cursor : ℕ) → SessionUiAction
  set_tail_follow : (tail_follow : Bool) → SessionUiAction
  toggle_todo_visible : SessionUiAction
  set_todo_visible : (visible : Bool) → SessionUiAction
  set_todo_show_done : (show_done : Bool) → SessionUiAction
  move_todo_cursor : (delta : ℤ) → SessionUiAction
  set_todo_cursor : (cursor : ℕ) → SessionUiAction
  reveal_feed_entry : (cursor : ℕ) → SessionUiAction
  set_search_match_pos : (position : ℕ) → SessionUiAction
  set_message_tab : (tab : MessageTab) → SessionUiAction
  scroll_message_viewport : (delta : ℤ) → SessionUiAction
  move_message_cursor : (delta : ℤ) → SessionUiAction
  jump_message_tail : SessionUiAction
  jump_message_top : SessionUiAction
