-- ===== src/Shell/Resolve/Kept.antt =====
-- The updates that compare first, beside those that do not.
use athena_flow_cli.Common.{arith, ◌≡◌}
use athena_flow_cli.Shell.UiState.{SessionUiState, SessionUiContext}
use athena_flow_cli.Shell.Scroll.{FeedState, MessageState}
use athena_flow_cli.Shell.Resolve.{
  put_feed, with_feed_change, put_message, with_message_change, resolve_parts, put_resolved,
  resolve_session_ui_state,
}

pub with_feed_change_lem :
    (s : SessionUiState) (f : FeedState) → with_feed_change s f ≡ put_feed s f
unfolding with_feed_change
with_feed_change_lem s f = ground arith

pub with_message_change_lem :
    (s : SessionUiState) (m : MessageState) → with_message_change s m ≡ put_message s m
unfolding with_message_change
with_message_change_lem s m = ground arith

pub resolve_session_ui_state_lem :
    (s : SessionUiState) (ctx : SessionUiContext)
    → resolve_session_ui_state s ctx ≡ put_resolved s (resolve_parts s ctx)
unfolding resolve_session_ui_state
resolve_session_ui_state_lem s ctx = ground arith
