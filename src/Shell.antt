-- ===== src/Shell.antt =====
-- The shell around the agent: the state of its panes.
pub mod UiState
pub mod Scroll
pub mod Resolve
pub mod Reduce
mod Tests
