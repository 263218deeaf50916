-- ===== src/Feed.antt =====
-- src/core/feed: the timeline of what an agent does.
pub mod DecisionCorrelation
pub mod RunLifecycle
pub mod Store
pub mod Subagents
pub mod Tasks
pub mod ToolCorrelation
pub mod Tests
