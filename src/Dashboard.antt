-- ===== src/Dashboard.antt =====
-- src/app/dashboard: what connects a runtime daemon to the dashboard.
pub mod AssignmentIntake
pub mod DecisionInbox
pub mod PairedExecution
pub mod Tests
