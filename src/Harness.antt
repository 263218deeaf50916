-- ===== src/Harness.antt =====
-- src/harnesses: what Athena reads of the coding agents that it runs.
pub mod LineParser
pub mod Tokens
pub mod Tests
