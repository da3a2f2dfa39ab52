-- ===== src/Live.antt =====
-- src/live_execution.rs: the persistent execution of a confirmed intent.
pub mod Execution
pub mod Cloid
