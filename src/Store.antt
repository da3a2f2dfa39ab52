-- ===== src/Store.antt =====
-- src/store.rs: the execution store.
pub mod State
pub mod Tx
pub mod Intents
pub mod Events
pub mod Confirm
pub mod Executions
pub mod Transitions
pub mod Orders
pub mod Reconciliation
pub mod Imports
pub mod Snapshots
pub mod History
pub mod Migrations
pub mod Consistency
pub mod Reach
