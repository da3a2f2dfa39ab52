-- ===== src/Risk.antt =====
-- src/risk.rs: the policy, its validation, and the two evaluations of an intent.
pub mod Policy
pub mod Decision
pub mod Admission
pub mod PreTrade
