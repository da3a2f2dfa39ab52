-- ===== src/Tests.antt =====
-- Runs of the model on concrete values, and the theorems at concrete inputs.
pub mod Data
mod Domain
mod Risk
pub mod Store
pub mod Worker
pub mod Engine
pub mod Snapshots
mod Gateway
mod Service
mod Api
mod Vault
mod Startup
mod Migrations
mod Program
