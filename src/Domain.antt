-- ===== src/Domain.antt =====
-- The domain model of src/domain: statuses of orders, positions and intents, the intent and its
-- validation, and the manual confirmation.
pub mod Order
pub mod Position
pub mod Status
pub mod Intent
pub mod Validation
pub mod Confirmation
