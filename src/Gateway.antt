-- ===== src/Gateway.antt =====
-- src/live_gateway.rs: `HyperliquidGateway`.
pub mod Sdk
pub mod Answers
pub mod Rounding
pub mod Tools
pub mod Fills
pub mod Stops
pub mod Requests
