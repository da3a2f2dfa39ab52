-- ===== src/Mainnet.antt =====
-- src/mainnet_read.rs: what a snapshot of the account on the exchange holds, and the rows that
-- src/store.rs keeps of it.
pub mod Coverage
pub mod Sdk
pub mod Parse
pub mod Fetch
pub mod Status
pub mod Service
use hyperliquid_live_executo.Base.{ℕ, Bool, List, String, Option}
use hyperliquid_live_executo.Base.Time.{Timestamp}

pub record MainnetPositionSnapshot (D : Type 0) : Type 0 where
  pub coin : String
  pub signed_size : D
  pub position_value_usd : D
  pub unrealized_pnl_usd : D
  pub entry_price : Option D
  pub liquidation_price : Option D
  pub leverage : ℕ
  pub leverage_type : String

pub record MainnetOpenOrderSnapshot (D : Type 0) : Type 0 where
  pub coin : String
  pub oid : ℕ
  pub side : String
  pub limit_price : D
  pub size : D
  pub timestamp_ms : ℕ
  pub is_trigger : Bool
  pub reduce_only : Bool
  pub trigger_condition : String
  pub trigger_price : Option D

pub record MainnetProtectionCoverage (D : Type 0) : Type 0 where
  pub coin : String
  pub required_size : D
  pub covered_size : D
  pub stop_order_count : ℕ
  pub covered : Bool
  pub reason_code : Option String

-- The two maps are lists, in the order of their keys.
pub record MainnetAccountSnapshot (D : Type 0) : Type 0 where
  pub account_address : String
  pub observed_at : Timestamp
  pub account_value_usd : D
  pub withdrawable_usd : D
  pub total_margin_used_usd : D
  pub total_position_notional_usd : D
  pub positions : List (MainnetPositionSnapshot D)
  pub open_orders : List (MainnetOpenOrderSnapshot D)
  pub protection_coverage : List (MainnetProtectionCoverage D)
  pub asset_size_decimals : List (String × ℕ)
  pub mids : List (String × String)

pub record MainnetFillRecord (D : Type 0) : Type 0 where
  pub hash : String
  pub oid : ℕ
  pub time_ms : ℕ
  pub coin : String
  pub side : String
  pub direction : String
  pub crossed : Bool
  pub price : D
  pub size : D
  pub closed_pnl_usd : D
  pub fee_usd : D

pub record MainnetFundingRecord (D : Type 0) : Type 0 where
  pub hash : String
  pub time_ms : ℕ
  pub coin : String
  pub usdc : D
  pub signed_size : D
  pub funding_rate : D

pub record MainnetHistoryBatch (D : Type 0) : Type 0 where
  pub fills : List (MainnetFillRecord D)
  pub funding : List (MainnetFundingRecord D)

pub record MainnetOrderUpdateRecord (D : Type 0) : Type 0 where
  pub oid : ℕ
  pub status : String
  pub status_timestamp_ms : ℕ
  pub coin : String
  pub side : String
  pub limit_price : D
  pub size : D
  pub original_size : D
  pub cloid : Option String

-- A row of `mainnet_order_projection`.
pub record ProjectedOrder : Type 0 where
  pub account_address : String
  pub oid : ℕ
  pub coin : String
  pub status : String
  pub source : String
  pub last_seen_at : Timestamp

-- A row of `mainnet_position_projection`; the size is its text.
pub record ProjectedPosition : Type 0 where
  pub account_address : String
  pub coin : String
  pub signed_size : String
  pub source : String
  pub last_seen_at : Timestamp

-- A row of `mainnet_order_updates`; a decimal is its text.
pub record OrderUpdateRow : Type 0 where
  pub account_address : String
  pub oid : ℕ
  pub status : String
  pub status_timestamp_ms : ℕ
  pub coin : String
  pub side : String
  pub limit_price : String
  pub size : String
  pub original_size : String
  pub cloid : Option String

-- A row of `mainnet_fills`; a decimal is its text.
pub record FillRow : Type 0 where
  pub account_address : String
  pub exchange_hash : String
  pub oid : ℕ
  pub time_ms : ℕ
  pub coin : String
  pub side : String
  pub direction : String
  pub crossed : Bool
  pub price : String
  pub size : String
  pub closed_pnl_usd : String
  pub fee_usd : String

-- A row of `mainnet_funding`; a decimal is its text.
pub record FundingRow : Type 0 where
  pub account_address : String
  pub exchange_hash : String
  pub time_ms : ℕ
  pub coin : String
  pub usdc : String
  pub signed_size : String
  pub funding_rate : String

-- The tables of the exchange's data.
pub record Mainnet (D : Type 0) : Type 0 where
  pub snapshots : List (MainnetAccountSnapshot D)
  pub orders : List ProjectedOrder
  pub positions : List ProjectedPosition
  pub order_updates : List OrderUpdateRow
  pub fills : List FillRow
  pub funding : List FundingRow
