-- ===== src/Mainnet/Sdk.antt =====
-- The answers of the exchange's SDK, as far as src/mainnet_read.rs reads them. A number is the text
-- that the exchange sends.
use hyperliquid_live_executo.Base.{ℕ, Bool, List, String, Option}

pub record PositionData : Type 0 where
  pub coin : String
  pub szi : String
  pub position_value : String
  pub unrealized_pnl : String
  pub entry_px : Option String
  pub liquidation_px : Option String
  pub leverage_value : ℕ
  pub leverage_type : String

pub record OpenOrder : Type 0 where
  pub coin : String
  pub oid : ℕ
  pub side : String
  pub limit_px : String
  pub sz : String
  pub timestamp : ℕ

-- The order in an order-status detail.
pub record OrderInfo : Type 0 where
  pub coin : String
  pub oid : ℕ
  pub side : String
  pub limit_px : String
  pub sz : String
  pub timestamp : ℕ
  pub is_trigger : Bool
  pub reduce_only : Bool
  pub trigger_condition : String
  pub trigger_px : String

pub record UserState : Type 0 where
  pub asset_positions : List PositionData
  pub account_value : String
  pub total_margin_used : String
  pub total_ntl_pos : String
  pub withdrawable : String

-- `meta`, `all_mids`, `user_state` and `open_orders`, which are asked for together.
pub record Gathered : Type 0 where
  pub universe : List (String × ℕ)
  pub mids : List (String × String)
  pub user_state : UserState
  pub open_orders : List OpenOrder

-- A fill, as the history and the websocket send it.
pub record TradeInfo : Type 0 where
  pub hash : String
  pub oid : ℕ
  pub time : ℕ
  pub coin : String
  pub side : String
  pub dir : String
  pub crossed : Bool
  pub px : String
  pub sz : String
  pub closed_pnl : String
  pub fee : String

-- A funding payment; the websocket sends no hash.
pub record UserFunding : Type 0 where
  pub hash : String
  pub time : ℕ
  pub coin : String
  pub usdc : String
  pub szi : String
  pub funding_rate : String

pub record OrderUpdate : Type 0 where
  pub oid : ℕ
  pub coin : String
  pub side : String
  pub limit_px : String
  pub sz : String
  pub orig_sz : String
  pub cloid : Option String
  pub status : String
  pub status_timestamp : ℕ
