-- ===== src/Domain/Intent.antt =====
-- src/domain/trade_intent.rs: the immutable intent that a strategy submits.
pub mod Equality
use hyperliquid_live_executo.Base.{ℕ, String, List}
use hyperliquid_live_executo.Base.Time.{Timestamp}

abbrev pub trade_intent_schema_version : ℕ
trade_intent_schema_version = 1

pub data Side : Type 0 where
  long short : Side

pub data EntryType : Type 0 where
  market_ioc : EntryType

pub record EntryPolicy : Type 0 where
  pub kind : EntryType
  pub max_slippage_bps : ℕ

pub record TakeProfitTarget (D : Type 0) : Type 0 where
  pub price : D
  -- a u8
  pub position_pct : ℕ

pub record ExitPolicy (D : Type 0) : Type 0 where
  pub stop_loss_price : D
  pub take_profit : List (TakeProfitTarget D)

-- A UUID is its 128-bit number.
pub record TradeIntent (D : Type 0) : Type 0 where
  pub schema_version : ℕ
  pub intent_id : ℕ
  pub strategy_id : String
  pub strategy_version : String
  pub strategy_instance_id : String
  pub signal_id : String
  pub account_id : String
  pub symbol : String
  pub side : Side
  pub reference_price : D
  pub max_notional_usd : D
  pub max_risk_usd : D
  pub entry : EntryPolicy
  pub exit : ExitPolicy D
  pub created_at : Timestamp
  pub expires_at : Timestamp
