-- ===== src/Risk/Decision.antt =====
-- src/risk.rs: the decision that is stored with an intent.
use hyperliquid_live_executo.Base.{Bool, true, false, List, String, Option}

pub data RiskDecisionStatus : Type 0 where
  approved rejected : RiskDecisionStatus

pub data RiskReasonCode : Type 0 where
  account_not_allowed strategy_not_registered slippage_limit_exceeded : RiskReasonCode
  stop_distance_exceeded below_minimum_notional account_snapshot_mismatch : RiskReasonCode
  invalid_account_equity daily_loss_limit_exceeded : RiskReasonCode
  consecutive_loss_limit_exceeded maximum_positions_exceeded : RiskReasonCode
  total_exposure_exceeded symbol_exposure_exceeded strategy_exposure_exceeded : RiskReasonCode
  effective_leverage_exceeded liquidation_distance_too_small market_data_stale : RiskReasonCode
  invalid_market_quote spread_too_wide reference_price_deviation_exceeded : RiskReasonCode
  insufficient_market_depth : RiskReasonCode

pub record RiskDecision (D : Type 0) : Type 0 where
  pub status : RiskDecisionStatus
  pub policy_version : String
  pub reason_codes : List RiskReasonCode
  pub approved_notional_usd : Option D
  pub estimated_stop_risk_usd : Option D
  pub stop_distance_bps : Option D

abbrev is_approved_status : RiskDecisionStatus → Bool
is_approved_status approved = true
is_approved_status rejected = false

abbrev pub is_approved : {D : Type 0} → RiskDecision D → Bool
is_approved d = is_approved_status d.status
