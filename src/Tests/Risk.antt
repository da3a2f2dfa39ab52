-- ===== src/Tests/Risk.antt =====
-- The risk engine on concrete values.
use hyperliquid_live_executo.Base.{◌≡◌, refl, [], ◌∷◌, none, some}
use hyperliquid_live_executo.Base.Result.{ok}
use hyperliquid_live_executo.Base.Int.{ℤ, pos}
use hyperliquid_live_executo.Base.Text.{bytes, is_blank}
use hyperliquid_live_executo.Base.Time.{seconds}
use hyperliquid_live_executo.Decimal.Fixed.{fixed, fixed-OrderLaws}
use hyperliquid_live_executo.Domain.Validation
use hyperliquid_live_executo.Domain.Intent.{TradeIntent}
use hyperliquid_live_executo.Risk.Decision.{rejected, slippage_limit_exceeded}
use hyperliquid_live_executo.Risk.Policy.{
  RiskLimits, RiskPolicy, shadow_tiny_default, limits_for, validate, validate_limits,
  validate_portfolio, validate_market, validate_strategies,
}
use hyperliquid_live_executo.Risk.Admission.{evaluate_admission, with_limits, sized}
use hyperliquid_live_executo.Risk.Admission.Caps.{IsWellFormed, admission-IsWellFormed}
use hyperliquid_live_executo.Risk.PreTrade.{
  PreTradeRiskContext, evaluate_pre_trade, pre_trade_reason, exposure_reason, market_reason,
}
use hyperliquid_live_executo.Risk.PreTrade.Safety.{IsSafe, pre_trade-IsSafe}
use hyperliquid_live_executo.Tests.Data.{usd, target, order, decision}

abbrev policy : RiskPolicy ℤ
policy = shadow_tiny_default fixed

abbrev limits : RiskLimits ℤ
limits = policy.default_limits

policy-valid : validate fixed policy ≡ ok tt
unfolding validate validate_limits validate_portfolio validate_market validate_strategies
    shadow_tiny_default is_blank
policy-valid = refl

admitted : evaluate_admission fixed policy order ≡ some decision
unfolding evaluate_admission with_limits sized limits_for shadow_tiny_default
admitted = refl

slippery :
    evaluate_admission fixed policy
      (record order { entry = record order.entry { max_slippage_bps = 51 } })
    ≡ some (record decision {
      status = rejected;
      reason_codes = slippage_limit_exceeded ∷ [];
      approved_notional_usd = none;
      estimated_stop_risk_usd = none;
      stop_distance_bps = none;
    })
unfolding evaluate_admission with_limits sized limits_for shadow_tiny_default
slippery = refl

admission-IsWellFormed_example : IsWellFormed fixed policy decision
admission-IsWellFormed_example = admission-IsWellFormed fixed policy order decision admitted

-- A price of two million dollars and a stop a millionth of a dollar below it.
abbrev near_stop : TradeIntent ℤ
near_stop = record order {
  reference_price = usd 2000000;
  exit = record { stop_loss_price = pos 1999999999999; take_profit = target 2100000 100 ∷ [] };
}

-- Its distance, as a fraction of the price, is rounded to zero.
near_stop-valid : Validation.validate fixed near_stop (seconds 20) ≡ ok tt
unfolding Validation.validate Validation.valid_identifier Validation.valid_symbol
    Validation.valid_take_profit Validation.exit_direction_valid bytes is_blank
near_stop-valid = refl

near_stop-panics : evaluate_admission fixed policy near_stop ≡ none
unfolding evaluate_admission with_limits sized limits_for shadow_tiny_default
near_stop-panics = refl

abbrev context : PreTradeRiskContext ℤ
context = record {
  account = record {
    account_id = "main";
    equity_usd = usd 100;
    total_exposure_usd = usd 0;
    symbol_exposure_usd = usd 0;
    strategy_exposure_usd = usd 0;
    open_positions = 0;
    consecutive_losses = 0;
    daily_realized_pnl_usd = usd 0;
    nearest_liquidation_distance_bps = none;
  };
  market = record {
    observed_at = seconds 20;
    best_bid = pos 99900000;
    best_ask = pos 100100000;
    top_of_book_depth_usd = usd 5000;
  };
}

let_through : evaluate_pre_trade fixed policy order decision context (seconds 21) ≡ some decision
unfolding evaluate_pre_trade pre_trade_reason exposure_reason market_reason shadow_tiny_default
let_through = refl

pre_trade-IsSafe_example :
    (decision ≡ decision) × IsSafe fixed policy order (usd 20) context (seconds 21)
pre_trade-IsSafe_example =
    pre_trade-IsSafe fixed fixed-OrderLaws policy order decision decision (usd 20) context
      (seconds 21) let_through refl refl
