-- ===== src/Risk/PreTrade.antt =====
-- src/risk.rs: `RiskEngine::evaluate_pre_trade` and the snapshots that it reads. A panic, of the
-- decimal arithmetic or of `expect`, is `none`.
pub mod Safety
use hyperliquid_live_executo.Base.{
  ℕ, Bool, false, not, ◌&&◌, ◌||◌, [], ◌∷◌, String, Option, none, some, leb, str_eq, if◌then◌else◌,
}
use mathlib.Core.Option
use hyperliquid_live_executo.Base.Int.{ltb_ℤ}
use hyperliquid_live_executo.Base.Time.{Timestamp, signed_duration_since, num_milliseconds}
use hyperliquid_live_executo.Decimal.{DecimalOps}
use hyperliquid_live_executo.Decimal
use hyperliquid_live_executo.Domain.Intent.{TradeIntent}
use hyperliquid_live_executo.Risk.Policy.{PortfolioRiskLimits, MarketRiskLimits, RiskPolicy}
use hyperliquid_live_executo.Risk.Admission.{◌>>=◌}
use hyperliquid_live_executo.Risk.Decision.{
  RiskDecision, RiskReasonCode, rejected, is_approved, account_snapshot_mismatch,
  invalid_account_equity, daily_loss_limit_exceeded, consecutive_loss_limit_exceeded,
  maximum_positions_exceeded, total_exposure_exceeded, symbol_exposure_exceeded,
  strategy_exposure_exceeded, effective_leverage_exceeded, liquidation_distance_too_small,
  market_data_stale, invalid_market_quote, spread_too_wide, reference_price_deviation_exceeded,
  insufficient_market_depth,
}

pub record AccountRiskSnapshot (D : Type 0) : Type 0 where
  pub account_id : String
  pub equity_usd : D
  pub total_exposure_usd : D
  pub symbol_exposure_usd : D
  pub strategy_exposure_usd : D
  pub open_positions : ℕ
  pub consecutive_losses : ℕ
  pub daily_realized_pnl_usd : D
  pub nearest_liquidation_distance_bps : Option D

pub record MarketRiskSnapshot (D : Type 0) : Type 0 where
  pub observed_at : Timestamp
  pub best_bid : D
  pub best_ask : D
  pub top_of_book_depth_usd : D

pub record PreTradeRiskContext (D : Type 0) : Type 0 where
  pub account : AccountRiskSnapshot D
  pub market : MarketRiskSnapshot D

module _ {D : Type 0} (ops : DecimalOps D) where
  -- `is_some_and` of the distance to the liquidation.
  abbrev pub too_near : Option D → D → Bool
  too_near none limit = false
  too_near (some distance) limit = Decimal.lt ops distance limit

  -- The tests from `MarketDataStale` on.
  unfoldable pub market_reason :
      TradeIntent D
      → MarketRiskLimits D
      → MarketRiskSnapshot D
      → D
      → Timestamp
      → Option (Option RiskReasonCode)
  market_reason intent limits market approved_notional now =
      if ltb_ℤ limits.max_market_age_ms
        (num_milliseconds (signed_duration_since now market.observed_at))
      then some (some market_data_stale)
      else if Decimal.le ops market.best_bid ops.zero
          || Decimal.le ops market.best_ask market.best_bid
      then some (some invalid_market_quote)
      else do
        both ← ops.add market.best_bid market.best_ask
        mid ← ops.div both (ops.new 2 0)
        gap ← ops.sub market.best_ask market.best_bid
        spread ← ops.div gap mid
        spread_bps ← ops.mul spread (ops.new 10000 0)
        away ← ops.sub mid intent.reference_price
        deviation ← ops.div (ops.abs away) intent.reference_price
        reference_deviation_bps ← ops.mul deviation (ops.new 10000 0)
        if Decimal.gt ops spread_bps (Decimal.from ops limits.max_spread_bps)
            then some (some spread_too_wide)
            else if Decimal.gt ops reference_deviation_bps
                (Decimal.from ops limits.max_reference_deviation_bps)
            then some (some reference_price_deviation_exceeded)
            else if Decimal.lt ops market.top_of_book_depth_usd
                (Decimal.max ops limits.min_top_of_book_depth_usd approved_notional)
            then some (some insufficient_market_depth)
            else some none

  -- The tests from `TotalExposureExceeded` to `LiquidationDistanceTooSmall`, and the rest.
  unfoldable pub exposure_reason :
      PortfolioRiskLimits D
      → AccountRiskSnapshot D
      → D
      → Option (Option RiskReasonCode)
      → Option (Option RiskReasonCode)
  exposure_reason limits account approved_notional rest = do
    total ← ops.add account.total_exposure_usd approved_notional
    if Decimal.gt ops total limits.max_total_exposure_usd
        then some (some total_exposure_exceeded)
        else do
          symbol ← ops.add account.symbol_exposure_usd approved_notional
          if Decimal.gt ops symbol limits.max_symbol_exposure_usd
              then some (some symbol_exposure_exceeded)
              else do
                strategy ← ops.add account.strategy_exposure_usd approved_notional
                if Decimal.gt ops strategy limits.max_strategy_exposure_usd
                    then some (some strategy_exposure_exceeded)
                    else do
                      leverage ← ops.div total account.equity_usd
                      if Decimal.gt ops leverage limits.max_effective_leverage
                          then some (some effective_leverage_exceeded)
                          else if too_near account.nearest_liquidation_distance_bps
                              (Decimal.from ops limits.min_liquidation_distance_bps)
                          then some (some liquidation_distance_too_small)
                          else rest

  -- The whole ladder: `none` is a panic, `some none` that no test failed.
  unfoldable pub pre_trade_reason :
      RiskPolicy D
      → TradeIntent D
      → D
      → PreTradeRiskContext D
      → Timestamp
      → Option (Option RiskReasonCode)
  pre_trade_reason policy intent approved_notional context now =
      if not (str_eq account.account_id intent.account_id)
      then some (some account_snapshot_mismatch)
      else if Decimal.le ops account.equity_usd ops.zero
      then some (some invalid_account_equity)
      else if Decimal.le ops account.daily_realized_pnl_usd (ops.neg limits.max_daily_loss_usd)
      then some (some daily_loss_limit_exceeded)
      else if leb limits.max_consecutive_losses account.consecutive_losses
      then some (some consecutive_loss_limit_exceeded)
      else if Decimal.eq ops account.symbol_exposure_usd ops.zero
          && leb limits.max_open_positions account.open_positions
      then some (some maximum_positions_exceeded)
      else exposure_reason limits account approved_notional
          (market_reason intent policy.market_limits context.market approved_notional now)
    where
      open context use {account}
      open policy use {portfolio_limits as limits}

  -- `reason.map_or_else(…)`
  abbrev apply_reason : RiskDecision D → Option RiskReasonCode → RiskDecision D
  apply_reason admission none = admission
  apply_reason admission (some reason) = record admission {
    status = rejected;
    reason_codes = reason ∷ [];
  }

  -- A rejected admission is returned as it is; an approved one without a notional panics.
  unfoldable pub evaluate_pre_trade :
      RiskPolicy D
      → TradeIntent D
      → RiskDecision D
      → PreTradeRiskContext D
      → Timestamp
      → Option (RiskDecision D)
  evaluate_pre_trade policy intent admission context now =
      if not (is_approved admission) then some admission else do
        approved_notional ← admission.approved_notional_usd
        Option.map (apply_reason admission)
            (pre_trade_reason policy intent approved_notional context now)
