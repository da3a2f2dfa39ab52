-- ===== src/Risk/PreTrade/Safety.antt =====
-- What an approval before the trade promises.
use hyperliquid_live_executo.Base.{
  ◌<◌, ◌≡◌, ◌⊎◌, Bool, true, false, Option, none, some, str_eq, arith,
}
use hyperliquid_live_executo.Base.Int.{leb_ℤ}
use hyperliquid_live_executo.Base.Time.{Timestamp, signed_duration_since, num_milliseconds}
use hyperliquid_live_executo.Decimal.{DecimalOps}
use hyperliquid_live_executo.Decimal.Order.{OrderLaws, not-lt-max}
use hyperliquid_live_executo.Decimal
use hyperliquid_live_executo.Domain.Intent.{TradeIntent}
use hyperliquid_live_executo.Risk.Policy.{PortfolioRiskLimits, MarketRiskLimits, RiskPolicy}
use hyperliquid_live_executo.Risk.Admission.{◌>>=◌}
use hyperliquid_live_executo.Risk.Decision.{RiskDecision, RiskReasonCode, is_approved}
use hyperliquid_live_executo.Risk.PreTrade.{
  AccountRiskSnapshot, MarketRiskSnapshot, PreTradeRiskContext, too_near, market_reason,
  exposure_reason, pre_trade_reason, evaluate_pre_trade,
}

module _ {D : Type 0} (ops : DecimalOps D) where
  -- The number could be computed and is at most the limit.
  abbrev at_most : Option D → D → Bool
  at_most none limit = false
  at_most (some x) limit = Decimal.le ops x limit

  -- The middle of the quote, the spread and the deviation from the reference price, in basis
  -- points.
  abbrev mid_price : MarketRiskSnapshot D → Option D
  mid_price m = ops.add m.best_bid m.best_ask >>= λ both. ops.div both (ops.new 2 0)

  abbrev bps_of : D → D → Option D
  bps_of part whole = ops.div part whole >>= λ q. ops.mul q (ops.new 10000 0)

  abbrev pub spread_bps : MarketRiskSnapshot D → Option D
  spread_bps m = mid_price m >>= λ mid. ops.sub m.best_ask m.best_bid >>= λ gap. bps_of gap mid

  abbrev deviation_bps : TradeIntent D → MarketRiskSnapshot D → Option D
  deviation_bps i m = mid_price m >>= λ mid.
      ops.sub mid i.reference_price >>= λ away. bps_of (ops.abs away) i.reference_price

  -- The market is fresh, quoted, tight, near the reference price and deep enough.
  pub record IsTradable (i : TradeIntent D) (l : MarketRiskLimits D) (m : MarketRiskSnapshot D)
      (n : D) (now : Timestamp) : Type 0 where
    pub fresh :
        leb_ℤ (num_milliseconds (signed_duration_since now m.observed_at)) l.max_market_age_ms
        ≡ true
    pub bid : Decimal.le ops m.best_bid ops.zero ≡ false
    pub ask : Decimal.le ops m.best_ask m.best_bid ≡ false
    pub tight : at_most (spread_bps m) (Decimal.from ops l.max_spread_bps) ≡ true
    pub near : at_most (deviation_bps i m) (Decimal.from ops l.max_reference_deviation_bps) ≡ true
    pub deep : Decimal.lt ops m.top_of_book_depth_usd l.min_top_of_book_depth_usd ≡ false
    pub covers : Decimal.lt ops m.top_of_book_depth_usd n ≡ false

  -- With the new order the account stays within its exposure limits.
  pub record IsWithinExposure (l : PortfolioRiskLimits D) (a : AccountRiskSnapshot D) (n : D)
      : Type 0 where
    pub total : at_most (ops.add a.total_exposure_usd n) l.max_total_exposure_usd ≡ true
    pub symbol : at_most (ops.add a.symbol_exposure_usd n) l.max_symbol_exposure_usd ≡ true
    pub strategy : at_most (ops.add a.strategy_exposure_usd n) l.max_strategy_exposure_usd ≡ true
    pub leverage :
        at_most
          (ops.add a.total_exposure_usd n >>= λ t. ops.div t a.equity_usd)
          l.max_effective_leverage
        ≡ true
    pub liquidation :
        too_near ops a.nearest_liquidation_distance_bps
          (Decimal.from ops l.min_liquidation_distance_bps)
        ≡ false

  exposure_lem :
      (l : PortfolioRiskLimits D) (a : AccountRiskSnapshot D) (n : D)
      (rest : Option (Option RiskReasonCode))
      → exposure_reason ops l a n rest ≡ some none
      → IsWithinExposure l a n × (rest ≡ some none)
  unfolding exposure_reason
  exposure_lem l a n rest h = ground arith

  market_lem :
      OrderLaws ops
      → (i : TradeIntent D) (l : MarketRiskLimits D) (m : MarketRiskSnapshot D) (n : D)
        (now : Timestamp)
      → market_reason ops i l m n now ≡ some none
      → IsTradable i l m n now
  unfolding market_reason
  market_lem laws i l m n now h =
      ground (arith, not-lt-max laws m.top_of_book_depth_usd l.min_top_of_book_depth_usd n)

  -- What holds of an account, an intent and a market when the trade is let through.
  pub record IsSafe (p : RiskPolicy D) (i : TradeIntent D) (n : D) (c : PreTradeRiskContext D)
      (now : Timestamp) : Type 0 where
    pub account : str_eq c.account.account_id i.account_id ≡ true
    pub equity : Decimal.le ops c.account.equity_usd ops.zero ≡ false
    pub daily_loss :
        Decimal.le ops c.account.daily_realized_pnl_usd
          (ops.neg p.portfolio_limits.max_daily_loss_usd)
        ≡ false
    pub losses : c.account.consecutive_losses < p.portfolio_limits.max_consecutive_losses
    pub positions :
        (Decimal.eq ops c.account.symbol_exposure_usd ops.zero ≡ false)
        ⊎ (c.account.open_positions < p.portfolio_limits.max_open_positions)
    pub exposure : IsWithinExposure p.portfolio_limits c.account n
    pub market : IsTradable i p.market_limits c.market n now

  reason_lem :
      OrderLaws ops
      → (p : RiskPolicy D) (i : TradeIntent D) (n : D) (c : PreTradeRiskContext D) (now : Timestamp)
      → pre_trade_reason ops p i n c now ≡ some none
      → IsSafe p i n c now
  unfolding pre_trade_reason
  reason_lem laws p i n c now h = ground (
    arith,
    exposure_lem p.portfolio_limits c.account n
        (market_reason ops i p.market_limits c.market n now),
    market_lem laws i p.market_limits c.market n now,
  )

  -- A trade that passes the evaluation before it is sent is safe: the admission that it was given
  -- was approved and is returned unchanged, the snapshot is of the intent's account, the equity is
  -- positive, no loss limit is reached, a new symbol leaves the number of positions within its
  -- limit, the exposures and the leverage with the approved notional stay within theirs, the
  -- liquidation is not too near, and the quote is fresh, positive, tight, near the reference price
  -- and as deep as the policy and the order ask. Decimals are assumed to be totally ordered.
  pub pre_trade-IsSafe :
      OrderLaws ops
      → (p : RiskPolicy D) (i : TradeIntent D) (admission d : RiskDecision D) (n : D)
        (c : PreTradeRiskContext D) (now : Timestamp)
      → evaluate_pre_trade ops p i admission c now ≡ some d
      → is_approved d ≡ true
      → admission.approved_notional_usd ≡ some n
      → (d ≡ admission) × IsSafe p i n c now
  unfolding evaluate_pre_trade
  pre_trade-IsSafe laws p i admission d n c now h passed en =
      ground (arith, reason_lem laws p i n c now)
