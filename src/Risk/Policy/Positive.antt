-- ===== src/Risk/Policy/Positive.antt =====
-- What a validated policy promises: every limit that the engine reads is positive.
use hyperliquid_live_executo.Base.{
  ◌<◌, inl, inr, some-inj, Option-cases, ◌≡◌, Bool, true, false, List, [], ◌∷◌, String, none, some,
  str_eq, if◌then◌else◌, arith,
}
use hyperliquid_live_executo.Base.Result.{ok, both_ok}
use mathlib.Core.Path.{subst}
use hyperliquid_live_executo.Decimal.{DecimalOps}
use hyperliquid_live_executo.Decimal.Order.{OrderLaws}
use hyperliquid_live_executo.Decimal
use hyperliquid_live_executo.Risk.Policy.{
  RiskLimits, RiskPolicy, get, limits_or, limits_for, validate_limits, validate_portfolio,
  validate_market, validate_strategies, validate,
}

module _ {D : Type 0} (ops : DecimalOps D) where
  abbrev IsPositive : D → Type 0
  IsPositive x = Decimal.lt ops ops.zero x ≡ true

  -- The limits of an order: positive, and in order.
  pub record ArePositive (l : RiskLimits D) : Type 0 where
    pub min_notional : Decimal.lt ops ops.zero l.min_order_notional_usd ≡ true
    pub max_notional : Decimal.lt ops ops.zero l.max_order_notional_usd ≡ true
    pub risk : Decimal.lt ops ops.zero l.max_order_risk_usd ≡ true
    pub ordered : Decimal.le ops l.min_order_notional_usd l.max_order_notional_usd ≡ true
    pub slippage : 0 < l.max_slippage_bps
    pub stop_distance : 0 < l.max_stop_distance_bps

  module _ (laws : OrderLaws ops) where
    limits_positive : (l : RiskLimits D) → validate_limits ops l ≡ ok tt → ArePositive l
    unfolding validate_limits
    limits_positive l h = ground (
      arith,
      laws.gt-lt l.min_order_notional_usd ops.zero,
      laws.gt-lt l.max_order_notional_usd ops.zero,
      laws.gt-lt l.max_order_risk_usd ops.zero,
    )

    strategies_positive :
        (m : List (String × RiskLimits D)) (k : String) (l : RiskLimits D)
        → validate_strategies ops m ≡ ok tt
        → get k m ≡ some l
        → ArePositive l
    unfolding validate_strategies
    strategies_positive [] k l h e = cc
    strategies_positive ((j, v) ∷ m) k l h e =
        let (here, there) = both_ok (validate_limits ops v) (validate_strategies ops m) h in
        pick (str_eq j k) (limits_positive v here) e (strategies_positive m k l there)
      where
        pick :
            (b : Bool)
            → ArePositive v
            → (if b then some v else get k m) ≡ some l
            → (get k m ≡ some l → ArePositive l)
            → ArePositive l
        pick true here e rest = subst ArePositive (some-inj e) here
        pick false here e rest = rest e

    split_policy :
        (p : RiskPolicy D)
        → validate ops p ≡ ok tt
        → (validate_limits ops p.default_limits ≡ ok tt)
          × (validate_portfolio ops p.portfolio_limits ≡ ok tt)
          × (validate_market ops p.market_limits ≡ ok tt)
          × (validate_strategies ops p.strategy_limits ≡ ok tt)
    unfolding validate
    split_policy p h = ground arith

    -- In a policy that passes validation, the limits that the engine finds for any strategy are
    -- positive, with the least order at most the greatest, be they the strategy's own or the
    -- default.
    pub limits_for-ArePositive :
        (p : RiskPolicy D) (strategy_id : String) (l : RiskLimits D)
        → validate ops p ≡ ok tt
        → limits_for p strategy_id ≡ some l
        → ArePositive l
    unfolding limits_for
    limits_for-ArePositive p strategy_id l h e =
        let (default, _, _, strategies) = split_policy p h in
        elim (Option-cases (get strategy_id p.strategy_limits)) [
          | inl unlisted ↦ unlisted_case p.allow_unregistered_strategies default (rw unlisted at e)
          | inr (own, listed) ↦
              subst ArePositive (some-inj (rw listed at e))
                (strategies_positive p.strategy_limits strategy_id own strategies listed)
        ]
      where
        unlisted_case :
            (allowed : Bool)
            → validate_limits ops p.default_limits ≡ ok tt
            → limits_or none allowed p.default_limits ≡ some l
            → ArePositive l
        unlisted_case true default e =
            subst ArePositive (some-inj e) (limits_positive p.default_limits default)
        unlisted_case false default e = cc
