-- ===== src/Risk/Admission.antt =====
-- src/risk.rs: `RiskEngine::evaluate_admission`. A panic of the decimal arithmetic is `none`.
pub mod Caps
use hyperliquid_live_executo.Base.{
  Bool, not, List, [], ◌∷◌, String, Option, none, some, ltb, str_eq, any, if◌then◌else◌,
}
use mathlib.Core.Option
use hyperliquid_live_executo.Decimal.{DecimalOps}
use hyperliquid_live_executo.Decimal
use hyperliquid_live_executo.Domain.Intent.{TradeIntent}
use hyperliquid_live_executo.Risk.Policy.{RiskLimits, RiskPolicy, limits_for}
use hyperliquid_live_executo.Risk.Decision.{
  RiskDecision, RiskReasonCode, approved, rejected, account_not_allowed, strategy_not_registered,
  slippage_limit_exceeded, stop_distance_exceeded, below_minimum_notional,
}

infixl 5 ◌>>=◌
abbrev pub ◌>>=◌ : {A B : Type 0} → Option A → (A → Option B) → Option B
none >>= f = none
some a >>= f = f a

-- `BTreeSet::contains`
abbrev pub contains : String → List String → Bool
contains a accounts = any (str_eq a) accounts

abbrev rejected_decision : {D : Type 0} → RiskPolicy D → RiskReasonCode → Option D → RiskDecision D
rejected_decision p reason stop_distance_bps = record {
  status = rejected;
  policy_version = p.version;
  reason_codes = reason ∷ [];
  approved_notional_usd = none;
  estimated_stop_risk_usd = none;
  stop_distance_bps = stop_distance_bps;
}

module _ {D : Type 0} (ops : DecimalOps D) (policy : RiskPolicy D) where
  -- The sizing, from the cap on the risk and the distance of the stop.
  unfoldable pub sized : TradeIntent D → RiskLimits D → D → D → Option (RiskDecision D)
  sized intent limits stop_fraction stop_distance_bps = do
    risk_sized_notional ←
        ops.div (Decimal.min ops intent.max_risk_usd limits.max_order_risk_usd) stop_fraction
    let approved_notional =
        Decimal.min ops (Decimal.min ops intent.max_notional_usd limits.max_order_notional_usd)
          risk_sized_notional
    if Decimal.lt ops approved_notional limits.min_order_notional_usd
        then some (rejected_decision policy below_minimum_notional (some stop_distance_bps))
        else Option.map
            (λ risk. record {
              status = approved;
              policy_version = policy.version;
              reason_codes = [];
              approved_notional_usd = some approved_notional;
              estimated_stop_risk_usd = some risk;
              stop_distance_bps = some stop_distance_bps;
            })
            (ops.mul approved_notional stop_fraction)

  unfoldable pub with_limits : TradeIntent D → RiskLimits D → Option (RiskDecision D)
  with_limits intent limits =
      if ltb limits.max_slippage_bps intent.entry.max_slippage_bps
      then some (rejected_decision policy slippage_limit_exceeded none)
      else do
        difference ← ops.sub intent.reference_price intent.exit.stop_loss_price
        stop_fraction ← ops.div (ops.abs difference) intent.reference_price
        stop_distance_bps ← ops.mul stop_fraction (ops.new 10000 0)
        if Decimal.gt ops stop_distance_bps (Decimal.from ops limits.max_stop_distance_bps)
            then some (rejected_decision policy stop_distance_exceeded (some stop_distance_bps))
            else sized intent limits stop_fraction stop_distance_bps

  unfoldable pub evaluate_admission : TradeIntent D → Option (RiskDecision D)
  evaluate_admission intent =
      if not (contains intent.account_id policy.allowed_accounts)
      then some (rejected_decision policy account_not_allowed none)
      else elim (limits_for policy intent.strategy_id) [
        | none ↦ some (rejected_decision policy strategy_not_registered none)
        | some limits ↦ with_limits intent limits
      ]
