-- ===== src/Risk/Admission/Caps.antt =====
-- What an approval promises, and how an evaluation can fail.
use hyperliquid_live_executo.Base.{◌≤◌, ◌≡◌, true, some, arith, if◌then◌else◌, is_some, length}
use hyperliquid_live_executo.Decimal.{DecimalOps}
use hyperliquid_live_executo.Decimal
use hyperliquid_live_executo.Domain.Intent.{TradeIntent}
use hyperliquid_live_executo.Risk.Policy.{RiskLimits, RiskPolicy}
use hyperliquid_live_executo.Risk.Decision.{RiskDecision, is_approved}
use hyperliquid_live_executo.Risk.Admission.{contains, sized, with_limits, evaluate_admission}

module _ {D : Type 0} (ops : DecimalOps D) (policy : RiskPolicy D) where
  -- An approval carries a notional, its risk and no reason; a rejection carries one reason and no
  -- amount.
  abbrev pub IsWellFormed : RiskDecision D → Type 0
  IsWellFormed d =
      (is_some d.approved_notional_usd ≡ is_approved d)
      × (is_some d.estimated_stop_risk_usd ≡ is_approved d)
      × (length d.reason_codes ≡ (if is_approved d then 0 else 1))

  -- Every decision that the engine reaches at admission is well formed: an approval carries a
  -- notional, an estimated risk and no reason; a rejection carries exactly one reason and neither
  -- amount.
  pub admission-IsWellFormed :
      (i : TradeIntent D) (d : RiskDecision D)
      → evaluate_admission ops policy i ≡ some d
      → IsWellFormed d
  unfolding evaluate_admission with_limits sized
  admission-IsWellFormed i d h = ground arith

  -- The caps on an approved order: its strategy's limits `l`, its notional `n`, the distance of its
  -- stop from the reference price as a fraction and in basis points, and the notional at which this
  -- fraction is the most that may be lost.
  pub record IsCapped (i : TradeIntent D) (l : RiskLimits D) (n bps : D) : Type 0 where
    pub account : contains i.account_id policy.allowed_accounts ≡ true
    pub slippage : i.entry.max_slippage_bps ≤ l.max_slippage_bps
    pub difference : D
    pub apart : ops.sub i.reference_price i.exit.stop_loss_price ≡ some difference
    pub fraction : D
    pub relative : ops.div (ops.abs difference) i.reference_price ≡ some fraction
    pub distance : ops.mul fraction (ops.new 10000 0) ≡ some bps
    pub near : Decimal.le ops bps (Decimal.from ops l.max_stop_distance_bps) ≡ true
    pub risk_notional : D
    pub at_risk :
        ops.div (Decimal.min ops i.max_risk_usd l.max_order_risk_usd) fraction ≡ some risk_notional
    pub below_risk : Decimal.le ops n risk_notional ≡ true
    pub below_intent : Decimal.le ops n i.max_notional_usd ≡ true
    pub below_limit : Decimal.le ops n l.max_order_notional_usd ≡ true
    pub above_minimum : Decimal.le ops l.min_order_notional_usd n ≡ true
