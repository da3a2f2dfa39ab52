-- ===== src/Risk/Policy.antt =====
-- src/risk.rs: the limits of a policy and `RiskPolicy::validate`.
pub mod Positive
use hyperliquid_live_executo.Base.{
  ℕ, Bool, true, false, ◌||◌, List, [], ◌∷◌, String, Option, none, some, ◌==◌, str_eq,
  if◌then◌else◌, is_empty,
}
use hyperliquid_live_executo.Base.Int.{ℤ, pos, leb_ℤ}
use hyperliquid_live_executo.Base.Result.{Result, ok, ◌>>=◌, ◌>>◌, fail_if}
use hyperliquid_live_executo.Base.Text.{is_blank}
use hyperliquid_live_executo.Decimal.{DecimalOps}
use hyperliquid_live_executo.Decimal

pub record RiskLimits (D : Type 0) : Type 0 where
  pub min_order_notional_usd : D
  pub max_order_notional_usd : D
  pub max_order_risk_usd : D
  pub max_slippage_bps : ℕ
  pub max_stop_distance_bps : ℕ

pub record PortfolioRiskLimits (D : Type 0) : Type 0 where
  pub max_total_exposure_usd : D
  pub max_symbol_exposure_usd : D
  pub max_strategy_exposure_usd : D
  pub max_open_positions : ℕ
  pub max_daily_loss_usd : D
  pub max_consecutive_losses : ℕ
  pub max_effective_leverage : D
  pub min_liquidation_distance_bps : ℕ

pub record MarketRiskLimits (D : Type 0) : Type 0 where
  -- an i64
  pub max_market_age_ms : ℤ
  pub max_spread_bps : ℕ
  pub max_reference_deviation_bps : ℕ
  pub min_top_of_book_depth_usd : D

-- The set of accounts and the map of strategies are lists, in the order of their keys.
pub record RiskPolicy (D : Type 0) : Type 0 where
  pub version : String
  pub allowed_accounts : List String
  pub allow_unregistered_strategies : Bool
  pub default_limits : RiskLimits D
  pub portfolio_limits : PortfolioRiskLimits D
  pub market_limits : MarketRiskLimits D
  pub strategy_limits : List (String × RiskLimits D)

pub data RiskPolicyError : Type 0 where
  missing_version no_allowed_accounts invalid_monetary_limits : RiskPolicyError
  invalid_basis_point_limits invalid_portfolio_limits invalid_market_limits : RiskPolicyError

module _ {A : Type 0} where
  -- `BTreeMap::get`
  abbrev pub get : String → List (String × A) → Option A
  get k [] = none
  get k ((j, v) ∷ m) = if str_eq j k then some v else get k m

-- `Option::or_else` with `then_some`
abbrev pub limits_or : {A : Type 0} → Option A → Bool → A → Option A
limits_or (some l) allowed d = some l
limits_or none true d = some d
limits_or none false d = none

unfoldable pub limits_for : {D : Type 0} → RiskPolicy D → String → Option (RiskLimits D)
limits_for p strategy_id =
    limits_or (get strategy_id p.strategy_limits) p.allow_unregistered_strategies p.default_limits

module _ {D : Type 0} (ops : DecimalOps D) where
  unfoldable pub shadow_tiny_default : RiskPolicy D
  shadow_tiny_default = record {
    version = "shadow-tiny-v1";
    allowed_accounts = "main" ∷ [];
    allow_unregistered_strategies = true;
    default_limits = record {
      min_order_notional_usd = ops.new 5 0;
      max_order_notional_usd = ops.new 25 0;
      max_order_risk_usd = ops.new 1 0;
      max_slippage_bps = 50;
      max_stop_distance_bps = 1500;
    };
    portfolio_limits = record {
      max_total_exposure_usd = ops.new 100 0;
      max_symbol_exposure_usd = ops.new 25 0;
      max_strategy_exposure_usd = ops.new 25 0;
      max_open_positions = 1;
      max_daily_loss_usd = ops.new 2 0;
      max_consecutive_losses = 2;
      max_effective_leverage = ops.new 1 0;
      min_liquidation_distance_bps = 2000;
    };
    market_limits = record {
      max_market_age_ms = pos 2000;
      max_spread_bps = 50;
      max_reference_deviation_bps = 100;
      min_top_of_book_depth_usd = ops.new 1000 0;
    };
    strategy_limits = [];
  }

  abbrev not_positive : D → Bool
  not_positive x = Decimal.le ops x ops.zero

  unfoldable pub validate_limits : RiskLimits D → Result RiskPolicyError (Unit {0})
  validate_limits l = do
    fail_if
        (not_positive l.min_order_notional_usd
          || not_positive l.max_order_notional_usd
          || not_positive l.max_order_risk_usd
          || Decimal.gt ops l.min_order_notional_usd l.max_order_notional_usd)
        invalid_monetary_limits
    fail_if (l.max_slippage_bps == 0 || l.max_stop_distance_bps == 0) invalid_basis_point_limits
    ok tt

  -- `PortfolioRiskLimits::validate`
  unfoldable pub validate_portfolio : PortfolioRiskLimits D → Result RiskPolicyError (Unit {0})
  validate_portfolio l = do
    fail_if
        (not_positive l.max_total_exposure_usd
          || not_positive l.max_symbol_exposure_usd
          || not_positive l.max_strategy_exposure_usd
          || l.max_open_positions == 0
          || not_positive l.max_daily_loss_usd
          || l.max_consecutive_losses == 0
          || not_positive l.max_effective_leverage
          || l.min_liquidation_distance_bps == 0)
        invalid_portfolio_limits
    ok tt

  -- `MarketRiskLimits::validate`
  unfoldable pub validate_market : MarketRiskLimits D → Result RiskPolicyError (Unit {0})
  validate_market l = do
    fail_if
        (leb_ℤ l.max_market_age_ms (pos 0)
          || l.max_spread_bps == 0
          || l.max_reference_deviation_bps == 0
          || not_positive l.min_top_of_book_depth_usd)
        invalid_market_limits
    ok tt

  -- The loop over `strategy_limits.values()`.
  unfoldable pub validate_strategies :
      List (String × RiskLimits D) → Result RiskPolicyError (Unit {0})
  validate_strategies [] = ok tt
  validate_strategies ((_, l) ∷ rest) = validate_limits l >> validate_strategies rest

  -- `RiskPolicy::validate`
  unfoldable pub validate : RiskPolicy D → Result RiskPolicyError (Unit {0})
  validate p = do
    fail_if (is_blank p.version) missing_version
    fail_if (is_empty p.allowed_accounts) no_allowed_accounts
    validate_limits p.default_limits
    validate_portfolio p.portfolio_limits
    validate_market p.market_limits
    validate_strategies p.strategy_limits
    ok tt
