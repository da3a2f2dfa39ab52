-- ===== src/Domain/Intent/Equality.antt =====
-- src/domain/trade_intent.rs: the derived `PartialEq` of an intent and of its parts.
use hyperliquid_live_executo.Base.{
  Bool, true, false, ◌&&◌, ◌≡◌, refl, List, [], ◌∷◌, ◌==◌, ==_refl, str_eq,
}
use text.Mathlib.TextPositions.{eq_refl}
use hyperliquid_live_executo.Decimal.{DecimalOps}
use hyperliquid_live_executo.Decimal.Order.{OrderLaws, eq_self}
use hyperliquid_live_executo.Decimal
use hyperliquid_live_executo.Domain.Intent.{Side, long, short, TakeProfitTarget, TradeIntent}

abbrev same_side : Side → Side → Bool
same_side long long = true
same_side short short = true
same_side _ _ = false

module _ {D : Type 0} (ops : DecimalOps D) where
  abbrev same_targets : List (TakeProfitTarget D) → List (TakeProfitTarget D) → Bool
  same_targets [] [] = true
  same_targets (t ∷ ts) (u ∷ us) =
      Decimal.eq ops t.price u.price && t.position_pct == u.position_pct && same_targets ts us
  same_targets _ _ = false

  -- `market_ioc` is the only type of entry.
  pub same_intent : TradeIntent D → TradeIntent D → Bool
  same_intent a b =
      a.schema_version == b.schema_version
      && a.intent_id == b.intent_id
      && str_eq a.strategy_id b.strategy_id
      && str_eq a.strategy_version b.strategy_version
      && str_eq a.strategy_instance_id b.strategy_instance_id
      && str_eq a.signal_id b.signal_id
      && str_eq a.account_id b.account_id
      && str_eq a.symbol b.symbol
      && same_side a.side b.side
      && Decimal.eq ops a.reference_price b.reference_price
      && Decimal.eq ops a.max_notional_usd b.max_notional_usd
      && Decimal.eq ops a.max_risk_usd b.max_risk_usd
      && a.entry.max_slippage_bps == b.entry.max_slippage_bps
      && Decimal.eq ops a.exit.stop_loss_price b.exit.stop_loss_price
      && same_targets a.exit.take_profit b.exit.take_profit
      && a.created_at == b.created_at
      && a.expires_at == b.expires_at

  module _ (laws : OrderLaws ops) where
    same_side_refl : (s : Side) → same_side s s ≡ true
    same_side_refl long = refl
    same_side_refl short = refl

    same_targets_refl : (ts : List (TakeProfitTarget D)) → same_targets ts ts ≡ true
    same_targets_refl [] = refl
    same_targets_refl (t ∷ ts) =
        rw (eq_self laws t.price, ==_refl t.position_pct, same_targets_refl ts)

    pub same_intent_refl : (i : TradeIntent D) → same_intent i i ≡ true
    unfolding same_intent
    same_intent_refl i = rw (
      ==_refl i.schema_version,
      ==_refl i.intent_id,
      eq_refl i.strategy_id,
      eq_refl i.strategy_version,
      eq_refl i.strategy_instance_id,
      eq_refl i.signal_id,
      eq_refl i.account_id,
      eq_refl i.symbol,
      same_side_refl i.side,
      eq_self laws i.reference_price,
      eq_self laws i.max_notional_usd,
      eq_self laws i.max_risk_usd,
      ==_refl i.entry.max_slippage_bps,
      eq_self laws i.exit.stop_loss_price,
      same_targets_refl i.exit.take_profit,
      ==_refl i.created_at,
      ==_refl i.expires_at,
    )
