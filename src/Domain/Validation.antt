-- ===== src/Domain/Validation.antt =====
-- src/domain/trade_intent.rs: `TradeIntent::validate` and `valid_identifier`.
pub mod Admissible
pub mod Conditions
pub mod Allocation
use hyperliquid_live_executo.Base.{
  ℕ, ◌+◌, ◌%◌, ◌^◌, Bool, not, ◌&&◌, ◌||◌, List, [], ◌∷◌, String, ltb, leb, ◌==◌, all, any, length,
  is_empty, codes,
}
use hyperliquid_live_executo.Base.Result.{Result, ok, ◌>>=◌, ◌>>◌, fail_if}
use hyperliquid_live_executo.Base.Text.{
  bytes, is_blank, is_ascii_digit, is_ascii_uppercase, is_ascii_alphanumeric,
}
use hyperliquid_live_executo.Base.Time.{Timestamp, seconds}
use hyperliquid_live_executo.Decimal.{DecimalOps}
use hyperliquid_live_executo.Decimal
use hyperliquid_live_executo.Domain.Intent.{
  Side, long, short, TakeProfitTarget, ExitPolicy, TradeIntent, trade_intent_schema_version,
}

pub data IntentValidationError : Type 0 where
  unsupported_schema_version invalid_strategy_id missing_strategy_version : IntentValidationError
  invalid_strategy_instance_id invalid_signal_id invalid_account_id : IntentValidationError
  invalid_symbol invalid_notional invalid_reference_price invalid_risk : IntentValidationError
  invalid_slippage invalid_stop_loss invalid_take_profit : IntentValidationError
  invalid_exit_direction expired invalid_validity_window : IntentValidationError

abbrev pub is_identifier_byte : ℕ → Bool
is_identifier_byte b = is_ascii_alphanumeric b || b == b'-' || b == b'_' || b == b'.' || b == b':'

unfoldable pub valid_identifier : String → ℕ → Bool
valid_identifier value max_len =
    not (is_empty (bytes value))
    && leb (length (bytes value)) max_len
    && all is_identifier_byte (bytes value)

abbrev pub is_symbol_char : ℕ → Bool
is_symbol_char c = is_ascii_uppercase c || is_ascii_digit c || c == b':' || c == b'-'

-- The three conditions on `symbol`; the code refuses where one fails.
unfoldable pub valid_symbol : String → Bool
valid_symbol symbol =
    not (is_empty (bytes symbol))
    && leb (length (bytes symbol)) 32
    && all is_symbol_char (codes symbol)

-- `.map(|target| u16::from(target.position_pct)).sum::<u16>()`, which wraps in a release build.
abbrev pub position_pct_sum_from : {D : Type 0} → ℕ → List (TakeProfitTarget D) → ℕ
position_pct_sum_from acc [] = acc
position_pct_sum_from acc (t ∷ ts) = position_pct_sum_from ((acc + t.position_pct) % 2 ^ 16) ts

abbrev pub position_pct_sum : {D : Type 0} → List (TakeProfitTarget D) → ℕ
position_pct_sum targets = position_pct_sum_from 0 targets

module _ {D : Type 0} (ops : DecimalOps D) where
  abbrev pub not_positive : D → Bool
  not_positive x = Decimal.le ops x ops.zero

  unfoldable pub valid_take_profit : List (TakeProfitTarget D) → Bool
  valid_take_profit targets = not (
      is_empty targets
      || any (λ t. not_positive t.price) targets
      || not (position_pct_sum targets == 100))

  unfoldable pub exit_direction_valid : Side → D → ExitPolicy D → Bool
  exit_direction_valid long reference exit =
      Decimal.lt ops exit.stop_loss_price reference
      && all (λ t. Decimal.gt ops t.price reference) exit.take_profit
  exit_direction_valid short reference exit =
      Decimal.gt ops exit.stop_loss_price reference
      && all (λ t. Decimal.lt ops t.price reference) exit.take_profit

  unfoldable pub validate : TradeIntent D → Timestamp → Result IntentValidationError (Unit {0})
  validate i now = do
    fail_if (not (i.schema_version == trade_intent_schema_version)) unsupported_schema_version
    fail_if (not (valid_identifier i.strategy_id 64)) invalid_strategy_id
    fail_if (is_blank i.strategy_version) missing_strategy_version
    fail_if (ltb 64 (length (bytes i.strategy_version))) missing_strategy_version
    fail_if (not (valid_identifier i.strategy_instance_id 128)) invalid_strategy_instance_id
    fail_if (not (valid_identifier i.signal_id 128)) invalid_signal_id
    fail_if (not (valid_identifier i.account_id 64)) invalid_account_id
    fail_if (not (valid_symbol i.symbol)) invalid_symbol
    fail_if (not_positive i.max_notional_usd) invalid_notional
    fail_if (not_positive i.reference_price) invalid_reference_price
    fail_if (not_positive i.max_risk_usd || Decimal.gt ops i.max_risk_usd i.max_notional_usd)
        invalid_risk
    fail_if (not (leb 1 i.entry.max_slippage_bps && leb i.entry.max_slippage_bps 500))
        invalid_slippage
    fail_if (not_positive i.exit.stop_loss_price) invalid_stop_loss
    fail_if (not (valid_take_profit i.exit.take_profit)) invalid_take_profit
    fail_if (not (exit_direction_valid i.side i.reference_price i.exit)) invalid_exit_direction
    fail_if (ltb (now + seconds 30) i.created_at || leb i.expires_at i.created_at)
        invalid_validity_window
    fail_if (leb i.expires_at now) expired
    ok tt
