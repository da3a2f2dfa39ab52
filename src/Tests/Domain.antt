-- ===== src/Tests/Domain.antt =====
-- The domain types on concrete values.
use hyperliquid_live_executo.Base.{
  ◌≤◌, ◌<◌, ◌≡◌, ◌↔◌, ◌⊎◌, refl, true, some, [], ◌∷◌, length, arith, ◌%◌,
}
use hyperliquid_live_executo.Base.Result.{ok, err}
use hyperliquid_live_executo.Base.Steps.{Steps, here, next, steps}
use hyperliquid_live_executo.Base.Time.{seconds}
use hyperliquid_live_executo.Decimal.Fixed.{fixed, fixed-OrderLaws}
use hyperliquid_live_executo.Domain.Validation.{
  validate, valid_take_profit, expired, invalid_risk, valid_identifier, valid_symbol,
  exit_direction_valid,
}
use hyperliquid_live_executo.Domain.Validation.Admissible.{validate_iff}
use hyperliquid_live_executo.Domain.Validation.Conditions.{IsAdmissible}
use hyperliquid_live_executo.Domain.Validation.Allocation.{allocation_total, total_pct}
use hyperliquid_live_executo.Domain.Status
use hyperliquid_live_executo.Domain.Status.Lifecycle.{steps-le-six}
use hyperliquid_live_executo.Domain.Status.Text.{
  status_from_str, status_to_str, status_from_str_iff,
}
use hyperliquid_live_executo.Domain.Order
use hyperliquid_live_executo.Domain.Position
use hyperliquid_live_executo.Live.Execution
use hyperliquid_live_executo.Live.Execution.Text.{
  live_execution_status_str, parse_live_execution_status, parse_live_execution_status_iff,
}
use hyperliquid_live_executo.Base.Text.{bytes, is_blank}
use hyperliquid_live_executo.Tests.Data.{order, usd, target}

validate-order : validate fixed order (seconds 20) ≡ ok tt
unfolding validate valid_identifier valid_symbol valid_take_profit exit_direction_valid bytes
    is_blank
validate-order = refl

-- A target that allocates nothing is accepted beside one that allocates everything.
validate-zero :
    validate fixed
      (record order {
        exit = record order.exit { take_profit = target 110 100 ∷ target 120 0 ∷ [] };
      })
      (seconds 20)
    ≡ ok tt
unfolding validate valid_identifier valid_symbol valid_take_profit exit_direction_valid bytes
    is_blank
validate-zero = refl

validate-late : validate fixed order (seconds 60) ≡ err expired
unfolding validate valid_identifier valid_symbol valid_take_profit exit_direction_valid bytes
    is_blank
validate-late = refl

validate-risky :
    validate fixed (record order { max_risk_usd = usd 21 }) (seconds 20) ≡ err invalid_risk
unfolding validate valid_identifier valid_symbol valid_take_profit exit_direction_valid bytes
    is_blank
validate-risky = refl

validate_iff_example :
    (validate fixed order (seconds 20) ≡ ok tt) ↔ IsAdmissible fixed order (seconds 20)
validate_iff_example = validate_iff fixed fixed-OrderLaws order (seconds 20)

targets-valid : valid_take_profit fixed order.exit.take_profit ≡ true
unfolding valid_take_profit
targets-valid = refl

allocation_total_example :
    (total_pct order.exit.take_profit % 65536 ≡ 100)
    × ((257 < length order.exit.take_profit) ⊎ (total_pct order.exit.take_profit ≡ 100))
allocation_total_example =
    allocation_total fixed order.exit.take_profit (omega arith, (omega arith, tt)) targets-valid

completed_run : Steps Status.can_transition_to Status.received Status.completed
unfolding Status.can_transition_to
completed_run =
    next {t = Status.executing} {u = Status.completed}
      (next {t = Status.submitting} {u = Status.executing}
        (next {t = Status.approved} {u = Status.submitting}
          (next {t = Status.awaiting_confirmation} {u = Status.approved}
            (next {t = Status.received} {u = Status.awaiting_confirmation} here refl) refl)
          refl)
        refl)
      refl

canceled_run : Steps Status.can_transition_to Status.shadow_accepted Status.canceled
unfolding Status.can_transition_to
canceled_run = next here refl

steps-le-six_example : steps completed_run ≤ 6
steps-le-six_example = steps-le-six Status.received Status.completed completed_run

filled_run : Steps Order.can_transition_to Order.pending_submit Order.filled
unfolding Order.can_transition_to
filled_run =
    next {t = Order.partially_filled} {u = Order.filled}
      (next {t = Order.submitted} {u = Order.partially_filled}
        (next {t = Order.pending_submit} {u = Order.submitted} here refl) refl)
      refl

protected_run : Steps Position.can_transition_to Position.opening Position.open_protected
unfolding Position.can_transition_to
protected_run =
    next {t = Position.open_unprotected} {u = Position.open_protected}
      (next {t = Position.opening} {u = Position.open_unprotected} here refl) refl

status_from_str_iff_example :
    (status_from_str "submitting" ≡ some Status.submitting)
    ↔ ("submitting" ≡ status_to_str Status.submitting)
status_from_str_iff_example = status_from_str_iff "submitting" Status.submitting

parse_live_execution_status_iff_example :
    (parse_live_execution_status "closed" ≡ some Execution.closed)
    ↔ ("closed" ≡ live_execution_status_str Execution.closed)
parse_live_execution_status_iff_example = parse_live_execution_status_iff "closed" Execution.closed
