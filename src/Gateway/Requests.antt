-- ===== src/Gateway/Requests.antt =====
-- src/live_gateway.rs: the three requests of the gateway. What the exchange answers is an argument.
pub mod Verified
pub mod Closing
pub mod Protected
use hyperliquid_live_executo.Base.{
  ℕ, ◌+◌, ◌%◌, Bool, true, false, not, ◌&&◌, List, [], ◌∷◌, String, none, some, str_eq, any,
  if◌then◌else◌,
}
use hyperliquid_live_executo.Base.Result.{ok, or_panic, fail_if, ◌>>=◌, ◌>>◌}
use hyperliquid_live_executo.Domain.Intent.{TradeIntent, TakeProfitTarget, Side, long, short}
use hyperliquid_live_executo.Gateway.Answers.{
  Call, sent, confirmed_fill, submission_accepted, require_all_accepted,
}
use hyperliquid_live_executo.Gateway.Rounding.{decimal_f64, round_price, round_size}
use hyperliquid_live_executo.Gateway.Sdk.{Exchange, ClientOrderRequest, limit, trigger}
use hyperliquid_live_executo.Live.Cloid.{deterministic_cloid, stop_loss, take_profit}
use hyperliquid_live_executo.Live.Execution.{ConfirmedFill, definite}
use hyperliquid_live_executo.Gateway.Tools.{Tools}
use hyperliquid_live_executo.Gateway.Fills.{query_confirmed_fill}
use hyperliquid_live_executo.Gateway.Stops.{verify_protection}

abbrev is_short : Side → Bool
is_short short = true
is_short long = false

abbrev trigger_order :
    {D F : Type 0} → TradeIntent D → Bool → F → F → String → ℕ → ClientOrderRequest F
trigger_order intent is_buy size trigger_price tpsl cloid = record {
  asset = intent.symbol;
  is_buy = is_buy;
  reduce_only = true;
  limit_px = trigger_price;
  sz = size;
  cloid = cloid;
  order_type = trigger true trigger_price tpsl;
}

module _ {D F : Type 0} (tools : Tools D F) where
  -- A size that is a decimal and is not zero.
  abbrev pub is_open_size : String → Bool
  is_open_size text = elim (tools.parse text) [
    | none ↦ false
    | some size ↦ not (tools.ops.is_zero size)
  ]

  abbrev pub already_open : String → List (String × String) → Bool
  already_open symbol = any λ (p : String × String). str_eq p.0 symbol && is_open_size p.1

  -- `fill.size * Decimal::from(target.position_pct) / Decimal::ONE_HUNDRED`
  abbrev share_of : D → ℕ → Call D
  share_of size pct = do
    product ← or_panic (tools.ops.mul size (tools.ops.new pct 0))
    or_panic (tools.ops.div product (tools.ops.new 100 0))

  abbrev aggressive_price : TradeIntent D → F → F
  aggressive_price intent price =
      let slippage : F =
        tools.floats.div (tools.floats.of_nat intent.entry.max_slippage_bps)
          (tools.floats.of_nat 10000) in
      if is_short intent.side
      then tools.floats.mul price (tools.floats.add (tools.floats.of_nat 1) slippage)
      else tools.floats.mul price (tools.floats.sub (tools.floats.of_nat 1) slippage)

module _ {D F : Type 0} (tools : Tools D F) (exchange : Exchange F) where
  unfoldable pub submit_entry : TradeIntent D → D → ℕ → Call (ConfirmedFill D)
  unfolding decimal_f64
  submit_entry intent approved_notional cloid = do
    positions ← sent exchange.user_state
    fail_if (already_open tools intent.symbol positions)
        (definite "pre-submit risk rejected an existing symbol position")
    reference_price ← decimal_f64 tools.floats intent.reference_price
    notional ← decimal_f64 tools.floats approved_notional
    response ← sent (
        exchange.market_open (record {
          asset = intent.symbol;
          is_buy = not (is_short intent.side);
          sz = tools.floats.div notional reference_price;
          px = reference_price;
          slippage =
              tools.floats.div (tools.floats.of_nat intent.entry.max_slippage_bps)
                (tools.floats.of_nat 10000);
          cloid = cloid;
        }))
    submission_accepted response
    query_confirmed_fill tools exchange cloid

  -- The orders of the targets; the number of a target is cut to a u8.
  unfoldable pub target_orders :
      TradeIntent D
      → ConfirmedFill D
      → ℕ
      → List (TakeProfitTarget D)
      → Call (List (ClientOrderRequest F))
  unfolding decimal_f64 round_size round_price
  target_orders intent fill index [] = ok []
  target_orders intent fill index (target ∷ targets) =
      let rest = target_orders intent fill (index + 1) targets in
      do
        share ← share_of tools fill.size target.position_pct
        size ←
            round_size tools.floats tools.ops tools.round_to_zero exchange.universe intent.symbol
              share
        target_price ← decimal_f64 tools.floats target.price
        price ← round_price tools.floats exchange.universe intent.symbol target_price
        others ← rest
        ok (
            trigger_order intent (is_short intent.side) size price "tp"
              (deterministic_cloid tools.sha256 intent.intent_id (take_profit (index % 256)))
            ∷ others)

  unfoldable pub protection_orders :
      TradeIntent D → ConfirmedFill D → Call (List (ClientOrderRequest F))
  unfolding decimal_f64 round_size round_price
  protection_orders intent fill = do
    total_size ←
        round_size tools.floats tools.ops tools.round_to_zero exchange.universe intent.symbol
          fill.size
    stop_price ← decimal_f64 tools.floats intent.exit.stop_loss_price
    price ← round_price tools.floats exchange.universe intent.symbol stop_price
    targets ← target_orders intent fill 0 intent.exit.take_profit
    ok (
        trigger_order intent (is_short intent.side) total_size price "sl"
          (deterministic_cloid tools.sha256 intent.intent_id stop_loss)
        ∷ targets)

  unfoldable pub establish_protection : TradeIntent D → ConfirmedFill D → Call (Unit {0})
  establish_protection intent fill = do
    orders ← protection_orders intent fill
    response ← sent (exchange.bulk_order orders)
    require_all_accepted response
    verify_protection tools exchange intent fill

  -- The order that closes the position at once.
  unfoldable pub close_order : TradeIntent D → ConfirmedFill D → ℕ → Call (ClientOrderRequest F)
  unfolding decimal_f64 round_size round_price
  close_order intent fill cloid = do
    average ← decimal_f64 tools.floats fill.average_price
    price ←
        round_price tools.floats exchange.universe intent.symbol
          (aggressive_price tools intent average)
    size ←
        round_size tools.floats tools.ops tools.round_to_zero exchange.universe intent.symbol
          fill.size
    ok (record {
      asset = intent.symbol;
      is_buy = is_short intent.side;
      reduce_only = true;
      limit_px = price;
      sz = size;
      cloid = cloid;
      order_type = limit "Ioc";
    })

  unfoldable pub emergency_close : TradeIntent D → ConfirmedFill D → ℕ → Call (Unit {0})
  emergency_close intent fill cloid = do
    order ← close_order intent fill cloid
    response ← sent (exchange.order order)
    _ ← confirmed_fill tools.parse response
    ok tt
