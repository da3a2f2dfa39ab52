-- ===== src/Tests/Gateway.antt =====
-- The gateway on concrete answers of the exchange, and a pass of the worker through it.
use hyperliquid_live_executo.Base.{
  ℕ, ◌≡◌, refl, true, false, [], ◌∷◌, Option, none, some, ◌==◌, if◌then◌else◌,
}
use hyperliquid_live_executo.Base.Int.{ℤ, pos}
use hyperliquid_live_executo.Base.Result.{ok, err}
use hyperliquid_live_executo.Decimal.Fixed.{fixed}
use hyperliquid_live_executo.Live.Cloid
use hyperliquid_live_executo.Live.Cloid.{deterministic_cloid, stable_name}
use hyperliquid_live_executo.Live.Execution
use hyperliquid_live_executo.Live.Execution.{definite}
use hyperliquid_live_executo.Store.Intents.{submit_shadow_intent}
use hyperliquid_live_executo.Store.Confirm.{confirm_intent_for_execution}
use hyperliquid_live_executo.Worker.{run_once}
use hyperliquid_live_executo.Worker.Settles.{status_of}
use hyperliquid_live_executo.Gateway.Sdk.{
  Floats, Exchange, FilledOrder, OrderDetail, ClientOrderRequest, ExchangeResponseStatus, limit,
  accepted, refused, filled, resting,
}
use hyperliquid_live_executo.Gateway.Answers.{
  submission_accepted, require_all_accepted, response_statuses,
}
use hyperliquid_live_executo.Gateway.Fills.{
  query_order_by_cloid_with_retry, query_confirmed_fill, poll_fills, sum_fills,
}
use hyperliquid_live_executo.Gateway.Requests.{
  submit_entry, establish_protection, protection_orders, target_orders, close_order,
}
use hyperliquid_live_executo.Gateway.Requests.Closing.{hyperliquid_gateway, partial_close_closes}
use hyperliquid_live_executo.Gateway.Requests.Verified.{protection_verified}
use hyperliquid_live_executo.Gateway.Rounding.{decimal_f64, round_price, round_size, size_decimals}
use hyperliquid_live_executo.Gateway.Stops.{verify_protection, poll_stop, find_stop, cloid_hex}
use hyperliquid_live_executo.Gateway.Stops.Shown.{IsProtecting}
use hyperliquid_live_executo.Gateway.Tools.{Tools}
use hyperliquid_live_executo.Tests.Data.{order, usd, sha256, parse}
use hyperliquid_live_executo.Tests.Store.{confirmed, approved_row, waiting}
use hyperliquid_live_executo.Gateway.Requests.Protected.{protected_shown}
use hyperliquid_live_executo.Worker.Protects.{protected_settles}
use hyperliquid_live_executo.Tests.Worker.{bought, clock, ready, orders_recorded}

abbrev value_of : Option ℤ → ℤ
value_of none = pos 0
value_of (some x) = x

-- Floats that are decimals in millionths; the prices of the tests have three digits.
abbrev floats : Floats ℤ ℤ
floats = record {
  to_f64 = λ d. some d;
  of_nat = usd;
  add = λ a b. value_of (fixed.add a b);
  sub = λ a b. value_of (fixed.sub a b);
  mul = λ a b. value_of (fixed.mul a b);
  div = λ a b. value_of (fixed.div a b);
  abs = fixed.abs;
  log10 = λ _. usd 2;
  floor = λ x. x;
  round = λ x. x;
  to_i32 = λ _. pos 2;
  ten_powi = λ _. usd 100;
  copysign = λ a _. a;
}

abbrev tools : Tools ℤ ℤ
tools = record {
  ops = fixed;
  parse = parse;
  floats = floats;
  round_to_zero = λ _ d. d;
  sha256 = sha256;
}

-- The stop of the intent, as the exchange shows it.
abbrev stop : OrderDetail
stop = record {
  cloid = some "0x4502030405065708890a0b0c0d0e0f10";
  coin = "BTC";
  side = "A";
  sz = "1";
  reduce_only = true;
  is_trigger = true;
}

-- Half of the position.
abbrev part : FilledOrder
part = record { oid = 98; total_sz = "0.5"; avg_px = "99" }

-- An exchange that fills the entry, by its answer to the protection.
abbrev exchange : ExchangeResponseStatus → Exchange ℤ
exchange protection = record {
  universe = ("BTC", 5) ∷ [];
  user_state = ok (("ETH", "1") ∷ ("BTC", "0") ∷ []);
  market_open = λ _. ok (accepted (some (filled part ∷ [])));
  bulk_order = λ _. ok protection;
  order = λ _. ok (accepted (some (filled part ∷ [])));
  order_status = λ _ _. ok (some (record { status = "filled"; oid = some 99 }));
  user_fills = λ _. ok (
      record { oid = 99; sz = "0.5"; px = "100" }
      ∷ record { oid = 12; sz = "1"; px = "99" }
      ∷ record { oid = 99; sz = "0.5"; px = "100" }
      ∷ []);
  open_orders = λ _. ok (4 ∷ 5 ∷ []);
  query_order_by_oid = λ _ oid. ok (if oid == 5 then some stop else none);
}

abbrev helpful : Exchange ℤ
helpful = exchange (accepted (some (resting 5 ∷ resting 6 ∷ resting 7 ∷ [])))

abbrev unhelpful : Exchange ℤ
unhelpful = exchange (refused "no trigger orders")

entered :
    (protection : ExchangeResponseStatus) (cloid : ℕ)
    → submit_entry tools (exchange protection) order (usd 20) cloid ≡ ok bought
unfolding submit_entry decimal_f64 submission_accepted response_statuses query_confirmed_fill
    query_order_by_cloid_with_retry poll_fills sum_fills
entered protection cloid = refl

protects : establish_protection tools helpful order bought ≡ ok tt
unfolding establish_protection protection_orders target_orders decimal_f64 round_price round_size
    size_decimals require_all_accepted response_statuses verify_protection poll_stop find_stop
    cloid_hex deterministic_cloid stable_name
protects = refl

protection_verified_example :
    (try oid : ℕ) × (found : OrderDetail) × (size : ℤ) × IsProtecting tools helpful order bought try
      oid found size
protection_verified_example = protection_verified tools helpful order bought protects

-- The order that closes the position: two tenths of a per cent below the average price.
abbrev closing : ClientOrderRequest ℤ
closing = record {
  asset = "BTC";
  is_buy = false;
  reduce_only = true;
  limit_px = pos 99800000;
  sz = usd 1;
  cloid = deterministic_cloid sha256 7 Cloid.emergency_close;
  order_type = limit "Ioc";
}

unprotected : establish_protection tools unhelpful order bought ≡ err (definite "no trigger orders")
unfolding establish_protection protection_orders target_orders decimal_f64 round_price round_size
    size_decimals require_all_accepted response_statuses
unprotected = refl

closes :
    close_order tools unhelpful order bought (deterministic_cloid sha256 7 Cloid.emergency_close)
    ≡ ok closing
unfolding close_order decimal_f64 round_price round_size size_decimals
closes = refl

partial_close_closes_example :
    let out = run_once fixed sha256 (hyperliquid_gateway tools unhelpful) clock "0xabc" confirmed in
    (out.0 ≡ ok true) × (status_of 7 out.1 ≡ some Execution.closed)
unfolding submit_shadow_intent confirm_intent_for_execution
partial_close_closes_example =
    partial_close_closes tools unhelpful sha256 clock "0xabc" confirmed waiting approved_row
      (usd 20) bought (definite "no trigger orders") closing part (pos 500000) (usd 99)
      (ready (hyperliquid_gateway tools unhelpful))
      (entered (refused "no trigger orders") waiting.entry_cloid) refl unprotected closes refl refl
      refl

-- The pass through the exchange that shows the stop.
helped :
    let out = run_once fixed sha256 (hyperliquid_gateway tools helpful) clock "0xabc" confirmed in
    (out.0 ≡ ok true) × (status_of 7 out.1 ≡ some Execution.protected)
unfolding submit_shadow_intent confirm_intent_for_execution
helped =
    protected_settles fixed sha256 (hyperliquid_gateway tools helpful) clock "0xabc" confirmed
      waiting approved_row (usd 20) bought (ready (hyperliquid_gateway tools helpful))
      (entered (accepted (some (resting 5 ∷ resting 6 ∷ resting 7 ∷ []))) waiting.entry_cloid) refl
      protects orders_recorded

protected_shown_example :
    (try oid : ℕ) × (found : OrderDetail) × (size : ℤ) × IsProtecting tools helpful order bought try
      oid found size
unfolding submit_shadow_intent confirm_intent_for_execution
protected_shown_example =
    protected_shown tools helpful sha256 clock "0xabc" confirmed waiting approved_row (usd 20)
      bought (ready (hyperliquid_gateway tools helpful))
      (entered (accepted (some (resting 5 ∷ resting 6 ∷ resting 7 ∷ []))) waiting.entry_cloid) refl
      helped.0 helped.1
