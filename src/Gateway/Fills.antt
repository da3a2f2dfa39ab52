-- ===== src/Gateway/Fills.antt =====
-- src/live_gateway.rs: the polling for the fill of an order: `query_order_by_cloid_with_retry` and
-- `query_confirmed_fill`. The pause between two tries is not modelled.
pub mod Total
pub mod Authoritative
use hyperliquid_live_executo.Base.{
  ℕ, zero, suc, ◌+◌, Bool, true, false, ◌||◌, List, [], ◌∷◌, String, Option, none, some, ◌==◌,
  str_eq, select, if◌then◌else◌,
}
use hyperliquid_live_executo.Base.Result.{ok, err, or_panic, ◌>>=◌, ◌>>◌}
use hyperliquid_live_executo.Gateway.Answers.{Call, sent, or_failure}
use hyperliquid_live_executo.Gateway.Sdk.{Exchange, OrderStatus, Fill}
use hyperliquid_live_executo.Live.Execution.{
  ConfirmedFill, GatewayFailure, definite, outcome_unknown,
}
use Prim.Native.String.{◌++◌ as append}
use hyperliquid_live_executo.Gateway.Tools.{Tools}

abbrev is_final_status : String → Bool
is_final_status status =
    str_eq status "canceled" || str_eq status "rejected" || str_eq status "marginCanceled"

abbrev pub of_order : ℕ → List Fill → List Fill
of_order oid = select λ (fill : Fill). fill.oid == oid

abbrev no_fill : String → GatewayFailure
no_fill status =
    if is_final_status status
    then definite (append "IOC ended with no fill: " status)
    else outcome_unknown "authoritative fills did not expose the IOC result"

module _ {D F : Type 0} (tools : Tools D F) where
  -- The size and the quote of the fills, added to those before.
  unfoldable pub sum_fills : D → D → List Fill → Call (D × D)
  sum_fills size quote [] = ok (size, quote)
  sum_fills size quote (fill ∷ fills) = do
    fill_size ← or_failure (outcome_unknown "invalid authoritative fill size") (tools.parse fill.sz)
    price ← or_failure (outcome_unknown "invalid authoritative fill price") (tools.parse fill.px)
    next_size ← or_panic (tools.ops.add size fill_size)
    amount ← or_panic (tools.ops.mul fill_size price)
    next_quote ← or_panic (tools.ops.add quote amount)
    sum_fills next_size next_quote fills

  -- The fill that the matching fills make, if they have a size.
  abbrev total_fill : ℕ → List Fill → Call (Option (ConfirmedFill D))
  total_fill oid [] = ok none
  total_fill oid (fill ∷ fills) = do
    sums ← sum_fills tools.ops.zero tools.ops.zero (fill ∷ fills)
    elim (tools.ops.is_zero sums.0) [
      | true ↦ ok none
      | false ↦ (do
        average ← or_panic (tools.ops.div sums.1 sums.0)
        ok (some (record { exchange_oid = oid; size = sums.0; average_price = average })))
    ]

module _ {D F : Type 0} (tools : Tools D F) (exchange : Exchange F) where
  -- The next `tries` tries, of which the first has this number.
  unfoldable pub query_order_by_cloid_with_retry : ℕ → ℕ → ℕ → Call (OrderStatus × ℕ)
  query_order_by_cloid_with_retry zero try cloid =
      err (outcome_unknown "order was not found by cloid")
  query_order_by_cloid_with_retry (suc tries) try cloid =
      let rest = query_order_by_cloid_with_retry tries (try + 1) cloid in
      do
        answer ← sent (exchange.order_status try cloid)
        response ← or_failure (outcome_unknown "invalid orderStatus response") answer
        elim response.oid [ none ↦ rest | some oid ↦ ok (response, oid) ]

  unfoldable pub poll_fills : ℕ → ℕ → ℕ → Call (Option (ConfirmedFill D))
  poll_fills zero try oid = ok none
  poll_fills (suc tries) try oid =
      let rest = poll_fills tries (try + 1) oid in
      do
        fills ← sent (exchange.user_fills try)
        found ← total_fill tools oid (of_order oid fills)
        elim found [ none ↦ rest | some fill ↦ ok (some fill) ]

  unfoldable pub query_confirmed_fill : ℕ → Call (ConfirmedFill D)
  query_confirmed_fill cloid = do
    found ← query_order_by_cloid_with_retry 5 0 cloid
    filled ← poll_fills 5 0 found.1
    or_failure (no_fill found.0.status) filled
