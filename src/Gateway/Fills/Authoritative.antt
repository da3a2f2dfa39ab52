-- ===== src/Gateway/Fills/Authoritative.antt =====
-- src/live_gateway.rs: what a fill that is reported for the entry rests on.
use hyperliquid_live_executo.Gateway.Fills.Total.{Own, of_order-Own, IsTotal, total_fill-IsTotal}
use hyperliquid_live_executo.Base.{
  ℕ, zero, suc, ◌+◌, ◌<◌, ◌≡◌, refl, List, String, Option, none, some, arith,
}
use hyperliquid_live_executo.Base.Result.{Result, ok, err, panic}
use hyperliquid_live_executo.Gateway.Tools.{Tools}
use hyperliquid_live_executo.Gateway.Fills.{
  of_order, total_fill, poll_fills, query_confirmed_fill, query_order_by_cloid_with_retry,
}
use hyperliquid_live_executo.Gateway.Sdk.{Exchange, Fill, OrderStatus}
use hyperliquid_live_executo.Live.Execution.{ConfirmedFill, GatewayFailure}

module _ {D F : Type 0} (tools : Tools D F) (exchange : Exchange F) where
  -- The fills that one of the first tries has read make the fill.
  pub record Polled (bound oid : ℕ) (fill : ConfirmedFill D) : Type 0 where
    pub try : ℕ
    pub below : try < bound
    pub fills : List Fill
    pub answered : exchange.user_fills try ≡ ok fills
    pub same : fill.exchange_oid ≡ oid
    pub own : List Fill
    pub of_it : Own oid fills own
    pub total : IsTotal tools own fill

  poll_fills-Polled :
      (tries try oid : ℕ) (fill : ConfirmedFill D)
      → poll_fills tools exchange tries try oid ≡ ok (some fill)
      → Polled (try + tries) oid fill
  unfolding poll_fills
  poll_fills-Polled zero try oid fill h = absurd (ground arith)
  poll_fills-Polled (suc tries) try oid fill h =
      answered (exchange.user_fills try) refl
        (λ p. weaken (poll_fills-Polled tries (try + 1) oid fill p))
    where
      weaken : Polled (try + 1 + tries) oid fill → Polled (try + suc tries) oid fill
      weaken s = record {
        try = s.try;
        below = omega (arith, s.below);
        fills = s.fills;
        answered = s.answered;
        same = s.same;
        own = s.own;
        of_it = s.of_it;
        total = s.total;
      }

      summed :
          (fills : List Fill) (r : Result GatewayFailure (Option (ConfirmedFill D)))
          → exchange.user_fills try ≡ ok fills
          → total_fill tools oid (of_order oid fills) ≡ r
          → (poll_fills tools exchange tries (try + 1) oid ≡ ok (some fill)
              → Polled (try + suc tries) oid fill)
          → Polled (try + suc tries) oid fill
      summed fills (err x) e f rest = absurd (ground arith)
      summed fills panic e f rest = absurd (ground arith)
      summed fills (ok none) e f rest = rest (ground arith)
      summed fills (ok (some found)) e f rest =
          let same : found ≡ fill = ground arith in
          let total =
            total_fill-IsTotal tools oid (of_order oid fills) fill (rw f (ground arith)) in
          record {
            try = try;
            below = omega arith;
            fills = fills;
            answered = e;
            same = total.0;
            own = of_order oid fills;
            of_it = of_order-Own oid fills;
            total = total.1;
          }

      answered :
          (r : Result String (List Fill))
          → exchange.user_fills try ≡ r
          → (poll_fills tools exchange tries (try + 1) oid ≡ ok (some fill)
              → Polled (try + suc tries) oid fill)
          → Polled (try + suc tries) oid fill
      answered (err x) e rest = absurd (ground arith)
      answered panic e rest = absurd (ground arith)
      answered (ok fills) e rest =
          summed fills (total_fill tools oid (of_order oid fills)) e refl rest

  -- One of the first tries has shown an order with the client id.
  pub record Named (bound cloid : ℕ) (response : OrderStatus) (oid : ℕ) : Type 0 where
    pub try : ℕ
    pub below : try < bound
    pub answered : exchange.order_status try cloid ≡ ok (some response)
    pub named : response.oid ≡ some oid

  retry-Named :
      (tries try cloid : ℕ) (response : OrderStatus) (oid : ℕ)
      → query_order_by_cloid_with_retry tools exchange tries try cloid ≡ ok (response, oid)
      → Named (try + tries) cloid response oid
  unfolding query_order_by_cloid_with_retry
  retry-Named zero try cloid response oid h = absurd (ground arith)
  retry-Named (suc tries) try cloid response oid h =
      answered (exchange.order_status try cloid) refl
        (λ p. weaken (retry-Named tries (try + 1) cloid response oid p))
    where
      weaken :
          Named (try + 1 + tries) cloid response oid → Named (try + suc tries) cloid response oid
      weaken s = record {
        try = s.try;
        below = omega (arith, s.below);
        answered = s.answered;
        named = s.named;
      }

      shown :
          (r : OrderStatus) (o : Option ℕ)
          → exchange.order_status try cloid ≡ ok (some r)
          → r.oid ≡ o
          → (query_order_by_cloid_with_retry tools exchange tries (try + 1) cloid
                ≡ ok (response, oid)
              → Named (try + suc tries) cloid response oid)
          → Named (try + suc tries) cloid response oid
      shown r none e f rest = rest (ground arith)
      shown r (some o) e f rest =
          let same : (r ≡ response) × (o ≡ oid) = ground arith in
          record { try = try; below = omega arith; answered = ground arith; named = ground arith }

      answered :
          (r : Result String (Option OrderStatus))
          → exchange.order_status try cloid ≡ r
          → (query_order_by_cloid_with_retry tools exchange tries (try + 1) cloid
                ≡ ok (response, oid)
              → Named (try + suc tries) cloid response oid)
          → Named (try + suc tries) cloid response oid
      answered (err x) e rest = absurd (ground arith)
      answered panic e rest = absurd (ground arith)
      answered (ok none) e rest = absurd (ground arith)
      answered (ok (some r)) e rest = shown r r.oid e refl rest

  -- What stands behind a fill of the order with the client id: an order status that names the
  -- order's id, and a list of fills of which those with this id make up the fill.
  pub record IsAuthoritative (cloid : ℕ) (fill : ConfirmedFill D) : Type 0 where
    pub status : OrderStatus
    pub oid : ℕ
    pub order : Named 5 cloid status oid
    pub fills : Polled 5 oid fill

  pub confirmed-IsAuthoritative :
      (cloid : ℕ) (fill : ConfirmedFill D)
      → query_confirmed_fill tools exchange cloid ≡ ok fill
      → IsAuthoritative cloid fill
  unfolding query_confirmed_fill
  confirmed-IsAuthoritative cloid fill h =
      found (query_order_by_cloid_with_retry tools exchange 5 0 cloid) refl
    where
      found :
          (r : Result GatewayFailure (OrderStatus × ℕ))
          → query_order_by_cloid_with_retry tools exchange 5 0 cloid ≡ r
          → IsAuthoritative cloid fill
      found (err x) e = absurd (ground arith)
      found panic e = absurd (ground arith)
      found (ok (status, oid)) e = record {
        status = status;
        oid = oid;
        order = retry-Named 5 0 cloid status oid e;
        fills = poll_fills-Polled 5 0 oid fill (ground arith);
      }
