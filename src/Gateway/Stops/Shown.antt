-- ===== src/Gateway/Stops/Shown.antt =====
-- src/live_gateway.rs: what the exchange has shown when the protection is reported as established.
use hyperliquid_live_executo.Base.{
  ℕ, zero, suc, ◌+◌, ◌<◌, ◌≡◌, refl, Bool, true, false, List, [], ◌∷◌, String, Option, none, some,
  any, ◌==◌, arith, inl, inr, Bool-cases, eq_iff,
}
use hyperliquid_live_executo.Base.Result.{Result, ok, err, panic}
use hyperliquid_live_executo.Decimal
use hyperliquid_live_executo.Domain.Intent.{TradeIntent}
use hyperliquid_live_executo.Gateway.Tools.{Tools}
use hyperliquid_live_executo.Gateway.Stops.{
  find_stop, poll_stop, verify_protection, is_full_stop, has_cloid, cloid_hex, closing_side,
}
use hyperliquid_live_executo.Gateway.Sdk.{Exchange, OrderDetail}
use hyperliquid_live_executo.Live.Cloid.{deterministic_cloid, stop_loss}
use hyperliquid_live_executo.Live.Execution.{ConfirmedFill, GatewayFailure}

module _ {D F : Type 0} (tools : Tools D F) (exchange : Exchange F) (intent : TradeIntent D)
    (fill : ConfirmedFill D) where
  -- One of the listed orders is a stop that covers the fill.
  record Found (try : ℕ) (oids : List ℕ) : Type 0 where
    pub oid : ℕ
    pub order : OrderDetail
    pub size : D
    pub listed : any (λ o. o == oid) oids ≡ true
    pub answered : exchange.query_order_by_oid try oid ≡ ok (some order)
    pub read : tools.parse order.sz ≡ some size
    pub full : is_full_stop tools intent fill order size ≡ true

  later : (try o : ℕ) (oids : List ℕ) → Found try oids → Found try (o ∷ oids)
  later try o oids f = record {
    oid = f.oid;
    order = f.order;
    size = f.size;
    listed = ground arith;
    answered = f.answered;
    read = f.read;
    full = f.full;
  }

  find_stop-Found :
      (try : ℕ) (oids : List ℕ)
      → find_stop tools exchange intent fill try oids ≡ ok true
      → Found try oids
  unfolding find_stop
  find_stop-Found try [] h = cc
  find_stop-Found try (o ∷ oids) h =
      detail (exchange.query_order_by_oid try o) refl (find_stop-Found try oids)
    where
      sized :
          (order : OrderDetail)
          → exchange.query_order_by_oid try o ≡ ok (some order)
          → (read : Option D) → tools.parse order.sz ≡ read
          → (find_stop tools exchange intent fill try oids ≡ ok true → Found try oids)
          → Found try (o ∷ oids)
      sized order e none p rest = cc (rw (e, p) at h)
      sized order e (some size) p rest =
          elim (Bool-cases (is_full_stop tools intent fill order size)) [
            | inl yes_full ↦ (record {
              oid = o;
              order = order;
              size = size;
              listed = ground arith;
              answered = e;
              read = p;
              full = yes_full;
            })
            | inr not_full ↦ later try o oids (rest (ground arith))
          ]

      detail :
          (r : Result String (Option OrderDetail))
          → exchange.query_order_by_oid try o ≡ r
          → (find_stop tools exchange intent fill try oids ≡ ok true → Found try oids)
          → Found try (o ∷ oids)
      detail (err x) e rest = cc (rw e at h)
      detail panic e rest = cc (rw e at h)
      detail (ok none) e rest = later try o oids (rest (rw e at h))
      detail (ok (some order)) e rest = sized order e (tools.parse order.sz) refl rest

  -- A try below the bound has shown such a stop.
  record Shown (bound : ℕ) : Type 0 where
    pub try : ℕ
    pub below : try < bound
    pub oids : List ℕ
    pub open_orders : exchange.open_orders try ≡ ok oids
    pub found : Found try oids

  poll_stop-Shown :
      (tries try : ℕ) → poll_stop tools exchange intent fill tries try ≡ ok tt → Shown (try + tries)
  unfolding poll_stop
  poll_stop-Shown zero try h = cc
  poll_stop-Shown (suc tries) try h =
      listed (exchange.open_orders try) refl (λ p. weaken (poll_stop-Shown tries (try + 1) p))
    where
      weaken : Shown (try + 1 + tries) → Shown (try + suc tries)
      weaken s = record {
        try = s.try;
        below = omega (arith, s.below);
        oids = s.oids;
        open_orders = s.open_orders;
        found = s.found;
      }

      searched :
          (oids : List ℕ) (r : Result GatewayFailure Bool)
          → exchange.open_orders try ≡ ok oids
          → find_stop tools exchange intent fill try oids ≡ r
          → (poll_stop tools exchange intent fill tries (try + 1) ≡ ok tt → Shown (try + suc tries))
          → Shown (try + suc tries)
      searched oids (err x) e f rest = cc (rw (e, f) at h)
      searched oids panic e f rest = cc (rw (e, f) at h)
      searched oids (ok false) e f rest = rest (rw (e, f) at h)
      searched oids (ok true) e f rest = record {
        try = try;
        below = omega arith;
        oids = oids;
        open_orders = e;
        found = find_stop-Found try oids f;
      }

      listed :
          (r : Result String (List ℕ))
          → exchange.open_orders try ≡ r
          → (poll_stop tools exchange intent fill tries (try + 1) ≡ ok tt → Shown (try + suc tries))
          → Shown (try + suc tries)
      listed (err x) e rest = cc (rw e at h)
      listed panic e rest = cc (rw e at h)
      listed (ok oids) e rest =
          searched oids (find_stop tools exchange intent fill try oids) e refl rest

  -- The stop that the exchange shows: an open order with the client id of the intent's stop loss, on
  -- the intent's symbol and the closing side, a trigger that only reduces, no smaller than the fill.
  pub record IsProtecting (try oid : ℕ) (order : OrderDetail) (size : D) : Type 0 where
    pub in_time : try < 5
    pub listed :
        (oids : List ℕ) × (exchange.open_orders try ≡ ok oids) × (any (λ o. o == oid) oids ≡ true)
    pub answered : exchange.query_order_by_oid try oid ≡ ok (some order)
    pub own :
        has_cloid
          (cloid_hex (deterministic_cloid tools.sha256 intent.intent_id stop_loss))
          order.cloid
        ≡ true
    pub symbol : order.coin ≡ intent.symbol
    pub reduces : order.reduce_only ≡ true
    pub triggers : order.is_trigger ≡ true
    pub side : order.side ≡ closing_side intent.side
    pub read : tools.parse order.sz ≡ some size
    pub covers : Decimal.ge tools.ops size fill.size ≡ true

  protecting : (s : Shown 5) → IsProtecting s.try s.found.oid s.found.order s.found.size
  protecting s =
      let full = s.found.full in
      let order = s.found.order in
      record {
        in_time = s.below;
        listed = (s.oids, s.open_orders, s.found.listed);
        answered = s.found.answered;
        own = ground arith;
        symbol = ground (arith, eq_iff order.coin intent.symbol);
        reduces = ground arith;
        triggers = ground arith;
        side = ground (arith, eq_iff order.side (closing_side intent.side));
        read = s.found.read;
        covers = ground arith;
      }

  pub verified-IsProtecting :
      verify_protection tools exchange intent fill ≡ ok tt
      → (try oid : ℕ) × (order : OrderDetail) × (size : D) × IsProtecting try oid order size
  unfolding verify_protection
  verified-IsProtecting h =
      let s = poll_stop-Shown 5 0 h in
      (s.try, s.found.oid, s.found.order, s.found.size, protecting s)
