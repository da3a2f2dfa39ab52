-- ===== src/Gateway/Stops.antt =====
-- src/live_gateway.rs: the polling for the stop of a position: `verify_protection` and `cloid_hex`.
pub mod Shown
use hyperliquid_live_executo.Base.{
  ℕ, zero, suc, ◌+◌, ◌/◌, ◌%◌, ◌^◌, Bool, true, false, ◌&&◌, List, [], ◌∷◌, ◌++◌, String, Option,
  none, some, str_eq, ltb, codes, if◌then◌else◌,
}
use hyperliquid_live_executo.Base.Text.{same_bytes}
use hyperliquid_live_executo.Base.Result.{ok, err, ◌>>=◌, ◌>>◌}
use hyperliquid_live_executo.Decimal
use hyperliquid_live_executo.Domain.Intent.{TradeIntent, Side, long, short}
use hyperliquid_live_executo.Gateway.Answers.{Call, sent, or_failure}
use hyperliquid_live_executo.Gateway.Sdk.{Exchange, OrderDetail}
use hyperliquid_live_executo.Live.Cloid.{deterministic_cloid, stop_loss}
use hyperliquid_live_executo.Live.Execution.{ConfirmedFill, definite, outcome_unknown}
use hyperliquid_live_executo.Gateway.Tools.{Tools}

-- The lower-case hexadecimal digits of a number, the high one first.
abbrev hex_digits : ℕ → ℕ → List ℕ
hex_digits zero n = []
hex_digits (suc k) n =
    let digit : ℕ = n / 16 ^ k % 16 in
    (if ltb digit 10 then b'0' + digit else 87 + digit) ∷ hex_digits k n

-- `format!("0x{}", cloid.simple())`, as its code points.
unfoldable pub cloid_hex : ℕ → List ℕ
cloid_hex cloid = codes "0x" ++ hex_digits 32 cloid

abbrev pub has_cloid : List ℕ → Option String → Bool
has_cloid expected none = false
has_cloid expected (some cloid) = same_bytes (codes cloid) expected

-- The side of an order that closes the position.
abbrev pub closing_side : Side → String
closing_side long = "A"
closing_side short = "B"

module _ {D F : Type 0} (tools : Tools D F) where
  -- A stop order that covers the fill.
  abbrev pub is_full_stop : TradeIntent D → ConfirmedFill D → OrderDetail → D → Bool
  is_full_stop intent fill order size =
      has_cloid (cloid_hex (deterministic_cloid tools.sha256 intent.intent_id stop_loss))
        order.cloid
      && str_eq order.coin intent.symbol
      && order.reduce_only
      && order.is_trigger
      && str_eq order.side (closing_side intent.side)
      && Decimal.ge tools.ops size fill.size

module _ {D F : Type 0} (tools : Tools D F) (exchange : Exchange F) where
  -- The loop over the open orders of one try: whether one of them is such a stop.
  unfoldable pub find_stop : TradeIntent D → ConfirmedFill D → ℕ → List ℕ → Call Bool
  find_stop intent fill try [] = ok false
  find_stop intent fill try (oid ∷ oids) =
      let rest = find_stop intent fill try oids in
      do
        detail ← sent (exchange.query_order_by_oid try oid)
        elim detail [
          | none ↦ rest
          | some order ↦ (do
            size ← or_failure (outcome_unknown "invalid protection size") (tools.parse order.sz)
            elim (is_full_stop tools intent fill order size) [ true ↦ ok true | false ↦ rest ])
        ]

  unfoldable pub poll_stop : TradeIntent D → ConfirmedFill D → ℕ → ℕ → Call (Unit {0})
  poll_stop intent fill zero try =
      err (definite "authoritative open orders do not provide full stop-loss coverage")
  poll_stop intent fill (suc tries) try =
      let rest = poll_stop intent fill tries (try + 1) in
      do
        oids ← sent (exchange.open_orders try)
        found ← find_stop intent fill try oids
        elim found [ true ↦ ok tt | false ↦ rest ]

  unfoldable pub verify_protection : TradeIntent D → ConfirmedFill D → Call (Unit {0})
  verify_protection intent fill = poll_stop intent fill 5 0
