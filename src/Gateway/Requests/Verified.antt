-- ===== src/Gateway/Requests/Verified.antt =====
-- src/live_gateway.rs: what the exchange has shown when a request of the gateway succeeds.
use hyperliquid_live_executo.Base.{ℕ, ◌≡◌, ◌≢◌, ◌⊎◌, true, String, Option, none, some, arith}
use hyperliquid_live_executo.Base.Result.{ok}
use hyperliquid_live_executo.Domain.Intent.{TradeIntent}
use hyperliquid_live_executo.Gateway.Requests.{establish_protection}
use hyperliquid_live_executo.Gateway.Sdk.{Exchange, OrderDetail}
use hyperliquid_live_executo.Gateway.Stops.{verify_protection}
use hyperliquid_live_executo.Gateway.Stops.Shown.{IsProtecting, verified-IsProtecting}
use hyperliquid_live_executo.Gateway.Tools.{Tools}
use hyperliquid_live_executo.Live.Execution.{ConfirmedFill}

module _ {D F : Type 0} (tools : Tools D F) where
  abbrev HasNoSize : Option D → Type 0
  HasNoSize none = Unit
  HasNoSize (some size) = tools.ops.is_zero size ≡ true

  -- A position, as the exchange lists it, that is not in the symbol or has no size: its size is
  -- zero or cannot be read.
  abbrev pub IsElsewhere : String → String × String → Type 0
  IsElsewhere symbol position = (position.0 ≢ symbol) ⊎ HasNoSize (tools.parse position.1)

module _ {D F : Type 0} (tools : Tools D F) (exchange : Exchange F) where
  established :
      (intent : TradeIntent D) (fill : ConfirmedFill D)
      → establish_protection tools exchange intent fill ≡ ok tt
      → verify_protection tools exchange intent fill ≡ ok tt
  unfolding establish_protection
  established intent fill h = ground arith

  -- If the protection is established, then a try has shown an open stop order of the exchange that
  -- protects the whole fill.
  pub protection_verified :
      (intent : TradeIntent D) (fill : ConfirmedFill D)
      → establish_protection tools exchange intent fill ≡ ok tt
      → (try oid : ℕ) × (order : OrderDetail) × (size : D) × IsProtecting tools exchange intent fill
          try oid order size
  protection_verified intent fill h =
      verified-IsProtecting tools exchange intent fill (established intent fill h)
