-- ===== src/Gateway/Requests/Protected.antt =====
-- src/live_execution.rs and src/live_gateway.rs: what the exchange has shown when a pass of the worker
-- leaves an execution protected.
use hyperliquid_live_executo.Base.{ℕ, ◌≡◌, true, false, List, some, any, String}
use hyperliquid_live_executo.Base.Result.{ok}
use hyperliquid_live_executo.Base.Time.{Timestamp}
use hyperliquid_live_executo.Gateway.Requests.{submit_entry}
use hyperliquid_live_executo.Gateway.Requests.Closing.{hyperliquid_gateway}
use hyperliquid_live_executo.Gateway.Requests.Verified.{protection_verified}
use hyperliquid_live_executo.Gateway.Sdk.{Exchange, OrderDetail}
use hyperliquid_live_executo.Gateway.Stops.Shown.{IsProtecting}
use hyperliquid_live_executo.Gateway.Tools.{Tools}
use hyperliquid_live_executo.Live.Execution
use hyperliquid_live_executo.Live.Execution.{ConfirmedFill, LiveExecution}
use hyperliquid_live_executo.Store.State.{Store, StoredIntent}
use hyperliquid_live_executo.Store.Orders.{entry_order, collides}
use hyperliquid_live_executo.Worker.{run_once}
use hyperliquid_live_executo.Worker.Established.{protected-established}
use hyperliquid_live_executo.Worker.Settles
use hyperliquid_live_executo.Worker.Settles.{status_of}

module _ {D F : Type 0} (tools : Tools D F) (exchange : Exchange F) where
  -- If a pass of the worker can claim an execution, the gateway fills its entry, no stored order
  -- collides with that order, and the pass returns `true` and leaves the execution protected, then
  -- a try has shown an open stop order of the exchange that protects the whole fill.
  pub protected_shown :
      (sha256 : List ℕ → List ℕ) (clock : ℕ → Timestamp) (account : String) (s : Store D)
      (e : LiveExecution) (r : StoredIntent D) (notional : D) (fill : ConfirmedFill D)
      → Settles.Ready tools.ops sha256
          (hyperliquid_gateway tools exchange)
          clock
          account
          s
          e
          r
          notional
      → submit_entry tools exchange r.intent notional e.entry_cloid ≡ ok fill
      → any (collides (entry_order (clock 1) r.intent.intent_id e.entry_cloid fill)) s.orders
        ≡ false
      → (run_once tools.ops sha256 (hyperliquid_gateway tools exchange) clock account s).0 ≡ ok true
      → status_of r.intent.intent_id
          (run_once tools.ops sha256 (hyperliquid_gateway tools exchange) clock account s).1
        ≡ some Execution.protected
      → (try oid : ℕ) × (order : OrderDetail) × (size : D) × IsProtecting tools exchange r.intent
          fill try oid order size
  protected_shown sha256 clock account s e r notional fill ready entry free done status =
      protection_verified tools exchange r.intent fill (
        protected-established tools.ops sha256 (hyperliquid_gateway tools exchange) clock account s
          e r notional fill ready entry free done status)
