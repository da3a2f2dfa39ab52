-- ===== src/Gateway/Requests/Closing.antt =====
-- src/live_gateway.rs and src/live_execution.rs: what an emergency close through the gateway rests on.
use hyperliquid_live_executo.Base.{
  ℕ, ◌≡◌, true, false, [], ◌∷◌, List, String, none, some, any, arith,
}
use hyperliquid_live_executo.Base.Result.{ok, err}
use hyperliquid_live_executo.Base.Time.{Timestamp}
use hyperliquid_live_executo.Domain.Intent.{TradeIntent}
use hyperliquid_live_executo.Gateway.Answers.{confirmed_fill}
use hyperliquid_live_executo.Gateway.Requests.{
  submit_entry, establish_protection, emergency_close, close_order,
}
use hyperliquid_live_executo.Gateway.Tools.{Tools}
use hyperliquid_live_executo.Gateway.Sdk.{
  Exchange, FilledOrder, ClientOrderRequest, accepted, filled,
}
use hyperliquid_live_executo.Live.Cloid
use hyperliquid_live_executo.Live.Cloid.{deterministic_cloid}
use hyperliquid_live_executo.Live.Execution
use hyperliquid_live_executo.Live.Execution.{ConfirmedFill, GatewayFailure, LiveExecution}
use hyperliquid_live_executo.Store.State.{Store, StoredIntent}
use hyperliquid_live_executo.Store.Orders.{entry_order, collides}
use hyperliquid_live_executo.Worker.{Gateway, run_once}
use hyperliquid_live_executo.Worker.Settles
use hyperliquid_live_executo.Worker.Settles.{status_of}
use hyperliquid_live_executo.Worker.Closes.{unprotected_settles}

module _ {D F : Type 0} (tools : Tools D F) (exchange : Exchange F) where
  -- `impl LiveExecutionGateway for HyperliquidGateway`
  abbrev pub hyperliquid_gateway : Gateway D
  hyperliquid_gateway = record {
    submit_entry = submit_entry tools exchange;
    establish_protection = establish_protection tools exchange;
    emergency_close = emergency_close tools exchange;
  }

  -- An emergency close of which one fill is reported, with a readable size and price, is taken as
  -- done, whatever that size is.
  close_any_size :
      (intent : TradeIntent D) (fill : ConfirmedFill D) (cloid : ℕ) (order : ClientOrderRequest F)
      (part : FilledOrder) (size price : D)
      → close_order tools exchange intent fill cloid ≡ ok order
      → exchange.order order ≡ ok (accepted (some (filled part ∷ [])))
      → tools.parse part.total_sz ≡ some size
      → tools.parse part.avg_px ≡ some price
      → emergency_close tools exchange intent fill cloid ≡ ok tt
  unfolding emergency_close confirmed_fill
  close_any_size intent fill cloid order part size price sent_order answer p q = ground arith

  -- If a pass can claim an execution, the gateway fills its entry, no stored order collides with
  -- that order, the protection fails, and the exchange answers the emergency close with one fill of
  -- a readable size and price, then the pass returns `true` and leaves the execution closed, also
  -- where that fill is smaller than the position that was opened.
  pub partial_close_closes :
      (sha256 : List ℕ → List ℕ) (clock : ℕ → Timestamp) (account : String) (s : Store D)
      (e : LiveExecution) (r : StoredIntent D) (notional : D) (fill : ConfirmedFill D)
      (failure : GatewayFailure) (order : ClientOrderRequest F) (part : FilledOrder)
      (size price : D)
      → Settles.Ready tools.ops sha256 hyperliquid_gateway clock account s e r notional
      → submit_entry tools exchange r.intent notional e.entry_cloid ≡ ok fill
      → any (collides (entry_order (clock 1) r.intent.intent_id e.entry_cloid fill)) s.orders
        ≡ false
      → establish_protection tools exchange r.intent fill ≡ err failure
      → close_order tools exchange r.intent fill
          (deterministic_cloid sha256 r.intent.intent_id Cloid.emergency_close)
        ≡ ok order
      → exchange.order order ≡ ok (accepted (some (filled part ∷ [])))
      → tools.parse part.total_sz ≡ some size
      → tools.parse part.avg_px ≡ some price
      → let out = run_once tools.ops sha256 hyperliquid_gateway clock account s in
        (out.0 ≡ ok true) × (status_of r.intent.intent_id out.1 ≡ some Execution.closed)
  partial_close_closes sha256 clock account s e r notional fill failure order part size price ready
        entry free unprotected built answer p q =
      unprotected_settles tools.ops sha256 hyperliquid_gateway clock account s e r notional fill
        failure none ready entry free unprotected
        (close_any_size r.intent fill
          (deterministic_cloid sha256 r.intent.intent_id Cloid.emergency_close) order part size
          price built answer p q)
