-- ===== src/Api/Requests/Runs.antt =====
-- src/api.rs: the requests to the service are runs of the methods of the store.
use hyperliquid_live_executo.Base.{ℕ, Bool, true, false, String, Option, none, some}
use hyperliquid_live_executo.Base.Result.{Result, ok, err, panic}
use hyperliquid_live_executo.Base.Time.{Timestamp}
use hyperliquid_live_executo.Domain.Intent.{TradeIntent}
use hyperliquid_live_executo.Engine.{EngineError}
use hyperliquid_live_executo.Engine.Runs.{submit-Reachable, confirm-Reachable}
use hyperliquid_live_executo.Store.State.{Store, StoreError}
use hyperliquid_live_executo.Store.Reach
use hyperliquid_live_executo.Store.Reach.{Reachable}
use hyperliquid_live_executo.Api.Requests.{
  ApiState, Request, Handler, refuse_if, of_engine, of_store, handle, create, confirm, kill_switch,
  acknowledge, create_intent, confirm_intent, set_kill_switch, acknowledge_reconciliation,
  create_with, idempotency_key,
}

module _ {D : Type 0} (state : ApiState D) (clock : ℕ → Timestamp) where
  abbrev Goes : Store D → Type 0
  Goes t = Reachable state.ops state.sha256 t

  refuse-Goes :
      {A : Type 0} (refused : Bool) (message : String) (k : Handler D A) (s : Store D)
      → Goes s
      → Goes (k s).1
      → Goes (refuse_if refused message k s).1
  refuse-Goes true message k s r h = r
  refuse-Goes false message k s r h = h

  engine-Goes :
      {A B : Type 0} (f : A → B) (p : Result EngineError A × Store D)
      → Goes p.1
      → Goes (of_engine state.texts f p).1
  engine-Goes f (ok a, t) r = r
  engine-Goes f (err e, t) r = r
  engine-Goes f (panic, t) r = r

  store-Goes :
      {A B : Type 0} (f : A → B) (p : Result StoreError A × Store D)
      → Goes p.1
      → Goes (of_store state.texts f p).1
  store-Goes f (ok a, t) r = r
  store-Goes f (err e, t) r = r
  store-Goes f (panic, t) r = r

  create-Goes :
      (key : Option String) (intent : TradeIntent D) (s : Store D)
      → Goes s
      → Goes (create_with state clock key intent s).1
  create-Goes none intent s r = r
  create-Goes (some key) intent s r =
      let submitted =
        submit-Reachable state.ops state.sha256 state.digest_of state.view clock state.engine intent
          key s r in
      search (refuse-Goes, engine-Goes, r, submitted)

  -- Every request that writes leads from a store that the methods of the store reach to another one,
  -- whatever is answered.
  pub handle-Reachable :
      (request : Request D) (s : Store D)
      → Reachable state.ops state.sha256 s
      → Reachable state.ops state.sha256 (handle state clock request s).1
  unfolding handle create_intent confirm_intent set_kill_switch acknowledge_reconciliation
  handle-Reachable (create header intent) s r = create-Goes (idempotency_key header) intent s r
  handle-Reachable (confirm id digest by) s r =
      let confirmed =
        confirm-Reachable state.ops state.sha256 state.digest_of state.view clock state.engine id
          digest by s r in
      search (refuse-Goes, engine-Goes, r, confirmed)
  handle-Reachable (kill_switch enabled reason) s r =
      let switched = Reach.next r (Reach.switch (clock 0) enabled reason s) in
      search (refuse-Goes, store-Goes, r, switched)
  handle-Reachable (acknowledge account reason by) s r =
      let acknowledged = Reach.next r (Reach.acknowledge (clock 0) account reason by s) in
      search (refuse-Goes, store-Goes, r, acknowledged)
