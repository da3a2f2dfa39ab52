-- ===== src/Program.antt =====
-- src/main.rs: the program as a whole, by what its parts do to the store: the requests of the API, the
-- passes of the worker, and the records and the start of the read service, in any order. Each is one
-- turn; a part that is interleaved with another one within a turn is not modelled.
use hyperliquid_live_executo.Base.{ℕ, List, String}
use hyperliquid_live_executo.Base.Time.{Timestamp}
use hyperliquid_live_executo.Api.Requests.{ApiState, Request, handle}
use hyperliquid_live_executo.Api.Requests.Runs.{handle-Reachable}
use hyperliquid_live_executo.Mainnet.{
  MainnetAccountSnapshot, MainnetFillRecord, MainnetFundingRecord, MainnetOrderUpdateRecord,
}
use hyperliquid_live_executo.Store.Consistency.{IsConsistent}
use hyperliquid_live_executo.Store.History.{record_mainnet_history, record_mainnet_order_updates}
use hyperliquid_live_executo.Store.Reach
use hyperliquid_live_executo.Store.Reach.{Reachable, empty, Reachable-IsConsistent}
use hyperliquid_live_executo.Store.Snapshots.{
  Details, record_mainnet_snapshot, configure_mainnet_account,
}
use hyperliquid_live_executo.Store.State.{Store}
use hyperliquid_live_executo.Worker.{Gateway, run_once}
use hyperliquid_live_executo.Worker.Runs.{run_once-Reachable}

module _ {D : Type 0} (state : ApiState D) where
  -- A turn of one part, whatever it returns, the clock shows and the exchange answers.
  pub data Turn : Store D → Store D → Type 0 where
    request :
        (clock : ℕ → Timestamp) (r : Request D) (s : Store D) → Turn s (handle state clock r s).1
    pass :
        (gateway : Gateway D) (clock : ℕ → Timestamp) (account : String) (s : Store D)
        → Turn s (run_once state.ops state.sha256 gateway clock account s).1
    snapshot :
        (to_string : D → String) (details : Details) (x : MainnetAccountSnapshot D) (s : Store D)
        → Turn s (record_mainnet_snapshot to_string details x s).1
    history :
        (to_string : D → String) (account : String) (now : Timestamp)
        (fills : List (MainnetFillRecord D)) (funding : List (MainnetFundingRecord D)) (s : Store D)
        → Turn s (record_mainnet_history to_string account now fills funding s).1
    order_updates :
        (to_string : D → String) (account : String) (now : Timestamp)
        (updates : List (MainnetOrderUpdateRecord D)) (s : Store D)
        → Turn s (record_mainnet_order_updates to_string account now updates s).1
    configure : (account : String) (s : Store D) → Turn s (configure_mainnet_account account s).1

  -- The stores that the program leads to from an empty database.
  pub data Runs : Store D → Type 0 where
    start : (now : Timestamp) → Runs (empty now)
    next : {s t : Store D} → Runs s → Turn s t → Runs t

  turn-Reachable :
      {s t : Store D}
      → Turn s t
      → Reachable state.ops state.sha256 s
      → Reachable state.ops state.sha256 t
  turn-Reachable (request clock q s) r = handle-Reachable state clock q s r
  turn-Reachable (pass gateway clock account s) r =
      run_once-Reachable state.ops state.sha256 gateway clock account s r
  turn-Reachable (snapshot to_string details x s) r =
      Reach.next r (Reach.snapshot to_string details x s)
  turn-Reachable (history to_string account now fills funding s) r =
      Reach.next r (Reach.history to_string account now fills funding s)
  turn-Reachable (order_updates to_string account now updates s) r =
      Reach.next r (Reach.order_updates to_string account now updates s)
  turn-Reachable (configure account s) r = Reach.next r (Reach.configure account s)

  Runs-Reachable : {s : Store D} → Runs s → Reachable state.ops state.sha256 s
  Runs-Reachable (start now) = Reach.start now
  Runs-Reachable (next runs turn) = turn-Reachable turn (Runs-Reachable runs)

  -- Whatever requests are sent, however the exchange answers the worker and the read service, and in
  -- whatever order their turns come, in every store that the program leads to from the empty one no
  -- id stands twice in a table, and an intent and its execution have statuses that go together, the
  -- execution tried at most once.
  pub program-IsConsistent : {s : Store D} → Runs s → IsConsistent s
  program-IsConsistent runs = Reachable-IsConsistent state.ops state.sha256 (Runs-Reachable runs)
