-- ===== src/Mainnet/Service.antt =====
-- src/mainnet_read.rs: the two tasks that `start_mainnet_read_service` spawns. They share the status
-- and the store, and each section under a lock is one step. What the exchange answers, the texts of
-- errors and the instants are arguments.
pub mod Tasks
pub mod Readiness
use hyperliquid_live_executo.Base.{ℕ, ◌-◌, Bool, true, List, [], String, Option, none, some, length}
use hyperliquid_live_executo.Base.Int.{pos, leb_ℤ}
use hyperliquid_live_executo.Base.Result.{Result, ok, err, panic}
use hyperliquid_live_executo.Base.Time.{
  Timestamp, seconds, signed_duration_since, timestamp_millis_from_zero,
}
use Prim.Native.String.{◌++◌ as append}
use hyperliquid_live_executo.Mainnet.{MainnetAccountSnapshot, MainnetHistoryBatch}
use hyperliquid_live_executo.Mainnet.Sdk.{TradeInfo, UserFunding, OrderUpdate}
use hyperliquid_live_executo.Mainnet.Parse.{
  Read, MainnetReadError, collect, ws_fill_record, ws_funding_record, ws_order_update_record, sdk,
  persistence,
}
use hyperliquid_live_executo.Mainnet.Status.{
  MainnetReadStatus, snapshot_persisted, snapshot_failed, history_persisted, history_failed,
  websocket_event,
}
use hyperliquid_live_executo.Store.State.{Store, StoreError}
use hyperliquid_live_executo.Store.Reconciliation.{ReconciliationState}
use hyperliquid_live_executo.Store.Snapshots.{Details, record_mainnet_snapshot}
use hyperliquid_live_executo.Store.History.{
  record_mainnet_history, record_mainnet_order_updates, mainnet_history_cursor,
}

-- What the service takes from elsewhere: the account, the decimals as texts, the texts of errors,
-- and the age beyond which an answer is stale.
pub record Service (D : Type 0) : Type 0 where
  pub account : String
  pub stale_after : ℕ
  pub parse : String → Option D
  pub to_string : D → String
  pub details : Details
  pub error_text : MainnetReadError D → String
  pub store_error_text : StoreError → String
  -- the text of a blocking task that has panicked
  pub join_error : String

pub data WsMessage : Type 0 where
  user_fills : List TradeInfo → WsMessage
  user_fundings : List UserFunding → WsMessage
  order_updates : List OrderUpdate → WsMessage
  hyperliquid_error : String → WsMessage
  other : WsMessage

-- `last_history_attempt.is_none_or(|last| … num_seconds() >= 60)`
unfoldable pub history_due : Option Timestamp → Timestamp → Bool
history_due none now = true
history_due (some last) now = leb_ℤ (pos (seconds 60)) (signed_duration_since now last)

abbrev pub Shared : Type 0 → Type 0
Shared D = MainnetReadStatus × Store D

module _ {D : Type 0} (service : Service D) where
  -- A call of the store in a blocking task.
  abbrev pub persisted : {A : Type 0} → Result StoreError A → Read D A
  persisted (ok a) = ok a
  persisted (err e) = err (persistence (service.store_error_text e))
  persisted panic = err (persistence service.join_error)

  abbrev pub snapshot_written :
      MainnetAccountSnapshot D → Read D ReconciliationState → MainnetReadStatus → MainnetReadStatus
  snapshot_written snapshot (ok state) status =
      snapshot_persisted snapshot.observed_at (length snapshot.positions)
        (length snapshot.open_orders) state status
  snapshot_written snapshot (err e) status = snapshot_failed (service.error_text e) status
  snapshot_written snapshot panic status = status

  -- The answer to a snapshot request, `none` where it timed out. A request that panics ends the task.
  unfoldable pub handle_snapshot : Option (Read D (MainnetAccountSnapshot D)) → Shared D → Shared D
  unfolding snapshot_persisted snapshot_failed
  handle_snapshot none (status, s) =
      (snapshot_failed "mainnet snapshot request timed out" status, s)
  handle_snapshot (some (err e)) (status, s) = (snapshot_failed (service.error_text e) status, s)
  handle_snapshot (some panic) (status, s) = (status, s)
  handle_snapshot (some (ok snapshot)) (status, s) =
      let (r, t) = record_mainnet_snapshot service.to_string service.details snapshot s in
      (snapshot_written snapshot (persisted r) status, t)

  -- The instant from which funding is asked for, in milliseconds.
  unfoldable pub history_start : Store D → Timestamp → ℕ
  history_start s now = elim (mainnet_history_cursor service.account s) [
    | none ↦ timestamp_millis_from_zero (now - seconds 604800) - 3600000
    | some time ↦ time - 3600000
  ]

  abbrev pub history_written : Timestamp → Read D (Unit {0}) → MainnetReadStatus → MainnetReadStatus
  history_written now (ok _) status = history_persisted now status
  history_written now (err e) status = history_failed (service.error_text e) status
  history_written now panic status = status

  -- The answer to a history request, `none` where it timed out.
  unfoldable pub handle_history :
      Timestamp → Timestamp → Option (Read D (MainnetHistoryBatch D)) → Shared D → Shared D
  unfolding history_persisted history_failed
  handle_history event_now now none (status, s) =
      (history_failed (service.error_text (sdk "history request timed out")) status, s)
  handle_history event_now now (some (err e)) (status, s) =
      (history_failed (service.error_text e) status, s)
  handle_history event_now now (some panic) (status, s) = (status, s)
  handle_history event_now now (some (ok batch)) (status, s) =
      let (r, t) =
        record_mainnet_history service.to_string service.account event_now batch.fills batch.funding
          s in
      (history_written now (persisted r) status, t)

  -- A write of the websocket task, if the message was read.
  abbrev written :
      {A : Type 0}
      → (A → Store D → Result StoreError (Unit {0}) × Store D)
      → Read D A
      → Store D
      → Read D (Unit {0}) × Store D
  written write (ok a) s = let (r, t) = write a s in (persisted r, t)
  written write (err e) s = (err e, s)
  written write panic s = (panic, s)

  abbrev store_message : Timestamp → WsMessage → Store D → Read D (Unit {0}) × Store D
  store_message now (user_fills fills) =
      written (λ r. record_mainnet_history service.to_string service.account now r [])
        (collect (ws_fill_record service.parse) fills)
  store_message now (user_fundings fundings) =
      written (λ r. record_mainnet_history service.to_string service.account now [] r)
        (collect (ws_funding_record service.parse) fundings)
  store_message now (order_updates updates) =
      written (λ r. record_mainnet_order_updates service.to_string service.account now r)
        (collect (ws_order_update_record service.parse) updates)
  store_message now (hyperliquid_error error) =
      λ s. (err (sdk (append "websocket error: " error)), s)
  store_message now other = λ s. (ok tt, s)

  -- A message of the subscriptions: whether the connection goes on.
  unfoldable pub handle_message :
      Timestamp → Timestamp → WsMessage → Shared D → Read D (Unit {0}) × Shared D
  unfolding websocket_event
  handle_message now event_now message (status, s) =
      let (r, t) = store_message event_now message s in (r, (websocket_event now status, t))

  -- The text of a connection that has ended.
  abbrev pub closed_text : Option (MainnetReadError D) → String
  closed_text none = "mainnet websocket channel closed"
  closed_text (some error) = service.error_text error
