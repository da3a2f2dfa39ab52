-- ===== src/Mainnet/Service/Readiness.antt =====
-- src/mainnet_read.rs: what the status says whenever it reports that the service is ready, however
-- the sections of the two tasks interleave.
use hyperliquid_live_executo.Base.{ℕ, ◌≡◌, refl, true, String, Option, none, some, is_some, arith}
use hyperliquid_live_executo.Base.Result.{Result, ok, err, panic}
use hyperliquid_live_executo.Base.Time.{Timestamp}
use hyperliquid_live_executo.Mainnet.{MainnetAccountSnapshot, MainnetHistoryBatch}
use hyperliquid_live_executo.Mainnet.Parse.{Read}
use hyperliquid_live_executo.Mainnet.Status.{
  MainnetReadStatus, starting, snapshot_persisted, snapshot_failed, history_persisted,
  history_failed, judge, websocket_opened, websocket_event, websocket_closed,
}
use hyperliquid_live_executo.Mainnet.Service.{
  Service, persisted, handle_snapshot, handle_history, handle_message, closed_text,
  snapshot_written, history_written,
}
use hyperliquid_live_executo.Mainnet.Service.Tasks.{
  Poll, fetching, stored, checked, stopped, Tasks, Step, Runs, start_mainnet_read_service,
  poll_snapshot, poll_history, poll_judge, socket_message, socket_closed,
}
use hyperliquid_live_executo.Store.State.{Store, StoreError}
use hyperliquid_live_executo.Store.Snapshots.{record_mainnet_snapshot}
use hyperliquid_live_executo.Store.Snapshots.Sticky.{ready_only_clean}
use hyperliquid_live_executo.Store.Reconciliation.{ReconciliationState, is_normal}

-- Nothing has failed since the last good snapshot.
abbrev NoFailure : MainnetReadStatus → Type 0
NoFailure x = (x.consecutive_failures ≡ 0) × (x.last_error ≡ none)

-- What holds of the status between two sections.
pub record IsSound (x : MainnetReadStatus) (poll : Poll) : Type 0 where
  pub live : x.ready ≡ true → x.websocket_ready ≡ true
  pub heard : x.ready ≡ true → is_some x.last_websocket_event_at ≡ true
  pub history : x.ready ≡ true → x.history_ready ≡ true
  pub seen : x.ready ≡ true → is_some x.last_success_at ≡ true
  pub clean : x.ready ≡ true → NoFailure x
  pub mode : x.reconciliation_ready ≡ true → is_normal x.execution_mode ≡ true
  pub after_snapshot : poll ≡ stored → x.reconciliation_ready ≡ true → NoFailure x
  pub after_history :
      poll ≡ checked → x.reconciliation_ready ≡ true → x.history_ready ≡ true → NoFailure x
  pub judged : poll ≡ fetching → x.ready ≡ true → x.reconciliation_ready ≡ true

starting-IsSound : (account : String) → IsSound (starting account) fetching
starting-IsSound account = ground arith

persisted-IsSound :
    (x : MainnetReadStatus) (at : Timestamp) (m n : ℕ) (state : ReconciliationState)
    → (state.row.ready ≡ true → is_normal state.row.mode ≡ true)
    → IsSound x fetching
    → IsSound (snapshot_persisted at m n state x) stored
unfolding snapshot_persisted
persisted-IsSound x at m n state normal h = ground arith

failed-IsSound :
    (x : MainnetReadStatus) (error : String) (poll : Poll)
    → IsSound x poll
    → IsSound (snapshot_failed error x) stored
unfolding snapshot_failed
failed-IsSound x error poll h = ground arith

history-IsSound :
    (x : MainnetReadStatus) (now : Timestamp)
    → IsSound x stored
    → IsSound (history_persisted now x) checked
unfolding history_persisted
history-IsSound x now h = ground arith

history_failed-IsSound :
    (x : MainnetReadStatus) (error : String) (poll : Poll)
    → IsSound x poll
    → IsSound (history_failed error x) checked
unfolding history_failed
history_failed-IsSound x error poll h = ground arith

-- The history was not due.
skipped-IsSound : (x : MainnetReadStatus) → IsSound x stored → IsSound x checked
skipped-IsSound x h = ground arith

stopped-IsSound : (x : MainnetReadStatus) (poll : Poll) → IsSound x poll → IsSound x stopped
stopped-IsSound x poll h = ground arith

judge-IsSound :
    (x : MainnetReadStatus) (stale : ℕ) (now later : Timestamp)
    → IsSound x checked
    → IsSound (judge stale now later x) fetching
unfolding judge
judge-IsSound x stale now later h = ground arith

opened-IsSound :
    (x : MainnetReadStatus) (poll : Poll) → IsSound x poll → IsSound (websocket_opened x) poll
unfolding websocket_opened
opened-IsSound x poll h = ground arith

event-IsSound :
    (x : MainnetReadStatus) (now : Timestamp) (poll : Poll)
    → IsSound x poll
    → IsSound (websocket_event now x) poll
unfolding websocket_event
event-IsSound x now poll h = ground arith

closed-IsSound :
    (x : MainnetReadStatus) (error : String) (poll : Poll)
    → IsSound x poll
    → IsSound (websocket_closed error x) poll
unfolding websocket_closed
closed-IsSound x error poll h = ground arith

module _ {D : Type 0} (service : Service D) where
  -- A recorded snapshot that is ready is so in normal mode.
  snapshot_mode :
      (snapshot : MainnetAccountSnapshot D) (s : Store D) (state : ReconciliationState)
      → (record_mainnet_snapshot service.to_string service.details snapshot s).0 ≡ ok state
      → state.row.ready ≡ true
      → is_normal state.row.mode ≡ true
  snapshot_mode snapshot s state h ready =
      (ready_only_clean service.to_string service.details snapshot s
        (record_mainnet_snapshot service.to_string service.details snapshot s).1 state
        (ground arith) ready).1

  written-IsSound :
      (x : MainnetReadStatus) (snapshot : MainnetAccountSnapshot D) (s : Store D)
      (r : Result StoreError ReconciliationState)
      → (record_mainnet_snapshot service.to_string service.details snapshot s).0 ≡ r
      → IsSound x fetching
      → IsSound (snapshot_written service snapshot (persisted service r) x) stored
  written-IsSound x snapshot s (ok state) e h =
      persisted-IsSound x _ _ _ state (snapshot_mode snapshot s state e) h
  written-IsSound x snapshot s (err error) e h = failed-IsSound x _ fetching h
  written-IsSound x snapshot s panic e h = failed-IsSound x _ fetching h

  poll_snapshot-IsSound :
      (answer : Option (Read D (MainnetAccountSnapshot D))) (s : Tasks D)
      → IsSound s.status fetching
      → IsSound (poll_snapshot service answer s).status (poll_snapshot service answer s).poll
  unfolding poll_snapshot handle_snapshot
  poll_snapshot-IsSound none s h = failed-IsSound s.status _ fetching h
  poll_snapshot-IsSound (some (err e)) s h = failed-IsSound s.status _ fetching h
  poll_snapshot-IsSound (some panic) s h = stopped-IsSound s.status fetching h
  poll_snapshot-IsSound (some (ok snapshot)) s h =
      written-IsSound s.status snapshot s.store _ refl h

  history_written-IsSound :
      (x : MainnetReadStatus) (now : Timestamp) (r : Result StoreError (Unit {0}))
      → IsSound x stored
      → IsSound (history_written service now (persisted service r) x) checked
  history_written-IsSound x now (ok _) h = history-IsSound x now h
  history_written-IsSound x now (err e) h = history_failed-IsSound x _ stored h
  history_written-IsSound x now panic h = history_failed-IsSound x _ stored h

  poll_history-IsSound :
      (attempt event_now now : Timestamp) (answer : Option (Read D (MainnetHistoryBatch D)))
      (s : Tasks D)
      → IsSound s.status stored
      → IsSound
          (poll_history service attempt event_now now answer s).status
          (poll_history service attempt event_now now answer s).poll
  unfolding poll_history handle_history
  poll_history-IsSound attempt event_now now none s h = history_failed-IsSound s.status _ stored h
  poll_history-IsSound attempt event_now now (some (err e)) s h =
      history_failed-IsSound s.status _ stored h
  poll_history-IsSound attempt event_now now (some panic) s h = stopped-IsSound s.status stored h
  poll_history-IsSound attempt event_now now (some (ok batch)) s h =
      history_written-IsSound s.status now _ h

  step-IsSound :
      {s t : Tasks D} → Step service s t → IsSound s.status s.poll → IsSound t.status t.poll
  unfolding poll_judge socket_message socket_closed handle_message
  step-IsSound (Step.snapshot answer s p) h = poll_snapshot-IsSound answer s (rw p at h)
  step-IsSound (Step.history asked attempt event_now now answer s p due) h =
      poll_history-IsSound attempt event_now now answer s (rw p at h)
  step-IsSound (Step.no_history now s p due) h = skipped-IsSound s.status (rw p at h)
  step-IsSound (Step.judged now later s p) h =
      judge-IsSound s.status service.stale_after now later (rw p at h)
  step-IsSound (Step.opened s p) h = opened-IsSound s.status s.poll h
  step-IsSound (Step.not_opened e s p) h = h
  step-IsSound (Step.message now event_now m s p) h = event-IsSound s.status now s.poll h
  step-IsSound (Step.lost e s p) h = h
  step-IsSound (Step.closed e s p) h = closed-IsSound s.status (closed_text service e) s.poll h
  step-IsSound (Step.elsewhere t s) h = h

  -- In every state that the two tasks of the service pass through, however their sections and the
  -- other users of the store interleave: a status that is ready rests on a live websocket that has
  -- sent an event, on a history that has been read, and on a snapshot since which nothing has
  -- failed; a ready reconciliation is in normal mode; and between two passes, a ready status rests
  -- on a ready reconciliation.
  pub Runs-IsSound :
      {initial : Store D} {s : Tasks D} → Runs service initial s → IsSound s.status s.poll
  unfolding start_mainnet_read_service
  Runs-IsSound Runs.start = starting-IsSound service.account
  Runs-IsSound (Runs.next r step) = step-IsSound step (Runs-IsSound r)
