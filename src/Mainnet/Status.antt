-- ===== src/Mainnet/Status.antt =====
-- src/mainnet_read.rs: `MainnetReadStatus`, and what the tasks of the service write in it, each
-- under one write lock. An instant is an argument.
use hyperliquid_live_executo.Base.{
  ℕ, ◌+◌, ◌-◌, ◌^◌, Bool, true, false, ◌&&◌, String, Option, none, some, leb, if◌then◌else◌,
}
use hyperliquid_live_executo.Base.Time.{Timestamp}
use hyperliquid_live_executo.Store.State.{ExecutionMode, halt_new_entries}
use hyperliquid_live_executo.Store.Reconciliation.{ReconciliationState}

pub record MainnetReadStatus : Type 0 where
  pub configured : Bool
  pub account_address : Option String
  pub ready : Bool
  pub last_success_at : Option Timestamp
  pub last_error : Option String
  pub consecutive_failures : ℕ
  pub history_ready : Bool
  pub last_history_success_at : Option Timestamp
  pub reconciliation_ready : Bool
  pub execution_mode : ExecutionMode
  pub reconciliation_reason_code : Option String
  pub reconciliation_detail : Option String
  pub reconciliation_clean_streak : ℕ
  pub reconciliation_recovery_eligible : Bool
  pub websocket_ready : Bool
  pub last_websocket_event_at : Option Timestamp
  pub last_websocket_error : Option String
  pub position_count : ℕ
  pub open_order_count : ℕ

abbrev pub unconfigured : MainnetReadStatus
unconfigured = record {
  configured = false;
  account_address = none;
  ready = false;
  last_success_at = none;
  last_error = none;
  consecutive_failures = 0;
  history_ready = false;
  last_history_success_at = none;
  reconciliation_ready = false;
  execution_mode = halt_new_entries;
  reconciliation_reason_code = some "mainnet_not_configured";
  reconciliation_detail = none;
  reconciliation_clean_streak = 0;
  reconciliation_recovery_eligible = false;
  websocket_ready = false;
  last_websocket_event_at = none;
  last_websocket_error = none;
  position_count = 0;
  open_order_count = 0;
}

-- The status with which the service starts.
abbrev pub starting : String → MainnetReadStatus
starting account = record unconfigured {
  configured = true;
  account_address = some account;
  reconciliation_reason_code = some "startup_reconciliation_pending";
  reconciliation_detail = some "waiting for the first authoritative account snapshot";
}

-- `saturating_add(1)` on a u32
abbrev saturating_suc : ℕ → ℕ
saturating_suc n = if leb (2 ^ 32 - 1) n then 2 ^ 32 - 1 else n + 1

unfoldable pub mark_failure : String → MainnetReadStatus → MainnetReadStatus
mark_failure error status = record status {
  ready = false;
  last_error = some error;
  consecutive_failures = saturating_suc status.consecutive_failures;
}

unfoldable pub apply_reconciliation : ReconciliationState → MainnetReadStatus → MainnetReadStatus
apply_reconciliation state status = record status {
  reconciliation_ready = state.row.ready;
  execution_mode = state.row.mode;
  reconciliation_reason_code = state.row.reason_code;
  reconciliation_detail = state.row.detail;
  reconciliation_clean_streak = state.row.clean_streak;
  reconciliation_recovery_eligible = state.recovery_eligible;
}

-- The snapshot was persisted.
unfoldable pub snapshot_persisted :
    Timestamp → ℕ → ℕ → ReconciliationState → MainnetReadStatus → MainnetReadStatus
unfolding apply_reconciliation
snapshot_persisted observed_at position_count open_order_count state status =
    let applied : MainnetReadStatus =
      apply_reconciliation state (record status { last_success_at = some observed_at }) in
    record applied {
      last_error = none;
      consecutive_failures = 0;
      position_count = position_count;
      open_order_count = open_order_count;
    }

-- The snapshot was not fetched, or not persisted.
unfoldable pub snapshot_failed : String → MainnetReadStatus → MainnetReadStatus
unfolding mark_failure
snapshot_failed error status = mark_failure error (record status { reconciliation_ready = false })

unfoldable pub history_persisted : Timestamp → MainnetReadStatus → MainnetReadStatus
history_persisted now status = record status {
  history_ready = true;
  last_history_success_at = some now;
}

unfoldable pub history_failed : String → MainnetReadStatus → MainnetReadStatus
unfolding mark_failure
history_failed error status = mark_failure error (record status { history_ready = false })

-- `signed_duration_since(last).to_std().unwrap_or(Duration::MAX) <= stale_after`, where `stale_after`
-- is less than `Duration::MAX`.
abbrev pub is_fresh : ℕ → Timestamp → Option Timestamp → Bool
is_fresh stale_after now none = false
is_fresh stale_after now (some last) = leb last now && leb (now - last) stale_after

-- The last section of a pass. The clock is read once for each of the two.
unfoldable pub judge : ℕ → Timestamp → Timestamp → MainnetReadStatus → MainnetReadStatus
judge stale_after now later status = record status {
  ready =
      is_fresh stale_after now status.last_success_at
      && status.history_ready
      && status.reconciliation_ready
      && status.websocket_ready
      && is_fresh stale_after later status.last_websocket_event_at;
}

-- The websocket is connected and subscribed.
unfoldable pub websocket_opened : MainnetReadStatus → MainnetReadStatus
websocket_opened status = record status { last_websocket_error = none }

unfoldable pub websocket_event : Timestamp → MainnetReadStatus → MainnetReadStatus
websocket_event now status = record status {
  websocket_ready = true;
  last_websocket_event_at = some now;
}

unfoldable pub websocket_closed : String → MainnetReadStatus → MainnetReadStatus
websocket_closed error status = record status {
  websocket_ready = false;
  last_websocket_error = some error;
  ready = false;
}
