-- ===== src/Store/State.antt =====
-- src/store.rs: the tables of the execution database and the values read from them. A column that
-- holds a status, a time or a JSON text holds the value that is written there; Domain/Status/Text
-- and Live/Execution/Text prove that the texts of statuses are read back as written.
use hyperliquid_live_executo.Base.{ℕ, Bool, List, String, Option}
use hyperliquid_live_executo.Base.Time.{Timestamp}
use hyperliquid_live_executo.Domain.Intent.{TradeIntent}
use hyperliquid_live_executo.Domain.Status.{TradeIntentStatus}
use hyperliquid_live_executo.Domain.Confirmation.{ManualConfirmation}
use hyperliquid_live_executo.Risk.Decision.{RiskDecision}
use hyperliquid_live_executo.Mainnet.{Mainnet}
use hyperliquid_live_executo.Live.Execution.{LiveExecution}

pub data ExecutionMode : Type 0 where
  normal halt_new_entries close_only : ExecutionMode

pub data StoreError : Type 0 where
  -- a refused insertion: a key that is already there
  database : StoreError
  illegal_transition : TradeIntentStatus → TradeIntentStatus → StoreError
  idempotency_conflict intent_id_conflict signal_replay concurrent_transition : StoreError
  confirmation_mismatch confirmation_expired not_awaiting_confirmation : StoreError
  reconciliation_not_close_only reconciliation_recovery_not_eligible : StoreError
  reconciliation_reason_mismatch : StoreError

-- A row of `trade_intents`: the payload and the columns beside it.
pub record StoredIntent (D : Type 0) : Type 0 where
  pub intent : TradeIntent D
  pub idempotency_key : String
  pub status : TradeIntentStatus
  pub status_reason : Option String
  pub risk_decision : Option (RiskDecision D)
  pub manual_confirmation : Option ManualConfirmation
  pub created_at : Timestamp
  pub updated_at : Timestamp

-- The JSON that an event carries.
pub data EventData (D : Type 0) : Type 0 where
  -- `strategyId`, where it is written, and `idempotencyKey`
  received : Option String → String → EventData D
  admission : String → RiskDecision D → EventData D
  reason : Option String → EventData D
  confirmed : String → String → EventData D
  created : String → ℕ → EventData D
  nothing : EventData D
  transition : String → Option String → EventData D
  covered_size : D → EventData D
  recorded : String → Timestamp → EventData D
  recovery : String → String → String → EventData D
  -- the account, the new fills and the new funding
  backfilled : String → ℕ → ℕ → EventData D
  updates_recorded : String → ℕ → EventData D

-- A row of `execution_events`, without the random `event_id` that only labels it.
pub record ExecutionEvent (D : Type 0) : Type 0 where
  pub cursor : ℕ
  pub aggregate_id : ℕ
  pub event_type : String
  pub occurred_at : Timestamp
  pub event_data : EventData D

-- A row of `live_orders`. The role is the bytes of its stable name.
pub record LiveOrder (D : Type 0) : Type 0 where
  pub cloid : ℕ
  pub intent_id : ℕ
  pub role : List ℕ
  pub exchange_oid : Option ℕ
  pub status : String
  pub requested_size : D
  pub filled_size : Option D
  pub average_fill_price : Option D
  pub created_at : Timestamp
  pub updated_at : Timestamp

-- A row of `mainnet_reconciliation_state`.
pub record ReconciliationRow : Type 0 where
  pub account_address : String
  pub mode : ExecutionMode
  pub ready : Bool
  pub reason_code : Option String
  pub detail : Option String
  pub baseline_established_at : Option Timestamp
  pub last_reconciled_at : Option Timestamp
  pub clean_streak : ℕ

-- The singleton row of `executor_control`.
pub record ExecutorControl : Type 0 where
  pub kill_switch_enabled : Bool
  pub reason : Option String
  pub updated_at : Timestamp

pub record Store (D : Type 0) : Type 0 where
  pub intents : List (StoredIntent D)
  pub events : List (ExecutionEvent D)
  pub control : ExecutorControl
  pub executions : List LiveExecution
  pub orders : List (LiveOrder D)
  pub reconciliation : List ReconciliationRow
  pub mainnet : Mainnet D

-- The primary key of `trade_intents`.
abbrev pub intent_key : {D : Type 0} → StoredIntent D → ℕ
intent_key r = r.intent.intent_id

-- The primary key of `live_executions`.
abbrev pub execution_key : LiveExecution → ℕ
execution_key r = r.intent_id
