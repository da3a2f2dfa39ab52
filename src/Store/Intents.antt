-- ===== src/Store/Intents.antt =====
-- src/store.rs: `create_intent`, `submit_shadow_intent`, `transition_intent`, `get_intent`, the
-- kill switch and the event log.
pub mod Idempotent
use hyperliquid_live_executo.Base.{
  ℕ, ◌+◌, Bool, true, false, not, ◌&&◌, ◌||◌, List, [], ◌∷◌, ◌++◌, String, Option, none, take, some,
  ◌==◌, str_eq, is_some, select, if◌then◌else◌,
}
use Prim.Native.String.{◌++◌ as append}
use Prim.Native.Nat.{min}
use hyperliquid_live_executo.Base.Int.{ℤ, pos, ltb_ℤ}
use hyperliquid_live_executo.Base.Result.{ok, err}
use hyperliquid_live_executo.Base.Table
use hyperliquid_live_executo.Base.Time.{Timestamp}
use hyperliquid_live_executo.Decimal.{DecimalOps}
use hyperliquid_live_executo.Domain.Intent.{TradeIntent}
use hyperliquid_live_executo.Domain.Intent.Equality.{same_intent}
use hyperliquid_live_executo.Domain.Confirmation.{ManualConfirmation}
use hyperliquid_live_executo.Domain.Status.{
  TradeIntentStatus, received, risk_rejected, awaiting_confirmation, shadow_accepted,
  can_transition_to, same_status,
}
use hyperliquid_live_executo.Domain.Status.Text.{status_to_str}
use hyperliquid_live_executo.Risk.Decision.{RiskDecision, is_approved}
use hyperliquid_live_executo.Store.State.{
  Store, StoredIntent, EventData, ExecutionEvent, ExecutorControl, intent_key, idempotency_conflict,
  intent_id_conflict, signal_replay, illegal_transition, concurrent_transition,
}
use hyperliquid_live_executo.Store.Tx.{
  Tx, Op, pure, fail_if, gets, immediate, insert_event_tx, get_intent_tx, update_intent, ◌>>=◌,
  ◌>>◌,
}

-- `Uuid::nil`
abbrev pub nil_uuid : ℕ
nil_uuid = 0

module _ {D : Type 0} where
  abbrev pub has_key : String → String → StoredIntent D → Bool
  has_key strategy_id key r =
      str_eq r.intent.strategy_id strategy_id && str_eq r.idempotency_key key

  -- `find_by_idempotency_key_tx`
  abbrev pub find_by_idempotency_key : String → String → Store D → Option (StoredIntent D)
  find_by_idempotency_key strategy_id key s = Table.first (has_key strategy_id key) s.intents

  abbrev has_signal : TradeIntent D → StoredIntent D → Bool
  has_signal i r =
      str_eq r.intent.account_id i.account_id
      && str_eq r.intent.strategy_instance_id i.strategy_instance_id
      && str_eq r.intent.signal_id i.signal_id

  -- `reject_signal_replay_tx`
  abbrev reject_signal_replay_tx : TradeIntent D → Tx D (Unit {0})
  reject_signal_replay_tx i s =
      fail_if (is_some (Table.first (has_signal i) s.intents)) signal_replay s

  abbrev insert_intent : StoredIntent D → Tx D (Unit {0})
  insert_intent r s = ok (tt, record s { intents = s.intents ++ r ∷ [] })

  -- The checks before an insertion: an earlier intent under the same key is returned if it is the
  -- same and refused otherwise; the id and the signal must be new. `none` lets the insertion go on.
  abbrev admit : DecimalOps D → TradeIntent D → String → Tx D (Option (StoredIntent D))
  admit ops intent idempotency_key s =
      elim (find_by_idempotency_key intent.strategy_id idempotency_key s) [
        | some existing ↦
            if same_intent ops existing.intent intent
            then ok (some existing, s)
            else err idempotency_conflict
        | none ↦
            (do
              fail_if (is_some (Table.find intent_key intent.intent_id s.intents))
                  intent_id_conflict
              reject_signal_replay_tx intent
              pure none)
              s
      ]

  abbrev pub received_row : TradeIntent D → String → Timestamp → StoredIntent D
  received_row intent idempotency_key now = record {
    intent = intent;
    idempotency_key = idempotency_key;
    status = received;
    status_reason = none;
    risk_decision = none;
    manual_confirmation = none;
    created_at = now;
    updated_at = now;
  }

  abbrev create_row : TradeIntent D → String → Timestamp → Tx D (StoredIntent D × Bool)
  create_row intent idempotency_key now = do
    insert_intent (received_row intent idempotency_key now)
    insert_event_tx intent.intent_id "intent.received" (EventData.received none idempotency_key) now
    pure (received_row intent idempotency_key now, true)

  unfoldable pub create_intent :
      DecimalOps D → Timestamp → TradeIntent D → String → Op D (StoredIntent D × Bool)
  create_intent ops now intent idempotency_key = immediate do
    existing ← admit ops intent idempotency_key
    elim existing [
      | some stored ↦ pure (stored, false)
      | none ↦ create_row intent idempotency_key now
    ]

  abbrev pub submitted_status :
      Bool → RiskDecision D → Option ManualConfirmation → TradeIntentStatus
  submitted_status kill_switch decision confirmation =
      if kill_switch || not (is_approved decision)
      then risk_rejected
      else if is_some confirmation
      then awaiting_confirmation
      else shadow_accepted

  abbrev submitted_reason : Bool → RiskDecision D → Option ManualConfirmation → String
  submitted_reason kill_switch decision confirmation =
      if kill_switch
      then "kill_switch_enabled"
      else if not (is_approved decision)
      then "risk_policy_rejected"
      else if is_some confirmation
      then "awaiting_manual_confirmation"
      else "shadow_mode_no_order_submitted"

  abbrev pub submitted_row :
      Bool
      → Timestamp
      → TradeIntent D
      → String
      → RiskDecision D
      → Option ManualConfirmation
      → StoredIntent D
  submitted_row kill_switch now intent idempotency_key decision confirmation = record {
    intent = intent;
    idempotency_key = idempotency_key;
    status = submitted_status kill_switch decision confirmation;
    status_reason = some (submitted_reason kill_switch decision confirmation);
    risk_decision = some decision;
    manual_confirmation = confirmation;
    created_at = now;
    updated_at = now;
  }

  abbrev submit_row :
      Timestamp
      → TradeIntent D
      → String
      → RiskDecision D
      → Option ManualConfirmation
      → Tx D (StoredIntent D × Bool)
  submit_row now intent idempotency_key decision confirmation = do
    kill_switch ← gets (λ s. s.control.kill_switch_enabled)
    let row = submitted_row kill_switch now intent idempotency_key decision confirmation
    insert_intent row
    insert_event_tx intent.intent_id "intent.received"
        (EventData.received (some intent.strategy_id) idempotency_key) now
    insert_event_tx intent.intent_id (append "intent." (status_to_str row.status))
        (EventData.admission (submitted_reason kill_switch decision confirmation) decision) now
    pure (row, true)

  unfoldable pub submit_shadow_intent :
      DecimalOps D
      → Timestamp
      → TradeIntent D
      → String
      → RiskDecision D
      → Option ManualConfirmation
      → Op D (StoredIntent D × Bool)
  submit_shadow_intent ops now intent idempotency_key decision confirmation = immediate do
    existing ← admit ops intent idempotency_key
    elim existing [
      | some stored ↦ pure (stored, false)
      | none ↦ submit_row now intent idempotency_key decision confirmation
    ]

  abbrev transition_found :
      Timestamp
      → ℕ
      → TradeIntentStatus
      → Option String
      → StoredIntent D
      → Tx D (Option (StoredIntent D))
  transition_found now intent_id next reason current = do
    fail_if (not (can_transition_to current.status next)) (illegal_transition current.status next)
    changed ←
        update_intent intent_id (λ r. same_status r.status current.status)
          (λ r. record r { status = next; status_reason = reason; updated_at = now })
    fail_if (not (changed == 1)) concurrent_transition
    insert_event_tx intent_id (append "intent." (status_to_str next)) (EventData.reason reason) now
    get_intent_tx intent_id

  unfoldable pub transition_intent :
      Timestamp → ℕ → TradeIntentStatus → Option String → Op D (Option (StoredIntent D))
  transition_intent now intent_id next reason = immediate do
    current ← get_intent_tx intent_id
    elim current [ none ↦ pure none | some row ↦ transition_found now intent_id next reason row ]

  unfoldable pub get_intent : ℕ → Store D → Option (StoredIntent D)
  get_intent intent_id s = Table.find intent_key intent_id s.intents

  -- `UPDATE executor_control … WHERE singleton = 1`
  abbrev set_control : ExecutorControl → Tx D (Unit {0})
  set_control c s = ok (tt, record s { control = c })

  unfoldable pub set_kill_switch : Timestamp → Bool → Option String → Op D (Unit {0})
  set_kill_switch now enabled reason = immediate do
    set_control (record { kill_switch_enabled = enabled; reason = reason; updated_at = now })
    insert_event_tx nil_uuid
        (if enabled then "control.kill_switch_enabled" else "control.kill_switch_disabled")
        (EventData.reason reason) now

  unfoldable pub kill_switch_enabled : Store D → Bool
  kill_switch_enabled s = s.control.kill_switch_enabled

  -- The events stand in the order of their cursors.
  unfoldable pub events_after : ℤ → ℕ → Store D → List (ExecutionEvent D)
  events_after after limit s =
      take (min limit 500) (select (λ e. ltb_ℤ after (pos e.cursor)) s.events)
