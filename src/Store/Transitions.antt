-- ===== src/Store/Transitions.antt =====
-- src/store.rs: the transitions of an execution together with its intent.
use hyperliquid_live_executo.Base.{
  ℕ, Bool, true, false, not, ◌||◌, List, [], ◌∷◌, String, Option, none, some, ◌==◌, str_eq,
  if◌then◌else◌,
}
use Prim.Native.String.{◌++◌ as append}
use hyperliquid_live_executo.Base.Result.{ok}
use hyperliquid_live_executo.Base.Time.{Timestamp}
use hyperliquid_live_executo.Domain.Status.{TradeIntentStatus, same_status}
use hyperliquid_live_executo.Domain.Status
use hyperliquid_live_executo.Live.Execution.{
  LiveExecution, LiveExecutionStatus, entry_submitting, entry_unknown, entry_filled, protected,
  emergency_closing, closed, failed, reconciliation_required,
}
use hyperliquid_live_executo.Live.Execution
use hyperliquid_live_executo.Live.Execution.Text.{live_execution_status_str}
use hyperliquid_live_executo.Store.State.{
  EventData, ReconciliationRow, close_only, concurrent_transition,
}
use hyperliquid_live_executo.Store.Tx.{
  Tx, Op, pure, fail_if, or_fail, immediate, insert_event_tx, get_live_execution_tx, update_intent,
  update_execution, ◌>>=◌, ◌>>◌,
}

-- `INSERT … ON CONFLICT(account_address) DO UPDATE SET mode = 'close_only', …`
abbrev pub force_close_only :
    String → String → Option String → List ReconciliationRow → List ReconciliationRow
force_close_only account reason detail [] =
    record {
      account_address = account;
      mode = close_only;
      ready = false;
      reason_code = some reason;
      detail = detail;
      baseline_established_at = none;
      last_reconciled_at = none;
      clean_streak = 0;
    }
    ∷ []
force_close_only account reason detail (r ∷ rs) =
    if str_eq r.account_address account
    then record r {
      mode = close_only;
      ready = false;
      reason_code = some reason;
      detail = detail;
      clean_streak = 0;
    }
      ∷ rs
    else r ∷ force_close_only account reason detail rs

module _ {D : Type 0} where
  -- Both updates, the test that each changed one row, and the event.
  abbrev pub update_live_and_intent_tx :
      ℕ
      → LiveExecutionStatus
      → LiveExecutionStatus
      → TradeIntentStatus
      → TradeIntentStatus
      → String
      → Option String
      → Timestamp
      → Tx D (Unit {0})
  update_live_and_intent_tx intent_id expected_live next_live expected_intent next_intent reason
        detail now =
      do
        execution_changed ←
            update_execution intent_id (λ e. Execution.same_status e.status expected_live)
              (λ e. record e { status = next_live; last_error = detail; updated_at = now })
        intent_changed ←
            update_intent intent_id (λ r. same_status r.status expected_intent)
              (λ r. record r {
                status = next_intent;
                status_reason = some reason;
                updated_at = now;
              })
        fail_if (not (execution_changed == 1) || not (intent_changed == 1)) concurrent_transition
        insert_event_tx intent_id (append "execution." (live_execution_status_str next_live))
            (EventData.transition reason detail) now

  abbrev close_only_tx : String → Option String → LiveExecution → Tx D (Unit {0})
  close_only_tx reason detail e s = ok (
    tt,
    record s { reconciliation = force_close_only e.account_address reason detail s.reconciliation },
  )

  unfoldable pub finish_live_transition :
      Timestamp
      → ℕ
      → LiveExecutionStatus
      → LiveExecutionStatus
      → TradeIntentStatus
      → TradeIntentStatus
      → String
      → Option String
      → Bool
      → Op D (Unit {0})
  finish_live_transition now intent_id expected_live next_live expected_intent next_intent reason
        detail force =
      immediate do
        update_live_and_intent_tx intent_id expected_live next_live expected_intent next_intent
            reason detail now
        if force
            then (get_live_execution_tx intent_id
                >>= (λ execution. or_fail execution concurrent_transition)
                >>= close_only_tx reason detail)
            else pure tt

  unfoldable pub mark_live_execution_failed : Timestamp → ℕ → String → String → Op D (Unit {0})
  mark_live_execution_failed now intent_id reason detail =
      finish_live_transition now intent_id entry_submitting failed Status.submitting Status.failed
        reason (some detail) false

  unfoldable pub mark_live_entry_unknown : Timestamp → ℕ → String → Op D (Unit {0})
  mark_live_entry_unknown now intent_id detail =
      finish_live_transition now intent_id entry_submitting entry_unknown Status.submitting
        Status.failed "entry_outcome_unknown" (some detail) true

  unfoldable pub mark_live_execution_protected : Timestamp → ℕ → Op D (Unit {0})
  mark_live_execution_protected now intent_id =
      finish_live_transition now intent_id entry_filled protected Status.executing Status.completed
        "protection_verified" none false

  unfoldable pub mark_live_emergency_closing : Timestamp → ℕ → String → Op D (Unit {0})
  mark_live_emergency_closing now intent_id detail =
      finish_live_transition now intent_id entry_filled emergency_closing Status.executing
        Status.executing "protection_failed" (some detail) true

  unfoldable pub mark_live_execution_closed : Timestamp → ℕ → Op D (Unit {0})
  mark_live_execution_closed now intent_id =
      finish_live_transition now intent_id emergency_closing closed Status.executing Status.failed
        "unprotected_entry_emergency_closed" none true

  unfoldable pub mark_live_reconciliation_required : Timestamp → ℕ → String → Op D (Unit {0})
  mark_live_reconciliation_required now intent_id detail =
      finish_live_transition now intent_id emergency_closing reconciliation_required
        Status.executing Status.failed "emergency_close_outcome_unknown" (some detail) true
