-- ===== src/Store/Reconciliation.antt =====
-- src/store.rs: the reconciliation state of an account, and the recovery that an operator
-- acknowledges.
pub mod Recovery
use hyperliquid_live_executo.Base.{
  Bool, true, false, not, ◌&&◌, ◌||◌, List, [], ◌∷◌, String, Option, none, some, str_eq, leb,
  if◌then◌else◌,
}
use hyperliquid_live_executo.Base.Result.{Result, ok, err}
use hyperliquid_live_executo.Base.Table
use hyperliquid_live_executo.Base.Time.{Timestamp}
use hyperliquid_live_executo.Store.State.{
  Store, StoreError, ExecutionMode, ReconciliationRow, EventData, normal, close_only,
  reconciliation_not_close_only, reconciliation_reason_mismatch,
  reconciliation_recovery_not_eligible,
}
use hyperliquid_live_executo.Store.Tx.{
  Tx, Op, fail_if, or_fail, gets, immediate, insert_event_tx, ◌>>=◌, ◌>>◌,
}
use hyperliquid_live_executo.Store.Intents.{nil_uuid}

-- `ReconciliationState`: the row, and whether a recovery may be acknowledged.
pub record ReconciliationState : Type 0 where
  pub row : ReconciliationRow
  pub recovery_eligible : Bool

abbrev pub is_normal : ExecutionMode → Bool
is_normal normal = true
is_normal _ = false

abbrev pub is_close_only : ExecutionMode → Bool
is_close_only close_only = true
is_close_only _ = false

-- `reconciliation_state_connection`
abbrev pub to_state : ReconciliationRow → ReconciliationState
to_state r = record { row = r; recovery_eligible = is_close_only r.mode && leb 3 r.clean_streak }

abbrev pub of_account : String → ReconciliationRow → Bool
of_account account r = str_eq r.account_address account

-- The test of the admission and of the worker.
abbrev pub is_blocking : ReconciliationRow → Bool
is_blocking r = not r.ready || not (is_normal r.mode)

abbrev lowest :
    (String → String → Bool)
    → Option ReconciliationRow
    → List ReconciliationRow
    → Option ReconciliationRow
lowest before best [] = best
lowest before none (r ∷ rs) = lowest before (if is_blocking r then some r else none) rs
lowest before (some b) (r ∷ rs) =
    lowest before
      (some (if is_blocking r && before r.account_address b.account_address then r else b)) rs

abbrev pub recovered : ReconciliationRow → ReconciliationRow
recovered r = record r {
  mode = normal;
  ready = true;
  reason_code = none;
  detail = none;
  clean_streak = 0;
}

abbrev pub has_reason : String → Option String → Bool
has_reason expected none = false
has_reason expected (some reason) = str_eq reason expected

module _ {D : Type 0} where
  unfoldable pub reconciliation_state : String → Store D → Option ReconciliationState
  reconciliation_state account s = elim (Table.first (of_account account) s.reconciliation) [
    | none ↦ none
    | some r ↦ some (to_state r)
  ]

  -- The blocking row of the first account, in the order `before` of the database on texts.
  unfoldable pub admission_block : (String → String → Bool) → Store D → Option ReconciliationState
  admission_block before s = elim (lowest before none s.reconciliation) [
    | none ↦ none
    | some r ↦ reconciliation_state r.account_address s
  ]

  abbrev update_recovered : String → Tx D (Unit {0})
  update_recovered account s = ok (
    tt,
    record s {
      reconciliation =
          Table.update (λ r. of_account account r && is_close_only r.mode) recovered
            s.reconciliation;
    },
  )

  abbrev acknowledge_tx : Timestamp → String → String → String → Tx D (Unit {0})
  acknowledge_tx now account expected_reason acknowledged_by = do
    found ← gets (reconciliation_state account)
    state ← or_fail found reconciliation_not_close_only
    fail_if (not (is_close_only state.row.mode)) reconciliation_not_close_only
    fail_if (not (has_reason expected_reason state.row.reason_code)) reconciliation_reason_mismatch
    fail_if (not state.recovery_eligible) reconciliation_recovery_not_eligible
    update_recovered account
    insert_event_tx nil_uuid "control.reconciliation_recovery_acknowledged"
        (EventData.recovery account expected_reason acknowledged_by) now

  -- The state is read again after the transaction.
  abbrev reread :
      String
      → Result StoreError (Unit {0}) × Store D
      → Result StoreError ReconciliationState × Store D
  reread account (ok _, t) = elim (reconciliation_state account t) [
    | none ↦ (err reconciliation_not_close_only, t)
    | some state ↦ (ok state, t)
  ]
  reread account (err e, t) = (err e, t)
  reread account (Result.panic, t) = (Result.panic, t)

  unfoldable pub acknowledge_reconciliation_recovery :
      Timestamp → String → String → String → Op D ReconciliationState
  acknowledge_reconciliation_recovery now account expected_reason acknowledged_by s =
      reread account (immediate (acknowledge_tx now account expected_reason acknowledged_by) s)
