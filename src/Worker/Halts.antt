-- ===== src/Worker/Halts.antt =====
-- src/live_execution.rs: the worker stops on an account that a failure has locked.
use hyperliquid_live_executo.Base.{
  ℕ, ◌≡◌, refl, Bool, true, false, List, [], ◌∷◌, String, Option, none, some, arith, ==_refl,
}
use text.Mathlib.TextPositions.{eq_refl}
use hyperliquid_live_executo.Base.Result.{ok}
use hyperliquid_live_executo.Base.Table
use hyperliquid_live_executo.Base.Time.{Timestamp}
use hyperliquid_live_executo.Decimal.{DecimalOps}
use hyperliquid_live_executo.Domain.Status.{TradeIntentStatus}
use hyperliquid_live_executo.Live.Execution.{LiveExecution, LiveExecutionStatus}
use hyperliquid_live_executo.Live.Execution
use hyperliquid_live_executo.Store.State.{Store, ReconciliationRow, execution_key}
use hyperliquid_live_executo.Store.Reconciliation.{of_account, is_blocking, reconciliation_state}
use hyperliquid_live_executo.Store.Transitions.{finish_live_transition, force_close_only}
use hyperliquid_live_executo.Worker.{Gateway, run_once}

abbrev blocks_row : Option ReconciliationRow → Bool
blocks_row none = false
blocks_row (some r) = is_blocking r

-- Whatever was known of the account, it is blocked now.
forced_blocks :
    (account reason : String) (detail : Option String) (rs : List ReconciliationRow)
    → blocks_row (Table.first (of_account account) (force_close_only account reason detail rs))
      ≡ true
forced_blocks account reason detail [] = ground (arith, eq_refl account)
forced_blocks account reason detail (x ∷ rs) =
    ground (arith, forced_blocks account reason detail rs)

module _ {D : Type 0} where
  finish_forces :
      (now : Timestamp) (id : ℕ) (el nl : LiveExecutionStatus) (ei ni : TradeIntentStatus)
      (reason : String) (detail : Option String) (s t : Store D) (e : LiveExecution)
      → Table.find execution_key id s.executions ≡ some e
      → finish_live_transition now id el nl ei ni reason detail true s ≡ (ok tt, t)
      → t.reconciliation ≡ force_close_only e.account_address reason detail s.reconciliation
  unfolding finish_live_transition
  finish_forces now id el nl ei ni reason detail s t e found h = ground (
    arith,
    Table.find-update_key execution_key
        (λ (x : LiveExecution). record x { status = nl; last_error = detail; updated_at = now })
        (λ x. refl) id (λ (x : LiveExecution). Execution.same_status x.status el) id s.executions,
    ==_refl id,
  )

  -- Once an entry with an unknown outcome, a failed protection, an emergency close or its unknown
  -- outcome has been recorded for an execution, a pass of the worker for the execution's account
  -- claims nothing and leaves the store as it is, whatever the gateway would answer.
  pub forced_transition_halts :
      (ops : DecimalOps D) (sha256 : List ℕ → List ℕ) (gateway : Gateway D) (clock : ℕ → Timestamp)
      (now : Timestamp) (id : ℕ) (el nl : LiveExecutionStatus) (ei ni : TradeIntentStatus)
      (reason : String) (detail : Option String) (s t : Store D) (e : LiveExecution)
      → Table.find execution_key id s.executions ≡ some e
      → finish_live_transition now id el nl ei ni reason detail true s ≡ (ok tt, t)
      → run_once ops sha256 gateway clock e.account_address t ≡ (ok false, t)
  unfolding run_once reconciliation_state
  forced_transition_halts ops sha256 gateway clock now id el nl ei ni reason detail s t e found h =
      ground (
        arith,
        finish_forces now id el nl ei ni reason detail s t e found h,
        forced_blocks e.account_address reason detail s.reconciliation,
      )
