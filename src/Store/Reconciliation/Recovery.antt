-- ===== src/Store/Reconciliation/Recovery.antt =====
-- src/store.rs: when an operator may lift the close-only mode of an account.
use hyperliquid_live_executo.Base.{◌≤◌, ◌≡◌, true, ◌&&◌, List, [], ◌∷◌, String, some, arith}
use hyperliquid_live_executo.Base.Result.{ok}
use hyperliquid_live_executo.Base.Table
use hyperliquid_live_executo.Base.Time.{Timestamp}
use hyperliquid_live_executo.Store.State.{Store, ReconciliationRow}
use hyperliquid_live_executo.Store.Reconciliation.{
  ReconciliationState, is_close_only, of_account, to_state, has_reason, recovered,
  reconciliation_state, acknowledge_reconciliation_recovery,
}

first-recovered :
    (account : String) (rs : List ReconciliationRow) (r : ReconciliationRow)
    → Table.first (of_account account) rs ≡ some r
    → is_close_only r.mode ≡ true
    → Table.first
        (of_account account)
        (Table.update (λ x. of_account account x && is_close_only x.mode) recovered rs)
      ≡ some (recovered r)
first-recovered account [] r found closed = ground arith
first-recovered account (x ∷ rs) r found closed = ground (arith, first-recovered account rs r)

module _ {D : Type 0} where
  -- Where an account has the row `r`, an acknowledged recovery that succeeds shows that the row was
  -- close-only, that the operator named its reason, and that at least three clean reconciliations
  -- in a row had been counted; the account is then in normal mode, ready, and its count starts
  -- again at zero.
  pub recovery_bound :
      (now : Timestamp) (account reason by : String) (s t : Store D) (r : ReconciliationRow)
      (state : ReconciliationState)
      → Table.first (of_account account) s.reconciliation ≡ some r
      → acknowledge_reconciliation_recovery now account reason by s ≡ (ok state, t)
      → (is_close_only r.mode ≡ true)
        × (has_reason reason r.reason_code ≡ true)
        × (3 ≤ r.clean_streak)
        × (state ≡ to_state (recovered r))
        × (reconciliation_state account t ≡ some (to_state (recovered r)))
  unfolding acknowledge_reconciliation_recovery reconciliation_state
  recovery_bound now account reason by s t r state found h =
      ground (arith, first-recovered account s.reconciliation r found)
