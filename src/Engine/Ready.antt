-- ===== src/Engine/Ready.antt =====
-- src/engine.rs: what `ensure_reconciliation_ready` asks of the account that the engine reconciles.
use hyperliquid_live_executo.Base.{◌+◌, ◌≤◌, ◌≡◌, refl, true, String, Option, none, some, arith}
use hyperliquid_live_executo.Base.Result.{ok}
use hyperliquid_live_executo.Base.Time.{Timestamp, seconds}
use hyperliquid_live_executo.Store.State.{Store}
use hyperliquid_live_executo.Store.Reconciliation.{ReconciliationState, reconciliation_state}
use hyperliquid_live_executo.Engine.{Engine, state_ready, ensure_reconciliation_ready}

-- The account's row says that it is ready, and it was reconciled at most twenty seconds ago.
pub record IsReconciled {D : Type 0} (account : String) (now : Timestamp) (s : Store D)
    : Type 0 where
  pub state : ReconciliationState
  pub found : reconciliation_state account s ≡ some state
  pub ready : state.row.ready ≡ true
  pub observed : Timestamp
  pub reconciled : state.row.last_reconciled_at ≡ some observed
  pub fresh : now ≤ observed + seconds 20

-- The account that the engine reconciles, if it has one, is reconciled.
abbrev pub Reconciled : {D : Type 0} → Option String → Timestamp → Store D → Type 0
Reconciled none now s = Unit
Reconciled (some account) now s = IsReconciled account now s

state_lem :
    {D : Type 0} (account : String) (now : Timestamp) (s : Store D) (state : ReconciliationState)
    → reconciliation_state account s ≡ some state
    → state_ready now state ≡ ok tt
    → IsReconciled account now s
state_lem account now s state found h = observed state.row.last_reconciled_at refl
  where
    observed :
        (at : Option Timestamp) → state.row.last_reconciled_at ≡ at → IsReconciled account now s
    observed none e = absurd (ground arith)
    observed (some at) e = record {
      state = state;
      found = found;
      ready = ground arith;
      observed = at;
      reconciled = e;
      fresh = ground arith;
    }

pub ready-Reconciled :
    {D : Type 0} (engine : Engine D) (now : Timestamp) (s : Store D)
    → ensure_reconciliation_ready engine now s ≡ ok tt
    → Reconciled engine.reconciliation_account now s
unfolding ensure_reconciliation_ready
ready-Reconciled engine now s h = reconciles engine.reconciliation_account refl
  where
    looked_up :
        (account : String)
        → engine.reconciliation_account ≡ some account
        → (state : Option ReconciliationState) → reconciliation_state account s ≡ state
        → IsReconciled account now s
    looked_up account e none f = absurd (ground arith)
    looked_up account e (some state) f = state_lem account now s state f (ground arith)

    reconciles :
        (account : Option String)
        → engine.reconciliation_account ≡ account
        → Reconciled account now s
    reconciles none e = tt
    reconciles (some account) e = looked_up account e (reconciliation_state account s) refl
