-- ===== src/Worker.antt =====
-- src/live_execution.rs: `LiveExecutionWorker`, over the store and a gateway to the exchange. The
-- gateway is a parameter, whose calls may panic; `clock n` is the time of the n-th call of the
-- store. The store that `err` leaves is the one that the calls before the failing one have
-- committed.
pub mod Settles
pub mod Closes
pub mod Protects
pub mod Established
pub mod Halts
pub mod Runs
use hyperliquid_live_executo.Base.{
  ℕ, Bool, true, false, List, String, Option, none, some, if◌then◌else◌,
}
use hyperliquid_live_executo.Base.Result.{Result, ok, err, panic}
use hyperliquid_live_executo.Base.Time.{Timestamp}
use hyperliquid_live_executo.Decimal.{DecimalOps}
use hyperliquid_live_executo.Domain.Intent.{TradeIntent}
use hyperliquid_live_executo.Live.Cloid.{emergency_close, deterministic_cloid}
use hyperliquid_live_executo.Live.Execution.{
  ConfirmedFill, GatewayFailure, LiveExecution, definite, outcome_unknown, gateway_error_text,
}
use hyperliquid_live_executo.Store.State.{Store, StoreError, StoredIntent}
use hyperliquid_live_executo.Store.Tx.{Op}
use hyperliquid_live_executo.Store.Executions.{claim_next_live_execution}
use hyperliquid_live_executo.Store.Orders.{record_live_entry_fill, record_live_protection_orders}
use hyperliquid_live_executo.Store.Reconciliation.{
  ReconciliationState, reconciliation_state, is_blocking,
}
use hyperliquid_live_executo.Store.Transitions.{
  mark_live_execution_failed, mark_live_entry_unknown, mark_live_execution_protected,
  mark_live_emergency_closing, mark_live_execution_closed, mark_live_reconciliation_required,
}

-- `LiveExecutionGateway`: what the exchange answers to each request.
pub record Gateway (D : Type 0) : Type 0 where
  pub submit_entry : TradeIntent D → D → ℕ → Result GatewayFailure (ConfirmedFill D)
  pub establish_protection : TradeIntent D → ConfirmedFill D → Result GatewayFailure (Unit {0})
  pub emergency_close : TradeIntent D → ConfirmedFill D → ℕ → Result GatewayFailure (Unit {0})

abbrev pub is_halted : Option ReconciliationState → Bool
is_halted none = false
is_halted (some state) = is_blocking state.row

module _ {D : Type 0} where
  abbrev pub done : {A : Type 0} → A → Op D A
  done a s = (ok a, s)

  abbrev pub follow :
      {A B : Type 0} → Result StoreError A × Store D → (A → Op D B) → Result StoreError B × Store D
  follow (ok a, t) k = k a t
  follow (err e, t) k = (err e, t)
  follow (panic, t) k = (panic, t)

  -- `?` on a call of the store, which keeps what it has committed.
  infixl 5 ◌>>=◌ ◌>>◌
  abbrev pub ◌>>=◌ : {A B : Type 0} → Op D A → (A → Op D B) → Op D B
  m >>= k = λ s. follow (m s) k

  abbrev pub ◌>>◌ : {B : Type 0} → Op D (Unit {0}) → Op D B → Op D B
  m >> k = m >>= λ _. k

  -- `.and_then(|decision| decision.approved_notional_usd)`
  abbrev pub approved_notional : StoredIntent D → Option D
  approved_notional stored = elim stored.risk_decision [
    | none ↦ none
    | some decision ↦ decision.approved_notional_usd
  ]

  module _ (ops : DecimalOps D) (sha256 : List ℕ → List ℕ) (gateway : Gateway D)
      (clock : ℕ → Timestamp) where
    -- The answer to the emergency close.
    abbrev pub close_answered : ℕ → Result GatewayFailure (Unit {0}) → Op D (Unit {0})
    close_answered id (ok _) s = mark_live_execution_closed (clock 3) id s
    close_answered id (err close_error) s =
        mark_live_reconciliation_required (clock 3) id (gateway_error_text close_error) s
    close_answered id panic s = (panic, s)

    -- The rest of `handle_fill` when the protection has failed.
    abbrev pub close_unprotected :
        StoredIntent D → ConfirmedFill D → GatewayFailure → Op D (Unit {0})
    close_unprotected stored fill error =
        let id : ℕ = stored.intent.intent_id in
        do
          mark_live_emergency_closing (clock 2) id (gateway_error_text error)
          close_answered id (
              gateway.emergency_close stored.intent fill
                (deterministic_cloid sha256 id emergency_close))

    -- The answer to the protection request.
    abbrev pub protect_or_close :
        StoredIntent D → ConfirmedFill D → Result GatewayFailure (Unit {0}) → Op D (Unit {0})
    protect_or_close stored fill (ok _) = do
      record_live_protection_orders ops sha256 (clock 2) (clock 3) stored.intent fill
      mark_live_execution_protected (clock 4) stored.intent.intent_id
    protect_or_close stored fill (err error) = close_unprotected stored fill error
    protect_or_close stored fill panic = λ s. (panic, s)

    unfoldable pub handle_fill : StoredIntent D → ConfirmedFill D → Op D (Unit {0})
    handle_fill stored fill = do
      record_live_entry_fill (clock 1) stored.intent.intent_id fill
      protect_or_close stored fill (gateway.establish_protection stored.intent fill)

    -- The answer to the entry order.
    abbrev pub answered : StoredIntent D → Result GatewayFailure (ConfirmedFill D) → Op D (Unit {0})
    answered stored (ok fill) = handle_fill stored fill
    answered stored panic = λ s. (panic, s)
    answered stored (err (definite error)) =
        mark_live_execution_failed (clock 1) stored.intent.intent_id "entry_rejected" error
    answered stored (err (outcome_unknown error)) =
        mark_live_entry_unknown (clock 1) stored.intent.intent_id error

    -- A risk decision without a notional panics.
    abbrev pub enter : LiveExecution → StoredIntent D → Option D → Op D (Unit {0})
    enter execution stored none s = (panic, s)
    enter execution stored (some notional) s =
        answered stored (gateway.submit_entry stored.intent notional execution.entry_cloid) s

    abbrev pub entered : Option (LiveExecution × StoredIntent D) → Op D Bool
    entered none = done false
    entered (some (execution, stored)) = do
      enter execution stored (approved_notional stored)
      done true

    unfoldable pub run_once : String → Op D Bool
    run_once account s =
        if is_halted (reconciliation_state account s)
        then (ok false, s)
        else (claim_next_live_execution (clock 0) account >>= entered) s
