-- ===== src/Worker/Closes.antt =====
-- src/live_execution.rs: the end of a pass whose entry is filled and cannot be protected.
use hyperliquid_live_executo.Base.{
  ℕ, ◌≡◌, refl, true, false, List, String, Option, none, some, arith, any,
}
use hyperliquid_live_executo.Base.Result.{Result, ok, err, panic}
use hyperliquid_live_executo.Base.Time.{Timestamp}
use hyperliquid_live_executo.Decimal.{DecimalOps}
use hyperliquid_live_executo.Domain.Status
use hyperliquid_live_executo.Live.Cloid.{emergency_close, deterministic_cloid}
use hyperliquid_live_executo.Live.Execution
use hyperliquid_live_executo.Live.Execution.{
  ConfirmedFill, GatewayFailure, LiveExecution, LiveExecutionStatus, gateway_error_text,
  entry_filled, emergency_closing,
}
use hyperliquid_live_executo.Store.State.{Store, StoreError, StoredIntent}
use hyperliquid_live_executo.Store.Tx.{Op}
use hyperliquid_live_executo.Store.Executions.{claim_next_live_execution}
use hyperliquid_live_executo.Store.Orders.{record_live_entry_fill, entry_order, collides}
use hyperliquid_live_executo.Store.Transitions.{
  mark_live_emergency_closing, mark_live_execution_closed, mark_live_reconciliation_required,
}
use hyperliquid_live_executo.Store.Consistency.{IsConsistent}
use hyperliquid_live_executo.Store.Consistency.Steps.{
  submitting_row, claim-IsConsistent, finish-IsConsistent,
}
use hyperliquid_live_executo.Store.Consistency.Approval.{fill-IsConsistent}
use hyperliquid_live_executo.Store.Consistency.Success.{Rows, finish_ok, fill_ok}
use hyperliquid_live_executo.Worker.{
  Gateway, run_once, handle_fill, close_unprotected, close_answered, follow,
}
use hyperliquid_live_executo.Worker.Settles
use hyperliquid_live_executo.Worker.Settles.{status_of}

module _ {D : Type 0} where
  module _ (ops : DecimalOps D) (sha256 : List ℕ → List ℕ) (gateway : Gateway D)
      (clock : ℕ → Timestamp) (account : String) where
    pub claim_orders :
        (s : Store D) → (Settles.after_claim ops sha256 gateway clock account s).orders ≡ s.orders
    unfolding claim_next_live_execution
    claim_orders s = ground arith

    pub follow_ok :
        {A B : Type 0} (a : A) (p : Result StoreError A × Store D) (k : A → Op D B)
        → p.0 ≡ ok a
        → follow p k ≡ k a p.1
    follow_ok a (ok b, t) k h = ground arith
    follow_ok a (err x, t) k h = ground arith
    follow_ok a (panic, t) k h = ground arith

    -- An answer that is no panic, by its failure.
    abbrev pub replied : Option GatewayFailure → Result GatewayFailure (Unit {0})
    replied none = ok tt
    replied (some failure) = err failure

    abbrev pub closing_status : Option GatewayFailure → LiveExecutionStatus
    closing_status none = Execution.closed
    closing_status (some failure) = Execution.reconciliation_required

    -- The emergency close has been answered, and the execution is closing.
    closed_as :
        (t : Store D) (id : ℕ) (e : LiveExecution) (r : StoredIntent D)
        (answer : Option GatewayFailure)
        → IsConsistent t
        → Rows id e r t
        → Execution.same_status e.status emergency_closing ≡ true
        → Status.same_status r.status Status.executing ≡ true
        → let out = close_answered ops sha256 gateway clock id (replied answer) t in
          (out.0 ≡ ok tt) × (status_of id out.1 ≡ some (closing_status answer))
    unfolding mark_live_execution_closed mark_live_reconciliation_required
    closed_as t id e r none c rows se sr =
        let finished =
          Settles.finish_settles ops sha256 gateway clock account (clock 3) id emergency_closing
            Execution.closed Status.executing Status.failed "unprotected_entry_emergency_closed"
            none true t e r c rows se sr in
        finished
    closed_as t id e r (some failure) c rows se sr =
        let finished =
          Settles.finish_settles ops sha256 gateway clock account (clock 3) id emergency_closing
            Execution.reconciliation_required Status.executing Status.failed
            "emergency_close_outcome_unknown" (some (gateway_error_text failure)) true t e r c rows
            se sr in
        finished

    -- `stored` is the row that the claim has read.
    closes :
        (t : Store D) (e : LiveExecution) (r stored : StoredIntent D) (fill : ConfirmedFill D)
        (failure : GatewayFailure) (answer : Option GatewayFailure)
        → IsConsistent t
        → Rows stored.intent.intent_id e r t
        → Execution.same_status e.status entry_filled ≡ true
        → Status.same_status r.status Status.executing ≡ true
        → gateway.emergency_close stored.intent fill
            (deterministic_cloid sha256 stored.intent.intent_id emergency_close)
          ≡ replied answer
        → let out = close_unprotected ops sha256 gateway clock stored fill failure t in
          (out.0 ≡ ok tt) × (status_of stored.intent.intent_id out.1 ≡ some (closing_status answer))
    unfolding mark_live_emergency_closing
    closes t e r stored fill failure answer c rows se sr close =
        let opened =
          finish_ok (clock 2) stored.intent.intent_id entry_filled emergency_closing
            Status.executing Status.executing "protection_failed"
            (some (gateway_error_text failure)) true t e r c rows se sr in
        rw
          (
            close,
            follow_ok tt
                (mark_live_emergency_closing (clock 2) stored.intent.intent_id
                  (gateway_error_text failure) t)
                (λ _.
                  close_answered ops sha256 gateway clock stored.intent.intent_id (replied answer))
                opened.0,
          )
          (closed_as _ stored.intent.intent_id _ _ answer
            (finish-IsConsistent (clock 2) stored.intent.intent_id entry_filled emergency_closing
              Status.executing Status.executing "protection_failed"
              (some (gateway_error_text failure)) true t c refl refl refl)
            opened.1 refl refl)

    -- If a pass can claim an execution, its entry order is filled, no stored order collides with that
    -- order, the protection fails, and the emergency close does not panic, then the pass returns
    -- `true` and leaves the execution closed where the emergency close succeeds and in need of
    -- reconciliation where it fails.
    pub unprotected_settles :
        (s : Store D) (e : LiveExecution) (r : StoredIntent D) (notional : D)
        (fill : ConfirmedFill D) (failure : GatewayFailure) (close : Option GatewayFailure)
        → Settles.Ready ops sha256 gateway clock account s e r notional
        → gateway.submit_entry r.intent notional e.entry_cloid ≡ ok fill
        → any (collides (entry_order (clock 1) r.intent.intent_id e.entry_cloid fill)) s.orders
          ≡ false
        → gateway.establish_protection r.intent fill ≡ err failure
        → gateway.emergency_close r.intent fill
            (deterministic_cloid sha256 r.intent.intent_id emergency_close)
          ≡ replied close
        → let out = run_once ops sha256 gateway clock account s in
          (out.0 ≡ ok true) × (status_of r.intent.intent_id out.1 ≡ some (closing_status close))
    unfolding handle_fill
    unprotected_settles s e r notional fill failure close h answer free unprotected closing =
        let u = Settles.after_claim ops sha256 gateway clock account s in
        let c = claim-IsConsistent (clock 0) account s h.0 in
        let filled =
          fill_ok (clock 1) r.intent.intent_id fill u _ _ c
            (Settles.claimed-Rows ops sha256 gateway clock account s e r notional h) refl refl
            (rw (claim_orders s) free) in
        let closed_now =
          closes _ _ _ (submitting_row (clock 0) r) fill failure close
            (fill-IsConsistent (clock 1) r.intent.intent_id fill u c) filled.1 refl refl closing in
        rw
          (
            Settles.passes ops sha256 gateway clock account s e r notional h,
            answer,
            unprotected,
            follow_ok tt (record_live_entry_fill (clock 1) r.intent.intent_id fill u)
                (λ _.
                  close_unprotected ops sha256 gateway clock (submitting_row (clock 0) r) fill
                    failure)
                filled.0,
          )
          (Settles.ends ops sha256 gateway clock account r.intent.intent_id _ _ closed_now.0
            closed_now.1)
