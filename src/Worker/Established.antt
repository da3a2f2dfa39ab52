-- ===== src/Worker/Established.antt =====
-- src/live_execution.rs: what an execution that ends protected rests on.
use hyperliquid_live_executo.Base.{
  ℕ, ◌≡◌, refl, Bool, true, false, List, String, Option, none, some, any,
}
use hyperliquid_live_executo.Base.Result.{Result, ok, err, panic}
use hyperliquid_live_executo.Base.Time.{Timestamp}
use hyperliquid_live_executo.Decimal.{DecimalOps}
use hyperliquid_live_executo.Domain.Status
use hyperliquid_live_executo.Live.Cloid.{deterministic_cloid, emergency_close}
use hyperliquid_live_executo.Live.Execution
use hyperliquid_live_executo.Live.Execution.{
  ConfirmedFill, GatewayFailure, LiveExecution, LiveExecutionStatus, entry_filled,
  emergency_closing,
}
use hyperliquid_live_executo.Store.State.{Store, StoreError, StoredIntent}
use hyperliquid_live_executo.Store.Orders.{record_live_entry_fill, entry_order, collides}
use hyperliquid_live_executo.Store.Consistency.Steps.{submitting_row, claim-IsConsistent}
use hyperliquid_live_executo.Store.Consistency.Approval.{fill-IsConsistent}
use hyperliquid_live_executo.Store.Consistency.Success.{fill_ok, finish_ok}
use hyperliquid_live_executo.Store.Transitions.{mark_live_emergency_closing}
use hyperliquid_live_executo.Worker.{
  Gateway, run_once, handle_fill, protect_or_close, close_answered, gateway_error_text,
}
use hyperliquid_live_executo.Worker.Settles
use hyperliquid_live_executo.Worker.Settles.{status_of}
use hyperliquid_live_executo.Worker.Closes.{follow_ok, claim_orders, unprotected_settles}

not_both : (x : Result StoreError Bool) → x ≡ ok true → x ≡ panic → ⊥
not_both x p q = cc

not_closed :
    (x : Option LiveExecutionStatus) → x ≡ some Execution.protected → x ≡ some Execution.closed → ⊥
not_closed x p q = cc

not_required :
    (x : Option LiveExecutionStatus)
    → x ≡ some Execution.protected
    → x ≡ some Execution.reconciliation_required
    → ⊥
not_required x p q = cc

module _ {D : Type 0} (ops : DecimalOps D) (sha256 : List ℕ → List ℕ) (gateway : Gateway D)
    (clock : ℕ → Timestamp) (account : String) (s : Store D) (e : LiveExecution)
    (r : StoredIntent D) (notional : D) (fill : ConfirmedFill D)
    (ready : Settles.Ready ops sha256 gateway clock account s e r notional)
    (answer : gateway.submit_entry r.intent notional e.entry_cloid ≡ ok fill)
    (free : any (collides (entry_order (clock 1) r.intent.intent_id e.entry_cloid fill)) s.orders
      ≡ false) where
  -- A protection that panics ends the pass in a panic.
  protection_panics :
      gateway.establish_protection r.intent fill ≡ panic
      → (run_once ops sha256 gateway clock account s).0 ≡ panic
  unfolding handle_fill
  protection_panics p =
      let u = Settles.after_claim ops sha256 gateway clock account s in
      let c = claim-IsConsistent (clock 0) account s ready.0 in
      let filled =
        fill_ok (clock 1) r.intent.intent_id fill u _ _ c
          (Settles.claimed-Rows ops sha256 gateway clock account s e r notional ready) refl refl
          (rw (claim_orders ops sha256 gateway clock account s) free) in
      rw
        (
          Settles.passes ops sha256 gateway clock account s e r notional ready,
          answer,
          p,
          follow_ok ops sha256 gateway clock account tt
              (record_live_entry_fill (clock 1) r.intent.intent_id fill u)
              (λ _.
                protect_or_close ops sha256 gateway clock (submitting_row (clock 0) r) fill panic)
              filled.0,
        )
        refl

  -- So does an emergency close that panics.
  close_panics :
      (failure : GatewayFailure)
      → gateway.establish_protection r.intent fill ≡ err failure
      → gateway.emergency_close r.intent fill
          (deterministic_cloid sha256 r.intent.intent_id emergency_close)
        ≡ panic
      → (run_once ops sha256 gateway clock account s).0 ≡ panic
  unfolding handle_fill mark_live_emergency_closing
  close_panics failure unprotected close =
      let u = Settles.after_claim ops sha256 gateway clock account s in
      let c = claim-IsConsistent (clock 0) account s ready.0 in
      let id = r.intent.intent_id in
      let filled =
        fill_ok (clock 1) id fill u _ _ c
          (Settles.claimed-Rows ops sha256 gateway clock account s e r notional ready) refl refl
          (rw (claim_orders ops sha256 gateway clock account s) free) in
      let t = (record_live_entry_fill (clock 1) id fill u).1 in
      let opened =
        finish_ok (clock 2) id entry_filled emergency_closing Status.executing Status.executing
          "protection_failed" (some (gateway_error_text failure)) true t _ _
          (fill-IsConsistent (clock 1) id fill u c) filled.1 refl refl in
      rw
        (
          Settles.passes ops sha256 gateway clock account s e r notional ready,
          answer,
          unprotected,
          follow_ok ops sha256 gateway clock account tt (record_live_entry_fill (clock 1) id fill u)
              (λ _.
                protect_or_close ops sha256 gateway clock (submitting_row (clock 0) r) fill
                  (err failure))
              filled.0,
          close,
          follow_ok ops sha256 gateway clock account tt
              (mark_live_emergency_closing (clock 2) id (gateway_error_text failure) t)
              (λ _. close_answered ops sha256 gateway clock id panic) opened.0,
        )
        refl

  -- If a pass that can claim an execution, of which the entry order is filled and collides with no
  -- stored order, returns `true` and leaves the execution protected, then the gateway has
  -- established the protection.
  pub protected-established :
      (run_once ops sha256 gateway clock account s).0 ≡ ok true
      → status_of r.intent.intent_id (run_once ops sha256 gateway clock account s).1
        ≡ some Execution.protected
      → gateway.establish_protection r.intent fill ≡ ok tt
  protected-established done status = split (gateway.establish_protection r.intent fill) refl
    where
      closed :
          (failure : GatewayFailure)
          → gateway.establish_protection r.intent fill ≡ err failure
          → (c : Result GatewayFailure (Unit {0}))
          → gateway.emergency_close r.intent fill
              (deterministic_cloid sha256 r.intent.intent_id emergency_close)
            ≡ c
          → ⊥
      closed failure p panic q = not_both _ done (close_panics failure p q)
      closed failure p (ok _) q =
          let settled =
            unprotected_settles ops sha256 gateway clock account s e r notional fill failure none
              ready answer free p q in
          not_closed _ status settled.1
      closed failure p (err x) q =
          let settled =
            unprotected_settles ops sha256 gateway clock account s e r notional fill failure
              (some x) ready answer free p q in
          not_required _ status settled.1

      split :
          (p : Result GatewayFailure (Unit {0}))
          → gateway.establish_protection r.intent fill ≡ p
          → gateway.establish_protection r.intent fill ≡ ok tt
      split (ok _) p = p
      split (err failure) p = absurd (closed failure p _ refl)
      split panic p = absurd (not_both _ done (protection_panics p))
