-- ===== src/Worker/Protects.antt =====
-- src/live_execution.rs: the end of a pass whose entry is filled and protected.
use hyperliquid_live_executo.Base.{ℕ, ◌≡◌, refl, true, false, List, String, none, some, any}
use hyperliquid_live_executo.Base.Result.{ok}
use hyperliquid_live_executo.Base.Time.{Timestamp}
use hyperliquid_live_executo.Decimal.{DecimalOps}
use hyperliquid_live_executo.Domain.Status
use hyperliquid_live_executo.Live.Execution
use hyperliquid_live_executo.Live.Execution.{ConfirmedFill, LiveExecution, entry_filled}
use hyperliquid_live_executo.Store.State.{Store, StoredIntent}
use hyperliquid_live_executo.Store.Orders.{record_live_entry_fill, entry_order, collides}
use hyperliquid_live_executo.Store.Consistency.{IsConsistent}
use hyperliquid_live_executo.Store.Consistency.Steps.{submitting_row, claim-IsConsistent}
use hyperliquid_live_executo.Store.Consistency.Approval.{fill-IsConsistent}
use hyperliquid_live_executo.Store.Consistency.Success.{Rows, fill_ok}
use hyperliquid_live_executo.Worker.{Gateway, run_once, handle_fill}
use hyperliquid_live_executo.Worker.Settles
use hyperliquid_live_executo.Worker.Settles.{status_of}
use hyperliquid_live_executo.Worker.Closes.{follow_ok, claim_orders}
use hyperliquid_live_executo.Worker.{protect_or_close}
use hyperliquid_live_executo.Store.Orders.{record_live_protection_orders}
use hyperliquid_live_executo.Store.Transitions.{mark_live_execution_protected}
use hyperliquid_live_executo.Store.Consistency.Success.{Rows}
use hyperliquid_live_executo.Store.Consistency.Steps.{Same}
use hyperliquid_live_executo.Store.Consistency.Untouched.{protection-Same, protection-IsConsistent}

module _ {D : Type 0} where
  module _ (ops : DecimalOps D) (sha256 : List ℕ → List ℕ) (gateway : Gateway D)
      (clock : ℕ → Timestamp) (account : String) where
    Same-Rows :
        (id : ℕ) (e : LiveExecution) (r : StoredIntent D) (s t : Store D)
        → Same s t
        → Rows id e r s
        → Rows id e r t
    Same-Rows id e r s t same rows = rw (same.0, same.1) rows

    -- The end of a pass after the protection has been established.
    protects :
        (t : Store D) (e : LiveExecution) (r stored : StoredIntent D) (fill : ConfirmedFill D)
        → IsConsistent t
        → Rows stored.intent.intent_id e r t
        → Execution.same_status e.status entry_filled ≡ true
        → Status.same_status r.status Status.executing ≡ true
        → (record_live_protection_orders ops sha256 (clock 2) (clock 3) stored.intent fill t).0
          ≡ ok tt
        → let out = protect_or_close ops sha256 gateway clock stored fill (ok tt) t in
          (out.0 ≡ ok tt) × (status_of stored.intent.intent_id out.1 ≡ some Execution.protected)
    unfolding mark_live_execution_protected
    protects t e r stored fill c rows se sr recorded =
        let u =
          (record_live_protection_orders ops sha256 (clock 2) (clock 3) stored.intent fill t).1 in
        rw
          (follow_ok ops sha256 gateway clock account tt
            (record_live_protection_orders ops sha256 (clock 2) (clock 3) stored.intent fill t)
            (λ _. mark_live_execution_protected (clock 4) stored.intent.intent_id) recorded)
          (Settles.finish_settles ops sha256 gateway clock account (clock 4) stored.intent.intent_id
            entry_filled Execution.protected Status.executing Status.completed "protection_verified"
            none false u e r
            (protection-IsConsistent ops sha256 (clock 2) (clock 3) stored.intent fill t c)
            (Same-Rows stored.intent.intent_id e r t u
              (protection-Same ops sha256 (clock 2) (clock 3) stored.intent fill t) rows)
            se sr)

    -- If a pass can claim an execution, its entry order is filled, no stored order collides with that
    -- order, the protection is established, and its orders are recorded, then the pass returns `true`
    -- and leaves the execution protected.
    pub protected_settles :
        (s : Store D) (e : LiveExecution) (r : StoredIntent D) (notional : D)
        (fill : ConfirmedFill D)
        → Settles.Ready ops sha256 gateway clock account s e r notional
        → gateway.submit_entry r.intent notional e.entry_cloid ≡ ok fill
        → any (collides (entry_order (clock 1) r.intent.intent_id e.entry_cloid fill)) s.orders
          ≡ false
        → gateway.establish_protection r.intent fill ≡ ok tt
        → (record_live_protection_orders ops sha256
            (clock 2)
            (clock 3)
            r.intent
            fill
            (record_live_entry_fill
              (clock 1)
              r.intent.intent_id
              fill
              (Settles.after_claim ops sha256 gateway clock account s)).1).0
          ≡ ok tt
        → let out = run_once ops sha256 gateway clock account s in
          (out.0 ≡ ok true) × (status_of r.intent.intent_id out.1 ≡ some Execution.protected)
    unfolding handle_fill
    protected_settles s e r notional fill h answer free established recorded =
        let u = Settles.after_claim ops sha256 gateway clock account s in
        let c = claim-IsConsistent (clock 0) account s h.0 in
        let filled =
          fill_ok (clock 1) r.intent.intent_id fill u _ _ c
            (Settles.claimed-Rows ops sha256 gateway clock account s e r notional h) refl refl
            (rw (claim_orders ops sha256 gateway clock account s) free) in
        let now_protected =
          protects _ _ _ (submitting_row (clock 0) r) fill
            (fill-IsConsistent (clock 1) r.intent.intent_id fill u c) filled.1 refl refl recorded in
        rw
          (
            Settles.passes ops sha256 gateway clock account s e r notional h,
            answer,
            established,
            follow_ok ops sha256 gateway clock account tt
                (record_live_entry_fill (clock 1) r.intent.intent_id fill u)
                (λ _.
                  protect_or_close ops sha256 gateway clock (submitting_row (clock 0) r) fill
                    (ok tt))
                filled.0,
          )
          (Settles.ends ops sha256 gateway clock account r.intent.intent_id _ _ now_protected.0
            now_protected.1)
