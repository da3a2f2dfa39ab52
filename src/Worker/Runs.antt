-- ===== src/Worker/Runs.antt =====
-- src/live_execution.rs: the passes of the worker are runs of the methods of the store.
use hyperliquid_live_executo.Base.{
  ℕ, Bool, true, false, List, String, Option, none, some, if◌then◌else◌,
}
use hyperliquid_live_executo.Base.Result.{Result, ok, err, panic}
use hyperliquid_live_executo.Base.Time.{Timestamp}
use hyperliquid_live_executo.Decimal.{DecimalOps}
use hyperliquid_live_executo.Live.Execution.{
  ConfirmedFill, GatewayFailure, LiveExecution, definite, outcome_unknown, gateway_error_text,
}
use hyperliquid_live_executo.Live.Cloid.{emergency_close, deterministic_cloid}
use hyperliquid_live_executo.Store.State.{Store, StoreError, StoredIntent}
use hyperliquid_live_executo.Store.Executions.{claim_next_live_execution}
use hyperliquid_live_executo.Store.Orders.{record_live_entry_fill, record_live_protection_orders}
use hyperliquid_live_executo.Store.Reconciliation.{reconciliation_state}
use hyperliquid_live_executo.Store.Transitions.{
  mark_live_emergency_closing, mark_live_execution_protected,
}
use hyperliquid_live_executo.Store.Reach
use hyperliquid_live_executo.Store.Reach.{Reachable}
use hyperliquid_live_executo.Worker.{
  Gateway, follow, done, run_once, entered, enter, answered, handle_fill, close_unprotected,
  close_answered, protect_or_close, approved_notional, is_halted,
}

module _ {D : Type 0} (ops : DecimalOps D) (sha256 : List ℕ → List ℕ) where
  abbrev Goes : Store D → Type 0
  Goes t = Reachable ops sha256 t

  follow-Goes :
      {A B : Type 0} (p : Result StoreError A × Store D)
      (k : A → Store D → Result StoreError B × Store D)
      → Goes p.1
      → ((a : A) (t : Store D) → Goes t → Goes (k a t).1)
      → Goes (follow p k).1
  follow-Goes (ok a, t) k r h = h a t r
  follow-Goes (err e, t) k r h = r
  follow-Goes (panic, t) k r h = r

  module _ (gateway : Gateway D) (clock : ℕ → Timestamp) where
    close_answered-Goes :
        (id : ℕ) (answer : Result GatewayFailure (Unit {0})) (s : Store D)
        → Goes s
        → Goes (close_answered ops sha256 gateway clock id answer s).1
    close_answered-Goes id (ok _) s r = Reach.next r (Reach.close _ _ _)
    close_answered-Goes id (err failure) s r = Reach.next r (Reach.lose_close _ _ _ _)
    close_answered-Goes id panic s r = r

    close_unprotected-Goes :
        (stored : StoredIntent D) (fill : ConfirmedFill D) (error : GatewayFailure) (s : Store D)
        → Goes s
        → Goes (close_unprotected ops sha256 gateway clock stored fill error s).1
    close_unprotected-Goes stored fill error s r =
        let id = stored.intent.intent_id in
        follow-Goes (mark_live_emergency_closing (clock 2) id (gateway_error_text error) s)
          (λ _. close_answered ops sha256 gateway clock id (
            gateway.emergency_close stored.intent fill
              (deterministic_cloid sha256 id emergency_close)))
          (Reach.next r (Reach.close_in_emergency (clock 2) id (gateway_error_text error) s))
          (λ _ t q. close_answered-Goes id _ t q)

    handle_fill-Goes :
        (stored : StoredIntent D) (fill : ConfirmedFill D) (s : Store D)
        → Goes s
        → Goes (handle_fill ops sha256 gateway clock stored fill s).1
    unfolding handle_fill
    handle_fill-Goes stored fill s r =
        follow-Goes (record_live_entry_fill (clock 1) stored.intent.intent_id fill s)
          (λ _.
            protect_or_close ops sha256 gateway clock stored fill
              (gateway.establish_protection stored.intent fill))
          (Reach.next r (Reach.fill (clock 1) stored.intent.intent_id fill s))
          (λ _ t q. protection (gateway.establish_protection stored.intent fill) t q)
      where
        protection :
            (answer : Result GatewayFailure (Unit {0})) (t : Store D)
            → Goes t
            → Goes (protect_or_close ops sha256 gateway clock stored fill answer t).1
        protection panic t q = q
        protection (ok _) t q =
            follow-Goes
              (record_live_protection_orders ops sha256 (clock 2) (clock 3) stored.intent fill t)
              (λ _. mark_live_execution_protected (clock 4) stored.intent.intent_id)
              (Reach.next q (Reach.protection_orders (clock 2) (clock 3) stored.intent fill t))
              (λ _ u p. Reach.next p (Reach.protect (clock 4) stored.intent.intent_id u))
        protection (err error) t q = close_unprotected-Goes stored fill error t q

    answered-Goes :
        (stored : StoredIntent D) (answer : Result GatewayFailure (ConfirmedFill D)) (s : Store D)
        → Goes s
        → Goes (answered ops sha256 gateway clock stored answer s).1
    answered-Goes stored panic s r = r
    answered-Goes stored (ok fill) s r = handle_fill-Goes stored fill s r
    answered-Goes stored (err (definite error)) s r = Reach.next r (Reach.fail_entry _ _ _ _ _)
    answered-Goes stored (err (outcome_unknown error)) s r = Reach.next r (Reach.lose_entry _ _ _ _)

    enter-Goes :
        (execution : LiveExecution) (stored : StoredIntent D) (notional : Option D) (s : Store D)
        → Goes s
        → Goes (enter ops sha256 gateway clock execution stored notional s).1
    enter-Goes execution stored none s r = r
    enter-Goes execution stored (some notional) s r =
        answered-Goes stored (gateway.submit_entry stored.intent notional execution.entry_cloid) s r

    entered-Goes :
        (found : Option (LiveExecution × StoredIntent D)) (s : Store D)
        → Goes s
        → Goes (entered ops sha256 gateway clock found s).1
    entered-Goes none s r = r
    entered-Goes (some (execution, stored)) s r =
        follow-Goes (enter ops sha256 gateway clock execution stored (approved_notional stored) s)
          (λ _. done {A = Bool} true) (enter-Goes execution stored (approved_notional stored) s r)
          (λ _ t q. q)

    -- A pass of the worker leads from a store that the methods of the store reach to another one,
    -- however the gateway answers and wherever the pass fails.
    pub run_once-Reachable :
        (account : String) (s : Store D)
        → Reachable ops sha256 s
        → Reachable ops sha256 (run_once ops sha256 gateway clock account s).1
    unfolding run_once
    run_once-Reachable account s r = if-Goes (is_halted (reconciliation_state account s))
      where
        if-Goes :
            (halted : Bool)
            → Goes
                (if halted
                  then (ok false, s)
                  else (follow
                      (claim_next_live_execution (clock 0) account s)
                      (entered ops sha256 gateway clock))).1
        if-Goes true = r
        if-Goes false =
            follow-Goes (claim_next_live_execution (clock 0) account s)
              (entered ops sha256 gateway clock) (Reach.next r (Reach.claim (clock 0) account s))
              (λ found t q. entered-Goes found t q)
