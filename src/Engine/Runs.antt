-- ===== src/Engine/Runs.antt =====
-- src/engine.rs: the calls of the engine are runs of the methods of the store.
use hyperliquid_live_executo.Base.{
  refl, ℕ, Bool, List, String, Option, none, some, inl, inr, Bool-cases,
}
use hyperliquid_live_executo.Base.Result.{Result, ok, err, panic}
use hyperliquid_live_executo.Base.Time.{Timestamp}
use hyperliquid_live_executo.Decimal.{DecimalOps}
use hyperliquid_live_executo.Domain.Intent.{TradeIntent}
use hyperliquid_live_executo.Domain.Status
use hyperliquid_live_executo.Domain.Validation
use hyperliquid_live_executo.Domain.Validation.{IntentValidationError}
use hyperliquid_live_executo.Domain.Confirmation.{ManualConfirmation}
use hyperliquid_live_executo.Risk.Admission.{evaluate_admission}
use hyperliquid_live_executo.Risk.Decision.{RiskDecision, RiskReasonCode, is_approved}
use hyperliquid_live_executo.Store.State.{Store, StoreError, StoredIntent}
use hyperliquid_live_executo.Store.Intents.{get_intent, submit_shadow_intent, transition_intent}
use hyperliquid_live_executo.Store.Confirm.{confirm_intent, confirm_intent_for_execution}
use hyperliquid_live_executo.Store.Reach
use hyperliquid_live_executo.Store.Reach.{Reachable}
use hyperliquid_live_executo.Mainnet.{MainnetAccountSnapshot}
use hyperliquid_live_executo.Engine.{
  Engine, EngineError, SnapshotView, Call, lift, guard, validated, ensure_reconciliation_ready,
  ensure_no_existing_position, submit, submit_decided, submit_evaluated, confirm, confirm_on,
  confirm_found, confirm_evaluated, rejected_after, request_expiry, confirmation_request,
  confirmation_serialization,
}

module _ {D : Type 0} (ops : DecimalOps D) (sha256 : List ℕ → List ℕ) where
  abbrev Goes : Store D → Type 0
  Goes t = Reachable ops sha256 t

  lift-Goes : {A : Type 0} (p : Result StoreError A × Store D) → Goes p.1 → Goes (lift p).1
  lift-Goes (ok a, t) r = r
  lift-Goes (err e, t) r = r
  lift-Goes (panic, t) r = r

  guard-Goes :
      {B : Type 0} (c : Result EngineError (Unit {0})) (k : Call D B) (s : Store D)
      → Goes s
      → Goes (k s).1
      → Goes (guard c k s).1
  guard-Goes (ok x) k s r h = h
  guard-Goes (err e) k s r h = r
  guard-Goes panic k s r h = r

  validated-Goes :
      {B : Type 0} (c : Result IntentValidationError (Unit {0})) (k : Call D B) (s : Store D)
      → Goes s
      → Goes (k s).1
      → Goes (validated c k s).1
  validated-Goes (ok x) k s r h = h
  validated-Goes (err e) k s r h = r
  validated-Goes panic k s r h = r

  module _ (digest_of : TradeIntent D → RiskDecision D → Timestamp → Option String)
      (view : MainnetAccountSnapshot D → SnapshotView D) (clock : ℕ → Timestamp)
      (engine : Engine D) where
    submits :
        (intent : TradeIntent D) (key : String) (decision : RiskDecision D)
        (confirmation : Option ManualConfirmation) (s : Store D)
        → Goes s
        → Goes (lift (submit_shadow_intent ops (clock 3) intent key decision confirmation s)).1
    submits intent key decision confirmation s r =
        lift-Goes (submit_shadow_intent ops (clock 3) intent key decision confirmation s)
          (Reach.next r (Reach.submit (clock 3) intent key decision confirmation s))

    decided-Goes :
        (intent : TradeIntent D) (key : String) (decision : RiskDecision D) (s : Store D)
        → Goes s
        → Goes (submit_decided ops digest_of view clock engine intent key decision s).1
    decided-Goes intent key decision s r = elim (Bool-cases (is_approved decision)) [
      | inl fine ↦ rw fine (
          digested
            (digest_of intent decision (request_expiry ops digest_of view clock engine intent)))
      | inr bad ↦ rw bad (submits intent key decision none s r)
    ]
      where
        digested :
            (digest : Option String)
            → Goes
                (elim digest as (λ _. Result EngineError (StoredIntent D × Bool) × Store D) [
                  | none ↦ (err confirmation_serialization, s)
                  | some digest ↦ lift (
                      submit_shadow_intent ops
                        (clock 3)
                        intent
                        key
                        decision
                        (some (confirmation_request ops digest_of view clock engine intent digest))
                        s)
                ]).1
        digested none = r
        digested (some digest) = submits intent key decision _ s r

    -- A submission to the engine leads from a store that the methods of the store reach to another
    -- one, whatever it returns.
    pub submit-Reachable :
        (intent : TradeIntent D) (key : String) (s : Store D)
        → Reachable ops sha256 s
        → Reachable ops sha256 (submit ops digest_of view clock engine intent key s).1
    unfolding submit
    submit-Reachable intent key s r =
        guard-Goes (ensure_reconciliation_ready engine (clock 0) s) _ s r (
          validated-Goes (Validation.validate ops intent (clock 1)) _ s r
            (evaluated (evaluate_admission ops engine.policy intent)))
      where
        evaluated :
            (decision : Option (RiskDecision D))
            → Goes (submit_evaluated ops digest_of view clock engine intent key decision s).1
        evaluated none = r
        evaluated (some decision) = decided-Goes intent key decision s r

    approved-Goes :
        (id : ℕ) (digest by : String) (account : Option String) (s : Store D)
        → Goes s
        → Goes (confirm_on sha256 clock account id digest by s).1
    approved-Goes id digest by none s r =
        lift-Goes (confirm_intent (clock 2) id digest by s)
          (Reach.next r (Reach.confirm (clock 2) id digest by s))
    approved-Goes id digest by (some account) s r =
        lift-Goes (confirm_intent_for_execution sha256 (clock 2) id digest by account s)
          (Reach.next r (Reach.approve (clock 2) id digest by account s))

    rejected-Goes :
        (reasons : List RiskReasonCode) (p : Result StoreError (Option (StoredIntent D)) × Store D)
        → Goes p.1
        → Goes (rejected_after reasons p).1
    rejected-Goes reasons (ok a, t) r = r
    rejected-Goes reasons (err e, t) r = r
    rejected-Goes reasons (panic, t) r = r

    evaluated-Goes :
        (id : ℕ) (digest by : String) (intent : TradeIntent D) (fresh : Option (RiskDecision D))
        (s : Store D)
        → Goes s
        → Goes
            (confirm_evaluated ops digest_of view clock engine sha256 id digest by intent fresh s).1
    evaluated-Goes id digest by intent none s r = r
    evaluated-Goes id digest by intent (some fresh) s r = elim (Bool-cases (is_approved fresh)) [
      | inl fine ↦ rw fine (
          guard-Goes (ensure_no_existing_position ops digest_of view clock engine intent.symbol s)
            (confirm_on sha256 clock engine.live_execution_account id digest by) s r
            (approved-Goes id digest by engine.live_execution_account s r))
      | inr bad ↦ rw bad (
          rejected-Goes fresh.reason_codes
            (transition_intent (clock 2) id Status.risk_rejected
              (some "confirmation_pre_trade_rejected") s)
            (Reach.next r (
              Reach.transition (clock 2) id Status.risk_rejected
                (some "confirmation_pre_trade_rejected") s refl)))
    ]

    found-Goes :
        (id : ℕ) (digest by : String) (stored : Option (StoredIntent D)) (s : Store D)
        → Goes s
        → Goes (confirm_found ops digest_of view clock engine sha256 id digest by stored s).1
    found-Goes id digest by none s r = r
    found-Goes id digest by (some stored) s r =
        validated-Goes (Validation.validate ops stored.intent (clock 1)) _ s r (
          evaluated-Goes id digest by stored.intent
            (evaluate_admission ops engine.policy stored.intent) s r)

    -- A confirmation through the engine leads from a store that the methods of the store reach to
    -- another one, whatever it returns.
    pub confirm-Reachable :
        (id : ℕ) (digest by : String) (s : Store D)
        → Reachable ops sha256 s
        → Reachable ops sha256 (confirm ops digest_of view clock engine sha256 id digest by s).1
    unfolding confirm
    confirm-Reachable id digest by s r =
        guard-Goes (ensure_reconciliation_ready engine (clock 0) s)
          (λ u.
            confirm_found ops digest_of view clock engine sha256 id digest by (get_intent id u) u)
          s r (found-Goes id digest by (get_intent id s) s r)
