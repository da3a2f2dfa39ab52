-- ===== src/Api/Requests/Refusals.antt =====
-- src/api.rs and src/engine.rs: a request that is refused as malformed, or while the account is not
-- reconciled, has changed nothing.
use hyperliquid_live_executo.Base.{
  ℕ, ◌≡◌, ap, ◌⊎◌, Bool, true, false, List, String, Option, none, some, arith,
}
use hyperliquid_live_executo.Base.Result.{Result, ok, err, panic}
use hyperliquid_live_executo.Base.Time.{Timestamp}
use hyperliquid_live_executo.Decimal.{DecimalOps}
use hyperliquid_live_executo.Domain.Intent.{TradeIntent}
use hyperliquid_live_executo.Mainnet.{MainnetAccountSnapshot}
use hyperliquid_live_executo.Engine.{
  Engine, EngineError, SnapshotView, validation, reconciliation_blocked, submit, confirm,
}
use hyperliquid_live_executo.Risk.Decision.{RiskDecision}
use hyperliquid_live_executo.Store.State.{Store, StoreError}
use hyperliquid_live_executo.Api.Errors.{ApiError, Texts, from_store, from_engine, into_response}
use hyperliquid_live_executo.Api.Requests.{
  ApiState, Request, Handler, refuse_if, of_engine, of_store, handle, create, kill_switch,
  acknowledge, create_intent, confirm_intent, set_kill_switch, acknowledge_reconciliation,
  create_with, idempotency_key,
}

-- The errors of the engine that come before any write.
abbrev is_early : EngineError → Bool
is_early (validation _) = true
is_early (reconciliation_blocked _) = true
is_early _ = false

-- An error that comes early has left the store as it was.
record Early {D A : Type 0} (s : Store D) (p : Result EngineError A × Store D) : Type 0 where
  pub unchanged : (e : EngineError) (t : Store D) → p ≡ (err e, t) → is_early e ≡ true → t ≡ s

module _ {D : Type 0} (ops : DecimalOps D)
    (digest_of : TradeIntent D → RiskDecision D → Timestamp → Option String)
    (view : MainnetAccountSnapshot D → SnapshotView D) (clock : ℕ → Timestamp)
    (engine : Engine D) where
  submit-Early :
      (intent : TradeIntent D) (key : String) (s : Store D)
      → Early s (submit ops digest_of view clock engine intent key s)
  unfolding submit
  submit-Early intent key s = record { unchanged = λ e t h early. ground arith }

  confirm-Early :
      (sha256 : List ℕ → List ℕ) (id : ℕ) (digest by : String) (s : Store D)
      → Early s (confirm ops digest_of view clock engine sha256 id digest by s)
  unfolding confirm
  confirm-Early sha256 id digest by s = record { unchanged = λ e t h early. ground arith }

-- An error that is answered with the status 400 or 503.
abbrev pub IsRefusal : ApiError → Type 0
IsRefusal e = ((into_response e).0 ≡ 400) ⊎ ((into_response e).0 ≡ 503)

-- A refusal has left the store as it was.
record Safe {D A : Type 0} (s : Store D) (p : Result ApiError A × Store D) : Type 0 where
  pub unchanged : (e : ApiError) (t : Store D) → p ≡ (err e, t) → IsRefusal e → t ≡ s

refuse-Safe :
    {D A : Type 0} (refused : Bool) (message : String) (k : Handler D A) (s : Store D)
    → Safe s (k s)
    → Safe s (refuse_if refused message k s)
refuse-Safe true message k s h = record { unchanged = λ e t p refused. ground arith }
refuse-Safe false message k s h = h

module _ (texts : Texts) where
  -- No error of the store is answered so.
  store-not-refused : (e : StoreError) → IsRefusal (from_store texts e) → ⊥
  unfolding from_store into_response
  store-not-refused e h = ground arith

  engine-early : (e : EngineError) → IsRefusal (from_engine texts e) → is_early e ≡ true
  unfolding from_engine from_store into_response
  engine-early e h = ground arith

module _ {D : Type 0} (texts : Texts) where
  engine-Safe :
      {A B : Type 0} (f : A → B) (p : Result EngineError A × Store D) (s : Store D)
      → Early s p
      → Safe s (of_engine texts f p)
  engine-Safe f (ok a, u) s early = record { unchanged = λ e t h refused. absurd (ground arith) }
  engine-Safe f (panic, u) s early = record { unchanged = λ e t h refused. absurd (ground arith) }
  engine-Safe f (err x, u) s early = record {
    unchanged = λ e t h refused.
        let parts : (from_engine texts x ≡ e) × (u ≡ t) = ground arith in
        early.unchanged x t (ground arith) (engine-early texts x (rw parts.0 refused));
  }

  store-Safe :
      {A B : Type 0} (f : A → B) (p : Result StoreError A × Store D) (s : Store D)
      → Safe s (of_store texts f p)
  store-Safe f (ok a, u) s = record { unchanged = λ e t h refused. absurd (ground arith) }
  store-Safe f (panic, u) s = record { unchanged = λ e t h refused. absurd (ground arith) }
  store-Safe f (err x, u) s = record {
    unchanged = λ e t h refused.
        let same : from_store texts x ≡ e = ground arith in
        absurd (store-not-refused texts x (rw same refused));
  }

module _ {D : Type 0} (state : ApiState D) (clock : ℕ → Timestamp) where
  create-Safe :
      (key : Option String) (intent : TradeIntent D) (s : Store D)
      → Safe s (create_with state clock key intent s)
  create-Safe none intent s = record { unchanged = λ e t p refused. ground arith }
  create-Safe (some key) intent s =
      let submitted =
        submit-Early state.ops state.digest_of state.view clock state.engine intent key s in
      search (refuse-Safe, engine-Safe, submitted)

  handle-Safe : (request : Request D) (s : Store D) → Safe s (handle state clock request s)
  unfolding handle create_intent confirm_intent set_kill_switch acknowledge_reconciliation
  handle-Safe (create header intent) s = create-Safe (idempotency_key header) intent s
  handle-Safe (Request.confirm id digest by) s =
      let confirmed =
        confirm-Early state.ops state.digest_of state.view clock state.engine state.sha256 id digest
          by s in
      search (refuse-Safe, engine-Safe, confirmed)
  handle-Safe (kill_switch enabled reason) s = search (refuse-Safe, store-Safe)
  handle-Safe (acknowledge account reason by) s = search (refuse-Safe, store-Safe)

  -- A request that writes and is answered with the status 400 or 503, because the request is
  -- malformed, the intent is not valid, or the account is not reconciled, leaves the store as it was.
  pub refused_unchanged :
      (request : Request D) (s : Store D) (e : ApiError)
      → (handle state clock request s).0 ≡ err e
      → IsRefusal e
      → (handle state clock request s).1 ≡ s
  refused_unchanged request s e h refused =
      let after = (handle state clock request s).1 in
      (handle-Safe request s).unchanged e after (ap (λ r. (r, after)) h) refused
