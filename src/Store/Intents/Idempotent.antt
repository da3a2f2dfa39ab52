-- ===== src/Store/Intents/Idempotent.antt =====
-- src/store.rs: the repeated submission of an intent under one idempotency key.
use hyperliquid_live_executo.Base.{
  ◌≡◌, Bool, true, false, List, [], ◌∷◌, ◌++◌, String, Option, none, some, arith,
}
use text.Mathlib.TextPositions.{eq_refl}
use hyperliquid_live_executo.Base.Result.{ok}
use hyperliquid_live_executo.Base.Table
use hyperliquid_live_executo.Base.Time.{Timestamp}
use hyperliquid_live_executo.Decimal.{DecimalOps}
use hyperliquid_live_executo.Decimal.Order.{OrderLaws}
use hyperliquid_live_executo.Domain.Confirmation.{ManualConfirmation}
use hyperliquid_live_executo.Domain.Intent.{TradeIntent}
use hyperliquid_live_executo.Domain.Intent.Equality.{same_intent, same_intent_refl}
use hyperliquid_live_executo.Risk.Decision.{RiskDecision}
use hyperliquid_live_executo.Store.State.{Store, StoredIntent}
use hyperliquid_live_executo.Store.Intents.{has_key, find_by_idempotency_key, submit_shadow_intent}

module _ {D : Type 0} where
  first-append :
      (p : StoredIntent D → Bool) (xs : List (StoredIntent D)) (y : StoredIntent D)
      → Table.first p xs ≡ none
      → p y ≡ true
      → Table.first p (xs ++ y ∷ []) ≡ some y
  first-append p [] y h hy = ground arith
  first-append p (x ∷ xs) y h hy = ground (arith, first-append p xs y)

  module _ (ops : DecimalOps D) (laws : OrderLaws ops) (now : Timestamp) (i : TradeIntent D)
      (key : String) (d : RiskDecision D) (m : Option ManualConfirmation) where
    submit_found :
        (s : Store D) (r : StoredIntent D)
        → find_by_idempotency_key i.strategy_id key s ≡ some r
        → same_intent ops r.intent i ≡ true
        → submit_shadow_intent ops now i key d m s ≡ (ok (r, false), s)
    unfolding submit_shadow_intent
    submit_found s r h same = ground arith

    -- A submission that succeeds leaves a row for the same intent under its key.
    submit_leaves :
        (s t : Store D) (r : StoredIntent D) (b : Bool)
        → submit_shadow_intent ops now i key d m s ≡ (ok (r, b), t)
        → (find_by_idempotency_key i.strategy_id key t ≡ some r)
          × (same_intent ops r.intent i ≡ true)
    unfolding submit_shadow_intent
    submit_leaves s t r b h = ground (
      arith,
      first-append (has_key i.strategy_id key) s.intents r,
      same_intent_refl ops laws i,
      eq_refl i.strategy_id,
      eq_refl key,
    )

  -- A submission that has succeeded may be repeated under its idempotency key, at any time, with
  -- any decision and confirmation: the row stored first is returned, marked as not new, and the
  -- store stays as it is.
  pub submit_again :
      (ops : DecimalOps D) (laws : OrderLaws ops) (now later : Timestamp) (i : TradeIntent D)
      (key : String) (d e : RiskDecision D) (m n : Option ManualConfirmation) (s t : Store D)
      (r : StoredIntent D) (b : Bool)
      → submit_shadow_intent ops now i key d m s ≡ (ok (r, b), t)
      → submit_shadow_intent ops later i key e n t ≡ (ok (r, false), t)
  submit_again ops laws now later i key d e m n s t r b h =
      let left = submit_leaves ops laws now i key d m s t r b h in
      submit_found ops laws later i key e n t r left.0 left.1
