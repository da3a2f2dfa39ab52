-- ===== src/Store/Confirm/Bound.antt =====
-- src/store.rs: what an approval for execution is bound to.
use hyperliquid_live_executo.Base.{
  ℕ, ◌<◌, ◌≡◌, true, false, List, [], ◌∷◌, ◌++◌, String, none, some, arith, str_eq, ◌⊎◌,
}
use hyperliquid_live_executo.Base.Result.{ok}
use hyperliquid_live_executo.Base.Table
use hyperliquid_live_executo.Base.Time.{Timestamp}
use hyperliquid_live_executo.Domain.Confirmation.{ManualConfirmation}
use hyperliquid_live_executo.Domain.Status
use hyperliquid_live_executo.Domain.Status.{same_status}
use hyperliquid_live_executo.Live.Cloid.{entry, deterministic_cloid}
use hyperliquid_live_executo.Store.State.{Store, StoredIntent, intent_key, execution_key}
use hyperliquid_live_executo.Store.Confirm.{
  confirm_intent_for_execution, pending_execution, is_awaiting,
}

module _ {D : Type 0} (sha256 : List ℕ → List ℕ) (now : Timestamp) (id : ℕ)
    (digest by account : String) where
  -- What a fresh approval has found and made.
  abbrev pub Approved : StoredIntent D → ManualConfirmation → Store D → Store D → Type 0
  Approved current c s t =
      (is_awaiting current ≡ true)
      × (now < c.expires_at)
      × (now < current.intent.expires_at)
      × (s.control.kill_switch_enabled ≡ false)
      × (Table.find execution_key id s.executions ≡ none)
      × (t.executions
          ≡ s.executions
            ++ pending_execution now id account (deterministic_cloid sha256 id entry) ∷ [])

  -- If a confirmation for execution succeeds on a stored intent that has a confirmation request,
  -- then the given digest is that of the request; and either the intent was approved before and
  -- nothing changes, or it awaited confirmation, neither expiry had come, the kill switch was off,
  -- and one pending execution has been added for it where there was none.
  pub approval_bound :
      (s t : Store D) (current r : StoredIntent D) (c : ManualConfirmation)
      → Table.find intent_key id s.intents ≡ some current
      → current.manual_confirmation ≡ some c
      → confirm_intent_for_execution sha256 now id digest by account s ≡ (ok r, t)
      → (str_eq c.digest digest ≡ true)
        × (((same_status current.status Status.approved ≡ true) × (r ≡ current) × (t ≡ s))
            ⊎ Approved current c s t)
  unfolding confirm_intent_for_execution
  approval_bound s t current r c found pending h = ground arith

  -- While the kill switch is on, no confirmation for execution changes the store.
  pub kill_switch_stops :
      (s : Store D)
      → s.control.kill_switch_enabled ≡ true
      → (confirm_intent_for_execution sha256 now id digest by account s).1 ≡ s
  unfolding confirm_intent_for_execution
  kill_switch_stops s on = ground arith
