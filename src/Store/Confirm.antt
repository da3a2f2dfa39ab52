-- ===== src/Store/Confirm.antt =====
-- src/store.rs: `confirm_intent` and `confirm_intent_for_execution`.
pub mod Bound
use hyperliquid_live_executo.Base.{
  ℕ, Bool, not, ◌&&◌, ◌||◌, List, [], ◌∷◌, ◌++◌, String, Option, none, some, ◌==◌, leb, str_eq,
  is_some, any, if◌then◌else◌,
}
use mathlib.Core.Option
use hyperliquid_live_executo.Base.Result.{Result, ok, err}
use hyperliquid_live_executo.Base.Table
use hyperliquid_live_executo.Base.Time.{Timestamp}
use hyperliquid_live_executo.Domain.Confirmation.{ManualConfirmation}
use hyperliquid_live_executo.Domain.Status.{
  TradeIntentStatus, risk_rejected, awaiting_confirmation, shadow_accepted, approved, same_status,
}
use hyperliquid_live_executo.Live.Execution.{LiveExecution, pending}
use hyperliquid_live_executo.Live.Cloid.{entry, deterministic_cloid}
use hyperliquid_live_executo.Store.State.{
  Store, StoreError, StoredIntent, EventData, execution_key, database, confirmation_mismatch,
  confirmation_expired, not_awaiting_confirmation, concurrent_transition,
}
use hyperliquid_live_executo.Store.Tx.{
  Tx, Op, pure, fail_if, or_fail, or_panic, gets, immediate, immediate_result, insert_event_tx,
  get_intent_tx, update_intent, ◌>>=◌, ◌>>◌,
}

-- `SET confirmed_at, confirmed_by`
abbrev confirm_by : Timestamp → String → ManualConfirmation → ManualConfirmation
confirm_by now by c = record c { confirmed_at = some now; confirmed_by = some by }

abbrev pub pending_execution : Timestamp → ℕ → String → ℕ → LiveExecution
pending_execution now intent_id account_address entry_cloid = record {
  intent_id = intent_id;
  account_address = account_address;
  entry_cloid = entry_cloid;
  status = pending;
  attempt = 0;
  last_error = none;
  created_at = now;
  updated_at = now;
}

module _ {D : Type 0} where
  -- `SET status, status_reason, updated_at`
  abbrev pub with_status : TradeIntentStatus → String → Timestamp → StoredIntent D → StoredIntent D
  with_status status reason now r = record r {
    status = status;
    status_reason = some reason;
    updated_at = now;
  }

  -- `SET confirmed_at, confirmed_by`: they are read back only beside a digest.
  abbrev pub with_confirmed : Timestamp → String → StoredIntent D → StoredIntent D
  with_confirmed now by r = record r {
    manual_confirmation = Option.map (confirm_by now by) r.manual_confirmation;
  }

  abbrev pub is_awaiting : StoredIntent D → Bool
  is_awaiting r = same_status r.status awaiting_confirmation

  abbrev expired_at : Timestamp → StoredIntent D → ManualConfirmation → Bool
  expired_at now current confirmation =
      leb confirmation.expires_at now || leb current.intent.expires_at now

  -- The row that is still there at the end of a confirmation: `expect` on the read.
  abbrev reread : ℕ → Tx D (StoredIntent D)
  reread intent_id = get_intent_tx intent_id >>= or_panic

  abbrev reject : Timestamp → ℕ → String → Tx D (Unit {0})
  reject now intent_id reason = do
    changed ← update_intent intent_id is_awaiting (with_status risk_rejected reason now)
    insert_event_tx intent_id "intent.risk_rejected" (EventData.reason (some reason)) now

  abbrev accept : Timestamp → ℕ → String → String → Tx D (StoredIntent D)
  accept now intent_id digest confirmed_by = do
    changed ← update_intent intent_id is_awaiting (λ r.
        with_confirmed now confirmed_by
          (with_status shadow_accepted "manually_confirmed_shadow_only" now r))
    fail_if (not (changed == 1)) concurrent_transition
    insert_event_tx intent_id "intent.manually_confirmed" (EventData.confirmed digest confirmed_by)
        now
    insert_event_tx intent_id "intent.shadow_accepted"
        (EventData.reason (some "manually_confirmed_shadow_only")) now
    reread intent_id

  -- The part of `confirm_intent` from the test of the expiry on.
  abbrev decide_confirmation :
      Timestamp
      → ℕ
      → String
      → String
      → StoredIntent D
      → ManualConfirmation
      → Tx D (Result StoreError (StoredIntent D))
  decide_confirmation now intent_id digest confirmed_by current confirmation s =
      if expired_at now current confirmation
      then (do reject now intent_id "confirmation_expired"; pure (err confirmation_expired)) s
      else if s.control.kill_switch_enabled
      then (do
        reject now intent_id "kill_switch_enabled"
        stored ← reread intent_id
        pure (ok stored))
          s
      else (do stored ← accept now intent_id digest confirmed_by; pure (ok stored)) s

  unfoldable pub confirm_intent : Timestamp → ℕ → String → String → Op D (StoredIntent D)
  confirm_intent now intent_id digest confirmed_by = immediate_result do
    found ← get_intent_tx intent_id
    current ← or_fail found not_awaiting_confirmation
    confirmation ← or_fail current.manual_confirmation not_awaiting_confirmation
    fail_if (not (str_eq confirmation.digest digest)) confirmation_mismatch
    if same_status current.status shadow_accepted && is_some confirmation.confirmed_at
        then pure (ok current)
        else do
          fail_if (not (is_awaiting current)) not_awaiting_confirmation
          decide_confirmation now intent_id digest confirmed_by current confirmation

  -- `intent_id` is the primary key of `live_executions`, and `entry_cloid` is unique.
  abbrev is_taken : LiveExecution → Store D → Bool
  is_taken e s =
      is_some (Table.find execution_key e.intent_id s.executions)
      || any (λ (x : LiveExecution). x.entry_cloid == e.entry_cloid) s.executions

  abbrev add_execution : LiveExecution → Tx D (Unit {0})
  add_execution e s = ok (tt, record s { executions = s.executions ++ e ∷ [] })

  abbrev insert_execution : LiveExecution → Tx D (Unit {0})
  insert_execution e = do taken ← gets (is_taken e); fail_if taken database; add_execution e

  abbrev approve :
      (List ℕ → List ℕ) → Timestamp → ℕ → String → String → String → Tx D (StoredIntent D)
  approve sha256 now intent_id digest confirmed_by account_address =
      let entry_cloid : ℕ = deterministic_cloid sha256 intent_id entry in
      do
        changed ← update_intent intent_id is_awaiting (λ r.
            with_confirmed now confirmed_by
              (with_status approved "manually_confirmed_for_execution" now r))
        fail_if (not (changed == 1)) concurrent_transition
        insert_execution (pending_execution now intent_id account_address entry_cloid)
        insert_event_tx intent_id "intent.manually_confirmed"
            (EventData.confirmed digest confirmed_by) now
        insert_event_tx intent_id "execution.created"
            (EventData.created account_address entry_cloid) now
        reread intent_id

  unfoldable pub confirm_intent_for_execution :
      (List ℕ → List ℕ) → Timestamp → ℕ → String → String → String → Op D (StoredIntent D)
  confirm_intent_for_execution sha256 now intent_id digest confirmed_by account_address =
      immediate do
        found ← get_intent_tx intent_id
        current ← or_fail found not_awaiting_confirmation
        confirmation ← or_fail current.manual_confirmation not_awaiting_confirmation
        fail_if (not (str_eq confirmation.digest digest)) confirmation_mismatch
        if same_status current.status approved && is_some confirmation.confirmed_at
            then pure current
            else do
              fail_if (not (is_awaiting current)) not_awaiting_confirmation
              fail_if (expired_at now current confirmation) confirmation_expired
              kill_switch ← gets (λ s. s.control.kill_switch_enabled)
              fail_if kill_switch concurrent_transition
              approve sha256 now intent_id digest confirmed_by account_address
