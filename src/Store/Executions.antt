-- ===== src/Store/Executions.antt =====
-- src/store.rs: the claim of the next execution, and what is read of executions.
use hyperliquid_live_executo.Base.{
  ℕ, ◌+◌, Bool, true, false, not, ◌&&◌, ◌||◌, List, [], ◌∷◌, String, Option, none, some, ◌==◌, ltb,
  str_eq, any, select, length, is_some, if◌then◌else◌,
}
use hyperliquid_live_executo.Base.Table
use hyperliquid_live_executo.Base.Time.{Timestamp}
use hyperliquid_live_executo.Domain.Status.{same_status}
use hyperliquid_live_executo.Domain.Status
use hyperliquid_live_executo.Live.Execution.{
  LiveExecution, LiveExecutionStatus, pending, entry_submitting, entry_unknown, emergency_closing,
  closed, failed, reconciliation_required,
}
use hyperliquid_live_executo.Live.Execution
use hyperliquid_live_executo.Store.State.{
  Store, StoredIntent, EventData, intent_key, execution_key, concurrent_transition,
}
use hyperliquid_live_executo.Store.Tx.{
  Tx, Op, pure, fail_if, or_panic, gets, immediate, insert_event_tx, get_intent_tx,
  get_live_execution_tx, update_intent, update_execution, ◌>>=◌, ◌>>◌,
}

-- `status NOT IN ('pending', 'closed', 'failed')`
abbrev is_active : LiveExecutionStatus → Bool
is_active pending = false
is_active closed = false
is_active failed = false
is_active _ = true

-- `ORDER BY candidate.created_at LIMIT 1`, the earlier row first among equals.
abbrev pub oldest : Option LiveExecution → List LiveExecution → Option LiveExecution
oldest best [] = best
oldest none (e ∷ es) = oldest (some e) es
oldest (some b) (e ∷ es) = oldest (some (if ltb e.created_at b.created_at then e else b)) es

abbrev is_unresolved : LiveExecutionStatus → Bool
is_unresolved entry_submitting = true
is_unresolved entry_unknown = true
is_unresolved emergency_closing = true
is_unresolved reconciliation_required = true
is_unresolved _ = false

module _ {D : Type 0} where
  -- `json_extract(payload_json, '$.symbol')` of the joined intent.
  abbrev same_symbol : Option (StoredIntent D) → Option (StoredIntent D) → Bool
  same_symbol (some a) (some b) = str_eq a.intent.symbol b.intent.symbol
  same_symbol _ _ = false

  abbrev intent_of : Store D → LiveExecution → Option (StoredIntent D)
  intent_of s e = Table.find intent_key e.intent_id s.intents

  -- The `EXISTS` of the claim: another active execution of the account on the same symbol.
  abbrev blocks : Store D → LiveExecution → LiveExecution → Bool
  blocks s candidate active =
      str_eq active.account_address candidate.account_address
      && not (active.intent_id == candidate.intent_id)
      && is_active active.status
      && same_symbol (intent_of s active) (intent_of s candidate)

  abbrev pub is_candidate : Store D → String → LiveExecution → Bool
  is_candidate s account_address e =
      str_eq e.account_address account_address
      && Execution.same_status e.status pending
      && is_some (intent_of s e)
      && not (any (blocks s e) s.executions)

  -- The row that the query selects.
  unfoldable pub next_candidate : String → Store D → Option LiveExecution
  next_candidate account_address s =
      oldest none (select (is_candidate s account_address) s.executions)

  abbrev claim_found : Timestamp → ℕ → Tx D (Option (LiveExecution × StoredIntent D))
  claim_found now intent_id = do
    execution_changed ←
        update_execution intent_id (λ e. Execution.same_status e.status pending)
          (λ e. record e { status = entry_submitting; attempt = e.attempt + 1; updated_at = now })
    intent_changed ←
        update_intent intent_id (λ r. same_status r.status Status.approved)
          (λ r. record r {
            status = Status.submitting;
            status_reason = some "entry_claimed";
            updated_at = now;
          })
    fail_if (not (execution_changed == 1) || not (intent_changed == 1)) concurrent_transition
    insert_event_tx intent_id "execution.entry_claimed" EventData.nothing now
    execution ← get_live_execution_tx intent_id
    claimed ← or_panic execution
    intent ← get_intent_tx intent_id
    stored ← or_panic intent
    pure (some (claimed, stored))

  unfoldable pub claim_next_live_execution :
      Timestamp → String → Op D (Option (LiveExecution × StoredIntent D))
  claim_next_live_execution now account_address = immediate do
    candidate ← gets (next_candidate account_address)
    elim candidate [ none ↦ pure none | some e ↦ claim_found now e.intent_id ]

  unfoldable pub get_live_execution : ℕ → Store D → Option LiveExecution
  get_live_execution intent_id s = Table.find execution_key intent_id s.executions

  unfoldable pub unresolved_live_execution_count : String → Store D → ℕ
  unresolved_live_execution_count account_address s = length (
      select
        (λ (e : LiveExecution). str_eq e.account_address account_address && is_unresolved e.status)
        s.executions)
