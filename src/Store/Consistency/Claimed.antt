-- ===== src/Store/Consistency/Claimed.antt =====
-- The claim that succeeds: the candidate of the query, in a consistent store.
use hyperliquid_live_executo.Base.{
  ◌≡◌, refl, Bool, true, List, [], ◌∷◌, String, Option, none, some, arith, ==_refl, ==_iff, select,
  inl, ◌⊎◌,
}
use hyperliquid_live_executo.Base.Result.{ok}
use hyperliquid_live_executo.Base.Table
use hyperliquid_live_executo.Base.Time.{Timestamp}
use hyperliquid_live_executo.Domain.Status
use hyperliquid_live_executo.Live.Execution.{LiveExecution, pending}
use hyperliquid_live_executo.Live.Execution
use hyperliquid_live_executo.Store.State.{Store, StoredIntent, intent_key, execution_key}
use hyperliquid_live_executo.Store.Executions.{
  claim_next_live_execution, next_candidate, oldest, is_candidate,
}
use hyperliquid_live_executo.Store.Consistency.{IsConsistent, rows_fit}
use hyperliquid_live_executo.Store.Consistency.Steps.{claimed, submitting_row}
use hyperliquid_live_executo.Store.Consistency.Success.{Rows, rewritten}

-- The row that is found by its own key and passes a test.
abbrev Chosen : (LiveExecution → Bool) → List LiveExecution → LiveExecution → Type 0
Chosen p es e = (Table.find execution_key e.intent_id es ≡ some e) × (p e ≡ true)

fresh :
    (p : LiveExecution → Bool) (x e : LiveExecution) (es : List LiveExecution)
    → Table.find execution_key x.intent_id es ≡ none
    → Chosen p es e
    → Chosen p (x ∷ es) e
fresh p x e es new (found, pe) = ground (arith, ==_iff x.intent_id e.intent_id)

oldest_chosen :
    (p : LiveExecution → Bool) (best : Option LiveExecution) (es : List LiveExecution)
    (e : LiveExecution)
    → Table.Unique execution_key es
    → oldest best (select p es) ≡ some e
    → (best ≡ some e) ⊎ Chosen p es e
oldest_chosen p best [] e u h = inl h
oldest_chosen p none (x ∷ es) e u h = ground (
  arith,
  oldest_chosen p none es e u.1,
  oldest_chosen p (some x) es e u.1,
  fresh p x e es u.0,
  ==_refl e.intent_id,
)
oldest_chosen p (some b) (x ∷ es) e u h = ground (
  arith,
  oldest_chosen p (some b) es e u.1,
  oldest_chosen p (some x) es e u.1,
  fresh p x e es u.0,
  ==_refl e.intent_id,
)

module _ {D : Type 0} where
  claim_ok :
      (now : Timestamp) (account : String) (s : Store D) (e : LiveExecution) (r : StoredIntent D)
      → IsConsistent s
      → next_candidate account s ≡ some e
      → Rows e.intent_id e r s
      → Execution.same_status e.status pending ≡ true
      → Status.same_status r.status Status.approved ≡ true
      → let out = claim_next_live_execution now account s in
        (out.0 ≡ ok (some (claimed now e, submitting_row now r)))
        × Rows e.intent_id (claimed now e) (submitting_row now r) out.1
  unfolding claim_next_live_execution
  claim_ok now account s e r c found (he, hr) pe pr = ground (
    arith,
    rewritten e.intent_id (λ x. Execution.same_status x.status pending) (claimed now)
        (λ x. Status.same_status x.status Status.approved) (submitting_row now) s e r (λ x. refl)
        (λ x. refl) c (he, hr) pe pr,
  )

  -- What the query of the claim selects is pending, stands under its key, and has an intent.
  candidate_rows :
      (account : String) (s : Store D) (e : LiveExecution)
      → Table.Unique execution_key s.executions
      → next_candidate account s ≡ some e
      → (Table.find execution_key e.intent_id s.executions ≡ some e)
        × (is_candidate s account e ≡ true)
  unfolding next_candidate
  candidate_rows account s e u found =
      ground (arith, oldest_chosen (is_candidate s account) none s.executions e u found)

  approved_of :
      (s : Store D) (e : LiveExecution) (r : StoredIntent D)
      → rows_fit (some e) (some r) ≡ true
      → Execution.same_status e.status pending ≡ true
      → Status.same_status r.status Status.approved ≡ true
  approved_of s e r h p = ground (arith, Execution.same_status-eq e.status pending p)

  -- In a consistent store, the candidate of the query is claimed.
  pub claims :
      (now : Timestamp) (account : String) (s : Store D) (e : LiveExecution) (r : StoredIntent D)
      → IsConsistent s
      → next_candidate account s ≡ some e
      → Table.find intent_key e.intent_id s.intents ≡ some r
      → let out = claim_next_live_execution now account s in
        (out.0 ≡ ok (some (claimed now e, submitting_row now r)))
        × Rows e.intent_id (claimed now e) (submitting_row now r) out.1
  claims now account s e r c found hr =
      let rows = candidate_rows account s e c.unique_executions found in
      let is_pending : Execution.same_status e.status pending ≡ true = ground (arith, rows.1) in
      claim_ok now account s e r c found (rows.0, hr) is_pending
        (approved_of s e r (rw (rows.0, hr) at (c.fit e.intent_id)) is_pending)
