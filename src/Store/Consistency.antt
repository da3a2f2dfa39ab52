-- ===== src/Store/Consistency.antt =====
-- The invariant that ties executions to intents, and its preservation by an update of both.
pub mod Steps
pub mod Admission
pub mod Decision
pub mod Approval
pub mod Untouched
pub mod Success
pub mod Claimed
use hyperliquid_live_executo.Base.{
  ℕ, zero, ◌≡◌, Bool, true, false, ◌&&◌, Option, none, some, ◌==◌, if◌then◌else◌, arith, Bool-cases,
  inl, inr, ==_iff, sym, ◌∙◌,
}
use mathlib.Core.Option
use hyperliquid_live_executo.Base.Table
use hyperliquid_live_executo.Domain.Status
use hyperliquid_live_executo.Domain.Status.{TradeIntentStatus}
use hyperliquid_live_executo.Live.Execution.{
  LiveExecution, LiveExecutionStatus, pending, entry_submitting, entry_unknown, entry_filled,
  protected, emergency_closing, closed, failed, reconciliation_required,
}
use hyperliquid_live_executo.Store.State.{Store, StoredIntent, intent_key, execution_key}
use hyperliquid_live_executo.Store.Tx.{where_intent, where_execution}

-- The status of the intent that each status of its execution goes with; an intent without an
-- execution has not been approved, sent or ended by an execution.
abbrev pub fits : Option LiveExecutionStatus → TradeIntentStatus → Bool
fits none Status.received = true
fits none Status.awaiting_confirmation = true
fits none Status.risk_rejected = true
fits none Status.shadow_accepted = true
fits (some pending) Status.approved = true
fits (some entry_submitting) Status.submitting = true
fits (some entry_unknown) Status.failed = true
fits (some entry_filled) Status.executing = true
fits (some protected) Status.completed = true
fits (some emergency_closing) Status.executing = true
fits (some closed) Status.failed = true
fits (some failed) Status.failed = true
fits (some reconciliation_required) Status.failed = true
fits _ _ = false

-- A pending execution has not been tried; any other has been tried once.
abbrev pub attempts : LiveExecutionStatus → ℕ
attempts pending = 0
attempts _ = 1

abbrev pub rows_fit : {D : Type 0} → Option LiveExecution → Option (StoredIntent D) → Bool
rows_fit none none = true
rows_fit (some e) none = false
rows_fit none (some r) = fits none r.status
rows_fit (some e) (some r) = fits (some e.status) r.status && e.attempt == attempts e.status

-- No key stands twice in its table, and at every id the rows of the two tables fit.
pub record IsConsistent {D : Type 0} (s : Store D) : Type 0 where
  pub unique_intents : Table.Unique intent_key s.intents
  pub unique_executions : Table.Unique execution_key s.executions
  pub fit :
      (id : ℕ)
      → rows_fit (Table.find execution_key id s.executions) (Table.find intent_key id s.intents)
        ≡ true

-- The number of rows that an update of one key changes.
abbrev pub matched : {A : Type 0} → (A → Bool) → Option A → ℕ
matched p none = 0
matched p (some x) = if p x then 1 else 0

-- What the update leaves of the row.
abbrev pub updated : {A : Type 0} → (A → Bool) → (A → A) → Option A → Option A
updated p f row = Option.map (λ x. if p x then f x else x) row

module _ {D : Type 0} (p : LiveExecution → Bool) (f : LiveExecution → LiveExecution)
    (q : StoredIntent D → Bool) (g : StoredIntent D → StoredIntent D) where
  -- The change of two rows keeps them fitting.
  abbrev pub Keeps : Type 0
  Keeps =
      (e : LiveExecution) (r : StoredIntent D)
      → p e ≡ true
      → q r ≡ true
      → rows_fit (some e) (some r) ≡ true
      → rows_fit (some (f e)) (some (g r)) ≡ true

  both_kept :
      Keeps
      → (oe : Option LiveExecution) (oi : Option (StoredIntent D)) → matched p oe ≡ 1
      → matched q oi ≡ 1
      → rows_fit oe oi ≡ true
      → rows_fit (updated p f oe) (updated q g oi) ≡ true
  both_kept keep none oi he hi h = absurd (omega arith)
  both_kept keep (some e) none he hi h = absurd (omega arith)
  both_kept keep (some e) (some r) he hi h = elim (Bool-cases (p e)) [
    | inr no_match ↦ absurd (zero≢one (rw no_match at he))
    | inl pe ↦ elim (Bool-cases (q r)) [
      | inr no_match ↦ absurd (zero≢one (rw no_match at hi))
      | inl qr ↦ rw (pe, qr) (keep e r pe qr h)
    ]
  ]
    where
      zero≢one : ◌≡◌ {A = ℕ} 0 1 → ⊥
      zero≢one h = omega arith

  -- An update of both rows of one id, under a condition on each that holds of one row of each.
  pub update_both :
      ((e : LiveExecution) → execution_key (f e) ≡ execution_key e)
      → ((r : StoredIntent D) → intent_key (g r) ≡ intent_key r)
      → Keeps
      → (id : ℕ) (s t : Store D) → IsConsistent s
      → Table.changed (where_execution id p) s.executions ≡ 1
      → Table.changed (where_intent id q) s.intents ≡ 1
      → t.executions ≡ Table.update (where_execution id p) f s.executions
      → t.intents ≡ Table.update (where_intent id q) g s.intents
      → IsConsistent t
  update_both kf kg keep id s t c ce ci te ti = record {
    unique_intents =
        rw ti (Table.update-Unique intent_key (where_intent id q) g kg s.intents c.unique_intents);
    unique_executions = rw te (
        Table.update-Unique execution_key (where_execution id p) f kf s.executions
          c.unique_executions);
    fit = λ k.
        rw
          (
            te,
            ti,
            Table.find-update_key execution_key f kf id p k s.executions,
            Table.find-update_key intent_key g kg id q k s.intents,
          )
          (elim (Bool-cases (k == id)) [
            | inr other ↦ rw other (c.fit k)
            | inl same ↦ rw same (at_id k ((==_iff k id).0 same))
          ]);
  }
    where
      at_id :
          (k : ℕ)
          → k ≡ id
          → rows_fit
              (updated p f (Table.find execution_key k s.executions))
              (updated q g (Table.find intent_key k s.intents))
            ≡ true
      at_id k e = rw e (
          both_kept keep (Table.find execution_key id s.executions)
            (Table.find intent_key id s.intents)
            (sym (Table.changed_one execution_key id p s.executions c.unique_executions) ∙ ce)
            (sym (Table.changed_one intent_key id q s.intents c.unique_intents) ∙ ci) (c.fit id))
