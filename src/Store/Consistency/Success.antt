-- ===== src/Store/Consistency/Success.antt =====
-- The transitions of an execution that succeed, and the rows that they leave.
use hyperliquid_live_executo.Base.{
  ℕ, ◌≡◌, refl, Bool, true, false, String, Option, none, some, arith, ==_refl, any,
}
use hyperliquid_live_executo.Base.Result.{ok}
use hyperliquid_live_executo.Base.Table
use hyperliquid_live_executo.Base.Time.{Timestamp}
use hyperliquid_live_executo.Domain.Status
use hyperliquid_live_executo.Domain.Status.{TradeIntentStatus}
use hyperliquid_live_executo.Live.Execution.{ConfirmedFill, LiveExecution, LiveExecutionStatus}
use hyperliquid_live_executo.Live.Execution
use hyperliquid_live_executo.Store.State.{Store, StoredIntent, intent_key, execution_key}
use hyperliquid_live_executo.Store.Orders.{record_live_entry_fill, entry_order, collides}
use hyperliquid_live_executo.Store.Transitions.{finish_live_transition}
use hyperliquid_live_executo.Store.Tx.{where_intent, where_execution}
use hyperliquid_live_executo.Store.Consistency.{IsConsistent}
use hyperliquid_live_executo.Store.Consistency.Steps.{moved, moved_row}

module _ {D : Type 0} where
  -- The rows of an id are these.
  abbrev pub Rows : ℕ → LiveExecution → StoredIntent D → Store D → Type 0
  Rows id e r s =
      (Table.find execution_key id s.executions ≡ some e)
      × (Table.find intent_key id s.intents ≡ some r)

  -- An update of the rows of an id, under conditions that they meet, changes these two alone.
  pub rewritten :
      (id : ℕ) (p : LiveExecution → Bool) (f : LiveExecution → LiveExecution)
      (q : StoredIntent D → Bool) (g : StoredIntent D → StoredIntent D) (s : Store D)
      (e : LiveExecution) (r : StoredIntent D)
      → ((x : LiveExecution) → execution_key (f x) ≡ execution_key x)
      → ((x : StoredIntent D) → intent_key (g x) ≡ intent_key x)
      → IsConsistent s
      → Rows id e r s
      → p e ≡ true
      → q r ≡ true
      → (Table.changed (where_execution id p) s.executions ≡ 1)
        × (Table.changed (where_intent id q) s.intents ≡ 1)
        × (Table.find execution_key id (Table.update (where_execution id p) f s.executions)
            ≡ some (f e))
        × (Table.find intent_key id (Table.update (where_intent id q) g s.intents) ≡ some (g r))
  rewritten id p f q g s e r kf kg c (he, hr) pe qr = ground (
    arith,
    Table.changed_one execution_key id p s.executions c.unique_executions,
    Table.changed_one intent_key id q s.intents c.unique_intents,
    Table.find-update_key execution_key f kf id p id s.executions,
    Table.find-update_key intent_key g kg id q id s.intents,
    ==_refl id,
  )

  pub finish_ok :
      (now : Timestamp) (id : ℕ) (el nl : LiveExecutionStatus) (ei ni : TradeIntentStatus)
      (reason : String) (detail : Option String) (force : Bool) (s : Store D) (e : LiveExecution)
      (r : StoredIntent D)
      → IsConsistent s
      → Rows id e r s
      → Execution.same_status e.status el ≡ true
      → Status.same_status r.status ei ≡ true
      → let out = finish_live_transition now id el nl ei ni reason detail force s in
        (out.0 ≡ ok tt) × Rows id (moved now nl detail e) (moved_row now ni reason r) out.1
  unfolding finish_live_transition
  finish_ok now id el nl ei ni reason detail force s e r c (he, hr) se sr = ground (
    arith,
    rewritten id (λ x. Execution.same_status x.status el) (moved now nl detail)
        (λ x. Status.same_status x.status ei) (moved_row now ni reason) s e r (λ x. refl)
        (λ x. refl) c (he, hr) se sr,
  )

  -- The fill of an entry order that no stored order collides with is recorded.
  pub fill_ok :
      (now : Timestamp) (id : ℕ) (fill : ConfirmedFill D) (s : Store D) (e : LiveExecution)
      (r : StoredIntent D)
      → IsConsistent s
      → Rows id e r s
      → Execution.same_status e.status Execution.entry_submitting ≡ true
      → Status.same_status r.status Status.submitting ≡ true
      → any (collides (entry_order now id e.entry_cloid fill)) s.orders ≡ false
      → let out = record_live_entry_fill now id fill s in
        (out.0 ≡ ok tt)
        × Rows id
            (moved now Execution.entry_filled none e)
            (moved_row now Status.executing "entry_fill_confirmed" r)
            out.1
  unfolding record_live_entry_fill
  fill_ok now id fill s e r c (he, hr) se sr free = ground (
    arith,
    rewritten id (λ x. Execution.same_status x.status Execution.entry_submitting)
        (moved now Execution.entry_filled none) (λ x. Status.same_status x.status Status.submitting)
        (moved_row now Status.executing "entry_fill_confirmed") s e r (λ x. refl) (λ x. refl) c
        (he, hr) se sr,
  )
