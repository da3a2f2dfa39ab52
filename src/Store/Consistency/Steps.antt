-- ===== src/Store/Consistency/Steps.antt =====
-- What each method of the store does to the tables of intents and executions.
use hyperliquid_live_executo.Base.{
  ℕ, ◌+◌, ◌≡◌, refl, Bool, true, String, Option, none, some, arith, ◌⊎◌, inl, inr, Option-cases,
  ==_iff, ap, and_true,
}
use hyperliquid_live_executo.Base.Table
use hyperliquid_live_executo.Base.Time.{Timestamp}
use hyperliquid_live_executo.Domain.Status
use hyperliquid_live_executo.Domain.Status.{TradeIntentStatus}
use hyperliquid_live_executo.Live.Execution.{LiveExecution, LiveExecutionStatus, pending}
use hyperliquid_live_executo.Live.Execution
use hyperliquid_live_executo.Store.State.{Store, StoredIntent, intent_key, execution_key}
use hyperliquid_live_executo.Store.Tx.{where_intent, where_execution}
use hyperliquid_live_executo.Store.Executions.{claim_next_live_execution, next_candidate}
use hyperliquid_live_executo.Store.Transitions.{finish_live_transition}
use hyperliquid_live_executo.Store.Consistency.{
  IsConsistent, rows_fit, fits, attempts, Keeps, update_both,
}

abbrev pub claimed : Timestamp → LiveExecution → LiveExecution
claimed now e = record e {
  status = Execution.entry_submitting;
  attempt = e.attempt + 1;
  updated_at = now;
}

abbrev pub moved : Timestamp → LiveExecutionStatus → Option String → LiveExecution → LiveExecution
moved now next detail e = record e { status = next; last_error = detail; updated_at = now }

module _ {D : Type 0} where
  abbrev pub Same : Store D → Store D → Type 0
  Same s t = (t.intents ≡ s.intents) × (t.executions ≡ s.executions)

  pub Same-IsConsistent : {s t : Store D} → Same s t → IsConsistent s → IsConsistent t
  Same-IsConsistent h c = record {
    unique_intents = rw h.0 c.unique_intents;
    unique_executions = rw h.1 c.unique_executions;
    fit = λ id. rw (h.0, h.1) (c.fit id);
  }

  -- Both rows of one id have been rewritten.
  abbrev pub Rewrites :
      ℕ
      → (LiveExecution → Bool)
      → (LiveExecution → LiveExecution)
      → (StoredIntent D → Bool)
      → (StoredIntent D → StoredIntent D)
      → Store D
      → Store D
      → Type 0
  Rewrites id p f q g s t =
      (Table.changed (where_execution id p) s.executions ≡ 1)
      × (Table.changed (where_intent id q) s.intents ≡ 1)
      × (t.executions ≡ Table.update (where_execution id p) f s.executions)
      × (t.intents ≡ Table.update (where_intent id q) g s.intents)

  abbrev pub submitting_row : Timestamp → StoredIntent D → StoredIntent D
  submitting_row now r = record r {
    status = Status.submitting;
    status_reason = some "entry_claimed";
    updated_at = now;
  }

  abbrev pub moved_row : Timestamp → TradeIntentStatus → String → StoredIntent D → StoredIntent D
  moved_row now next reason r = record r {
    status = next;
    status_reason = some reason;
    updated_at = now;
  }

  finish_lem :
      (now : Timestamp) (id : ℕ) (el nl : LiveExecutionStatus) (ei ni : TradeIntentStatus)
      (reason : String) (detail : Option String) (force : Bool) (s : Store D)
      → let t = (finish_live_transition now id el nl ei ni reason detail force s).1 in
        Same s t
        ⊎ Rewrites id
            (λ e. Execution.same_status e.status el)
            (moved now nl detail)
            (λ r. Status.same_status r.status ei)
            (moved_row now ni reason)
            s
            t
  unfolding finish_live_transition
  finish_lem now id el nl ei ni reason detail force s = ground arith

  -- The claim of the execution `e` that the query has found.
  claim_lem :
      (now : Timestamp) (account : String) (s : Store D) (e : LiveExecution)
      → next_candidate account s ≡ some e
      → let t = (claim_next_live_execution now account s).1 in
        Same s t
        ⊎ Rewrites e.intent_id
            (λ e. Execution.same_status e.status pending)
            (claimed now)
            (λ r. Status.same_status r.status Status.approved)
            (submitting_row now)
            s
            t
  unfolding claim_next_live_execution
  claim_lem now account s e found = ground arith

  claim_none :
      (now : Timestamp) (account : String) (s : Store D)
      → next_candidate account s ≡ none
      → (claim_next_live_execution now account s).1 ≡ s
  unfolding claim_next_live_execution
  claim_none now account s found = ground arith

  tried :
      (e : LiveExecution) (r : StoredIntent D)
      → rows_fit (some e) (some r) ≡ true
      → e.attempt ≡ attempts e.status
  tried e r h = (==_iff e.attempt (attempts e.status)).0 (and_true _ _ h).1

  module _ {s t : Store D} (c : IsConsistent s) where
    pub Rewrites-IsConsistent :
        (id : ℕ) (p : LiveExecution → Bool) (f : LiveExecution → LiveExecution)
        (q : StoredIntent D → Bool) (g : StoredIntent D → StoredIntent D)
        → ((e : LiveExecution) → execution_key (f e) ≡ execution_key e)
        → ((r : StoredIntent D) → intent_key (g r) ≡ intent_key r)
        → Keeps p f q g
        → Same s t ⊎ Rewrites id p f q g s t
        → IsConsistent t
    Rewrites-IsConsistent id p f q g kf kg keep (inl same) = Same-IsConsistent same c
    Rewrites-IsConsistent id p f q g kf kg keep (inr (ce, ci, te, ti)) =
        update_both p f q g kf kg keep id s t c ce ci te ti

  -- A transition between two statuses of an execution that is not pending, to statuses that go
  -- together.
  pub finish_keep :
      (now : Timestamp) (el nl : LiveExecutionStatus) (ei ni : TradeIntentStatus) (reason : String)
      (detail : Option String)
      → attempts el ≡ 1
      → attempts nl ≡ 1
      → fits (some nl) ni ≡ true
      → Keeps
          (λ e. Execution.same_status e.status el)
          (moved now nl detail)
          (λ (r : StoredIntent D). Status.same_status r.status ei)
          (moved_row now ni reason)
  finish_keep now el nl ei ni reason detail he hn hf e r pe qr h =
      ground (arith, tried e r h, ap attempts (Execution.same_status-eq e.status el pe))

  pub finish-IsConsistent :
      (now : Timestamp) (id : ℕ) (el nl : LiveExecutionStatus) (ei ni : TradeIntentStatus)
      (reason : String) (detail : Option String) (force : Bool) (s : Store D)
      → IsConsistent s
      → attempts el ≡ 1
      → attempts nl ≡ 1
      → fits (some nl) ni ≡ true
      → IsConsistent (finish_live_transition now id el nl ei ni reason detail force s).1
  finish-IsConsistent now id el nl ei ni reason detail force s c he hn hf =
      Rewrites-IsConsistent c id _ _ _ _ (λ e. refl) (λ r. refl)
        (finish_keep now el nl ei ni reason detail he hn hf)
        (finish_lem now id el nl ei ni reason detail force s)

  pub claim-IsConsistent :
      (now : Timestamp) (account : String) (s : Store D)
      → IsConsistent s
      → IsConsistent (claim_next_live_execution now account s).1
  claim-IsConsistent now account s c = elim (Option-cases (next_candidate account s)) [
    | inl gone ↦ rw (claim_none now account s gone) c
    | inr (e, found) ↦
        Rewrites-IsConsistent c _ _ _ _ _ (λ e. refl) (λ r. refl) keep
          (claim_lem now account s e found)
  ]
    where
      keep :
          Keeps
            (λ e. Execution.same_status e.status pending)
            (claimed now)
            (λ (r : StoredIntent D). Status.same_status r.status Status.approved)
            (submitting_row now)
      keep e r pe qr h =
          ground (arith, tried e r h, ap attempts (Execution.same_status-eq e.status pending pe))
