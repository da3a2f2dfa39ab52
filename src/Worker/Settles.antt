-- ===== src/Worker/Settles.antt =====
-- src/live_execution.rs: where a pass of the worker leaves the execution that it has claimed.
use hyperliquid_live_executo.Base.{
  ℕ, ◌≡◌, refl, Bool, true, false, List, String, Option, none, some, arith,
}
use hyperliquid_live_executo.Base.Result.{Result, ok, err, panic}
use hyperliquid_live_executo.Base.Table
use hyperliquid_live_executo.Base.Time.{Timestamp}
use hyperliquid_live_executo.Decimal.{DecimalOps}
use hyperliquid_live_executo.Domain.Status
use hyperliquid_live_executo.Domain.Status.{TradeIntentStatus}
use hyperliquid_live_executo.Live.Execution
use hyperliquid_live_executo.Live.Execution.{
  LiveExecution, LiveExecutionStatus, definite, outcome_unknown, entry_submitting,
}
use hyperliquid_live_executo.Store.State.{
  Store, StoreError, StoredIntent, intent_key, execution_key,
}
use hyperliquid_live_executo.Store.Executions.{next_candidate, claim_next_live_execution}
use hyperliquid_live_executo.Store.Reconciliation.{reconciliation_state}
use hyperliquid_live_executo.Store.Transitions.{
  finish_live_transition, mark_live_execution_failed, mark_live_entry_unknown,
}
use hyperliquid_live_executo.Store.Consistency.{IsConsistent}
use hyperliquid_live_executo.Store.Consistency.Steps.{claimed, submitting_row, claim-IsConsistent}
use hyperliquid_live_executo.Store.Consistency.Success.{Rows, finish_ok}
use hyperliquid_live_executo.Store.Consistency.Claimed.{claims}
use hyperliquid_live_executo.Worker.{
  Gateway, run_once, answered, is_halted, approved_notional, follow, done,
}

module _ {D : Type 0} where
  -- The status of the execution of `id`.
  abbrev pub status_of : ℕ → Store D → Option LiveExecutionStatus
  status_of id s = elim (Table.find execution_key id s.executions) [
    | none ↦ none
    | some e ↦ some e.status
  ]

  module _ (ops : DecimalOps D) (sha256 : List ℕ → List ℕ) (gateway : Gateway D)
      (clock : ℕ → Timestamp) (account : String) where
    -- The state in which a pass claims `e` with its intent `r` and a notional.
    abbrev pub Ready : Store D → LiveExecution → StoredIntent D → D → Type 0
    Ready s e r notional =
        IsConsistent s
        × (is_halted (reconciliation_state account s) ≡ false)
        × (next_candidate account s ≡ some e)
        × (Table.find intent_key e.intent_id s.intents ≡ some r)
        × (approved_notional r ≡ some notional)

    -- The store after the claim.
    abbrev pub after_claim : Store D → Store D
    after_claim s = (claim_next_live_execution (clock 0) account s).1

    -- What is left of a pass after the claim.
    pub passes :
        (s : Store D) (e : LiveExecution) (r : StoredIntent D) (notional : D)
        → Ready s e r notional
        → run_once ops sha256 gateway clock account s
          ≡ follow
              (answered ops sha256 gateway clock
                (submitting_row (clock 0) r)
                (gateway.submit_entry r.intent notional e.entry_cloid)
                (after_claim s))
              (λ _. done true)
    unfolding run_once
    passes s e r notional (c, ready, found, hr, approved) =
        ground (arith, (claims (clock 0) account s e r c found hr).0)

    pub claimed-Rows :
        (s : Store D) (e : LiveExecution) (r : StoredIntent D) (notional : D)
        → Ready s e r notional
        → Rows r.intent.intent_id (claimed (clock 0) e) (submitting_row (clock 0) r) (after_claim s)
    claimed-Rows s e r notional (c, ready, found, hr, approved) =
        at (after_claim s) (Table.find-key intent_key e.intent_id s.intents r hr)
          (claims (clock 0) account s e r c found hr).1
      where
        at :
            {k l : ℕ} {x : LiveExecution} {y : StoredIntent D} (t : Store D)
            → l ≡ k
            → Rows k x y t
            → Rows l x y t
        at t same rows = rw same rows

    pub finish_settles :
        (now : Timestamp) (id : ℕ) (el nl : LiveExecutionStatus) (ei ni : TradeIntentStatus)
        (reason : String) (detail : Option String) (force : Bool) (s : Store D) (e : LiveExecution)
        (r : StoredIntent D)
        → IsConsistent s
        → Rows id e r s
        → Execution.same_status e.status el ≡ true
        → Status.same_status r.status ei ≡ true
        → let out = finish_live_transition now id el nl ei ni reason detail force s in
          (out.0 ≡ ok tt) × (status_of id out.1 ≡ some nl)
    finish_settles now id el nl ei ni reason detail force s e r c rows se sr =
        let finished = finish_ok now id el nl ei ni reason detail force s e r c rows se sr in
        (finished.0, rw (status_of, finished.1.0) refl)

    -- A transition out of the claimed state ends the pass in the status that it sets.
    pub ends :
        (id : ℕ) (p : Result StoreError (Unit {0}) × Store D) (status : LiveExecutionStatus)
        → p.0 ≡ ok tt
        → status_of id p.1 ≡ some status
        → let out = follow p (λ _. done {A = Bool} true) in
          (out.0 ≡ ok true) × (status_of id out.1 ≡ some status)
    ends id (ok x, t) status h settled = ground arith
    ends id (err x, t) status h settled = ground arith
    ends id (panic, t) status h settled = ground arith

    -- If a pass can claim an execution and its entry order is refused for certain, then the pass
    -- returns `true` and leaves the execution failed.
    pub rejected_settles :
        (s : Store D) (e : LiveExecution) (r : StoredIntent D) (notional : D) (error : String)
        → Ready s e r notional
        → gateway.submit_entry r.intent notional e.entry_cloid ≡ err (definite error)
        → let out = run_once ops sha256 gateway clock account s in
          (out.0 ≡ ok true) × (status_of r.intent.intent_id out.1 ≡ some Execution.failed)
    unfolding mark_live_execution_failed
    rejected_settles s e r notional error h answer =
        let u = after_claim s in
        let finished =
          finish_settles (clock 1) r.intent.intent_id entry_submitting Execution.failed
            Status.submitting Status.failed "entry_rejected" (some error) false u _ _
            (claim-IsConsistent (clock 0) account s h.0) (claimed-Rows s e r notional h) refl
            refl in
        rw (passes s e r notional h, answer) (ends r.intent.intent_id _ _ finished.0 finished.1)

    -- If a pass can claim an execution and the outcome of its entry order is unknown, then the pass
    -- returns `true` and leaves the execution with an unknown entry.
    pub unknown_settles :
        (s : Store D) (e : LiveExecution) (r : StoredIntent D) (notional : D) (error : String)
        → Ready s e r notional
        → gateway.submit_entry r.intent notional e.entry_cloid ≡ err (outcome_unknown error)
        → let out = run_once ops sha256 gateway clock account s in
          (out.0 ≡ ok true) × (status_of r.intent.intent_id out.1 ≡ some Execution.entry_unknown)
    unfolding mark_live_entry_unknown
    unknown_settles s e r notional error h answer =
        let u = after_claim s in
        let finished =
          finish_settles (clock 1) r.intent.intent_id entry_submitting Execution.entry_unknown
            Status.submitting Status.failed "entry_outcome_unknown" (some error) true u _ _
            (claim-IsConsistent (clock 0) account s h.0) (claimed-Rows s e r notional h) refl
            refl in
        rw (passes s e r notional h, answer) (ends r.intent.intent_id _ _ finished.0 finished.1)
