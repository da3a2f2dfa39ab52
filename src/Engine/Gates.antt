-- ===== src/Engine/Gates.antt =====
-- src/engine.rs: what the engine has checked when it lets an intent through.
use hyperliquid_live_executo.Base.{
  ◌+◌, ◌≤◌, ◌⊎◌, inl, inr, ℕ, ◌≡◌, refl, true, false, List, [], ◌∷◌, ◌++◌, String, Option, none,
  some, Bool-cases, arith,
}
use hyperliquid_live_executo.Base.Result.{ok}
use hyperliquid_live_executo.Base.Time.{Timestamp}
use hyperliquid_live_executo.Decimal.{DecimalOps}
use hyperliquid_live_executo.Domain.Confirmation.{ManualConfirmation}
use hyperliquid_live_executo.Domain.Status
use hyperliquid_live_executo.Domain.Intent.{TradeIntent}
use hyperliquid_live_executo.Domain.Validation
use hyperliquid_live_executo.Risk.Admission.{evaluate_admission}
use hyperliquid_live_executo.Risk.Decision.{RiskDecision, is_approved}
use hyperliquid_live_executo.Store.State.{Store, StoredIntent}
use hyperliquid_live_executo.Store.Intents.{get_intent, submit_shadow_intent}
use hyperliquid_live_executo.Mainnet.{MainnetAccountSnapshot}
use hyperliquid_live_executo.Engine.Ready.{Reconciled, ready-Reconciled}
use hyperliquid_live_executo.Engine.Flat.{Flat, position_lem}
use hyperliquid_live_executo.Engine.{
  submit, submit_evaluated, submit_decided, confirmation_ttl, Engine, SnapshotView,
  ensure_reconciliation_ready, ensure_no_existing_position, confirm, confirm_on,
}

-- A confirmation request is there, and ends no later than either time.
abbrev pub ExpiresWithin : Timestamp → Timestamp → Option ManualConfirmation → Type 0
ExpiresWithin a b none = ⊥
ExpiresWithin a b (some c) = (c.expires_at ≤ a) × (c.expires_at ≤ b)

module _ {D : Type 0} (ops : DecimalOps D)
    (digest_of : TradeIntent D → RiskDecision D → Timestamp → Option String)
    (view : MainnetAccountSnapshot D → SnapshotView D) (clock : ℕ → Timestamp)
    (engine : Engine D) where
  confirm_steps :
      (sha256 : List ℕ → List ℕ) (id : ℕ) (digest by : String) (s t : Store D)
      (stored r : StoredIntent D) (fresh : RiskDecision D)
      → get_intent id s ≡ some stored
      → evaluate_admission ops engine.policy stored.intent ≡ some fresh
      → confirm ops digest_of view clock engine sha256 id digest by s ≡ (ok r, t)
      → (ensure_reconciliation_ready engine (clock 0) s ≡ ok tt)
        × (Validation.validate ops stored.intent (clock 1) ≡ ok tt)
        × (is_approved fresh ≡ true)
        × (ensure_no_existing_position ops digest_of view clock engine stored.intent.symbol s
            ≡ ok tt)
        × (confirm_on sha256 clock engine.live_execution_account id digest by s ≡ (ok r, t))
  unfolding confirm
  confirm_steps sha256 id digest by s t stored r fresh found evaluated h = ground arith

  -- A confirmation succeeds only on a stored intent that is still valid and that the risk engine
  -- approves again; and, if the engine has an account to reconcile, only while this account's row in
  -- the store is ready and not older than twenty seconds, and while the latest snapshot of the account
  -- lists no position in the symbol with a size other than zero. An engine without such an account
  -- asks for neither. What is then returned and stored is the answer of the store.
  pub confirm_gated :
      (sha256 : List ℕ → List ℕ) (id : ℕ) (digest by : String) (s t : Store D)
      (stored r : StoredIntent D) (fresh : RiskDecision D)
      → get_intent id s ≡ some stored
      → evaluate_admission ops engine.policy stored.intent ≡ some fresh
      → confirm ops digest_of view clock engine sha256 id digest by s ≡ (ok r, t)
      → Reconciled engine.reconciliation_account (clock 0) s
        × Flat ops digest_of view clock engine s engine.reconciliation_account stored.intent.symbol
        × (Validation.validate ops stored.intent (clock 1) ≡ ok tt)
        × (is_approved fresh ≡ true)
        × (confirm_on sha256 clock engine.live_execution_account id digest by s ≡ (ok r, t))
  confirm_gated sha256 id digest by s t stored r fresh found evaluated h =
      let (ready, valid, approved, closed, answer) =
        confirm_steps sha256 id digest by s t stored r fresh found evaluated h in
      (
        ready-Reconciled engine (clock 0) s ready,
        position_lem ops digest_of view clock engine _ s closed,
        valid,
        approved,
        answer,
      )

  -- What a new row says of the decision: an intent awaits confirmation only if the decision approved
  -- it and the kill switch was off, and its request then ends in time; any other is rejected.
  pub data HasOutcome (intent : TradeIntent D) (decision : RiskDecision D) (s : Store D)
      (r : StoredIntent D) : Type 0 where
    refused :
        r.status ≡ Status.risk_rejected
        → (is_approved decision ≡ false) ⊎ (s.control.kill_switch_enabled ≡ true)
        → HasOutcome intent decision s r
    awaiting :
        r.status ≡ Status.awaiting_confirmation
        → is_approved decision ≡ true
        → s.control.kill_switch_enabled ≡ false
        → ExpiresWithin intent.expires_at (clock 2 + confirmation_ttl) r.manual_confirmation
        → HasOutcome intent decision s r

  -- What a new row stands for.
  pub record IsNewRow (intent : TradeIntent D) (key : String) (s t : Store D) (r : StoredIntent D)
      : Type 0 where
    pub ready : Reconciled engine.reconciliation_account (clock 0) s
    pub valid : Validation.validate ops intent (clock 1) ≡ ok tt
    pub decision : RiskDecision D
    pub evaluated : evaluate_admission ops engine.policy intent ≡ some decision
    pub own_intent : r.intent ≡ intent
    pub same_key : r.idempotency_key ≡ key
    pub same_decision : r.risk_decision ≡ some decision
    pub stored : t.intents ≡ s.intents ++ (r ∷ [])
    pub outcome : HasOutcome intent decision s r

  submit_steps :
      (intent : TradeIntent D) (key : String) (s t : Store D) (r : StoredIntent D)
      → submit ops digest_of view clock engine intent key s ≡ (ok (r, true), t)
      → (ensure_reconciliation_ready engine (clock 0) s ≡ ok tt)
        × (Validation.validate ops intent (clock 1) ≡ ok tt)
        × (submit_evaluated ops digest_of view clock engine intent key
              (evaluate_admission ops engine.policy intent)
              s
            ≡ (ok (r, true), t))
  unfolding submit
  submit_steps intent key s t r h = ground arith

  decided_lem :
      (intent : TradeIntent D) (key : String) (s t : Store D) (r : StoredIntent D)
      (decision : RiskDecision D)
      → submit_decided ops digest_of view clock engine intent key decision s ≡ (ok (r, true), t)
      → (r.intent ≡ intent)
        × (r.idempotency_key ≡ key)
        × (r.risk_decision ≡ some decision)
        × (t.intents ≡ s.intents ++ (r ∷ []))
  unfolding submit_shadow_intent
  decided_lem intent key s t r decision h = (ground arith, ground arith, ground arith, ground arith)

  outcome_lem :
      (intent : TradeIntent D) (key : String) (s t : Store D) (r : StoredIntent D)
      (decision : RiskDecision D)
      → submit_decided ops digest_of view clock engine intent key decision s ≡ (ok (r, true), t)
      → HasOutcome intent decision s r
  unfolding submit_shadow_intent
  outcome_lem intent key s t r decision h = elim (Bool-cases (is_approved decision)) [
    | inr rejects ↦ refused (ground arith) (inl rejects)
    | inl approves ↦ elim (Bool-cases s.control.kill_switch_enabled) [
      | inl on ↦ refused (ground arith) (inr on)
      | inr off ↦ awaiting (ground arith) approves off (ground arith)
    ]
  ]

  -- A new row that a submission to the engine stores, at the end of the table, stands for the intent
  -- and the key that were submitted and for the decision that the risk engine reached on the intent.
  -- The intent was valid then, and the account that the engine reconciles, if it has one, was ready.
  -- The row awaits confirmation only if the decision approves and the kill switch was off, and its
  -- request then ends no later than the intent and no later than two minutes after the reading of
  -- the clock; otherwise it is rejected, and the decision rejects or the kill switch was on.
  pub submission_gated :
      (intent : TradeIntent D) (key : String) (s t : Store D) (r : StoredIntent D)
      → submit ops digest_of view clock engine intent key s ≡ (ok (r, true), t)
      → IsNewRow intent key s t r
  submission_gated intent key s t r h =
      let (ready, valid, rest) = submit_steps intent key s t r h in
      decided (evaluate_admission ops engine.policy intent) refl rest
        (ready-Reconciled engine (clock 0) s ready) valid
    where
      decided :
          (d : Option (RiskDecision D))
          → evaluate_admission ops engine.policy intent ≡ d
          → submit_evaluated ops digest_of view clock engine intent key d s ≡ (ok (r, true), t)
          → Reconciled engine.reconciliation_account (clock 0) s
          → Validation.validate ops intent (clock 1) ≡ ok tt
          → IsNewRow intent key s t r
      decided none e k ready valid = absurd (ground arith)
      decided (some decision) e k ready valid =
          let (own_intent, same_key, same_decision, stored) =
            decided_lem intent key s t r decision k in
          record {
            ready = ready;
            valid = valid;
            decision = decision;
            evaluated = e;
            own_intent = own_intent;
            same_key = same_key;
            same_decision = same_decision;
            stored = stored;
            outcome = outcome_lem intent key s t r decision k;
          }
