-- ===== src/Engine.antt =====
-- src/engine.rs: `ShadowExecutionEngine`. The digest of a confirmation and the reading of the
-- JSON of a stored snapshot are parameters; `clock n` is the time of the n-th reading of the clock.
pub mod Ready
pub mod Flat
pub mod Gates
pub mod Runs
use hyperliquid_live_executo.Base.{
  ℕ, ◌+◌, Bool, false, not, ◌&&◌, List, String, Option, none, some, str_eq, any, leb, if◌then◌else◌,
}
use hyperliquid_live_executo.Base.Int.{pos, ltb_ℤ}
use hyperliquid_live_executo.Base.Result.{Result, ok, err, panic}
use hyperliquid_live_executo.Base.Time.{Timestamp, seconds, signed_duration_since}
use hyperliquid_live_executo.Decimal.{DecimalOps}
use hyperliquid_live_executo.Domain.Confirmation.{ManualConfirmation}
use hyperliquid_live_executo.Domain.Intent.{TradeIntent}
use hyperliquid_live_executo.Domain.Status
use hyperliquid_live_executo.Domain.Validation
use hyperliquid_live_executo.Domain.Validation.{IntentValidationError}
use hyperliquid_live_executo.Mainnet.{MainnetAccountSnapshot}
use hyperliquid_live_executo.Store.Snapshots.{latest_mainnet_snapshot}
use hyperliquid_live_executo.Risk.Admission.{evaluate_admission}
use hyperliquid_live_executo.Risk.Decision.{RiskDecision, RiskReasonCode, is_approved}
use hyperliquid_live_executo.Risk.Policy.{RiskPolicy}
use hyperliquid_live_executo.Store.State.{Store, StoreError, StoredIntent}
use hyperliquid_live_executo.Store.Intents.{get_intent, submit_shadow_intent, transition_intent}
use hyperliquid_live_executo.Store.Confirm.{confirm_intent, confirm_intent_for_execution}
use hyperliquid_live_executo.Store.Reconciliation.{ReconciliationState, reconciliation_state}

pub data EngineError : Type 0 where
  validation : IntentValidationError → EngineError
  store_error : StoreError → EngineError
  confirmation_serialization : EngineError
  reconciliation_blocked : String → EngineError
  pre_trade_rejected : String → EngineError
  -- the text of the reason codes
  fresh_rejected : List RiskReasonCode → EngineError

-- A position of the latest snapshot, as its JSON is read: the coin, and the size if it is a number.
pub record PositionView (D : Type 0) : Type 0 where
  pub coin : Option String
  pub signed_size : Option D

-- The JSON of a snapshot: its positions, if they are an array.
pub record SnapshotView (D : Type 0) : Type 0 where
  pub positions : Option (List (PositionView D))

-- The store and the time to live of a confirmation, always two minutes, stand elsewhere; that a
-- wallet is loaded is only reported.
pub record Engine (D : Type 0) : Type 0 where
  pub policy : RiskPolicy D
  pub reconciliation_account : Option String
  pub live_execution_account : Option String

-- `Duration::minutes(2)`
abbrev pub confirmation_ttl : ℕ
confirmation_ttl = seconds 120

abbrev min_time : Timestamp → Timestamp → Timestamp
min_time a b = if leb a b then a else b

-- The checks of a state that was found.
abbrev pub state_ready : Timestamp → ReconciliationState → Result EngineError (Unit {0})
state_ready now state =
    if not state.row.ready
    then err (
        reconciliation_blocked
          (elim state.row.reason_code [ none ↦ "reconciliation_not_ready" | some reason ↦ reason ]))
    else elim state.row.last_reconciled_at [
      | none ↦ err (reconciliation_blocked "authoritative_snapshot_stale")
      | some observed ↦
          if ltb_ℤ (pos (seconds 20)) (signed_duration_since now observed)
          then err (reconciliation_blocked "authoritative_snapshot_stale")
          else ok tt
    ]

abbrev pub Call : Type 0 → Type 0 → Type 0
Call D A = Store D → Result EngineError A × Store D

module _ {D : Type 0} where
  -- A call of the store.
  abbrev pub lift : {A : Type 0} → Result StoreError A × Store D → Result EngineError A × Store D
  lift (ok a, t) = (ok a, t)
  lift (err e, t) = (err (store_error e), t)
  lift (panic, t) = (panic, t)

  -- A check that reads, followed by what it guards.
  abbrev pub guard : {B : Type 0} → Result EngineError (Unit {0}) → Call D B → Call D B
  guard (ok _) k s = k s
  guard (err e) k s = (err e, s)
  guard panic k s = (panic, s)

  abbrev pub validated :
      {B : Type 0} → Result IntentValidationError (Unit {0}) → Call D B → Call D B
  validated (ok _) k s = k s
  validated (err e) k s = (err (validation e), s)
  validated panic k s = (panic, s)

  unfoldable pub ensure_reconciliation_ready :
      Engine D → Timestamp → Store D → Result EngineError (Unit {0})
  ensure_reconciliation_ready engine now s = elim engine.reconciliation_account [
    | none ↦ ok tt
    | some account ↦ (elim (reconciliation_state account s) [
      | none ↦ err (reconciliation_blocked "startup_reconciliation_pending")
      | some state ↦ state_ready now state
    ])
  ]

  -- The confirmation that `live_execution_account` selects.
  abbrev pub confirm_on :
      (List ℕ → List ℕ)
      → (ℕ → Timestamp)
      → Option String
      → ℕ
      → String
      → String
      → Call D (StoredIntent D)
  confirm_on sha256 clock none id digest by s = lift (confirm_intent (clock 2) id digest by s)
  confirm_on sha256 clock (some account) id digest by s =
      lift (confirm_intent_for_execution sha256 (clock 2) id digest by account s)

  -- The error of `transition_intent` comes before the rejection.
  abbrev pub rejected_after :
      List RiskReasonCode
      → Result StoreError (Option (StoredIntent D)) × Store D
      → Result EngineError (StoredIntent D) × Store D
  rejected_after reasons (ok _, t) = (err (fresh_rejected reasons), t)
  rejected_after reasons (err e, t) = (err (store_error e), t)
  rejected_after reasons (panic, t) = (panic, t)

  module _ (ops : DecimalOps D)
      (digest_of : TradeIntent D → RiskDecision D → Timestamp → Option String)
      (view : MainnetAccountSnapshot D → SnapshotView D) (clock : ℕ → Timestamp)
      (engine : Engine D) where
    abbrev pub is_open : String → PositionView D → Bool
    is_open symbol p =
        (elim p.coin [ none ↦ false | some coin ↦ str_eq coin symbol ])
        && (elim p.signed_size [ none ↦ false | some size ↦ not (ops.is_zero size) ])

    abbrev no_open_position : String → SnapshotView D → Result EngineError (Unit {0})
    no_open_position symbol snapshot = elim snapshot.positions [
      | none ↦ err (reconciliation_blocked "authoritative_positions_missing")
      | some positions ↦
          if any (is_open symbol) positions
          then err (pre_trade_rejected "existing_symbol_position")
          else ok tt
    ]

    unfoldable pub ensure_no_existing_position : String → Store D → Result EngineError (Unit {0})
    ensure_no_existing_position symbol s = elim engine.reconciliation_account [
      | none ↦ ok tt
      | some account ↦ (elim (latest_mainnet_snapshot account s) [
        | none ↦ err (reconciliation_blocked "authoritative_snapshot_missing")
        | some snapshot ↦ no_open_position symbol (view snapshot)
      ])
    ]

    abbrev pub request_expiry : TradeIntent D → Timestamp
    request_expiry intent = min_time intent.expires_at (clock 2 + confirmation_ttl)

    abbrev pub confirmation_request : TradeIntent D → String → ManualConfirmation
    confirmation_request intent digest = record {
      digest = digest;
      expires_at = request_expiry intent;
      confirmed_at = none;
      confirmed_by = none;
    }

    -- The submission of an intent that was given this decision.
    abbrev pub submit_decided :
        TradeIntent D → String → RiskDecision D → Call D (StoredIntent D × Bool)
    submit_decided intent key decision s =
        if is_approved decision
        then elim (digest_of intent decision (request_expiry intent)) [
          | none ↦ (err confirmation_serialization, s)
          | some digest ↦ lift (
              submit_shadow_intent ops (clock 3) intent key decision
                (some (confirmation_request intent digest)) s)
        ]
        else lift (submit_shadow_intent ops (clock 3) intent key decision none s)

    abbrev pub submit_evaluated :
        TradeIntent D → String → Option (RiskDecision D) → Call D (StoredIntent D × Bool)
    submit_evaluated intent key none s = (panic, s)
    submit_evaluated intent key (some decision) s = submit_decided intent key decision s

    unfoldable pub submit : TradeIntent D → String → Call D (StoredIntent D × Bool)
    submit intent key s =
        guard (ensure_reconciliation_ready engine (clock 0) s)
          (validated (Validation.validate ops intent (clock 1))
            (submit_evaluated intent key (evaluate_admission ops engine.policy intent)))
          s

    module _ (sha256 : List ℕ → List ℕ) where
      abbrev pub confirm_evaluated :
          ℕ → String → String → TradeIntent D → Option (RiskDecision D) → Call D (StoredIntent D)
      confirm_evaluated id digest by intent none s = (panic, s)
      confirm_evaluated id digest by intent (some fresh) s =
          if not (is_approved fresh)
          then rejected_after fresh.reason_codes (
              transition_intent (clock 2) id Status.risk_rejected
                (some "confirmation_pre_trade_rejected") s)
          else guard (ensure_no_existing_position intent.symbol s)
              (confirm_on sha256 clock engine.live_execution_account id digest by) s

      abbrev pub confirm_found :
          ℕ → String → String → Option (StoredIntent D) → Call D (StoredIntent D)
      confirm_found id digest by none s = (err (pre_trade_rejected "intent_not_found"), s)
      confirm_found id digest by (some stored) s =
          validated (Validation.validate ops stored.intent (clock 1))
            (confirm_evaluated id digest by stored.intent
              (evaluate_admission ops engine.policy stored.intent))
            s

      unfoldable pub confirm : ℕ → String → String → Call D (StoredIntent D)
      confirm id digest by s =
          guard (ensure_reconciliation_ready engine (clock 0) s)
            (λ s. confirm_found id digest by (get_intent id s) s) s
