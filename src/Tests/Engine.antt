-- ===== src/Tests/Engine.antt =====
-- The engine on concrete values: a submission and its confirmation.
use hyperliquid_live_executo.Base.{
  ℕ, ◌≤◌, ◌≡◌, refl, true, false, List, map, ◌++◌, [], ◌∷◌, String, Option, none, some,
}
use hyperliquid_live_executo.Base.Result.{ok, err}
use hyperliquid_live_executo.Base.Int.{ℤ, pos}
use hyperliquid_live_executo.Base.Text.{bytes, is_blank}
use hyperliquid_live_executo.Base.Time.{Timestamp, seconds}
use hyperliquid_live_executo.Decimal.Fixed.{fixed}
use hyperliquid_live_executo.Domain.Intent.{TradeIntent}
use hyperliquid_live_executo.Domain.Validation
use hyperliquid_live_executo.Risk.Admission.{evaluate_admission, with_limits, sized}
use hyperliquid_live_executo.Risk.Decision.{RiskDecision, is_approved}
use hyperliquid_live_executo.Risk.Policy.{shadow_tiny_default, limits_for}
use hyperliquid_live_executo.Store.State.{
  Store, StoredIntent, ReconciliationRow, normal, close_only,
}
use hyperliquid_live_executo.Store.Intents.{get_intent, submit_shadow_intent, submitted_row}
use hyperliquid_live_executo.Store.Confirm.{confirm_intent_for_execution}
use hyperliquid_live_executo.Store.Reach.{empty}
use hyperliquid_live_executo.Store.Reconciliation.{
  is_close_only, has_reason, recovered, to_state, reconciliation_state, admission_block,
  acknowledge_reconciliation_recovery,
}
use hyperliquid_live_executo.Store.Reconciliation.Recovery.{recovery_bound}
use hyperliquid_live_executo.Store.Snapshots.{latest_mainnet_snapshot}
use hyperliquid_live_executo.Mainnet.{MainnetAccountSnapshot, MainnetPositionSnapshot}
use hyperliquid_live_executo.Engine.{
  Engine, SnapshotView, submit, confirm, confirm_on, ensure_reconciliation_ready,
  ensure_no_existing_position, pre_trade_rejected,
}
use hyperliquid_live_executo.Engine.Gates.{confirm_gated, submission_gated, IsNewRow}
use hyperliquid_live_executo.Engine.Ready.{Reconciled}
use hyperliquid_live_executo.Engine.Flat.{Flat}
use hyperliquid_live_executo.Tests.Data.{order, decision, request, sha256}
use hyperliquid_live_executo.Tests.Store.{confirmed, awaiting, approved_row, submitted}

abbrev pub engine : Engine ℤ
engine = record {
  policy = shadow_tiny_default fixed;
  reconciliation_account = none;
  live_execution_account = some "0xabc";
}

abbrev pub digest_of : TradeIntent ℤ → RiskDecision ℤ → Timestamp → Option String
digest_of _ _ _ = some "digest-1"

-- The JSON of a snapshot lists its positions with these fields.
abbrev pub view : MainnetAccountSnapshot ℤ → SnapshotView ℤ
view snapshot = record {
  positions = some (
      map
        (λ (p : MainnetPositionSnapshot ℤ). record {
          coin = some p.coin;
          signed_size = some p.signed_size;
        })
        snapshot.positions);
}

abbrev clock : ℕ → Timestamp
clock _ = seconds 25

-- The row that the submission stores: the intent ends before the two minutes are over.
abbrev prompt : StoredIntent ℤ
prompt =
    submitted_row false (seconds 20) order "key-1" decision
      (some (record request { expires_at = seconds 60 }))

abbrev stored_prompt : Store ℤ
stored_prompt = (submit fixed digest_of view (λ _. seconds 20) engine order "key-1" (empty 0)).1

confirms :
    confirm fixed digest_of view clock engine sha256 7 "digest-1" "operator" submitted
    ≡ (ok approved_row, confirmed)
unfolding confirm ensure_reconciliation_ready ensure_no_existing_position submit_shadow_intent
    confirm_intent_for_execution get_intent evaluate_admission with_limits sized limits_for
    shadow_tiny_default Validation.validate Validation.valid_identifier Validation.valid_symbol
    Validation.valid_take_profit Validation.exit_direction_valid bytes is_blank
confirms = refl

found : get_intent 7 submitted ≡ some awaiting
unfolding get_intent submit_shadow_intent
found = refl

evaluated : evaluate_admission fixed engine.policy order ≡ some decision
unfolding evaluate_admission with_limits sized limits_for shadow_tiny_default
evaluated = refl

-- An engine that reconciles its account, whose row is ready and whose position in BTC is closed.
abbrev reading : Engine ℤ
reading = record engine { reconciliation_account = some "0xabc" }

abbrev position : String → ℤ → MainnetPositionSnapshot ℤ
position coin signed_size = record {
  coin = coin;
  signed_size = signed_size;
  position_value_usd = pos 0;
  unrealized_pnl_usd = pos 0;
  entry_price = none;
  liquidation_price = none;
  leverage = 1;
  leverage_type = "cross";
}

abbrev snapshot_of : List (MainnetPositionSnapshot ℤ) → MainnetAccountSnapshot ℤ
snapshot_of positions = record {
  account_address = "0xabc";
  observed_at = seconds 10;
  account_value_usd = pos 0;
  withdrawable_usd = pos 0;
  total_margin_used_usd = pos 0;
  total_position_notional_usd = pos 0;
  positions = positions;
  open_orders = [];
  protection_coverage = [];
  asset_size_decimals = [];
  mids = [];
}

-- The store with this last snapshot.
abbrev with_snapshot : MainnetAccountSnapshot ℤ → Store ℤ → Store ℤ
with_snapshot x s = record s {
  mainnet = record s.mainnet { snapshots = s.mainnet.snapshots ++ (x ∷ []) };
}

abbrev reconciled_store : Store ℤ
reconciled_store =
    record (with_snapshot (snapshot_of (position "ETH" (pos 1) ∷ position "BTC" (pos 0) ∷ []))
      submitted) {
        reconciliation =
            record {
              account_address = "0xabc";
              mode = normal;
              ready = true;
              reason_code = none;
              detail = none;
              baseline_established_at = some (seconds 1);
              last_reconciled_at = some (seconds 10);
              clean_streak = 3;
            }
            ∷ [];
      }

abbrev reconciled_confirmed : Store ℤ
reconciled_confirmed =
    (confirm fixed digest_of view clock reading sha256 7 "digest-1" "operator" reconciled_store).1

confirms_reconciled :
    confirm fixed digest_of view clock reading sha256 7 "digest-1" "operator" reconciled_store
    ≡ (ok approved_row, reconciled_confirmed)
unfolding confirm ensure_reconciliation_ready reconciliation_state ensure_no_existing_position
    latest_mainnet_snapshot submit_shadow_intent confirm_intent_for_execution get_intent
    evaluate_admission with_limits sized limits_for shadow_tiny_default Validation.validate
    Validation.valid_identifier Validation.valid_symbol Validation.valid_take_profit
    Validation.exit_direction_valid bytes is_blank
confirms_reconciled = refl

found_reconciled : get_intent 7 reconciled_store ≡ some awaiting
unfolding get_intent submit_shadow_intent
found_reconciled = refl

confirm_gated_example :
    Reconciled (some "0xabc") (seconds 25) reconciled_store
    × Flat fixed digest_of view clock reading reconciled_store (some "0xabc") "BTC"
    × (Validation.validate fixed order (seconds 25) ≡ ok tt)
    × (is_approved decision ≡ true)
    × (confirm_on sha256 clock (some "0xabc") 7 "digest-1" "operator" reconciled_store
        ≡ (ok approved_row, reconciled_confirmed))
confirm_gated_example =
    confirm_gated fixed digest_of view clock reading sha256 7 "digest-1" "operator" reconciled_store
      reconciled_confirmed awaiting approved_row decision found_reconciled evaluated
      confirms_reconciled

-- An open position in the symbol stops the confirmation.
position-refused :
    ensure_no_existing_position fixed digest_of view clock reading "BTC"
      (with_snapshot (snapshot_of (position "BTC" (pos 1) ∷ [])) reconciled_store)
    ≡ err (pre_trade_rejected "existing_symbol_position")
unfolding ensure_no_existing_position latest_mainnet_snapshot submit_shadow_intent
position-refused = refl

-- An account in close-only mode after three clean reconciliations.
abbrev locked : ReconciliationRow
locked = record {
  account_address = "0xabc";
  mode = close_only;
  ready = false;
  reason_code = some "entry_outcome_unknown";
  detail = none;
  baseline_established_at = some (seconds 1);
  last_reconciled_at = some (seconds 20);
  clean_streak = 3;
}

abbrev locked_store : Store ℤ
locked_store = record (empty 0) { reconciliation = locked ∷ [] }

abbrev unlocked : Store ℤ
unlocked =
    (acknowledge_reconciliation_recovery (seconds 25) "0xabc" "entry_outcome_unknown" "operator"
      locked_store).1

recovers :
    acknowledge_reconciliation_recovery
      (seconds 25)
      "0xabc"
      "entry_outcome_unknown"
      "operator"
      locked_store
    ≡ (ok (to_state (recovered locked)), unlocked)
unfolding acknowledge_reconciliation_recovery reconciliation_state
recovers = refl

recovery_bound_example :
    (is_close_only locked.mode ≡ true)
    × (has_reason "entry_outcome_unknown" locked.reason_code ≡ true)
    × (3 ≤ locked.clean_streak)
    × (to_state (recovered locked) ≡ to_state (recovered locked))
    × (reconciliation_state "0xabc" unlocked ≡ some (to_state (recovered locked)))
recovery_bound_example =
    recovery_bound (seconds 25) "0xabc" "entry_outcome_unknown" "operator" locked_store unlocked
      locked (to_state (recovered locked)) refl recovers

admission_block-locked : admission_block (λ _ _. false) locked_store ≡ some (to_state locked)
unfolding admission_block reconciliation_state
admission_block-locked = refl

submits :
    submit fixed digest_of view (λ _. seconds 20) engine order "key-1" (empty 0)
    ≡ (ok (prompt, true), stored_prompt)
unfolding submit ensure_reconciliation_ready submit_shadow_intent evaluate_admission with_limits
    sized limits_for shadow_tiny_default Validation.validate Validation.valid_identifier
    Validation.valid_symbol Validation.valid_take_profit Validation.exit_direction_valid bytes
    is_blank
submits = refl

submission_gated_example :
    IsNewRow fixed digest_of view
      (λ _. seconds 20)
      engine
      order
      "key-1"
      (empty 0)
      stored_prompt
      prompt
submission_gated_example =
    submission_gated fixed digest_of view (λ _. seconds 20) engine order "key-1" (empty 0)
      stored_prompt prompt submits
