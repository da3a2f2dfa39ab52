-- ===== src/Api/Errors.antt =====
-- src/api.rs: `ApiError`, how the errors of the store and of the engine become one, and the response
-- to each. The texts of errors are parameters.
use hyperliquid_live_executo.Base.{ℕ, String, List}
use hyperliquid_live_executo.Domain.Validation.{IntentValidationError}
use hyperliquid_live_executo.Engine.{
  EngineError, validation, store_error, confirmation_serialization, reconciliation_blocked,
  pre_trade_rejected, fresh_rejected,
}
use hyperliquid_live_executo.Risk.Decision.{RiskReasonCode}
use hyperliquid_live_executo.Store.State.{
  StoreError, idempotency_conflict, intent_id_conflict, signal_replay, confirmation_mismatch,
  not_awaiting_confirmation, reconciliation_not_close_only, reconciliation_recovery_not_eligible,
  reconciliation_reason_mismatch, confirmation_expired,
}

pub data ApiError : Type 0 where
  bad_request conflict gone internal unavailable : String → ApiError
  not_found : ApiError

-- The texts of the errors, and of the reasons of a rejection.
pub record Texts : Type 0 where
  pub of_store : StoreError → String
  pub of_validation : IntentValidationError → String
  pub of_serialization : String
  pub of_reasons : List RiskReasonCode → String

module _ (texts : Texts) where
  -- `impl From<StoreError> for ApiError`
  unfoldable pub from_store : StoreError → ApiError
  from_store idempotency_conflict = conflict (texts.of_store idempotency_conflict)
  from_store intent_id_conflict = conflict (texts.of_store intent_id_conflict)
  from_store signal_replay = conflict (texts.of_store signal_replay)
  from_store confirmation_mismatch = conflict (texts.of_store confirmation_mismatch)
  from_store not_awaiting_confirmation = conflict (texts.of_store not_awaiting_confirmation)
  from_store reconciliation_not_close_only = conflict (texts.of_store reconciliation_not_close_only)
  from_store reconciliation_recovery_not_eligible =
      conflict (texts.of_store reconciliation_recovery_not_eligible)
  from_store reconciliation_reason_mismatch =
      conflict (texts.of_store reconciliation_reason_mismatch)
  from_store confirmation_expired = gone (texts.of_store confirmation_expired)
  from_store error = internal (texts.of_store error)

  -- `impl From<EngineError> for ApiError`
  unfoldable pub from_engine : EngineError → ApiError
  unfolding from_store
  from_engine (validation error) = bad_request (texts.of_validation error)
  from_engine confirmation_serialization = internal texts.of_serialization
  from_engine (reconciliation_blocked error) = unavailable error
  from_engine (pre_trade_rejected error) = conflict error
  from_engine (fresh_rejected reasons) = conflict (texts.of_reasons reasons)
  from_engine (store_error error) = from_store error

-- `into_response`: the status code and the text of the body.
unfoldable pub into_response : ApiError → ℕ × String
into_response (bad_request message) = (400, message)
into_response (conflict message) = (409, message)
into_response (gone message) = (410, message)
into_response not_found = (404, "not found")
into_response (internal _) = (500, "internal error")
into_response (unavailable message) = (503, message)
