-- ===== src/Live/Execution.antt =====
-- src/live_execution.rs: a live execution, its status, and what a gateway answers.
pub mod Text
use hyperliquid_live_executo.Base.{ℕ, Bool, true, String, Option, ◌==◌, ◌≡◌, arith}
use hyperliquid_live_executo.Base.Time.{Timestamp}

pub data LiveExecutionStatus : Type 0 where
  pending entry_submitting entry_unknown entry_filled protecting : LiveExecutionStatus
  protected emergency_closing closed failed reconciliation_required : LiveExecutionStatus

-- The derived `PartialEq`, by the position of the variant.
abbrev tag : LiveExecutionStatus → ℕ
tag pending = 0
tag entry_submitting = 1
tag entry_unknown = 2
tag entry_filled = 3
tag protecting = 4
tag protected = 5
tag emergency_closing = 6
tag closed = 7
tag failed = 8
tag reconciliation_required = 9

abbrev pub same_status : LiveExecutionStatus → LiveExecutionStatus → Bool
same_status a b = tag a == tag b

pub same_status-eq : (a b : LiveExecutionStatus) → same_status a b ≡ true → a ≡ b
same_status-eq a b h = ground arith

pub record LiveExecution : Type 0 where
  pub intent_id : ℕ
  pub account_address : String
  pub entry_cloid : ℕ
  pub status : LiveExecutionStatus
  pub attempt : ℕ
  pub last_error : Option String
  pub created_at : Timestamp
  pub updated_at : Timestamp

pub record ConfirmedFill (D : Type 0) : Type 0 where
  pub exchange_oid : ℕ
  pub size : D
  pub average_price : D

pub data GatewayFailure : Type 0 where
  definite : String → GatewayFailure
  outcome_unknown : String → GatewayFailure

abbrev pub gateway_error_text : GatewayFailure → String
gateway_error_text (definite error) = error
gateway_error_text (outcome_unknown error) = error
