-- ===== src/Domain/Position.antt =====
-- src/domain/position.rs: the status of a position.
pub mod Lifecycle
use hyperliquid_live_executo.Base.{Bool, true, false}

pub data PositionStatus : Type 0 where
  opening open_unprotected open_protected reducing : PositionStatus
  closing closed reconciliation_required : PositionStatus

unfoldable pub can_transition_to : PositionStatus → PositionStatus → Bool
can_transition_to opening open_unprotected = true
can_transition_to opening closed = true
can_transition_to opening reconciliation_required = true
can_transition_to open_unprotected open_protected = true
can_transition_to open_unprotected closing = true
can_transition_to open_unprotected reconciliation_required = true
can_transition_to open_protected reducing = true
can_transition_to open_protected closing = true
can_transition_to open_protected reconciliation_required = true
can_transition_to reducing open_protected = true
can_transition_to reducing closing = true
can_transition_to reducing closed = true
can_transition_to reducing reconciliation_required = true
can_transition_to closing closed = true
can_transition_to closing reconciliation_required = true
can_transition_to reconciliation_required open_unprotected = true
can_transition_to reconciliation_required open_protected = true
can_transition_to reconciliation_required closing = true
can_transition_to reconciliation_required closed = true
can_transition_to _ _ = false
