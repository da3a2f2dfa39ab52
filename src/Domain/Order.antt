-- ===== src/Domain/Order.antt =====
-- src/domain/order.rs: the status of an exchange order.
pub mod Lifecycle
use hyperliquid_live_executo.Base.{Bool, true, false}

pub data OrderStatus : Type 0 where
  pending_submit submitted accepted partially_filled filled : OrderStatus
  cancel_pending canceled rejected expired reconciliation_required : OrderStatus

unfoldable pub can_transition_to : OrderStatus → OrderStatus → Bool
can_transition_to pending_submit submitted = true
can_transition_to pending_submit rejected = true
can_transition_to submitted accepted = true
can_transition_to submitted partially_filled = true
can_transition_to submitted filled = true
can_transition_to submitted rejected = true
can_transition_to submitted reconciliation_required = true
can_transition_to accepted partially_filled = true
can_transition_to accepted filled = true
can_transition_to accepted cancel_pending = true
can_transition_to accepted canceled = true
can_transition_to accepted expired = true
can_transition_to accepted reconciliation_required = true
can_transition_to partially_filled filled = true
can_transition_to partially_filled cancel_pending = true
can_transition_to partially_filled canceled = true
can_transition_to partially_filled expired = true
can_transition_to partially_filled reconciliation_required = true
can_transition_to cancel_pending canceled = true
can_transition_to cancel_pending partially_filled = true
can_transition_to cancel_pending filled = true
can_transition_to cancel_pending reconciliation_required = true
can_transition_to reconciliation_required accepted = true
can_transition_to reconciliation_required partially_filled = true
can_transition_to reconciliation_required filled = true
can_transition_to reconciliation_required canceled = true
can_transition_to reconciliation_required rejected = true
can_transition_to reconciliation_required expired = true
can_transition_to _ _ = false
