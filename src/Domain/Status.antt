-- ===== src/Domain/Status.antt =====
-- src/domain/trade_intent.rs and src/store.rs: the status of an intent, its transitions and the
-- text that the database keeps for it.
pub mod Lifecycle
pub mod Text
use hyperliquid_live_executo.Base.{ℕ, Bool, true, false, ◌==◌, ◌≡◌, arith}

pub data TradeIntentStatus : Type 0 where
  received awaiting_confirmation risk_rejected shadow_accepted approved : TradeIntentStatus
  submitting executing completed cancel_pending canceled failed : TradeIntentStatus

unfoldable pub can_transition_to : TradeIntentStatus → TradeIntentStatus → Bool
can_transition_to received risk_rejected = true
can_transition_to received awaiting_confirmation = true
can_transition_to received shadow_accepted = true
can_transition_to received approved = true
can_transition_to received canceled = true
can_transition_to awaiting_confirmation risk_rejected = true
can_transition_to awaiting_confirmation shadow_accepted = true
can_transition_to awaiting_confirmation approved = true
can_transition_to awaiting_confirmation canceled = true
can_transition_to shadow_accepted canceled = true
can_transition_to approved submitting = true
can_transition_to approved canceled = true
can_transition_to approved failed = true
can_transition_to submitting executing = true
can_transition_to submitting failed = true
can_transition_to submitting cancel_pending = true
can_transition_to executing completed = true
can_transition_to executing failed = true
can_transition_to executing cancel_pending = true
can_transition_to cancel_pending canceled = true
can_transition_to cancel_pending completed = true
can_transition_to cancel_pending failed = true
can_transition_to _ _ = false

-- The derived `PartialEq`, by the position of the variant.
abbrev tag : TradeIntentStatus → ℕ
tag received = 0
tag awaiting_confirmation = 1
tag risk_rejected = 2
tag shadow_accepted = 3
tag approved = 4
tag submitting = 5
tag executing = 6
tag completed = 7
tag cancel_pending = 8
tag canceled = 9
tag failed = 10

abbrev pub same_status : TradeIntentStatus → TradeIntentStatus → Bool
same_status a b = tag a == tag b

pub same_status-eq : (a b : TradeIntentStatus) → same_status a b ≡ true → a ≡ b
same_status-eq a b h = ground arith
