-- ===== src/Domain/Status/Lifecycle.antt =====
-- The life of an intent: what has to happen before an order is sent, and that it ends.
use hyperliquid_live_executo.Base.{ℕ, ◌≤◌, ◌<◌, ◌≡◌, refl, ◌⊎◌, inl, Bool, true, false, arith}
use hyperliquid_live_executo.Base.Steps.{Steps, steps, Steps-keeps, steps-le-rank}
use hyperliquid_live_executo.Domain.Status.{
  TradeIntentStatus, received, awaiting_confirmation, risk_rejected, shadow_accepted, approved,
  submitting, executing, completed, cancel_pending, canceled, failed, can_transition_to,
}

-- The statuses of an intent whose order is being or was executed.
abbrev is_executed : TradeIntentStatus → Bool
is_executed submitting = true
is_executed executing = true
is_executed completed = true
is_executed cancel_pending = true
is_executed failed = true
is_executed _ = false

-- What is left of a shadow run.
abbrev pub IsShadow : TradeIntentStatus → Type 0
IsShadow t = (t ≡ shadow_accepted) ⊎ (t ≡ canceled)

IsShadow-stays : (t u : TradeIntentStatus) → IsShadow t → can_transition_to t u ≡ true → IsShadow u
unfolding can_transition_to
IsShadow-stays t u h e = ground arith

-- An intent that was accepted in shadow mode can only stay so or be canceled: no run of allowed
-- transitions leads it to an approval or an execution.
pub accepted_never_executes :
    (t : TradeIntentStatus) → Steps can_transition_to shadow_accepted t → IsShadow t
accepted_never_executes t r = Steps-keeps IsShadow IsShadow-stays (inl refl) r

rank : TradeIntentStatus → ℕ
rank received = 0
rank awaiting_confirmation = 1
rank shadow_accepted = 2
rank approved = 2
rank submitting = 3
rank executing = 4
rank cancel_pending = 5
rank completed = 6
rank canceled = 6
rank failed = 6
rank risk_rejected = 6

rank_rises : (t u : TradeIntentStatus) → can_transition_to t u ≡ true → rank t < rank u
unfolding can_transition_to rank
rank_rises t u e = ground arith

rank_bounded : (t : TradeIntentStatus) → rank t ≤ 6
unfolding rank
rank_bounded t = ground arith

-- A run of allowed transitions from any status to any other has at most six steps.
pub steps-le-six : (s t : TradeIntentStatus) (r : Steps can_transition_to s t) → steps r ≤ 6
steps-le-six s t r = omega (arith, steps-le-rank rank rank_rises r, rank_bounded t)
