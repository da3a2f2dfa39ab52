-- ===== src/Domain/Order/Lifecycle.antt =====
-- The life of an exchange order: it is submitted before it fills, and a final status stays.
use hyperliquid_live_executo.Base.{◌≡◌, refl, ◌⊎◌, inl, inr, Bool, true, false, arith}
use hyperliquid_live_executo.Base.Steps.{Steps, here, next}
use hyperliquid_live_executo.Domain.Order.{
  OrderStatus, pending_submit, submitted, filled, canceled, rejected, expired, can_transition_to,
}

-- The statuses that no order leaves.
abbrev is_final : OrderStatus → Bool
is_final filled = true
is_final canceled = true
is_final rejected = true
is_final expired = true
is_final _ = false

final_stuck : (s t : OrderStatus) → is_final s ≡ true → can_transition_to s t ≡ false
unfolding can_transition_to
final_stuck s t h = ground arith

-- Once an order is filled, canceled, rejected or expired, no run of transitions leads to another
-- status.
pub final_keeps : {s t : OrderStatus} → is_final s ≡ true → Steps can_transition_to s t → s ≡ t
final_keeps h here = refl
final_keeps {s} h (next {t} {u} r e) = ground (arith, final_keeps h r, final_stuck s u h)

abbrev Submitted : OrderStatus → Type 0
Submitted t = Steps can_transition_to pending_submit submitted × Steps can_transition_to submitted t

-- Where an order may be that has not been submitted.
abbrev Progress : OrderStatus → Type 0
Progress t = (t ≡ pending_submit) ⊎ ((t ≡ rejected) ⊎ Submitted t)

progress : {t : OrderStatus} → Steps can_transition_to pending_submit t → Progress t
unfolding can_transition_to
progress here = inl refl
progress (next {t} {u} r e) = elim (progress r) [
  | inl new ↦ from_new u (rw new at e)
  | inr (inl gone) ↦ absurd (stuck u (rw gone at e))
  | inr (inr (before, after)) ↦ inr (inr (before, next after e))
]
  where
    stuck : (u : OrderStatus) → can_transition_to rejected u ≡ true → ⊥
    stuck u e = ground arith

    from_new : (u : OrderStatus) → can_transition_to pending_submit u ≡ true → Progress u
    from_new submitted e = inr (inr (next here e, here))
    from_new rejected e = inr (inl refl)
    from_new _ e = cc

-- An order that was accepted by the exchange, filled in whole or in part, canceled, expired or
-- handed to reconciliation, in any number of transitions since it was created, passed through
-- `Submitted` on the way; only a rejection can come before a submission.
pub submitted_first :
    (t : OrderStatus)
    → Steps can_transition_to pending_submit t
    → (t ≡ pending_submit)
      ⊎ ((t ≡ rejected)
          ⊎ (Steps can_transition_to pending_submit submitted
              × Steps can_transition_to submitted t))
submitted_first t r = progress r
