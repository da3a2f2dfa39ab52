-- ===== src/Domain/Position/Lifecycle.antt =====
-- The life of a position: it is known to be open before it counts as protected.
use hyperliquid_live_executo.Base.{◌≡◌, refl, ◌⊎◌, inl, inr, true, arith}
use hyperliquid_live_executo.Base.Steps.{Steps, here, next}
use hyperliquid_live_executo.Domain.Position.{
  PositionStatus, opening, open_unprotected, closed, reconciliation_required, can_transition_to,
}

-- A run from `opening` that passed through a status in which the position was examined.
abbrev pub Examined : PositionStatus → Type 0
Examined t =
    (Steps can_transition_to opening open_unprotected × Steps can_transition_to open_unprotected t)
    ⊎ (Steps can_transition_to opening reconciliation_required
        × Steps can_transition_to reconciliation_required t)

abbrev Progress : PositionStatus → Type 0
Progress t = (t ≡ opening) ⊎ ((t ≡ closed) ⊎ Examined t)

progress : {t : PositionStatus} → Steps can_transition_to opening t → Progress t
unfolding can_transition_to
progress here = inl refl
progress (next {t} {u} r e) = elim (progress r) [
  | inl new ↦ from_opening u (rw new at e)
  | inr (inl gone) ↦ absurd (stuck u (rw gone at e))
  | inr (inr (inl (before, after))) ↦ inr (inr (inl (before, next after e)))
  | inr (inr (inr (before, after))) ↦ inr (inr (inr (before, next after e)))
]
  where
    stuck : (u : PositionStatus) → can_transition_to closed u ≡ true → ⊥
    stuck u e = ground arith

    from_opening : (u : PositionStatus) → can_transition_to opening u ≡ true → Progress u
    from_opening open_unprotected e = inr (inr (inl (next here e, here)))
    from_opening reconciliation_required e = inr (inr (inr (next here e, here)))
    from_opening closed e = inr (inl refl)
    from_opening _ e = cc

-- A new position, after any number of transitions, is still opening, or closed without having
-- been open, or it has been through `OpenUnprotected` or through reconciliation: in particular
-- it is never protected, reduced or closing before one of these two.
pub opened_before_protected :
    (t : PositionStatus)
    → Steps can_transition_to opening t
    → (t ≡ opening) ⊎ ((t ≡ closed) ⊎ Examined t)
opened_before_protected t r = progress r
