-- ===== src/Base/Steps.antt =====
-- Runs of a transition test: the statuses that can follow one another.
use hyperliquid_live_executo.Base.{ℕ, suc, ◌+◌, ◌<◌, ◌≤◌, ◌≡◌, Bool, true, arith}

-- A run from `s`, by transitions that the test `can` allows.
pub data Steps {S : Type 0} (can : S → S → Bool) (s : S) : S → Type 0 where
  here : Steps can s s
  next : {t u : S} → Steps can s t → can t u ≡ true → Steps can s u

module _ {S : Type 0} {can : S → S → Bool} where
  abbrev pub steps : {s t : S} → Steps can s t → ℕ
  steps here = 0
  steps (next r _) = suc (steps r)

  -- What every transition keeps, a run keeps.
  pub Steps-keeps :
      (P : S → Type 0)
      → ((t u : S) → P t → can t u ≡ true → P u)
      → {s t : S} → P s
      → Steps can s t
      → P t
  Steps-keeps P keep h here = h
  Steps-keeps P keep h (next {t} {u} r e) = keep t u (Steps-keeps P keep h r) e

  -- Where every transition raises a rank, a run has no more steps than the rank has risen.
  pub steps-le-rank :
      (rank : S → ℕ)
      → ((t u : S) → can t u ≡ true → rank t < rank u)
      → {s t : S} (r : Steps can s t) → steps r + rank s ≤ rank t
  steps-le-rank rank rises here = omega arith
  steps-le-rank rank rises (next {t} {u} r e) =
      omega (arith, steps-le-rank rank rises r, rises t u e)
