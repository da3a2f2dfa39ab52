-- ===== src/Domain/Validation/Allocation.antt =====
-- The sum of the take-profit allocation is taken in 16 bits.
use hyperliquid_live_executo.Base.{
  ℕ, ◌+◌, ◌%◌, ◌≤◌, ◌<◌, ◌*◌, ◌≡◌, ◌⊎◌, true, List, [], ◌∷◌, All, length, arith,
}
use hyperliquid_live_executo.Decimal.{DecimalOps}
use hyperliquid_live_executo.Domain.Intent.{TakeProfitTarget}
use hyperliquid_live_executo.Domain.Validation.{
  position_pct_sum, position_pct_sum_from, valid_take_profit,
}

-- The allocation as a plain sum.
abbrev pub total_pct : {D : Type 0} → List (TakeProfitTarget D) → ℕ
total_pct [] = 0
total_pct (t ∷ ts) = t.position_pct + total_pct ts

module _ {D : Type 0} where
  sum_from-mod :
      (acc : ℕ) (ts : List (TakeProfitTarget D))
      → acc < 65536
      → position_pct_sum_from acc ts ≡ (acc + total_pct ts) % 65536
  sum_from-mod acc [] h = omega arith
  sum_from-mod acc (t ∷ ts) h =
      omega (arith, sum_from-mod ((acc + t.position_pct) % 65536) ts (omega arith))

  pub position_pct_sum-mod :
      (ts : List (TakeProfitTarget D)) → position_pct_sum ts ≡ total_pct ts % 65536
  position_pct_sum-mod ts = omega (arith, sum_from-mod 0 ts (omega arith))

  total_bound :
      (ts : List (TakeProfitTarget D))
      → All (λ (t : TakeProfitTarget D). t.position_pct ≤ 255) ts
      → total_pct ts ≤ 255 * length ts
  total_bound [] h = omega arith
  total_bound (t ∷ ts) h = omega (arith, total_bound ts h.1)

module _ {D : Type 0} (ops : DecimalOps D) where
  valid-sum :
      (ts : List (TakeProfitTarget D)) → valid_take_profit ops ts ≡ true → position_pct_sum ts ≡ 100
  unfolding valid_take_profit
  valid-sum ts h = ground arith

  -- A take-profit list that is accepted allocates 100 modulo 2¹⁶; with at most 257 targets, each
  -- an 8-bit percentage, it allocates exactly 100.
  pub allocation_total :
      (ts : List (TakeProfitTarget D))
      → All (λ (t : TakeProfitTarget D). t.position_pct ≤ 255) ts
      → valid_take_profit ops ts ≡ true
      → (total_pct ts % 65536 ≡ 100) × ((257 < length ts) ⊎ (total_pct ts ≡ 100))
  allocation_total ts small h =
      grind (arith, sum_from-mod 0 ts (omega arith), valid-sum ts h, total_bound ts small)
