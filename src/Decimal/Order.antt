-- ===== src/Decimal/Order.antt =====
-- What the theorems rest on: the order of `Decimal` is total, as `Ord` promises, and its minimum
-- is below both arguments.
use hyperliquid_live_executo.Base.{◌≡◌, true, false, arith}
use hyperliquid_live_executo.Decimal.{DecimalOps}
use hyperliquid_live_executo.Decimal

-- The contract of `Ord`: a number is not below itself, at most is transitive,
-- also when it begins with a strict step, and of two numbers
-- that are not in order the other is at most the first.
pub record OrderLaws {D : Type 0} (ops : DecimalOps D) : Type 0 where
  pub le_refl : (a : D) → Decimal.le ops a a ≡ true
  pub le_trans :
      (a b c : D)
      → Decimal.le ops a b ≡ true
      → Decimal.le ops b c ≡ true
      → Decimal.le ops a c ≡ true
  pub lt_le_trans :
      (a b c : D)
      → Decimal.lt ops a b ≡ true
      → Decimal.le ops b c ≡ true
      → Decimal.lt ops a c ≡ true
  pub gt-lt : (a b : D) → Decimal.gt ops a b ≡ Decimal.lt ops b a

module _ {D : Type 0} {ops : DecimalOps D} (laws : OrderLaws ops) where
  pub min-le_left : (a b : D) → Decimal.le ops (Decimal.min ops a b) a ≡ true
  min-le_left a b = ground (arith, laws.gt-lt a b, laws.le_refl a)

  pub min-le_right : (a b : D) → Decimal.le ops (Decimal.min ops a b) b ≡ true
  min-le_right a b = ground (arith, laws.le_refl b)

  pub not-lt-max :
      (x a b : D)
      → Decimal.lt ops x (Decimal.max ops a b) ≡ false
      → (Decimal.lt ops x a ≡ false) × (Decimal.lt ops x b ≡ false)
  not-lt-max x a b h =
      ground (arith, laws.gt-lt a b, laws.lt_le_trans x a b, laws.lt_le_trans x b a)

  pub eq_self : (a : D) → Decimal.eq ops a a ≡ true
  eq_self a = ground (arith, laws.gt-lt a a)
