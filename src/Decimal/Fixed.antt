-- ===== src/Decimal/Fixed.antt =====
-- A concrete decimal: integers that count millionths, with the division cut towards zero. It
-- shows that what is asked of decimals can hold, and it runs the tests.
use hyperliquid_live_executo.Base.{
  ℕ, zero, suc, ◌+◌, ◌*◌, ◌/◌, ◌^◌, Option, none, some, arith, leb, ◌==◌,
}
use hyperliquid_live_executo.Base.Int.{ℤ, pos, negsuc, pos_part, neg_part, sub_ℕ, quot_ℤ}
use hyperliquid_live_executo.Decimal.{DecimalOps}
use hyperliquid_live_executo.Decimal.Order.{OrderLaws}
use Prim.Native.Nat.{compare}

-- One, in millionths.
abbrev unit : ℕ
unit = 1000000

abbrev scaled : ℤ → ℕ → ℤ
scaled (pos n) k = pos (n * k)
scaled (negsuc n) k = sub_ℕ 0 (suc n * k)

abbrev negated : ℤ → ℤ
negated a = sub_ℕ (neg_part a) (pos_part a)

abbrev product : ℤ → ℤ → ℤ
product a (pos n) = scaled a n
product a (negsuc n) = negated (scaled a (suc n))

abbrev quotient : ℤ → ℤ → Option ℤ
quotient a (pos zero) = none
quotient a (pos (suc n)) = some (quot_ℤ (scaled a unit) (suc n))
quotient a (negsuc n) = some (negated (quot_ℤ (scaled a unit) (suc n)))

abbrev pub fixed : DecimalOps ℤ
fixed = record {
  compare = λ a b. compare (pos_part a + neg_part b) (pos_part b + neg_part a);
  zero = pos 0;
  new = λ n scale. pos (n * unit / 10 ^ scale);
  neg = negated;
  abs = λ a. pos (pos_part a + neg_part a);
  is_zero = λ a. (pos_part a + neg_part a) == 0;
  is_sign_positive = λ a. leb (neg_part a) 0;
  add = λ a b. some (sub_ℕ (pos_part a + pos_part b) (neg_part a + neg_part b));
  sub = λ a b. some (sub_ℕ (pos_part a + neg_part b) (neg_part a + pos_part b));
  mul = λ a b. some (quot_ℤ (product a b) unit);
  div = quotient;
}

pub fixed-OrderLaws : OrderLaws fixed
fixed-OrderLaws = record {
  le_refl = λ a. ground arith;
  le_trans = λ a b c p q. ground arith;
  lt_le_trans = λ a b c p q. ground arith;
  gt-lt = λ a b. ground arith;
}
