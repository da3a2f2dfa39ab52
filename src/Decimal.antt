-- ===== src/Decimal.antt =====
-- The decimal numbers of the `rust_decimal` crate, as a parameter: the program reads them only
-- through the operations of `DecimalOps`. An arithmetic operation that panics (an overflow, a
-- division by zero) is `none`.
pub mod Fixed
pub mod Order
use hyperliquid_live_executo.Base.{ℕ, Ordering, Bool, true, false, Option}

pub record DecimalOps (D : Type 0) : Type 0 where
  -- `Ord::cmp`
  pub compare : D → D → Ordering
  -- `Decimal::ZERO`
  pub zero : D
  -- `Decimal::new(n, scale)`, for the constants of the source, and `Decimal::from(n)`
  pub new : ℕ → ℕ → D
  pub neg : D → D
  pub abs : D → D
  pub is_zero : D → Bool
  pub is_sign_positive : D → Bool
  pub add : D → D → Option D
  pub sub : D → D → Option D
  pub mul : D → D → Option D
  pub div : D → D → Option D

abbrev is_lt : Ordering → Bool
is_lt Ordering.lt = true
is_lt Ordering.eq = false
is_lt Ordering.gt = false

abbrev is_gt : Ordering → Bool
is_gt Ordering.lt = false
is_gt Ordering.eq = false
is_gt Ordering.gt = true

module _ {D : Type 0} (ops : DecimalOps D) where
  -- The comparison operators, by `Ord::cmp`.
  abbrev pub lt : D → D → Bool
  lt a b = is_lt (ops.compare a b)

  abbrev pub gt : D → D → Bool
  gt a b = is_gt (ops.compare a b)

  abbrev pub le : D → D → Bool
  le a b = elim (ops.compare a b) [ Ordering.gt ↦ false | _ ↦ true ]

  abbrev pub ge : D → D → Bool
  ge a b = elim (ops.compare a b) [ Ordering.lt ↦ false | _ ↦ true ]

  abbrev pub eq : D → D → Bool
  eq a b = elim (ops.compare a b) [ Ordering.eq ↦ true | _ ↦ false ]

  -- `Ord::min` and `Ord::max`: the first of two equal numbers, and the second.
  abbrev pub min : D → D → D
  min a b = elim (ops.compare a b) [ Ordering.gt ↦ b | _ ↦ a ]

  abbrev pub max : D → D → D
  max a b = elim (ops.compare a b) [ Ordering.gt ↦ a | _ ↦ b ]

  -- `Decimal::from` on an integer.
  abbrev pub from : ℕ → D
  from n = ops.new n 0
