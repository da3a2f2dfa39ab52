-- ===== src/Base/Result.antt =====
-- How a call of the program ends: with a value, with an error value, or in a panic.
use hyperliquid_live_executo.Base.{Bool, true, false, Option, none, some, ◌≡◌, refl, arith}

pub data Result (E : Type 0) (A : Type 0) : Type 0 where
  ok : A → Result E A
  err : E → Result E A
  panic : Result E A

module _ {E : Type 0} where
  infixl 5 ◌>>=◌ ◌>>◌
  abbrev pub ◌>>=◌ : {A B : Type 0} → Result E A → (A → Result E B) → Result E B
  panic >>= rest = panic
  err error >>= rest = err error
  ok value >>= rest = rest value

  abbrev pub ◌>>◌ : {B : Type 0} → Result E (Unit {0}) → Result E B → Result E B
  check >> rest = check >>= λ _. rest

  -- `if test { return Err(e) }`
  abbrev pub fail_if : Bool → E → Result E (Unit {0})
  fail_if true e = err e
  fail_if false e = ok tt

  -- An operation on decimals that panics where it has no value.
  abbrev pub or_panic : {A : Type 0} → Option A → Result E A
  or_panic none = panic
  or_panic (some a) = ok a

  -- A check that passed, and what followed it.
  pub passed :
      {B : Type 0} (t : Bool) (e : E) (k : Result E B) {b : B}
      → (fail_if t e >> k) ≡ ok b
      → (t ≡ false) × (k ≡ ok b)
  passed true e k h = cc
  passed false e k h = (refl, h)

  -- Two checks in a row have passed.
  pub both_ok :
      {B : Type 0} {b : B} (check : Result E (Unit {0})) (rest : Result E B)
      → (check >> rest) ≡ ok b
      → (check ≡ ok tt) × (rest ≡ ok b)
  both_ok check rest h = ground arith

  -- The first of two steps that have both succeeded, and the second.
  pub bound :
      {A B : Type 0} (r : Result E A) (k : A → Result E B) {b : B}
      → (r >>= k) ≡ ok b
      → (a : A) × (r ≡ ok a) × (k a ≡ ok b)
  bound (ok a) k h = (a, refl, h)
  bound (err e) k h = absurd (ground arith)
  bound panic k h = absurd (ground arith)
