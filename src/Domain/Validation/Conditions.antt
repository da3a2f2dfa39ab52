-- ===== src/Domain/Validation/Conditions.antt =====
-- The conditions on an intent, and the tests of `TradeIntent::validate` that decide
-- them.
use hyperliquid_live_executo.Base.{
  ℕ, ◌+◌, ◌%◌, ◌≤◌, ◌<◌, ◌≡◌, ◌↔◌, refl, Bool, true, false, List, [], ◌∷◌, String, all, any, All,
  length, is_empty, codes, arith,
}
use hyperliquid_live_executo.Base.Text.{bytes, is_blank}
use hyperliquid_live_executo.Base.Time.{Timestamp, seconds}
use hyperliquid_live_executo.Decimal.{DecimalOps}
use hyperliquid_live_executo.Decimal.Order.{OrderLaws}
use hyperliquid_live_executo.Decimal
use hyperliquid_live_executo.Domain.Intent.{
  Side, long, short, TakeProfitTarget, ExitPolicy, TradeIntent, trade_intent_schema_version,
}
use hyperliquid_live_executo.Domain.Validation.Allocation.{total_pct, position_pct_sum-mod}
use hyperliquid_live_executo.Domain.Validation.{
  is_identifier_byte, valid_identifier, is_symbol_char, valid_symbol, not_positive,
  valid_take_profit, exit_direction_valid,
}

-- Between 1 and `n` bytes, each of which passes the test.
abbrev IsIdentifier : String → ℕ → Type 0
IsIdentifier s n =
    (1 ≤ length (bytes s))
    × (length (bytes s) ≤ n)
    × All (λ b. is_identifier_byte b ≡ true) (bytes s)

abbrev IsSymbol : String → Type 0
IsSymbol s =
    (1 ≤ length (bytes s)) × (length (bytes s) ≤ 32) × All (λ c. is_symbol_char c ≡ true) (codes s)

all_iff : {A : Type 0} (p : A → Bool) (xs : List A) → (all p xs ≡ true) ↔ All (λ x. p x ≡ true) xs
all_iff p [] = (λ h. tt, λ h. refl)
all_iff p (x ∷ xs) = (λ h. ground (arith, (all_iff p xs).0), λ h. ground (arith, (all_iff p xs).1))

any_iff : {A : Type 0} (p : A → Bool) (xs : List A) → (any p xs ≡ false) ↔ All (λ x. p x ≡ false) xs
any_iff p [] = (λ h. tt, λ h. refl)
any_iff p (x ∷ xs) = (λ h. ground (arith, (any_iff p xs).0), λ h. ground (arith, (any_iff p xs).1))

nonempty_iff : {A : Type 0} (xs : List A) → (is_empty xs ≡ false) ↔ (1 ≤ length xs)
nonempty_iff [] = (λ h. cc, λ h. absurd (omega arith))
nonempty_iff (x ∷ xs) = (λ h. omega arith, λ h. refl)

pub valid_identifier_iff : (s : String) (n : ℕ) → (valid_identifier s n ≡ true) ↔ IsIdentifier s n
unfolding valid_identifier
valid_identifier_iff s n = (
  λ h. ground (arith, (nonempty_iff (bytes s)).0, (all_iff is_identifier_byte (bytes s)).0),
  λ h. ground (arith, (nonempty_iff (bytes s)).1 h.0, (all_iff is_identifier_byte (bytes s)).1 h.2),
)

pub valid_symbol_iff : (s : String) → (valid_symbol s ≡ true) ↔ IsSymbol s
unfolding valid_symbol
valid_symbol_iff s = (
  λ h. ground (arith, (nonempty_iff (bytes s)).0, (all_iff is_symbol_char (codes s)).0),
  λ h. ground (arith, (nonempty_iff (bytes s)).1 h.0, (all_iff is_symbol_char (codes s)).1 h.2),
)

module _ {D : Type 0} (ops : DecimalOps D) where
  abbrev pub IsPositive : D → Type 0
  IsPositive x = Decimal.lt ops ops.zero x ≡ true

  -- The stop on the losing side of the reference price, and every target on the winning side.
  abbrev ExitFits : Side → D → ExitPolicy D → Type 0
  ExitFits long reference exit =
      (Decimal.lt ops exit.stop_loss_price reference ≡ true)
      × All (λ (t : TakeProfitTarget D). Decimal.lt ops reference t.price ≡ true) exit.take_profit
  ExitFits short reference exit =
      (Decimal.lt ops reference exit.stop_loss_price ≡ true)
      × All (λ (t : TakeProfitTarget D). Decimal.lt ops t.price reference ≡ true) exit.take_profit

  -- What the code asks of an intent at the time `now`. The contract of contracts/openapi.yaml asks
  -- more of the targets, each of which must allocate at least 1, and counts the characters of the
  -- strategy's version where the code counts its bytes.
  pub record IsAdmissible (i : TradeIntent D) (now : Timestamp) : Type 0 where
    pub version : i.schema_version ≡ trade_intent_schema_version
    pub strategy : IsIdentifier i.strategy_id 64
    pub versioned : (is_blank i.strategy_version ≡ false) × (length (bytes i.strategy_version) ≤ 64)
    pub instance_id : IsIdentifier i.strategy_instance_id 128
    pub signal : IsIdentifier i.signal_id 128
    pub account : IsIdentifier i.account_id 64
    pub symbol : IsSymbol i.symbol
    pub notional : IsPositive i.max_notional_usd
    pub reference : IsPositive i.reference_price
    pub risk : IsPositive i.max_risk_usd × (Decimal.le ops i.max_risk_usd i.max_notional_usd ≡ true)
    pub slippage : (1 ≤ i.entry.max_slippage_bps) × (i.entry.max_slippage_bps ≤ 500)
    pub stop : IsPositive i.exit.stop_loss_price
    pub targets :
        (1 ≤ length i.exit.take_profit)
        × All (λ (t : TakeProfitTarget D). IsPositive t.price) i.exit.take_profit
        × (total_pct i.exit.take_profit % 65536 ≡ 100)
    pub direction : ExitFits i.side i.reference_price i.exit
    pub window : (i.created_at ≤ now + seconds 30) × (i.created_at < i.expires_at)
    pub current : now < i.expires_at

module _ {D : Type 0} (ops : DecimalOps D) (laws : OrderLaws ops) where
  pub IsPositive-iff : (x : D) → (not_positive ops x ≡ false) ↔ IsPositive ops x
  IsPositive-iff x =
      (λ h. ground (arith, laws.gt-lt x ops.zero), λ h. ground (arith, laws.gt-lt x ops.zero))

  pub le_iff : (a b : D) → (Decimal.gt ops a b ≡ false) ↔ (Decimal.le ops a b ≡ true)
  le_iff a b = (λ h. ground arith, λ h. ground arith)

  All-gt :
      (r : D) (ts : List (TakeProfitTarget D))
      → (all (λ t. Decimal.gt ops t.price r) ts ≡ true)
        ↔ All (λ (t : TakeProfitTarget D). Decimal.lt ops r t.price ≡ true) ts
  All-gt r [] = (λ h. tt, λ h. refl)
  All-gt r (t ∷ ts) = (
    λ h. ground (arith, laws.gt-lt t.price r, (All-gt r ts).0),
    λ h. ground (arith, laws.gt-lt t.price r, (All-gt r ts).1 h.1),
  )

  All-IsPositive :
      (ts : List (TakeProfitTarget D))
      → (any (λ (t : TakeProfitTarget D). not_positive ops t.price) ts ≡ false)
        ↔ All (λ (t : TakeProfitTarget D). IsPositive ops t.price) ts
  All-IsPositive [] = (λ h. tt, λ h. refl)
  All-IsPositive (t ∷ ts) = (
    λ h. ground (arith, laws.gt-lt t.price ops.zero, (All-IsPositive ts).0),
    λ h. ground (arith, laws.gt-lt t.price ops.zero, (All-IsPositive ts).1 h.1),
  )

  pub direction_iff :
      (s : Side) (r : D) (e : ExitPolicy D)
      → (exit_direction_valid ops s r e ≡ true) ↔ ExitFits ops s r e
  unfolding exit_direction_valid
  direction_iff long r e = (
    λ h. ground (arith, (All-gt r e.take_profit).0),
    λ h. ground (arith, (All-gt r e.take_profit).1 h.1),
  )
  direction_iff short r e = (
    λ h. ground (
      arith,
      laws.gt-lt e.stop_loss_price r,
      (all_iff (λ (t : TakeProfitTarget D). Decimal.lt ops t.price r) e.take_profit).0,
    ),
    λ h. ground (
      arith,
      laws.gt-lt e.stop_loss_price r,
      (all_iff (λ (t : TakeProfitTarget D). Decimal.lt ops t.price r) e.take_profit).1 h.1,
    ),
  )

  pub targets_iff :
      (ts : List (TakeProfitTarget D))
      → (valid_take_profit ops ts ≡ true) ↔ (
          (1 ≤ length ts)
          × All (λ (t : TakeProfitTarget D). IsPositive ops t.price) ts
          × (total_pct ts % 65536 ≡ 100))
  unfolding valid_take_profit
  targets_iff ts = (
    λ h. ground (arith, (nonempty_iff ts).0, (All-IsPositive ts).0, position_pct_sum-mod ts),
    λ h.
        ground (arith, (nonempty_iff ts).1 h.0, (All-IsPositive ts).1 h.1, position_pct_sum-mod ts),
  )
