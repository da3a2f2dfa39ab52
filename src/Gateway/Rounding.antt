-- ===== src/Gateway/Rounding.antt =====
-- src/live_gateway.rs: the size and the price of an order at the exchange's precision. `round_to_zero`
-- is `round_dp_with_strategy` with `RoundingStrategy::ToZero`, and the floats are parameters.
use hyperliquid_live_executo.Base.{
  ℕ, ◌+◌, ◌-◌, List, [], ◌∷◌, String, Option, none, some, str_eq, if◌then◌else◌,
}
use hyperliquid_live_executo.Base.Int.{ℤ, pos, sub_ℕ, pos_part, neg_part}
use hyperliquid_live_executo.Base.Result.{ok, fail_if, ◌>>=◌, ◌>>◌}
use hyperliquid_live_executo.Decimal
use hyperliquid_live_executo.Decimal.{DecimalOps}
use hyperliquid_live_executo.Gateway.Answers.{Call, or_failure}
use hyperliquid_live_executo.Gateway.Sdk.{Floats}
use hyperliquid_live_executo.Live.Execution.{definite}

-- The decimals of the first asset with the name.
abbrev decimals_of : String → List (String × ℕ) → Option ℕ
decimals_of symbol [] = none
decimals_of symbol ((name, decimals) ∷ rest) =
    if str_eq name symbol then some decimals else decimals_of symbol rest

unfoldable pub size_decimals : List (String × ℕ) → String → Call ℕ
size_decimals universe symbol =
    or_failure (definite "asset is missing from exchange metadata") (decimals_of symbol universe)

-- 5 - magnitude - 1, as an integer.
abbrev scale_exponent : ℤ → ℤ
scale_exponent magnitude = sub_ℕ (4 + neg_part magnitude) (pos_part magnitude)

module _ {D F : Type 0} (floats : Floats D F) where
  unfoldable pub decimal_f64 : D → Call F
  decimal_f64 value =
      or_failure (definite "decimal is outside exchange range") (floats.to_f64 value)

  -- Five significant digits, and then at most 6 decimals less those of the size.
  unfoldable pub round_price : List (String × ℕ) → String → F → Call F
  unfolding size_decimals
  round_price universe symbol price = do
    of_size ← size_decimals universe symbol
    let scale : F =
        floats.ten_powi
          (scale_exponent (floats.to_i32 (floats.floor (floats.log10 (floats.abs price)))))
    let significant : F = floats.div (floats.round (floats.mul (floats.abs price) scale)) scale
    let decimal_scale : F = floats.ten_powi (pos (6 - of_size))
    ok (
        floats.div (floats.round (floats.mul (floats.copysign significant price) decimal_scale))
          decimal_scale)

  module _ (ops : DecimalOps D) (round_to_zero : ℕ → D → D) where
    unfoldable pub round_size : List (String × ℕ) → String → D → Call F
    unfolding size_decimals decimal_f64
    round_size universe symbol size = do
      decimals ← size_decimals universe symbol
      fail_if (Decimal.le ops (round_to_zero decimals size) ops.zero)
          (definite "order size rounds to zero at exchange precision")
      decimal_f64 (round_to_zero decimals size)
