-- ===== src/Gateway/Tools.antt =====
-- What src/live_gateway.rs takes from other crates: decimals, floats and a digest function.
use hyperliquid_live_executo.Base.{ℕ, List, String, Option}
use hyperliquid_live_executo.Decimal.{DecimalOps}
use hyperliquid_live_executo.Gateway.Sdk.{Floats}

-- What the gateway takes from elsewhere: the decimals and their texts, the floats, the rounding of a
-- size, and the digest function.
pub record Tools (D F : Type 0) : Type 0 where
  pub ops : DecimalOps D
  pub parse : String → Option D
  pub floats : Floats D F
  pub round_to_zero : ℕ → D → D
  pub sha256 : List ℕ → List ℕ
