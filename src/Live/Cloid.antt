-- ===== src/Live/Cloid.antt =====
-- src/live_execution.rs: the roles of an intent's orders, and the client order id of each.
pub mod Roles
use hyperliquid_live_executo.Base.{
  ℕ, ◌+◌, ◌*◌, ◌/◌, ◌%◌, ◌^◌, zero, suc, List, [], ◌∷◌, ◌++◌, ltb, if◌then◌else◌, codes,
}
use Prim.Native.Nat.{bit_and, bit_or}

-- The number of a take-profit order is a u8.
pub data OrderRole : Type 0 where
  entry : OrderRole
  stop_loss : OrderRole
  take_profit : ℕ → OrderRole
  emergency_close : OrderRole

-- The decimal digits of a u8.
abbrev pub decimal_u8 : ℕ → List ℕ
decimal_u8 n =
    if ltb n 10
    then (48 + n) ∷ []
    else if ltb n 100
    then (48 + n / 10) ∷ (48 + n % 10) ∷ []
    else (48 + n / 100) ∷ (48 + n / 10 % 10) ∷ (48 + n % 10) ∷ []

-- The name as its bytes.
unfoldable pub stable_name : OrderRole → List ℕ
stable_name entry = codes "entry"
stable_name stop_loss = codes "stop_loss"
stable_name (take_profit index) = codes "take_profit_" ++ decimal_u8 index
stable_name emergency_close = codes "emergency_close"

-- `Uuid::as_bytes`: the 16 bytes of a 128-bit number, the high byte first.
abbrev big_endian : ℕ → ℕ → List ℕ
big_endian zero n = []
big_endian (suc k) n = n / 256 ^ k % 256 ∷ big_endian k n

abbrev uuid_bytes : ℕ → List ℕ
uuid_bytes n = big_endian 16 n

-- `Uuid::from_bytes`
abbrev from_bytes : ℕ → List ℕ → ℕ
from_bytes acc [] = acc
from_bytes acc (b ∷ bs) = from_bytes (acc * 256 + b) bs

-- The first 16 bytes with the version and the variant of a name-based UUID written in; a digest
-- of the `sha2` crate has 32.
abbrev stamped : List ℕ → List ℕ
stamped (b0 ∷ b1 ∷ b2 ∷ b3 ∷ b4 ∷ b5 ∷ b6 ∷ b7 ∷ b8 ∷ b9 ∷ ba ∷ bb ∷ bc ∷ bd ∷ be ∷ bf ∷ _) =
    b0
    ∷ b1
    ∷ b2
    ∷ b3
    ∷ b4
    ∷ b5
    ∷ bit_or (bit_and b6 0x0f) 0x50
    ∷ b7
    ∷ bit_or (bit_and b8 0x3f) 0x80
    ∷ b9
    ∷ ba
    ∷ bb
    ∷ bc
    ∷ bd
    ∷ be
    ∷ bf
    ∷ []
stamped _ = []

-- `sha256` is the digest function of the `sha2` crate.
unfoldable pub deterministic_cloid : (List ℕ → List ℕ) → ℕ → OrderRole → ℕ
deterministic_cloid sha256 intent_id role = from_bytes 0 (
    stamped
      (sha256 (codes "hyperliquid-executor-cloid-v1" ++ uuid_bytes intent_id ++ stable_name role)))
