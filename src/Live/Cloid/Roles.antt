-- ===== src/Live/Cloid/Roles.antt =====
-- The names of the roles tell them apart.
use hyperliquid_live_executo.Base.{ℕ, ◌≡◌, ◌<◌, refl, ap, List, ◌∷◌, arith}
use hyperliquid_live_executo.Live.Cloid.{
  OrderRole, entry, stop_loss, take_profit, emergency_close, decimal_u8, stable_name,
}

-- The second letter tells the four kinds apart.
abbrev second_byte : List ℕ → ℕ
second_byte (_ ∷ b ∷ _) = b
second_byte _ = 0

abbrev IsRole : OrderRole → Type 0
IsRole (take_profit index) = index < 256
IsRole _ = Unit

decimal_u8-injective : (m n : ℕ) → m < 256 → n < 256 → decimal_u8 m ≡ decimal_u8 n → m ≡ n
decimal_u8-injective m n hm hn h = ground arith

take_profit-injective :
    (m n : ℕ)
    → m < 256
    → n < 256
    → stable_name (take_profit m) ≡ stable_name (take_profit n)
    → m ≡ n
unfolding stable_name
take_profit-injective m n hm hn h = decimal_u8-injective m n hm hn (cc)

-- Two roles with 8-bit numbers have the same stable name only if they are the same role, the
-- number of a take-profit order included.
pub stable_name-injective :
    (r s : OrderRole) → IsRole r → IsRole s → stable_name r ≡ stable_name s → r ≡ s
unfolding stable_name
stable_name-injective entry entry hr hs h = refl
stable_name-injective stop_loss stop_loss hr hs h = refl
stable_name-injective emergency_close emergency_close hr hs h = refl
stable_name-injective (take_profit m) (take_profit n) hr hs h =
    ap take_profit (take_profit-injective m n hr hs h)
stable_name-injective _ _ hr hs h = absurd (omega (arith, ap second_byte h))
