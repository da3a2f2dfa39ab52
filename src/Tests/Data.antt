-- ===== src/Tests/Data.antt =====
-- The values that the tests share: an intent for one account, over decimals in millionths.
use hyperliquid_live_executo.Base.{
  ◌+◌, ◌%◌, ℕ, ◌*◌, List, [], ◌∷◌, String, Option, none, some, str_eq, if◌then◌else◌,
}
use hyperliquid_live_executo.Base.Int.{ℤ, pos}
use hyperliquid_live_executo.Base.Time.{seconds}
use hyperliquid_live_executo.Domain.Confirmation.{ManualConfirmation}
use hyperliquid_live_executo.Domain.Intent.{TradeIntent, TakeProfitTarget, long, market_ioc}
use hyperliquid_live_executo.Risk.Decision.{RiskDecision, approved}

abbrev pub usd : ℕ → ℤ
usd n = pos (n * 1000000)

abbrev pub target : ℕ → ℕ → TakeProfitTarget ℤ
target price pct = record { price = usd price; position_pct = pct }

abbrev pub order : TradeIntent ℤ
order = record {
  schema_version = 1;
  intent_id = 7;
  strategy_id = "trend";
  strategy_version = "1";
  strategy_instance_id = "trend-1";
  signal_id = "signal-1";
  account_id = "main";
  symbol = "BTC";
  side = long;
  reference_price = usd 100;
  max_notional_usd = usd 20;
  max_risk_usd = usd 1;
  entry = record { kind = market_ioc; max_slippage_bps = 20 };
  exit = record { stop_loss_price = usd 95; take_profit = target 105 60 ∷ target 110 40 ∷ [] };
  created_at = seconds 10;
  expires_at = seconds 60;
}

-- The decision of the default policy: the risk of 1 dollar over a stop 5 % away is a notional of 20.
abbrev pub decision : RiskDecision ℤ
decision = record {
  status = approved;
  policy_version = "shadow-tiny-v1";
  reason_codes = [];
  approved_notional_usd = some (usd 20);
  estimated_stop_risk_usd = some (usd 1);
  stop_distance_bps = some (usd 500);
}

abbrev pub request : ManualConfirmation
request = record {
  digest = "digest-1";
  expires_at = seconds 40;
  confirmed_at = none;
  confirmed_by = none;
}

abbrev checksum : List ℕ → ℕ
checksum [] = 0
checksum (b ∷ bs) = (b + checksum bs) % 256

-- A digest function: the sum of the bytes, and fifteen more bytes.
abbrev pub sha256 : List ℕ → List ℕ
sha256 bytes =
    checksum bytes ∷ 2 ∷ 3 ∷ 4 ∷ 5 ∷ 6 ∷ 7 ∷ 8 ∷ 9 ∷ 10 ∷ 11 ∷ 12 ∷ 13 ∷ 14 ∷ 15 ∷ 16 ∷ []

-- The texts of decimals that the tests read.
abbrev pub parse : String → Option ℤ
parse text =
    if str_eq text "0"
    then some (usd 0)
    else if str_eq text "0.5"
    then some (pos 500000)
    else if str_eq text "1"
    then some (usd 1)
    else if str_eq text "95"
    then some (usd 95)
    else if str_eq text "99"
    then some (usd 99)
    else if str_eq text "100"
    then some (usd 100)
    else none
