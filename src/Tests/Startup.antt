-- ===== src/Tests/Startup.antt =====
-- The start of the process on concrete environments.
use hyperliquid_live_executo.Base.{◌≡◌, refl, true, [], ◌∷◌, String, none, some}
use hyperliquid_live_executo.Base.Int.{ℤ}
use hyperliquid_live_executo.Base.Result.{ok, err}
use hyperliquid_live_executo.Base.Text.{bytes, is_blank, to_ascii_lowercase}
use hyperliquid_live_executo.Decimal.Fixed.{fixed}
use hyperliquid_live_executo.Mainnet.Parse.{new_adapter}
use hyperliquid_live_executo.Risk.Policy
use hyperliquid_live_executo.Risk.Policy.{RiskPolicy, shadow_tiny_default}
use hyperliquid_live_executo.Start.{
  Environment, Started, LiveWorker, mainnet, serving, other_account, start, start_engine,
  start_live, check_tiny_mainnet,
}
use hyperliquid_live_executo.Start.Gated.{IsLive, start-IsLive}
use hyperliquid_live_executo.Store.Executions.{unresolved_live_execution_count}
use hyperliquid_live_executo.Store.Reach.{empty}
use hyperliquid_live_executo.Store.Snapshots.{configure_mainnet_account}
use hyperliquid_live_executo.Store.State.{Store}

abbrev policy : RiskPolicy ℤ
policy = record (shadow_tiny_default fixed) { version = "tiny-v2" }

abbrev address : String
address = "0xabcdefabcdefabcdefabcdefabcdefabcdefabcd"

-- The same address, as it is often written.
abbrev mixed_address : String
mixed_address = "0xABCDEFabcdefABCDEFabcdefABCDEFabcdefABCD"

abbrev environment : String → Environment ℤ
environment account = record {
  key_material = some (ok (1 ∷ []));
  execution_mode = some "tiny-mainnet";
  custom_risk_policy = some (some policy);
  mainnet_account = some account;
  api_wallet = some "0xABC";
  account = none;
  acknowledgement = some "I_UNDERSTAND_REAL_FUNDS_ARE_AT_RISK";
  wallet_address = λ _. some "0xabc";
  gateway_ready = λ _ _. true;
}

abbrev worker : LiveWorker
worker = record { account = address; base_url = mainnet }

abbrev started : Started ℤ
started = serving fixed (some (1 ∷ [])) policy (some address) (some worker)

abbrev configured : Store ℤ
configured = (configure_mainnet_account address (empty 0)).1

adapter-lower : new_adapter {D = ℤ} mixed_address ≡ ok address
unfolding new_adapter bytes to_ascii_lowercase
adapter-lower = refl

starts : start fixed (environment address) (empty 0) ≡ ok (started, configured)
unfolding start start_engine start_live check_tiny_mainnet new_adapter bytes is_blank
    to_ascii_lowercase Policy.validate Policy.validate_limits Policy.validate_portfolio
    Policy.validate_market Policy.validate_strategies shadow_tiny_default configure_mainnet_account
    unresolved_live_execution_count
starts = refl

start-IsLive_example : IsLive fixed (environment address) started worker configured
start-IsLive_example =
    start-IsLive fixed (environment address) started worker (empty 0) configured starts refl

-- An address that is not in lower case is refused, since only one of its two copies is normalised.
mixed-refused : start fixed (environment mixed_address) (empty 0) ≡ err other_account
unfolding start start_engine start_live check_tiny_mainnet new_adapter bytes is_blank
    to_ascii_lowercase Policy.validate Policy.validate_limits Policy.validate_portfolio
    Policy.validate_market Policy.validate_strategies shadow_tiny_default configure_mainnet_account
    unresolved_live_execution_count
mixed-refused = refl
