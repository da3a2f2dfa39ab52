-- ===== src/Start.antt =====
-- src/main.rs: what the process checks before it serves. The environment variables, the unlocking of
-- the key, the reading of the policy and the gateway's clients are arguments. Every failure is a panic.
pub mod Gated
use hyperliquid_live_executo.Base.{
  ℕ, Bool, true, false, not, ◌||◌, String, Option, none, some, ◌==◌, str_eq, is_some, List,
  if◌then◌else◌,
}
use hyperliquid_live_executo.Base.Result.{Result, ok, err, panic, fail_if, ◌>>=◌, ◌>>◌}
use hyperliquid_live_executo.Base.Text.{to_ascii_lowercase}
use hyperliquid_live_executo.Decimal.{DecimalOps}
use hyperliquid_live_executo.Engine.{Engine}
use hyperliquid_live_executo.KeyVault.Files.{KeyVaultError}
use hyperliquid_live_executo.Mainnet.Parse.{Read, new_adapter}
use hyperliquid_live_executo.Risk.Policy.{
  RiskPolicy, RiskPolicyError, shadow_tiny_default, validate,
}
use hyperliquid_live_executo.Store.Executions.{unresolved_live_execution_count}
use hyperliquid_live_executo.Store.Snapshots.{configure_mainnet_account}
use hyperliquid_live_executo.Store.State.{Store, StoreError}

-- The exchange that the gateway writes to.
pub data BaseUrl : Type 0 where
  testnet mainnet : BaseUrl

-- What the process is given.
pub record Environment (D : Type 0) : Type 0 where
  -- the unlocked key, if HL_EXECUTOR_KEY_FILE is set
  pub key_material : Option (Result KeyVaultError (List ℕ))
  -- HL_EXECUTOR_MODE
  pub execution_mode : Option String
  -- the policy that the file holds, if HL_EXECUTOR_RISK_POLICY is set and if it can be read
  pub custom_risk_policy : Option (Option (RiskPolicy D))
  -- HL_MAINNET_ACCOUNT_ADDRESS, HL_API_WALLET_ADDRESS, HL_ACCOUNT_ADDRESS, HL_TINY_MAINNET_ACK
  pub mainnet_account : Option String
  pub api_wallet : Option String
  pub account : Option String
  pub acknowledgement : Option String
  -- the address of the wallet of a key, in lower case
  pub wallet_address : List ℕ → Option String
  -- whether the clients of the gateway can be made for an exchange and an account
  pub gateway_ready : BaseUrl → String → Bool

pub data StartError : Type 0 where
  locked_key unknown_mode invalid_policy invalid_account store_failed : StartError
  missing_key invalid_key missing_wallet other_wallet missing_account unresolved : StartError
  missing_policy example_policy missing_acknowledgement other_account : StartError
  gateway_failed : StartError

-- The account of a worker and the exchange of its gateway.
pub record LiveWorker : Type 0 where
  pub account : String
  pub base_url : BaseUrl

-- The engine, and the worker if there is one.
pub record Started (D : Type 0) : Type 0 where
  pub engine : Engine D
  pub wallet_loaded : Bool
  pub worker : Option LiveWorker

-- `expect`
abbrev expect : {A : Type 0} → StartError → Option A → Result StartError A
expect e none = err e
expect e (some a) = ok a

abbrev pub unlocked : Option (Result KeyVaultError (List ℕ)) → Result StartError (Option (List ℕ))
unlocked none = ok none
unlocked (some (ok key)) = ok (some key)
unlocked (some (err _)) = err locked_key
unlocked (some panic) = panic

abbrev pub mode_of : Option String → String
mode_of none = "shadow"
mode_of (some mode) = mode

abbrev pub known_mode : String → Bool
known_mode mode = str_eq mode "shadow" || str_eq mode "testnet" || str_eq mode "tiny-mainnet"

abbrev or_account : Option String → Option String → Option String
or_account none second = second
or_account (some first) second = some first

abbrev pub same_text : Option String → String → Bool
same_text none b = false
same_text (some a) b = str_eq a b

module _ {D : Type 0} (ops : DecimalOps D) where
  abbrev valid : Result RiskPolicyError (Unit {0}) → Result StartError (Unit {0})
  valid (ok _) = ok tt
  valid (err _) = err invalid_policy
  valid panic = panic

  -- The policy of the file or the default one, which `RiskEngine::new` validates.
  abbrev pub loaded : Option (Option (RiskPolicy D)) → Result StartError (RiskPolicy D)
  loaded none = do valid (validate ops (shadow_tiny_default ops)); ok (shadow_tiny_default ops)
  loaded (some none) = err invalid_policy
  loaded (some (some policy)) = do valid (validate ops policy); ok policy

  abbrev configured :
      String → Result StoreError (Unit {0}) × Store D → Result StartError (Option String × Store D)
  configured account (ok _, t) = ok (some account, t)
  configured account (err _, t) = err store_failed
  configured account (panic, t) = panic

  abbrev adapter_started : Read D String → Store D → Result StartError (Option String × Store D)
  adapter_started (ok account) s = configured account (configure_mainnet_account account s)
  adapter_started (err _) s = err invalid_account
  adapter_started panic s = panic

  -- The read service, of which only the account matters here, and the store that it leaves.
  abbrev pub read_started : Option String → Store D → Result StartError (Option String × Store D)
  read_started none s = ok (none, s)
  read_started (some address) s = adapter_started (new_adapter address) s

  -- The conditions of the mode `tiny-mainnet`.
  unfoldable pub check_tiny_mainnet :
      Environment D → String → Option String → String → Result StartError (Unit {0})
  check_tiny_mainnet env version reconciliation account = do
    fail_if (not (is_some env.custom_risk_policy)) missing_policy
    fail_if (str_eq version "shadow-tiny-v1") example_policy
    fail_if (not (same_text env.acknowledgement "I_UNDERSTAND_REAL_FUNDS_ARE_AT_RISK"))
        missing_acknowledgement
    fail_if (not (same_text reconciliation account)) other_account

  abbrev checked_mode :
      Bool → Environment D → String → Option String → String → Result StartError (Unit {0})
  checked_mode false env version reconciliation account = ok tt
  checked_mode true env version reconciliation account =
      check_tiny_mainnet env version reconciliation account

  abbrev pub base_url_of : String → BaseUrl
  base_url_of execution_mode = if str_eq execution_mode "testnet" then testnet else mainnet

  -- The worker, in a mode other than `shadow`.
  unfoldable pub start_live :
      Environment D
      → Option (List ℕ)
      → String
      → Option String
      → Store D
      → Result StartError LiveWorker
  unfolding to_ascii_lowercase check_tiny_mainnet
  start_live env key_material version reconciliation s = do
    key ← expect missing_key key_material
    derived_wallet ← expect invalid_key (env.wallet_address key)
    configured_wallet ← expect missing_wallet env.api_wallet
    fail_if (not (str_eq derived_wallet (to_ascii_lowercase configured_wallet))) other_wallet
    account ← expect missing_account (or_account env.account env.mainnet_account)
    fail_if (not (unresolved_live_execution_count account s == 0)) unresolved
    checked_mode (str_eq (mode_of env.execution_mode) "tiny-mainnet") env version reconciliation
        account
    let base_url = base_url_of (mode_of env.execution_mode)
    fail_if (not (env.gateway_ready base_url account)) gateway_failed
    ok (record { account = account; base_url = base_url })

  abbrev pub worker_of :
      Bool
      → Environment D
      → Option (List ℕ)
      → String
      → Option String
      → Store D
      → Result StartError (Option LiveWorker)
  worker_of true env key version reconciliation s = ok none
  worker_of false env key version reconciliation s = do
    worker ← start_live env key version reconciliation s
    ok (some worker)

  abbrev pub account_of : Option LiveWorker → Option String
  account_of none = none
  account_of (some worker) = some worker.account

  -- What is served, with this worker if there is one.
  abbrev pub serving :
      Option (List ℕ) → RiskPolicy D → Option String → Option LiveWorker → Started D
  serving key policy reconciliation worker = record {
    engine = record {
      policy = policy;
      reconciliation_account = reconciliation;
      live_execution_account = account_of worker;
    };
    wallet_loaded = is_some key;
    worker = worker;
  }

  unfoldable pub start_engine :
      Environment D
      → Option (List ℕ)
      → RiskPolicy D
      → Option String
      → Store D
      → Result StartError (Started D × Store D)
  unfolding start_live
  start_engine env key policy reconciliation s = do
    worker ←
        worker_of (str_eq (mode_of env.execution_mode) "shadow") env key policy.version
          reconciliation s
    ok (serving key policy reconciliation worker, s)

  unfoldable pub start : Environment D → Store D → Result StartError (Started D × Store D)
  unfolding start_engine
  start env s = do
    key ← unlocked env.key_material
    fail_if (not (known_mode (mode_of env.execution_mode))) unknown_mode
    policy ← loaded env.custom_risk_policy
    read ← read_started env.mainnet_account s
    start_engine env key policy read.0 read.1
