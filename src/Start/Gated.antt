-- ===== src/Start/Gated.antt =====
-- src/main.rs: what holds whenever the process has started a live worker.
use hyperliquid_live_executo.Base.{
  ℕ, ◌≡◌, refl, ap, eq_iff, true, false, List, String, Option, none, some, str_eq, not, is_some,
  arith, ◌⊎◌, inl, inr, Bool-cases,
}
use hyperliquid_live_executo.Base.Result.{ok, bound, passed}
use hyperliquid_live_executo.Base.Text.{to_ascii_lowercase}
use hyperliquid_live_executo.Decimal.{DecimalOps}
use hyperliquid_live_executo.Risk.Policy.{RiskPolicy, validate}
use hyperliquid_live_executo.Start.{
  Environment, Started, LiveWorker, testnet, mainnet, base_url_of, mode_of, known_mode, unlocked,
  loaded, read_started, unknown_mode, serving, start_engine, same_text, start_live, start,
  check_tiny_mainnet,
}
use hyperliquid_live_executo.Store.Executions.{unresolved_live_execution_count}
use hyperliquid_live_executo.Store.State.{Store}

module _ {D : Type 0} (ops : DecimalOps D) where
  -- The unlocked key and the wallet that it belongs to.
  pub record HasWallet (env : Environment D) : Type 0 where
    pub key : List ℕ
    pub wallet : String
    pub configured : String
    pub unlocked : env.key_material ≡ some (ok key)
    pub derived : env.wallet_address key ≡ some wallet
    pub given : env.api_wallet ≡ some configured
    pub same : str_eq wallet (to_ascii_lowercase configured) ≡ true

  -- What is asked for where real funds are at risk.
  pub record IsAcknowledged (env : Environment D) (started : Started D) (account : String)
      : Type 0 where
    pub custom : env.custom_risk_policy ≡ some (some started.engine.policy)
    pub version : str_eq started.engine.policy.version "shadow-tiny-v1" ≡ false
    pub acknowledged : env.acknowledgement ≡ some "I_UNDERSTAND_REAL_FUNDS_ARE_AT_RISK"
    pub reconciled : started.engine.reconciliation_account ≡ some account

  -- The mode and the exchange: testnet, or mainnet under the conditions for real funds, and no other.
  pub data HasMode (env : Environment D) (started : Started D) (worker : LiveWorker) : Type 0 where
    on_testnet :
        env.execution_mode ≡ some "testnet" → worker.base_url ≡ testnet → HasMode env started worker
    on_mainnet :
        env.execution_mode ≡ some "tiny-mainnet"
        → worker.base_url ≡ mainnet
        → IsAcknowledged env started worker.account
        → HasMode env started worker

  pub record IsLive (env : Environment D) (started : Started D) (worker : LiveWorker) (t : Store D)
      : Type 0 where
    pub wallet : HasWallet env
    pub valid : validate ops started.engine.policy ≡ ok tt
    pub resolved : unresolved_live_execution_count worker.account t ≡ 0
    pub confirmed_for : started.engine.live_execution_account ≡ some worker.account
    pub wallet_loaded : started.wallet_loaded ≡ true
    pub mode : HasMode env started worker

  loaded-valid :
      (custom : Option (Option (RiskPolicy D))) (policy : RiskPolicy D)
      → loaded ops custom ≡ ok policy
      → validate ops policy ≡ ok tt
  loaded-valid none policy h = ground arith
  loaded-valid (some none) policy h = ground arith
  loaded-valid (some (some custom)) policy h = ground arith

  -- The worker of an engine that has been started.
  engine_steps :
      (env : Environment D) (key : Option (List ℕ)) (policy : RiskPolicy D)
      (reconciliation : Option String) (started : Started D) (worker : LiveWorker) (s t : Store D)
      → start_engine ops env key policy reconciliation s ≡ ok (started, t)
      → started.worker ≡ some worker
      → (start_live ops env key policy.version reconciliation s ≡ ok worker)
        × (started ≡ serving ops key policy reconciliation (some worker))
        × (t ≡ s)
        × (str_eq (mode_of env.execution_mode) "shadow" ≡ false)
  unfolding start_engine
  engine_steps env key policy reconciliation started worker s t h w =
      (ground arith, ground arith, ground arith, ground arith)

  wallet_steps :
      (env : Environment D) (key : Option (List ℕ)) (version : String)
      (reconciliation : Option String) (worker : LiveWorker) (s : Store D)
      → unlocked env.key_material ≡ ok key
      → start_live ops env key version reconciliation s ≡ ok worker
      → HasWallet env
  unfolding start_live
  wallet_steps env none version reconciliation worker s u h = absurd (ground arith)
  wallet_steps env (some key) version reconciliation worker s u h =
      split (env.wallet_address key) refl env.api_wallet refl
    where
      split :
          (w : Option String)
          → env.wallet_address key ≡ w
          → (c : Option String) → env.api_wallet ≡ c
          → HasWallet env
      split none p c q = absurd (ground arith)
      split (some wallet) p none q = absurd (ground arith)
      split (some wallet) p (some configured) q = record {
        key = key;
        wallet = wallet;
        configured = configured;
        unlocked = ground arith;
        derived = p;
        given = q;
        same = ground arith;
      }

  live_steps :
      (env : Environment D) (key : Option (List ℕ)) (version : String)
      (reconciliation : Option String) (worker : LiveWorker) (s : Store D)
      → start_live ops env key version reconciliation s ≡ ok worker
      → (unresolved_live_execution_count worker.account s ≡ 0)
        × (worker.base_url ≡ base_url_of ops (mode_of env.execution_mode))
        × (is_some key ≡ true)
  unfolding start_live
  live_steps env key version reconciliation worker s h = (ground arith, ground arith, ground arith)

  tiny_steps :
      (env : Environment D) (key : Option (List ℕ)) (version : String)
      (reconciliation : Option String) (worker : LiveWorker) (s : Store D)
      → start_live ops env key version reconciliation s ≡ ok worker
      → str_eq (mode_of env.execution_mode) "tiny-mainnet" ≡ true
      → (is_some env.custom_risk_policy ≡ true)
        × (str_eq version "shadow-tiny-v1" ≡ false)
        × (same_text env.acknowledgement "I_UNDERSTAND_REAL_FUNDS_ARE_AT_RISK" ≡ true)
        × (same_text reconciliation worker.account ≡ true)
  unfolding start_live check_tiny_mainnet
  tiny_steps env key version reconciliation worker s h tiny =
      (ground arith, ground arith, ground arith, ground arith)

  same_text_lem : (a : Option String) (b : String) → same_text a b ≡ true → a ≡ some b
  same_text_lem none b h = absurd (ground arith)
  same_text_lem (some a) b h = ap (λ x. some x) ((eq_iff a b).0 h)

  -- The policy of a file that is given is the one that is used.
  custom_lem :
      (custom : Option (Option (RiskPolicy D))) (policy : RiskPolicy D)
      → loaded ops custom ≡ ok policy
      → is_some custom ≡ true
      → custom ≡ some (some policy)
  custom_lem none policy l h = absurd (ground arith)
  custom_lem (some none) policy l h = absurd (ground arith)
  custom_lem (some (some given)) policy l h = ap (λ p. some (some p)) (ground arith)

  start_parts :
      (env : Environment D) (started : Started D) (s t : Store D)
      → start ops env s ≡ ok (started, t)
      → (key : Option (List ℕ)) × (policy : RiskPolicy D) × (read : Option String × Store D)
        × (unlocked env.key_material ≡ ok key)
        × (known_mode (mode_of env.execution_mode) ≡ true)
        × (loaded ops env.custom_risk_policy ≡ ok policy)
        × (start_engine ops env key policy read.0 read.1 ≡ ok (started, t))
  unfolding start
  start_parts env started s t h =
      let (key, unlocked_ok, h1) = bound (unlocked env.key_material) _ h in
      let h2 = passed (not (known_mode (mode_of env.execution_mode))) unknown_mode _ h1 in
      let (policy, loaded_ok, h3) = bound (loaded ops env.custom_risk_policy) _ h2.1 in
      let (read, read_ok, h4) = bound (read_started ops env.mainnet_account s) _ h3 in
      (key, policy, read, unlocked_ok, ground (arith, h2.0), loaded_ok, h4)

  -- A mode that is known and not `shadow` is set, to one of the other two.
  mode_lem :
      (mode : Option String)
      → known_mode (mode_of mode) ≡ true
      → str_eq (mode_of mode) "shadow" ≡ false
      → (mode ≡ some "testnet") ⊎ (mode ≡ some "tiny-mainnet")
  mode_lem none known live = absurd (ground arith)
  mode_lem (some mode) known live = elim (Bool-cases (str_eq mode "testnet")) [
    | inl test ↦ inl (ap (λ m. some m) ((eq_iff mode "testnet").0 test))
    | inr other ↦ inr (ap (λ m. some m) ((eq_iff mode "tiny-mainnet").0 (ground arith)))
  ]

  engine-HasMode :
      (env : Environment D) (key : Option (List ℕ)) (policy : RiskPolicy D)
      (reconciliation : Option String) (worker : LiveWorker) (s : Store D)
      → loaded ops env.custom_risk_policy ≡ ok policy
      → start_live ops env key policy.version reconciliation s ≡ ok worker
      → worker.base_url ≡ base_url_of ops (mode_of env.execution_mode)
      → (env.execution_mode ≡ some "testnet") ⊎ (env.execution_mode ≡ some "tiny-mainnet")
      → HasMode env (serving ops key policy reconciliation (some worker)) worker
  engine-HasMode env key policy reconciliation worker s l h url (inl test) =
      on_testnet test (rw test at url)
  engine-HasMode env key policy reconciliation worker s l h url (inr tiny) =
      let (custom, version, acknowledged, reconciled) =
        tiny_steps env key policy.version reconciliation worker s h (rw tiny refl) in
      on_mainnet tiny (rw tiny at url) (record {
        custom = custom_lem _ _ l custom;
        version = version;
        acknowledged = same_text_lem _ _ acknowledged;
        reconciled = same_text_lem _ _ reconciled;
      })

  -- What holds of an engine with a worker.
  engine-IsLive :
      (env : Environment D) (key : Option (List ℕ)) (policy : RiskPolicy D)
      (reconciliation : Option String) (worker : LiveWorker) (s : Store D)
      → unlocked env.key_material ≡ ok key
      → known_mode (mode_of env.execution_mode) ≡ true
      → str_eq (mode_of env.execution_mode) "shadow" ≡ false
      → loaded ops env.custom_risk_policy ≡ ok policy
      → start_live ops env key policy.version reconciliation s ≡ ok worker
      → IsLive env (serving ops key policy reconciliation (some worker)) worker s
  engine-IsLive env key policy reconciliation worker s u known live l h =
      let (resolved, url, has_key) = live_steps env key policy.version reconciliation worker s h in
      record {
        wallet = wallet_steps env key policy.version reconciliation worker s u h;
        valid = loaded-valid env.custom_risk_policy policy l;
        resolved = resolved;
        confirmed_for = refl;
        wallet_loaded = has_key;
        mode =
            engine-HasMode env key policy reconciliation worker s l h url
              (mode_lem env.execution_mode known live);
      }

  -- If the process starts with a live worker, then the unlocked key is that of the configured API
  -- wallet, the policy is valid, the account of the worker has no unresolved execution in the store,
  -- and the engine confirms for the same account; and either the mode is `testnet` and the worker's
  -- gateway writes to the testnet, or the mode is `tiny-mainnet`, the gateway writes to the mainnet,
  -- the policy is that of the configured file and does not have the version of the default one, the
  -- risk is acknowledged word by word, and the account is the reconciled one.
  pub start-IsLive :
      (env : Environment D) (started : Started D) (worker : LiveWorker) (s t : Store D)
      → start ops env s ≡ ok (started, t)
      → started.worker ≡ some worker
      → IsLive env started worker t
  start-IsLive env started worker s t h w =
      let (key, policy, read, u, known, l, rest) = start_parts env started s t h in
      let (live, same, kept, mode) =
        engine_steps env key policy read.0 started worker read.1 t rest w in
      rw (same, kept) (engine-IsLive env key policy read.0 worker read.1 u known mode l live)
