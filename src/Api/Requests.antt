-- ===== src/Api/Requests.antt =====
-- src/api.rs: the handlers that write: `create_intent`, `confirm_intent`, `set_kill_switch` and
-- `acknowledge_reconciliation`.
pub mod Refusals
pub mod Runs
use hyperliquid_live_executo.Base.{
  ℕ, Bool, true, false, not, ◌&&◌, ◌||◌, List, String, Option, none, some, ◌==◌, str_eq, ltb,
  length, all, if◌then◌else◌,
}
use hyperliquid_live_executo.Base.Result.{Result, ok, err, panic}
use hyperliquid_live_executo.Base.Text.{bytes, is_blank, is_ascii_hexdigit}
use hyperliquid_live_executo.Base.Time.{Timestamp}
use hyperliquid_live_executo.Decimal.{DecimalOps}
use hyperliquid_live_executo.Domain.Intent.{TradeIntent}
use hyperliquid_live_executo.Engine
use hyperliquid_live_executo.Mainnet.{MainnetAccountSnapshot}
use hyperliquid_live_executo.Engine.{Engine, EngineError, SnapshotView}
use hyperliquid_live_executo.Mainnet.Status.{MainnetReadStatus, unconfigured}
use hyperliquid_live_executo.Risk.Decision.{RiskDecision}
use hyperliquid_live_executo.Store.State.{Store, StoreError, StoredIntent}
use hyperliquid_live_executo.Store.Intents
use hyperliquid_live_executo.Store.Reconciliation.{
  ReconciliationState, acknowledge_reconciliation_recovery,
}
use hyperliquid_live_executo.Api.Errors.{ApiError, Texts, bad_request, from_store, from_engine}

-- `ApiState`, with what the engine takes from elsewhere.
pub record ApiState (D : Type 0) : Type 0 where
  pub ops : DecimalOps D
  pub digest_of : TradeIntent D → RiskDecision D → Timestamp → Option String
  pub view : MainnetAccountSnapshot D → SnapshotView D
  pub sha256 : List ℕ → List ℕ
  pub engine : Engine D
  pub texts : Texts
  -- the status of the read service, if there is one
  pub mainnet_read : Option MainnetReadStatus
  pub wallet_loaded : Bool

-- The body of a request that writes, and what it is about.
pub data Request (D : Type 0) : Type 0 where
  -- the header and the intent
  create : Option String → TradeIntent D → Request D
  -- the id, the digest and who confirms
  confirm : ℕ → String → String → Request D
  kill_switch : Bool → Option String → Request D
  -- the account, the expected reason and who acknowledges
  acknowledge : String → String → String → Request D

-- What is written for each, with the status code of the first.
pub data Reply (D : Type 0) : Type 0 where
  created : ℕ → StoredIntent D → Reply D
  confirmed : StoredIntent D → Reply D
  switched : Bool → Option String → Reply D
  acknowledged : ReconciliationState → Reply D

-- A header that is missing or blank is no key.
unfoldable pub idempotency_key : Option String → Option String
idempotency_key none = none
idempotency_key (some key) = if is_blank key then none else some key

abbrev missing_reason : Option String → Bool
missing_reason none = true
missing_reason (some reason) = is_blank reason

abbrev invalid_text : String → ℕ → Bool
invalid_text text limit = is_blank text || ltb limit (length (bytes text))

unfoldable pub invalid_digest : String → Bool
invalid_digest digest =
    not (length (bytes digest) == 64) || not (all is_ascii_hexdigit (bytes digest))

abbrev pub mainnet_status_value : Option MainnetReadStatus → MainnetReadStatus
mainnet_status_value (some status) = status
mainnet_status_value none = unconfigured

abbrev other_account : String → Option String → Bool
other_account account none = true
other_account account (some configured) = not (str_eq configured account)

abbrev pub Handler : Type 0 → Type 0 → Type 0
Handler D A = Store D → Result ApiError A × Store D

-- A refusal before anything is called.
abbrev pub refuse_if : {D A : Type 0} → Bool → String → Handler D A → Handler D A
refuse_if true message k s = (err (bad_request message), s)
refuse_if false message k s = k s

module _ {D A B : Type 0} where
  -- The answer of the engine, or of the store.
  abbrev pub of_engine :
      Texts → (A → B) → Result EngineError A × Store D → Result ApiError B × Store D
  of_engine texts f (ok a, t) = (ok (f a), t)
  of_engine texts f (err e, t) = (err (from_engine texts e), t)
  of_engine texts f (panic, t) = (panic, t)

  abbrev pub of_store :
      Texts → (A → B) → Result StoreError A × Store D → Result ApiError B × Store D
  of_store texts f (ok a, t) = (ok (f a), t)
  of_store texts f (err e, t) = (err (from_store texts e), t)
  of_store texts f (panic, t) = (panic, t)

module _ {D : Type 0} (state : ApiState D) (clock : ℕ → Timestamp) where
  abbrev created_as : StoredIntent D × Bool → Reply D
  created_as (stored, is_new) = created (if is_new then 201 else 200) stored

  abbrev pub create_with : Option String → TradeIntent D → Handler D (Reply D)
  create_with none intent s = (err (bad_request "Idempotency-Key header is required"), s)
  create_with (some key) intent s =
      refuse_if (ltb 128 (length (bytes key))) "Idempotency-Key is too long"
        (λ s.
          of_engine state.texts created_as
            (Engine.submit state.ops state.digest_of state.view clock state.engine intent key s))
        s

  unfoldable pub create_intent : Option String → TradeIntent D → Handler D (Reply D)
  create_intent header intent = create_with (idempotency_key header) intent

  unfoldable pub confirm_intent : ℕ → String → String → Handler D (Reply D)
  confirm_intent id digest by = refuse_if (invalid_digest digest) "invalid confirmation digest" (
      refuse_if (invalid_text by 64) "confirmedBy is invalid" (λ s.
        of_engine state.texts confirmed (
          Engine.confirm state.ops state.digest_of state.view clock state.engine state.sha256 id
            digest by s)))

  unfoldable pub set_kill_switch : Bool → Option String → Handler D (Reply D)
  set_kill_switch enabled reason =
      refuse_if (enabled && missing_reason reason) "reason is required when enabling kill switch"
        (λ s.
          of_store state.texts (λ _. switched enabled reason)
            (Intents.set_kill_switch (clock 0) enabled reason s))

  unfoldable pub acknowledge_reconciliation : String → String → String → Handler D (Reply D)
  acknowledge_reconciliation account expected_reason by =
      refuse_if (invalid_text by 64) "acknowledgedBy is invalid" (
        refuse_if (invalid_text expected_reason 128) "expectedReasonCode is invalid" (
          refuse_if
            (other_account account (mainnet_status_value state.mainnet_read).account_address)
            "accountAddress does not match the configured mainnet account"
            (λ s.
              of_store state.texts acknowledged
                (acknowledge_reconciliation_recovery (clock 0) account expected_reason by s))))

  -- The routes that write.
  unfoldable pub handle : Request D → Handler D (Reply D)
  handle (create header intent) = create_intent header intent
  handle (confirm id digest by) = confirm_intent id digest by
  handle (kill_switch enabled reason) = set_kill_switch enabled reason
  handle (acknowledge account reason by) = acknowledge_reconciliation account reason by
