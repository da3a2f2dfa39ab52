-- ===== src/Store/Migrations.antt =====
-- src/store.rs: `migrate`, on the tables that it changes. Each statement commits by itself, but for the
-- two copies of a table, so that a failure leaves what came before it. The texts of JSON are a
-- parameter.
pub mod Current
use hyperliquid_live_executo.Base.{
  ℕ, Bool, true, false, List, [], ◌∷◌, ◌++◌, String, Option, none, some, ◌==◌, ltb, str_eq, any,
  map, if◌then◌else◌,
}
use hyperliquid_live_executo.Base.Result.{Result, ok, err}
use hyperliquid_live_executo.Base.Table
use hyperliquid_live_executo.Mainnet.{FundingRow}
use hyperliquid_live_executo.Store.History.{same_funding}

-- A row of `trade_intents`.
pub record IntentRow : Type 0 where
  pub intent_id : String
  pub strategy_id : String
  pub idempotency_key : String
  pub payload_json : String
  pub status : String
  pub status_reason : Option String
  pub risk_decision_json : Option String
  pub confirmation_digest : Option String
  pub confirmation_expires_at : Option String
  pub confirmed_at : Option String
  pub confirmed_by : Option String
  pub created_at : String
  pub updated_at : String

-- A row of the first schema, whose ids and idempotency keys are unique.
pub record LegacyRow : Type 0 where
  pub intent_id : String
  pub idempotency_key : String
  pub payload_json : String
  pub status : String
  pub status_reason : Option String
  pub created_at : String
  pub updated_at : String

-- The table without the column `strategy_id`, or with it and with these of the later columns; a
-- column that is not there is null in every row.
pub data IntentTable : Type 0 where
  legacy : List LegacyRow → IntentTable
  current : List String → List IntentRow → IntentTable

pub record Database : Type 0 where
  pub user_version : ℕ
  pub trade_intents : Option IntentTable
  pub mainnet_funding : Option (List FundingRow)
  -- whether the table has the column `clean_streak`, which is 0 where it is added
  pub mainnet_reconciliation_state : Option Bool
  -- the kill switch
  pub executor_control : Option Bool

pub data MigrationError : Type 0 where
  unsupported_database_version : ℕ → MigrationError
  sqlite : MigrationError

abbrev pub later_columns : List String
later_columns =
    "risk_decision_json" ∷ "confirmation_digest" ∷ "confirmation_expires_at" ∷ "confirmed_at"
    ∷ "confirmed_by" ∷ []

abbrev pub has_column : String → List String → Bool
has_column column = any λ existing. str_eq existing column

-- The loop over the columns; the source lists the ones that are there before it.
unfoldable pub add_columns : List String → List String → List String
add_columns [] columns = columns
add_columns (c ∷ cs) columns =
    let more = add_columns cs (columns ++ c ∷ []) in
    let same = add_columns cs columns in if has_column c columns then same else more

module _ (upgrade : String → String → String → String) where
  -- `json_set` gets the payload, the id and the time of creation.
  abbrev pub upgraded_row : LegacyRow → IntentRow
  upgraded_row row = record {
    intent_id = row.intent_id;
    strategy_id = "legacy";
    idempotency_key = row.idempotency_key;
    payload_json = upgrade row.payload_json row.intent_id row.created_at;
    status = row.status;
    status_reason = row.status_reason;
    risk_decision_json = none;
    confirmation_digest = none;
    confirmation_expires_at = none;
    confirmed_at = none;
    confirmed_by = none;
    created_at = row.created_at;
    updated_at = row.updated_at;
  }

  unfoldable pub migrate_intents : Option IntentTable → Option IntentTable
  unfolding add_columns
  migrate_intents none = none
  migrate_intents (some (legacy rows)) = some (current later_columns (map upgraded_row rows))
  migrate_intents (some (current columns rows)) =
      some (current (add_columns later_columns columns) rows)

  -- The copy of the table under its new key.
  unfoldable pub migrate_funding : ℕ → Option (List FundingRow) → Option (List FundingRow)
  migrate_funding version none = none
  migrate_funding version (some rows) =
      if ltb version 6 then some (Table.insert_all same_funding rows []).1 else some rows

  abbrev added_column : Option Bool → Option (Option Bool)
  added_column none = none
  added_column (some true) = none
  added_column (some false) = some (some true)

  -- `ALTER TABLE … ADD COLUMN`, which fails on a missing table and on a column that is there.
  unfoldable pub migrate_reconciliation : ℕ → Option Bool → Option (Option Bool)
  migrate_reconciliation version table = if version == 7 then added_column table else some table

  abbrev pub created : {A : Type 0} → A → Option A → Option A
  created a none = some a
  created a (some b) = some b

  -- `CREATE TABLE IF NOT EXISTS`, and the version.
  abbrev create_tables : Database → Database
  create_tables db = record {
    user_version = 9;
    trade_intents = created (current later_columns []) db.trade_intents;
    mainnet_funding = created [] db.mainnet_funding;
    mainnet_reconciliation_state = created true db.mainnet_reconciliation_state;
    executor_control = created false db.executor_control;
  }

  abbrev copied : Database → Database
  copied db = record db {
    trade_intents = migrate_intents db.trade_intents;
    mainnet_funding = migrate_funding db.user_version db.mainnet_funding;
  }

  abbrev finished : Database → Option (Option Bool) → Result MigrationError (Unit {0}) × Database
  finished db none = (err sqlite, db)
  finished db (some table) =
      (ok tt, create_tables (record db { mainnet_reconciliation_state = table }))

  unfoldable pub migrate : Database → Result MigrationError (Unit {0}) × Database
  unfolding migrate_intents migrate_funding migrate_reconciliation
  migrate db =
      if ltb 9 db.user_version
      then (err (unsupported_database_version db.user_version), db)
      else finished (copied db)
          (migrate_reconciliation db.user_version db.mainnet_reconciliation_state)
