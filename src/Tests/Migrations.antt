-- ===== src/Tests/Migrations.antt =====
-- Migrations of concrete databases.
use hyperliquid_live_executo.Base.{◌≡◌, refl, true, [], ◌∷◌, String, none, some, map, arith}
use hyperliquid_live_executo.Base.Result.{err}
use hyperliquid_live_executo.Mainnet.{FundingRow}
use hyperliquid_live_executo.Store.History.{same_funding}
use hyperliquid_live_executo.Store.Migrations.{
  Database, legacy, sqlite, add_columns, migrate, migrate_intents, migrate_funding,
  migrate_reconciliation,
}
use hyperliquid_live_executo.Store.Migrations.Current.{IsCurrent, rows_of, migrate-IsCurrent}

abbrev upgrade : String → String → String → String
upgrade payload _ _ = payload

abbrev payment : String → FundingRow
payment hash = record {
  account_address = "account";
  exchange_hash = hash;
  time_ms = 1000;
  coin = "BTC";
  usdc = "-0.1";
  signed_size = "1";
  funding_rate = "0.00001";
}

-- The first schema of intents, with one payment that came from two sources.
abbrev old : Database
old = record {
  user_version = 5;
  trade_intents = some (
      legacy (
        record {
          intent_id = "7";
          idempotency_key = "key-1";
          payload_json = "{}";
          status = "shadow_accepted";
          status_reason = none;
          created_at = "2024-01-01T00:00:00Z";
          updated_at = "2024-01-01T00:00:00Z";
        }
        ∷ []));
  mainnet_funding = some (payment "rest-hash" ∷ payment "" ∷ []);
  mainnet_reconciliation_state = none;
  executor_control = some true;
}

migrate-IsCurrent_example : IsCurrent upgrade old
migrate-IsCurrent_example =
    migrate-IsCurrent upgrade old (omega arith) (λ seven. absurd (omega (arith, seven)))

one_payment :
    map (λ r. r.exchange_hash) (rows_of upgrade (migrate upgrade old).1.mainnet_funding)
    ≡ "rest-hash" ∷ []
unfolding migrate migrate_intents migrate_funding migrate_reconciliation same_funding add_columns
one_payment = refl

-- A migration from version 7 that was interrupted after it had added the column cannot be repeated.
abbrev interrupted : Database
interrupted = record old { user_version = 7; mainnet_reconciliation_state = some true }

interrupted_fails : (migrate upgrade interrupted).0 ≡ err sqlite
unfolding migrate migrate_intents migrate_funding migrate_reconciliation same_funding add_columns
interrupted_fails = refl
