-- ===== src/Store/History.antt =====
-- src/store.rs: `record_mainnet_history`, `record_mainnet_order_updates` and
-- `mainnet_history_cursor`. The text of a decimal is a parameter.
pub mod Repeat
use hyperliquid_live_executo.Base.{
  ℕ, Bool, ◌&&◌, ◌||◌, List, [], ◌∷◌, String, Option, none, some, str_eq, ◌==◌, ltb, map, select,
  if◌then◌else◌,
}
use hyperliquid_live_executo.Base.Table
use hyperliquid_live_executo.Base.Time.{Timestamp}
use hyperliquid_live_executo.Mainnet.{
  MainnetFillRecord, MainnetFundingRecord, MainnetOrderUpdateRecord, OrderUpdateRow, FillRow,
  FundingRow,
}
use hyperliquid_live_executo.Store.State.{Store, EventData}
use hyperliquid_live_executo.Store.Tx.{Tx, Op, pure, immediate, insert_event_tx, ◌>>=◌, ◌>>◌}
use hyperliquid_live_executo.Store.Intents.{nil_uuid}

-- `PRIMARY KEY(account_address, exchange_hash, oid, time_ms, price, size)`
unfoldable pub same_fill : FillRow → FillRow → Bool
same_fill a b =
    str_eq a.account_address b.account_address
    && str_eq a.exchange_hash b.exchange_hash
    && a.oid == b.oid
    && a.time_ms == b.time_ms
    && str_eq a.price b.price
    && str_eq a.size b.size

-- `PRIMARY KEY(account_address, time_ms, coin, usdc, signed_size, funding_rate)`
unfoldable pub same_funding : FundingRow → FundingRow → Bool
same_funding a b =
    str_eq a.account_address b.account_address
    && a.time_ms == b.time_ms
    && str_eq a.coin b.coin
    && str_eq a.usdc b.usdc
    && str_eq a.signed_size b.signed_size
    && str_eq a.funding_rate b.funding_rate

-- `PRIMARY KEY(account_address, oid, status, status_timestamp_ms)`
unfoldable pub same_update : OrderUpdateRow → OrderUpdateRow → Bool
same_update a b =
    str_eq a.account_address b.account_address
    && a.oid == b.oid
    && str_eq a.status b.status
    && a.status_timestamp_ms == b.status_timestamp_ms

abbrev latest : Option ℕ → ℕ → Option ℕ
latest none t = some t
latest (some a) t = if ltb a t then some t else some a

abbrev pub max_time : Option ℕ → List FundingRow → Option ℕ
max_time acc [] = acc
max_time acc (r ∷ rs) = max_time (latest acc r.time_ms) rs

module _ {D : Type 0} where
  -- The event of an import that has inserted a row.
  abbrev event_if : Bool → String → EventData D → Timestamp → Tx D (Unit {0})
  event_if inserted event_type event_data now =
      if inserted then insert_event_tx nil_uuid event_type event_data now else pure tt

  -- `SELECT MAX(time_ms) FROM mainnet_funding WHERE account_address = ?1`
  unfoldable pub mainnet_history_cursor : String → Store D → Option ℕ
  mainnet_history_cursor account s =
      max_time none
        (select (λ (r : FundingRow). str_eq r.account_address account) s.mainnet.funding)

module _ {D : Type 0} (to_string : D → String) (account : String) where
  abbrev pub fill_row : MainnetFillRecord D → FillRow
  fill_row fill = record {
    account_address = account;
    exchange_hash = fill.hash;
    oid = fill.oid;
    time_ms = fill.time_ms;
    coin = fill.coin;
    side = fill.side;
    direction = fill.direction;
    crossed = fill.crossed;
    price = to_string fill.price;
    size = to_string fill.size;
    closed_pnl_usd = to_string fill.closed_pnl_usd;
    fee_usd = to_string fill.fee_usd;
  }

  abbrev pub funding_row : MainnetFundingRecord D → FundingRow
  funding_row entry = record {
    account_address = account;
    exchange_hash = entry.hash;
    time_ms = entry.time_ms;
    coin = entry.coin;
    usdc = to_string entry.usdc;
    signed_size = to_string entry.signed_size;
    funding_rate = to_string entry.funding_rate;
  }

  abbrev pub update_row : MainnetOrderUpdateRecord D → OrderUpdateRow
  update_row update = record {
    account_address = account;
    oid = update.oid;
    status = update.status;
    status_timestamp_ms = update.status_timestamp_ms;
    coin = update.coin;
    side = update.side;
    limit_price = to_string update.limit_price;
    size = to_string update.size;
    original_size = to_string update.original_size;
    cloid = update.cloid;
  }

  abbrev insert_fills : List (MainnetFillRecord D) → Tx D ℕ
  insert_fills fills s =
      let (n, rows) = Table.insert_all same_fill (map fill_row fills) s.mainnet.fills in
      pure n (record s { mainnet = record s.mainnet { fills = rows } })

  abbrev insert_funding : List (MainnetFundingRecord D) → Tx D ℕ
  insert_funding funding s =
      let (n, rows) = Table.insert_all same_funding (map funding_row funding) s.mainnet.funding in
      pure n (record s { mainnet = record s.mainnet { funding = rows } })

  abbrev insert_updates : List (MainnetOrderUpdateRecord D) → Tx D ℕ
  insert_updates updates s =
      let (n, rows) =
        Table.insert_all same_update (map update_row updates) s.mainnet.order_updates in
      pure n (record s { mainnet = record s.mainnet { order_updates = rows } })

  unfoldable pub record_mainnet_history :
      Timestamp → List (MainnetFillRecord D) → List (MainnetFundingRecord D) → Op D (Unit {0})
  record_mainnet_history now fills funding = immediate do
    inserted_fills ← insert_fills fills
    inserted_funding ← insert_funding funding
    event_if (ltb 0 inserted_fills || ltb 0 inserted_funding) "exchange.history_backfilled"
        (EventData.backfilled account inserted_fills inserted_funding) now

  unfoldable pub record_mainnet_order_updates :
      Timestamp → List (MainnetOrderUpdateRecord D) → Op D (Unit {0})
  record_mainnet_order_updates now updates = immediate do
    inserted ← insert_updates updates
    event_if (ltb 0 inserted) "exchange.order_updates_recorded"
        (EventData.updates_recorded account inserted) now
