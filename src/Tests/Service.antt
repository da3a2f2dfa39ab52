-- ===== src/Tests/Service.antt =====
-- The read service on concrete answers: a snapshot with a covered position, and a pass of its tasks.
use hyperliquid_live_executo.Base.{
  ℕ, ◌+◌, ◌++◌, ◌≡◌, refl, true, [], ◌∷◌, none, some, map, ◌==◌, if◌then◌else◌,
}
use hyperliquid_live_executo.Base.Int.{ℤ}
use hyperliquid_live_executo.Base.Map
use hyperliquid_live_executo.Base.Result.{ok}
use hyperliquid_live_executo.Base.Table.Inserts.{Distinct, inserted}
use hyperliquid_live_executo.Base.Time.{Timestamp, seconds}
use hyperliquid_live_executo.Decimal.Fixed.{fixed, fixed-OrderLaws}
use hyperliquid_live_executo.Mainnet.{
  MainnetAccountSnapshot, MainnetFillRecord, MainnetFundingRecord,
}
use hyperliquid_live_executo.Mainnet.Coverage.{evaluate_protection_coverage, is_stop_for_position}
use hyperliquid_live_executo.Mainnet.Fetch.{
  Answers, fetch_snapshot, position_snapshot, order_snapshot, detail_mismatch, relevant_coins,
  relevant_mids, check_metadata, check_notional,
}
use hyperliquid_live_executo.Mainnet.Fetch.Faithful.{IsFaithful, fetch-IsFaithful}
use hyperliquid_live_executo.Mainnet.Parse.{collect, decimal, optional_decimal}
use hyperliquid_live_executo.Mainnet.Sdk.{Gathered, OpenOrder, OrderInfo}
use hyperliquid_live_executo.Mainnet.Service
use hyperliquid_live_executo.Mainnet.Service.{
  Service, handle_snapshot, handle_history, handle_message, history_due,
}
use hyperliquid_live_executo.Mainnet.Service.Readiness.{IsSound, Runs-IsSound}
use hyperliquid_live_executo.Mainnet.Service.Tasks
use hyperliquid_live_executo.Mainnet.Service.Tasks.{
  Tasks, Step, Runs, start_mainnet_read_service, poll_snapshot, poll_history, poll_judge,
  socket_message,
}
use hyperliquid_live_executo.Mainnet.Status
use hyperliquid_live_executo.Mainnet.Status.{
  snapshot_persisted, history_persisted, judge, websocket_event, apply_reconciliation,
}
use hyperliquid_live_executo.Store.History.{
  record_mainnet_history, same_fill, same_funding, fill_row, funding_row,
}
use hyperliquid_live_executo.Store.History.Repeat.{history_recorded}
use hyperliquid_live_executo.Store.Reach.{empty}
use hyperliquid_live_executo.Store.Reconciliation.{reconciliation_state}
use hyperliquid_live_executo.Store.Snapshots.{
  record_mainnet_snapshot, configure_mainnet_account, reconciled_row,
}
use hyperliquid_live_executo.Store.State.{Store}
use hyperliquid_live_executo.Tests.Data.{usd, parse}
use hyperliquid_live_executo.Tests.Snapshots.{show, details, flat}

-- The stop of the position, in the list and in detail.
abbrev basic : OpenOrder
basic = record { coin = "BTC"; oid = 5; side = "A"; limit_px = "95"; sz = "1"; timestamp = 1000 }

abbrev detail : OrderInfo
detail = record {
  coin = "BTC";
  oid = 5;
  side = "A";
  limit_px = "95";
  sz = "1";
  timestamp = 1000;
  is_trigger = true;
  reduce_only = true;
  trigger_condition = "lt";
  trigger_px = "95";
}

abbrev gathered : Gathered
gathered = record {
  universe = ("BTC", 5) ∷ ("ETH", 4) ∷ [];
  mids = ("BTC", "100") ∷ ("ETH", "10") ∷ [];
  user_state = record {
    asset_positions =
        record {
          coin = "BTC";
          szi = "1";
          position_value = "100";
          unrealized_pnl = "0";
          entry_px = some "100";
          liquidation_px = none;
          leverage_value = 1;
          leverage_type = "cross";
        }
        ∷ [];
    account_value = "100";
    total_margin_used = "100";
    total_ntl_pos = "100";
    withdrawable = "0";
  };
  open_orders = basic ∷ [];
}

abbrev answers : Answers
answers = record {
  client = ok tt;
  address = true;
  gathered = ok gathered;
  order_by_oid = λ oid. ok (if oid == 5 then some detail else none);
}

abbrev fetched : MainnetAccountSnapshot ℤ
fetched = record {
  account_address = "0xabc";
  observed_at = seconds 30;
  account_value_usd = usd 100;
  withdrawable_usd = usd 0;
  total_margin_used_usd = usd 100;
  total_position_notional_usd = usd 100;
  positions =
      record {
        coin = "BTC";
        signed_size = usd 1;
        position_value_usd = usd 100;
        unrealized_pnl_usd = usd 0;
        entry_price = some (usd 100);
        liquidation_price = none;
        leverage = 1;
        leverage_type = "cross";
      }
      ∷ [];
  open_orders =
      record {
        coin = "BTC";
        oid = 5;
        side = "A";
        limit_price = usd 95;
        size = usd 1;
        timestamp_ms = 1000;
        is_trigger = true;
        reduce_only = true;
        trigger_condition = "lt";
        trigger_price = some (usd 95);
      }
      ∷ [];
  protection_coverage =
      record {
        coin = "BTC";
        required_size = usd 1;
        covered_size = usd 1;
        stop_order_count = 1;
        covered = true;
        reason_code = none;
      }
      ∷ [];
  asset_size_decimals = ("BTC", 5) ∷ ("ETH", 4) ∷ [];
  mids = ("BTC", "100") ∷ [];
}

fetches : fetch_snapshot fixed parse answers "0xabc" (seconds 30) ≡ ok fetched
unfolding fetch_snapshot position_snapshot order_snapshot detail_mismatch relevant_coins
    relevant_mids check_metadata check_notional collect decimal optional_decimal
    evaluate_protection_coverage is_stop_for_position Map.insert
fetches = refl

fetch-IsFaithful_example : IsFaithful fixed parse answers gathered "0xabc" (seconds 30) fetched
fetch-IsFaithful_example =
    fetch-IsFaithful fixed parse fixed-OrderLaws answers gathered "0xabc" (seconds 30) fetched refl
      fetches

abbrev fill : MainnetFillRecord ℤ
fill = record {
  hash = "0xf";
  oid = 9;
  time_ms = 1000;
  coin = "BTC";
  side = "B";
  direction = "Open Long";
  crossed = true;
  price = usd 100;
  size = usd 1;
  closed_pnl_usd = usd 0;
  fee_usd = usd 0;
}

abbrev payment : MainnetFundingRecord ℤ
payment = record {
  hash = "0xe";
  time_ms = 2000;
  coin = "BTC";
  usdc = usd 1;
  signed_size = usd 1;
  funding_rate = usd 0;
}

history_recorded_example :
    (t : Store ℤ) × (record_mainnet_history show "0xabc" 1
        (fill ∷ fill ∷ [])
        (payment ∷ [])
        (empty 0)
      ≡ (ok tt, t))
    × (t.mainnet.fills
        ≡ [] ++ inserted same_fill (map (fill_row show "0xabc") (fill ∷ fill ∷ [])) [])
    × (t.mainnet.funding
        ≡ [] ++ inserted same_funding (map (funding_row show "0xabc") (payment ∷ [])) [])
    × Distinct same_fill t.mainnet.fills
    × Distinct same_funding t.mainnet.funding
    × (record_mainnet_history show "0xabc" 2 (fill ∷ fill ∷ []) (payment ∷ []) t ≡ (ok tt, t))
history_recorded_example =
    history_recorded show "0xabc" 1 2 (fill ∷ fill ∷ []) (payment ∷ []) (empty 0) tt tt

-- The fill is recorded once.
fills_once :
    map (λ r. r.oid) (inserted same_fill (map (fill_row show "0xabc") (fill ∷ fill ∷ [])) [])
    ≡ 9 ∷ []
unfolding same_fill
fills_once = refl

abbrev service : Service ℤ
service = record {
  account = "0xabc";
  stale_after = seconds 60;
  parse = parse;
  to_string = show;
  details = details;
  error_text = λ _. "error";
  store_error_text = λ _. "database";
  join_error = "panic";
}

abbrev started : Tasks ℤ
started = start_mainnet_read_service service (empty 0)

abbrev opened : Tasks ℤ
opened = record started {
  status = Status.websocket_opened started.status;
  socket = Tasks.streaming;
}

abbrev later : ℕ → Timestamp
later n = seconds (8334601228900 + n)

abbrev heard : Tasks ℤ
heard = socket_message service (later 1) (later 1) Service.other opened

abbrev stored : Tasks ℤ
stored = poll_snapshot service (some (ok flat)) heard

abbrev checked : Tasks ℤ
checked =
    poll_history service (later 2) (later 2) (later 2)
      (some (ok (record { fills = []; funding = [] }))) stored

abbrev judged : Tasks ℤ
judged = poll_judge service (later 3) (later 3) checked

runs : Runs service (empty 0) judged
unfolding start_mainnet_read_service poll_snapshot poll_history poll_judge socket_message
    handle_snapshot handle_history handle_message history_due
runs =
    let r1 = Runs.next Runs.start (Step.opened started refl) in
    let r2 = Runs.next r1 (Step.message (later 1) (later 1) Service.other opened refl) in
    let r3 = Runs.next r2 (Step.snapshot (some (ok flat)) heard refl) in
    let r4 = Runs.next r3 (
      Step.history (later 2) (later 2) (later 2) (later 2)
        (some (ok (record { fills = []; funding = [] }))) stored refl refl) in
    Runs.next r4 (Step.judged (later 3) (later 3) checked refl)

-- After this pass, the service is ready.
judged-ready : judged.status.ready ≡ true
unfolding start_mainnet_read_service poll_snapshot poll_history poll_judge socket_message
    handle_snapshot handle_history handle_message history_due snapshot_persisted history_persisted
    judge websocket_event apply_reconciliation record_mainnet_snapshot configure_mainnet_account
    record_mainnet_history reconciled_row reconciliation_state
judged-ready = refl

Runs-IsSound_example : IsSound judged.status judged.poll
Runs-IsSound_example = Runs-IsSound service runs
