-- ===== src/Tests/Snapshots.antt =====
-- Snapshots of an account: a baseline, and one with a position that no stop covers.
use hyperliquid_live_executo.Base.{Option, All, ◌≡◌, refl, true, false, [], ◌∷◌, String, none, some}
use hyperliquid_live_executo.Base.Result.{ok}
use hyperliquid_live_executo.Base.Int.{ℤ}
use hyperliquid_live_executo.Base.Time.{seconds}
use hyperliquid_live_executo.Mainnet.{
  MainnetAccountSnapshot, MainnetPositionSnapshot, MainnetOpenOrderSnapshot,
}
use hyperliquid_live_executo.Mainnet.Coverage.{evaluate_protection_coverage, is_stop_for_position}
use hyperliquid_live_executo.Mainnet.Coverage.Stops.{IsProtected, covered-IsProtected}
use hyperliquid_live_executo.Decimal.Fixed.{fixed}
use hyperliquid_live_executo.Store.State.{Store, normal}
use hyperliquid_live_executo.Store.Reach.{empty}
use hyperliquid_live_executo.Store.Reconciliation.{
  ReconciliationState, is_close_only, is_normal, to_state, reconciliation_state,
}
use hyperliquid_live_executo.Store.Snapshots.{
  Details, has_discrepancy, was, import_all, known_of, unprotected_coins, reconciled_row,
  record_mainnet_snapshot, configure_mainnet_account, latest_mainnet_snapshot,
}
use hyperliquid_live_executo.Store.Snapshots.Sticky.{ready_only_clean}
use hyperliquid_live_executo.Tests.Data.{usd}

abbrev pub show : ℤ → String
show _ = "1"

abbrev pub details : Details
details = record {
  unprotected_detail = λ _. "unprotected";
  discrepancy_detail = λ _ _. "discrepancy";
}

abbrev pub flat : MainnetAccountSnapshot ℤ
flat = record {
  account_address = "0xabc";
  observed_at = seconds 8334601228900;
  account_value_usd = usd 100;
  withdrawable_usd = usd 100;
  total_margin_used_usd = usd 0;
  total_position_notional_usd = usd 0;
  positions = [];
  open_orders = [];
  protection_coverage = [];
  asset_size_decimals = [];
  mids = [];
}

abbrev bare : MainnetAccountSnapshot ℤ
bare = record flat {
  protection_coverage =
      record {
        coin = "BTC";
        required_size = usd 1;
        covered_size = usd 0;
        stop_order_count = 0;
        covered = false;
        reason_code = some "insufficient_reduce_only_stop_coverage";
      }
      ∷ [];
}

abbrev waiting : Store ℤ
waiting = (configure_mainnet_account "0xabc" (empty 0)).1

abbrev reconciled : Store ℤ
reconciled = (record_mainnet_snapshot show details flat waiting).1

abbrev state : ReconciliationState
state = to_state (record {
  account_address = "0xabc";
  mode = normal;
  ready = true;
  reason_code = none;
  detail = none;
  baseline_established_at = some (seconds 8334601228900);
  last_reconciled_at = some (seconds 8334601228900);
  clean_streak = 0;
})

reconciles : record_mainnet_snapshot show details flat waiting ≡ (ok state, reconciled)
unfolding record_mainnet_snapshot configure_mainnet_account reconciliation_state reconciled_row
reconciles = refl

latest-flat : latest_mainnet_snapshot "0xabc" reconciled ≡ some flat
unfolding latest_mainnet_snapshot record_mainnet_snapshot configure_mainnet_account
latest-flat = refl

bare-halted :
    was is_close_only
      (reconciliation_state "0xabc" (record_mainnet_snapshot show details bare waiting).1)
    ≡ true
unfolding record_mainnet_snapshot configure_mainnet_account reconciliation_state reconciled_row
bare-halted = refl

ready_only_clean_example :
    let previous = reconciliation_state "0xabc" waiting in
    (reconciliation_state "0xabc" reconciled ≡ some state)
    × (is_normal state.row.mode ≡ true)
    × (has_discrepancy (import_all show (known_of flat previous) flat waiting.mainnet).0 ≡ false)
    × (unprotected_coins flat ≡ [])
    × (was is_close_only previous ≡ false)
ready_only_clean_example =
    ready_only_clean show details flat waiting reconciled state reconciles refl

abbrev held : MainnetPositionSnapshot ℤ
held = record {
  coin = "BTC";
  signed_size = usd 1;
  position_value_usd = usd 100;
  unrealized_pnl_usd = usd 0;
  entry_price = some (usd 100);
  liquidation_price = none;
  leverage = 1;
  leverage_type = "cross";
}

abbrev stop : MainnetOpenOrderSnapshot ℤ
stop = record {
  coin = "BTC";
  oid = 5;
  side = "A";
  limit_price = usd 90;
  size = usd 1;
  timestamp_ms = 1;
  is_trigger = true;
  reduce_only = true;
  trigger_condition = "lt";
  trigger_price = some (usd 95);
}

abbrev no_number : String → Option ℤ
no_number _ = none

covers :
    evaluate_protection_coverage fixed no_number (held ∷ []) (stop ∷ []) []
    ≡ some (
        record {
          coin = "BTC";
          required_size = usd 1;
          covered_size = usd 1;
          stop_order_count = 1;
          covered = true;
          reason_code = none;
        }
        ∷ [])
unfolding evaluate_protection_coverage is_stop_for_position
covers = refl

covered-IsProtected_example : All (IsProtected fixed no_number (stop ∷ []) []) (held ∷ [])
covered-IsProtected_example =
    covered-IsProtected fixed no_number (stop ∷ []) [] (held ∷ [])
      (record {
        coin = "BTC";
        required_size = usd 1;
        covered_size = usd 1;
        stop_order_count = 1;
        covered = true;
        reason_code = none;
      }
        ∷ [])
      covers refl
