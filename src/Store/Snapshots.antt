-- ===== src/Store/Snapshots.antt =====
-- src/store.rs: `record_mainnet_snapshot`, `configure_mainnet_account` and
-- `latest_mainnet_snapshot`. The texts of decimals and of the details are parameters.
pub mod Sticky
use hyperliquid_live_executo.Base.{
  ℕ, ◌+◌, ◌^◌, ◌-◌, Bool, true, false, not, ◌&&◌, ◌||◌, List, [], ◌∷◌, ◌++◌, String, Option, none,
  some, str_eq, leb, select, map, is_empty, is_some, length, if◌then◌else◌,
}
use hyperliquid_live_executo.Base.Result.{ok}
use hyperliquid_live_executo.Base.Table
use hyperliquid_live_executo.Base.Time.{Timestamp, timestamp_millis_from_zero}
use hyperliquid_live_executo.Mainnet.{
  Mainnet, MainnetAccountSnapshot, MainnetPositionSnapshot, MainnetProtectionCoverage,
  ProjectedPosition,
}
use hyperliquid_live_executo.Store.State.{
  Store, ExecutionMode, ReconciliationRow, EventData, normal, halt_new_entries, close_only,
}
use hyperliquid_live_executo.Store.Tx.{Tx, Op, pure, gets, immediate, insert_event_tx, ◌>>=◌, ◌>>◌}
use hyperliquid_live_executo.Store.Intents.{nil_uuid}
use hyperliquid_live_executo.Store.Reconciliation.{
  ReconciliationState, is_close_only, of_account, to_state, reconciliation_state,
}
use hyperliquid_live_executo.Store.Imports.{Known, import_orders, import_positions, close_positions}

-- The discrepancies that an import has found: orders, positions and coins without protection.
pub record Discrepancies : Type 0 where
  pub orders : List ℕ
  pub positions : List String
  pub unprotected : List String

abbrev pub has_discrepancy : Discrepancies → Bool
has_discrepancy d =
    not (is_empty d.orders) || not (is_empty d.positions) || not (is_empty d.unprotected)

abbrev pub was : (ExecutionMode → Bool) → Option ReconciliationState → Bool
was test none = false
was test (some state) = test state.row.mode

abbrev is_halted_mode : ExecutionMode → Bool
is_halted_mode halt_new_entries = true
is_halted_mode _ = false

-- `saturating_add(1)` on a u32
abbrev saturating_suc : ℕ → ℕ
saturating_suc n = if leb (2 ^ 32 - 1) n then 2 ^ 32 - 1 else n + 1

abbrev next_streak : Option ReconciliationState → Bool → ℕ
next_streak none clean = 0
next_streak (some state) clean =
    if is_close_only state.row.mode && clean then saturating_suc state.row.clean_streak else 0

abbrev reason_of : Option ReconciliationState → Option String
reason_of none = none
reason_of (some state) = state.row.reason_code

abbrev detail_of : Option ReconciliationState → Option String
detail_of none = none
detail_of (some state) = state.row.detail

abbrev baseline_of : Option ReconciliationState → Option Timestamp
baseline_of none = none
baseline_of (some state) = state.row.baseline_established_at

abbrev last_reconciled_of : Option ReconciliationState → Option Timestamp
last_reconciled_of none = none
last_reconciled_of (some state) = state.row.last_reconciled_at

-- The texts of the details, by `format!` with `{:?}`.
pub record Details : Type 0 where
  pub unprotected_detail : List String → String
  pub discrepancy_detail : List ℕ → List String → String

abbrev or_time : Option Timestamp → Timestamp → Timestamp
or_time none t = t
or_time (some a) t = a

abbrev millis_or_zero : Option Timestamp → ℕ
millis_or_zero none = 0
millis_or_zero (some t) = timestamp_millis_from_zero t

-- The row that the import leaves of the account.
unfoldable pub reconciled_row :
    Details → Known → Option ReconciliationState → Discrepancies → ReconciliationRow
reconciled_row details k previous d =
    if not (is_empty d.unprotected)
    then row close_only false (some "unprotected_position")
        (some (details.unprotected_detail d.unprotected))
    else if was is_close_only previous
    then row close_only false (reason_of previous) (detail_of previous)
    else if was is_halted_mode previous && has_discrepancy d && not k.baseline
    then row close_only false
        (some (
          if not (is_empty d.orders)
          then "unknown_exchange_order"
          else "unexplained_position_change"))
        (some (details.discrepancy_detail d.orders d.positions))
    else if has_discrepancy d
    then row halt_new_entries false (some "reconciliation_discrepancy_pending")
        (some (details.discrepancy_detail d.orders d.positions))
    else row normal true none none
  where
    row : ExecutionMode → Bool → Option String → Option String → ReconciliationRow
    row mode ready reason detail = record {
      account_address = k.account;
      mode = mode;
      ready = ready;
      reason_code = reason;
      detail = detail;
      baseline_established_at = some (or_time (baseline_of previous) k.observed_at);
      last_reconciled_at = some k.observed_at;
      clean_streak = next_streak previous (not (has_discrepancy d));
    }

-- `INSERT … ON CONFLICT(account_address) DO UPDATE SET` every other column.
abbrev pub upsert_row : ReconciliationRow → List ReconciliationRow → List ReconciliationRow
upsert_row n [] = n ∷ []
upsert_row n (r ∷ rs) = if of_account n.account_address r then n ∷ rs else r ∷ upsert_row n rs

module _ {D : Type 0} where
  abbrev of_snapshot : String → MainnetAccountSnapshot D → Bool
  of_snapshot account x = str_eq x.account_address account

  -- All but the latest 1000 snapshots of the account are deleted.
  abbrev keep_latest : String → List (MainnetAccountSnapshot D) → List (MainnetAccountSnapshot D)
  keep_latest account [] = []
  keep_latest account (x ∷ xs) =
      if of_snapshot account x && leb 1000 (length (select (of_snapshot account) xs))
      then keep_latest account xs
      else x ∷ keep_latest account xs

  abbrev pub known_of : MainnetAccountSnapshot D → Option ReconciliationState → Known
  known_of snapshot previous = record {
    account = snapshot.account_address;
    baseline = not (is_some (baseline_of previous));
    since_ms = millis_or_zero (last_reconciled_of previous);
    observed_at = snapshot.observed_at;
  }

  abbrev pub unprotected_coins : MainnetAccountSnapshot D → List String
  unprotected_coins snapshot =
      map (λ (c : MainnetProtectionCoverage D). c.coin)
        (select (λ (c : MainnetProtectionCoverage D). not c.covered) snapshot.protection_coverage)

  -- The coins of the account with a projected size other than '0'.
  abbrev projected_coins : String → Mainnet D → List String
  projected_coins account m =
      map (λ (r : ProjectedPosition). r.coin)
        (select
          (λ (r : ProjectedPosition).
            str_eq r.account_address account && not (str_eq r.signed_size "0"))
          m.positions)

  -- The three loops, one after the other.
  abbrev pub import_all :
      (D → String) → Known → MainnetAccountSnapshot D → Mainnet D → Discrepancies × Mainnet D
  import_all to_string k snapshot m =
      let (orders, m1) = import_orders k snapshot.open_orders m in
      let (changed, m2) = import_positions to_string k snapshot.positions m1 in
      let current = map (λ (p : MainnetPositionSnapshot D). p.coin) snapshot.positions in
      let (gone, m3) = close_positions k current (projected_coins k.account m2) m2 in
      (
        record {
          orders = orders;
          positions = changed ++ gone;
          unprotected = unprotected_coins snapshot;
        },
        m3,
      )

  abbrev set_mainnet : Mainnet D → Tx D (Unit {0})
  set_mainnet m s = ok (tt, record s { mainnet = m })

  abbrev set_row : ReconciliationRow → Tx D (Unit {0})
  set_row r s = ok (tt, record s { reconciliation = upsert_row r s.reconciliation })

  -- The new snapshot is inserted first and the old ones are deleted last.
  abbrev snapshot_tx : (D → String) → Details → MainnetAccountSnapshot D → Tx D ReconciliationState
  snapshot_tx to_string details snapshot = do
    previous ← gets (reconciliation_state snapshot.account_address)
    m ← gets (λ s. s.mainnet)
    let k : Known = known_of snapshot previous
    let imported = import_all to_string k snapshot m
    let r : ReconciliationRow = reconciled_row details k previous imported.0
    set_mainnet (record imported.1 {
      snapshots = keep_latest k.account (imported.1.snapshots ++ snapshot ∷ []);
    })
    set_row r
    insert_event_tx nil_uuid "exchange.account_snapshot_recorded"
        (EventData.recorded k.account k.observed_at) k.observed_at
    pure (to_state r)

  unfoldable pub record_mainnet_snapshot :
      (D → String) → Details → MainnetAccountSnapshot D → Op D ReconciliationState
  record_mainnet_snapshot to_string details snapshot =
      immediate (snapshot_tx to_string details snapshot)

  abbrev configure_tx : String → Tx D (Unit {0})
  configure_tx account s = ok (
    tt,
    record s {
      reconciliation =
          Table.insert_or_ignore (λ (n r : ReconciliationRow). of_account n.account_address r)
            (record {
              account_address = account;
              mode = halt_new_entries;
              ready = false;
              reason_code = some "startup_reconciliation_pending";
              detail = some "waiting for the first authoritative account snapshot";
              baseline_established_at = none;
              last_reconciled_at = none;
              clean_streak = 0;
            })
            s.reconciliation;
    },
  )

  unfoldable pub configure_mainnet_account : String → Op D (Unit {0})
  configure_mainnet_account account = immediate (configure_tx account)

  abbrev last :
      Option (MainnetAccountSnapshot D)
      → List (MainnetAccountSnapshot D)
      → Option (MainnetAccountSnapshot D)
  last best [] = best
  last best (x ∷ xs) = last (some x) xs

  unfoldable pub latest_mainnet_snapshot : String → Store D → Option (MainnetAccountSnapshot D)
  latest_mainnet_snapshot account s = last none (select (of_snapshot account) s.mainnet.snapshots)
