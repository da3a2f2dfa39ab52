-- ===== src/Store/Snapshots/Sticky.antt =====
-- src/store.rs: what a recorded snapshot promises about the account.
use hyperliquid_live_executo.Base.{◌≡◌, true, false, List, [], ◌∷◌, String, Option, some, arith}
use text.Mathlib.TextPositions.{eq_refl}
use hyperliquid_live_executo.Base.Result.{ok}
use hyperliquid_live_executo.Base.Table
use hyperliquid_live_executo.Mainnet.{MainnetAccountSnapshot}
use hyperliquid_live_executo.Store.State.{Store, ReconciliationRow}
use hyperliquid_live_executo.Store.Reconciliation.{
  ReconciliationState, is_close_only, is_normal, of_account, to_state, reconciliation_state,
}
use hyperliquid_live_executo.Store.Imports.{Known}
use hyperliquid_live_executo.Store.Snapshots.{
  Details, Discrepancies, has_discrepancy, was, reconciled_row, upsert_row, import_all, known_of,
  unprotected_coins, record_mainnet_snapshot,
}

first-upsert :
    (n : ReconciliationRow) (rs : List ReconciliationRow)
    → Table.first (of_account n.account_address) (upsert_row n rs) ≡ some n
first-upsert n [] = ground (arith, eq_refl n.account_address)
first-upsert n (r ∷ rs) = ground (arith, eq_refl n.account_address, first-upsert n rs)

row-account :
    (details : Details) (k : Known) (previous : Option ReconciliationState) (d : Discrepancies)
    → (reconciled_row details k previous d).account_address ≡ k.account
unfolding reconciled_row
row-account details k previous d = ground arith

-- A row that is ready is in normal mode, and nothing was wrong.
row-ready :
    (details : Details) (k : Known) (previous : Option ReconciliationState) (d : Discrepancies)
    → (reconciled_row details k previous d).ready ≡ true
    → (is_normal (reconciled_row details k previous d).mode ≡ true)
      × (has_discrepancy d ≡ false)
      × (was is_close_only previous ≡ false)
unfolding reconciled_row
row-ready details k previous d ready = ground arith

module _ {D : Type 0} (to_string : D → String) (details : Details)
    (snapshot : MainnetAccountSnapshot D) (s t : Store D) (state : ReconciliationState) where
  abbrev row_left : ReconciliationRow
  row_left =
      let previous = reconciliation_state snapshot.account_address s in
      let k = known_of snapshot previous in
      reconciled_row details k previous (import_all to_string k snapshot s.mainnet).0

  outcome :
      record_mainnet_snapshot to_string details snapshot s ≡ (ok state, t)
      → (state ≡ to_state row_left) × (t.reconciliation ≡ upsert_row row_left s.reconciliation)
  unfolding record_mainnet_snapshot
  outcome h = ground arith

  stored :
      record_mainnet_snapshot to_string details snapshot s ≡ (ok state, t)
      → reconciliation_state snapshot.account_address t ≡ some state
  unfolding reconciliation_state
  stored h = ground (
    arith,
    outcome h,
    first-upsert row_left s.reconciliation,
    row-account details (known_of snapshot (reconciliation_state snapshot.account_address s))
        (reconciliation_state snapshot.account_address s)
        (import_all to_string (known_of snapshot (reconciliation_state snapshot.account_address s))
          snapshot s.mainnet).0,
  )

  -- If a snapshot is recorded with a state that is ready, that state is the account's from then on,
  -- in normal mode; the import has found no discrepancy, no position of the snapshot is without
  -- protection, and the account was not in close-only mode before.
  pub ready_only_clean :
      record_mainnet_snapshot to_string details snapshot s ≡ (ok state, t)
      → state.row.ready ≡ true
      → let previous = reconciliation_state snapshot.account_address s in
        (reconciliation_state snapshot.account_address t ≡ some state)
        × (is_normal state.row.mode ≡ true)
        × (has_discrepancy (import_all to_string (known_of snapshot previous) snapshot s.mainnet).0
            ≡ false)
        × (unprotected_coins snapshot ≡ [])
        × (was is_close_only previous ≡ false)
  ready_only_clean h ready =
      let previous = reconciliation_state snapshot.account_address s in
      let k = known_of snapshot previous in
      let d = (import_all to_string k snapshot s.mainnet).0 in
      let clean = row-ready details k previous d (ready_left h ready) in
      (stored h, rw (outcome h).0 clean.0, clean.1, no_unprotected clean.1, clean.2)
    where
      ready_left :
          record_mainnet_snapshot to_string details snapshot s ≡ (ok state, t)
          → state.row.ready ≡ true
          → row_left.ready ≡ true
      ready_left h ready = rw (outcome h).0 at ready

      no_unprotected :
          has_discrepancy
              (import_all to_string
                (known_of snapshot (reconciliation_state snapshot.account_address s))
                snapshot
                s.mainnet).0
            ≡ false
          → unprotected_coins snapshot ≡ []
      no_unprotected h = ground arith
