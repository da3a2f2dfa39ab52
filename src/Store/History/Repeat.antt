-- ===== src/Store/History/Repeat.antt =====
-- src/store.rs: what recording a batch of history, or of order updates, leaves in the tables.
use hyperliquid_live_executo.Base.{
  ◌++◌, ◌≡◌, ◌∙◌, ap, true, List, String, map, arith, str_eq_refl, str_eq_comm,
}
use hyperliquid_live_executo.Base.Result.{ok}
use hyperliquid_live_executo.Base.Table
use hyperliquid_live_executo.Base.Table.Inserts.{
  Distinct, inserted, insert_all_lem, insert_all-Distinct, insert_all-again,
}
use hyperliquid_live_executo.Base.Time.{Timestamp}
use hyperliquid_live_executo.Mainnet.{
  MainnetFillRecord, MainnetFundingRecord, MainnetOrderUpdateRecord, FillRow, FundingRow,
  OrderUpdateRow,
}
use hyperliquid_live_executo.Store.State.{Store}
use hyperliquid_live_executo.Store.History.{
  same_fill, same_funding, same_update, fill_row, funding_row, update_row, record_mainnet_history,
  record_mainnet_order_updates,
}

ruleset text_keys = (arith, str_eq_refl, str_eq_comm)

same_fill_refl : (a : FillRow) → same_fill a a ≡ true
unfolding same_fill
same_fill_refl a = grind text_keys

same_funding_refl : (a : FundingRow) → same_funding a a ≡ true
unfolding same_funding
same_funding_refl a = grind text_keys

same_update_refl : (a : OrderUpdateRow) → same_update a a ≡ true
unfolding same_update
same_update_refl a = grind text_keys

same_fill_sym : (a b : FillRow) → same_fill a b ≡ same_fill b a
unfolding same_fill
same_fill_sym a b = grind text_keys

pub same_funding_sym : (a b : FundingRow) → same_funding a b ≡ same_funding b a
unfolding same_funding
same_funding_sym a b = grind text_keys

same_update_sym : (a b : OrderUpdateRow) → same_update a b ≡ same_update b a
unfolding same_update
same_update_sym a b = grind text_keys

module _ {D : Type 0} (to_string : D → String) (account : String) where
  -- The two tables that the import of history leaves.
  history_tables :
      (now : Timestamp) (fills : List (MainnetFillRecord D))
      (funding : List (MainnetFundingRecord D)) (s t : Store D)
      → record_mainnet_history to_string account now fills funding s ≡ (ok tt, t)
      → (t.mainnet.fills
          ≡ (Table.insert_all same_fill (map (fill_row to_string account) fills) s.mainnet.fills).1)
        × (t.mainnet.funding
            ≡ (Table.insert_all same_funding
                (map (funding_row to_string account) funding)
                s.mainnet.funding).1)
  unfolding record_mainnet_history
  history_tables now fills funding s t h = ground arith

  -- An import that inserts no row leaves the store as it is.
  history_idle :
      (now : Timestamp) (fills : List (MainnetFillRecord D))
      (funding : List (MainnetFundingRecord D)) (s : Store D)
      → Table.insert_all same_fill (map (fill_row to_string account) fills) s.mainnet.fills
        ≡ (0, s.mainnet.fills)
      → Table.insert_all same_funding
          (map (funding_row to_string account) funding)
          s.mainnet.funding
        ≡ (0, s.mainnet.funding)
      → record_mainnet_history to_string account now fills funding s ≡ (ok tt, s)
  unfolding record_mainnet_history
  history_idle now fills funding s p q = ground arith

  history_total :
      (now : Timestamp) (fills : List (MainnetFillRecord D))
      (funding : List (MainnetFundingRecord D)) (s : Store D)
      → record_mainnet_history to_string account now fills funding s
        ≡ (ok tt, (record_mainnet_history to_string account now fills funding s).1)
  unfolding record_mainnet_history
  history_total now fills funding s = ground arith

  -- Recording a batch of fills and funding succeeds, and appends to each table, in order, exactly
  -- the rows whose key is neither in the table nor on an earlier row of the batch; if no key of the
  -- tables was listed twice, none is then; and recording the same batch once more, at any time,
  -- changes nothing in the store, so that no second event is written.
  pub history_recorded :
      (now later : Timestamp) (fills : List (MainnetFillRecord D))
      (funding : List (MainnetFundingRecord D)) (s : Store D)
      → Distinct same_fill s.mainnet.fills
      → Distinct same_funding s.mainnet.funding
      → (t : Store D) × (record_mainnet_history to_string account now fills funding s ≡ (ok tt, t))
        × (t.mainnet.fills
            ≡ s.mainnet.fills
              ++ inserted same_fill (map (fill_row to_string account) fills) s.mainnet.fills)
        × (t.mainnet.funding
            ≡ s.mainnet.funding
              ++ inserted same_funding
                  (map (funding_row to_string account) funding)
                  s.mainnet.funding)
        × Distinct same_fill t.mainnet.fills
        × Distinct same_funding t.mainnet.funding
        × (record_mainnet_history to_string account later fills funding t ≡ (ok tt, t))
  history_recorded now later fills funding s d e =
      let t = (record_mainnet_history to_string account now fills funding s).1 in
      let h = history_total now fills funding s in
      let fill_rows : List FillRow = map (fill_row to_string account) fills in
      let funding_rows : List FundingRow = map (funding_row to_string account) funding in
      let (p, q) = history_tables now fills funding s t h in
      (
        t,
        h,
        p ∙ ap (λ r. r.1) (insert_all_lem same_fill fill_rows s.mainnet.fills),
        q ∙ ap (λ r. r.1) (insert_all_lem same_funding funding_rows s.mainnet.funding),
        rw p (insert_all-Distinct same_fill same_fill_sym fill_rows _ d),
        rw q (insert_all-Distinct same_funding same_funding_sym funding_rows _ e),
        history_idle later fills funding t
            (rw p (insert_all-again same_fill same_fill_refl fill_rows s.mainnet.fills))
            (rw q (insert_all-again same_funding same_funding_refl funding_rows s.mainnet.funding)),
      )

  -- The table that the import of order updates leaves.
  updates_table :
      (now : Timestamp) (updates : List (MainnetOrderUpdateRecord D)) (s t : Store D)
      → record_mainnet_order_updates to_string account now updates s ≡ (ok tt, t)
      → t.mainnet.order_updates
        ≡ (Table.insert_all same_update
            (map (update_row to_string account) updates)
            s.mainnet.order_updates).1
  unfolding record_mainnet_order_updates
  updates_table now updates s t h = ground arith

  updates_idle :
      (now : Timestamp) (updates : List (MainnetOrderUpdateRecord D)) (s : Store D)
      → Table.insert_all same_update
          (map (update_row to_string account) updates)
          s.mainnet.order_updates
        ≡ (0, s.mainnet.order_updates)
      → record_mainnet_order_updates to_string account now updates s ≡ (ok tt, s)
  unfolding record_mainnet_order_updates
  updates_idle now updates s p = ground arith

  updates_total :
      (now : Timestamp) (updates : List (MainnetOrderUpdateRecord D)) (s : Store D)
      → record_mainnet_order_updates to_string account now updates s
        ≡ (ok tt, (record_mainnet_order_updates to_string account now updates s).1)
  unfolding record_mainnet_order_updates
  updates_total now updates s = ground arith

  -- Recording a batch of order updates succeeds, and appends, in order, exactly the rows whose key
  -- is new; if no key was listed twice, none is then; and recording the batch once more changes
  -- nothing.
  pub updates_recorded :
      (now later : Timestamp) (updates : List (MainnetOrderUpdateRecord D)) (s : Store D)
      → Distinct same_update s.mainnet.order_updates
      → (t : Store D) × (record_mainnet_order_updates to_string account now updates s ≡ (ok tt, t))
        × (t.mainnet.order_updates
            ≡ s.mainnet.order_updates
              ++ inserted same_update
                  (map (update_row to_string account) updates)
                  s.mainnet.order_updates)
        × Distinct same_update t.mainnet.order_updates
        × (record_mainnet_order_updates to_string account later updates t ≡ (ok tt, t))
  updates_recorded now later updates s d =
      let t = (record_mainnet_order_updates to_string account now updates s).1 in
      let h = updates_total now updates s in
      let rows : List OrderUpdateRow = map (update_row to_string account) updates in
      let p = updates_table now updates s t h in
      (
        t,
        h,
        p ∙ ap (λ r. r.1) (insert_all_lem same_update rows s.mainnet.order_updates),
        rw p (insert_all-Distinct same_update same_update_sym rows _ d),
        updates_idle later updates t
            (rw p (insert_all-again same_update same_update_refl rows s.mainnet.order_updates)),
      )
