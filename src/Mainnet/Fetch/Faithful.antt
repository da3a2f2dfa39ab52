-- ===== src/Mainnet/Fetch/Faithful.antt =====
-- src/mainnet_read.rs: what a snapshot that was fetched says of the account.
use hyperliquid_live_executo.Mainnet.Fetch.Lists.{Pairs, collect-Pairs, known-coins, Pairs-equal}
use hyperliquid_live_executo.Mainnet.Fetch.Rows.{
  IsRead, Matches, decimal_lem, position-IsRead, detailed-Matches,
}
use hyperliquid_live_executo.Base.{
  ◌≡◌, true, false, List, [], ◌++◌, String, Option, none, some, All, is_some, map, arith, select,
}
use hyperliquid_live_executo.Base.Map
use hyperliquid_live_executo.Base.Result.{ok, bound}
use hyperliquid_live_executo.Base.Time.{Timestamp}
use hyperliquid_live_executo.Decimal
use hyperliquid_live_executo.Decimal.{DecimalOps}
use hyperliquid_live_executo.Decimal.Order.{OrderLaws}
use hyperliquid_live_executo.Mainnet.{
  MainnetAccountSnapshot, MainnetPositionSnapshot, MainnetOpenOrderSnapshot,
}
use hyperliquid_live_executo.Mainnet.Coverage.{evaluate_protection_coverage}
use hyperliquid_live_executo.Mainnet.Sdk.{Gathered}
use hyperliquid_live_executo.Mainnet.Parse.{Read, collect, decimal}
use hyperliquid_live_executo.Mainnet.Fetch.{
  Answers, checked_mid, relevant_mids, position_snapshot, detailed, relevant_coins, check_metadata,
  check_notional, projected_notional, fetch_snapshot,
}

module _ {D : Type 0} (ops : DecimalOps D) (parse : String → Option D) where
  -- The prices of the snapshot are the answered ones of the relevant coins, each of which can be read.
  abbrev pub HasMids : List (String × String) → MainnetAccountSnapshot D → Type 0
  HasMids answered snapshot =
      let relevant =
        select
          (λ (e : String × String).
            Map.contains_key e.0 (relevant_coins snapshot.positions snapshot.open_orders))
          answered in
      (snapshot.mids ≡ Map.collect [] relevant)
      × All (λ (e : String × String). is_some (parse e.1) ≡ true) relevant

  mid_lem :
      (e f : String × String) → checked_mid parse e ≡ ok f → (f ≡ e) × (is_some (parse e.1) ≡ true)
  unfolding decimal
  mid_lem (coin, value) f h = (ground arith, ground arith)

  mids-HasMids :
      (answered : List (String × String)) (snapshot : MainnetAccountSnapshot D)
      → relevant_mids parse (relevant_coins snapshot.positions snapshot.open_orders) answered
        ≡ ok snapshot.mids
      → HasMids answered snapshot
  unfolding relevant_mids
  mids-HasMids answered snapshot h =
      let (entries, e, last) = bound (collect (checked_mid parse) _) _ h in
      let (same, each) =
        Pairs-equal _ _ entries (collect-Pairs (checked_mid parse) _ mid_lem _ _ e) in
      (rw same at (mids_lem entries last), each)
    where
      mids_lem :
          (entries : List (String × String))
          → ◌≡◌ {A = Read D (List (String × String))}
              (ok (Map.collect [] entries))
              (ok snapshot.mids)
          → snapshot.mids ≡ Map.collect [] entries
      mids_lem entries k = ground arith

  -- The sum of the positions' notionals differs from the account's total by a cent at most.
  abbrev pub Within : List (MainnetPositionSnapshot D) → D → Type 0
  Within positions total = elim (projected_notional ops ops.zero positions) [
    | none ↦ ⊥
    | some projected ↦ (elim (ops.sub projected total) [
      | none ↦ ⊥
      | some difference ↦ Decimal.gt ops (ops.abs difference) (ops.new 1 2) ≡ false
    ])
  ]

  pub check-Within :
      (positions : List (MainnetPositionSnapshot D)) (total : D)
      → check_notional ops positions total ≡ ok tt
      → Within positions total
  unfolding check_notional
  check-Within positions total h = ground arith

  -- The steps of a fetch that has succeeded.
  fetch_steps :
      (answers : Answers) (gathered : Gathered) (address : String) (now : Timestamp)
      (snapshot : MainnetAccountSnapshot D)
      → answers.gathered ≡ ok gathered
      → fetch_snapshot ops parse answers address now ≡ ok snapshot
      → (snapshot.account_address ≡ address)
        × (snapshot.observed_at ≡ now)
        × (collect (position_snapshot parse) gathered.user_state.asset_positions
            ≡ ok snapshot.positions)
        × (collect (detailed ops parse answers.order_by_oid) gathered.open_orders
            ≡ ok snapshot.open_orders)
        × (relevant_mids parse
              (relevant_coins snapshot.positions snapshot.open_orders)
              gathered.mids
            ≡ ok snapshot.mids)
        × (snapshot.asset_size_decimals ≡ Map.collect [] gathered.universe)
        × (check_metadata {D = D}
              (relevant_coins snapshot.positions snapshot.open_orders)
              snapshot.asset_size_decimals
            ≡ ok tt)
        × (decimal parse "marginSummary.totalNtlPos" gathered.user_state.total_ntl_pos
            ≡ ok snapshot.total_position_notional_usd)
        × (check_notional ops snapshot.positions snapshot.total_position_notional_usd ≡ ok tt)
        × (evaluate_protection_coverage ops parse snapshot.positions snapshot.open_orders
              snapshot.mids
            ≡ some snapshot.protection_coverage)
        × (decimal parse "marginSummary.accountValue" gathered.user_state.account_value
            ≡ ok snapshot.account_value_usd)
        × (decimal parse "withdrawable" gathered.user_state.withdrawable
            ≡ ok snapshot.withdrawable_usd)
        × (decimal parse "marginSummary.totalMarginUsed" gathered.user_state.total_margin_used
            ≡ ok snapshot.total_margin_used_usd)
  unfolding fetch_snapshot
  fetch_steps answers gathered address now snapshot g h = ground arith

  -- What a fetched snapshot says, against what the exchange has answered.
  pub record IsFaithful (answers : Answers) (gathered : Gathered) (address : String)
      (now : Timestamp) (snapshot : MainnetAccountSnapshot D) : Type 0 where
    pub account : snapshot.account_address ≡ address
    pub observed : snapshot.observed_at ≡ now
    pub positions : Pairs (IsRead ops parse) gathered.user_state.asset_positions snapshot.positions
    pub orders :
        Pairs (Matches ops parse answers.order_by_oid) gathered.open_orders snapshot.open_orders
    pub mids : HasMids gathered.mids snapshot
    pub decimals : snapshot.asset_size_decimals ≡ Map.collect [] gathered.universe
    pub coins :
        All
          (λ coin. Map.contains_key coin snapshot.asset_size_decimals ≡ true)
          (map (λ (p : MainnetPositionSnapshot D). p.coin) snapshot.positions
            ++ map (λ (o : MainnetOpenOrderSnapshot D). o.coin) snapshot.open_orders)
    pub account_value : parse gathered.user_state.account_value ≡ some snapshot.account_value_usd
    pub withdrawable : parse gathered.user_state.withdrawable ≡ some snapshot.withdrawable_usd
    pub margin_used :
        parse gathered.user_state.total_margin_used ≡ some snapshot.total_margin_used_usd
    pub total : parse gathered.user_state.total_ntl_pos ≡ some snapshot.total_position_notional_usd
    pub notional : Within snapshot.positions snapshot.total_position_notional_usd
    pub coverage :
        evaluate_protection_coverage ops parse snapshot.positions snapshot.open_orders snapshot.mids
        ≡ some snapshot.protection_coverage

  -- A snapshot that has been fetched is faithful to what the exchange has answered: it names the
  -- account and the time; the account's value, withdrawable amount, margin used and total notional
  -- are read from the answered texts of these names; its positions are the answered ones, one by
  -- one, each field read from its own text; its orders are the open orders, one by one, each with
  -- its detail by id, which agrees with the list and gives the trigger; its prices are the answered
  -- ones of the coins of these positions and orders, and can be read; its size decimals are those
  -- of the universe, and know every such coin; the notionals of the positions add up to the
  -- account's total within a cent; and its coverage is that of these positions and orders.
  -- Decimals are assumed to be totally ordered.
  pub fetch-IsFaithful :
      (laws : OrderLaws ops) (answers : Answers) (gathered : Gathered) (address : String)
      (now : Timestamp) (snapshot : MainnetAccountSnapshot D)
      → answers.gathered ≡ ok gathered
      → fetch_snapshot ops parse answers address now ≡ ok snapshot
      → IsFaithful answers gathered address now snapshot
  fetch-IsFaithful laws answers gathered address now snapshot g h =
      let (
        account, observed, positions, orders, mids, decimals, coins, total, notional, coverage,
        account_value, withdrawable, margin_used,
      ) =
        fetch_steps answers gathered address now snapshot g h in
      record {
        account = account;
        observed = observed;
        positions =
            collect-Pairs (position_snapshot parse) _ (position-IsRead ops parse) _ _ positions;
        orders =
            collect-Pairs (detailed ops parse answers.order_by_oid) _
              (detailed-Matches ops parse answers.order_by_oid) _ _ orders;
        mids = mids-HasMids gathered.mids snapshot mids;
        decimals = decimals;
        coins = known-coins snapshot coins;
        account_value = decimal_lem ops parse _ _ _ account_value;
        withdrawable = decimal_lem ops parse _ _ _ withdrawable;
        margin_used = decimal_lem ops parse _ _ _ margin_used;
        total = decimal_lem ops parse _ _ _ total;
        notional = check-Within _ _ notional;
        coverage = coverage;
      }
