-- ===== src/Mainnet/Fetch.antt =====
-- src/mainnet_read.rs: `MainnetReadAdapter::fetch_snapshot`. What the exchange's client answers is
-- an argument; `parse` reads a decimal of `ops`.
pub mod Lists
pub mod Rows
pub mod Faithful
use hyperliquid_live_executo.Base.{
  ℕ, Bool, true, not, ◌&&◌, List, [], ◌∷◌, ◌++◌, String, Option, none, some, ◌==◌, str_eq, map,
  select, if◌then◌else◌,
}
use hyperliquid_live_executo.Base.Map
use hyperliquid_live_executo.Base.Result.{Result, ok, err, or_panic, fail_if, ◌>>=◌, ◌>>◌}
use hyperliquid_live_executo.Base.Time.{Timestamp}
use hyperliquid_live_executo.Decimal
use hyperliquid_live_executo.Decimal.{DecimalOps}
use hyperliquid_live_executo.Mainnet.{
  MainnetAccountSnapshot, MainnetPositionSnapshot, MainnetOpenOrderSnapshot,
}
use hyperliquid_live_executo.Mainnet.Coverage.{evaluate_protection_coverage}
use hyperliquid_live_executo.Mainnet.Sdk.{PositionData, OpenOrder, OrderInfo, Gathered}
use hyperliquid_live_executo.Mainnet.Parse.{
  Read, collect, decimal, optional_decimal, from_sdk, parsed_address, reconciliation_mismatch,
  no_detail, detail_differs, unknown_coin, notional_differs,
}
use Prim.Native.String.{◌++◌ as append}

-- The client's answers: that it was made, that the address is one, the four answers that are asked
-- for together, and the detail of an order by its id.
pub record Answers : Type 0 where
  pub client : Result String (Unit {0})
  pub address : Bool
  pub gathered : Result String Gathered
  pub order_by_oid : ℕ → Result String (Option OrderInfo)

-- The coins of the positions and of the open orders, as a `BTreeSet`.
abbrev pub insert_coins : List String → List (String × Unit {0}) → List (String × Unit {0})
insert_coins [] m = m
insert_coins (coin ∷ coins) m = insert_coins coins (Map.insert coin tt m)

module _ {D : Type 0} where
  unfoldable pub relevant_coins :
      List (MainnetPositionSnapshot D)
      → List (MainnetOpenOrderSnapshot D)
      → List (String × Unit {0})
  relevant_coins positions orders =
      insert_coins
        (map (λ (p : MainnetPositionSnapshot D). p.coin) positions
          ++ map (λ (o : MainnetOpenOrderSnapshot D). o.coin) orders)
        []

  -- The loop over the relevant coins.
  unfoldable pub check_metadata : List (String × Unit {0}) → List (String × ℕ) → Read D (Unit {0})
  check_metadata [] known = ok tt
  check_metadata ((coin, _) ∷ coins) known =
      let rest = check_metadata coins known in
      if Map.contains_key coin known
      then rest
      else err (reconciliation_mismatch (unknown_coin coin))

module _ {D : Type 0} (parse : String → Option D) where
  unfoldable pub position_snapshot : PositionData → Read D (MainnetPositionSnapshot D)
  position_snapshot p = do
    signed_size ← decimal parse "position.szi" p.szi
    position_value ← decimal parse "position.positionValue" p.position_value
    unrealized_pnl ← decimal parse "position.unrealizedPnl" p.unrealized_pnl
    entry_price ← optional_decimal parse "position.entryPx" p.entry_px
    liquidation_price ← optional_decimal parse "position.liquidationPx" p.liquidation_px
    ok (record {
      coin = p.coin;
      signed_size = signed_size;
      position_value_usd = position_value;
      unrealized_pnl_usd = unrealized_pnl;
      entry_price = entry_price;
      liquidation_price = liquidation_price;
      leverage = p.leverage_value;
      leverage_type = p.leverage_type;
    })

  abbrev trigger_of : OrderInfo → Read D (Option D)
  trigger_of order =
      if order.is_trigger
      then (do price ← decimal parse "openOrder.triggerPx" order.trigger_px; ok (some price))
      else ok none

  -- One entry of the prices, which must be a decimal and is kept as its text.
  abbrev pub checked_mid : String × String → Read D (String × String)
  checked_mid (coin, value) = do _ ← decimal parse (append "mids." coin) value; ok (coin, value)

  unfoldable pub relevant_mids :
      List (String × Unit {0}) → List (String × String) → Read D (List (String × String))
  relevant_mids coins mids = do
    entries ←
        collect checked_mid (select (λ (e : String × String). Map.contains_key e.0 coins) mids)
    ok (Map.collect [] entries)

module _ {D : Type 0} (ops : DecimalOps D) where
  -- `.map(|position| position.position_value_usd.abs()).sum::<Decimal>()`
  abbrev pub projected_notional : D → List (MainnetPositionSnapshot D) → Option D
  projected_notional acc [] = some acc
  projected_notional acc (p ∷ ps) = elim (ops.add acc (ops.abs p.position_value_usd)) [
    | none ↦ none
    | some next ↦ projected_notional next ps
  ]

  unfoldable pub check_notional : List (MainnetPositionSnapshot D) → D → Read D (Unit {0})
  check_notional positions total = do
    projected ← or_panic (projected_notional ops.zero positions)
    difference ← or_panic (ops.sub projected total)
    fail_if (Decimal.gt ops (ops.abs difference) (ops.new 1 2))
        (reconciliation_mismatch (notional_differs projected total))

module _ {D : Type 0} (ops : DecimalOps D) (parse : String → Option D) where
  -- `decimal(a)? != decimal(b)?`
  abbrev differ : String → String → String → String → Read D Bool
  differ field_a a field_b b = do
    x ← decimal parse field_a a
    y ← decimal parse field_b b
    ok (not (Decimal.eq ops x y))

  abbrev same_order : OpenOrder → OrderInfo → Bool
  same_order basic order =
      order.oid == basic.oid && str_eq order.coin basic.coin && str_eq order.side basic.side

  -- `a || b` on tests that may fail: the second is read only if the first is false.
  abbrev or_else : Read D Bool → Read D Bool → Read D Bool
  or_else a b = do found ← a; if found then ok true else b

  -- The condition on the detail of an open order.
  unfoldable pub detail_mismatch : OpenOrder → OrderInfo → Read D Bool
  detail_mismatch basic order = or_else (ok (not (same_order basic order))) (
      or_else (differ "orderStatus.limitPx" order.limit_px "openOrder.limitPx" basic.limit_px) (
        or_else (differ "orderStatus.sz" order.sz "openOrder.sz" basic.sz)
          (ok (not (order.timestamp == basic.timestamp)))))

  unfoldable pub order_snapshot : OpenOrder → Option OrderInfo → Read D (MainnetOpenOrderSnapshot D)
  order_snapshot basic none = err (reconciliation_mismatch (no_detail basic.oid))
  order_snapshot basic (some order) = do
    mismatch ← detail_mismatch basic order
    fail_if mismatch (reconciliation_mismatch (detail_differs basic.oid))
    trigger_price ← trigger_of parse order
    limit_price ← decimal parse "openOrder.limitPx" order.limit_px
    size ← decimal parse "openOrder.sz" order.sz
    ok (record {
      coin = order.coin;
      oid = order.oid;
      side = order.side;
      limit_price = limit_price;
      size = size;
      timestamp_ms = order.timestamp;
      is_trigger = order.is_trigger;
      reduce_only = order.reduce_only;
      trigger_condition = order.trigger_condition;
      trigger_price = trigger_price;
    })

  abbrev pub detailed :
      (ℕ → Result String (Option OrderInfo)) → OpenOrder → Read D (MainnetOpenOrderSnapshot D)
  detailed order_by_oid basic = do
    detail ← from_sdk (order_by_oid basic.oid)
    order_snapshot basic detail

  unfoldable pub fetch_snapshot : Answers → String → Timestamp → Read D (MainnetAccountSnapshot D)
  fetch_snapshot answers account_address now = do
    from_sdk answers.client
    parsed_address answers.address
    gathered ← from_sdk answers.gathered
    positions ← collect (position_snapshot parse) gathered.user_state.asset_positions
    open_orders ← collect (detailed answers.order_by_oid) gathered.open_orders
    let coins = relevant_coins positions open_orders
    mids ← relevant_mids parse coins gathered.mids
    let decimals : List (String × ℕ) = Map.collect [] gathered.universe
    check_metadata coins decimals
    total ← decimal parse "marginSummary.totalNtlPos" gathered.user_state.total_ntl_pos
    check_notional ops positions total
    coverage ← or_panic (evaluate_protection_coverage ops parse positions open_orders mids)
    account_value ← decimal parse "marginSummary.accountValue" gathered.user_state.account_value
    withdrawable ← decimal parse "withdrawable" gathered.user_state.withdrawable
    margin_used ←
        decimal parse "marginSummary.totalMarginUsed" gathered.user_state.total_margin_used
    ok (record {
      account_address = account_address;
      observed_at = now;
      account_value_usd = account_value;
      withdrawable_usd = withdrawable;
      total_margin_used_usd = margin_used;
      total_position_notional_usd = total;
      positions = positions;
      open_orders = open_orders;
      protection_coverage = coverage;
      asset_size_decimals = decimals;
      mids = mids;
    })
