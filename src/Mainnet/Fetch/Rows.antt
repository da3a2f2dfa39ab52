-- ===== src/Mainnet/Fetch/Rows.antt =====
-- src/mainnet_read.rs: what a position and an open order of a fetched snapshot say.
use hyperliquid_live_executo.Mainnet.Sdk.{PositionData}
use hyperliquid_live_executo.Base.{
  ℕ, ◌≡◌, refl, true, String, Option, none, some, arith, eq_iff, Bool-cases, inl, inr,
  if◌then◌else◌,
}
use hyperliquid_live_executo.Base.Result.{Result, ok, err, panic, bound}
use hyperliquid_live_executo.Decimal
use hyperliquid_live_executo.Decimal.{DecimalOps}
use hyperliquid_live_executo.Mainnet.{MainnetPositionSnapshot, MainnetOpenOrderSnapshot}
use hyperliquid_live_executo.Mainnet.Sdk.{OpenOrder, OrderInfo}
use hyperliquid_live_executo.Mainnet.Parse.{decimal, optional_decimal}
use hyperliquid_live_executo.Mainnet.Fetch.{
  detail_mismatch, order_snapshot, position_snapshot, detailed,
}

module _ {D : Type 0} (ops : DecimalOps D) (parse : String → Option D) where
  -- A text that is read as a decimal equal to another.
  abbrev pub Reads : String → D → Type 0
  Reads text d = elim (parse text) [ none ↦ ⊥ | some x ↦ Decimal.eq ops d x ≡ true ]

  -- A text that may be missing, and the number that it is read as.
  abbrev ReadsOption : Option String → Option D → Type 0
  ReadsOption none d = d ≡ none
  ReadsOption (some text) d = (x : D) × (parse text ≡ some x) × (d ≡ some x)

  -- A position of the snapshot has the fields of the one that was answered, each read from the text
  -- of its own.
  pub record IsRead (p : PositionData) (q : MainnetPositionSnapshot D) : Type 0 where
    pub coin : q.coin ≡ p.coin
    pub signed_size : parse p.szi ≡ some q.signed_size
    pub position_value : parse p.position_value ≡ some q.position_value_usd
    pub unrealized_pnl : parse p.unrealized_pnl ≡ some q.unrealized_pnl_usd
    pub entry_price : ReadsOption p.entry_px q.entry_price
    pub liquidation_price : ReadsOption p.liquidation_px q.liquidation_price
    pub leverage : q.leverage ≡ p.leverage_value
    pub leverage_type : q.leverage_type ≡ p.leverage_type

  optional-Reads :
      (field : String) (text : Option String) (d : Option D)
      → optional_decimal parse field text ≡ ok d
      → ReadsOption text d
  unfolding optional_decimal decimal
  optional-Reads field none d h = ground arith
  optional-Reads field (some text) d h = read (parse text) refl
    where
      read : (r : Option D) → parse text ≡ r → (x : D) × (parse text ≡ some x) × (d ≡ some x)
      read none e = absurd (ground arith)
      read (some x) e = (x, e, ground arith)

  pub decimal_lem :
      (field text : String) (d : D) → decimal parse field text ≡ ok d → parse text ≡ some d
  unfolding decimal
  decimal_lem field text d h = ground arith

  pub position-IsRead :
      (p : PositionData) (q : MainnetPositionSnapshot D)
      → position_snapshot parse p ≡ ok q
      → IsRead p q
  unfolding position_snapshot
  position-IsRead p q h =
      let (size, e0, h0) = bound (decimal parse "position.szi" p.szi) _ h in
      let (value, e1, h1) = bound (decimal parse "position.positionValue" p.position_value) _ h0 in
      let (pnl, e2, h2) = bound (decimal parse "position.unrealizedPnl" p.unrealized_pnl) _ h1 in
      let (entry, e3, h3) = bound (optional_decimal parse "position.entryPx" p.entry_px) _ h2 in
      let (liquidation, e4, h4) =
        bound (optional_decimal parse "position.liquidationPx" p.liquidation_px) _ h3 in
      let same : q ≡ record {
        coin = p.coin;
        signed_size = size;
        position_value_usd = value;
        unrealized_pnl_usd = pnl;
        entry_price = entry;
        liquidation_price = liquidation;
        leverage = p.leverage_value;
        leverage_type = p.leverage_type;
      } =
        ground arith in
      rw same (record {
        coin = refl;
        signed_size = decimal_lem _ _ _ e0;
        position_value = decimal_lem _ _ _ e1;
        unrealized_pnl = decimal_lem _ _ _ e2;
        entry_price = optional-Reads _ _ _ e3;
        liquidation_price = optional-Reads _ _ _ e4;
        leverage = refl;
        leverage_type = refl;
      })

  -- An order of the snapshot is the open order of the list and its detail by the same id: the list's
  -- id, coin, side and time, with an equal price and size, and the detail's trigger, whose price is
  -- there exactly where it is a trigger.
  pub record Matches (by_oid : ℕ → Result String (Option OrderInfo)) (basic : OpenOrder)
      (o : MainnetOpenOrderSnapshot D) : Type 0 where
    pub oid : o.oid ≡ basic.oid
    pub coin : o.coin ≡ basic.coin
    pub side : o.side ≡ basic.side
    pub price : Reads basic.limit_px o.limit_price
    pub size : Reads basic.sz o.size
    pub time : o.timestamp_ms ≡ basic.timestamp
    pub detail : OrderInfo
    pub answered : by_oid basic.oid ≡ ok (some detail)
    pub detail_price : parse detail.limit_px ≡ some o.limit_price
    pub detail_size : parse detail.sz ≡ some o.size
    pub is_trigger : o.is_trigger ≡ detail.is_trigger
    pub reduce_only : o.reduce_only ≡ detail.reduce_only
    pub trigger_condition : o.trigger_condition ≡ detail.trigger_condition
    pub trigger_price :
        if detail.is_trigger
        then ReadsOption (some detail.trigger_px) o.trigger_price
        else (o.trigger_price ≡ none)

  list_lem :
      (basic : OpenOrder) (order : OrderInfo) (o : MainnetOpenOrderSnapshot D)
      → order_snapshot ops parse basic (some order) ≡ ok o
      → (o.oid ≡ basic.oid)
        × (o.coin ≡ basic.coin)
        × (o.side ≡ basic.side)
        × Reads basic.limit_px o.limit_price
        × Reads basic.sz o.size
        × (o.timestamp_ms ≡ basic.timestamp)
  unfolding order_snapshot detail_mismatch decimal
  list_lem basic order o h =
      ground (arith, eq_iff order.coin basic.coin, eq_iff order.side basic.side)

  detail_lem :
      (basic : OpenOrder) (order : OrderInfo) (o : MainnetOpenOrderSnapshot D)
      → order_snapshot ops parse basic (some order) ≡ ok o
      → (parse order.limit_px ≡ some o.limit_price)
        × (parse order.sz ≡ some o.size)
        × (o.is_trigger ≡ order.is_trigger)
        × (o.reduce_only ≡ order.reduce_only)
        × (o.trigger_condition ≡ order.trigger_condition)
  unfolding order_snapshot decimal
  detail_lem basic order o h = ground arith

  trigger_lem :
      (basic : OpenOrder) (order : OrderInfo) (o : MainnetOpenOrderSnapshot D)
      → order_snapshot ops parse basic (some order) ≡ ok o
      → (if order.is_trigger
          then ReadsOption (some order.trigger_px) o.trigger_price
          else (o.trigger_price ≡ none))
  unfolding order_snapshot decimal
  trigger_lem basic order o h = elim (Bool-cases order.is_trigger) [
    | inl triggers ↦ rw triggers (read triggers (parse order.trigger_px) refl)
    | inr plain ↦ rw plain (ground arith)
  ]
    where
      read :
          order.is_trigger ≡ true
          → (r : Option D) → parse order.trigger_px ≡ r
          → (x : D) × (parse order.trigger_px ≡ some x) × (o.trigger_price ≡ some x)
      read triggers none e = absurd (ground arith)
      read triggers (some x) e = (x, e, ground arith)

  pub detailed-Matches :
      (by_oid : ℕ → Result String (Option OrderInfo)) (basic : OpenOrder)
      (o : MainnetOpenOrderSnapshot D)
      → detailed ops parse by_oid basic ≡ ok o
      → Matches by_oid basic o
  unfolding order_snapshot
  detailed-Matches by_oid basic o h = split (by_oid basic.oid) refl
    where
      split : (r : Result String (Option OrderInfo)) → by_oid basic.oid ≡ r → Matches by_oid basic o
      split (ok none) e = cc (rw e at h)
      split (ok (some order)) e =
          let (oid, coin, side, price, size, time) = list_lem basic order o (rw e at h) in
          let (detail_price, detail_size, is_trigger, reduce_only, condition) =
            detail_lem basic order o (rw e at h) in
          record {
            oid = oid;
            coin = coin;
            side = side;
            price = price;
            size = size;
            time = time;
            detail = order;
            answered = e;
            detail_price = detail_price;
            detail_size = detail_size;
            is_trigger = is_trigger;
            reduce_only = reduce_only;
            trigger_condition = condition;
            trigger_price = trigger_lem basic order o (rw e at h);
          }
      split (err x) e = cc (rw e at h)
      split panic e = cc (rw e at h)
