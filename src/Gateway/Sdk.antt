-- ===== src/Gateway/Sdk.antt =====
-- What src/live_gateway.rs uses of the exchange's SDK and of Rust's floats. A number of an answer is
-- the text that the exchange sends.
use hyperliquid_live_executo.Base.{ℕ, Bool, List, String, Option}
use hyperliquid_live_executo.Base.Int.{ℤ}
use hyperliquid_live_executo.Base.Result.{Result}

-- The operations of `f64`, and `Decimal::to_f64`.
pub record Floats (D F : Type 0) : Type 0 where
  pub to_f64 : D → Option F
  pub of_nat : ℕ → F
  pub add : F → F → F
  pub sub : F → F → F
  pub mul : F → F → F
  pub div : F → F → F
  pub abs : F → F
  pub log10 : F → F
  pub floor : F → F
  pub round : F → F
  -- `as i32`
  pub to_i32 : F → ℤ
  -- `10f64.powi(n)`
  pub ten_powi : ℤ → F
  pub copysign : F → F → F

pub record FilledOrder : Type 0 where
  pub oid : ℕ
  pub total_sz : String
  pub avg_px : String

pub data ExchangeDataStatus : Type 0 where
  success waiting_for_fill waiting_for_trigger : ExchangeDataStatus
  error : String → ExchangeDataStatus
  resting : ℕ → ExchangeDataStatus
  filled : FilledOrder → ExchangeDataStatus

-- The statuses of an accepted request may be missing.
pub data ExchangeResponseStatus : Type 0 where
  accepted : Option (List ExchangeDataStatus) → ExchangeResponseStatus
  refused : String → ExchangeResponseStatus

pub record MarketOrderParams (F : Type 0) : Type 0 where
  pub asset : String
  pub is_buy : Bool
  pub sz : F
  pub px : F
  pub slippage : F
  pub cloid : ℕ

pub data ClientOrder (F : Type 0) : Type 0 where
  -- the time in force
  limit : String → ClientOrder F
  -- whether it is a market order, the trigger price, and "tp" or "sl"
  trigger : Bool → F → String → ClientOrder F

pub record ClientOrderRequest (F : Type 0) : Type 0 where
  pub asset : String
  pub is_buy : Bool
  pub reduce_only : Bool
  pub limit_px : F
  pub sz : F
  pub cloid : ℕ
  pub order_type : ClientOrder F

-- An answer to `orderStatus`: the status, and the id of the order if there is one.
pub record OrderStatus : Type 0 where
  pub status : String
  pub oid : Option ℕ

pub record Fill : Type 0 where
  pub oid : ℕ
  pub sz : String
  pub px : String

-- The order in an order-status detail.
pub record OrderDetail : Type 0 where
  pub cloid : Option String
  pub coin : String
  pub side : String
  pub sz : String
  pub reduce_only : Bool
  pub is_trigger : Bool

-- What the exchange answers to each request; a request that is repeated is given its number.
-- `order_status` has an answer that is not an order status as `none`.
pub record Exchange (F : Type 0) : Type 0 where
  pub universe : List (String × ℕ)
  -- the coin and the size of each position
  pub user_state : Result String (List (String × String))
  pub market_open : MarketOrderParams F → Result String ExchangeResponseStatus
  pub bulk_order : List (ClientOrderRequest F) → Result String ExchangeResponseStatus
  pub order : ClientOrderRequest F → Result String ExchangeResponseStatus
  pub order_status : ℕ → ℕ → Result String (Option OrderStatus)
  pub user_fills : ℕ → Result String (List Fill)
  -- the ids of the open orders
  pub open_orders : ℕ → Result String (List ℕ)
  pub query_order_by_oid : ℕ → ℕ → Result String (Option OrderDetail)
