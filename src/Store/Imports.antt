-- ===== src/Store/Imports.antt =====
-- src/store.rs: the three loops of `record_mainnet_snapshot` over the orders, the positions and the
-- projected coins. The text of a decimal is a parameter.
use hyperliquid_live_executo.Base.{
  ℕ, Bool, false, not, ◌&&◌, List, [], ◌∷◌, String, none, some, ◌==◌, str_eq, leb, any,
  if◌then◌else◌,
}
use hyperliquid_live_executo.Base.Table
use hyperliquid_live_executo.Base.Time.{Timestamp}
use hyperliquid_live_executo.Mainnet.{
  Mainnet, MainnetOpenOrderSnapshot, MainnetPositionSnapshot, ProjectedOrder, ProjectedPosition,
  OrderUpdateRow, FillRow,
}

-- What the loops know of the account.
pub record Known : Type 0 where
  pub account : String
  pub baseline : Bool
  pub since_ms : ℕ
  pub observed_at : Timestamp

abbrev source_of : Known → String
source_of k = if k.baseline then "baseline" else "snapshot"

abbrev is_order : String → ℕ → ProjectedOrder → Bool
is_order account oid r = str_eq r.account_address account && r.oid == oid

abbrev is_position : String → String → ProjectedPosition → Bool
is_position account coin r = str_eq r.account_address account && str_eq r.coin coin

abbrev upsert_order : ProjectedOrder → List ProjectedOrder → List ProjectedOrder
upsert_order o [] = o ∷ []
upsert_order o (r ∷ rs) =
    if is_order o.account_address o.oid r
    then record r { coin = o.coin; status = o.status; last_seen_at = o.last_seen_at } ∷ rs
    else r ∷ upsert_order o rs

abbrev upsert_position : ProjectedPosition → List ProjectedPosition → List ProjectedPosition
upsert_position p [] = p ∷ []
upsert_position p (r ∷ rs) =
    if is_position p.account_address p.coin r
    then record r { signed_size = p.signed_size; last_seen_at = p.last_seen_at } ∷ rs
    else r ∷ upsert_position p rs

module _ {D : Type 0} where
  abbrev has_update : Known → ℕ → Mainnet D → Bool
  has_update k oid m =
      any
        (λ (u : OrderUpdateRow).
          str_eq u.account_address k.account
          && u.oid == oid
          && leb k.since_ms u.status_timestamp_ms)
        m.order_updates

  abbrev has_fill : Known → String → Mainnet D → Bool
  has_fill k coin m =
      any
        (λ (f : FillRow).
          str_eq f.account_address k.account && str_eq f.coin coin && leb k.since_ms f.time_ms)
        m.fills

  abbrev order_unexplained : Known → ℕ → Mainnet D → Bool
  order_unexplained k oid m =
      not k.baseline && not (any (is_order k.account oid) m.orders) && not (has_update k oid m)

  -- The loop over the open orders: the unexplained ones, and the projection.
  abbrev pub import_orders :
      Known → List (MainnetOpenOrderSnapshot D) → Mainnet D → List ℕ × Mainnet D
  import_orders k [] m = ([], m)
  import_orders k (o ∷ os) m =
      if order_unexplained k o.oid m
      then (let (rest, n) = import_orders k os m in (o.oid ∷ rest, n))
      else import_orders k os (record m {
        orders =
            upsert_order
              (record {
                account_address = k.account;
                oid = o.oid;
                coin = o.coin;
                status = "open";
                source = source_of k;
                last_seen_at = k.observed_at;
              })
              m.orders;
      })

  abbrev size_changed : Known → String → String → Mainnet D → Bool
  size_changed k coin size m = elim (Table.first (is_position k.account coin) m.positions) [
    | none ↦ false
    | some r ↦ not (str_eq r.signed_size size)
  ]

  -- The loop over the positions.
  abbrev pub import_positions :
      (D → String) → Known → List (MainnetPositionSnapshot D) → Mainnet D → List String × Mainnet D
  import_positions to_string k [] m = ([], m)
  import_positions to_string k (p ∷ ps) m =
      if not k.baseline
        && size_changed k p.coin (to_string p.signed_size) m
        && not (has_fill k p.coin m)
      then (let (rest, n) = import_positions to_string k ps m in (p.coin ∷ rest, n))
      else import_positions to_string k ps (record m {
        positions =
            upsert_position
              (record {
                account_address = k.account;
                coin = p.coin;
                signed_size = to_string p.signed_size;
                source = source_of k;
                last_seen_at = k.observed_at;
              })
              m.positions;
      })

  -- The loop over the projected coins that the snapshot does not list.
  abbrev pub close_positions :
      Known → List String → List String → Mainnet D → List String × Mainnet D
  close_positions k current [] m = ([], m)
  close_positions k current (coin ∷ coins) m =
      if any (str_eq coin) current
      then close_positions k current coins m
      else if not k.baseline && not (has_fill k coin m)
      then (let (rest, n) = close_positions k current coins m in (coin ∷ rest, n))
      else close_positions k current coins (record m {
        positions =
            Table.update (is_position k.account coin)
              (λ r. record r { signed_size = "0"; last_seen_at = k.observed_at }) m.positions;
      })
