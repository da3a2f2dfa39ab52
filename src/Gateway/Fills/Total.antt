-- ===== src/Gateway/Fills/Total.antt =====
-- src/live_gateway.rs: which fills belong to an order, and the fill that they make.
use hyperliquid_live_executo.Base.{
  ℕ, ◌≡◌, ◌≢◌, refl, false, List, [], ◌∷◌, some, ◌==◌, ==_iff, select, Bool-cases, inl, inr, arith,
}
use hyperliquid_live_executo.Base.Result.{Result, ok, err, panic, bound, or_panic}
use hyperliquid_live_executo.Gateway.Answers.{or_failure}
use hyperliquid_live_executo.Gateway.Tools.{Tools}
use hyperliquid_live_executo.Gateway.Fills.{sum_fills, of_order, total_fill}
use hyperliquid_live_executo.Gateway.Sdk.{Fill}
use hyperliquid_live_executo.Live.Execution.{ConfirmedFill, GatewayFailure}

-- The second list holds the fills of the first that belong to the order, in order.
pub data Own (oid : ℕ) : List Fill → List Fill → Type 0 where
  done : Own oid [] []
  mine :
      {fill : Fill} {fills own : List Fill}
      → fill.oid ≡ oid
      → Own oid fills own
      → Own oid (fill ∷ fills) (fill ∷ own)
  other :
      {fill : Fill} {fills own : List Fill}
      → fill.oid ≢ oid
      → Own oid fills own
      → Own oid (fill ∷ fills) own

pub of_order-Own : (oid : ℕ) (fills : List Fill) → Own oid fills (of_order oid fills)
of_order-Own oid [] = done
of_order-Own oid (x ∷ xs) = elim (Bool-cases (x.oid == oid)) [
  | inl same ↦ rw (same, of_order, select) (mine ((==_iff x.oid oid).0 same) (of_order-Own oid xs))
  | inr differs ↦ rw (differs, of_order, select) (other (λ e. ground arith) (of_order-Own oid xs))
]

module _ {D F : Type 0} (tools : Tools D F) where
  -- The sizes of the fills, and their sizes times their prices, add up from the first two numbers to
  -- the last two.
  abbrev pub Sums : List Fill → D → D → D → D → Type 0
  Sums [] size₀ quote₀ size quote = (size₀ ≡ size) × (quote₀ ≡ quote)
  Sums (x ∷ xs) size₀ quote₀ size quote =
      (a p m size₁ quote₁ : D) × (tools.parse x.sz ≡ some a)
      × (tools.parse x.px ≡ some p)
      × (tools.ops.mul a p ≡ some m)
      × (tools.ops.add size₀ a ≡ some size₁)
      × (tools.ops.add quote₀ m ≡ some quote₁)
      × Sums xs size₁ quote₁ size quote

  sum_fills-Sums :
      (fills : List Fill) (size₀ quote₀ size quote : D)
      → sum_fills tools size₀ quote₀ fills ≡ ok (size, quote)
      → Sums fills size₀ quote₀ size quote
  unfolding sum_fills
  sum_fills-Sums [] size₀ quote₀ size quote h = (ground arith, ground arith)
  sum_fills-Sums (x ∷ xs) size₀ quote₀ size quote h =
      let (a, ea, h1) = bound (or_failure _ (tools.parse x.sz)) _ h in
      let (p, ep, h2) = bound (or_failure _ (tools.parse x.px)) _ h1 in
      let (size₁, es, h3) = bound (or_panic (tools.ops.add size₀ a)) _ h2 in
      let (m, em, h4) = bound (or_panic (tools.ops.mul a p)) _ h3 in
      let (quote₁, eq, h5) = bound (or_panic (tools.ops.add quote₀ m)) _ h4 in
      (
        a,
        p,
        m,
        size₁,
        quote₁,
        ground (arith, ea),
        ground (arith, ep),
        ground (arith, em),
        ground (arith, es),
        ground (arith, eq),
        sum_fills-Sums xs size₁ quote₁ size quote h5,
      )

  -- A fill is the sum of the listed fills, and is not empty.
  pub record IsTotal (fills : List Fill) (fill : ConfirmedFill D) : Type 0 where
    pub quote : D
    pub summed : Sums fills tools.ops.zero tools.ops.zero fill.size quote
    pub not_empty : tools.ops.is_zero fill.size ≡ false
    pub average : tools.ops.div quote fill.size ≡ some fill.average_price

  pub total_fill-IsTotal :
      (oid : ℕ) (fills : List Fill) (fill : ConfirmedFill D)
      → total_fill tools oid fills ≡ ok (some fill)
      → (fill.exchange_oid ≡ oid) × IsTotal fills fill
  total_fill-IsTotal oid [] fill h = cc
  total_fill-IsTotal oid (x ∷ xs) fill h =
      sums (sum_fills tools tools.ops.zero tools.ops.zero (x ∷ xs)) refl
    where
      sums :
          (r : Result GatewayFailure (D × D))
          → sum_fills tools tools.ops.zero tools.ops.zero (x ∷ xs) ≡ r
          → (fill.exchange_oid ≡ oid) × IsTotal (x ∷ xs) fill
      sums (err e) p = absurd (ground arith)
      sums panic p = absurd (ground arith)
      sums (ok (size, quote)) p =
          let parts : (fill.exchange_oid ≡ oid)
              × (fill.size ≡ size)
              × (tools.ops.is_zero size ≡ false)
              × (tools.ops.div quote size ≡ some fill.average_price) =
            ground arith in
          (
            parts.0,
            record {
              quote = quote;
              summed = sum_fills-Sums (x ∷ xs) _ _ _ _ (rw parts.1 p);
              not_empty = rw parts.1 parts.2;
              average = rw parts.1 parts.3;
            },
          )
