-- ===== src/Mainnet/Coverage/Stops.antt =====
-- What a complete coverage promises: stops of sufficient size for each open position.
use hyperliquid_live_executo.Mainnet.Coverage.Eligible.{
  Among, IsReference, IsStop, Sums, total_size-Sums, select-Among, none-Among, select-IsStop,
  reference_of-IsReference,
}
use hyperliquid_live_executo.Base.{
  ◌≡◌, refl, true, not, List, [], ◌∷◌, String, Option, none, some, all, All, select, arith,
  Bool-cases, and_true, inl, inr,
}
use hyperliquid_live_executo.Decimal.{DecimalOps}
use hyperliquid_live_executo.Decimal
use hyperliquid_live_executo.Mainnet.{
  MainnetPositionSnapshot, MainnetOpenOrderSnapshot, MainnetProtectionCoverage,
}
use hyperliquid_live_executo.Mainnet.Coverage.{
  cons, is_stop_for_position, reference_of, stops_at, total_size, cover,
  evaluate_protection_coverage,
}

uncons :
    {A : Type 0} (a : Option A) (bs : Option (List A)) (cs : List A)
    → cons a bs ≡ some cs
    → (c : A) × (rest : List A) × (a ≡ some c) × (bs ≡ some rest) × (cs ≡ c ∷ rest)
uncons (some a) (some bs) cs h = (a, bs, refl, refl, ground arith)
uncons (some a) none cs h = ground arith
uncons none bs cs h = ground arith

module _ {D : Type 0} (ops : DecimalOps D) (parse : String → Option D)
    (orders : List (MainnetOpenOrderSnapshot D)) (mids : List (String × String)) where
  -- Some of the open orders are stops of the position by its reference price, and together they are
  -- at least as large as it; a position without a reference price has no such orders.
  pub record IsProtected (p : MainnetPositionSnapshot D) : Type 0 where
    pub stops : List (MainnetOpenOrderSnapshot D)
    pub open_orders : Among ops parse orders mids orders stops
    pub each :
        All
          (λ o.
            (price : D) × IsReference ops parse orders mids p price
            × IsStop ops parse orders mids p price o)
          stops
    pub size : D
    pub total : Sums ops parse orders mids stops ops.zero size
    pub enough : Decimal.ge ops size (ops.abs p.signed_size) ≡ true

  cover-IsProtected :
      (p : MainnetPositionSnapshot D) (c : MainnetProtectionCoverage D)
      → cover ops parse orders mids p ≡ some c
      → c.covered ≡ true
      → IsProtected p
  cover-IsProtected p c h covered = referred (reference_of ops parse mids p) refl
    where
      summed :
          (reference : Option D)
          → reference_of ops parse mids p ≡ reference
          → (t : Option D)
          → total_size ops parse ops.zero (stops_at ops parse orders p reference) ≡ t
          → (size : D) × Sums ops parse orders mids
              (stops_at ops parse orders p reference)
              ops.zero
              size
            × (Decimal.ge ops size (ops.abs p.signed_size) ≡ true)
      summed reference r none e = absurd (ground arith)
      summed reference r (some size) e =
          (size, total_size-Sums ops parse orders mids _ _ _ e, ground arith)

      referred : (reference : Option D) → reference_of ops parse mids p ≡ reference → IsProtected p
      referred none r =
          let (size, total, enough) = summed none r _ refl in
          record {
            stops = [];
            open_orders = none-Among ops parse orders mids orders;
            each = tt;
            size = size;
            total = total;
            enough = enough;
          }
      referred (some price) r =
          let (size, total, enough) = summed (some price) r _ refl in
          record {
            stops = select (λ o. is_stop_for_position ops parse p o price) orders;
            open_orders = select-Among ops parse orders mids p price orders;
            each =
                select-IsStop ops parse orders mids p price orders
                  (reference_of-IsReference ops parse orders mids p price r);
            size = size;
            total = total;
            enough = enough;
          }

  -- If the evaluation of the coverage does not overflow and reports every position as covered, then
  -- of every position of a size other than zero some of the open orders, each counted once, are
  -- reduce-only trigger orders in its coin, of the side that closes it and with a trigger price on
  -- its losing side, by the mid price or else the entry price, and their sizes add up to at least
  -- the size of the position.
  pub covered-IsProtected :
      (ps : List (MainnetPositionSnapshot D)) (cs : List (MainnetProtectionCoverage D))
      → evaluate_protection_coverage ops parse ps orders mids ≡ some cs
      → all (λ (c : MainnetProtectionCoverage D). c.covered) cs ≡ true
      → All IsProtected
          (select (λ (p : MainnetPositionSnapshot D). not (ops.is_zero p.signed_size)) ps)
  unfolding evaluate_protection_coverage
  covered-IsProtected [] cs h covered = tt
  covered-IsProtected (p ∷ ps) cs h covered = elim (Bool-cases (ops.is_zero p.signed_size)) [
    | inl flat ↦ rw (flat, All) (covered-IsProtected ps cs (rw flat at h) covered)
    | inr open_size ↦
        let (c, rest, here, there, both) = uncons _ _ cs (rw open_size at h) in
        let parts = and_true _ _ (rw both at covered) in
        rw (open_size, All)
          (cover-IsProtected p c here parts.0, covered-IsProtected ps rest there parts.1)
  ]
