-- ===== src/Mainnet/Coverage/Eligible.antt =====
-- src/mainnet_read.rs: which orders are stops of a position, and what their sizes add up to.
use hyperliquid_live_executo.Base.{
  ◌≡◌, refl, true, List, [], ◌∷◌, String, Option, none, some, All, select, arith, Bool-cases, inl,
  inr, str_eq, eq_iff, false, ◌∙◌, if◌then◌else◌,
}
use hyperliquid_live_executo.Decimal.{DecimalOps}
use hyperliquid_live_executo.Decimal
use hyperliquid_live_executo.Mainnet.{MainnetPositionSnapshot, MainnetOpenOrderSnapshot}
use hyperliquid_live_executo.Mainnet.Coverage.{
  lookup, parsed, or_entry, is_stop_for_position, reference_of, total_size,
}

module _ {D : Type 0} (ops : DecimalOps D) (parse : String → Option D)
    (orders : List (MainnetOpenOrderSnapshot D)) (mids : List (String × String)) where
  -- The first decimal text of the coin in the list of prices, if it can be read, or else the entry
  -- price.
  abbrev mid_of : String → List (String × String) → Option D
  mid_of coin [] = none
  mid_of coin ((name, text) ∷ rest) = if str_eq name coin then parse text else mid_of coin rest

  -- The price that a stop of the position is compared with: the mid price, if it can be read, and
  -- the entry price otherwise.
  pub data IsReference (p : MainnetPositionSnapshot D) (price : D) : Type 0 where
    by_mid : mid_of p.coin mids ≡ some price → IsReference p price
    by_entry : mid_of p.coin mids ≡ none → p.entry_price ≡ some price → IsReference p price

  -- The trigger is on the losing side of the price, and the order closes the position: a long one is
  -- sold below it, a short one is bought back above it.
  pub data IsLosing (p : MainnetPositionSnapshot D) (side : String) (price trigger : D)
      : Type 0 where
    of_long :
        ops.is_sign_positive p.signed_size ≡ true
        → side ≡ "A"
        → Decimal.lt ops trigger price ≡ true
        → IsLosing p side price trigger
    of_short :
        ops.is_sign_positive p.signed_size ≡ false
        → side ≡ "B"
        → Decimal.gt ops trigger price ≡ true
        → IsLosing p side price trigger

  -- An order that stops the loss of the position.
  pub record IsStop (p : MainnetPositionSnapshot D) (price : D) (o : MainnetOpenOrderSnapshot D)
      : Type 0 where
    pub coin : o.coin ≡ p.coin
    pub reduces : o.reduce_only ≡ true
    pub triggers : o.is_trigger ≡ true
    pub trigger : D
    pub at_price : o.trigger_price ≡ some trigger
    pub losing : IsLosing p o.side price trigger

  -- The sizes of the orders add up from the first number to the last.
  abbrev pub Sums : List (MainnetOpenOrderSnapshot D) → D → D → Type 0
  Sums [] total₀ total = total₀ ≡ total
  Sums (o ∷ os) total₀ total =
      (total₁ : D) × (ops.add total₀ o.size ≡ some total₁) × Sums os total₁ total

  -- The second list has some elements of the first, in order, each once.
  pub data Among
      : List (MainnetOpenOrderSnapshot D) → List (MainnetOpenOrderSnapshot D) → Type 0 where
    done : Among [] []
    keep :
        {o : MainnetOpenOrderSnapshot D} {os stops : List (MainnetOpenOrderSnapshot D)}
        → Among os stops
        → Among (o ∷ os) (o ∷ stops)
    skip :
        {o : MainnetOpenOrderSnapshot D} {os stops : List (MainnetOpenOrderSnapshot D)}
        → Among os stops
        → Among (o ∷ os) stops

  pub total_size-Sums :
      (os : List (MainnetOpenOrderSnapshot D)) (total₀ total : D)
      → total_size ops parse total₀ os ≡ some total
      → Sums os total₀ total
  total_size-Sums [] total₀ total h = ground arith
  total_size-Sums (o ∷ os) total₀ total h =
      added (ops.add total₀ o.size) refl (λ total₁ e. total_size-Sums os total₁ total e)
    where
      added :
          (r : Option D)
          → ops.add total₀ o.size ≡ r
          → ((total₁ : D) → total_size ops parse total₁ os ≡ some total → Sums os total₁ total)
          → (total₁ : D) × (ops.add total₀ o.size ≡ some total₁) × Sums os total₁ total
      added none e rest = absurd (ground arith)
      added (some total₁) e rest = (total₁, e, rest total₁ (rw (e, total_size) at h))

  pub select-Among :
      (p : MainnetPositionSnapshot D) (price : D) (os : List (MainnetOpenOrderSnapshot D))
      → Among os (select (λ o. is_stop_for_position ops parse p o price) os)
  select-Among p price [] = done
  select-Among p price (o ∷ os) = elim (Bool-cases (is_stop_for_position ops parse p o price)) [
    | inl stops ↦ rw (stops, select) (keep (select-Among p price os))
    | inr other ↦ rw (other, select) (skip (select-Among p price os))
  ]

  pub none-Among : (os : List (MainnetOpenOrderSnapshot D)) → Among os []
  none-Among [] = done
  none-Among (o ∷ os) = skip (none-Among os)

  is_stop_for_position-IsStop :
      (p : MainnetPositionSnapshot D) (price : D) (o : MainnetOpenOrderSnapshot D)
      → is_stop_for_position ops parse p o price ≡ true
      → IsStop p price o
  unfolding is_stop_for_position
  is_stop_for_position-IsStop p price o h = triggered o.trigger_price refl
    where
      triggered : (t : Option D) → o.trigger_price ≡ t → IsStop p price o
      triggered none e = absurd (ground arith)
      triggered (some t) e = record {
        coin = ground (arith, eq_iff o.coin p.coin);
        reduces = ground arith;
        triggers = ground arith;
        trigger = t;
        at_price = e;
        losing = elim (Bool-cases (ops.is_sign_positive p.signed_size)) [
          | inl long ↦ of_long long (ground (arith, eq_iff o.side "A")) (ground arith)
          | inr short ↦ of_short short (ground (arith, eq_iff o.side "B")) (ground arith)
        ];
      }

  pub select-IsStop :
      (p : MainnetPositionSnapshot D) (price : D) (os : List (MainnetOpenOrderSnapshot D))
      → IsReference p price
      → All
          (λ o. (price : D) × IsReference p price × IsStop p price o)
          (select (λ o. is_stop_for_position ops parse p o price) os)
  select-IsStop p price [] r = tt
  select-IsStop p price (o ∷ os) r = elim (Bool-cases (is_stop_for_position ops parse p o price)) [
    | inl stops ↦
        rw (stops, All, select)
          ((price, r, is_stop_for_position-IsStop p price o stops), select-IsStop p price os r)
    | inr other ↦ rw (other, All, select) (select-IsStop p price os r)
  ]

  lookup-mid :
      (coin : String) (m : List (String × String))
      → parsed ops parse (lookup coin m) ≡ mid_of coin m
  lookup-mid coin [] = refl
  lookup-mid coin ((name, text) ∷ m) = elim (Bool-cases (str_eq name coin)) [
    | inl same ↦ rw same refl
    | inr other ↦ rw other (lookup-mid coin m)
  ]

  pub reference_of-IsReference :
      (p : MainnetPositionSnapshot D) (price : D)
      → reference_of ops parse mids p ≡ some price
      → IsReference p price
  reference_of-IsReference p price h =
      by (mid_of p.coin mids) refl (rw (lookup-mid p.coin mids) at h)
    where
      by :
          (mid : Option D)
          → mid_of p.coin mids ≡ mid
          → or_entry ops parse mid p.entry_price ≡ some price
          → IsReference p price
      by none e k = by_entry e k
      by (some mid) e k = by_mid (e ∙ k)
