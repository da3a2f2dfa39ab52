-- ===== src/Engine/Flat.antt =====
-- src/engine.rs: what `ensure_no_existing_position` asks of the latest snapshot.
use hyperliquid_live_executo.Base.{
  ℕ, ◌≡◌, ◌≢◌, ◌⊎◌, inl, inr, refl, true, false, List, [], ◌∷◌, String, Option, none, some,
  some-inj, All, any, str_eq, eq_iff, or_false, Bool-cases, arith,
}
use hyperliquid_live_executo.Base.Result.{ok}
use hyperliquid_live_executo.Base.Time.{Timestamp}
use hyperliquid_live_executo.Decimal.{DecimalOps}
use hyperliquid_live_executo.Domain.Intent.{TradeIntent}
use hyperliquid_live_executo.Risk.Decision.{RiskDecision}
use hyperliquid_live_executo.Mainnet.{MainnetAccountSnapshot}
use hyperliquid_live_executo.Store.State.{Store}
use hyperliquid_live_executo.Store.Snapshots.{latest_mainnet_snapshot}
use hyperliquid_live_executo.Engine.{
  Engine, PositionView, SnapshotView, is_open, ensure_no_existing_position,
}

module _ {D : Type 0} (ops : DecimalOps D)
    (digest_of : TradeIntent D → RiskDecision D → Timestamp → Option String)
    (view : MainnetAccountSnapshot D → SnapshotView D) (clock : ℕ → Timestamp)
    (engine : Engine D) where
  -- A size that is not read as a number other than zero.
  abbrev HasNoSize : Option D → Type 0
  HasNoSize none = Unit
  HasNoSize (some size) = ops.is_zero size ≡ true

  -- The snapshot lists positions, and each is in another symbol or has no size.
  pub record IsFlat (s : Store D) (account symbol : String) : Type 0 where
    pub snapshot : MainnetAccountSnapshot D
    pub found : latest_mainnet_snapshot account s ≡ some snapshot
    pub positions : List (PositionView D)
    pub listed : (view snapshot).positions ≡ some positions
    pub each :
        All (λ (p : PositionView D). (p.coin ≢ some symbol) ⊎ HasNoSize p.signed_size) positions

  -- The account that the engine reconciles, if it has one, has no position in the symbol.
  abbrev pub Flat : Store D → Option String → String → Type 0
  Flat s none symbol = Unit
  Flat s (some account) symbol = IsFlat s account symbol

  closed_lem :
      (symbol : String) (positions : List (PositionView D))
      → any (is_open ops digest_of view clock engine symbol) positions ≡ false
      → All (λ (p : PositionView D). (p.coin ≢ some symbol) ⊎ HasNoSize p.signed_size) positions
  closed_lem symbol [] h = tt
  closed_lem symbol (p ∷ ps) h =
      let (here, there) =
        or_false (is_open ops digest_of view clock engine symbol p)
          (any (is_open ops digest_of view clock engine symbol) ps) h in
      (sized p.coin refl p.signed_size refl here, closed_lem symbol ps there)
    where
      sized :
          (coin : Option String)
          → p.coin ≡ coin
          → (size : Option D) → p.signed_size ≡ size
          → is_open ops digest_of view clock engine symbol p ≡ false
          → (coin ≢ some symbol) ⊎ HasNoSize size
      sized none e size f k = inl (λ same. ground arith)
      sized (some coin) e none f k = inr tt
      sized (some coin) e (some size) f k = elim (Bool-cases (str_eq coin symbol)) [
        | inl same ↦ inr (ground arith)
        | inr other ↦ inl (λ same. ground (arith, (eq_iff coin symbol).1 (some-inj same)))
      ]

  pub position_lem :
      (symbol : String) (s : Store D)
      → ensure_no_existing_position ops digest_of view clock engine symbol s ≡ ok tt
      → Flat s engine.reconciliation_account symbol
  unfolding ensure_no_existing_position
  position_lem symbol s h = of_account engine.reconciliation_account refl
    where
      listed :
          (account : String) (snapshot : MainnetAccountSnapshot D)
          → engine.reconciliation_account ≡ some account
          → latest_mainnet_snapshot account s ≡ some snapshot
          → (positions : Option (List (PositionView D))) → (view snapshot).positions ≡ positions
          → IsFlat s account symbol
      listed account snapshot e f none g = absurd (ground arith)
      listed account snapshot e f (some positions) g = record {
        snapshot = snapshot;
        found = f;
        positions = positions;
        listed = g;
        each = closed_lem symbol positions (ground arith);
      }

      looked_up :
          (account : String)
          → engine.reconciliation_account ≡ some account
          → (snapshot : Option (MainnetAccountSnapshot D))
          → latest_mainnet_snapshot account s ≡ snapshot
          → IsFlat s account symbol
      looked_up account e none f = absurd (ground arith)
      looked_up account e (some snapshot) f =
          listed account snapshot e f (view snapshot).positions refl

      of_account :
          (account : Option String)
          → engine.reconciliation_account ≡ account
          → Flat s account symbol
      of_account none e = tt
      of_account (some account) e = looked_up account e (latest_mainnet_snapshot account s) refl
