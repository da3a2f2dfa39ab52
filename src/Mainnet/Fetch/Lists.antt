-- ===== src/Mainnet/Fetch/Lists.antt =====
-- src/mainnet_read.rs: lists that a fetch reads element by element, and the coins that it knows.
use hyperliquid_live_executo.Base.{
  ℕ, ◌≡◌, refl, true, List, [], ◌∷◌, ◌++◌, String, All, map, arith, eq_iff,
}
use hyperliquid_live_executo.Base.Map
use hyperliquid_live_executo.Base.Result.{ok}
use hyperliquid_live_executo.Mainnet.{
  MainnetAccountSnapshot, MainnetPositionSnapshot, MainnetOpenOrderSnapshot,
}
use hyperliquid_live_executo.Mainnet.Parse.{Read, collect}
use hyperliquid_live_executo.Mainnet.Fetch.{insert_coins, relevant_coins, check_metadata}

-- The two lists are as long, and their elements are related one by one.
abbrev pub Pairs : {A B : Type 0} → (A → B → Type 0) → List A → List B → Type 0
Pairs R [] [] = Unit
Pairs R [] (_ ∷ _) = ⊥
Pairs R (_ ∷ _) [] = ⊥
Pairs R (x ∷ xs) (y ∷ ys) = R x y × Pairs R xs ys

module _ {D A B : Type 0} where
  pub collect-Pairs :
      (f : A → Read D B) (R : A → B → Type 0)
      → ((x : A) (y : B) → f x ≡ ok y → R x y)
      → (xs : List A) (ys : List B) → collect f xs ≡ ok ys
      → Pairs R xs ys
  unfolding collect
  collect-Pairs f R step [] ys h = ground arith
  collect-Pairs f R step (x ∷ xs) [] h = ground arith
  collect-Pairs f R step (x ∷ xs) (y ∷ ys) h =
      ground (arith, step x y, collect-Pairs f R step xs ys)

module _ {D : Type 0} where
  -- Every relevant coin that the check has passed is known.
  check-contains :
      (coin : String) (coins : List (String × Unit {0})) (known : List (String × ℕ))
      → check_metadata {D = D} coins known ≡ ok tt
      → Map.contains_key coin coins ≡ true
      → Map.contains_key coin known ≡ true
  unfolding check_metadata
  check-contains coin [] known h m = ground arith
  check-contains coin ((c, u) ∷ coins) known h m =
      ground (arith, eq_iff c coin, check-contains coin coins known)

insert_coins-keeps :
    (coin : String) (coins : List String) (m : List (String × Unit {0}))
    → Map.contains_key coin m ≡ true
    → Map.contains_key coin (insert_coins coins m) ≡ true
insert_coins-keeps coin [] m h = h
insert_coins-keeps coin (c ∷ coins) m h =
    insert_coins-keeps coin coins (Map.insert c tt m) (Map.contains-insert coin c tt m h)

insert_coins-contains :
    (coins : List String) (m : List (String × Unit {0}))
    → All (λ coin. Map.contains_key coin (insert_coins coins m) ≡ true) coins
insert_coins-contains [] m = tt
insert_coins-contains (c ∷ coins) m = (
  insert_coins-keeps c coins (Map.insert c tt m) (Map.contains-insert_self c tt m),
  insert_coins-contains coins (Map.insert c tt m),
)

-- What holds of an element holds of every element of the list.
All-map :
    {A : Type 0} {P Q : A → Type 0} (xs : List A) → ((x : A) → P x → Q x) → All P xs → All Q xs
All-map [] step h = tt
All-map (x ∷ xs) step h = (step x h.0, All-map xs step h.1)

module _ {D : Type 0} where
  pub known-coins :
      (snapshot : MainnetAccountSnapshot D)
      → check_metadata {D = D}
          (relevant_coins snapshot.positions snapshot.open_orders)
          snapshot.asset_size_decimals
        ≡ ok tt
      → All
          (λ coin. Map.contains_key coin snapshot.asset_size_decimals ≡ true)
          (map (λ (p : MainnetPositionSnapshot D). p.coin) snapshot.positions
            ++ map (λ (o : MainnetOpenOrderSnapshot D). o.coin) snapshot.open_orders)
  unfolding relevant_coins
  known-coins snapshot h =
      All-map _
        (λ coin m.
          check-contains {D = D} coin (relevant_coins snapshot.positions snapshot.open_orders)
            snapshot.asset_size_decimals h m)
        (insert_coins-contains _ [])

module _ {A : Type 0} where
  -- Lists whose elements are equal one by one are equal.
  pub Pairs-equal :
      (P : A → Type 0) (xs ys : List A) → Pairs (λ x y. (y ≡ x) × P x) xs ys → (ys ≡ xs) × All P xs
  Pairs-equal P [] [] h = (refl, tt)
  Pairs-equal P [] (y ∷ ys) h = elim h [ ]
  Pairs-equal P (x ∷ xs) [] h = elim h [ ]
  Pairs-equal P (x ∷ xs) (y ∷ ys) h =
      let rest = Pairs-equal P xs ys h.1 in (rw (h.0.0, rest.0) refl, (h.0.1, rest.1))
