-- ===== src/Base/Table.antt =====
-- A table of the database as the list of its rows, oldest first, with a numeric key column.
pub mod Inserts
use hyperliquid_live_executo.Base.Lists.{any}
use hyperliquid_live_executo.Base.Tests.{◌==◌, if◌then◌else◌, ==_iff}
use Prim.Native.Nat.{ℕ, ◌+◌}
use mathlib.Core.Path.{◌≡◌, refl}
use mathlib.Core.Bool.{Bool, false}
use mathlib.Core.Option
use mathlib.Core.Option.{Option, none, some}
use mathlib.Core.List.{List, [], ◌∷◌, ◌++◌}
use native.Mathlib.Omega.{arith}

module _ {A : Type 0} where
  -- `SELECT … WHERE p LIMIT 1`
  abbrev pub first : (A → Bool) → List A → Option A
  first p [] = none
  first p (x ∷ xs) = if p x then some x else first p xs

  -- `UPDATE … SET f WHERE p`
  abbrev pub update : (A → Bool) → (A → A) → List A → List A
  update p f [] = []
  update p f (x ∷ xs) = (if p x then f x else x) ∷ update p f xs

  -- The number of rows that `UPDATE … WHERE p` reports as changed.
  abbrev pub changed : (A → Bool) → List A → ℕ
  changed p [] = 0
  changed p (x ∷ xs) = (if p x then 1 else 0) + changed p xs

module _ {A : Type 0} (same : A → A → Bool) where
  -- `INSERT OR IGNORE`: a row whose key is in the table is dropped.
  abbrev pub insert_or_ignore : A → List A → List A
  insert_or_ignore r t = if any (same r) t then t else t ++ r ∷ []

  -- `INSERT OR IGNORE` of one row after the other: how many were inserted, and the table.
  abbrev pub insert_all : List A → List A → ℕ × List A
  insert_all [] t = (0, t)
  insert_all (r ∷ rs) t =
      let (n, u) = insert_all rs (insert_or_ignore r t) in
      ((if any (same r) t then 0 else 1) + n, u)

module _ {A : Type 0} (key : A → ℕ) where
  -- `SELECT … WHERE key = k`
  abbrev pub find : ℕ → List A → Option A
  find k [] = none
  find k (x ∷ xs) = if key x == k then some x else find k xs

  -- No key is listed twice: the primary key of the table.
  abbrev pub Unique : List A → Type 0
  Unique [] = Unit
  Unique (x ∷ xs) = (find (key x) xs ≡ none) × Unique xs

module _ {A : Type 0} (key : A → ℕ) (p : A → Bool) (f : A → A)
    (keeps : (x : A) → key (f x) ≡ key x) where
  find-update :
      (k : ℕ) (xs : List A)
      → find key k (update p f xs) ≡ Option.map (λ x. if p x then f x else x) (find key k xs)
  find-update k [] = refl
  find-update k (x ∷ xs) = ground (arith, keeps x, find-update k xs)

  pub update-Unique : (xs : List A) → Unique key xs → Unique key (update p f xs)
  update-Unique [] h = tt
  update-Unique (x ∷ xs) h = ground (arith, keeps x, find-update (key x) xs, update-Unique xs h.1)

module _ {A : Type 0} (key : A → ℕ) where
  pub find-append :
      (k : ℕ) (xs : List A) (y : A)
      → find key k (xs ++ y ∷ [])
        ≡ elim (find key k xs) [ none ↦ if key y == k then some y else none | some x ↦ some x ]
  find-append k [] y = refl
  find-append k (x ∷ xs) y = ground (arith, find-append k xs y)

  pub append-Unique :
      (xs : List A) (y : A) → Unique key xs → find key (key y) xs ≡ none → Unique key (xs ++ y ∷ [])
  append-Unique [] y u h = (refl, tt)
  append-Unique (x ∷ xs) y u h = ground (arith, find-append (key x) xs y, append-Unique xs y u.1)

  pub find-key : (k : ℕ) (xs : List A) (x : A) → find key k xs ≡ some x → key x ≡ k
  find-key k [] x h = cc
  find-key k (y ∷ xs) x h = ground (arith, find-key k xs x)

  -- An update by the key changes exactly the row that the key finds, if it passes the test.
  changed_absent :
      (k : ℕ) (q : A → Bool) (xs : List A)
      → find key k xs ≡ none
      → changed (λ x. if key x == k then q x else false) xs ≡ 0
  changed_absent k q [] h = refl
  changed_absent k q (x ∷ xs) h = ground (arith, changed_absent k q xs)

  pub changed_one :
      (k : ℕ) (q : A → Bool) (xs : List A)
      → Unique key xs
      → changed (λ x. if key x == k then q x else false) xs
        ≡ elim (find key k xs) [ none ↦ 0 | some x ↦ if q x then 1 else 0 ]
  changed_one k q [] u = refl
  changed_one k q (x ∷ xs) u =
      ground (arith, changed_one k q xs u.1, changed_absent k q xs, ==_iff (key x) k)

module _ {A : Type 0} (key : A → ℕ) (f : A → A) (keeps : (x : A) → key (f x) ≡ key x) where
  -- An update by the key touches the row of that key alone.
  pub find-update_key :
      (id : ℕ) (q : A → Bool) (k : ℕ) (xs : List A)
      → find key k (update (λ x. if key x == id then q x else false) f xs) ≡ (
          if k == id
          then Option.map (λ x. if q x then f x else x) (find key k xs)
          else find key k xs)
  find-update_key id q k [] = ground arith
  find-update_key id q k (x ∷ xs) = ground (arith, keeps x, find-update_key id q k xs)
