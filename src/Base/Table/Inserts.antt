-- ===== src/Base/Table/Inserts.antt =====
-- `INSERT OR IGNORE`: what is listed stays, what is inserted is listed, no key is listed twice.
use hyperliquid_live_executo.Base.Lists.{All, any, length}
use hyperliquid_live_executo.Base.Table.{insert_or_ignore, insert_all}
use hyperliquid_live_executo.Base.Tests.{if◌then◌else◌}
use mathlib.Core.Path.{◌≡◌, refl}
use mathlib.Core.Bool.{Bool, true, false}
use mathlib.Core.List.{List, [], ◌∷◌, ◌++◌, append-nil, append_assoc}
use native.Mathlib.Omega.{arith}

module _ {A : Type 0} (same : A → A → Bool) where
  -- No two rows have one key.
  abbrev pub Distinct : List A → Type 0
  Distinct [] = Unit
  Distinct (x ∷ xs) = (any (same x) xs ≡ false) × Distinct xs

  any-append :
      (p : A → Bool) (t : List A) (r : A) → any p (t ++ r ∷ []) ≡ (if p r then true else any p t)
  any-append p [] r = ground arith
  any-append p (x ∷ t) r = ground (arith, any-append p t r)

  insert-keeps :
      (p : A → Bool) (r : A) (t : List A)
      → any p t ≡ true
      → any p (insert_or_ignore same r t) ≡ true
  insert-keeps p r t h = ground (arith, any-append p t r)

  insert_all-keeps :
      (p : A → Bool) (rs t : List A) → any p t ≡ true → any p (insert_all same rs t).1 ≡ true
  insert_all-keeps p [] t h = h
  insert_all-keeps p (r ∷ rs) t h =
      insert_all-keeps p rs (insert_or_ignore same r t) (insert-keeps p r t h)

  -- The rows that are inserted: those whose key is neither in the table nor on an earlier row.
  abbrev pub inserted : List A → List A → List A
  inserted [] t = []
  inserted (r ∷ rs) t =
      let rest = inserted rs (insert_or_ignore same r t) in
      if any (same r) t then rest else r ∷ rest

  pub insert_all_lem :
      (rs t : List A) → insert_all same rs t ≡ (length (inserted rs t), t ++ inserted rs t)
  insert_all_lem [] t = ground (arith, append-nil t)
  insert_all_lem (r ∷ rs) t = ground (
    arith,
    insert_all_lem rs (insert_or_ignore same r t),
    append_assoc t (r ∷ []) (inserted rs (insert_or_ignore same r t)),
  )

  -- Rows that are all listed are not inserted.
  insert_all-listed :
      (rs t : List A) → All (λ r. any (same r) t ≡ true) rs → insert_all same rs t ≡ (0, t)
  insert_all-listed [] t h = refl
  insert_all-listed (r ∷ rs) t h = ground (arith, insert_all-listed rs t h.1)

  module _ (same_refl : (a : A) → same a a ≡ true) where
    insert-lists : (r : A) (t : List A) → any (same r) (insert_or_ignore same r t) ≡ true
    insert-lists r t = ground (arith, any-append (same r) t r, same_refl r)

    insert_all-lists : (rs t : List A) → All (λ r. any (same r) (insert_all same rs t).1 ≡ true) rs
    insert_all-lists [] t = tt
    insert_all-lists (r ∷ rs) t = (
      insert_all-keeps (same r) rs _ (insert-lists r t),
      insert_all-lists rs (insert_or_ignore same r t),
    )

    -- The same rows once more: none is inserted.
    pub insert_all-again :
        (rs t : List A)
        → insert_all same rs (insert_all same rs t).1 ≡ (0, (insert_all same rs t).1)
    insert_all-again rs t = insert_all-listed rs (insert_all same rs t).1 (insert_all-lists rs t)

  module _ (same_sym : (a b : A) → same a b ≡ same b a) where
    append-Distinct :
        (t : List A) (r : A) → any (same r) t ≡ false → Distinct t → Distinct (t ++ r ∷ [])
    append-Distinct [] r h d = (refl, tt)
    append-Distinct (x ∷ t) r h d =
        ground (arith, any-append (same x) t r, same_sym x r, append-Distinct t r)

    insert-Distinct : (r : A) (t : List A) → Distinct t → Distinct (insert_or_ignore same r t)
    insert-Distinct r t d = ground (arith, append-Distinct t r)

    pub insert_all-Distinct : (rs t : List A) → Distinct t → Distinct (insert_all same rs t).1
    insert_all-Distinct [] t d = d
    insert_all-Distinct (r ∷ rs) t d =
        insert_all-Distinct rs (insert_or_ignore same r t) (insert-Distinct r t d)
