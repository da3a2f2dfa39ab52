-- ===== src/Base/Map.antt =====
-- `BTreeMap` and `BTreeSet` over Rust's strings: the entries, in the order of the keys.
use hyperliquid_live_executo.Base.{
  Ordering, Bool, true, false, List, [], ◌∷◌, String, str_eq, any, eq_iff, str_eq_refl, ◌≡◌, arith,
  if◌then◌else◌,
}
use Prim.Native.String.{compare}

-- `Ord` on strings.
before : String → String → Bool
before a b = elim (compare a b) [ Ordering.lt ↦ true | _ ↦ false ]

module _ {V : Type 0} where
  -- `BTreeMap::insert`
  unfoldable pub insert : String → V → List (String × V) → List (String × V)
  unfolding before
  insert k v [] = (k, v) ∷ []
  insert k v ((j, w) ∷ m) =
      let rest = insert k v m in
      if str_eq j k then (k, v) ∷ m else if before k j then (k, v) ∷ (j, w) ∷ m else (j, w) ∷ rest

  -- `BTreeMap::contains_key`
  abbrev pub contains_key : String → List (String × V) → Bool
  contains_key k m = any (λ (e : String × V). str_eq e.0 k) m

  -- `.collect::<BTreeMap<_, _>>()`
  abbrev pub collect : List (String × V) → List (String × V) → List (String × V)
  collect m [] = m
  collect m ((k, v) ∷ es) = collect (insert k v m) es

  pub contains-insert_self :
      (k : String) (v : V) (m : List (String × V)) → contains_key k (insert k v m) ≡ true
  unfolding insert
  contains-insert_self k v [] = ground (arith, str_eq_refl k)
  contains-insert_self k v ((j, w) ∷ m) = ground (arith, str_eq_refl k, contains-insert_self k v m)

  pub contains-insert :
      (j k : String) (v : V) (m : List (String × V))
      → contains_key j m ≡ true
      → contains_key j (insert k v m) ≡ true
  unfolding insert
  contains-insert j k v [] h = ground arith
  contains-insert j k v ((i, w) ∷ m) h = ground (arith, eq_iff i k, contains-insert j k v m)
