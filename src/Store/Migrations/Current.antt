-- ===== src/Store/Migrations/Current.antt =====
-- src/store.rs: what a migration leaves.
use hyperliquid_live_executo.Base.{
  ℕ, ◌<◌, ◌≤◌, ◌≡◌, refl, Bool, true, false, List, [], ◌∷◌, ◌++◌, String, Option, none, some, All,
  is_some, ap, if◌then◌else◌, str_eq_refl, map, ltb, arith,
}
use hyperliquid_live_executo.Base.Result.{ok}
use hyperliquid_live_executo.Base.Table.Inserts.{Distinct, insert_all-Distinct}
use hyperliquid_live_executo.Mainnet.{FundingRow}
use hyperliquid_live_executo.Store.History.{same_funding}
use hyperliquid_live_executo.Store.History.Repeat.{same_funding_sym}
use hyperliquid_live_executo.Store.Migrations.{
  IntentTable, IntentRow, LegacyRow, upgraded_row, created, legacy, current, Database,
  later_columns, has_column, add_columns, migrate, migrate_intents, migrate_funding,
  migrate_reconciliation,
}

-- Every one of the columns is there.
abbrev pub HasAll : List String → List String → Type 0
HasAll cs columns = All (λ c. has_column c columns ≡ true) cs

has_column-append :
    (c : String) (xs ys : List String) → has_column c xs ≡ true → has_column c (xs ++ ys) ≡ true
has_column-append c [] ys h = absurd (ground arith)
has_column-append c (x ∷ xs) ys h = ground (arith, has_column-append c xs ys)

has_column-last : (c : String) (xs : List String) → has_column c (xs ++ c ∷ []) ≡ true
has_column-last c [] = ground (arith, str_eq_refl c)
has_column-last c (x ∷ xs) = ground (arith, has_column-last c xs)

add_columns-keeps :
    (c : String) (cs columns : List String)
    → has_column c columns ≡ true
    → has_column c (add_columns cs columns) ≡ true
unfolding add_columns
add_columns-keeps c [] columns h = h
add_columns-keeps c (x ∷ xs) columns h = ground (
  arith,
  add_columns-keeps c xs columns h,
  add_columns-keeps c xs (columns ++ x ∷ []) (has_column-append c columns (x ∷ []) h),
)

add_columns-HasAll : (cs columns : List String) → HasAll cs (add_columns cs columns)
unfolding add_columns
add_columns-HasAll [] columns = tt
add_columns-HasAll (c ∷ cs) columns =
    split (has_column c columns) refl (add_columns-HasAll cs columns)
      (add_columns-HasAll cs (columns ++ c ∷ []))
  where
    split :
        (b : Bool)
        → has_column c columns ≡ b
        → HasAll cs (add_columns cs columns)
        → HasAll cs (add_columns cs (columns ++ c ∷ []))
        → HasAll (c ∷ cs) (if b then add_columns cs columns else add_columns cs (columns ++ c ∷ []))
    split true e same more = (add_columns-keeps c cs columns e, same)
    split false e same more =
        (add_columns-keeps c cs (columns ++ c ∷ []) (has_column-last c columns), more)

add_columns_idle : (cs columns : List String) → HasAll cs columns → add_columns cs columns ≡ columns
unfolding add_columns
add_columns_idle [] columns h = refl
add_columns_idle (c ∷ cs) columns h = ground (arith, add_columns_idle cs columns h.1)

later_complete : HasAll later_columns later_columns
later_complete = (refl, (refl, (refl, (refl, (refl, tt)))))

module _ (upgrade : String → String → String → String) where
  -- The ids of the intents of a table.
  abbrev pub intent_ids : Option IntentTable → List String
  intent_ids none = []
  intent_ids (some (legacy rows)) = map (λ r. r.intent_id) rows
  intent_ids (some (current columns rows)) = map (λ r. r.intent_id) rows

  abbrev pub IsComplete : Option IntentTable → Type 0
  IsComplete none = ⊥
  IsComplete (some (legacy rows)) = ⊥
  IsComplete (some (current columns rows)) = HasAll later_columns columns

  abbrev pub rows_of : Option (List FundingRow) → List FundingRow
  rows_of none = []
  rows_of (some rows) = rows

  created-IsComplete :
      (table : Option IntentTable)
      → IsComplete (created upgrade (current later_columns []) (migrate_intents upgrade table))
  unfolding migrate_intents
  created-IsComplete none = later_complete
  created-IsComplete (some (legacy rows)) = later_complete
  created-IsComplete (some (current columns rows)) = add_columns-HasAll later_columns columns

  upgraded_ids :
      (rows : List LegacyRow)
      → map (λ (r : IntentRow). r.intent_id) (map (upgraded_row upgrade) rows)
        ≡ map (λ (r : LegacyRow). r.intent_id) rows
  upgraded_ids [] = refl
  upgraded_ids (r ∷ rows) = ap (λ ids. r.intent_id ∷ ids) (upgraded_ids rows)

  ids-created :
      (table : Option IntentTable)
      → intent_ids (created upgrade (current later_columns []) (migrate_intents upgrade table))
        ≡ intent_ids table
  unfolding migrate_intents
  ids-created none = refl
  ids-created (some (legacy rows)) = upgraded_ids rows
  ids-created (some (current columns rows)) = refl

  intents_idle :
      (table : Option IntentTable) → IsComplete table → migrate_intents upgrade table ≡ table
  unfolding migrate_intents
  intents_idle none h = absurd h
  intents_idle (some (legacy rows)) h = absurd h
  intents_idle (some (current columns rows)) h =
      ap (λ cs. some (current cs rows)) (add_columns_idle later_columns columns h)

  funding-created :
      (version : ℕ) (table : Option (List FundingRow))
      → version < 6
      → Distinct same_funding (rows_of (created upgrade [] (migrate_funding upgrade version table)))
  unfolding migrate_funding
  funding-created version none old = tt
  funding-created version (some rows) old =
      let young : ltb version 6 ≡ true = ground arith in
      rw young (insert_all-Distinct same_funding same_funding_sym rows [] tt)

  complete-present : (table : Option IntentTable) → IsComplete table → is_some table ≡ true
  complete-present none h = absurd h
  complete-present (some table) h = refl

  -- The steps of a migration that is supported.
  migrate_steps :
      (db : Database)
      → db.user_version ≤ 9
      → (db.user_version ≡ 7 → db.mainnet_reconciliation_state ≡ some false)
      → let t = (migrate upgrade db).1 in
        ((migrate upgrade db).0 ≡ ok tt)
        × (t.user_version ≡ 9)
        × (t.trade_intents
            ≡ created upgrade (current later_columns []) (migrate_intents upgrade db.trade_intents))
        × (t.mainnet_funding
            ≡ created upgrade [] (migrate_funding upgrade db.user_version db.mainnet_funding))
        × (is_some t.mainnet_funding ≡ true)
        × (is_some t.mainnet_reconciliation_state ≡ true)
        × (is_some t.executor_control ≡ true)
  unfolding migrate migrate_reconciliation
  migrate_steps db supported table = ground arith

  -- A current database is left as it is.
  migrate_idle :
      (t : Database)
      → t.user_version ≡ 9
      → IsComplete t.trade_intents
      → is_some t.mainnet_funding ≡ true
      → is_some t.mainnet_reconciliation_state ≡ true
      → is_some t.executor_control ≡ true
      → migrate upgrade t ≡ (ok tt, t)
  unfolding migrate migrate_reconciliation migrate_funding
  migrate_idle t v complete f r c =
      let same = intents_idle t.trade_intents complete in
      let present = complete-present t.trade_intents complete in ground arith

  pub record IsCurrent (db : Database) : Type 0 where
    pub done : (migrate upgrade db).0 ≡ ok tt
    pub version : (migrate upgrade db).1.user_version ≡ 9
    pub complete : IsComplete (migrate upgrade db).1.trade_intents
    pub intents : intent_ids (migrate upgrade db).1.trade_intents ≡ intent_ids db.trade_intents
    pub funding :
        db.user_version < 6 → Distinct same_funding (rows_of (migrate upgrade db).1.mainnet_funding)
    pub again : migrate upgrade (migrate upgrade db).1 ≡ (ok tt, (migrate upgrade db).1)

  -- A database of a supported version, of which the reconciliation table lacks the column
  -- `clean_streak` if the version is 7, is migrated: it has the newest version and every column of
  -- the intents, the same intents, and, where it was older than version 6, no payment twice; and a
  -- second migration leaves it as it is.
  pub migrate-IsCurrent :
      (db : Database)
      → db.user_version ≤ 9
      → (db.user_version ≡ 7 → db.mainnet_reconciliation_state ≡ some false)
      → IsCurrent db
  migrate-IsCurrent db supported table =
      let (done, version, intents, funding, f, r, c) = migrate_steps db supported table in
      let complete : IsComplete (migrate upgrade db).1.trade_intents =
        rw intents (created-IsComplete db.trade_intents) in
      record {
        done = done;
        version = version;
        complete = complete;
        intents = rw intents (ids-created db.trade_intents);
        funding = λ old. rw funding (funding-created db.user_version db.mainnet_funding old);
        again = migrate_idle (migrate upgrade db).1 version complete f r c;
      }
