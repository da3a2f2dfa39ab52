-- ===== src/Store/Tx.antt =====
-- src/store.rs: immediate transactions. A body that fails or panics is rolled back; one that ends
-- in a value is committed. The store's mutex and the immediate lock make transactions serial.
use hyperliquid_live_executo.Base.{
  ℕ, ◌+◌, Bool, true, false, [], ◌∷◌, ◌++◌, String, Option, none, some, ◌==◌, length, if◌then◌else◌,
}
use hyperliquid_live_executo.Base.Result.{Result, ok, err, panic}
use hyperliquid_live_executo.Base.Time.{Timestamp}
use hyperliquid_live_executo.Base.Table
use hyperliquid_live_executo.Live.Execution.{LiveExecution}
use hyperliquid_live_executo.Store.State.{
  Store, StoreError, StoredIntent, EventData, ExecutionEvent, intent_key, execution_key,
}

abbrev pub Tx : Type 0 → Type 0 → Type 0
Tx D A = Store D → Result StoreError (A × Store D)

-- What a method of the store leaves behind.
abbrev pub Op : Type 0 → Type 0 → Type 0
Op D A = Store D → Result StoreError A × Store D

module _ {D A : Type 0} where
  abbrev pub pure : A → Tx D A
  pure a s = ok (a, s)

  -- `ok_or(e)?`
  abbrev pub or_fail : Option A → StoreError → Tx D A
  or_fail none e s = err e
  or_fail (some a) e s = ok (a, s)

  -- A decimal operation that panics where it has no value.
  abbrev pub or_panic : Option A → Tx D A
  or_panic none s = panic
  or_panic (some a) s = ok (a, s)

  -- The lock, the transaction, and the commit or the rollback.
  abbrev pub immediate : Tx D A → Op D A
  immediate body s = elim (body s) [
    | ok (a, t) ↦ (ok a, t)
    | err e ↦ (err e, s)
    | panic ↦ (panic, s)
  ]

  -- A body that commits and then returns an error of its own.
  abbrev pub immediate_result : Tx D (Result StoreError A) → Op D A
  immediate_result body s = elim (body s) [
    | ok (a, t) ↦ (a, t)
    | err e ↦ (err e, s)
    | panic ↦ (panic, s)
  ]

  abbrev pub gets : (Store D → A) → Tx D A
  gets f s = ok (f s, s)

infixl 5 ◌>>=◌ ◌>>◌
abbrev pub ◌>>=◌ : {D A B : Type 0} → Tx D A → (A → Tx D B) → Tx D B
◌>>=◌ m f s = elim (m s) [ ok (a, t) ↦ f a t | err e ↦ err e | panic ↦ panic ]

abbrev pub ◌>>◌ : {D B : Type 0} → Tx D (Unit {0}) → Tx D B → Tx D B
m >> k = m >>= λ _. k

module _ {D : Type 0} where
  abbrev pub fail_if : Bool → StoreError → Tx D (Unit {0})
  fail_if true e s = err e
  fail_if false e s = ok (tt, s)

  -- `insert_event_tx`: the cursor is an `AUTOINCREMENT`, and no event is ever deleted.
  abbrev pub insert_event_tx : ℕ → String → EventData D → Timestamp → Tx D (Unit {0})
  insert_event_tx aggregate_id event_type event_data occurred_at s =
      let event : ExecutionEvent D = record {
        cursor = length s.events + 1;
        aggregate_id = aggregate_id;
        event_type = event_type;
        occurred_at = occurred_at;
        event_data = event_data;
      } in
      ok (tt, record s { events = s.events ++ event ∷ [] })

  -- `get_intent_tx`
  abbrev pub get_intent_tx : ℕ → Tx D (Option (StoredIntent D))
  get_intent_tx intent_id s = ok (Table.find intent_key intent_id s.intents, s)

  -- `get_live_execution_tx`
  abbrev pub get_live_execution_tx : ℕ → Tx D (Option LiveExecution)
  get_live_execution_tx intent_id s = ok (Table.find execution_key intent_id s.executions, s)

  -- `WHERE intent_id = ?` with a further condition.
  abbrev pub where_intent : ℕ → (StoredIntent D → Bool) → StoredIntent D → Bool
  where_intent intent_id p r = if intent_key r == intent_id then p r else false

  -- `UPDATE trade_intents SET … WHERE intent_id = ? AND …`: the number of changed rows.
  abbrev pub update_intent :
      ℕ → (StoredIntent D → Bool) → (StoredIntent D → StoredIntent D) → Tx D ℕ
  update_intent intent_id p f s = ok (
    Table.changed (where_intent intent_id p) s.intents,
    record s { intents = Table.update (where_intent intent_id p) f s.intents },
  )

abbrev pub where_execution : ℕ → (LiveExecution → Bool) → LiveExecution → Bool
where_execution intent_id p r = if execution_key r == intent_id then p r else false

abbrev pub update_execution :
    {D : Type 0} → ℕ → (LiveExecution → Bool) → (LiveExecution → LiveExecution) → Tx D ℕ
update_execution intent_id p f s = ok (
  Table.changed (where_execution intent_id p) s.executions,
  record s { executions = Table.update (where_execution intent_id p) f s.executions },
)
