-- ===== src/Store/Orders.antt =====
-- src/store.rs: the orders of an execution, `record_live_entry_fill` and
-- `record_live_protection_orders`.
use hyperliquid_live_executo.Base.{
  ℕ, ◌+◌, ◌%◌, Bool, not, ◌&&◌, ◌||◌, List, [], ◌∷◌, ◌++◌, none, some, ◌==◌, any,
}
use hyperliquid_live_executo.Base.Result.{ok}
use hyperliquid_live_executo.Base.Time.{Timestamp}
use hyperliquid_live_executo.Decimal.{DecimalOps}
use hyperliquid_live_executo.Decimal
use hyperliquid_live_executo.Domain.Intent.{TakeProfitTarget, TradeIntent}
use hyperliquid_live_executo.Domain.Status
use hyperliquid_live_executo.Live.Execution.{ConfirmedFill, entry_submitting, entry_filled}
use hyperliquid_live_executo.Live.Execution
use hyperliquid_live_executo.Live.Cloid.{
  OrderRole, entry, stop_loss, take_profit, stable_name, deterministic_cloid,
}
use hyperliquid_live_executo.Store.State.{EventData, LiveOrder, database, concurrent_transition}
use hyperliquid_live_executo.Store.Tx.{
  Tx, Op, pure, fail_if, or_fail, or_panic, gets, immediate, insert_event_tx, get_live_execution_tx,
  ◌>>=◌, ◌>>◌,
}
use hyperliquid_live_executo.Base.Text.{same_bytes}
use hyperliquid_live_executo.Store.Transitions.{update_live_and_intent_tx}

module _ {D : Type 0} where
  -- The primary key `cloid`, and `UNIQUE(intent_id, role)`.
  abbrev pub collides : LiveOrder D → LiveOrder D → Bool
  collides o x = x.cloid == o.cloid || (x.intent_id == o.intent_id && same_bytes x.role o.role)

  abbrev add_order : LiveOrder D → Tx D (Unit {0})
  add_order o s = ok (tt, record s { orders = s.orders ++ o ∷ [] })

  abbrev pub insert_order : LiveOrder D → Tx D (Unit {0})
  insert_order o = do
    taken ← gets (λ s. any (collides o) s.orders)
    fail_if taken database
    add_order o

  abbrev pub entry_order : Timestamp → ℕ → ℕ → ConfirmedFill D → LiveOrder D
  entry_order now intent_id entry_cloid fill = record {
    cloid = entry_cloid;
    intent_id = intent_id;
    role = stable_name entry;
    exchange_oid = some fill.exchange_oid;
    status = "filled";
    requested_size = fill.size;
    filled_size = some fill.size;
    average_fill_price = some fill.average_price;
    created_at = now;
    updated_at = now;
  }

  unfoldable pub record_live_entry_fill : Timestamp → ℕ → ConfirmedFill D → Op D (Unit {0})
  record_live_entry_fill now intent_id fill = immediate do
    found ← get_live_execution_tx intent_id
    execution ← or_fail found concurrent_transition
    fail_if (not (Execution.same_status execution.status entry_submitting)) concurrent_transition
    insert_order (entry_order now intent_id execution.entry_cloid fill)
    update_live_and_intent_tx intent_id entry_submitting entry_filled Status.submitting
        Status.executing "entry_fill_confirmed" none now

  -- The default of the column `filled_size` is the text '0', which is `none` here.
  abbrev pub protection_order : (List ℕ → List ℕ) → Timestamp → ℕ → OrderRole → D → LiveOrder D
  protection_order sha256 now intent_id role size = record {
    cloid = deterministic_cloid sha256 intent_id role;
    intent_id = intent_id;
    role = stable_name role;
    exchange_oid = none;
    status = "open_verified";
    requested_size = size;
    filled_size = none;
    average_fill_price = none;
    created_at = now;
    updated_at = now;
  }

  module _ (ops : DecimalOps D) (sha256 : List ℕ → List ℕ) where
    -- `fill.size * Decimal::from(pct) / Decimal::ONE_HUNDRED`
    abbrev pub target_size : D → ℕ → Tx D D
    target_size size pct = or_panic (ops.mul size (Decimal.from ops pct)) >>= λ share.
        or_panic (ops.div share (Decimal.from ops 100))

    -- The loop over the take-profit targets, with `index as u8`.
    unfoldable pub insert_targets :
        Timestamp → ℕ → D → ℕ → List (TakeProfitTarget D) → Tx D (Unit {0})
    insert_targets now intent_id size index [] = pure tt
    insert_targets now intent_id size index (t ∷ ts) = do
      share ← target_size size t.position_pct
      insert_order (protection_order sha256 now intent_id (take_profit (index % 256)) share)
      insert_targets now intent_id size (index + 1) ts

    -- The clock is read again for the event.
    abbrev pub protect_tx :
        Timestamp → Timestamp → TradeIntent D → ConfirmedFill D → Tx D (Unit {0})
    protect_tx now event_now intent fill = do
      found ← get_live_execution_tx intent.intent_id
      execution ← or_fail found concurrent_transition
      fail_if (not (Execution.same_status execution.status entry_filled)) concurrent_transition
      insert_order (protection_order sha256 now intent.intent_id stop_loss fill.size)
      insert_targets now intent.intent_id fill.size 0 intent.exit.take_profit
      insert_event_tx intent.intent_id "execution.protection_orders_verified"
          (EventData.covered_size fill.size) event_now

    unfoldable pub record_live_protection_orders :
        Timestamp → Timestamp → TradeIntent D → ConfirmedFill D → Op D (Unit {0})
    record_live_protection_orders now event_now intent fill =
        immediate (protect_tx now event_now intent fill)
