-- ===== src/Store/Reach/Numbered.antt =====
-- src/store.rs: the cursors of the event log count its events, in every store that the methods lead to.
use hyperliquid_live_executo.Base.{ℕ, ◌+◌, ◌≡◌, List, [], ◌∷◌, arith}
use hyperliquid_live_executo.Domain.Intent.{TakeProfitTarget}
use hyperliquid_live_executo.Base.Time.{Timestamp}
use hyperliquid_live_executo.Base.Result.{ok}
use hyperliquid_live_executo.Decimal.{DecimalOps}
use hyperliquid_live_executo.Store.State.{Store}
use hyperliquid_live_executo.Store.Events.{NumberedFrom, append-NumberedFrom}
use hyperliquid_live_executo.Store.Intents.{
  create_intent, submit_shadow_intent, transition_intent, set_kill_switch,
}
use hyperliquid_live_executo.Store.Confirm.{confirm_intent, confirm_intent_for_execution}
use hyperliquid_live_executo.Store.Executions.{claim_next_live_execution}
use hyperliquid_live_executo.Store.Transitions.{
  mark_live_execution_failed, mark_live_entry_unknown, mark_live_execution_protected,
  mark_live_emergency_closing, mark_live_execution_closed, mark_live_reconciliation_required,
  finish_live_transition,
}
use hyperliquid_live_executo.Store.Orders.{
  record_live_entry_fill, record_live_protection_orders, insert_targets,
}
use hyperliquid_live_executo.Store.Reconciliation.{acknowledge_reconciliation_recovery}
use hyperliquid_live_executo.Store.Snapshots.{record_mainnet_snapshot, configure_mainnet_account}
use hyperliquid_live_executo.Store.History.{record_mainnet_history, record_mainnet_order_updates}
use hyperliquid_live_executo.Store.Reach
use hyperliquid_live_executo.Store.Reach.{Step, Reachable, start, next}

module _ {D : Type 0} where
  abbrev IsNumbered : Store D → Type 0
  IsNumbered s = NumberedFrom 0 s.events

  module _ (ops : DecimalOps D) (sha256 : List ℕ → List ℕ) where
    targets-events :
        (now : Timestamp) (id : ℕ) (size : D) (index : ℕ) (ts : List (TakeProfitTarget D))
        (s t : Store D)
        → insert_targets ops sha256 now id size index ts s ≡ ok (tt, t)
        → t.events ≡ s.events
    unfolding insert_targets
    targets-events now id size index [] s t h = ground arith
    targets-events now id size index (x ∷ ts) s t h =
        let rest : (u v : Store D)
            → insert_targets ops sha256 now id size (index + 1) ts u ≡ ok (tt, v)
            → v.events ≡ u.events =
          targets-events now id size (index + 1) ts in
        grind (arith, rest)

    step-IsNumbered : {s t : Store D} → Step ops sha256 s t → IsNumbered s → IsNumbered t
    unfolding create_intent submit_shadow_intent transition_intent set_kill_switch confirm_intent
        confirm_intent_for_execution claim_next_live_execution mark_live_execution_failed
        mark_live_entry_unknown mark_live_execution_protected mark_live_emergency_closing
        mark_live_execution_closed mark_live_reconciliation_required finish_live_transition
        record_live_entry_fill record_live_protection_orders acknowledge_reconciliation_recovery
        record_mainnet_snapshot configure_mainnet_account record_mainnet_history
        record_mainnet_order_updates
    step-IsNumbered (Reach.protection_orders now event_now i f s) h =
        grind (arith, append-NumberedFrom, targets-events)
    step-IsNumbered _ h = grind (arith, append-NumberedFrom)

    -- The cursors of the event log count its events from one, without a gap, in every such store.
    pub Reachable-IsNumbered : {s : Store D} → Reachable ops sha256 s → IsNumbered s
    Reachable-IsNumbered (start now) = tt
    Reachable-IsNumbered (next r step) = step-IsNumbered step (Reachable-IsNumbered r)
