-- ===== src/Store/Reach.antt =====
-- The stores that the modelled methods of src/store.rs lead to, in any order, from an empty
-- database.
pub mod Numbered
use hyperliquid_live_executo.Base.{
  ℕ, ◌≡◌, refl, Bool, true, false, List, [], String, Option, none, some,
}
use hyperliquid_live_executo.Base.Time.{Timestamp}
use hyperliquid_live_executo.Decimal.{DecimalOps}
use hyperliquid_live_executo.Domain.Confirmation.{ManualConfirmation}
use hyperliquid_live_executo.Domain.Intent.{TradeIntent}
use hyperliquid_live_executo.Domain.Status.{TradeIntentStatus}
use hyperliquid_live_executo.Live.Execution.{ConfirmedFill}
use hyperliquid_live_executo.Risk.Decision.{RiskDecision}
use hyperliquid_live_executo.Store.State.{Store}
use hyperliquid_live_executo.Store.Intents.{
  create_intent, submit_shadow_intent, transition_intent, set_kill_switch,
}
use hyperliquid_live_executo.Store.Confirm.{confirm_intent, confirm_intent_for_execution}
use hyperliquid_live_executo.Store.Executions.{claim_next_live_execution}
use hyperliquid_live_executo.Store.Transitions.{
  mark_live_execution_failed, mark_live_entry_unknown, mark_live_execution_protected,
  mark_live_emergency_closing, mark_live_execution_closed, mark_live_reconciliation_required,
}
use hyperliquid_live_executo.Store.Orders.{record_live_entry_fill, record_live_protection_orders}
use hyperliquid_live_executo.Store.Consistency.{IsConsistent, fits}
use hyperliquid_live_executo.Store.Consistency.Steps.{
  Same-IsConsistent, finish-IsConsistent, claim-IsConsistent,
}
use hyperliquid_live_executo.Store.Consistency.Admission.{create-IsConsistent, submit-IsConsistent}
use hyperliquid_live_executo.Store.Consistency.Decision.{confirm-IsConsistent}
use hyperliquid_live_executo.Store.Consistency.Approval.{
  approve-IsConsistent, transition-IsConsistent, fill-IsConsistent,
}
use hyperliquid_live_executo.Store.Consistency.Untouched.{protection-IsConsistent, kill_switch_lem}
use hyperliquid_live_executo.Mainnet.{
  MainnetAccountSnapshot, MainnetFillRecord, MainnetFundingRecord, MainnetOrderUpdateRecord,
}
use hyperliquid_live_executo.Store.History.{record_mainnet_history, record_mainnet_order_updates}
use hyperliquid_live_executo.Store.Reconciliation.{acknowledge_reconciliation_recovery}
use hyperliquid_live_executo.Store.Snapshots.{
  Details, record_mainnet_snapshot, configure_mainnet_account,
}
use hyperliquid_live_executo.Store.Consistency.Untouched.{
  snapshot_lem, configure_lem, acknowledge_lem, history_lem, updates_lem,
}

module _ {D : Type 0} where
  -- The database that `migrate` makes: the kill switch is off.
  abbrev pub empty : Timestamp → Store D
  empty now = record {
    intents = [];
    events = [];
    control = record { kill_switch_enabled = false; reason = none; updated_at = now };
    executions = [];
    orders = [];
    reconciliation = [];
    mainnet = record {
      snapshots = [];
      orders = [];
      positions = [];
      order_updates = [];
      fills = [];
      funding = [];
    };
  }

  module _ (ops : DecimalOps D) (sha256 : List ℕ → List ℕ) where
    -- One call of a method, whatever it returns. `transition_intent` is called for a status that an
    -- intent without an execution can have; the program calls it for `risk_rejected` only.
    pub data Step : Store D → Store D → Type 0 where
      create :
          (now : Timestamp) (i : TradeIntent D) (key : String) (s : Store D)
          → Step s (create_intent ops now i key s).1
      submit :
          (now : Timestamp) (i : TradeIntent D) (key : String) (decision : RiskDecision D)
          (confirmation : Option ManualConfirmation) (s : Store D)
          → Step s (submit_shadow_intent ops now i key decision confirmation s).1
      transition :
          (now : Timestamp) (id : ℕ) (next : TradeIntentStatus) (reason : Option String)
          (s : Store D)
          → fits none next ≡ true
          → Step s (transition_intent now id next reason s).1
      confirm :
          (now : Timestamp) (id : ℕ) (digest by : String) (s : Store D)
          → Step s (confirm_intent now id digest by s).1
      approve :
          (now : Timestamp) (id : ℕ) (digest by account : String) (s : Store D)
          → Step s (confirm_intent_for_execution sha256 now id digest by account s).1
      claim :
          (now : Timestamp) (account : String) (s : Store D)
          → Step s (claim_next_live_execution now account s).1
      fail_entry :
          (now : Timestamp) (id : ℕ) (reason detail : String) (s : Store D)
          → Step s (mark_live_execution_failed now id reason detail s).1
      lose_entry :
          (now : Timestamp) (id : ℕ) (detail : String) (s : Store D)
          → Step s (mark_live_entry_unknown now id detail s).1
      fill :
          (now : Timestamp) (id : ℕ) (fill : ConfirmedFill D) (s : Store D)
          → Step s (record_live_entry_fill now id fill s).1
      protection_orders :
          (now event_now : Timestamp) (i : TradeIntent D) (fill : ConfirmedFill D) (s : Store D)
          → Step s (record_live_protection_orders ops sha256 now event_now i fill s).1
      protect :
          (now : Timestamp) (id : ℕ) (s : Store D)
          → Step s (mark_live_execution_protected now id s).1
      close_in_emergency :
          (now : Timestamp) (id : ℕ) (detail : String) (s : Store D)
          → Step s (mark_live_emergency_closing now id detail s).1
      close :
          (now : Timestamp) (id : ℕ) (s : Store D) → Step s (mark_live_execution_closed now id s).1
      lose_close :
          (now : Timestamp) (id : ℕ) (detail : String) (s : Store D)
          → Step s (mark_live_reconciliation_required now id detail s).1
      switch :
          (now : Timestamp) (enabled : Bool) (reason : Option String) (s : Store D)
          → Step s (set_kill_switch now enabled reason s).1
      snapshot :
          (to_string : D → String) (details : Details) (snapshot : MainnetAccountSnapshot D)
          (s : Store D)
          → Step s (record_mainnet_snapshot to_string details snapshot s).1
      configure : (account : String) (s : Store D) → Step s (configure_mainnet_account account s).1
      acknowledge :
          (now : Timestamp) (account reason by : String) (s : Store D)
          → Step s (acknowledge_reconciliation_recovery now account reason by s).1
      history :
          (to_string : D → String) (account : String) (now : Timestamp)
          (fills : List (MainnetFillRecord D)) (funding : List (MainnetFundingRecord D))
          (s : Store D)
          → Step s (record_mainnet_history to_string account now fills funding s).1
      order_updates :
          (to_string : D → String) (account : String) (now : Timestamp)
          (updates : List (MainnetOrderUpdateRecord D)) (s : Store D)
          → Step s (record_mainnet_order_updates to_string account now updates s).1

    -- The stores that calls lead to.
    pub data Reachable : Store D → Type 0 where
      start : (now : Timestamp) → Reachable (empty now)
      next : {s t : Store D} → Reachable s → Step s t → Reachable t

    step-IsConsistent : {s t : Store D} → Step s t → IsConsistent s → IsConsistent t
    unfolding mark_live_execution_failed mark_live_entry_unknown mark_live_execution_protected
        mark_live_emergency_closing mark_live_execution_closed mark_live_reconciliation_required
    step-IsConsistent (create now i key s) c = create-IsConsistent ops now i key s c
    step-IsConsistent (submit now i key d m s) c = submit-IsConsistent ops now i key d m s c
    step-IsConsistent (transition now id status reason s early) c =
        transition-IsConsistent now id status reason s early c
    step-IsConsistent (confirm now id digest by s) c = confirm-IsConsistent now id digest by s c
    step-IsConsistent (approve now id digest by account s) c =
        approve-IsConsistent sha256 now id digest by account s c
    step-IsConsistent (claim now account s) c = claim-IsConsistent now account s c
    step-IsConsistent (fail_entry now id reason detail s) c =
        finish-IsConsistent now id _ _ _ _ reason (some detail) false s c refl refl refl
    step-IsConsistent (lose_entry now id detail s) c =
        finish-IsConsistent now id _ _ _ _ _ (some detail) true s c refl refl refl
    step-IsConsistent (fill now id f s) c = fill-IsConsistent now id f s c
    step-IsConsistent (protection_orders now event_now i f s) c =
        protection-IsConsistent ops sha256 now event_now i f s c
    step-IsConsistent (protect now id s) c =
        finish-IsConsistent now id _ _ _ _ _ none false s c refl refl refl
    step-IsConsistent (close_in_emergency now id detail s) c =
        finish-IsConsistent now id _ _ _ _ _ (some detail) true s c refl refl refl
    step-IsConsistent (close now id s) c =
        finish-IsConsistent now id _ _ _ _ _ none true s c refl refl refl
    step-IsConsistent (lose_close now id detail s) c =
        finish-IsConsistent now id _ _ _ _ _ (some detail) true s c refl refl refl
    step-IsConsistent (switch now enabled reason s) c =
        Same-IsConsistent (kill_switch_lem now enabled reason s) c
    step-IsConsistent (snapshot to_string details x s) c =
        Same-IsConsistent (snapshot_lem to_string details x s) c
    step-IsConsistent (configure account s) c = Same-IsConsistent (configure_lem account s) c
    step-IsConsistent (acknowledge now account reason by s) c =
        Same-IsConsistent (acknowledge_lem now account reason by s) c
    step-IsConsistent (history to_string account now fills funding s) c =
        Same-IsConsistent (history_lem to_string account now fills funding s) c
    step-IsConsistent (order_updates to_string account now updates s) c =
        Same-IsConsistent (updates_lem to_string account now updates s) c

    empty-IsConsistent : (now : Timestamp) → IsConsistent (empty now)
    empty-IsConsistent now = record {
      unique_intents = tt;
      unique_executions = tt;
      fit = λ id. refl;
    }

    -- In every store that the methods lead to from the empty one, where `transition_intent` is asked
    -- only for a status that an intent without an execution can have (`received`,
    -- `awaiting_confirmation`, `risk_rejected` or `shadow_accepted`), no id stands twice in a table,
    -- and an intent and its execution have statuses that go together, the execution tried at most
    -- once.
    pub Reachable-IsConsistent : {s : Store D} → Reachable s → IsConsistent s
    Reachable-IsConsistent (start now) = empty-IsConsistent now
    Reachable-IsConsistent (next r step) = step-IsConsistent step (Reachable-IsConsistent r)
