-- ===== src/Store/Consistency/Untouched.antt =====
-- The methods of the store that leave the intents and the executions as they are.
use hyperliquid_live_executo.Base.{
  ℕ, ◌+◌, ◌%◌, ◌≡◌, refl, Bool, not, List, [], ◌∷◌, String, Option, arith, ◌∙◌,
}
use hyperliquid_live_executo.Base.Result.{Result, ok, err, panic}
use hyperliquid_live_executo.Base.Time.{Timestamp}
use hyperliquid_live_executo.Decimal.{DecimalOps}
use hyperliquid_live_executo.Domain.Intent.{TakeProfitTarget, TradeIntent}
use hyperliquid_live_executo.Live.Cloid.{stop_loss, take_profit}
use hyperliquid_live_executo.Live.Execution.{ConfirmedFill, entry_filled}
use hyperliquid_live_executo.Live.Execution
use hyperliquid_live_executo.Store.State.{
  Store, StoreError, EventData, LiveOrder, concurrent_transition,
}
use hyperliquid_live_executo.Store.Tx.{
  Tx, or_fail, fail_if, immediate, insert_event_tx, get_live_execution_tx, ◌>>=◌,
}
use hyperliquid_live_executo.Store.Intents.{set_kill_switch}
use hyperliquid_live_executo.Store.Orders.{
  record_live_protection_orders, insert_targets, insert_order, target_size, protection_order,
  protect_tx,
}
use hyperliquid_live_executo.Store.Consistency.{IsConsistent}
use hyperliquid_live_executo.Store.Consistency.Steps.{Same, Same-IsConsistent}
use hyperliquid_live_executo.Mainnet.{
  MainnetAccountSnapshot, MainnetFillRecord, MainnetFundingRecord, MainnetOrderUpdateRecord,
}
use hyperliquid_live_executo.Store.History.{record_mainnet_history, record_mainnet_order_updates}
use hyperliquid_live_executo.Store.Reconciliation.{acknowledge_reconciliation_recovery}
use hyperliquid_live_executo.Store.Snapshots.{
  Details, record_mainnet_snapshot, configure_mainnet_account,
}

module _ {D : Type 0} where
  -- A transaction whose success leaves both tables as they are.
  abbrev KeepsRows : {A : Type 0} → Tx D A → Type 0
  KeepsRows {A} m = (s : Store D) (a : A) (t : Store D) → m s ≡ ok (a, t) → Same s t

  >>=-KeepsRows :
      {A B : Type 0} (m : Tx D A) (k : A → Tx D B)
      → KeepsRows m
      → ((a : A) → KeepsRows (k a))
      → KeepsRows (m >>= k)
  >>=-KeepsRows {A} {B} m k hm hk s b t h = split (m s) refl h
    where
      split :
          (r : Result StoreError (A × Store D))
          → m s ≡ r
          → elim r [ ok (a, u) ↦ k a u | err e ↦ err e | panic ↦ panic ] ≡ ok (b, t)
          → Same s t
      split (ok (a, u)) e h = ((hk a u b t h).0 ∙ (hm s a u e).0, (hk a u b t h).1 ∙ (hm s a u e).1)
      split (err x) e h = ground arith
      split panic e h = ground arith

  insert_order-KeepsRows : (o : LiveOrder D) → KeepsRows (insert_order o)
  insert_order-KeepsRows o s a t h = ground arith

  fail_if-KeepsRows : (b : Bool) (x : StoreError) → KeepsRows (fail_if {D = D} b x)
  fail_if-KeepsRows b x s a t h = ground arith

  insert_event-KeepsRows :
      (id : ℕ) (type : String) (data_ : EventData D) (now : Timestamp)
      → KeepsRows (insert_event_tx id type data_ now)
  insert_event-KeepsRows id type data_ now s a t h = ground arith

  insert_targets-KeepsRows :
      (ops : DecimalOps D) (sha256 : List ℕ → List ℕ) (now : Timestamp) (id : ℕ) (size : D)
      (index : ℕ) (ts : List (TakeProfitTarget D))
      → KeepsRows (insert_targets ops sha256 now id size index ts)
  unfolding insert_targets
  insert_targets-KeepsRows ops sha256 now id size index [] = λ s a t h. ground arith
  insert_targets-KeepsRows ops sha256 now id size index (x ∷ ts) =
      >>=-KeepsRows (target_size ops sha256 size x.position_pct) _ (λ s a t h. ground arith)
        (λ share.
          >>=-KeepsRows
            (insert_order (protection_order sha256 now id (take_profit (index % 256)) share)) _
            (insert_order-KeepsRows
              (protection_order sha256 now id (take_profit (index % 256)) share))
            (λ _. insert_targets-KeepsRows ops sha256 now id size (index + 1) ts))

  immediate-Same : {A : Type 0} (m : Tx D A) (s : Store D) → KeepsRows m → Same s (immediate m s).1
  immediate-Same {A} m s h = split (m s) refl
    where
      split :
          (r : Result StoreError (A × Store D))
          → m s ≡ r
          → Same s
              (elim r as (λ _. Result StoreError A × Store D) [
                | ok (a, t) ↦ (ok a, t)
                | err e ↦ (err e, s)
                | panic ↦ (panic, s)
              ]).1
      split (ok (a, t)) e = h s a t e
      split (err x) e = (refl, refl)
      split panic e = (refl, refl)

  pub protection-Same :
      (ops : DecimalOps D) (sha256 : List ℕ → List ℕ) (now event_now : Timestamp)
      (intent : TradeIntent D) (fill : ConfirmedFill D) (s : Store D)
      → Same s (record_live_protection_orders ops sha256 now event_now intent fill s).1
  unfolding record_live_protection_orders
  protection-Same ops sha256 now event_now intent fill s =
      immediate-Same (protect_tx ops sha256 now event_now intent fill) s body
    where
      body : KeepsRows (protect_tx ops sha256 now event_now intent fill)
      body =
          >>=-KeepsRows (get_live_execution_tx intent.intent_id) _ (λ s a t h. ground arith)
            (λ found.
              >>=-KeepsRows (or_fail found concurrent_transition) _ (λ s a t h. ground arith)
                (λ execution.
                  >>=-KeepsRows
                    (fail_if (not (Execution.same_status execution.status entry_filled))
                      concurrent_transition)
                    _
                    (fail_if-KeepsRows (not (Execution.same_status execution.status entry_filled))
                      concurrent_transition)
                    (λ _.
                      >>=-KeepsRows
                        (insert_order
                          (protection_order sha256 now intent.intent_id stop_loss fill.size))
                        _
                        (insert_order-KeepsRows
                          (protection_order sha256 now intent.intent_id stop_loss fill.size))
                        (λ _.
                          >>=-KeepsRows
                            (insert_targets ops sha256 now intent.intent_id fill.size 0
                              intent.exit.take_profit)
                            _
                            (insert_targets-KeepsRows ops sha256 now intent.intent_id fill.size 0
                              intent.exit.take_profit)
                            (λ _.
                              insert_event-KeepsRows intent.intent_id
                                "execution.protection_orders_verified"
                                (EventData.covered_size fill.size) event_now)))))

  pub protection-IsConsistent :
      (ops : DecimalOps D) (sha256 : List ℕ → List ℕ) (now event_now : Timestamp)
      (intent : TradeIntent D) (fill : ConfirmedFill D) (s : Store D)
      → IsConsistent s
      → IsConsistent (record_live_protection_orders ops sha256 now event_now intent fill s).1
  protection-IsConsistent ops sha256 now event_now intent fill s c =
      Same-IsConsistent (protection-Same ops sha256 now event_now intent fill s) c

  pub kill_switch_lem :
      (now : Timestamp) (enabled : Bool) (reason : Option String) (s : Store D)
      → Same s (set_kill_switch now enabled reason s).1
  unfolding set_kill_switch
  kill_switch_lem now enabled reason s = ground arith

  pub snapshot_lem :
      (to_string : D → String) (details : Details) (snapshot : MainnetAccountSnapshot D)
      (s : Store D)
      → Same s (record_mainnet_snapshot to_string details snapshot s).1
  unfolding record_mainnet_snapshot
  snapshot_lem to_string details snapshot s = (refl, refl)

  pub configure_lem :
      (account : String) (s : Store D) → Same s (configure_mainnet_account account s).1
  unfolding configure_mainnet_account
  configure_lem account s = (refl, refl)

  pub acknowledge_lem :
      (now : Timestamp) (account reason by : String) (s : Store D)
      → Same s (acknowledge_reconciliation_recovery now account reason by s).1
  unfolding acknowledge_reconciliation_recovery
  acknowledge_lem now account reason by s = ground arith

  pub history_lem :
      (to_string : D → String) (account : String) (now : Timestamp)
      (fills : List (MainnetFillRecord D)) (funding : List (MainnetFundingRecord D)) (s : Store D)
      → Same s (record_mainnet_history to_string account now fills funding s).1
  unfolding record_mainnet_history
  history_lem to_string account now fills funding s = ground arith

  pub updates_lem :
      (to_string : D → String) (account : String) (now : Timestamp)
      (updates : List (MainnetOrderUpdateRecord D)) (s : Store D)
      → Same s (record_mainnet_order_updates to_string account now updates s).1
  unfolding record_mainnet_order_updates
  updates_lem to_string account now updates s = ground arith
