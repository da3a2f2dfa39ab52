-- ===== src/Store/Consistency/Approval.antt =====
-- The approval for execution, the rejection at confirmation, and the orders of an execution.
use hyperliquid_live_executo.Base.{
  ℕ, ◌≡◌, refl, true, false, List, String, Option, none, some, ◌==◌, if◌then◌else◌, arith, ◌⊎◌, inl,
  inr, Bool-cases, Option-cases, ==_iff, sym, ◌∙◌, and_true,
}
use hyperliquid_live_executo.Base.Table
use hyperliquid_live_executo.Base.Time.{Timestamp}
use hyperliquid_live_executo.Domain.Status
use hyperliquid_live_executo.Domain.Status.{
  TradeIntentStatus, can_transition_to, same_status, same_status-eq,
}
use hyperliquid_live_executo.Live.Cloid.{entry, deterministic_cloid}
use hyperliquid_live_executo.Live.Execution.{ConfirmedFill, LiveExecution}
use hyperliquid_live_executo.Live.Execution
use hyperliquid_live_executo.Store.State.{Store, StoredIntent, intent_key, execution_key}
use hyperliquid_live_executo.Store.Tx.{where_intent}
use hyperliquid_live_executo.Store.Intents.{transition_intent}
use hyperliquid_live_executo.Store.Confirm.{
  confirm_intent_for_execution, is_awaiting, with_status, with_confirmed, pending_execution,
}
use hyperliquid_live_executo.Store.Orders.{record_live_entry_fill}
use hyperliquid_live_executo.Store.Consistency.{IsConsistent, rows_fit, fits, matched, updated}
use hyperliquid_live_executo.Store.Consistency.Steps.{
  Same, Same-IsConsistent, Rewrites, moved, moved_row, finish_keep, Rewrites-IsConsistent,
}
use hyperliquid_live_executo.Store.Consistency.Decision.{
  KeepsIntent, Approves, approve_lem, Decides-IsConsistent, transition_lem,
}

module _ {D : Type 0} where
  approved_row : Timestamp → String → StoredIntent D → StoredIntent D
  approved_row now by r =
      with_confirmed now by (with_status Status.approved "manually_confirmed_for_execution" now r)

  approval_fits :
      (now : Timestamp) (id : ℕ) (by account : String) (cloid : ℕ) (k : ℕ)
      (oe : Option LiveExecution) (oi : Option (StoredIntent D))
      → ((k == id) ≡ true → (oe ≡ none) × (matched is_awaiting oi ≡ 1))
      → rows_fit oe oi ≡ true
      → rows_fit
          (elim oe [
            | none ↦ if id == k then some (pending_execution now id account cloid) else none
            | some x ↦ some x
          ])
          (if k == id then updated is_awaiting (approved_row now by) oi else oi)
        ≡ true
  unfolding approved_row
  approval_fits now id by account cloid k oe oi h hr = elim (Bool-cases (k == id)) [
    | inr other ↦ rw other (elsewhere oe other hr)
    | inl same ↦ rw same (at_id oe oi (h same) same hr)
  ]
    where
      elsewhere :
          (oe : Option LiveExecution)
          → (k == id) ≡ false
          → rows_fit oe oi ≡ true
          → rows_fit
              (elim oe [
                | none ↦ if id == k then some (pending_execution now id account cloid) else none
                | some x ↦ some x
              ])
              oi
            ≡ true
      elsewhere none other hr = ground arith
      elsewhere (some e) other hr = hr

      at_id :
          (oe : Option LiveExecution) (oi : Option (StoredIntent D))
          → (oe ≡ none) × (matched is_awaiting oi ≡ 1)
          → (k == id) ≡ true
          → rows_fit oe oi ≡ true
          → rows_fit
              (elim oe [
                | none ↦ if id == k then some (pending_execution now id account cloid) else none
                | some x ↦ some x
              ])
              (updated is_awaiting (approved_row now by) oi)
            ≡ true
      at_id none none h same hr = absurd (omega arith)
      at_id none (some r) h same hr = ground arith
      at_id (some e) oi h same hr = cc

  Approves-IsConsistent :
      (now : Timestamp) (id : ℕ) (by account : String) (cloid : ℕ) (s t : Store D)
      → Approves now id by account cloid s t
      → IsConsistent s
      → IsConsistent t
  unfolding approved_row
  Approves-IsConsistent now id by account cloid s t (one, new, te, ti) c = record {
    unique_intents = rw ti (
        Table.update-Unique intent_key (where_intent id is_awaiting) (approved_row now by)
          (λ r. refl) s.intents c.unique_intents);
    unique_executions = rw te (
        Table.append-Unique execution_key s.executions (pending_execution now id account cloid)
          c.unique_executions new);
    fit = λ k.
        rw
          (
            te,
            ti,
            Table.find-append execution_key k s.executions (pending_execution now id account cloid),
            Table.find-update_key intent_key (approved_row now by) (λ r. refl) id is_awaiting k
                s.intents,
          )
          (approval_fits now id by account cloid k (Table.find execution_key k s.executions)
            (Table.find intent_key k s.intents) (at k) (c.fit k));
  }
    where
      at :
          (k : ℕ)
          → (k == id) ≡ true
          → (Table.find execution_key k s.executions ≡ none)
            × (matched is_awaiting (Table.find intent_key k s.intents) ≡ 1)
      at k same =
          rw ((==_iff k id).0 same) (
            new,
            sym (Table.changed_one intent_key id is_awaiting s.intents c.unique_intents) ∙ one,
          )

  pub approve-IsConsistent :
      (sha256 : List ℕ → List ℕ) (now : Timestamp) (id : ℕ) (digest by account : String)
      (s : Store D)
      → IsConsistent s
      → IsConsistent (confirm_intent_for_execution sha256 now id digest by account s).1
  approve-IsConsistent sha256 now id digest by account s c =
      elim (approve_lem sha256 now id digest by account s) [
        | inl same ↦ Same-IsConsistent same c
        | inr a ↦
            Approves-IsConsistent now id by account (deterministic_cloid sha256 id entry) s _ a c
      ]

  -- The statuses that lead to one before an approval have no execution.
  transition_keeps :
      (before next : TradeIntentStatus) (g : StoredIntent D → StoredIntent D)
      → ((r : StoredIntent D) → (g r).status ≡ next)
      → fits none next ≡ true
      → can_transition_to before next ≡ true
      → KeepsIntent (λ x. same_status x.status before) g
  unfolding can_transition_to
  transition_keeps before next g hg early h none r qr hr = rw hg early
  transition_keeps before next g hg early h (some e) r qr hr =
      absurd (clash (same_status-eq r.status before qr) (and_true _ _ hr).0)
    where
      clash : r.status ≡ before → fits (some e.status) r.status ≡ true → ⊥
      clash p q = ground arith

  transition_unknown :
      (now : Timestamp) (id : ℕ) (next : TradeIntentStatus) (reason : Option String) (s : Store D)
      → Table.find intent_key id s.intents ≡ none
      → (transition_intent now id next reason s).1 ≡ s
  unfolding transition_intent
  transition_unknown now id next reason s gone = ground arith

  pub transition-IsConsistent :
      (now : Timestamp) (id : ℕ) (next : TradeIntentStatus) (reason : Option String) (s : Store D)
      → fits none next ≡ true
      → IsConsistent s
      → IsConsistent (transition_intent now id next reason s).1
  transition-IsConsistent now id next reason s early c =
      elim (Option-cases (Table.find intent_key id s.intents)) [
        | inl gone ↦ rw (transition_unknown now id next reason s gone) c
        | inr (r, found) ↦ elim (transition_lem now id next reason s r found) [
          | inl same ↦ Same-IsConsistent same c
          | inr (allowed, d) ↦
              Decides-IsConsistent id _ _ (λ x. refl)
                (transition_keeps r.status next _ (λ x. refl) early allowed) c d
        ]
      ]

  fill_lem :
      (now : Timestamp) (id : ℕ) (fill : ConfirmedFill D) (s : Store D)
      → let t = (record_live_entry_fill now id fill s).1 in
        Same s t
        ⊎ Rewrites id
            (λ e. Execution.same_status e.status Execution.entry_submitting)
            (moved now Execution.entry_filled none)
            (λ r. same_status r.status Status.submitting)
            (moved_row now Status.executing "entry_fill_confirmed")
            s
            t
  unfolding record_live_entry_fill
  fill_lem now id fill s = ground arith

  pub fill-IsConsistent :
      (now : Timestamp) (id : ℕ) (fill : ConfirmedFill D) (s : Store D)
      → IsConsistent s
      → IsConsistent (record_live_entry_fill now id fill s).1
  fill-IsConsistent now id fill s c =
      Rewrites-IsConsistent c id _ _ _ _ (λ e. refl) (λ r. refl)
        (finish_keep now Execution.entry_submitting Execution.entry_filled Status.submitting
          Status.executing "entry_fill_confirmed" none refl refl refl)
        (fill_lem now id fill s)
