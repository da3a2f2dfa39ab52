-- ===== src/Store/Consistency/Decision.antt =====
-- The methods that decide on an intent before it is executed.
use hyperliquid_live_executo.Base.{
  ℕ, ◌≡◌, refl, Bool, true, List, [], ◌∷◌, ◌++◌, String, Option, none, some, ◌==◌, arith, ◌⊎◌, inl,
  inr, Bool-cases, and_true,
}
use hyperliquid_live_executo.Base.Table
use hyperliquid_live_executo.Base.Time.{Timestamp}
use hyperliquid_live_executo.Domain.Status
use hyperliquid_live_executo.Domain.Status.{
  TradeIntentStatus, can_transition_to, same_status, same_status-eq,
}
use hyperliquid_live_executo.Live.Cloid.{entry, deterministic_cloid}
use hyperliquid_live_executo.Live.Execution.{LiveExecution}
use hyperliquid_live_executo.Store.State.{Store, StoredIntent, intent_key, execution_key}
use hyperliquid_live_executo.Store.Tx.{where_intent}
use hyperliquid_live_executo.Store.Intents.{transition_intent}
use hyperliquid_live_executo.Store.Confirm.{
  confirm_intent, confirm_intent_for_execution, is_awaiting, with_status, with_confirmed,
  pending_execution,
}
use hyperliquid_live_executo.Store.Consistency.{IsConsistent, rows_fit, fits, updated}
use hyperliquid_live_executo.Store.Consistency.Steps.{Same, Same-IsConsistent}

module _ {D : Type 0} where
  -- Rows of `trade_intents` alone have been rewritten, by their id and a condition.
  abbrev Decides :
      ℕ → (StoredIntent D → Bool) → (StoredIntent D → StoredIntent D) → Store D → Store D → Type 0
  Decides id q g s t =
      (t.executions ≡ s.executions) × (t.intents ≡ Table.update (where_intent id q) g s.intents)

  -- The new row fits whatever the old one fitted.
  abbrev pub KeepsIntent : (StoredIntent D → Bool) → (StoredIntent D → StoredIntent D) → Type 0
  KeepsIntent q g =
      (oe : Option LiveExecution) (r : StoredIntent D)
      → q r ≡ true
      → rows_fit oe (some r) ≡ true
      → rows_fit oe (some (g r)) ≡ true

  intent_kept :
      (q : StoredIntent D → Bool) (g : StoredIntent D → StoredIntent D)
      → KeepsIntent q g
      → (oe : Option LiveExecution) (oi : Option (StoredIntent D)) → rows_fit oe oi ≡ true
      → rows_fit oe (updated q g oi) ≡ true
  intent_kept q g keep oe none h = h
  intent_kept q g keep oe (some r) h = elim (Bool-cases (q r)) [
    | inl qr ↦ rw qr (keep oe r qr h)
    | inr other ↦ rw other h
  ]

  pub Decides-IsConsistent :
      (id : ℕ) (q : StoredIntent D → Bool) (g : StoredIntent D → StoredIntent D) {s t : Store D}
      → ((r : StoredIntent D) → intent_key (g r) ≡ intent_key r)
      → KeepsIntent q g
      → IsConsistent s
      → Decides id q g s t
      → IsConsistent t
  Decides-IsConsistent id q g {s} {t} kg keep c (te, ti) = record {
    unique_intents =
        rw ti (Table.update-Unique intent_key (where_intent id q) g kg s.intents c.unique_intents);
    unique_executions = rw te c.unique_executions;
    fit = λ k.
        rw (te, ti, Table.find-update_key intent_key g kg id q k s.intents)
          (elim (Bool-cases (k == id)) [
            | inr other ↦ rw other (c.fit k)
            | inl same ↦ rw same (
                intent_kept q g keep (Table.find execution_key k s.executions)
                  (Table.find intent_key k s.intents) (c.fit k))
          ]);
  }

  awaiting_alone :
      (oe : Option LiveExecution) (r : StoredIntent D)
      → is_awaiting r ≡ true
      → rows_fit oe (some r) ≡ true
      → oe ≡ none
  awaiting_alone none r qr h = refl
  awaiting_alone (some e) r qr h =
      absurd (clash (same_status-eq r.status Status.awaiting_confirmation qr) (and_true _ _ h).0)
    where
      clash : r.status ≡ Status.awaiting_confirmation → fits (some e.status) r.status ≡ true → ⊥
      clash p h = ground arith

  -- An awaiting intent may be decided in any way that needs no execution.
  awaiting-KeepsIntent :
      (g : StoredIntent D → StoredIntent D)
      → ((r : StoredIntent D) → fits none (g r).status ≡ true)
      → KeepsIntent is_awaiting g
  awaiting-KeepsIntent g hg oe r qr h = rw (awaiting_alone oe r qr h) (hg r)

  confirm_lem :
      (now : Timestamp) (id : ℕ) (digest by : String) (s : Store D)
      → let t = (confirm_intent now id digest by s).1 in
        Same s t
        ⊎ (Decides id is_awaiting (with_status Status.risk_rejected "confirmation_expired" now) s t
            ⊎ (Decides id is_awaiting
                  (with_status Status.risk_rejected "kill_switch_enabled" now)
                  s
                  t
                ⊎ Decides id is_awaiting
                    (λ r.
                      with_confirmed now by
                        (with_status Status.shadow_accepted "manually_confirmed_shadow_only" now r))
                    s
                    t))
  unfolding confirm_intent
  confirm_lem now id digest by s = ground arith

  pub confirm-IsConsistent :
      (now : Timestamp) (id : ℕ) (digest by : String) (s : Store D)
      → IsConsistent s
      → IsConsistent (confirm_intent now id digest by s).1
  confirm-IsConsistent now id digest by s c = elim (confirm_lem now id digest by s) [
    | inl same ↦ Same-IsConsistent same c
    | inr (inl d) ↦
        Decides-IsConsistent id is_awaiting _ (λ r. refl) (awaiting-KeepsIntent _ (λ r. refl)) c d
    | inr (inr (inl d)) ↦
        Decides-IsConsistent id is_awaiting _ (λ r. refl) (awaiting-KeepsIntent _ (λ r. refl)) c d
    | inr (inr (inr d)) ↦
        Decides-IsConsistent id is_awaiting _ (λ r. refl) (awaiting-KeepsIntent _ (λ r. refl)) c d
  ]

  -- The approval for execution, with the execution that it creates.
  abbrev pub Approves : Timestamp → ℕ → String → String → ℕ → Store D → Store D → Type 0
  Approves now id by account cloid s t =
      (Table.changed (where_intent id is_awaiting) s.intents ≡ 1)
      × (Table.find execution_key id s.executions ≡ none)
      × (t.executions ≡ s.executions ++ pending_execution now id account cloid ∷ [])
      × (t.intents
          ≡ Table.update (where_intent id is_awaiting)
              (λ r.
                with_confirmed now by
                  (with_status Status.approved "manually_confirmed_for_execution" now r))
              s.intents)

  pub approve_lem :
      (sha256 : List ℕ → List ℕ) (now : Timestamp) (id : ℕ) (digest by account : String)
      (s : Store D)
      → let t = (confirm_intent_for_execution sha256 now id digest by account s).1 in
        Same s t ⊎ Approves now id by account (deterministic_cloid sha256 id entry) s t
  unfolding confirm_intent_for_execution
  approve_lem sha256 now id digest by account s = ground arith

  pub transition_lem :
      (now : Timestamp) (id : ℕ) (next : TradeIntentStatus) (reason : Option String) (s : Store D)
      (r : StoredIntent D)
      → Table.find intent_key id s.intents ≡ some r
      → let t = (transition_intent now id next reason s).1 in
        Same s t
        ⊎ ((can_transition_to r.status next ≡ true)
            × Decides id
                (λ x. same_status x.status r.status)
                (λ x. record x { status = next; status_reason = reason; updated_at = now })
                s
                t)
  unfolding transition_intent
  transition_lem now id next reason s r found = ground arith
