-- ===== src/Store/Consistency/Admission.antt =====
-- The methods that insert an intent, and those that decide on one before it is executed.
use hyperliquid_live_executo.Base.{
  ℕ, ◌≡◌, refl, Bool, true, false, [], ◌∷◌, ◌++◌, String, Option, none, some, ◌==◌, if◌then◌else◌,
  arith, ◌⊎◌, inl, inr, Bool-cases, ==_iff,
}
use hyperliquid_live_executo.Base.Table
use hyperliquid_live_executo.Base.Time.{Timestamp}
use hyperliquid_live_executo.Decimal.{DecimalOps}
use hyperliquid_live_executo.Domain.Confirmation.{ManualConfirmation}
use hyperliquid_live_executo.Domain.Intent.{TradeIntent}
use hyperliquid_live_executo.Live.Execution.{LiveExecution}
use hyperliquid_live_executo.Risk.Decision.{RiskDecision}
use hyperliquid_live_executo.Store.State.{Store, StoredIntent, intent_key, execution_key}
use hyperliquid_live_executo.Store.Intents.{
  create_intent, submit_shadow_intent, submitted_status, submitted_row, received_row,
}
use hyperliquid_live_executo.Store.Consistency.{IsConsistent, rows_fit, fits}
use hyperliquid_live_executo.Store.Consistency.Steps.{Same, Same-IsConsistent}

module _ {D : Type 0} where
  -- A row with a new id has been added.
  abbrev Inserts : StoredIntent D → Store D → Store D → Type 0
  Inserts r s t =
      (Table.find intent_key (intent_key r) s.intents ≡ none)
      × (t.executions ≡ s.executions)
      × (t.intents ≡ s.intents ++ r ∷ [])

  fit_new :
      (r : StoredIntent D) (k : ℕ) (oe : Option LiveExecution) (oi : Option (StoredIntent D))
      → fits none r.status ≡ true
      → (oi ≡ none ⊎ (intent_key r == k) ≡ false)
      → rows_fit oe oi ≡ true
      → rows_fit oe
          (elim oi [ none ↦ if intent_key r == k then some r else none | some x ↦ some x ])
        ≡ true
  fit_new r k none none hf h hr = ground arith
  fit_new r k (some e) none hf h hr = cc
  fit_new r k none (some x) hf h hr = hr
  fit_new r k (some e) (some x) hf h hr = hr

  Inserts-IsConsistent :
      {s t : Store D} (r : StoredIntent D)
      → fits none r.status ≡ true
      → Inserts r s t
      → IsConsistent s
      → IsConsistent t
  Inserts-IsConsistent {s} {t} r hf (new, te, ti) c = record {
    unique_intents = rw ti (Table.append-Unique intent_key s.intents r c.unique_intents new);
    unique_executions = rw te c.unique_executions;
    fit = λ k.
        rw (te, ti, Table.find-append intent_key k s.intents r)
          (fit_new r k (Table.find execution_key k s.executions) (Table.find intent_key k s.intents)
            hf (absent k) (c.fit k));
  }
    where
      absent : (k : ℕ) → (Table.find intent_key k s.intents ≡ none) ⊎ ((intent_key r == k) ≡ false)
      absent k = elim (Bool-cases (intent_key r == k)) [
        | inl same ↦ inl (rw (← (==_iff (intent_key r) k).0 same) new)
        | inr other ↦ inr other
      ]

  submit_lem :
      (ops : DecimalOps D) (now : Timestamp) (i : TradeIntent D) (key : String) (d : RiskDecision D)
      (m : Option ManualConfirmation) (s : Store D)
      → let t = (submit_shadow_intent ops now i key d m s).1 in
        Same s t ⊎ Inserts (submitted_row s.control.kill_switch_enabled now i key d m) s t
  unfolding submit_shadow_intent
  submit_lem ops now i key d m s = ground arith

  create_lem :
      (ops : DecimalOps D) (now : Timestamp) (i : TradeIntent D) (key : String) (s : Store D)
      → let t = (create_intent ops now i key s).1 in Same s t ⊎ Inserts (received_row i key now) s t
  unfolding create_intent
  create_lem ops now i key s = ground arith

  submitted_fits :
      (kill : Bool) (d : RiskDecision D) (m : Option ManualConfirmation)
      → fits none (submitted_status kill d m) ≡ true
  submitted_fits kill d m = ground arith

  pub submit-IsConsistent :
      (ops : DecimalOps D) (now : Timestamp) (i : TradeIntent D) (key : String) (d : RiskDecision D)
      (m : Option ManualConfirmation) (s : Store D)
      → IsConsistent s
      → IsConsistent (submit_shadow_intent ops now i key d m s).1
  submit-IsConsistent ops now i key d m s c = elim (submit_lem ops now i key d m s) [
    | inl same ↦ Same-IsConsistent same c
    | inr added ↦
        Inserts-IsConsistent (submitted_row s.control.kill_switch_enabled now i key d m)
          (submitted_fits s.control.kill_switch_enabled d m) added c
  ]

  pub create-IsConsistent :
      (ops : DecimalOps D) (now : Timestamp) (i : TradeIntent D) (key : String) (s : Store D)
      → IsConsistent s
      → IsConsistent (create_intent ops now i key s).1
  create-IsConsistent ops now i key s c = elim (create_lem ops now i key s) [
    | inl same ↦ Same-IsConsistent same c
    | inr added ↦ Inserts-IsConsistent (received_row i key now) refl added c
  ]
