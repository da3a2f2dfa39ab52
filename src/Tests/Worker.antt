-- ===== src/Tests/Worker.antt =====
-- A pass of the worker on a confirmed intent, with gateways that answer in each way.
use hyperliquid_live_executo.Base.{ℕ, ◌≡◌, refl, true, false, none, some, ◌+◌}
use hyperliquid_live_executo.Base.Result.{Result, ok, err}
use hyperliquid_live_executo.Base.Int.{ℤ}
use hyperliquid_live_executo.Base.Time.{Timestamp, seconds}
use hyperliquid_live_executo.Decimal.Fixed.{fixed}
use hyperliquid_live_executo.Live.Execution
use hyperliquid_live_executo.Live.Execution.{
  ConfirmedFill, GatewayFailure, definite, outcome_unknown,
}
use hyperliquid_live_executo.Base.Table
use hyperliquid_live_executo.Domain.Status
use hyperliquid_live_executo.Store.State.{Store, execution_key}
use hyperliquid_live_executo.Store.Executions.{claim_next_live_execution, next_candidate}
use hyperliquid_live_executo.Store.Transitions.{finish_live_transition}
use hyperliquid_live_executo.Store.Consistency.Steps.{claimed}
use hyperliquid_live_executo.Worker.Halts.{forced_transition_halts}
use hyperliquid_live_executo.Store.Intents.{submit_shadow_intent}
use hyperliquid_live_executo.Store.Confirm.{confirm_intent_for_execution}
use hyperliquid_live_executo.Store.Reconciliation.{reconciliation_state}
use hyperliquid_live_executo.Store.Reach.{Reachable-IsConsistent}
use hyperliquid_live_executo.Worker.{Gateway, run_once}
use hyperliquid_live_executo.Worker.Settles.{Ready, status_of, rejected_settles, unknown_settles}
use hyperliquid_live_executo.Worker.Closes.{unprotected_settles}
use hyperliquid_live_executo.Worker.Protects.{protected_settles}
use hyperliquid_live_executo.Live.Cloid.{stable_name, deterministic_cloid}
use hyperliquid_live_executo.Store.Orders.{
  record_live_entry_fill, record_live_protection_orders, insert_targets,
}
use hyperliquid_live_executo.Tests.Data.{order, usd, sha256}
use hyperliquid_live_executo.Tests.Store.{
  confirmed, confirmed-Reachable, approved_row, waiting, is_next,
}

abbrev pub clock : ℕ → Timestamp
clock n = seconds (26 + n)

abbrev pub bought : ConfirmedFill ℤ
bought = record { exchange_oid = 99; size = usd 1; average_price = usd 100 }

-- A gateway by its three answers.
abbrev answers :
    Result GatewayFailure (ConfirmedFill ℤ)
    → Result GatewayFailure (Unit {0})
    → Result GatewayFailure (Unit {0})
    → Gateway ℤ
answers entry protection close = record {
  submit_entry = λ _ _ _. entry;
  establish_protection = λ _ _. protection;
  emergency_close = λ _ _ _. close;
}

abbrev refuses : Gateway ℤ
refuses = answers (err (definite "no margin")) (ok tt) (ok tt)

abbrev loses : Gateway ℤ
loses = answers (err (outcome_unknown "timeout")) (ok tt) (ok tt)

abbrev pub unprotected : Gateway ℤ
unprotected = answers (ok bought) (err (definite "no trigger order")) (ok tt)

pub ready :
    (gateway : Gateway ℤ)
    → Ready fixed sha256 gateway clock "0xabc" confirmed waiting approved_row (usd 20)
unfolding submit_shadow_intent confirm_intent_for_execution reconciliation_state
ready gateway = (Reachable-IsConsistent fixed sha256 confirmed-Reachable, refl, is_next, refl, refl)

rejected_settles_example :
    let out = run_once fixed sha256 refuses clock "0xabc" confirmed in
    (out.0 ≡ ok true) × (status_of 7 out.1 ≡ some Execution.failed)
rejected_settles_example =
    rejected_settles fixed sha256 refuses clock "0xabc" confirmed waiting approved_row (usd 20)
      "no margin" (ready refuses) refl

unknown_settles_example :
    let out = run_once fixed sha256 loses clock "0xabc" confirmed in
    (out.0 ≡ ok true) × (status_of 7 out.1 ≡ some Execution.entry_unknown)
unknown_settles_example =
    unknown_settles fixed sha256 loses clock "0xabc" confirmed waiting approved_row (usd 20)
      "timeout" (ready loses) refl

unprotected_settles_example :
    let out = run_once fixed sha256 unprotected clock "0xabc" confirmed in
    (out.0 ≡ ok true) × (status_of 7 out.1 ≡ some Execution.closed)
unfolding submit_shadow_intent confirm_intent_for_execution
unprotected_settles_example =
    unprotected_settles fixed sha256 unprotected clock "0xabc" confirmed waiting approved_row
      (usd 20) bought (definite "no trigger order") none (ready unprotected) refl refl refl refl

-- The store after the claim, and after the loss of its entry.
abbrev entering : Store ℤ
entering = (claim_next_live_execution (seconds 26) "0xabc" confirmed).1

abbrev lost : Store ℤ
lost =
    (finish_live_transition (seconds 27) 7 Execution.entry_submitting Execution.entry_unknown
      Status.submitting Status.failed "entry_outcome_unknown" (some "timeout") true entering).1

claimed_found : Table.find execution_key 7 entering.executions ≡ some (claimed (seconds 26) waiting)
unfolding submit_shadow_intent confirm_intent_for_execution claim_next_live_execution next_candidate
claimed_found = refl

loss_recorded :
    finish_live_transition
      (seconds 27)
      7
      Execution.entry_submitting
      Execution.entry_unknown
      Status.submitting
      Status.failed
      "entry_outcome_unknown"
      (some "timeout")
      true
      entering
    ≡ (ok tt, lost)
unfolding submit_shadow_intent confirm_intent_for_execution claim_next_live_execution next_candidate
    finish_live_transition
loss_recorded = refl

forced_transition_halts_example :
    run_once fixed sha256 refuses clock "0xabc" lost ≡ (ok false, lost)
forced_transition_halts_example =
    forced_transition_halts fixed sha256 refuses clock (seconds 27) 7 Execution.entry_submitting
      Execution.entry_unknown Status.submitting Status.failed "entry_outcome_unknown"
      (some "timeout") entering lost (claimed (seconds 26) waiting) claimed_found loss_recorded

abbrev serves : Gateway ℤ
serves = answers (ok bought) (ok tt) (ok tt)

pub orders_recorded :
    (record_live_protection_orders fixed sha256
      (clock 2)
      (clock 3)
      order
      bought
      (record_live_entry_fill (clock 1) 7 bought entering).1).0
    ≡ ok tt
unfolding submit_shadow_intent confirm_intent_for_execution claim_next_live_execution next_candidate
    record_live_entry_fill record_live_protection_orders insert_targets deterministic_cloid
    stable_name
orders_recorded = refl

protected_settles_example :
    let out = run_once fixed sha256 serves clock "0xabc" confirmed in
    (out.0 ≡ ok true) × (status_of 7 out.1 ≡ some Execution.protected)
unfolding submit_shadow_intent confirm_intent_for_execution
protected_settles_example =
    protected_settles fixed sha256 serves clock "0xabc" confirmed waiting approved_row (usd 20)
      bought (ready serves) refl refl refl orders_recorded
