-- ===== src/Tests/Store.antt =====
-- The store on concrete calls: a submission, its confirmation for execution, and the claim.
use hyperliquid_live_executo.Base.{
  ◌≡◌, refl, true, false, [], ◌∷◌, none, some, ◌⊎◌, str_eq, map, ◌+◌, ◌*◌, ◌^◌,
}
use hyperliquid_live_executo.Base.Result.{ok}
use hyperliquid_live_executo.Base.Int.{ℤ, pos}
use hyperliquid_live_executo.Base.Table
use hyperliquid_live_executo.Base.Time.{seconds}
use hyperliquid_live_executo.Decimal.Fixed.{fixed, fixed-OrderLaws}
use hyperliquid_live_executo.Domain.Status
use hyperliquid_live_executo.Domain.Status.{same_status, can_transition_to}
use hyperliquid_live_executo.Live.Cloid.{entry, deterministic_cloid, stable_name}
use hyperliquid_live_executo.Live.Execution.{LiveExecution}
use hyperliquid_live_executo.Store.State.{Store, StoredIntent, intent_key, execution_key}
use hyperliquid_live_executo.Store.Intents.{
  create_intent, transition_intent, submit_shadow_intent, set_kill_switch, submitted_row,
  kill_switch_enabled, events_after,
}
use hyperliquid_live_executo.Store.Intents.Idempotent.{submit_again}
use hyperliquid_live_executo.Store.Confirm.{
  confirm_intent_for_execution, pending_execution, with_confirmed, with_status,
}
use hyperliquid_live_executo.Store.Confirm.Bound.{Approved, approval_bound}
use hyperliquid_live_executo.Store.Executions.{
  claim_next_live_execution, next_candidate, get_live_execution, unresolved_live_execution_count,
}
use hyperliquid_live_executo.Store.Consistency.{IsConsistent, rows_fit}
use hyperliquid_live_executo.Store.Consistency.Steps.{claimed, submitting_row}
use hyperliquid_live_executo.Store.Consistency.Success.{Rows}
use hyperliquid_live_executo.Store.Consistency.Claimed.{claims}
use hyperliquid_live_executo.Store.Reach.{
  Reachable, empty, start, next, submit, approve, Reachable-IsConsistent,
}
use hyperliquid_live_executo.Tests.Data.{order, decision, request, sha256}

abbrev pub submitted : Store ℤ
submitted =
    (submit_shadow_intent fixed (seconds 20) order "key-1" decision (some request) (empty 0)).1

abbrev pub awaiting : StoredIntent ℤ
awaiting = submitted_row false (seconds 20) order "key-1" decision (some request)

abbrev pub confirmed : Store ℤ
confirmed =
    (confirm_intent_for_execution sha256 (seconds 25) 7 "digest-1" "operator" "0xabc" submitted).1

abbrev pub approved_row : StoredIntent ℤ
approved_row =
    with_confirmed (seconds 25) "operator"
      (with_status Status.approved "manually_confirmed_for_execution" (seconds 25) awaiting)

abbrev pub waiting : LiveExecution
waiting = pending_execution (seconds 25) 7 "0xabc" (deterministic_cloid sha256 7 entry)

pub confirmed-Reachable : Reachable fixed sha256 confirmed
confirmed-Reachable =
    next (next (start 0) (submit (seconds 20) order "key-1" decision (some request) (empty 0)))
      (approve (seconds 25) 7 "digest-1" "operator" "0xabc" submitted)

Reachable-IsConsistent_example : IsConsistent confirmed
Reachable-IsConsistent_example = Reachable-IsConsistent fixed sha256 confirmed-Reachable

-- An intent that `transition_intent` approves has no execution, so that such a call is none of the
-- steps.
abbrev approved_alone : Store ℤ
approved_alone =
    (transition_intent (seconds 21) 7 Status.approved none
      (create_intent fixed (seconds 20) order "key-1" (empty 0)).1).1

approved_alone-unfit :
    rows_fit
      (Table.find execution_key 7 approved_alone.executions)
      (Table.find intent_key 7 approved_alone.intents)
    ≡ false
unfolding transition_intent create_intent can_transition_to
approved_alone-unfit = refl

stored :
    submit_shadow_intent fixed (seconds 20) order "key-1" decision (some request) (empty 0)
    ≡ (ok (awaiting, true), submitted)
unfolding submit_shadow_intent
stored = refl

submit_again_example :
    submit_shadow_intent fixed (seconds 30) order "key-1" decision none submitted
    ≡ (ok (awaiting, false), submitted)
submit_again_example =
    submit_again fixed fixed-OrderLaws (seconds 20) (seconds 30) order "key-1" decision decision
      (some request) none (empty 0) submitted awaiting true stored

approves :
    confirm_intent_for_execution sha256 (seconds 25) 7 "digest-1" "operator" "0xabc" submitted
    ≡ (ok approved_row, confirmed)
unfolding submit_shadow_intent confirm_intent_for_execution
approves = refl

approval_bound_example :
    (str_eq "digest-1" "digest-1" ≡ true)
    × (((same_status Status.awaiting_confirmation Status.approved ≡ true)
          × (approved_row ≡ awaiting)
          × (confirmed ≡ submitted))
        ⊎ Approved sha256
            (seconds 25)
            7
            "digest-1"
            "operator"
            "0xabc"
            awaiting
            request
            submitted
            confirmed)
unfolding submit_shadow_intent
approval_bound_example =
    approval_bound sha256 (seconds 25) 7 "digest-1" "operator" "0xabc" submitted confirmed awaiting
      approved_row request refl refl approves

abbrev halted : Store ℤ
halted = (set_kill_switch (seconds 22) true none submitted).1

pub is_next : next_candidate "0xabc" confirmed ≡ some waiting
unfolding submit_shadow_intent confirm_intent_for_execution next_candidate
is_next = refl

claims_example :
    let out = claim_next_live_execution (seconds 26) "0xabc" confirmed in
    (out.0 ≡ ok (some (claimed (seconds 26) waiting, submitting_row (seconds 26) approved_row)))
    × Rows 7 (claimed (seconds 26) waiting) (submitting_row (seconds 26) approved_row) out.1
unfolding submit_shadow_intent confirm_intent_for_execution
claims_example =
    claims (seconds 26) "0xabc" confirmed waiting approved_row
      (Reachable-IsConsistent fixed sha256 confirmed-Reachable) is_next refl

get_live_execution-waiting : get_live_execution 7 confirmed ≡ some waiting
unfolding get_live_execution submit_shadow_intent confirm_intent_for_execution
get_live_execution-waiting = refl

unresolved_count :
    unresolved_live_execution_count "0xabc"
      (claim_next_live_execution (seconds 26) "0xabc" confirmed).1
    ≡ 1
unfolding unresolved_live_execution_count claim_next_live_execution next_candidate
    submit_shadow_intent confirm_intent_for_execution
unresolved_count = refl

kill_switch_enabled-halted : kill_switch_enabled halted ≡ true
unfolding kill_switch_enabled set_kill_switch
kill_switch_enabled-halted = refl

events_after-second : map (λ e. e.cursor) (events_after (pos 1) 2 confirmed) ≡ 2 ∷ 3 ∷ []
unfolding events_after submit_shadow_intent confirm_intent_for_execution
events_after-second = refl

-- A digest of sixteen bytes with the version 5 and the variant of a name-based UUID.
cloid-entry : deterministic_cloid sha256 7 entry ≡ 0x91020304050657088 * 16 ^ 15 + 0x90a0b0c0d0e0f10
unfolding deterministic_cloid stable_name
cloid-entry = refl
