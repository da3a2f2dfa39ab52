-- ===== src/Domain/Status/Text.antt =====
-- The text of a status in the column `status` of `trade_intents`.
use hyperliquid_live_executo.Base.{
  String, ◌≡◌, ◌↔◌, refl, ap, ◌∙◌, Option, none, some, str_eq, inl, inr, read_if, if◌then◌else◌,
}
use hyperliquid_live_executo.Domain.Status.{
  TradeIntentStatus, received, awaiting_confirmation, risk_rejected, shadow_accepted, approved,
  submitting, executing, completed, cancel_pending, canceled, failed,
}

pub status_to_str : TradeIntentStatus → String
status_to_str received = "received"
status_to_str awaiting_confirmation = "awaiting_confirmation"
status_to_str risk_rejected = "risk_rejected"
status_to_str shadow_accepted = "shadow_accepted"
status_to_str approved = "approved"
status_to_str submitting = "submitting"
status_to_str executing = "executing"
status_to_str completed = "completed"
status_to_str cancel_pending = "cancel_pending"
status_to_str canceled = "canceled"
status_to_str failed = "failed"

-- `none` is `StoreError::InvalidStatus` with the text that was read.
pub status_from_str : String → Option TradeIntentStatus
status_from_str status =
    if str_eq status "received"
    then some received
    else if str_eq status "awaiting_confirmation"
    then some awaiting_confirmation
    else if str_eq status "risk_rejected"
    then some risk_rejected
    else if str_eq status "shadow_accepted"
    then some shadow_accepted
    else if str_eq status "approved"
    then some approved
    else if str_eq status "submitting"
    then some submitting
    else if str_eq status "executing"
    then some executing
    else if str_eq status "completed"
    then some completed
    else if str_eq status "cancel_pending"
    then some cancel_pending
    else if str_eq status "canceled"
    then some canceled
    else if str_eq status "failed"
    then some failed
    else none

print-parse : (s : TradeIntentStatus) → status_from_str (status_to_str s) ≡ some s
unfolding status_to_str status_from_str
print-parse received = refl
print-parse _ = refl

parse-print :
    (v : String) (s : TradeIntentStatus) → status_from_str v ≡ some s → v ≡ status_to_str s
unfolding status_to_str status_from_str
parse-print v s h0 = elim (read_if v "received" h0) [
  | inl (p, q) ↦ p ∙ ap status_to_str q
  | inr h1 ↦ elim (read_if v "awaiting_confirmation" h1) [
    | inl (p, q) ↦ p ∙ ap status_to_str q
    | inr h2 ↦ elim (read_if v "risk_rejected" h2) [
      | inl (p, q) ↦ p ∙ ap status_to_str q
      | inr h3 ↦ elim (read_if v "shadow_accepted" h3) [
        | inl (p, q) ↦ p ∙ ap status_to_str q
        | inr h4 ↦ elim (read_if v "approved" h4) [
          | inl (p, q) ↦ p ∙ ap status_to_str q
          | inr h5 ↦ elim (read_if v "submitting" h5) [
            | inl (p, q) ↦ p ∙ ap status_to_str q
            | inr h6 ↦ elim (read_if v "executing" h6) [
              | inl (p, q) ↦ p ∙ ap status_to_str q
              | inr h7 ↦ elim (read_if v "completed" h7) [
                | inl (p, q) ↦ p ∙ ap status_to_str q
                | inr h8 ↦ elim (read_if v "cancel_pending" h8) [
                  | inl (p, q) ↦ p ∙ ap status_to_str q
                  | inr h9 ↦ elim (read_if v "canceled" h9) [
                    | inl (p, q) ↦ p ∙ ap status_to_str q
                    | inr h10 ↦ elim (read_if v "failed" h10) [
                      | inl (p, q) ↦ p ∙ ap status_to_str q
                      | inr h11 ↦ cc
                    ]
                  ]
                ]
              ]
            ]
          ]
        ]
      ]
    ]
  ]
]

-- A text of the column is read as a status exactly when it is the text written for that status:
-- reading back what was written gives the status, and no other text is read as one.
pub status_from_str_iff :
    (v : String) (s : TradeIntentStatus) → (status_from_str v ≡ some s) ↔ (v ≡ status_to_str s)
status_from_str_iff v s = (parse-print v s, λ e. ap status_from_str e ∙ print-parse s)
