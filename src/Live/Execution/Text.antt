-- ===== src/Live/Execution/Text.antt =====
-- src/store.rs: the text of a live status in the column `status` of `live_executions`.
use hyperliquid_live_executo.Base.{
  String, ◌≡◌, ◌↔◌, refl, ap, ◌∙◌, Option, none, some, str_eq, inl, inr, read_if, if◌then◌else◌,
}
use hyperliquid_live_executo.Live.Execution.{
  LiveExecutionStatus, pending, entry_submitting, entry_unknown, entry_filled, protecting,
  protected, emergency_closing, closed, failed, reconciliation_required,
}

pub live_execution_status_str : LiveExecutionStatus → String
live_execution_status_str pending = "pending"
live_execution_status_str entry_submitting = "entry_submitting"
live_execution_status_str entry_unknown = "entry_unknown"
live_execution_status_str entry_filled = "entry_filled"
live_execution_status_str protecting = "protecting"
live_execution_status_str protected = "protected"
live_execution_status_str emergency_closing = "emergency_closing"
live_execution_status_str closed = "closed"
live_execution_status_str failed = "failed"
live_execution_status_str reconciliation_required = "reconciliation_required"

-- `none` is `StoreError::InvalidStatus` with the text that was read.
pub parse_live_execution_status : String → Option LiveExecutionStatus
parse_live_execution_status value =
    if str_eq value "pending"
    then some pending
    else if str_eq value "entry_submitting"
    then some entry_submitting
    else if str_eq value "entry_unknown"
    then some entry_unknown
    else if str_eq value "entry_filled"
    then some entry_filled
    else if str_eq value "protecting"
    then some protecting
    else if str_eq value "protected"
    then some protected
    else if str_eq value "emergency_closing"
    then some emergency_closing
    else if str_eq value "closed"
    then some closed
    else if str_eq value "failed"
    then some failed
    else if str_eq value "reconciliation_required"
    then some reconciliation_required
    else none

print-parse :
    (s : LiveExecutionStatus) → parse_live_execution_status (live_execution_status_str s) ≡ some s
unfolding live_execution_status_str parse_live_execution_status
print-parse pending = refl
print-parse _ = refl

parse-print :
    (v : String) (s : LiveExecutionStatus)
    → parse_live_execution_status v ≡ some s
    → v ≡ live_execution_status_str s
unfolding live_execution_status_str parse_live_execution_status
parse-print v s h0 = elim (read_if v "pending" h0) [
  | inl (p, q) ↦ p ∙ ap live_execution_status_str q
  | inr h1 ↦ elim (read_if v "entry_submitting" h1) [
    | inl (p, q) ↦ p ∙ ap live_execution_status_str q
    | inr h2 ↦ elim (read_if v "entry_unknown" h2) [
      | inl (p, q) ↦ p ∙ ap live_execution_status_str q
      | inr h3 ↦ elim (read_if v "entry_filled" h3) [
        | inl (p, q) ↦ p ∙ ap live_execution_status_str q
        | inr h4 ↦ elim (read_if v "protecting" h4) [
          | inl (p, q) ↦ p ∙ ap live_execution_status_str q
          | inr h5 ↦ elim (read_if v "protected" h5) [
            | inl (p, q) ↦ p ∙ ap live_execution_status_str q
            | inr h6 ↦ elim (read_if v "emergency_closing" h6) [
              | inl (p, q) ↦ p ∙ ap live_execution_status_str q
              | inr h7 ↦ elim (read_if v "closed" h7) [
                | inl (p, q) ↦ p ∙ ap live_execution_status_str q
                | inr h8 ↦ elim (read_if v "failed" h8) [
                  | inl (p, q) ↦ p ∙ ap live_execution_status_str q
                  | inr h9 ↦ elim (read_if v "reconciliation_required" h9) [
                    | inl (p, q) ↦ p ∙ ap live_execution_status_str q
                    | inr h10 ↦ cc
                  ]
                ]
              ]
            ]
          ]
        ]
      ]
    ]
  ]
]

-- A text of the column is read as a live status exactly when it is the text written for it.
pub parse_live_execution_status_iff :
    (v : String) (s : LiveExecutionStatus)
    → (parse_live_execution_status v ≡ some s) ↔ (v ≡ live_execution_status_str s)
parse_live_execution_status_iff v s =
    (parse-print v s, λ e. ap parse_live_execution_status e ∙ print-parse s)
