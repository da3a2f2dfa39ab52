-- ===== src/Gateway/Answers.antt =====
-- src/live_gateway.rs: what the answer to an order means: `response_statuses`, `confirmed_fill`,
-- `submission_accepted` and `require_all_accepted`. `parse` reads a decimal.
use hyperliquid_live_executo.Base.{
  Bool, true, false, List, [], ◌∷◌, String, Option, none, some, all,
}
use hyperliquid_live_executo.Base.Result.{Result, ok, err, panic, ◌>>=◌}
use hyperliquid_live_executo.Live.Execution.{
  ConfirmedFill, GatewayFailure, definite, outcome_unknown,
}
use hyperliquid_live_executo.Gateway.Sdk.{
  ExchangeDataStatus, ExchangeResponseStatus, FilledOrder, accepted, refused, waiting_for_fill,
  waiting_for_trigger, error, resting, filled,
}

abbrev pub Call : Type 0 → Type 0
Call A = Result GatewayFailure A

module _ {A : Type 0} where
  -- `.map_err(|error| GatewayFailure::OutcomeUnknown(error.to_string()))`
  abbrev pub sent : Result String A → Call A
  sent (ok a) = ok a
  sent (err e) = err (outcome_unknown e)
  sent panic = panic

  -- `.ok_or_else(…)`
  abbrev pub or_failure : GatewayFailure → Option A → Call A
  or_failure failure none = err failure
  or_failure failure (some a) = ok a

unfoldable pub response_statuses : ExchangeResponseStatus → Call (List ExchangeDataStatus)
response_statuses (accepted none) = err (outcome_unknown "exchange response omitted order statuses")
response_statuses (accepted (some statuses)) = ok statuses
response_statuses (refused e) = err (definite e)

abbrev unconfirmed : GatewayFailure
unconfirmed = outcome_unknown "IOC response did not contain one confirmed fill"

abbrev ambiguous : GatewayFailure
ambiguous = outcome_unknown "IOC submission response was ambiguous"

module _ {D : Type 0} (parse : String → Option D) where
  abbrev fill_of : FilledOrder → Call (ConfirmedFill D)
  fill_of fill = do
    size ← or_failure (outcome_unknown "exchange returned invalid fill size") (parse fill.total_sz)
    average_price ←
        or_failure (outcome_unknown "exchange returned invalid average price") (parse fill.avg_px)
    ok (record { exchange_oid = fill.oid; size = size; average_price = average_price })

  abbrev confirmed_by : List ExchangeDataStatus → Call (ConfirmedFill D)
  confirmed_by [] = err unconfirmed
  confirmed_by (_ ∷ _ ∷ _) = err unconfirmed
  confirmed_by (filled fill ∷ []) = fill_of fill
  confirmed_by (error e ∷ []) = err (definite e)
  confirmed_by (_ ∷ []) = err unconfirmed

  unfoldable pub confirmed_fill : ExchangeResponseStatus → Call (ConfirmedFill D)
  unfolding response_statuses
  confirmed_fill response = do statuses ← response_statuses response; confirmed_by statuses

abbrev accepted_by : List ExchangeDataStatus → Call (Unit {0})
accepted_by [] = err ambiguous
accepted_by (_ ∷ _ ∷ _) = err ambiguous
accepted_by (filled _ ∷ []) = ok tt
accepted_by (waiting_for_fill ∷ []) = ok tt
accepted_by (error e ∷ []) = err (definite e)
accepted_by (_ ∷ []) = err ambiguous

unfoldable pub submission_accepted : ExchangeResponseStatus → Call (Unit {0})
unfolding response_statuses
submission_accepted response = do statuses ← response_statuses response; accepted_by statuses

abbrev pub is_accepted : ExchangeDataStatus → Bool
is_accepted waiting_for_trigger = true
is_accepted (resting _) = true
is_accepted _ = false

-- The first status that is an error.
abbrev first_error : List ExchangeDataStatus → Option String
first_error [] = none
first_error (error e ∷ _) = some e
first_error (_ ∷ rest) = first_error rest

abbrev protection_refused : Option String → GatewayFailure
protection_refused none = outcome_unknown "protection response was not fully accepted"
protection_refused (some e) = definite e

unfoldable pub require_all_accepted : ExchangeResponseStatus → Call (Unit {0})
unfolding response_statuses
require_all_accepted response = do
  statuses ← response_statuses response
  elim (all is_accepted statuses) [
    | true ↦ ok tt
    | false ↦ err (protection_refused (first_error statuses))
  ]
