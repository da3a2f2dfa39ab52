-- ===== src/Tests/Api.antt =====
-- Requests to the service on concrete values.
use hyperliquid_live_executo.Base.{ℕ, ◌≡◌, refl, inl, length, false, none, some, arith}
use hyperliquid_live_executo.Base.Int.{ℤ, pos}
use hyperliquid_live_executo.Base.Result.{err}
use hyperliquid_live_executo.Base.Text.{bytes, is_blank}
use hyperliquid_live_executo.Base.Time.{Timestamp, seconds}
use hyperliquid_live_executo.Decimal.Fixed.{fixed}
use hyperliquid_live_executo.Domain.Validation
use hyperliquid_live_executo.Engine
use hyperliquid_live_executo.Store.Confirm.{confirm_intent_for_execution}
use hyperliquid_live_executo.Store.Intents.{submit_shadow_intent}
use hyperliquid_live_executo.Api.Errors.{Texts, bad_request, from_engine, into_response}
use hyperliquid_live_executo.Api.Reads.Pages.{pages, pages_enumerate}
use hyperliquid_live_executo.Api.Requests.{ApiState, create, handle, create_intent, idempotency_key}
use hyperliquid_live_executo.Api.Requests.Refusals.{refused_unchanged}
use hyperliquid_live_executo.Tests.Data.{order, sha256}
use hyperliquid_live_executo.Tests.Engine.{engine, digest_of, view}
use hyperliquid_live_executo.Tests.Store.{confirmed, confirmed-Reachable}

abbrev texts : Texts
texts = record {
  of_store = λ _. "store";
  of_validation = λ _. "invalid";
  of_serialization = "json";
  of_reasons = λ _. "risk";
}

abbrev pub state : ApiState ℤ
state = record {
  ops = fixed;
  digest_of = digest_of;
  view = view;
  sha256 = sha256;
  engine = engine;
  texts = texts;
  mainnet_read = none;
  wallet_loaded = false;
}

abbrev clock : ℕ → Timestamp
clock _ = seconds 100

-- The intent has expired.
refuses :
    (handle state clock (create (some "key-2") order) confirmed).0 ≡ err (bad_request "invalid")
unfolding handle create_intent idempotency_key bytes is_blank Engine.submit Validation.validate
    Validation.valid_identifier Validation.valid_symbol Validation.valid_take_profit
    Validation.exit_direction_valid from_engine Engine.ensure_reconciliation_ready
refuses = refl

refused_unchanged_example :
    (handle state clock (create (some "key-2") order) confirmed).1 ≡ confirmed
unfolding into_response
refused_unchanged_example =
    refused_unchanged state clock (create (some "key-2") order) confirmed (bad_request "invalid")
      refuses (inl refl)

four_events : length confirmed.events ≡ 4
unfolding submit_shadow_intent confirm_intent_for_execution
four_events = refl

-- The four events of the store, two on a page.
pages_enumerate_example : pages 4 2 (pos 0) confirmed ≡ confirmed.events
pages_enumerate_example =
    pages_enumerate fixed sha256 4 2 confirmed confirmed-Reachable (omega (arith, four_events))
