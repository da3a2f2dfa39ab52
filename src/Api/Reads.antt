-- ===== src/Api/Reads.antt =====
-- src/api.rs: the handlers that read: `get_intent`, `get_events`, `ready`, `mainnet_snapshot` and the
-- payload of the console's stream.
pub mod Pages
use hyperliquid_live_executo.Base.{
  ℕ, ◌+◌, ◌-◌, ◌^◌, Bool, not, ◌||◌, List, [], ◌∷◌, String, Option, none, some, leb, if◌then◌else◌,
}
use hyperliquid_live_executo.Base.Int.{ℤ, pos, negsuc}
use hyperliquid_live_executo.Base.Result.{Result, ok, err}
use hyperliquid_live_executo.Base.Time.{Timestamp}
use hyperliquid_live_executo.Mainnet.{MainnetAccountSnapshot}
use hyperliquid_live_executo.Mainnet.Status.{MainnetReadStatus}
use hyperliquid_live_executo.Store.State.{Store, StoredIntent, ExecutionEvent}
use hyperliquid_live_executo.Store.Intents
use hyperliquid_live_executo.Store.Intents.{events_after, kill_switch_enabled}
use hyperliquid_live_executo.Store.Snapshots.{latest_mainnet_snapshot}
use hyperliquid_live_executo.Api.Errors.{ApiError, not_found}
use hyperliquid_live_executo.Api.Requests.{ApiState, mainnet_status_value}

pub record EventPage (D : Type 0) : Type 0 where
  pub events : List (ExecutionEvent D)
  pub next_cursor : ℤ

-- `ready` and `status` of the console: what is reported beside the status of the read service.
pub record ReadyReport : Type 0 where
  pub ready : Bool
  pub kill_switch_enabled : Bool
  pub policy_version : String
  pub wallet_loaded : Bool
  pub mainnet_read : MainnetReadStatus

pub record ConsolePayload (D : Type 0) : Type 0 where
  pub sequence : ℕ
  pub emitted_at : Timestamp
  pub ready : ReadyReport
  pub snapshot : Option (MainnetAccountSnapshot D)
  pub page : EventPage D

-- `after.max(0)`
abbrev pub from_zero : ℤ → ℤ
from_zero (pos n) = pos n
from_zero (negsuc _) = pos 0

-- `limit.max(1)`
abbrev pub at_least_one : ℕ → ℕ
at_least_one n = if leb 1 n then n else 1

-- `saturating_add(1)` on a u64
abbrev next_sequence : ℕ → ℕ
next_sequence n = if leb (2 ^ 64 - 1) n then 2 ^ 64 - 1 else n + 1

-- `.ok_or(ApiError::NotFound)`
abbrev found : {A : Type 0} → Option A → Result ApiError A
found none = err not_found
found (some a) = ok a

module _ {D : Type 0} where
  -- `events.last().map(|event| event.cursor).unwrap_or(cursor)`
  abbrev pub last_cursor : ℤ → List (ExecutionEvent D) → ℤ
  last_cursor cursor [] = cursor
  last_cursor cursor (e ∷ es) = last_cursor (pos e.cursor) es

  unfoldable pub get_events : ℤ → ℕ → Store D → EventPage D
  get_events after limit s =
      let events : List (ExecutionEvent D) =
        events_after (from_zero after) (at_least_one limit) s in
      record { events = events; next_cursor = last_cursor (from_zero after) events }

  unfoldable pub get_intent : ℕ → Store D → Result ApiError (StoredIntent D)
  get_intent id s = found (Intents.get_intent id s)

module _ {D : Type 0} (state : ApiState D) where
  abbrev mainnet : MainnetReadStatus
  mainnet = mainnet_status_value state.mainnet_read

  abbrev report : Store D → ReadyReport
  report s = record {
    ready = not mainnet.configured || mainnet.ready;
    kill_switch_enabled = kill_switch_enabled s;
    policy_version = state.engine.policy.version;
    wallet_loaded = state.wallet_loaded;
    mainnet_read = mainnet;
  }

  -- The status code, and what is reported.
  unfoldable pub ready : Store D → ℕ × ReadyReport
  ready s = (if (report s).ready then 200 else 503, report s)

  abbrev snapshot_of : Option String → Store D → Option (MainnetAccountSnapshot D)
  snapshot_of none s = none
  snapshot_of (some address) s = latest_mainnet_snapshot address s

  unfoldable pub mainnet_snapshot : Store D → Result ApiError (MainnetAccountSnapshot D)
  mainnet_snapshot s = found (snapshot_of mainnet.account_address s)

  unfoldable pub console_stream_payload : ℤ → ℕ → Timestamp → Store D → ConsolePayload D
  console_stream_payload event_cursor sequence now s =
      let events : List (ExecutionEvent D) = events_after event_cursor 100 s in
      record {
        sequence = sequence;
        emitted_at = now;
        ready = report s;
        snapshot = snapshot_of mainnet.account_address s;
        page = record { events = events; next_cursor = last_cursor event_cursor events };
      }

  -- One tick of the stream: what is sent, and the cursor and the sequence after it.
  unfoldable pub console_tick : ℤ → ℕ → Timestamp → Store D → ConsolePayload D × ℤ × ℕ
  unfolding console_stream_payload
  console_tick event_cursor sequence now s =
      let payload : ConsolePayload D =
        console_stream_payload event_cursor (next_sequence sequence) now s in
      (payload, payload.page.next_cursor, next_sequence sequence)
