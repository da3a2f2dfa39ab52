-- ===== src/Mainnet/Service/Tasks.antt =====
-- src/mainnet_read.rs: the steps of the polling task and of the websocket task, in any order, with
-- what other parts of the program do to the store between them.
use hyperliquid_live_executo.Base.{true, false, Option, none, some, ◌≡◌}
use hyperliquid_live_executo.Base.Result.{ok, err, panic}
use hyperliquid_live_executo.Base.Time.{Timestamp}
use hyperliquid_live_executo.Mainnet.{MainnetAccountSnapshot, MainnetHistoryBatch}
use hyperliquid_live_executo.Mainnet.Parse.{Read, MainnetReadError}
use hyperliquid_live_executo.Mainnet.Status.{
  MainnetReadStatus, starting, judge, websocket_opened, websocket_closed,
}
use hyperliquid_live_executo.Mainnet.Service.{
  Service, WsMessage, handle_snapshot, history_due, handle_history, handle_message, closed_text,
}
use hyperliquid_live_executo.Store.State.{Store}
use hyperliquid_live_executo.Store.Snapshots.{configure_mainnet_account}

-- Where the polling task stands: a pass fetches, then asks for history, then judges. A panic ends it.
pub data Poll : Type 0 where
  fetching stored checked stopped : Poll

pub data Socket (D : Type 0) : Type 0 where
  connecting : Socket D
  streaming : Socket D
  ended : Option (MainnetReadError D) → Socket D

pub record Tasks (D : Type 0) : Type 0 where
  pub status : MainnetReadStatus
  pub store : Store D
  pub last_history_attempt : Option Timestamp
  pub poll : Poll
  pub socket : Socket D

-- A panic of a request ends the task.
abbrev next_poll : {D A : Type 0} → Option (Read D A) → Poll → Poll
next_poll none poll = poll
next_poll (some (ok _)) poll = poll
next_poll (some (err _)) poll = poll
next_poll (some panic) poll = stopped

abbrev next_socket : {D : Type 0} → Read D (Unit {0}) → Socket D
next_socket (ok _) = streaming
next_socket (err e) = ended (some e)
next_socket panic = ended none

module _ {D : Type 0} (service : Service D) where
  unfoldable pub start_mainnet_read_service : Store D → Tasks D
  start_mainnet_read_service s = record {
    status = starting service.account;
    store = (configure_mainnet_account service.account s).1;
    last_history_attempt = none;
    poll = fetching;
    socket = connecting;
  }

  unfoldable pub poll_snapshot : Option (Read D (MainnetAccountSnapshot D)) → Tasks D → Tasks D
  poll_snapshot answer tasks =
      let (status, t) = handle_snapshot service answer (tasks.status, tasks.store) in
      record tasks { status = status; store = t; poll = next_poll answer stored }

  unfoldable pub poll_history :
      Timestamp
      → Timestamp
      → Timestamp
      → Option (Read D (MainnetHistoryBatch D))
      → Tasks D
      → Tasks D
  poll_history attempt event_now now answer tasks =
      let (status, t) = handle_history service event_now now answer (tasks.status, tasks.store) in
      record tasks {
        status = status;
        store = t;
        last_history_attempt = some attempt;
        poll = next_poll answer checked;
      }

  unfoldable pub poll_judge : Timestamp → Timestamp → Tasks D → Tasks D
  poll_judge now later tasks = record tasks {
    status = judge service.stale_after now later tasks.status;
    poll = fetching;
  }

  unfoldable pub socket_message : Timestamp → Timestamp → WsMessage → Tasks D → Tasks D
  socket_message now event_now message tasks =
      let (r, after) = handle_message service now event_now message (tasks.status, tasks.store) in
      record tasks { status = after.0; store = after.1; socket = next_socket r }

  unfoldable pub socket_closed : Option (MainnetReadError D) → Tasks D → Tasks D
  socket_closed error tasks = record tasks {
    status = websocket_closed (closed_text service error) tasks.status;
    socket = connecting;
  }

  -- One section of a task.
  pub data Step : Tasks D → Tasks D → Type 0 where
    snapshot :
        (answer : Option (Read D (MainnetAccountSnapshot D))) (s : Tasks D)
        → s.poll ≡ fetching
        → Step s (poll_snapshot answer s)
    history :
        (asked attempt event_now now : Timestamp) (answer : Option (Read D (MainnetHistoryBatch D)))
        (s : Tasks D)
        → s.poll ≡ stored
        → history_due s.last_history_attempt asked ≡ true
        → Step s (poll_history attempt event_now now answer s)
    no_history :
        (now : Timestamp) (s : Tasks D)
        → s.poll ≡ stored
        → history_due s.last_history_attempt now ≡ false
        → Step s (record s { poll = checked })
    judged :
        (now later : Timestamp) (s : Tasks D) → s.poll ≡ checked → Step s (poll_judge now later s)
    opened :
        (s : Tasks D)
        → s.socket ≡ connecting
        → Step s (record s { status = websocket_opened s.status; socket = streaming })
    not_opened :
        (error : MainnetReadError D) (s : Tasks D)
        → s.socket ≡ connecting
        → Step s (record s { socket = ended (some error) })
    message :
        (now event_now : Timestamp) (message : WsMessage) (s : Tasks D)
        → s.socket ≡ streaming
        → Step s (socket_message now event_now message s)
    lost :
        (error : MainnetReadError D) (s : Tasks D)
        → s.socket ≡ streaming
        → Step s (record s { socket = ended (some error) })
    closed :
        (error : Option (MainnetReadError D)) (s : Tasks D)
        → s.socket ≡ ended error
        → Step s (socket_closed error s)
    elsewhere : (t : Store D) (s : Tasks D) → Step s (record s { store = t })

  -- The states that the service passes through.
  pub data Runs (initial : Store D) : Tasks D → Type 0 where
    start : Runs initial (start_mainnet_read_service initial)
    next : {s t : Tasks D} → Runs initial s → Step s t → Runs initial t
