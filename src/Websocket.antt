-- ===== src/Websocket.antt =====
-- The web socket client `WsHandler` and the table from contexts to handlers
-- (chicken/device/driver/io/websocket_handler.cpp). A context and a handler are known by numbers.
--
-- libwebsockets is another project's library: what one of its calls does is given as the
-- callbacks that it makes, in order, and what it returns.
pub mod Handlers
pub mod Search
pub mod Table
pub mod Connection
pub mod Lifecycle
mod Tests
use cooboc.Base.{
  ℕ, zero, suc, ◌+◌, ◌-◌, Bool, true, false, ◌||◌, Option, none, some, List, [], ◌∷◌, ◌++◌, ◌==◌,
  if◌then◌else◌, get_or, set, length, take, drop, replicate, ltb,
}
use cooboc.Base.Int.{ℤ, pos, negsuc}
use cooboc.Websocket.Handlers.{
  HandlerMap, rounds, up, register_handler, remove_handler, lookup_handler,
}

abbrev pub status_disconnect : ℕ
status_disconnect = 0

abbrev pub status_connected : ℕ
status_connected = 1

abbrev status_connecting : ℕ
status_connecting = 2

-- The reasons that `plainProtocolCallback` acts on, and all the others.
pub data Reason : Type 0 where
  client_established closed client_writeable other : Reason
  client_receive : List ℕ → Reason

-- `WsHandler`, with its table entry's world: `ctx` is `mWsContext`, `received` is
-- `mReceivedMessage` up to its terminating 0, and `written` what `libwebsocket_write` was given.
pub record WsHandler : Type 0 where
  pub is_good : Bool
  pub is_running : Bool
  pub ws_status : ℕ
  pub ctx : ℕ
  pub send_buffer : List ℕ
  pub received : List ℕ
  pub has_new_message : Bool
  pub written : List (List ℕ)
  pub handler_map : HandlerMap

-- The constructor, over the table as it is; the context is not yet made, and is given.
unfoldable pub new_ws_handler : HandlerMap → ℕ → WsHandler
new_ws_handler m ctx = record {
  is_good = false;
  is_running = true;
  ws_status = status_disconnect;
  ctx = ctx;
  send_buffer = [];
  received = [];
  has_new_message = false;
  written = [];
  handler_map = m;
}

-- The destructor ends the daemon, and the context keeps its entry.
close_handler : WsHandler → WsHandler
close_handler w = record w { is_running = false }

-- `setWsStatus`
pub set_ws_status : WsHandler → ℕ → WsHandler
unfolding remove_handler
set_ws_status w status =
    let w' = record w { ws_status = status } in
    if status == status_disconnect
    then record w' { is_good = false; handler_map = remove_handler w.handler_map w.ctx }
    else if status == status_connected
    then record w' { is_good = true }
    else w'

-- `onMessageReceived`: `strncpy` stops at a 0 byte. A message is taken to fit the 1024 bytes of
-- `mReceivedMessage` with its end, which the code does not check.
unfoldable pub until_zero : List ℕ → List ℕ
until_zero [] = []
until_zero (b ∷ bs) = let rest = until_zero bs in if b == 0 then [] else b ∷ rest

on_message_received : WsHandler → List ℕ → WsHandler
unfolding until_zero
on_message_received w data_bytes = record w {
  received = until_zero data_bytes;
  has_new_message = true;
}

do_send_text : WsHandler → WsHandler
do_send_text w = record w { written = w.written ++ (w.send_buffer ∷ []) }

-- `plainProtocolCallback` for this handler's context; `me` is the handler's number. A handler that
-- the table does not give is NULL, and nothing is done.
pub callback : ℕ → WsHandler → Reason → WsHandler
unfolding set_ws_status do_send_text on_message_received lookup_handler
callback me w reason = elim (lookup_handler w.handler_map w.ctx) [
  | none ↦ w
  | some h ↦ if h == me then act reason else w
]
  where
    act : Reason → WsHandler
    act client_established = set_ws_status w status_connected
    act closed = set_ws_status w status_disconnect
    act client_writeable = do_send_text w
    act (client_receive bytes) = on_message_received w bytes
    act other = w

pub callbacks : ℕ → WsHandler → List Reason → WsHandler
callbacks me w [] = w
callbacks me w (r ∷ rs) = callbacks me (callback me w r) rs

-- A call of `libwebsocket_service`: the callbacks that it makes, and whether it returns less than 0.
pub record Service : Type 0 where
  pub reasons : List Reason
  pub failed : Bool

pub touch_server : ℕ → WsHandler → Service → WsHandler
unfolding remove_handler
touch_server me w s =
    let w' = callbacks me w s.reasons in
    if s.failed
    then record w' {
      ws_status = status_disconnect;
      is_good = false;
      handler_map = remove_handler w'.handler_map w'.ctx;
    }
    else w'

-- `connectServer`: `new_ctx` is the context made; `connected` says that a socket came back, and
-- `early` are the callbacks made before it did. `none` is a write outside the table.
pub connect_server : ℕ → WsHandler → ℕ → List Reason → Bool → Service → Option WsHandler
unfolding register_handler remove_handler
connect_server me w new_ctx early connected s = elim (register_handler w.handler_map new_ctx me) [
  | none ↦ none
  | some m ↦
      let w1 = callbacks me (record w { ctx = new_ctx; handler_map = m }) early in
      if connected
      then some (
          let w2 = callbacks me (record w1 { ws_status = status_connecting }) s.reasons in
          if s.failed
          then record w2 {
            ws_status = status_disconnect;
            handler_map = remove_handler w2.handler_map w2.ctx;
          }
          else w2)
      else some w1
]

-- `sendText`, with the `touchServer` that it makes; the second part is the result.
pub send_text : ℕ → WsHandler → List ℕ → Service → WsHandler × Bool
unfolding touch_server
send_text me w text s =
    let w' = if w.is_good then touch_server me (record w { send_buffer = text }) s else w in
    (w', w'.is_good)

unfoldable pub get_received_message : WsHandler → WsHandler × List ℕ
get_received_message w = (record w { has_new_message = false }, w.received)

-- One round of `startWebsocketDaemon`: what the library does, should the round connect or touch.
pub record Attempt : Type 0 where
  pub new_ctx : ℕ
  pub early : List Reason
  pub connected : Bool
  pub service : Service

pub daemon_round : ℕ → WsHandler → Attempt → Option WsHandler
unfolding connect_server touch_server
daemon_round me w a =
    if w.ws_status == status_disconnect
    then connect_server me w a.new_ctx a.early a.connected a.service
    else if w.ws_status == status_connecting || w.ws_status == status_connected
    then some (touch_server me w a.service)
    else some w

-- The daemon over its rounds, while it is to run.
pub daemon : ℕ → WsHandler → List Attempt → Option WsHandler
daemon me w [] = some w
daemon me w (a ∷ as') = elim w.is_running [
  | false ↦ some w
  | true ↦ elim (daemon_round me w a) [ none ↦ none | some w' ↦ daemon me w' as' ]
]
