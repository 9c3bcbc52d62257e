-- ===== src/Websocket/Tests.antt =====
-- Runs of chicken/device/driver/io/websocket_handler.cpp over a table of four entries.
use cooboc.Base.{ℕ, ◌≡◌, refl, true, false, none, some, [], ◌∷◌, ◌==◌, arith, map, take}
use cooboc.Base.Int.{pos}
use cooboc.Websocket.{WsHandler, Service, closed, touch_server, daemon}
use cooboc.Websocket.Handlers.{Entry, HandlerMap, register_handler, remove_handler, lookup_handler}
use cooboc.Websocket.Table.{IsTable, remove_handler-entries}
use cooboc.Websocket.Search.{lookup_entry, erase_entry}
use cooboc.Websocket.Lifecycle.{established, closing, IsOff, cycles, reconnects}
use cooboc.Websocket.Connection.{refused, touch_server-IsConsistent, refused_rounds_overflow}

abbrev entry : ℕ → ℕ → Entry
entry c h = record { ctx = c; handler = h }

-- Two entries and two free places.
abbrev two : HandlerMap
two = record {
  slots = entry 11 1 ∷ entry 22 2 ∷ entry 0 0 ∷ entry 0 0 ∷ [];
  handler_length = pos 2;
}

two-IsTable : IsTable two 2
two-IsTable = record { counted = refl; fits = omega arith }

remove_handler-entries_example :
    IsTable (remove_handler two 11) 1 × (take 1 (remove_handler two 11).slots ≡ entry 22 2 ∷ [])
unfolding lookup_entry erase_entry
remove_handler-entries_example = remove_handler-entries two 1 11 two-IsTable (the_handler)
  where
    the_handler : lookup_entry 11 (take 2 two.slots) ≡ some 1
    the_handler = refl

abbrev good : WsHandler
good = record {
  is_good = true;
  is_running = true;
  ws_status = 1;
  ctx = 22;
  send_buffer = [];
  received = [];
  has_new_message = false;
  written = [];
  handler_map = two;
}

abbrev off : WsHandler
off = record good { is_good = false; ws_status = 0 }

abbrev closes : Service
closes = record { reasons = closed ∷ []; failed = false }

touch_server-IsConsistent_example :
    (touch_server 2 good closes).is_good ≡ ((touch_server 2 good closes).ws_status == 1)
touch_server-IsConsistent_example = touch_server-IsConsistent 2 good closes refl

found : lookup_handler two 22 ≡ some 2
unfolding lookup_handler
found = refl

abbrev three : HandlerMap
three = record {
  slots = entry 11 1 ∷ entry 22 2 ∷ entry 33 2 ∷ entry 0 0 ∷ [];
  handler_length = pos 3;
}

registered : register_handler off.handler_map 33 2 ≡ some three
unfolding register_handler
registered = refl

found_in_three : lookup_handler three 33 ≡ some 2
unfolding lookup_handler
found_in_three = refl

refused_rounds_overflow_example : daemon 2 off (map refused (33 ∷ 44 ∷ 55 ∷ [])) ≡ none
refused_rounds_overflow_example =
    refused_rounds_overflow 2 off 2 (33 ∷ 44 ∷ 55 ∷ []) refl refl two-IsTable (omega arith)

-- A handler without a connection, with one other entry.
abbrev new_handler : WsHandler
new_handler = record good {
  is_good = false;
  ws_status = 0;
  handler_map = record two { handler_length = pos 1 };
}

new_handler-IsOff : IsOff (entry 11 1 ∷ []) new_handler
new_handler-IsOff = record {
  running = refl;
  disconnected = refl;
  not_good = refl;
  table = record { counted = refl; fits = omega arith };
  others = refl;
  room = omega arith;
}

-- The same context may come again after it was closed.
reconnects_example :
    (w' : WsHandler) × (daemon 2 new_handler
        (established 5 ∷ closing ∷ established 5 ∷ closing ∷ established 6 ∷ closing ∷ [])
      ≡ some w')
    × IsOff (entry 11 1 ∷ []) w'
unfolding cycles lookup_entry
reconnects_example =
    reconnects 2 (entry 11 1 ∷ []) (5 ∷ 5 ∷ 6 ∷ []) new_handler new_handler-IsOff
      (refl, (refl, (refl, tt)))
