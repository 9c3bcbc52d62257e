-- ===== src/Headrest/Tests.antt =====
-- Runs of the application of chicken/chicken.cpp on a concrete board, driver and web socket.
use cooboc.Base.{
  ℕ, ◌≡◌, refl, true, false, some, List, [], ◌∷◌, arith, map, replicate, length-replicate,
}
use cooboc.Base.Int.{pos, negsuc}
use cooboc.HrDriver.{HrDriver, new_hr_driver}
use cooboc.Firmware.{Sketch, Round, up, stop, report, loop}
use cooboc.Firmware.Commanded.{moved}
use cooboc.Websocket.{WsHandler, Service, new_ws_handler}
use cooboc.Websocket.Handlers.{Entry, HandlerMap, lookup_handler}
use cooboc.Websocket.Table.{lookup_handler-entries}
use cooboc.Websocket.Search.{lookup_entry}
use cooboc.Websocket.Lifecycle.{established, closing, IsOff}
use cooboc.Link.{Clock, IsTimely, IsWaiting, stamp}
use cooboc.Headrest.{
  App, round_step, read_step, daemon_step, run, decimal, distance_text, move_up_text, main,
}
use cooboc.Headrest.Objects.{get_hr, get_hr_display, object_rounds}
use cooboc.Headrest.Objects.Rounds.{objects, object_rounds_lem}
use cooboc.Headrest.Text.{read_distances, read_distances-distance_text}
use cooboc.Headrest.Commands.{message}
use cooboc.Headrest.Distances.{writeable}
use cooboc.Headrest.Startup.{after_connections, shown_after_connections}
use cooboc.Headrest.Circle.{command_goes_round}

abbrev driver : HrDriver
driver = record {
  is_read_thread_running = true;
  has_new_data = false;
  hr_position = pos 0;
  dist0 = 0;
  dist1 = 0;
  read_data_buffer = replicate 1024 0;
  modem = record {
    is_packet_locked = false;
    packet_index = 0;
    payload_index = 0;
    payload_size = 0;
    last_decode_time = 0;
    payload_buffer = replicate 1024 0;
  };
  sent = [];
}

abbrev table : HandlerMap
table = record {
  slots = record { ctx = 22; handler = 2 } ∷ record { ctx = 0; handler = 0 } ∷ [];
  handler_length = pos 1;
}

abbrev socket : WsHandler
socket = record {
  is_good = true;
  is_running = true;
  ws_status = 1;
  ctx = 22;
  send_buffer = [];
  received = [];
  has_new_message = false;
  written = [];
  handler_map = table;
}

abbrev app : App
app = record { hr = driver; display = socket }

found : lookup_handler table 22 ≡ some 2
unfolding lookup_entry
found = lookup_handler-entries table 1 22 (record { counted = refl; fits = omega arith })

abbrev sketch : Sketch
sketch = record { status = stop; position = 5 }

abbrev clock : Clock
clock i = (70000, 70000)

clock-IsTimely : IsTimely clock
clock-IsTimely i = omega arith

driver-IsWaiting : IsWaiting driver
driver-IsWaiting = record { unlocked = refl; storage = length-replicate {A = ℕ} 1024 0 }

-- The board stands one below 0, that is at -1, and moves up.
command_goes_round_example :
    (a1 a2 : App) × (r : Round) × (bytes t : List ℕ) × (run 2 app
        (daemon_step (message move_up_text) ∷ round_step writeable ∷ [])
      ≡ some a1)
    × (a1.hr.sent ≡ b'w' ∷ [])
    × (loop (record sketch { position = 65535 }) (b'w' ∷ []) true (true ∷ []) 300 70
        ≡ some (r, bytes))
    × (r.sketch.position ≡ 0)
    × (run 2 a1 (read_step (stamp clock 0 bytes) ∷ round_step writeable ∷ []) ≡ some a2)
    × (a2.hr.hr_position ≡ pos 0)
    × (a2.display.written ≡ t ∷ [])
    × (read_distances t ≡ some (300, 70))
unfolding moved
command_goes_round_example =
    command_goes_round 2 app up writeable (record sketch { position = 65535 }) true true [] clock
      300 70 refl refl found refl driver-IsWaiting clock-IsTimely (omega arith) (omega arith)
      (omega arith)

-- Another handler has the first entry of the table.
abbrev other_entry : List Entry
other_entry = record { ctx = 11; handler = 7 } ∷ []

abbrev other_table : HandlerMap
other_table = record {
  slots = record { ctx = 11; handler = 7 } ∷ record { ctx = 0; handler = 0 } ∷ [];
  handler_length = pos 1;
}

abbrev new_app : App
new_app = record {
  hr = new_hr_driver (replicate 1024 0) (replicate 1024 0);
  display = new_ws_handler other_table 0;
}

new_display-IsOff : IsOff other_entry (new_ws_handler other_table 0)
unfolding new_ws_handler
new_display-IsOff = record {
  running = refl;
  disconnected = refl;
  not_good = refl;
  table = record { counted = refl; fits = omega arith };
  others = refl;
  room = omega arith;
}

new_driver-IsWaiting : IsWaiting (new_hr_driver (replicate 1024 0) (replicate 1024 0))
unfolding new_hr_driver
new_driver-IsWaiting = record { unlocked = refl; storage = length-replicate {A = ℕ} 1024 0 }

shown_after_connections_example :
    (a' : App) × (t : List ℕ) × (run 2 new_app (
        daemon_step (established 5)
        ∷ daemon_step closing
        ∷ daemon_step (established 6)
        ∷ read_step (stamp clock 0 (report 65535 300 70))
        ∷ round_step writeable
        ∷ [])
      ≡ some a')
    × (a'.display.written ≡ t ∷ [])
    × (read_distances t ≡ some (300, 70))
    × (a'.hr.has_new_data ≡ false)
    × (a'.hr.hr_position ≡ negsuc 0)
unfolding new_ws_handler after_connections lookup_entry
shown_after_connections_example =
    shown_after_connections 2 other_entry new_app (5 ∷ []) 6 clock 65535 300 70 new_display-IsOff
      (refl, tt) refl new_driver-IsWaiting clock-IsTimely (omega arith) (omega arith) (omega arith)

read_distances-distance_text_example : read_distances (distance_text 300 0) ≡ some (300, 0)
read_distances-distance_text_example = read_distances-distance_text 300 0

three_hundred : decimal 300 ≡ b'3' ∷ b'0' ∷ b'0' ∷ []
unfolding decimal
three_hundred = refl

-- Another application leaves everything as it is.
other_application :
    (a : App) (service : Service)
    → main 0 (b'c' ∷ b'a' ∷ b'r' ∷ []) a (round_step service ∷ []) ≡ some a
unfolding main
other_application a service = refl

-- New distances and a command wait, and a second round finds neither.
abbrev busy_driver : HrDriver
busy_driver = record driver { has_new_data = true; dist0 = 300; dist1 = 70 }

abbrev busy_socket : WsHandler
busy_socket = record socket { has_new_message = true; received = move_up_text }

abbrev services : List Service
services = writeable ∷ writeable ∷ []

object_rounds_lem_example :
    (a : App) × (run 2
        (record { hr = busy_driver; display = busy_socket })
        (map round_step services)
      ≡ some a)
    × (object_rounds 2 (get_hr busy_driver) (get_hr_display (b'h' ∷ []) 8080 busy_socket) services
        ≡ some (objects (b'h' ∷ []) 8080 a))
object_rounds_lem_example = object_rounds_lem (b'h' ∷ []) 8080 2 busy_driver busy_socket services
