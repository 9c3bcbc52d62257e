-- ===== src/Headrest/Commands.antt =====
-- From a message of the web socket (chicken/chicken.cpp) to the board (arduino/hr/hr.ino).
use cooboc.Base.{ℕ, ◌≡◌, ◌≢◌, refl, ap, ◌∙◌, Bool, true, false, some, List, [], ◌∷◌, ◌++◌, arith}
use cooboc.Base.Texts.{same_text_differs}
use cooboc.HrDriver.{HrDriver}
use cooboc.HrDriver
use cooboc.Websocket.Connection.{message_received}
use cooboc.Websocket.{
  until_zero, get_received_message, Service, Attempt, client_receive, status_connected,
}
use cooboc.Websocket.Handlers.{lookup_handler}
use cooboc.Firmware.{Sketch, Moving, up, down, stop, read_commands}
use cooboc.Firmware.Commanded.{command_byte}
use cooboc.Headrest.{
  App, Step, round_step, daemon_step, run, obey, take_command, show_distances, round, step,
  move_up_text, move_down_text, stop_move_text, reset_text,
}

-- The text in the message for the board's state.
abbrev pub text : Moving → List ℕ
text up = move_up_text
text down = move_down_text
text stop = stop_move_text

-- A service call that brings one message.
abbrev pub message : List ℕ → Attempt
message bytes = record {
  new_ctx = 0;
  early = [];
  connected = false;
  service = record { reasons = client_receive bytes ∷ []; failed = false };
}

pub obey-text :
    (d : HrDriver) (c : Moving)
    → obey d (text c) ≡ record d { sent = d.sent ++ (command_byte c ∷ []) }
unfolding obey HrDriver.move_up HrDriver.move_down HrDriver.stop_move
obey-text d up = refl
obey-text d down = refl
obey-text d stop = refl

-- Any text but the four commands is ignored.
other_text_ignored :
    (d : HrDriver) (m : List ℕ)
    → m ≢ move_up_text
    → m ≢ move_down_text
    → m ≢ stop_move_text
    → m ≢ reset_text
    → obey d m ≡ d
unfolding obey
other_text_ignored d m h1 h2 h3 h4 =
    rw
      (
        same_text_differs m _ h1,
        same_text_differs m _ h2,
        same_text_differs m _ h3,
        same_text_differs m _ h4,
      )
      refl

until_zero-text : (c : Moving) → until_zero (text c) ≡ text c
unfolding until_zero
until_zero-text up = refl
until_zero-text down = refl
until_zero-text stop = refl

board_reads :
    (s : Sketch) (c : Moving) (readings : List Bool)
    → read_commands s (command_byte c ∷ []) readings
      ≡ some (record { sketch = record s { status = c }; effects = []; readings = readings })
unfolding read_commands
board_reads s up readings = refl
board_reads s down readings = refl
board_reads s stop readings = refl

take_command_lem :
    (a : App) (m : List ℕ)
    → a.display.has_new_message ≡ true
    → a.display.received ≡ m
    → (take_command a).hr ≡ obey a.hr m
unfolding take_command get_received_message
take_command_lem a m new e = ground arith

pub told_by_daemon :
    (me : ℕ) (a : App) (c : Moving)
    → a.display.ws_status ≡ status_connected
    → lookup_handler a.display.handler_map a.display.ctx ≡ some me
    → step me a (daemon_step (message (text c)))
      ≡ some
          (record a { display = record (a.display) { received = text c; has_new_message = true } })
unfolding step
told_by_daemon me a c connected found =
    rw (message_received me a.display (message (text c)) (text c) refl connected found, step)
      (rw (until_zero-text c) refl)

pub then_round :
    (me : ℕ) (a a1 : App) (s : Step) (service : Service)
    → step me a s ≡ some a1
    → run me a (s ∷ round_step service ∷ []) ≡ some (round me a1 service)
unfolding run
then_round me a a1 s service h = rw (h, run) refl

quiet_round :
    (me : ℕ) (a : App) (m : List ℕ) (service : Service)
    → a.hr.has_new_data ≡ false
    → a.display.has_new_message ≡ true
    → a.display.received ≡ m
    → (round me a service).hr ≡ obey a.hr m
unfolding round show_distances
quiet_round me a m service quiet new e = simp quiet (take_command_lem a m new e)

-- A motion command that the web socket of a connected display, its handler in the table, receives is the next byte to the
-- board, when the application finds no new data in that round; and a board that reads this byte
-- alone takes the motion up, without a movement yet.
command_reaches_board :
    (me : ℕ) (a : App) (c : Moving) (service : Service) (s : Sketch) (readings : List Bool)
    → a.display.ws_status ≡ status_connected
    → lookup_handler a.display.handler_map a.display.ctx ≡ some me
    → a.hr.has_new_data ≡ false
    → (a' : App) × (run me a (daemon_step (message (text c)) ∷ round_step service ∷ []) ≡ some a')
      × (a'.hr.sent ≡ a.hr.sent ++ (command_byte c ∷ []))
      × (read_commands s (command_byte c ∷ []) readings
          ≡ some (record { sketch = record s { status = c }; effects = []; readings = readings }))
command_reaches_board me a c service s readings connected found quiet = (
  round me told service,
  then_round me a told (daemon_step (message (text c))) service
      (told_by_daemon me a c connected found),
  ap (λ (d : HrDriver). d.sent)
      (quiet_round me told (text c) service quiet refl refl ∙ obey-text a.hr c),
  board_reads s c readings,
)
  where
    told : App
    told = record a { display = record (a.display) { received = text c; has_new_message = true } }
